-- ===== src/Http/Body.antt =====
-- What `parse_content` does with the content, once the fields are read.
use beemo.Common.{
  ℕ, true, false, List, [], ◌∷◌, Result, ok, ◌≡◌, refl, arith, ◌==◌, length, take, ltb,
  if◌then◌else◌, Bool-cases, inl, inr, le→leb,
}
use beemo.Text.{Bytes, substr}
use beemo.Http.Err.{bad_req_handler, len_required_handler}
use beemo.Http.Fields.{contains}
use beemo.Http.Msg.{Req, complete, get, content_length_token, has_err, set_err}
use beemo.Http.Content.{read_content, decode_body}

-- The content of a request with a length and no codings.
abbrev pub with_length : ℕ → Bytes → Req → Result Req
with_length n raw r =
    if ltb (length raw) n then ok r else ok (record r { parse_state = complete; body = take n raw })

-- A request with a content length and no transfer or content coding waits, unchanged, until that
-- many bytes are there. Then it is complete, and its content is those bytes, whatever follows them.
pub read_content-with_length :
    (fuel : ℕ) (raw : Bytes) (r : Req)
    → has_err r ≡ false
    → r.transfer_encodings ≡ []
    → r.content_encodings ≡ []
    → contains content_length_token r.fields ≡ true
    → read_content fuel raw r ≡ with_length r.content_len raw r
unfolding read_content substr decode_body
read_content-with_length fuel raw r h t c l =
    rw (h, t, l, c, le→leb 0 (length raw) (omega arith)) refl

-- A request with no length and no transfer coding has no content, and only a "get" may come so:
-- any other method is refused with 411.
pub read_content_bare :
    (fuel : ℕ) (raw : Bytes) (r : Req)
    → has_err r ≡ false
    → r.transfer_encodings ≡ []
    → r.content_encodings ≡ []
    → contains content_length_token r.fields ≡ false
    → read_content fuel raw r ≡ (
        if r.method == get
        then ok (record r { parse_state = complete })
        else ok (set_err r len_required_handler))
unfolding read_content decode_body
read_content_bare fuel raw r h t c l = elim (Bool-cases (r.method == get)) [
  | inl e ↦ rw (h, t, l, c, e) refl
  | inr e ↦ rw (h, t, l, c, e) refl
]

-- A transfer coding and a content length together are refused with 400, whatever follows.
read_content_both :
    (fuel : ℕ) (raw : Bytes) (r : Req) (enc : ℕ) (encs : List ℕ)
    → has_err r ≡ false
    → r.transfer_encodings ≡ enc ∷ encs
    → contains content_length_token r.fields ≡ true
    → read_content fuel raw r ≡ ok (set_err r bad_req_handler)
unfolding read_content
read_content_both fuel raw r enc encs h t l = rw (h, t, l) refl
