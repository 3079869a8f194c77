-- ===== src/Http/Request/Line.antt =====
-- http/src/parser.cpp: `parse_req_line` on a line with a target in origin form.
use beemo.Common.{
  ℕ, ◌+◌, true, false, ◌&&◌, [], ◌∷◌, ◌++◌, some, pos, ok, ◌≡◌, refl, ap, ◌∙◌, sym, arith, ◌==◌,
  ltb, leb, length, is_empty, if-false, append_assoc, length-append, take-length-append,
}
use beemo.Text.{
  Bytes, codes, find_char_from, find_char-hit, substr, range, range_suffix, stoi, lacks,
}
use beemo.Uri.{Uri, flag_path, flag_query}
use beemo.Uri.Parser.{parse_uri}
use beemo.Keyword.{keyword_val}
use beemo.Http.Msg.{Req, headers, origin, method_invalid}
use beemo.Http.Written.{substr_in}
use beemo.Http.WrittenText.{drop_behind, range_between}
use beemo.Http.ReqLine.{
  check_uri, parse_target_uri, parse_req_target, parse_version, parse_after_target,
  parse_target_part, parse_method_part, parse_req_line,
}
use beemo.Http.Request.{request_line}

abbrev version_text : Bytes
version_text = codes "HTTP/1.1"

parse_version-text :
    (r : Req)
    → parse_version version_text r
      ≡ ok (record r { version = record { major = pos 1; minor = pos 1 } })
unfolding parse_version substr stoi
parse_version-text r = refl

-- The length of a line is never refused.
short_enough : (line : Bytes) (n : ℕ) → (is_empty line && ltb n (length line)) ≡ false
short_enough [] n = ground arith
short_enough (c ∷ cs) n = refl

module _ (method target : Bytes) where
  abbrev line : Bytes
  line = request_line method target

  length-line : length line ≡ length method + 1 + length target + 9
  length-line = omega (
    arith,
    length-append method (b' ' ∷ (target ++ (b' ' ∷ version_text))),
    length-append target (b' ' ∷ version_text),
  )

  target_end :
      lacks b' ' target ≡ true
      → find_char_from b' ' line (length method + 1) ≡ some (length method + 1 + length target)
  target_end h =
      let rest = target ++ (b' ' ∷ version_text) in
      rw
        (
          drop_behind method (b' ' ∷ rest) 1 (length method + 1) refl,
          find_char-hit b' ' target version_text h,
        )
        refl

  target-range : range line (length method + 1) (length method + 1 + length target) ≡ ok target
  target-range =
      let rest = target ++ (b' ' ∷ version_text) in
      ap (λ s. range s (length method + 1) (length method + 1 + length target))
        (sym (append_assoc method (b' ' ∷ []) rest))
      ∙ range_between (method ++ b' ' ∷ []) target (b' ' ∷ version_text) (length method + 1) _
          (length-append method (b' ' ∷ [])) refl

  version_range : range line (length method + 1 + length target + 1) (length line) ≡ ok version_text
  version_range =
      let before = method ++ (b' ' ∷ (target ++ (b' ' ∷ []))) in
      let flat : before ++ version_text ≡ line =
        append_assoc method (b' ' ∷ (target ++ (b' ' ∷ []))) version_text
        ∙ ap (λ t. method ++ (b' ' ∷ t)) (append_assoc target (b' ' ∷ []) version_text) in
      let at : length before ≡ length method + 1 + length target + 1 = omega (
        arith,
        length-append method (b' ' ∷ (target ++ (b' ' ∷ []))),
        length-append target (b' ' ∷ []),
      ) in
      rw (← flat, ← at) (range_suffix before version_text)

pub check_uri_fine : (r : Req) → r.uri.has_err ≡ false → check_uri r ≡ r
check_uri_fine r h = if-false r.uri.has_err _ _ h

parse_req_target-origin :
    (t : Bytes) (r : Req) (u : Uri)
    → parse_uri r.uri (b'/' ∷ t) (flag_path + flag_query) ≡ ok u
    → u.has_err ≡ false
    → parse_req_target (b'/' ∷ t) r ≡ ok (record r { target_form = origin; uri = u })
unfolding parse_req_target parse_target_uri
parse_req_target-origin t r u parsed fine =
    rw parsed (ap ok (check_uri_fine (record r { target_form = origin; uri = u }) fine))

parse_after_target-version :
    (method target : Bytes) (r : Req)
    → parse_after_target (request_line method target) (length method + 1 + length target) r
      ≡ ok (record r { parse_state = headers; version = record { major = pos 1; minor = pos 1 } })
unfolding parse_after_target
parse_after_target-version method target r =
    let long : leb (length (request_line method target)) (length method + 1 + length target + 1)
        ≡ false =
      ground (arith, length-line method target) in
    rw (long, version_range method target, parse_version-text r) refl

-- A request line with a known method and a target in origin form is accepted, if the target is: the
-- method, the target, the version and the state are set, and nothing else changes.
pub parse_req_line-request_line :
    (method t : Bytes) (n : ℕ) (r : Req) (u : Uri)
    → lacks b' ' method ≡ true
    → (keyword_val method == method_invalid) ≡ false
    → lacks b' ' (b'/' ∷ t) ≡ true
    → parse_uri r.uri (b'/' ∷ t) (flag_path + flag_query) ≡ ok u
    → u.has_err ≡ false
    → parse_req_line (request_line method (b'/' ∷ t)) n r
      ≡ ok (record r {
        target_form = origin;
        parse_state = headers;
        version = record { major = pos 1; minor = pos 1 };
        method = keyword_val method;
        uri = u;
      })
unfolding parse_req_line parse_method_part parse_target_part
parse_req_line-request_line method t n r u free known spaces parsed fine =
    let target = b'/' ∷ t in
    let r₁ = record r { method = keyword_val method } in
    rw
      (
        short_enough (request_line method target) n,
        find_char-hit b' ' method (target ++ (b' ' ∷ version_text)) free,
        substr_in (request_line method target) 0 (length method)
            (omega (arith, length-line method target)),
        take-length-append method (b' ' ∷ (target ++ (b' ' ∷ version_text))),
        known,
        target_end method target spaces,
        target-range method target,
        parse_req_target-origin t r₁ u parsed fine,
      )
      (parse_after_target-version method target (record r₁ { target_form = origin; uri = u }))
