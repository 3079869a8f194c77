-- ===== src/Http/Request/Served.antt =====
-- http/src/parser.cpp: `parse_content` on a whole request for this server.
use beemo.Common.{
  ℕ, true, false, List, [], ◌∷◌, none, some, ok, ◌≡◌, refl, ◌∙◌, arith, ◌==◌, if-true, if-false,
}
use beemo.Text.{Bytes, codes, equal}
use beemo.Utils.{lowercase_str}
use beemo.Keyword.{keyword_val}
use beemo.Http.Config.{Config}
use beemo.Http.Fields.{Fields, find_field, put_field, read_field, find_field-put_field}
use beemo.Http.Msg.{
  Req, Memory, get, host_header_token, content_type_token, content_length_token,
  transfer_encoding_token, content_encoding_token,
}
use beemo.Http.WrittenText.{NewFields}
use beemo.Http.Content.{read_content, parse_content_len, parse_content, is_misdirected, is_bad_host}
use beemo.Http.Body.{read_content_bare}
use beemo.Http.Request.Content.{
  lacks_name, typed, find_field-put_fields, contains-none, read_fields_plain, parse_content_fields,
}
use beemo.Http.Request.Whole.{
  Request, IsRequest, IsFor, host, stored, name, read_headers, read_request,
}

NewFields-lacks_host :
    (l : List (Bytes × Bytes)) (fs : Fields)
    → NewFields l fs
    → lacks_name host_header_token l ≡ true
NewFields-lacks_host [] fs new = refl
NewFields-lacks_host ((name, value) ∷ l) fs (_, _, other, new) =
    let rest = NewFields-lacks_host l (put_field (lowercase_str name) value fs) new in
    rw (other, rest) refl

module _ (q : Request) where
  pub stored-none :
      (k : Bytes)
      → lacks_name k q.fields ≡ true
      → equal host_header_token k ≡ false
      → find_field k (stored q) ≡ none
  unfolding find_field
  stored-none k h e =
      find_field-put_fields k q.fields ((host_header_token, host q) ∷ []) h ∙ if-false _ _ _ e

  pub stored-host :
      lacks_name host_header_token q.fields ≡ true
      → find_field host_header_token (stored q) ≡ some (host q)
  unfolding find_field equal
  stored-host h =
      find_field-put_fields host_header_token q.fields ((host_header_token, host q) ∷ []) h

  pub here :
      (m : Memory) (config : Config)
      → IsRequest q
      → IsFor q config
      → is_misdirected (read_headers q m) config ≡ false
  here m config h f =
      let small = h.host_good.fits in
      let same = f.port_same in let either = f.name_same in ground arith

  pub good :
      (m : Memory) (config : Config) → IsRequest q → is_bad_host (read_headers q m) config ≡ false
  unfolding read_field
  good m config h = rw (stored-host (NewFields-lacks_host q.fields _ h.fields_new)) refl

  pub fields_host : IsRequest q → lacks_name host_header_token q.fields ≡ true
  fields_host h = NewFields-lacks_host q.fields ((host_header_token, host q) ∷ []) h.fields_new

  abbrev pub as_read : Memory → ℕ → Req
  as_read m n = typed n (read_headers q m)

  -- The default content type hides no other field.
  pub find_behind_type :
      (k : Bytes)
      → equal content_type_token k ≡ false
      → find_field k (put_field content_type_token (codes "application/json") (stored q))
        ≡ find_field k (stored q)
  find_behind_type k e =
      find_field-put_field content_type_token k (codes "application/json") (stored q)
      ∙ if-false _ _ _ e

  -- The content is read as the lengths tell.
  pub parse_content_here :
      (fuel : ℕ) (raw : Bytes) (m : Memory) (config : Config) (n : ℕ)
      → IsRequest q
      → IsFor q config
      → lacks_name transfer_encoding_token q.fields ≡ true
      → parse_content_len
          (record (read_headers q m) { transfer_encodings = []; content_encodings = [] })
        ≡ ok (record (read_headers q m) { content_len = n })
      → parse_content fuel raw (read_headers q m) config ≡ read_content fuel raw (as_read m n)
  unfolding equal
  parse_content_here fuel raw m config n h f bare len =
      parse_content_fields fuel raw (read_headers q m) (as_read m n) config (host q)
        (here m config h f) (good m config h) (stored-host (fields_host h))
        (read_fields_plain (read_headers q m) n (stored-none transfer_encoding_token bare refl)
          (stored-none content_encoding_token h.fields_coding refl)
          (stored-none content_type_token h.fields_type refl) len)

  -- The method is read as "get", and no field tells of content.
  pub record IsGet : Type 0 where
    pub method : keyword_val q.method ≡ get
    pub no_length : lacks_name content_length_token q.fields ≡ true
    pub no_transfer : lacks_name transfer_encoding_token q.fields ≡ true

  -- A "get" with no length is complete, and has no content.
  pub parse_content-get :
      (fuel : ℕ) (raw : Bytes) (m : Memory) (config : Config)
      → IsRequest q
      → IsFor q config
      → IsGet
      → parse_content fuel raw (read_headers q m) config ≡ ok (read_request q m 0 [])
  unfolding parse_content_len equal
  parse_content-get fuel raw m config h f g =
      let no_length = stored-none content_length_token g.no_length refl in
      let none_read = contains-none content_length_token (stored q) no_length in
      let still_none =
        contains-none content_length_token _
          (find_behind_type content_length_token refl ∙ no_length) in
      let is_get : (keyword_val q.method == get) ≡ true = ground (arith, g.method) in
      parse_content_here fuel raw m config 0 h f g.no_transfer (rw none_read refl)
      ∙ read_content_bare fuel raw (as_read m 0) refl refl refl still_none
      ∙ if-true _ _ _ is_get
