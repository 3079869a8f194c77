-- ===== src/Http/Request/Length.antt =====
-- http/src/parser.cpp: `parse_content` on a whole request with a content length, at its first call and
-- at later ones.
use beemo.Common.{
  ℕ, ◌-◌, ◌%◌, ◌^◌, ◌<◌, true, false, ◌∷◌, none, some, ok, ◌≡◌, refl, ◌∙◌, arith, length, take,
  take_all, all, le→leb, &&-true,
}
use beemo.Text.{Bytes, codes, equal, is_digit, read_digits, stoi-digits}
use beemo.Utils.Pattern.{parse_pattern-on_byte}
use beemo.Http.Config.{Config}
use beemo.Http.Fields.{find_field, contains, read_field}
use beemo.Http.Msg.{
  Req, Memory, host_header_token, content_type_token, content_length_token, transfer_encoding_token,
  content_encoding_token,
}
use beemo.Http.Content.{parse_content_len, parse_content, is_bad_host}
use beemo.Http.Body.{with_length, read_content-with_length}
use beemo.Http.Request.Content.{lacks_name, find_field_put, read_fields-given, parse_content_fields}
use beemo.Http.Request.Whole.{Request, IsRequest, IsFor, host, stored, read_headers}
use beemo.Http.Request.Served.{
  stored-none, stored-host, here, fields_host, as_read, find_behind_type, parse_content_here,
}

-- The length that the field writes is stored.
pub parse_content_len-digits :
    (r : Req) (d : ℕ) (ds : Bytes)
    → find_field content_length_token r.fields ≡ some (d ∷ ds)
    → find_field transfer_encoding_token r.fields ≡ none
    → all is_digit (d ∷ ds) ≡ true
    → read_digits 0 (d ∷ ds) < 2 ^ 31
    → parse_content_len r ≡ ok (record r { content_len = read_digits 0 (d ∷ ds) })
unfolding parse_content_len contains read_field
parse_content_len-digits r d ds given te digits small =
    let n = read_digits 0 (d ∷ ds) in
    let first = (&&-true (is_digit d) (all is_digit ds) digits).0 in
    let whole : take (length (d ∷ ds) - 0) (d ∷ ds) ≡ d ∷ ds = take_all _ (d ∷ ds) (omega arith) in
    let fits : n % 2 ^ 32 ≡ n = omega arith in
    rw
      (
        given,
        te,
        parse_pattern-on_byte is_digit (d ∷ ds) 0 (length (d ∷ ds)) (omega arith) (omega arith),
        whole,
        digits,
        stoi-digits d ds first,
        le→leb n (2 ^ 31 - 1) (omega arith),
        fits,
      )
      refl

module _ (q : Request) where
  length_read :
      (m : Memory) (n : ℕ) (d : ℕ) (ds : Bytes)
      → find_field content_length_token (stored q) ≡ some (d ∷ ds)
      → contains content_length_token (as_read q m n).fields ≡ true
  unfolding contains equal
  length_read m n d ds given = rw (find_behind_type q content_length_token refl, given) refl

  -- A content length, of digits that fit an `int`.
  pub record HasLength (d : ℕ) (ds : Bytes) : Type 0 where
    pub given : find_field content_length_token (stored q) ≡ some (d ∷ ds)
    pub digits : all is_digit (d ∷ ds) ≡ true
    pub small : read_digits 0 (d ∷ ds) < 2 ^ 31
    pub no_transfer : lacks_name transfer_encoding_token q.fields ≡ true

  -- With a length, the content is that many of the bytes, once they are there.
  pub parse_content-with_length :
      (fuel : ℕ) (raw : Bytes) (m : Memory) (config : Config) (d : ℕ) (ds : Bytes)
      → IsRequest q
      → IsFor q config
      → HasLength d ds
      → let n = read_digits 0 (d ∷ ds) in
        parse_content fuel raw (read_headers q m) config ≡ with_length n raw (as_read q m n)
  unfolding equal
  parse_content-with_length fuel raw m config d ds h f l =
      let n = read_digits 0 (d ∷ ds) in
      parse_content_here q fuel raw m config n h f l.no_transfer (
        parse_content_len-digits _ d ds l.given
          (stored-none q transfer_encoding_token l.no_transfer refl) l.digits l.small)
      ∙ read_content-with_length fuel raw (as_read q m n) refl refl refl
          (length_read m n d ds l.given)

  good_again :
      (m : Memory) (config : Config) (n : ℕ)
      → IsRequest q
      → is_bad_host (as_read q m n) config ≡ false
  unfolding read_field equal
  good_again m config n h =
      rw (find_behind_type q host_header_token refl, stored-host q (fields_host q h)) refl

  -- Called again, while the content is not there, it reads the same fields again.
  pub parse_content-again :
      (fuel : ℕ) (raw : Bytes) (m : Memory) (config : Config) (d : ℕ) (ds : Bytes)
      → IsRequest q
      → IsFor q config
      → HasLength d ds
      → let n = read_digits 0 (d ∷ ds) in
        parse_content fuel raw (as_read q m n) config ≡ with_length n raw (as_read q m n)
  unfolding equal
  parse_content-again fuel raw m config d ds h f l =
      let n = read_digits 0 (d ∷ ds) in
      let type_found = find_field_put content_type_token (codes "application/json") (stored q) in
      let none_transfer =
        find_behind_type q transfer_encoding_token refl
        ∙ stored-none q transfer_encoding_token l.no_transfer refl in
      let none_coding =
        find_behind_type q content_encoding_token refl
        ∙ stored-none q content_encoding_token h.fields_coding refl in
      let hosted = find_behind_type q host_header_token refl ∙ stored-host q (fields_host q h) in
      let len =
        parse_content_len-digits (as_read q m n) d ds
          (find_behind_type q content_length_token refl ∙ l.given) none_transfer l.digits l.small in
      parse_content_fields fuel raw (as_read q m n) (as_read q m n) config (host q)
        (here q m config h f) (good_again m config n h) hosted
        (read_fields-given (as_read q m n) n none_transfer none_coding type_found len)
      ∙ read_content-with_length fuel raw (as_read q m n) refl refl refl
          (length_read m n d ds l.given)
