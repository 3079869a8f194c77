-- ===== src/Http/Request/Content.antt =====
-- http/src/parser.cpp: `parse_content` on a request with a host field and no codings.
use beemo.Common.{
  ℕ, Bool, true, false, not, ◌&&◌, List, [], ◌∷◌, none, some, ok, ◌≡◌, refl, ◌∙◌, arith, if-true,
}
use beemo.Text.{Bytes, codes, equal, equal_iff, substr, find_char}
use beemo.Utils.{lowercase_str}
use beemo.Keyword.{keyword_val, hash, match_word}
use beemo.Http.Config.{Config}
use beemo.Http.Err.{ErrBuilder, bad_req_handler, not_impl_handler}
use beemo.Http.Fields.{Fields, find_field, contains, put_field, read_field, find_field-put_field}
use beemo.Http.Msg.{
  Req, host_header_token, transfer_encoding_token, content_type_token, content_encoding_token,
}
use beemo.Http.WrittenText.{put_fields}
use beemo.Http.Content.{
  parse_field_list, parse_content_len, parse_content_type, read_content_type, read_fields,
  read_content, parse_content, is_misdirected, is_bad_host,
}

-- No field has the name, in lower case.
abbrev pub lacks_name : Bytes → List (Bytes × Bytes) → Bool
lacks_name k [] = true
lacks_name k ((name, value) ∷ fs) = not (equal (lowercase_str name) k) && lacks_name k fs

pub find_field-put_fields :
    (k : Bytes) (l : List (Bytes × Bytes)) (fs : Fields)
    → lacks_name k l ≡ true
    → find_field k (put_fields l fs) ≡ find_field k fs
find_field-put_fields k [] fs h = refl
find_field-put_fields k ((name, value) ∷ l) fs h = ground (
  arith,
  find_field-put_fields k l (put_field (lowercase_str name) value fs),
  find_field-put_field (lowercase_str name) k value fs,
)

pub contains-none : (k : Bytes) (fs : Fields) → find_field k fs ≡ none → contains k fs ≡ false
unfolding contains
contains-none k fs h = rw h refl

-- The values of "application" and "json".
abbrev pub default_media_type : ℕ
default_media_type = 1

abbrev pub default_media_subtype : ℕ
default_media_subtype = 2

read_content_type-default :
    (r : Req)
    → read_content_type r (codes "application/json")
      ≡ ok (record r { media_type = default_media_type; media_subtype = default_media_subtype })
unfolding read_content_type substr keyword_val find_char hash match_word
read_content_type-default r = refl

pub find_field_put : (k v : Bytes) (fs : Fields) → find_field k (put_field k v fs) ≡ some v
find_field_put k v fs =
    find_field-put_field k k v fs ∙ if-true (equal k k) _ _ ((equal_iff k k).1 refl)

-- The request with the default content type, a length, and no codings.
abbrev pub typed : ℕ → Req → Req
typed n r = record r {
  transfer_encodings = [];
  content_encodings = [];
  content_len = n;
  media_type = default_media_type;
  media_subtype = default_media_subtype;
  fields = put_field content_type_token (codes "application/json") r.fields;
}

pub parse_content_type-default :
    (r : Req)
    → find_field content_type_token r.fields ≡ none
    → parse_content_type r
      ≡ ok (record r {
        media_type = default_media_type;
        media_subtype = default_media_subtype;
        fields = put_field content_type_token (codes "application/json") r.fields;
      })
unfolding parse_content_type read_field
parse_content_type-default r h =
    rw
      (
        contains-none content_type_token r.fields h,
        find_field_put content_type_token (codes "application/json") r.fields,
        read_content_type-default (record r {
          fields = put_field content_type_token (codes "application/json") r.fields;
        }),
      )
      refl

abbrev pub no_codings : Req → Req
no_codings r = record r { transfer_encodings = []; content_encodings = [] }

pub parse_field_list-none :
    (r : Req) (name : Bytes) (handler : ErrBuilder)
    → find_field name r.fields ≡ none
    → parse_field_list r name handler ≡ (r, [])
unfolding parse_field_list
parse_field_list-none r name handler h = rw (h, parse_field_list) refl

read_field-some : (k v : Bytes) (fs : Fields) → find_field k fs ≡ some v → read_field k fs ≡ (v, fs)
unfolding read_field
read_field-some k v fs h = rw h refl

pub read_fields_plain :
    (r : Req) (n : ℕ)
    → find_field transfer_encoding_token r.fields ≡ none
    → find_field content_encoding_token r.fields ≡ none
    → find_field content_type_token r.fields ≡ none
    → parse_content_len (no_codings r) ≡ ok (record (no_codings r) { content_len = n })
    → read_fields r ≡ ok (typed n r)
unfolding read_fields
read_fields_plain r n te ce ct len =
    rw
      (
        parse_field_list-none r transfer_encoding_token not_impl_handler te,
        parse_field_list-none (record r { transfer_encodings = [] }) content_encoding_token
            bad_req_handler ce,
        len,
      )
      (parse_content_type-default (record (no_codings r) { content_len = n }) ct)

-- A content type that is there is read again.
parse_content_type-given :
    (r : Req)
    → find_field content_type_token r.fields ≡ some (codes "application/json")
    → parse_content_type r
      ≡ ok (record r { media_type = default_media_type; media_subtype = default_media_subtype })
unfolding parse_content_type contains
parse_content_type-given r h =
    rw (h, read_field-some content_type_token (codes "application/json") r.fields h)
      (read_content_type-default r)

pub read_fields-given :
    (r : Req) (n : ℕ)
    → find_field transfer_encoding_token r.fields ≡ none
    → find_field content_encoding_token r.fields ≡ none
    → find_field content_type_token r.fields ≡ some (codes "application/json")
    → parse_content_len (no_codings r) ≡ ok (record (no_codings r) { content_len = n })
    → read_fields r
      ≡ ok (record (no_codings r) {
        content_len = n;
        media_type = default_media_type;
        media_subtype = default_media_subtype;
      })
unfolding read_fields
read_fields-given r n te ce ct len =
    rw
      (
        parse_field_list-none r transfer_encoding_token not_impl_handler te,
        parse_field_list-none (record r { transfer_encodings = [] }) content_encoding_token
            bad_req_handler ce,
        len,
      )
      (parse_content_type-given (record (no_codings r) { content_len = n }) ct)

-- The content of a request for this server is read as its fields tell.
pub parse_content_fields :
    (fuel : ℕ) (raw : Bytes) (r r' : Req) (config : Config) (host : Bytes)
    → is_misdirected r config ≡ false
    → is_bad_host r config ≡ false
    → find_field host_header_token r.fields ≡ some host
    → read_fields r ≡ ok r'
    → parse_content fuel raw r config ≡ read_content fuel raw r'
unfolding parse_content
parse_content_fields fuel raw r r' config host here good hosted fields =
    rw (here, good, read_field-some host_header_token host r.fields hosted, fields) refl
