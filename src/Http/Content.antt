-- ===== src/Http/Content.antt =====
-- http/src/parser.cpp: the content, with `parse_field_list` of http/include/http/parser.h and the
-- table of decoders.
use beemo.Common.{
  ℕ, suc, ◌+◌, ◌%◌, ◌^◌, Bool, true, false, not, ◌&&◌, ◌||◌, List, [], ◌∷◌, none, some, to_unsigned,
  Result, ok, throw, undefined, out_of_range, bad_function_call, ◌>>=◌, ◌==◌, ltb, leb,
  if◌then◌else◌, length, is_empty,
}
use beemo.Text.{on_byte, Bytes, codes, equal, find_char, find_char_from, substr, stoi, is_digit}
use beemo.Utils.{parse_list, parse_pattern}
use beemo.Keyword.{keyword_val}
use beemo.Http.Config.{Config}
use beemo.Http.Err.{
  ErrBuilder, bad_req_handler, not_impl_handler, len_required_handler, misdirected_req_handler,
  unsupported_media_type_handler,
}
use beemo.Http.Fields.{find_field, contains, put_field, read_field}
use beemo.Http.Msg.{
  Req, complete, get, chunked, invalid_encoding, media_type_invalid, media_subtype_invalid,
  host_header_token, content_length_token, transfer_encoding_token, content_type_token,
  content_encoding_token, has_err, set_err,
}
use beemo.Http.Chunked.{or_npos, sub_size, decode_chunked}

-- The loop over the tokens: the values up to the first that is none, and whether there is one.
unfoldable pub coding_values : List Bytes → List ℕ × Bool
coding_values [] = ([], false)
coding_values (token ∷ tokens) =
    let (vals, failed) = coding_values tokens in
    if keyword_val token == invalid_encoding then ([], true) else (keyword_val token ∷ vals, failed)

-- `list_ptr` is never null: `parse_list` cannot change it.
unfoldable pub parse_field_list : Req → Bytes → ErrBuilder → Req × List ℕ
unfolding coding_values
parse_field_list r name handler = elim (find_field name r.fields) [
  | none ↦ (r, [])
  | some list ↦
      let (vals, failed) = coding_values (parse_list list) in
      (if failed then set_err r handler else r, vals)
]

read_content_len : Req → Bytes → Result Req
read_content_len r value = do
  is_valid ← parse_pattern (on_byte is_digit) value 0 (length value)
  if is_empty value || not is_valid
      then ok (set_err r bad_req_handler)
      else do n ← stoi value; ok (record r { content_len = to_unsigned n })

unfoldable pub parse_content_len : Req → Result Req
unfolding read_content_len
parse_content_len r =
    if not (contains content_length_token r.fields) || contains transfer_encoding_token r.fields
    then ok r
    else read_content_len r (read_field content_length_token r.fields).0

-- The subtype's length is counted from the '/', and so takes in the ';'.
unfoldable pub read_content_type : Req → Bytes → Result Req
read_content_type r content_type = do
  let type_end = or_npos (find_char b'/' content_type)
  media_type ← substr content_type 0 type_end
  let r' = record r { media_type = keyword_val media_type }
  if r'.media_type == media_type_invalid then ok (set_err r' unsupported_media_type_handler) else do
    let subtype_end = or_npos (find_char_from b';' content_type type_end)
    subtype ← substr content_type ((type_end + 1) % 2 ^ 64) (sub_size subtype_end type_end)
    let r'' = record r' { media_subtype = keyword_val subtype }
    if r''.media_subtype == media_subtype_invalid
        then ok (set_err r'' unsupported_media_type_handler)
        else ok r''

unfoldable pub parse_content_type : Req → Result Req
unfolding read_content_type
parse_content_type r =
    let fields =
      if contains content_type_token r.fields
      then r.fields
      else put_field content_type_token (codes "application/json") r.fields in
    read_content_type (record r { fields = fields }) (read_field content_type_token fields).0

-- `parse_connection` has an empty body.
abbrev pub parse_connection : Req → Req
parse_connection r = r

-- `decode_map.at(enc)(content, req)`. The decoders of gzip, compress, deflate and identity return
-- true and do nothing.
unfoldable pub decode : ℕ → ℕ → Bytes → Req → Result (Bool × Req)
decode fuel enc raw r =
    if enc == invalid_encoding
    then throw bad_function_call
    else if enc == chunked
    then decode_chunked fuel raw r
    else if leb enc 5
    then ok (true, r)
    else throw out_of_range

-- `for (encoding_t enc : req->transfer_encodings)`; false if one asks for more input.
unfoldable pub decode_transfer : ℕ → List ℕ → Bytes → Req → Result (Bool × Req)
unfolding decode
decode_transfer fuel [] raw r = ok (true, r)
decode_transfer fuel (enc ∷ encs) raw r =
    ◌>>=◌ (decode fuel enc raw r)
      λ s. elim s.0 [ true ↦ decode_transfer fuel encs raw s.1 | false ↦ ok (false, s.1) ]

-- The decoder reads the body through a view of it. One that appends to the body may move it, and
-- leave the view dangling.
unfoldable pub decode_body : ℕ → List ℕ → Req → Result Req
unfolding decode
decode_body fuel [] r = ok r
decode_body fuel (enc ∷ encs) r =
    ◌>>=◌ (decode fuel enc r.body r)
      λ s. elim (equal s.1.body r.body) [ true ↦ decode_body fuel encs s.1 | false ↦ undefined ]

abbrev last_is_chunked : List ℕ → Bool
last_is_chunked [] = false
last_is_chunked (e ∷ []) = e == chunked
last_is_chunked (e ∷ f ∷ es) = last_is_chunked (f ∷ es)

abbrev pub count_chunked : List ℕ → ℕ
count_chunked [] = 0
count_chunked (e ∷ es) = if e == chunked then suc (count_chunked es) else count_chunked es

-- The end, where the content is there.
finish_content : ℕ → Req → Result Req
unfolding decode_body
finish_content fuel r = do
  r' ← decode_body fuel r.content_encodings r
  ok (record r' { parse_state = complete })

abbrev when_decoded : ℕ → Bool × Req → Result Req
when_decoded fuel (true, r) = finish_content fuel r
when_decoded fuel (false, r) = ok r

transfer_content : ℕ → Bytes → Req → Result Req
unfolding decode_transfer finish_content
transfer_content fuel raw r =
    if contains content_length_token r.fields
    then ok (set_err r bad_req_handler)
    else if ltb 1 (count_chunked r.transfer_encodings)
        || (count_chunked r.transfer_encodings == 1 && not (last_is_chunked r.transfer_encodings))
    then ok (set_err r bad_req_handler)
    else do s ← decode_transfer fuel r.transfer_encodings raw r; when_decoded fuel s

plain_content : ℕ → Bytes → Req → Result Req
unfolding finish_content
plain_content fuel raw r =
    if contains content_length_token r.fields
    then (if ltb (length raw) r.content_len
        then ok r
        else do body ← substr raw 0 r.content_len; finish_content fuel (record r { body = body }))
    else if not (r.method == get)
    then ok (set_err r len_required_handler)
    else finish_content fuel r

-- From the test of `has_err` on.
unfoldable pub read_content : ℕ → Bytes → Req → Result Req
unfolding transfer_content plain_content
read_content fuel raw r =
    if has_err r
    then ok r
    else if not (is_empty r.transfer_encodings)
    then transfer_content fuel raw r
    else plain_content fuel raw r

abbrev pub set_transfer : Req × List ℕ → Req
set_transfer (r, encs) = record r { transfer_encodings = encs }

abbrev pub set_content : Req × List ℕ → Req
set_content (r, encs) = record r { content_encodings = encs }

-- The lists of codings, the length and the type.
unfoldable pub read_fields : Req → Result Req
read_fields r = do
  let r₁ = set_transfer (parse_field_list r transfer_encoding_token not_impl_handler)
  let r₂ = set_content (parse_field_list r₁ content_encoding_token bad_req_handler)
  r₃ ← parse_content_len r₂
  parse_content_type r₃

abbrev pub is_misdirected : Req → Config → Bool
is_misdirected r config =
    not (to_unsigned r.uri.port == config.listening_port)
    || (not (equal r.uri.ipv4 config.listening_ip)
        && not (equal r.uri.reg_name config.listening_reg_name))

-- The test of the host field, the scheme and the user information; the read enters the field.
abbrev pub is_bad_host : Req → Config → Bool
is_bad_host r config =
    is_empty (read_field host_header_token r.fields).0
    || (not (is_empty r.uri.scheme) && not (equal r.uri.scheme config.default_uri_scheme))
    || not (is_empty r.uri.userinfo)

unfoldable pub parse_content : ℕ → Bytes → Req → Config → Result Req
unfolding read_content read_fields
parse_content fuel raw r config =
    if is_misdirected r config
    then ok (set_err r misdirected_req_handler)
    else (let r' = record r { fields = (read_field host_header_token r.fields).1 } in
        if is_bad_host r config
        then ok (set_err r' bad_req_handler)
        else do r'' ← read_fields r'; read_content fuel raw r'')
