-- ===== src/Http/Request/Chunked.antt =====
-- http/src/parser.cpp: `parse_content` on a whole request with chunked content.
use beemo.Common.{ℕ, ◌^◌, ◌<◌, true, false, List, [], ◌∷◌, some, ok, ◌≡◌, refl, ◌∙◌, length}
use beemo.Text.{Bytes, equal}
use beemo.Utils.{parse_list}
use beemo.Http.Config.{Config}
use beemo.Http.Err.{bad_req_handler, not_impl_handler}
use beemo.Http.Fields.{find_field}
use beemo.Http.Msg.{
  Req, Memory, chunked, content_type_token, content_length_token, transfer_encoding_token,
  content_encoding_token,
}
use beemo.Http.Chunks.{AreChunks, write_chunks, chunks_content, decode_chunked-write_chunks}
use beemo.Http.Content.{
  coding_values, parse_field_list, parse_content_len, read_fields, read_content, decode_transfer,
  decode_body, parse_content,
}
use beemo.Http.Request.Content.{
  lacks_name, typed, contains-none, parse_field_list-none, parse_content_type-default,
  parse_content_fields,
}
use beemo.Http.Request.Whole.{Request, IsRequest, IsFor, host, stored, read_headers, read_request}
use beemo.Http.Request.Served.{stored-none, stored-host, here, good, fields_host, find_behind_type}

parse_field_list-some :
    (r : Req) (name value : Bytes) (vals : List ℕ)
    → find_field name r.fields ≡ some value
    → coding_values (parse_list value) ≡ (vals, false)
    → parse_field_list r name not_impl_handler ≡ (r, vals)
unfolding parse_field_list
parse_field_list-some r name value vals h c = rw (h, c, parse_field_list) refl

module _ (q : Request) where
  -- A field that says that the content is chunked, and none for a length.
  pub record IsChunked : Type 0 where
    pub value : Bytes
    pub given : find_field transfer_encoding_token (stored q) ≡ some value
    pub codings : coding_values (parse_list value) ≡ (chunked ∷ [], false)
    pub no_length : lacks_name content_length_token q.fields ≡ true

  -- The request with its fields read.
  abbrev as_chunked : Memory → Req
  as_chunked m = record (typed 0 (read_headers q m)) { transfer_encodings = chunked ∷ [] }

  -- The request that the handler gets.
  abbrev pub read_chunked : Memory → List (Bytes × Bytes) → Req
  read_chunked m l = record (read_request q m (length (chunks_content l)) (chunks_content l)) {
    transfer_encodings = chunked ∷ [];
    chunked_content_len = length (write_chunks l []);
  }

  read_fields-chunked :
      (m : Memory) → IsRequest q → IsChunked → read_fields (read_headers q m) ≡ ok (as_chunked m)
  unfolding read_fields parse_content_len equal
  read_fields-chunked m h c =
      let r = read_headers q m in
      let r₁ = record r { transfer_encodings = chunked ∷ [] } in
      let none_given =
        contains-none content_length_token (stored q)
          (stored-none q content_length_token c.no_length refl) in
      rw
        (
          parse_field_list-some r transfer_encoding_token c.value (chunked ∷ []) c.given c.codings,
          parse_field_list-none r₁ content_encoding_token bad_req_handler
              (stored-none q content_encoding_token h.fields_coding refl),
          none_given,
        )
        (parse_content_type-default (record r₁ { content_encodings = [] })
          (stored-none q content_type_token h.fields_type refl))

  read_content-chunked :
      (fuel : ℕ) (m : Memory) (l : List (Bytes × Bytes))
      → IsChunked
      → length l < fuel
      → AreChunks l
      → length (write_chunks l []) < 2 ^ 32
      → read_content fuel (write_chunks l []) (as_chunked m) ≡ ok (read_chunked m l)
  unfolding read_content decode_transfer decode_body equal
  read_content-chunked fuel m l c enough chunks fits =
      let none_given = contains-none content_length_token (as_chunked m).fields (
        find_behind_type q content_length_token refl
        ∙ stored-none q content_length_token c.no_length refl) in
      rw
        (
          none_given,
          decode_chunked-write_chunks fuel l (as_chunked m) enough chunks fits refl refl refl,
        )
        refl

  -- Chunks that are all there are the content.
  pub parse_content-chunked :
      (fuel : ℕ) (m : Memory) (config : Config) (l : List (Bytes × Bytes))
      → IsRequest q
      → IsFor q config
      → IsChunked
      → length l < fuel
      → AreChunks l
      → length (write_chunks l []) < 2 ^ 32
      → parse_content fuel (write_chunks l []) (read_headers q m) config ≡ ok (read_chunked m l)
  parse_content-chunked fuel m config l h f c enough chunks fits =
      parse_content_fields fuel (write_chunks l []) (read_headers q m) (as_chunked m) config
        (host q) (here q m config h f) (good q m config h) (stored-host q (fields_host q h))
        (read_fields-chunked m h c)
      ∙ read_content-chunked fuel m l c enough chunks fits
