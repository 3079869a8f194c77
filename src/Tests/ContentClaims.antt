-- ===== src/Tests/ContentClaims.antt =====
-- The theorems on the request's content at concrete inputs.
use beemo.Common.{◌≡◌, true, [], ◌∷◌, ok, unfinished, refl, arith}
use beemo.Text.{Bytes, codes, equal, is_xdigit, read_hex, find_char, find_str}
use beemo.Http.Fields.{find_field}
use beemo.Http.Msg.{Req, content, chunk_trailers}
use beemo.Http.Content.{parse_content_type}
use beemo.Http.Chunked.{decode_chunked}
use beemo.Http.ChunkRound.{IsChunk}
use beemo.Http.Chunks.{decode_chunked-write_chunks}
use beemo.Http.Endless.{ReadsSize, decode_chunked_endless}
use beemo.Http.MediaType.{IsUnsupported, parse_content_type_parameters}
use beemo.Tests.HeaderClaims.{new_req}

abbrev in_content : Req
in_content = record new_req { parse_state = content; method = 2 }

abbrev with_field : Bytes → Bytes → Req
with_field name value = record in_content { fields = (name, value) ∷ [] }

abbrev sized : Req
sized = record (with_field (codes "content-length") (codes "3")) { content_len = 3 }

ten_bytes : IsChunk (codes "a") (codes "0123 56789")
unfolding is_xdigit read_hex
ten_bytes = record { some_digit = refl; only_digits = refl; size = refl }

decode_chunked-write_chunks_example :
    decode_chunked 2 (codes "a\r\n0123 56789\r\n0\r\n\r\n") in_content
    ≡ ok (
      true,
      record in_content {
        parse_state = chunk_trailers;
        body = codes "0123 56789";
        chunked_content_len = 20;
        content_len = 10;
      },
    )
decode_chunked-write_chunks_example =
    decode_chunked-write_chunks 2 ((codes "a", codes "0123 56789") ∷ []) in_content (omega arith)
      (ten_bytes, refl, tt) (omega arith) refl refl refl

five_first : ReadsSize (codes "5 abcdef5 ") 0 5
unfolding find_char find_str read_hex
five_first = record { space = 1; no_line = refl; has_space = refl; size = refl }

five_again : ReadsSize (codes "5 abcdef5 ") 8 5
unfolding find_char find_str read_hex
five_again = record { space = 9; no_line = refl; has_space = refl; size = refl }

decode_chunked_endless_example : decode_chunked 1000 (codes "5 abcdef5 ") in_content ≡ unfinished
decode_chunked_endless_example =
    decode_chunked_endless 1000 (codes "5 abcdef5 ") 5 in_content five_first five_again
      (omega arith) (omega arith) (omega arith) refl refl

parse_content_type_parameters_example :
    IsUnsupported
      (parse_content_type (with_field (codes "content-type") (codes "text/html;charset=utf-8")))
unfolding find_field equal
parse_content_type_parameters_example =
    parse_content_type_parameters
      (with_field (codes "content-type") (codes "text/html;charset=utf-8")) (codes "text")
      (codes "html") (codes "charset=utf-8") refl refl refl (omega arith)
