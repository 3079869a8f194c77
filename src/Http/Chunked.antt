-- ===== src/Http/Chunked.antt =====
-- http/src/encoding.cpp: `decode_chunked`. Lengths of type `unsigned int` wrap at 2 ^ 32, and
-- positions of type `size_t` at 2 ^ 64.
use beemo.Common.{
  ℕ, zero, suc, ◌+◌, ◌-◌, ◌%◌, ◌^◌, Bool, true, false, Option, none, some, Result, ok, unfinished,
  ◌>>=◌, ◌++◌, ◌==◌, ltb, if◌then◌else◌, length,
}
use beemo.Text.{Bytes, find_char_from, find_str_from, substr, read_hex}
use beemo.Http.Msg.{Req, chunk_trailers, in_content}
use beemo.Http.Headers.{crlf}
use beemo.Http.FieldLine.{parse_field_line}

abbrev pub npos : ℕ
npos = 2 ^ 64 - 1

abbrev pub or_npos : Option ℕ → ℕ
or_npos (some i) = i
or_npos none = npos

-- `a - b`, of type `size_t`.
abbrev pub sub_size : ℕ → ℕ → ℕ
sub_size a b = (a + 2 ^ 64 - b) % 2 ^ 64

-- A round of the first loop asks for more input, or takes a chunk of some size.
pub data Round : Type 0 where
  wait : Round
  taken : ℕ → Req → Round

-- `chunk_size_end`: the first space, or else the line end.
abbrev pub size_end : Option ℕ → Option ℕ → Option ℕ
size_end (some space) line = some space
size_end none line = line

unfoldable pub take_chunk : Bytes → Req → ℕ → ℕ → Result Round
take_chunk raw r header_end n =
    if ltb (sub_size (sub_size (length raw) header_end) 2) n then ok wait else do
      chunk ← substr raw ((header_end + 2) % 2 ^ 64) n
      ok (
          taken n (record r {
            body = r.body ++ chunk;
            chunked_content_len = (header_end % 2 ^ 32 + 2 + n + 2) % 2 ^ 32;
            content_len = (r.content_len + n) % 2 ^ 32;
          }))

unfoldable pub sized_chunk : Bytes → Req → Option ℕ → Option ℕ → Result Round
unfolding take_chunk
sized_chunk raw r header_end none = ok wait
sized_chunk raw r header_end (some e) = do
  digits ← substr raw r.chunked_content_len (e - r.chunked_content_len)
  take_chunk raw r (or_npos header_end) (read_hex digits)

unfoldable pub chunk_round : Bytes → Req → Result Round
unfolding sized_chunk
chunk_round raw r =
    let header_end = find_str_from crlf raw r.chunked_content_len in
    sized_chunk raw r header_end
      (size_end (find_char_from b' ' raw r.chunked_content_len) header_end)

-- The first loop on fuel: whether it came to the chunk of size 0, and the request.
unfoldable pub chunk_loop : ℕ → Bytes → Req → Result (Bool × Req)
chunk_loop zero raw r = unfinished
chunk_loop (suc fuel) raw r = ◌>>=◌ (chunk_round raw r) λ round. elim round [
  | wait ↦ ok (false, r)
  | taken n r' ↦ elim (n == 0) [ true ↦ ok (true, r') | false ↦ chunk_loop fuel raw r' ]
]

-- The loop over the trailer's lines.
unfoldable pub trailer_loop : ℕ → Bytes → Req → ℕ → Result (Bool × Req)
trailer_loop zero raw r start = unfinished
trailer_loop (suc fuel) raw r start =
    if ltb start (length raw)
    then (elim (find_str_from crlf raw start) [
      | none ↦ ok (false, r)
      | some line_end ↦ elim (start == line_end) [
        | true ↦ ok (true, r)
        | false ↦
            ◌>>=◌ (substr raw start (line_end - start))
              λ line. ◌>>=◌ (parse_field_line line r) λ r'. trailer_loop fuel raw r' (line_end + 2)
      ]
    ])
    else ok (false, r)

-- From `parse_state = chunk_trailers` on.
unfoldable pub decode_trailers : Bytes → Req → Result (Bool × Req)
decode_trailers raw r =
    let r' = record r { parse_state = chunk_trailers } in
    if r.chunked_content_len == length raw
    then ok (true, r')
    else trailer_loop (length raw + 1) raw r' ((r.chunked_content_len + 1) % 2 ^ 32)

abbrev pub after_chunks : Bytes → Bool × Req → Result (Bool × Req)
after_chunks raw (true, r) = decode_trailers raw r
after_chunks raw (false, r) = ok (false, r)

-- The first loop need not end: the fuel is the caller's.
unfoldable pub decode_chunked : ℕ → Bytes → Req → Result (Bool × Req)
unfolding chunk_loop decode_trailers
decode_chunked fuel raw r =
    if in_content r.parse_state
    then (do s ← chunk_loop fuel raw r; after_chunks raw s)
    else decode_trailers raw r
