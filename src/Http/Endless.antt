-- ===== src/Http/Endless.antt =====
-- Chunked content with no line end, on which the first loop of `decode_chunked` does not stop.
use beemo.Common.{
  ℕ, zero, suc, ◌+◌, ◌-◌, ◌%◌, ◌^◌, ◌≤◌, ◌<◌, true, false, ◌++◌, none, some, ok, unfinished, ◌≡◌,
  refl, ◌∙◌, arith, length, take, drop, ltb,
}
use beemo.Text.{Bytes, read_hex, find_char_from, find_str_from}
use beemo.Http.Msg.{Req, in_content}
use beemo.Http.Headers.{crlf}
use beemo.Http.Written.{substr_in}
use beemo.Http.Chunks.{chunk_loop_next}
use beemo.Http.Chunked.{
  npos, sub_size, taken, take_chunk, sized_chunk, chunk_round, chunk_loop, decode_chunked,
}

-- From `i` on there is a space and no line end, and before the space the size `n`.
pub record ReadsSize (raw : Bytes) (i n : ℕ) : Type 0 where
  pub space : ℕ
  pub no_line : find_str_from crlf raw i ≡ none
  pub has_space : find_char_from b' ' raw i ≡ some space
  pub size : read_hex (take (space - i) (drop i raw)) ≡ n

abbrev round_req : Bytes → ℕ → Req → Req
round_req raw n r = record r {
  body = r.body ++ take n (drop 1 raw);
  chunked_content_len = n + 3;
  content_len = (r.content_len + n) % 2 ^ 32;
}

-- The position of the missing line end wraps: the chunk is taken from behind the first byte.
chunk_round_wraps :
    (raw : Bytes) (n i : ℕ) (r : Req)
    → ReadsSize raw i n
    → r.chunked_content_len ≡ i
    → i ≤ length raw
    → n + 3 ≤ length raw
    → length raw < 2 ^ 32
    → chunk_round raw r ≡ ok (taken n (round_req raw n r))
unfolding chunk_round sized_chunk take_chunk
chunk_round_wraps raw n i r h at inside long fits =
    let left : sub_size (sub_size (length raw) npos) 2 ≡ length raw - 1 = omega arith in
    let enough : ltb (length raw - 1) n ≡ false = ground arith in
    let index : (npos % 2 ^ 32 + 2 + n + 2) % 2 ^ 32 ≡ n + 3 = omega arith in
    rw
      (
        at,
        h.no_line,
        h.has_space,
        substr_in raw i (h.space - i) inside,
        h.size,
        left,
        enough,
        substr_in raw 1 n (omega arith),
        index,
      )
      refl

chunk_loop_endless :
    (fuel : ℕ) (raw : Bytes) (n : ℕ) (r : Req)
    → ReadsSize raw (n + 3) n
    → 0 < n
    → n + 3 ≤ length raw
    → length raw < 2 ^ 32
    → r.chunked_content_len ≡ n + 3
    → chunk_loop fuel raw r ≡ unfinished
unfolding chunk_loop
chunk_loop_endless zero raw n r h some_size long fits at = refl
chunk_loop_endless (suc fuel) raw n r h some_size long fits at =
    chunk_loop_next fuel raw r (round_req raw n r) n
      (chunk_round_wraps raw n (n + 3) r h at long long fits) (ground arith)
    ∙ chunk_loop_endless fuel raw n (round_req raw n r) h some_size long fits refl

-- Where no line end has come, and the size read first is read again at the place to which the
-- wrapped position leads, the decoder takes chunks for ever: no number of rounds is enough.
pub decode_chunked_endless :
    (fuel : ℕ) (raw : Bytes) (n : ℕ) (r : Req)
    → ReadsSize raw 0 n
    → ReadsSize raw (n + 3) n
    → 0 < n
    → n + 3 ≤ length raw
    → length raw < 2 ^ 32
    → in_content r.parse_state ≡ true
    → r.chunked_content_len ≡ 0
    → decode_chunked fuel raw r ≡ unfinished
unfolding decode_chunked chunk_loop
decode_chunked_endless zero raw n r h h' some_size long fits state at = rw state refl
decode_chunked_endless (suc fuel) raw n r h h' some_size long fits state at =
    let loop =
      chunk_loop_next fuel raw r (round_req raw n r) n
        (chunk_round_wraps raw n 0 r h at (omega arith) long fits) (ground arith)
      ∙ chunk_loop_endless fuel raw n (round_req raw n r) h' some_size long fits refl in
    rw (state, loop) refl
