-- ===== src/Http/Chunks.antt =====
-- Chunked content as a client writes it, read by `decode_chunked`.
use beemo.Common.{
  ℕ, zero, suc, ◌+◌, ◌^◌, ◌≤◌, ◌<◌, true, false, List, [], ◌∷◌, ◌++◌, ok, ◌≡◌, refl, ap, ◌∙◌, sym,
  arith, ◌==◌, length, length-append, append_assoc, is_empty,
}
use beemo.Text.{Bytes, codes, read_hex, is_xdigit}
use beemo.Http.Msg.{Req, chunk_trailers, in_content}
use beemo.Http.Headers.{crlf}
use beemo.Http.Chunked.{taken, chunk_round, chunk_loop, decode_trailers, decode_chunked}
use beemo.Http.ChunkRound.{
  IsChunk, write_chunk, put_chunk, length-write_chunk, chunk_round-write_chunk,
}

-- Chunks with data, and the chunk of size 0 that ends them.
abbrev pub write_chunks : List (Bytes × Bytes) → Bytes → Bytes
write_chunks [] rest = write_chunk (codes "0") [] rest
write_chunks ((digits, chunk) ∷ l) rest = write_chunk digits chunk (write_chunks l rest)

abbrev pub AreChunks : List (Bytes × Bytes) → Type 0
AreChunks [] = Unit
AreChunks ((digits, chunk) ∷ l) = IsChunk digits chunk × (is_empty chunk ≡ false) × AreChunks l

abbrev pub chunks_content : List (Bytes × Bytes) → Bytes
chunks_content [] = []
chunks_content ((digits, chunk) ∷ l) = chunk ++ chunks_content l

abbrev put_chunks : List (Bytes × Bytes) → Req → Req
put_chunks [] r = put_chunk (codes "0") [] r
put_chunks ((digits, chunk) ∷ l) r = put_chunks l (put_chunk digits chunk r)

zero-IsChunk : IsChunk (codes "0") []
unfolding is_xdigit read_hex
zero-IsChunk = record { some_digit = refl; only_digits = refl; size = refl }

write_chunk-append :
    (digits chunk rest : Bytes)
    → write_chunk digits chunk rest ≡ write_chunk digits chunk [] ++ rest
write_chunk-append digits chunk rest = sym (
    append_assoc digits (crlf ++ (chunk ++ crlf)) rest
    ∙ ap (λ t. digits ++ (crlf ++ t)) (append_assoc chunk crlf rest))

pub chunk_loop_next :
    (fuel : ℕ) (raw : Bytes) (r r' : Req) (n : ℕ)
    → chunk_round raw r ≡ ok (taken n r')
    → (n == 0) ≡ false
    → chunk_loop (suc fuel) raw r ≡ chunk_loop fuel raw r'
unfolding chunk_loop
chunk_loop_next fuel raw r r' zero a b = cc
chunk_loop_next fuel raw r r' (suc n) a b = rw a (ground (arith, b))

length-nonzero : (s : Bytes) → is_empty s ≡ false → (length s == 0) ≡ false
length-nonzero [] h = cc
length-nonzero (c ∷ s) h = ground arith

-- The loop over the chunks, each size given by the digits before it.
chunk_loop-write_chunks :
    (fuel : ℕ) (l : List (Bytes × Bytes)) (before rest raw : Bytes) (r : Req)
    → length l < fuel
    → AreChunks l
    → raw ≡ before ++ write_chunks l rest
    → length before ≡ r.chunked_content_len
    → length raw < 2 ^ 32
    → r.content_len + length (chunks_content l) < 2 ^ 32
    → chunk_loop fuel raw r ≡ ok (true, put_chunks l r)
unfolding chunk_loop
chunk_loop-write_chunks zero l before rest raw r f h e at fits total = absurd (omega arith)
chunk_loop-write_chunks (suc fuel) [] before rest raw r f h e at fits total =
    rw (chunk_round-write_chunk before (codes "0") [] rest raw r zero-IsChunk e at fits total) refl
chunk_loop-write_chunks (suc fuel) ((digits, chunk) ∷ l) before rest raw r f (h, some_data, hs) e at
      fits total =
    let size = length-append chunk (chunks_content l) in
    let differ : (length chunk == 0) ≡ false = length-nonzero chunk some_data in
    chunk_loop_next fuel raw r (put_chunk digits chunk r) (length chunk)
      (chunk_round-write_chunk before digits chunk (write_chunks l rest) raw r h e at fits
        (omega arith))
      differ
    ∙ (chunk_loop-write_chunks fuel l (before ++ write_chunk digits chunk []) rest raw
        (put_chunk digits chunk r) (omega arith) hs
        (e
          ∙ ap (λ t. before ++ t) (write_chunk-append digits chunk (write_chunks l rest))
          ∙ sym (append_assoc before (write_chunk digits chunk []) (write_chunks l rest)))
        (omega (
          arith,
          at,
          length-append before (write_chunk digits chunk []),
          length-write_chunk digits chunk [],
        ))
        fits (omega arith))

abbrev set_decoded : Req → Bytes → ℕ → ℕ → Req
set_decoded r b i n = record r { body = b; chunked_content_len = i; content_len = n }

same_decoded :
    (r : Req) {b c : Bytes} {i j n m : ℕ}
    → b ≡ c
    → i ≡ j
    → n ≡ m
    → set_decoded r b i n ≡ set_decoded r c j m
same_decoded r e f g = rw (e, f, g) refl

put_chunks_lem :
    (l : List (Bytes × Bytes)) (r : Req)
    → put_chunks l r
      ≡ set_decoded r
          (r.body ++ chunks_content l)
          (r.chunked_content_len + length (write_chunks l []))
          (r.content_len + length (chunks_content l))
put_chunks_lem [] r = same_decoded r refl (omega arith) refl
put_chunks_lem ((digits, chunk) ∷ l) r =
    put_chunks_lem l (put_chunk digits chunk r)
    ∙ same_decoded r (append_assoc r.body chunk (chunks_content l))
        (omega (arith, length-write_chunk digits chunk (write_chunks l [])))
        (omega (arith, length-append chunk (chunks_content l)))

length-chunks_content :
    (l : List (Bytes × Bytes)) → length (chunks_content l) ≤ length (write_chunks l [])
length-chunks_content [] = omega arith
length-chunks_content ((digits, chunk) ∷ l) = omega (
  arith,
  length-chunks_content l,
  length-append chunk (chunks_content l),
  length-write_chunk digits chunk (write_chunks l []),
)

zero_add : (n : ℕ) → 0 + n ≡ n
zero_add n = omega arith

-- A written sequence of chunks, each with some data, that the chunk of size 0 ends and nothing
-- follows, is decoded to the data of the chunks, in order, and is asked no more input for. Sizes
-- are in hexadecimal, below 2 ^ 32 in all, and the data may hold any bytes.
pub decode_chunked-write_chunks :
    (fuel : ℕ) (l : List (Bytes × Bytes)) (r : Req)
    → length l < fuel
    → AreChunks l
    → length (write_chunks l []) < 2 ^ 32
    → in_content r.parse_state ≡ true
    → r.chunked_content_len ≡ 0
    → r.content_len ≡ 0
    → decode_chunked fuel (write_chunks l []) r
      ≡ ok (
        true,
        record r {
          parse_state = chunk_trailers;
          body = r.body ++ chunks_content l;
          chunked_content_len = length (write_chunks l []);
          content_len = length (chunks_content l);
        },
      )
unfolding decode_chunked decode_trailers
decode_chunked-write_chunks fuel l r f h fits state start fresh =
    let raw = write_chunks l [] in
    let loop =
      chunk_loop-write_chunks fuel l [] [] raw r f h refl (omega arith) fits
        (omega (arith, length-chunks_content l)) in
    let at_end : (length raw == length raw) ≡ true = ground arith in
    rw
      (
        state,
        loop,
        put_chunks_lem l r,
        start,
        fresh,
        zero_add (length raw),
        zero_add (length (chunks_content l)),
        at_end,
      )
      refl
