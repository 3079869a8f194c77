-- ===== src/Http/ChunkRound.antt =====
-- A round of the first loop of `decode_chunked` over a chunk that has arrived.
use beemo.Common.{
  ℕ, ◌+◌, ◌-◌, ◌%◌, ◌^◌, ◌≤◌, ◌<◌, true, false, ◌∷◌, ◌++◌, some, ok, ◌≡◌, refl, ap, ◌∙◌, sym, arith,
  length, drop, ltb, inl, length-append, take-length-append, append_assoc, is_empty, all,
}
use beemo.Text.{Bytes, read_hex, is_xdigit, find_str_from}
use beemo.Http.Msg.{Req}
use beemo.Http.Headers.{crlf}
use beemo.Http.Written.{substr_in}
use beemo.Http.WrittenText.{find_between, drop_behind}
use beemo.Http.Chunked.{sub_size, taken, take_chunk, sized_chunk, chunk_round}
use beemo.Http.Digits.{lacks-digits, size_text}

-- A chunk is its size in hexadecimal digits, and its data.
pub record IsChunk (digits chunk : Bytes) : Type 0 where
  pub some_digit : is_empty digits ≡ false
  pub only_digits : all is_xdigit digits ≡ true
  pub size : read_hex digits ≡ length chunk

abbrev pub write_chunk : Bytes → Bytes → Bytes → Bytes
write_chunk digits chunk rest = digits ++ (crlf ++ (chunk ++ (crlf ++ rest)))

small : (n : ℕ) → n < 2 ^ 32 → n % 2 ^ 32 ≡ n
small n h = omega arith

pub sub_size_lem : (a b : ℕ) → b ≤ a → a < 2 ^ 32 → sub_size a b ≡ a - b
sub_size_lem a b h k = omega arith

pub small_position : (n : ℕ) → n < 2 ^ 32 → n % 2 ^ 64 ≡ n
small_position n h = omega arith

-- The request behind a chunk.
abbrev pub put_chunk : Bytes → Bytes → Req → Req
put_chunk digits chunk r = record r {
  body = r.body ++ chunk;
  chunked_content_len = r.chunked_content_len + length digits + length chunk + 4;
  content_len = r.content_len + length chunk;
}

pub length-write_chunk :
    (digits chunk rest : Bytes)
    → length (write_chunk digits chunk rest) ≡ length digits + length chunk + length rest + 4
length-write_chunk digits chunk rest = omega (
  arith,
  length-append digits (crlf ++ (chunk ++ (crlf ++ rest))),
  length-append crlf (chunk ++ (crlf ++ rest)),
  length-append chunk (crlf ++ rest),
  length-append crlf rest,
)

take_chunk-write_chunk :
    (before digits chunk rest raw : Bytes) (r : Req)
    → raw ≡ before ++ write_chunk digits chunk rest
    → length before ≡ r.chunked_content_len
    → length raw < 2 ^ 32
    → r.content_len + length chunk < 2 ^ 32
    → take_chunk raw r (r.chunked_content_len + length digits) (length chunk)
      ≡ ok (taken (length chunk) (put_chunk digits chunk r))
unfolding take_chunk
take_chunk-write_chunk before digits chunk rest raw r e at fits total =
    let header = r.chunked_content_len + length digits in
    let n = length chunk in
    let tail = chunk ++ (crlf ++ rest) in
    let size : length raw ≡ header + n + length rest + 4 = omega (
      arith,
      ap length e,
      length-append before (write_chunk digits chunk rest),
      length-write_chunk digits chunk rest,
    ) in
    let left : sub_size (sub_size (length raw) header) 2 ≡ n + length rest + 2 = omega arith in
    let enough : ltb (n + length rest + 2) n ≡ false = ground arith in
    let position = small_position (header + 2) (omega arith) in
    let there : drop (header + 2) raw ≡ tail =
      ap (drop (header + 2)) (e ∙ sym (append_assoc before digits (crlf ++ tail)))
      ∙ drop_behind (before ++ digits) (crlf ++ tail) 2 (header + 2)
          (omega (arith, length-append before digits)) in
    let index : (header % 2 ^ 32 + 2 + n + 2) % 2 ^ 32
        ≡ r.chunked_content_len + length digits + n + 4 =
      omega arith in
    rw
      (
        left,
        enough,
        position,
        substr_in raw (header + 2) n (omega arith),
        there,
        take-length-append chunk (crlf ++ rest),
        index,
        small (r.content_len + n) total,
      )
      refl

-- A round over a written chunk appends its data, and moves behind it.
pub chunk_round-write_chunk :
    (before digits chunk rest raw : Bytes) (r : Req)
    → IsChunk digits chunk
    → raw ≡ before ++ write_chunk digits chunk rest
    → length before ≡ r.chunked_content_len
    → length raw < 2 ^ 32
    → r.content_len + length chunk < 2 ^ 32
    → chunk_round raw r ≡ ok (taken (length chunk) (put_chunk digits chunk r))
unfolding chunk_round sized_chunk
chunk_round-write_chunk before digits chunk rest raw r h e at fits total =
    let i = r.chunked_content_len in
    let tail = chunk ++ (crlf ++ rest) in
    let text = digits ++ (crlf ++ tail) in
    let (m, end, value) = size_text i digits (10 ∷ tail) h.some_digit h.only_digits in
    let line =
      find_between before digits tail i at (lacks-digits 13 digits (inl refl) h.only_digits) in
    let here : drop i raw ≡ text =
      ap (drop i) e ∙ drop_behind before text 0 i (omega (arith, at)) in
    let header : find_str_from crlf raw i ≡ some (i + length digits) =
      ap (λ t. find_str_from crlf t i) e ∙ line in
    let inside : i ≤ length raw =
      omega (arith, ap length e, length-append before (write_chunk digits chunk rest)) in
    let width : i + m - i ≡ m = omega arith in
    rw (header, here, end, substr_in raw i (i + m - i) inside, width, here, value, h.size)
      (take_chunk-write_chunk before digits chunk rest raw r e at fits total)
