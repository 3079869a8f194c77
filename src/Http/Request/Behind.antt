-- ===== src/Http/Request/Behind.antt =====
-- http/src/parser.cpp: what `parse_content` is given behind a written header section.
use beemo.Common.{
  ℕ, ◌+◌, ◌≤◌, true, false, List, [], ◌∷◌, ◌++◌, ok, ◌≡◌, ap, ◌∙◌, sym, arith, ltb, if◌then◌else◌,
  length, is_empty, drop, take_all, length-drop, append_assoc, length-append,
}
use beemo.Text.{Bytes, substr_from}
use beemo.Http.Headers.{crlf}
use beemo.Http.Written.{substr_in}
use beemo.Http.WrittenText.{write_fields, write_req, content_index, drop_behind}

-- The bytes behind the empty line; and the empty line itself, if nothing follows it.
abbrev pub behind : Bytes → Bytes
behind rest = if is_empty rest then crlf else rest

module _ (line : Bytes) (fs : List (Bytes × Bytes)) where
  abbrev before : Bytes
  before = line ++ (crlf ++ write_fields fs)

  abbrev size : ℕ
  size = length line + 2 + length (write_fields fs)

  length-before : length before ≡ size
  length-before =
      omega
        (arith, length-append line (crlf ++ write_fields fs), length-append crlf (write_fields fs))

  write_req-before : (rest : Bytes) → write_req line fs rest ≡ before ++ (crlf ++ rest)
  write_req-before rest = sym (
      append_assoc line (crlf ++ write_fields fs) (crlf ++ rest)
      ∙ ap (λ t. line ++ t) (append_assoc crlf (write_fields fs) (crlf ++ rest)))

  length-write_req : (rest : Bytes) → length (write_req line fs rest) ≡ size + 2 + length rest
  length-write_req rest =
      ap length (write_req-before rest)
      ∙ omega (arith, length-append before (crlf ++ rest), length-append crlf rest, length-before)

  pub content_index_bound :
      (rest : Bytes) → content_index line fs rest ≤ length (write_req line fs rest)
  content_index_bound rest = ground (arith, length-write_req rest)

  drop_content :
      (rest : Bytes) → drop (content_index line fs rest) (write_req line fs rest) ≡ behind rest
  drop_content [] =
      let last : ltb (size + 2) (length (write_req line fs [])) ≡ false =
        ground (arith, length-write_req []) in
      rw (last, write_req-before []) (drop_behind before crlf 0 size (omega (arith, length-before)))
  drop_content (c ∷ rest) =
      let more : ltb (size + 2) (length (write_req line fs (c ∷ rest))) ≡ true =
        ground (arith, length-write_req (c ∷ rest)) in
      rw (more, write_req-before (c ∷ rest))
        (drop_behind before (crlf ++ c ∷ rest) 2 (size + 2) (omega (arith, length-before)))

  -- What lies behind the index that `parse_headers` returns.
  pub substr_from-content_index :
      (rest : Bytes)
      → substr_from (write_req line fs rest) (content_index line fs rest) ≡ ok (behind rest)
  substr_from-content_index rest =
      let raw = write_req line fs rest in
      substr_in raw (content_index line fs rest) (length raw) (content_index_bound rest)
      ∙ ap ok (
          take_all (length raw) _ (omega (arith, length-drop (content_index line fs rest) raw))
          ∙ drop_content rest)
