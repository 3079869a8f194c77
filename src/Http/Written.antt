-- ===== src/Http/Written.antt =====
-- Header sections as a client writes them, read by `parse_headers`.
use beemo.Common.{
  ℕ, zero, suc, ◌+◌, ◌≤◌, ◌<◌, true, false, not, ◌&&◌, List, [], ◌∷◌, ◌++◌, some, ok, ◌≡◌, refl, ap,
  ◌∙◌, sym, arith, ◌==◌, length, take, drop, length-append, take-length-append, append_assoc,
  le→leb, take_all, if-false, if◌then◌else◌,
}
use beemo.Text.{Bytes, equal, find_str_from, find_char-hit, find_not, range, substr, lacks}
use beemo.Utils.{lowercase_str}
use beemo.Http.Fields.{contains, put_field}
use beemo.Http.Msg.{Req, content, headers, host_header_token, in_headers, in_start_line, has_err}
use beemo.Http.ReqLine.{parse_req_line}
use beemo.Http.FieldLine.{store_field, parse_field, parse_field_line, parse_host}
use beemo.Http.Resume.{header_loop-Next}
use beemo.Http.Headers.{ParseCtx, content_start, crlf, header_loop, parse_headers}
use beemo.Http.WrittenText.{
  IsField, write_field, drop_behind, write_line, write_fields, put_fields, NewFields, find_str-hit,
  lacks-write_field, range_between, find_between, length-write_fields, write_req, content_index,
}

find_not-space :
    (value : Bytes) → find_not b' ' value ≡ some 0 → find_not b' ' (b' ' ∷ value) ≡ some 1
unfolding find_not
find_not-space value h = ground (arith, h)

pub substr_in : (s : Bytes) (i n : ℕ) → i ≤ length s → substr s i n ≡ ok (take n (drop i s))
unfolding substr
substr_in s i n h = rw (le→leb i (length s) h)

-- A field line with a new name is stored under the name in lower case, and its value read, if it
-- is the host.
pub parse_field_line_store :
    (name value : Bytes) (r : Req)
    → IsField name value
    → contains (lowercase_str name) r.fields ≡ false
    → parse_field_line (write_field name value) r ≡ (
        let r' = record r { fields = put_field (lowercase_str name) value r.fields } in
        if equal (lowercase_str name) host_header_token then parse_host value r' else ok r')
unfolding parse_field_line parse_field store_field
parse_field_line_store name value r h c =
    let line = write_field name value in
    let size : length line ≡ length name + suc (suc (length value)) =
      length-append name (b':' ∷ b' ' ∷ value) in
    let name_text = take-length-append name (b':' ∷ b' ' ∷ value) in
    let first = drop_behind name (b':' ∷ b' ' ∷ value) 1 (length name + 1) refl in
    let last = drop_behind name (b':' ∷ b' ' ∷ value) 2 (length name + 1 + 1) (omega arith) in
    rw
      (
        find_char-hit b':' name (b' ' ∷ value) h.name_colon,
        substr_in line 0 (length name) (omega arith),
        name_text,
        c,
        first,
        find_not-space value h.value_first,
        substr_in line (length name + 1 + 1) (length line) (omega arith),
        last,
        take_all (length line) value (omega arith),
      )
      refl

-- A field line, its name new and not "host", is stored under the name in lower case, and nothing
-- else of the request changes.
parse_field_line-write_field :
    (name value : Bytes) (r : Req)
    → IsField name value
    → contains (lowercase_str name) r.fields ≡ false
    → equal (lowercase_str name) host_header_token ≡ false
    → parse_field_line (write_field name value) r
      ≡ ok (record r { fields = put_field (lowercase_str name) value r.fields })
parse_field_line-write_field name value r h c n =
    parse_field_line_store name value r h c ∙ if-false _ _ _ n

header_loop_end :
    (n : ℕ) (raw : Bytes) (r : Req) (i u : ℕ)
    → in_headers r.parse_state && not (has_err r) ≡ true
    → find_str_from crlf raw i ≡ some i
    → header_loop (suc n) raw r i u ≡ ok (record r { parse_state = content }, content_start raw i)
unfolding header_loop
header_loop_end n raw r i u h e = let same : (i == i) ≡ true = ground arith in rw (h, e, same) refl

-- A written field behind `before`, read in one round.
pub header_loop-write_line :
    (n : ℕ) (name value before others raw : Bytes) (r r₁ : Req) (i u : ℕ)
    → in_headers r.parse_state && not (has_err r) ≡ true
    → IsField name value
    → length before ≡ i
    → raw ≡ before ++ (write_line (name, value) ++ others)
    → parse_field_line (write_field name value) r ≡ ok r₁
    → header_loop (suc n) raw r i u
      ≡ header_loop n raw r₁ (i + length (write_field name value) + 2) u
header_loop-write_line n name value before others raw r r₁ i u h g at e d =
    let line = write_field name value in
    let flat : raw ≡ before ++ (line ++ (crlf ++ others)) =
      e ∙ ap (λ t. before ++ t) (append_assoc line crlf others) in
    let j = i + length line in
    let size = length-append name (b':' ∷ b' ' ∷ value) in
    let differ : (j == i) ≡ false = ground (arith, size) in
    header_loop-Next n raw r r₁ i (j + 2) u (
      h,
      (
        j,
        line,
        ap (λ t. find_str_from crlf t i) flat
            ∙ find_between before line others i at (lacks-write_field name value g),
        differ,
        ap (λ t. range t i j) flat ∙ range_between before line (crlf ++ others) i j at refl,
        d,
        refl,
      ),
    )

-- The loop reads the fields, and stops behind the empty line.
pub header_loop-write_fields :
    (n : ℕ) (fs : List (Bytes × Bytes)) (before rest raw : Bytes) (r : Req) (i u k : ℕ)
    → in_headers r.parse_state && not (has_err r) ≡ true
    → NewFields fs r.fields
    → length before ≡ i
    → length fs < n
    → raw ≡ before ++ (write_fields fs ++ (crlf ++ rest))
    → k ≡ i + length (write_fields fs)
    → header_loop n raw r i u
      ≡ ok
          (record r { parse_state = content; fields = put_fields fs r.fields }, content_start raw k)
header_loop-write_fields zero fs before rest raw r i u k h new at fuel e f = absurd (omega arith)
header_loop-write_fields (suc n) [] before rest raw r i u k h new at fuel e f =
    let stop : find_str_from crlf raw i ≡ some i =
      rw (e, find_between before [] rest i at refl) (ap some (omega arith)) in
    header_loop_end n raw r i u h stop
    ∙ ap (λ m. ok (record r { parse_state = content }, content_start raw m)) {x = i} {y = k}
        (omega (arith, f))
header_loop-write_fields (suc n) ((name, value) ∷ l) before rest raw r i u k h (g, c, d, new) at
      fuel e f =
    let line = write_field name value in
    let others = write_fields l ++ (crlf ++ rest) in
    let next : raw ≡ before ++ ((line ++ crlf) ++ others) =
      e ∙ ap (λ t. before ++ t) (append_assoc (line ++ crlf) (write_fields l) (crlf ++ rest)) in
    header_loop-write_line n name value before others raw r _ i u h g at next
      (parse_field_line-write_field name value r g c d)
    ∙ header_loop-write_fields n l (before ++ (line ++ crlf)) rest raw _ (i + length line + 2) u k h
        new (omega (arith, length-append before (line ++ crlf), length-append line crlf))
        (omega arith) (next ∙ sym (append_assoc before (line ++ crlf) others))
        (omega (arith, f, length-append (line ++ crlf) (write_fields l), length-append line crlf))

-- A written request, with a request line that is accepted and fields that are new, in names that
-- differ also in lower case, none of them "host", is read to its content: the map holds the written
-- fields, in lower case, and the rest is as the request line left it.
pub parse_headers-write_req :
    (line : Bytes) (fs : List (Bytes × Bytes)) (rest : Bytes) (r r₁ : Req) (ctx : ParseCtx)
    → in_start_line r.parse_state ≡ true
    → lacks 13 line ≡ true
    → parse_req_line line ctx.config.max_req_line_len r ≡ ok r₁
    → r₁.parse_state ≡ headers
    → has_err r₁ ≡ false
    → NewFields fs r₁.fields
    → parse_headers (write_req line fs rest) r ctx
      ≡ ok (
        record r₁ { parse_state = content; fields = put_fields fs r₁.fields },
        content_index line fs rest,
      )
unfolding parse_headers
parse_headers-write_req line fs rest r r₁ ctx h free parsed state fine new =
    let others = write_fields fs ++ (crlf ++ rest) in
    let raw = write_req line fs rest in
    let size = length-append line (crlf ++ others) in
    let size' = length-append crlf others in
    let size'' = length-append (write_fields fs) (crlf ++ rest) in
    rw
      (
        h,
        find_str-hit line others free,
        range_between [] line (crlf ++ others) 0 (length line) refl (omega arith),
        parsed,
      )
      (header_loop-write_fields (length raw + 1) fs (line ++ crlf) rest raw r₁ (length line + 2)
        ctx.start_idx (length line + 2 + length (write_fields fs)) (rw (state, fine) refl) new
        (length-append line crlf) (omega (arith, length-write_fields fs))
        (sym (append_assoc line crlf others)) refl)
