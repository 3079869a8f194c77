-- ===== src/Http/Stopped.antt =====
-- http/src/parser.cpp: `parse_headers` on the first part of its input.
use beemo.Common.{
  ℕ, zero, suc, ◌+◌, ◌≤◌, ◌<◌, true, false, not, ◌&&◌, ◌++◌, some, Result, ok, ◌≡◌, refl, ap, ◌∙◌,
  arith, Bool-cases, Option-cases, ◌⊎◌, inl, inr, ◌==◌, length, >>=-eq-ok,
}
use beemo.Text.{Bytes, find_str, find_str_from, find_str-append, range, range-take, find_str_bound}
use beemo.Http.Ends.{find_str_from_bound}
use beemo.Http.Msg.{Req, ParseState, headers, in_headers, in_start_line, has_err}
use beemo.Http.ReqLine.{parse_req_line}
use beemo.Http.FieldLine.{parse_field_line}
use beemo.Http.FieldState.{parse_field_line-Keeps}
use beemo.Http.Headers.{ParseCtx, crlf, content_start, header_loop, parse_headers}
use beemo.Http.More.{find_str_from-append, range-append}
use beemo.Http.Resume.{header_loop_stopped, header_loop_zero}

-- Where a call that waits has stopped.
header_loop_bound :
    (n : ℕ) (raw : Bytes) (r r' : Req) (i u k : ℕ)
    → header_loop n raw r i u ≡ ok (r', k)
    → in_headers r'.parse_state && not (has_err r') ≡ true
    → i ≤ length raw
    → k ≤ length raw
header_loop_bound zero raw r r' i u k h p b = absurd (header_loop_zero raw r i u h)
header_loop_bound (suc n) raw r r' i u k h p b = elim (header_loop_stopped n raw r r' i u k h p) [
  | inl (_, e) ↦ omega (arith, b, e)
  | inr (r₁, i₁, (_, (j, _, found, _, _, _, at)), h₁) ↦
      let (_, hi) = find_str_from_bound raw i found in
      header_loop_bound n raw r₁ r' i₁ u k h₁ p (omega (arith, hi, at))
]

pub parse_headers_bound :
    (raw : Bytes) (r r' : Req) (ctx : ParseCtx) (k : ℕ)
    → parse_headers raw r ctx ≡ ok (r', k)
    → in_headers r'.parse_state && not (has_err r') ≡ true
    → ctx.start_idx ≤ length raw
    → k ≤ length raw
unfolding parse_headers
parse_headers_bound raw r r' ctx k h p b = elim (Bool-cases (in_start_line r.parse_state)) [
  | inr e ↦ header_loop_bound (length raw + 1) raw r r' ctx.start_idx _ k (rw e at h) p b
  | inl e ↦ elim (Option-cases (find_str crlf raw)) [
    | inl f ↦ let h' = rw (e, f) at h in ground (arith, h', p)
    | inr (j, f) ↦
        let (line, c, h₁) = >>=-eq-ok (range raw 0 j) _ (rw (e, f) at h) in
        let (r₁, d, h₂) = >>=-eq-ok (parse_req_line line ctx.config.max_req_line_len r) _ h₁ in
        header_loop_bound (length raw + 1) raw r₁ r' (j + 2) _ k h₂ p
          (omega (arith, find_str_bound crlf raw f))
  ]
]

-- The call waits: it gives a request that is in its headers.
abbrev pub Waiting : Result (Req × ℕ) → Type 0
Waiting m = (r : Req) × (k : ℕ) × (m ≡ ok (r, k)) × (r.parse_state ≡ headers) × (has_err r ≡ false)

headers_state : (s : ParseState) → in_headers s ≡ true → s ≡ headers
headers_state headers h = refl
headers_state ParseState.start_line h = cc
headers_state ParseState.content h = cc
headers_state ParseState.chunk_trailers h = cc
headers_state ParseState.complete h = cc

range_front :
    (raw more : Bytes) (i j : ℕ) (line : Bytes)
    → i ≤ j
    → j ≤ length raw
    → range (raw ++ more) i j ≡ ok line
    → range raw i j ≡ ok line
range_front raw more i j line h k c =
    let here = range-take raw i j h k in let there = range-append raw more i j here in cc

-- A loop that ends well with all the input waits with a part of it that ends before the content.
header_loop_prefix :
    (n m : ℕ) (raw more : Bytes) (r r' : Req) (i u v k : ℕ)
    → header_loop m (raw ++ more) r i v ≡ ok (r', k)
    → has_err r' ≡ false
    → in_headers r.parse_state ≡ true
    → i ≤ length raw
    → length raw < n + i
    → Waiting (header_loop n raw r i u) ⊎ (k ≤ length raw)
unfolding header_loop
header_loop_prefix zero m raw more r r' i u v k h p s b f = absurd (omega arith)
header_loop_prefix (suc n) zero raw more r r' i u v k h p s b f =
    absurd (header_loop_zero (raw ++ more) r i v h)
header_loop_prefix (suc n) (suc m) raw more r r' i u v k h p s b f = elim (Bool-cases (has_err r)) [
  | inl e ↦
      let stop : in_headers r.parse_state && not (has_err r) ≡ false = ground (arith, e, s) in
      let h' = rw stop at h in
      let same : r ≡ r' = cc in absurd (ground (arith, e, p, ap has_err same))
  | inr e ↦
      let go : in_headers r.parse_state && not (has_err r) ≡ true = ground (arith, e, s) in
      elim (Option-cases (find_str_from crlf raw i)) [
        | inl g ↦ inl (r, i, rw (go, g) refl, headers_state r.parse_state s, e)
        | inr (j, g) ↦
            let (lo, hi) = find_str_from_bound raw i g in
            let g' = find_str_from-append raw more i g in
            elim (Bool-cases (j == i)) [
              | inl d ↦
                  let h' = rw (go, g', d) at h in
                  let at : content_start (raw ++ more) i ≡ k = cc in inr (ground (arith, at, d, hi))
              | inr d ↦
                  let (line, c, h₁) = >>=-eq-ok (range (raw ++ more) i j) _ (rw (go, g', d) at h) in
                  let (r₁, q, h₂) = >>=-eq-ok (parse_field_line line r) _ h₁ in
                  rw (go, g, d, range_front raw more i j line lo (omega (arith, hi)) c, q)
                    (header_loop_prefix n m raw more r₁ r' (j + 2) u v k h₂ p
                      (ap in_headers (parse_field_line-Keeps line r r₁ q) ∙ s) hi
                      (ground (arith, lo, d)))
            ]
      ]
]

header_loop_off :
    (n : ℕ) (raw : Bytes) (r r' : Req) (i v k b : ℕ)
    → header_loop n raw r i v ≡ ok (r', k)
    → in_headers r.parse_state ≡ false
    → v ≤ b
    → k ≤ b
unfolding header_loop
header_loop_off zero raw r r' i v k b h t le = absurd (header_loop_zero raw r i v h)
header_loop_off (suc n) raw r r' i v k b h t le =
    let stop : in_headers r.parse_state && not (has_err r) ≡ false = ground (arith, t) in
    let h' = rw stop at h in let at : v ≡ k = cc in omega (arith, le, at)

-- A call that ends well with all the input waits with a part of it that has the request line and ends
-- before the content.
pub parse_headers_prefix :
    (raw more : Bytes) (r r' : Req) (ctx : ParseCtx) (j k : ℕ)
    → parse_headers (raw ++ more) r ctx ≡ ok (r', k)
    → has_err r' ≡ false
    → (in_start_line r.parse_state ≡ true) × (find_str crlf raw ≡ some j)
      ⊎ (r.parse_state ≡ headers)
    → ctx.start_idx ≤ length raw
    → Waiting (parse_headers raw r ctx) ⊎ (k ≤ length raw)
unfolding parse_headers
parse_headers_prefix raw more r r' ctx j k h p (inr s) b =
    let off : in_start_line r.parse_state ≡ false = rw s refl in
    rw off (
      header_loop_prefix (length raw + 1) (length (raw ++ more) + 1) raw more r r' ctx.start_idx
        ctx.start_idx ctx.start_idx k (rw off at h) p (rw s refl) b (omega arith))
parse_headers_prefix raw more r r' ctx j k h p (inl (s, f)) b =
    let f' = find_str-append crlf raw more f in
    let hi = find_str_bound crlf raw f in
    let (line, c, h₁) = >>=-eq-ok (range (raw ++ more) 0 j) _ (rw (s, f') at h) in
    let (r₁, q, h₂) = >>=-eq-ok (parse_req_line line ctx.config.max_req_line_len r) _ h₁ in
    rw (s, f, range_front raw more 0 j line (omega arith) (omega (arith, hi)) c, q)
      (elim (Bool-cases (in_headers r₁.parse_state)) [
        | inl t ↦
            header_loop_prefix (length raw + 1) (length (raw ++ more) + 1) raw more r₁ r' (j + 2)
              ctx.start_idx ctx.start_idx k h₂ p t (omega (arith, hi)) (omega arith)
        | inr t ↦ inr (
            header_loop_off (length (raw ++ more) + 1) (raw ++ more) r₁ r' (j + 2) ctx.start_idx k
              (length raw) h₂ t b)
      ])
