-- ===== src/Http/Resume.antt =====
-- `parse_headers` called again with more input.
use beemo.Common.{
  ℕ, zero, suc, ◌+◌, ◌<◌, true, false, not, ◌&&◌, ◌++◌, some, ok, ◌≡◌, refl, ap, ◌∙◌, sym, arith,
  ◌==◌, length, Bool-cases, ◌⊎◌, Option-cases, inl, inr, >>=-eq-ok,
}
use beemo.Text.{Bytes, find_str, find_str_from, find_str-append, range}
use beemo.Http.Ends.{find_str_from_bound}
use beemo.Http.Config.{Config}
use beemo.Http.Msg.{Req, headers, in_headers, in_start_line, has_err}
use beemo.Http.ReqLine.{parse_req_line}
use beemo.Http.FieldLine.{parse_field_line}
use beemo.Http.FieldState.{parse_field_line-Keeps}
use beemo.Http.Headers.{ParseCtx, crlf, header_loop, parse_headers}
use beemo.Http.More.{read_of, read_of-bind, find_str_from-append, range-append}

-- With enough fuel, neither the fuel nor the index for an early end changes the outcome.
header_loop-fuel :
    (n m : ℕ) (raw : Bytes) (r : Req) (i u v : ℕ)
    → in_headers r.parse_state ≡ true
    → 0 < n
    → 0 < m
    → length raw < n + i
    → length raw < m + i
    → read_of (header_loop n raw r i u) ≡ read_of (header_loop m raw r i v)
unfolding header_loop
header_loop-fuel zero m raw r i u v s h k a b = absurd (omega arith)
header_loop-fuel (suc n) zero raw r i u v s h k a b = absurd (omega arith)
header_loop-fuel (suc n) (suc m) raw r i u v s h k a b = elim (Bool-cases (has_err r)) [
  | inl e ↦
      let stop : in_headers r.parse_state && not (has_err r) ≡ false = ground (arith, e, s) in
      rw (stop, e) refl
  | inr e ↦
      let go : in_headers r.parse_state && not (has_err r) ≡ true = ground (arith, e, s) in
      elim (Option-cases (find_str_from crlf raw i)) [
        | inl f ↦ rw (go, f) refl
        | inr (j, f) ↦
            let (lo, hi) = find_str_from_bound raw i f in
            elim (Bool-cases (j == i)) [
              | inl g ↦ rw (go, f, g) refl
              | inr g ↦
                  rw (go, f, g)
                    (read_of-bind (range raw i j) _ _ λ line _.
                      read_of-bind (parse_field_line line r) _ _ λ r' d.
                        header_loop-fuel n m raw r' (j + 2) u v
                          (ap in_headers (parse_field_line-Keeps line r r' d) ∙ s) (omega arith)
                          (omega arith) (omega arith) (omega arith))
            ]
      ]
]

pub header_loop_zero :
    (raw : Bytes) (r : Req) (i u : ℕ) {s : Req × ℕ} → ¬ (header_loop 0 raw r i u ≡ ok s)
unfolding header_loop
header_loop_zero raw r i u h = cc

-- The loop takes a line and goes on.
abbrev pub Next : Bytes → Req → ℕ → Req → ℕ → Type 0
Next raw r i r₁ i₁ =
    (in_headers r.parse_state && not (has_err r) ≡ true)
    × ((j : ℕ) × (line : Bytes) × (find_str_from crlf raw i ≡ some j)
        × ((j == i) ≡ false)
        × (range raw i j ≡ ok line)
        × (parse_field_line line r ≡ ok r₁)
        × (i₁ ≡ j + 2))

pub header_loop-Next :
    (n : ℕ) (raw : Bytes) (r r₁ : Req) (i i₁ u : ℕ)
    → Next raw r i r₁ i₁
    → header_loop (suc n) raw r i u ≡ header_loop n raw r₁ i₁ u
unfolding header_loop
header_loop-Next n raw r r₁ i i₁ u (e, (j, line, f, g, c, d, x)) = rw (e, f, g, c, d, x)

Next-append :
    (raw more : Bytes) (r r₁ : Req) (i i₁ : ℕ) → Next raw r i r₁ i₁ → Next (raw ++ more) r i r₁ i₁
Next-append raw more r r₁ i i₁ (e, (j, line, f, g, c, d, x)) =
    (e, (j, line, find_str_from-append raw more i f, g, range-append raw more i j c, d, x))

-- A loop that stopped for want of input has stopped here, or after a line.
pub header_loop_stopped :
    (n : ℕ) (raw : Bytes) (r r' : Req) (i u k : ℕ)
    → header_loop (suc n) raw r i u ≡ ok (r', k)
    → in_headers r'.parse_state && not (has_err r') ≡ true
    → ((r ≡ r') × (i ≡ k))
      ⊎ ((r₁ : Req) × (i₁ : ℕ) × Next raw r i r₁ i₁ × (header_loop n raw r₁ i₁ u ≡ ok (r', k)))
unfolding header_loop
header_loop_stopped n raw r r' i u k h p =
    elim (Bool-cases (in_headers r.parse_state && not (has_err r))) [
      | inr e ↦ ground (arith, rw e at h, e, p)
      | inl e ↦ elim (Option-cases (find_str_from crlf raw i)) [
        | inl f ↦ let h' = rw (e, f) at h in inl (cc, cc)
        | inr (j, f) ↦ elim (Bool-cases (j == i)) [
          | inl g ↦ let h' = rw (e, f, g) at h in absurd cc
          | inr g ↦
              let (line, c, h₁) = >>=-eq-ok (range raw i j) _ (rw (e, f, g) at h) in
              let (r₁, d, h₂) = >>=-eq-ok (parse_field_line line r) _ h₁ in
              inr (r₁, j + 2, (e, (j, line, f, g, c, d, refl)), h₂)
        ]
      ]
    ]

-- A loop that stopped for want of input, with more fuel and input.
header_loop-resume :
    (n m : ℕ) (raw more : Bytes) (r : Req) (i u v : ℕ) {r' : Req} {k : ℕ}
    → header_loop n raw r i u ≡ ok (r', k)
    → in_headers r'.parse_state && not (has_err r') ≡ true
    → 0 < m
    → length (raw ++ more) < m + i
    → in_headers r.parse_state ≡ true
    → (length (raw ++ more) < m + k)
      × (read_of (header_loop m (raw ++ more) r' k v) ≡ read_of (header_loop m (raw ++ more) r i v))
header_loop-resume zero m raw more r i u v h p a b s = absurd (header_loop_zero raw r i u h)
header_loop-resume (suc n) zero raw more r i u v h p a b s = absurd (omega arith)
header_loop-resume (suc n) (suc m) raw more r i u v {r'} {k} h p a b s =
    elim (header_loop_stopped n raw r r' i u k h p) [
      | inl (e, f) ↦ rw (e, f) (omega (arith, b, f), refl)
      | inr (r₁, i₁, next, h₁) ↦
          let next' = Next-append raw more r r₁ i i₁ next in
          let (_, (j, line, found, _, _, read, at)) = next' in
          let (lo, hi) = find_str_from_bound (raw ++ more) i found in
          let s₁ = ap in_headers (parse_field_line-Keeps line r r₁ read) ∙ s in
          let (c, ih) =
            header_loop-resume n m raw more r₁ i₁ u v h₁ p (omega arith) (omega arith) s₁ in
          (
            omega arith,
            rw (header_loop-Next m (raw ++ more) r r₁ i i₁ v next') (
                header_loop-fuel (suc m) m (raw ++ more) r' k v v (ground (arith, p)) (omega arith)
                  (omega arith) (omega arith) (omega arith)
                ∙ ih),
          )
    ]

header_loop_started :
    (n : ℕ) (raw : Bytes) (r r' : Req) (i u k : ℕ)
    → header_loop n raw r i u ≡ ok (r', k)
    → in_headers r'.parse_state && not (has_err r') ≡ true
    → in_headers r.parse_state ≡ true
unfolding header_loop
header_loop_started zero raw r r' i u k h p = absurd (header_loop_zero raw r i u h)
header_loop_started (suc n) raw r r' i u k h p =
    elim (Bool-cases (in_headers r.parse_state && not (has_err r))) [
      | inl e ↦ ground (arith, e)
      | inr e ↦ ground (arith, rw e at h, e, p)
    ]

-- The first call, up to its loop.
abbrev Entered : Bytes → Req → ParseCtx → Req → ℕ → Type 0
Entered raw r ctx r₁ i =
    (u : ℕ) × (parse_headers raw r ctx ≡ header_loop (length raw + 1) raw r₁ i u)

parse_headers-Entered :
    (raw more : Bytes) (r r' : Req) (ctx : ParseCtx) (k : ℕ)
    → parse_headers raw r ctx ≡ ok (r', k)
    → has_err r' ≡ false
    → (r₁ : Req) × (i : ℕ) × Entered raw r ctx r₁ i × Entered (raw ++ more) r ctx r₁ i
unfolding parse_headers
parse_headers-Entered raw more r r' ctx k h p = elim (Bool-cases (in_start_line r.parse_state)) [
  | inr e ↦ (r, ctx.start_idx, (ctx.start_idx, rw e refl), (ctx.start_idx, rw e refl))
  | inl e ↦ elim (Option-cases (find_str crlf raw)) [
    | inl f ↦ let h' = rw (e, f) at h in absurd cc
    | inr (j, f) ↦
        let (line, c, h₁) = >>=-eq-ok (range raw 0 j) _ (rw (e, f) at h) in
        let (r₁, d, h₂) = >>=-eq-ok (parse_req_line line ctx.config.max_req_line_len r) _ h₁ in
        (
          r₁,
          j + 2,
          (ctx.start_idx, rw (e, f, c, d) refl),
          (
            ctx.start_idx,
            rw (e, find_str-append crlf raw more f, range-append raw more 0 j c, d) refl,
          ),
        )
  ]
]

pub parse_headers_again :
    (raw : Bytes) (r : Req) (ctx : ParseCtx)
    → r.parse_state ≡ headers
    → parse_headers raw r ctx ≡ header_loop (length raw + 1) raw r ctx.start_idx ctx.start_idx
unfolding parse_headers
parse_headers_again raw r ctx h = rw h refl

-- Where the header section arrives in parts, a call that stops for want of input (in state headers,
-- with no error), and a call with more input from the index that it returned, give the request of
-- one call with all the input, and without an error its index too, be it a request line cut from its
-- fields or a cut within a field.
pub parse_headers-resume :
    (raw more : Bytes) (r r' : Req) (i k : ℕ) (c : Config)
    → parse_headers raw r (record { start_idx = i; config = c }) ≡ ok (r', k)
    → r'.parse_state ≡ headers
    → has_err r' ≡ false
    → read_of (parse_headers (raw ++ more) r' (record { start_idx = k; config = c }))
      ≡ read_of (parse_headers (raw ++ more) r (record { start_idx = i; config = c }))
parse_headers-resume raw more r r' i k c h s p =
    let (r₁, j, (u, a), (v, b)) = parse_headers-Entered raw more r r' _ k h p in
    let n = length (raw ++ more) + 1 in
    let going : in_headers r'.parse_state && not (has_err r') ≡ true = rw (s, p) refl in
    let started = header_loop_started (length raw + 1) raw r₁ r' j u k (rw a at h) going in
    let (q, e) =
      header_loop-resume (length raw + 1) n raw more r₁ j u v (rw a at h) going (omega arith)
        (omega arith) started in
    ap read_of (parse_headers_again (raw ++ more) r' (record { start_idx = k; config = c }) s)
    ∙ header_loop-fuel n n (raw ++ more) r' k k v (ap in_headers s) (omega arith) (omega arith) q q
    ∙ e
    ∙ ap read_of (sym b)
