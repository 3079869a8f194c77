-- ===== src/Http/More.antt =====
-- Text that `parse_headers` searches, with more behind it.
use beemo.Common.{
  ℕ, zero, suc, ◌-◌, ◌≤◌, false, ◌&&◌, [], ◌∷◌, ◌++◌, some, Result, ok, throw, undefined,
  unfinished, ◌>>=◌, ◌≡◌, refl, ap, ◌∙◌, sym, arith, length, take, drop, Bool-cases, Option-cases,
  inl, inr, if◌then◌else◌, length-drop, length-append, leb, leb→le,
}
use beemo.Text.{Bytes, find_str, find_str_from, find_str-append, range, range-take}
use beemo.Http.Ends.{find_str_from_bound}
use beemo.Http.Msg.{Req, has_err}
use beemo.Http.Headers.{crlf}

-- The request, with the index unless there is an error.
abbrev pub read_of : Result (Req × ℕ) → Result (Req × ℕ)
read_of m = m >>= λ s. ok (s.0, if has_err s.0 then 0 else s.1)

pub read_of-bind :
    {A : Type 0} (m : Result A) (f g : A → Result (Req × ℕ))
    → ((a : A) → m ≡ ok a → read_of (f a) ≡ read_of (g a))
    → read_of (m >>= f) ≡ read_of (m >>= g)
read_of-bind (ok a) f g h = h a refl
read_of-bind (throw e) f g h = refl
read_of-bind undefined f g h = refl
read_of-bind unfinished f g h = refl

pub drop-append : (n : ℕ) (x y : Bytes) → n ≤ length x → drop n (x ++ y) ≡ drop n x ++ y
drop-append zero x y h = refl
drop-append (suc n) [] y h = absurd (omega arith)
drop-append (suc n) (c ∷ x) y h = drop-append n x y (omega arith)

pub take-append : (n : ℕ) (x y : Bytes) → n ≤ length x → take n (x ++ y) ≡ take n x
take-append zero x y h = refl
take-append (suc n) [] y h = absurd (omega arith)
take-append (suc n) (c ∷ x) y h = ap (◌∷◌ c) (take-append n x y (omega arith))

pub find_str_from-append :
    (s more : Bytes) (i : ℕ) {k : ℕ}
    → find_str_from crlf s i ≡ some k
    → find_str_from crlf (s ++ more) i ≡ some k
find_str_from-append s more i h =
    let (lo, hi) = find_str_from_bound s i h in
    elim (Option-cases (find_str crlf (drop i s))) [
      | inl e ↦ ground (arith, e)
      | inr (k, e) ↦
          rw (drop-append i s more (omega arith), find_str-append crlf (drop i s) more e)
            (rw e at h)
    ]

pub range_none :
    (s : Bytes) (i j : ℕ) {t : Bytes} → leb i j && leb j (length s) ≡ false → ¬ (range s i j ≡ ok t)
unfolding range
range_none s i j e h = ground (arith, e)

pub range-append :
    (s more : Bytes) (i j : ℕ) {t : Bytes} → range s i j ≡ ok t → range (s ++ more) i j ≡ ok t
range-append s more i j h = elim (Bool-cases (leb i j && leb j (length s))) [
  | inl e ↦
      let a = leb→le i j (ground (arith, e)) in
      let b = leb→le j (length s) (ground (arith, e)) in
      range-take (s ++ more) i j a (omega (arith, length-append s more))
      ∙ rw
          (
            drop-append i s more (omega arith),
            take-append (j - i) (drop i s) more (omega (arith, length-drop i s)),
          )
          (sym (range-take s i j a b) ∙ h)
  | inr e ↦ absurd (range_none s i j e h)
]
