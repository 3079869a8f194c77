-- ===== src/Text/Laws.antt =====
-- Laws of the searches and cuts of `View`.
use mathlib.Core.Option
use beemo.Common.{
  ℕ, zero, suc, ◌+◌, ◌-◌, ◌≤◌, ◌<◌, Bool, true, false, not, [], ◌∷◌, ◌++◌, none, some, ok, ◌≡◌,
  refl, ap, ◌∙◌, ◌↔◌, inl, inr, arith, ◌==◌, length, take, drop, all, length-drop, Bool-cases,
  Option-cases, le→leb, length-append, take-length-append, drop-length-append, take_all,
}
use beemo.Text.Ctype.{is_digit, is_space}
use beemo.Text.Number.{stoi, fit_int, read_digits}
use beemo.Text.View.{
  Bytes, equal, find_char, find_char_from, find_str, find_not, starts_with, range, deref,
}

-- `c` does not stand in the text.
abbrev pub lacks : ℕ → Bytes → Bool
lacks c = all (λ x. not (x == c))

pub equal_iff : (s t : Bytes) → (equal s t ≡ true) ↔ (s ≡ t)
unfolding equal
equal_iff (c ∷ cs) (d ∷ ds) = ground (arith, equal_iff cs ds)
equal_iff _ _ = ground arith

pub range-take :
    (s : Bytes) (i j : ℕ) → i ≤ j → j ≤ length s → range s i j ≡ ok (take (j - i) (drop i s))
unfolding range
range-take s i j h k = rw (le→leb i j h, le→leb j (length s) k)

pub range_prefix : (x y : Bytes) → range (x ++ y) 0 (length x) ≡ ok x
range_prefix x y =
    range-take (x ++ y) 0 (length x) (omega arith) (omega (arith, length-append x y))
    ∙ ap ok (ap (λ (n : ℕ). take n (x ++ y)) (omega arith) ∙ take-length-append x y)

pub range_suffix : (x y : Bytes) → range (x ++ y) (length x) (length (x ++ y)) ≡ ok y
range_suffix x y =
    range-take (x ++ y) (length x) (length (x ++ y)) (omega (arith, length-append x y))
      (omega arith)
    ∙ ap ok (rw (drop-length-append x y) (take_all _ y (omega (arith, length-append x y))))

pub find_char-append :
    (c : ℕ) (x y : Bytes)
    → lacks c x ≡ true
    → find_char c (x ++ y) ≡ Option.map (λ k. length x + k) (find_char c y)
unfolding find_char
find_char-append c [] y h = elim (Option-cases (find_char c y)) [
  | inl e ↦ rw e
  | inr (k, e) ↦ rw e (ground arith)
]
find_char-append c (x ∷ xs) y h = elim (Option-cases (find_char c y)) [
  | inl e ↦ rw e (ground (arith, find_char-append c xs y, e))
  | inr (k, e) ↦ rw e (ground (arith, find_char-append c xs y, e))
]

pub find_char-none : (c : ℕ) (x : Bytes) → lacks c x ≡ true → find_char c x ≡ none
unfolding find_char
find_char-none c [] h = refl
find_char-none c (x ∷ xs) h = ground (arith, find_char-none c xs)

pub find_char-hit :
    (c : ℕ) (x y : Bytes) → lacks c x ≡ true → find_char c (x ++ c ∷ y) ≡ some (length x)
unfolding find_char
find_char-hit c [] y h = ground arith
find_char-hit c (x ∷ xs) y h = ground (arith, find_char-hit c xs y)

pub find_char_bound : (c : ℕ) (s : Bytes) {i : ℕ} → find_char c s ≡ some i → i < length s
unfolding find_char
find_char_bound c [] h = cc
find_char_bound c (x ∷ xs) {i} h = elim (Option-cases (find_char c xs)) [
  | inl e ↦ ground (arith, e)
  | inr (k, e) ↦ ground (arith, e, find_char_bound c xs e)
]

pub starts_with-length : (p s : Bytes) → starts_with p s ≡ true → length p ≤ length s
unfolding starts_with
starts_with-length [] s h = omega arith
starts_with-length (c ∷ p) [] h = cc
starts_with-length (c ∷ p) (x ∷ s) h = ground (arith, starts_with-length p s)

pub find_str_bound : (p s : Bytes) {i : ℕ} → find_str p s ≡ some i → i + length p ≤ length s
unfolding find_str
find_str_bound p [] h = cc
find_str_bound p (x ∷ s) h = elim (Option-cases (find_str p s)) [
  | inl e ↦ ground (arith, e, starts_with-length p (x ∷ s))
  | inr (k, e) ↦ ground (arith, e, find_str_bound p s e, starts_with-length p (x ∷ s))
]

pub find_not_bound : (c : ℕ) (s : Bytes) {i : ℕ} → find_not c s ≡ some i → i < length s
unfolding find_not
find_not_bound c [] h = cc
find_not_bound c (x ∷ s) h = elim (Option-cases (find_not c s)) [
  | inl e ↦ ground (arith, e)
  | inr (k, e) ↦ ground (arith, e, find_not_bound c s e)
]

-- A position found behind `i` lies between `i` and the end.
pub find_char_from_bound :
    (c : ℕ) (s : Bytes) (i : ℕ) {k : ℕ} → find_char_from c s i ≡ some k → (i ≤ k) × (k < length s)
find_char_from_bound c s i h = elim (Option-cases (find_char c (drop i s))) [
  | inl e ↦ ground (arith, e)
  | inr (k, e) ↦ ground (arith, e, find_char_bound c (drop i s) e, length-drop i s)
]

-- What is found stays found, and at the same place, when more text arrives.
pub starts_with-append : (p x y : Bytes) → starts_with p x ≡ true → starts_with p (x ++ y) ≡ true
unfolding starts_with
starts_with-append [] x y h = refl
starts_with-append (c ∷ p) [] y h = cc
starts_with-append (c ∷ p) (a ∷ x) y h = ground (arith, starts_with-append p x y)

-- The other way round, if the text is long enough.
pub starts_with-long :
    (p x y : Bytes) → length p ≤ length x → starts_with p (x ++ y) ≡ starts_with p x
unfolding starts_with
starts_with-long [] x y h = refl
starts_with-long (c ∷ p) [] y h = absurd (omega arith)
starts_with-long (c ∷ p) (a ∷ x) y h = ground (arith, starts_with-long p x y)

pub find_str-append : (p x y : Bytes) {i : ℕ} → find_str p x ≡ some i → find_str p (x ++ y) ≡ some i
unfolding find_str
find_str-append p [] y h = cc
find_str-append p (a ∷ x) y {i} h = elim (Bool-cases (starts_with p (a ∷ x))) [
  | inl e ↦ rw (starts_with-append p (a ∷ x) y e) (ground (arith, e))
  | inr e ↦ elim (Option-cases (find_str p x)) [
    | inl f ↦ ground (arith, e, f)
    | inr (k, f) ↦
        rw (starts_with-long p (a ∷ x) y (ground (arith, f, find_str_bound p x f)), e)
          (ground (arith, e, f, find_str-append p x y f))
  ]
]

pub deref_lem : (s : Bytes) (i : ℕ) → i < length s → (c : ℕ) × (deref s i ≡ ok c)
unfolding deref
deref_lem [] i h = elim h [ ]
deref_lem (x ∷ s) zero h = (x, refl)
deref_lem (x ∷ s) (suc i) h = deref_lem s i (omega arith)

pub deref-drop : (s : Bytes) (i : ℕ) {c : ℕ} → deref s i ≡ ok c → drop i s ≡ c ∷ drop (suc i) s
unfolding deref
deref-drop [] i h = cc
deref-drop (x ∷ s) zero h = cc
deref-drop (x ∷ s) (suc i) h = deref-drop s i h

-- Digits, with no space or sign before them, are read as the number that they write.
pub stoi-digits :
    (c : ℕ) (s : Bytes) → is_digit c ≡ true → stoi (c ∷ s) ≡ fit_int false (read_digits 0 (c ∷ s))
unfolding stoi is_space is_digit
stoi-digits c s h = ground arith
