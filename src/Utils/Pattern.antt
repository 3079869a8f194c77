-- ===== src/Utils/Pattern.antt =====
-- `parse_pattern` on a range within the view.
use beemo.Common.{
  ℕ, zero, suc, ◌+◌, ◌-◌, ◌≤◌, ◌==◌, Bool, true, false, [], ◌∷◌, ◌++◌, Result, ok, ◌≡◌, refl, ap,
  ◌∙◌, arith, length, take, drop, all, length-drop, length-append, take_all, drop-length-append,
  take-length-append, Bool-cases, inl, inr, &&-true,
}
use beemo.Text.{Bytes, is_ascii, on_char, on_byte}
use beemo.Utils.{pattern_loop, parse_pattern}

-- A test that says whether a byte below 128 is in the class `q`, and is not defined for the others.
abbrev pub TestsFor : (ℕ → Result Bool) → (ℕ → Bool) → Type 0
TestsFor p q = (c : ℕ) → p c ≡ on_char q c

pub all-imp :
    (p q : ℕ → Bool) (xs : Bytes)
    → ((c : ℕ) → p c ≡ true → q c ≡ true)
    → all p xs ≡ true
    → all q xs ≡ true
all-imp p q [] h k = refl
all-imp p q (x ∷ xs) h k = ground (arith, h x, all-imp p q xs h)

pub all-true : (p : ℕ → Bool) (xs : Bytes) → ((c : ℕ) → p c ≡ true) → all p xs ≡ true
all-true p [] h = refl
all-true p (x ∷ xs) h = ground (arith, h x, all-true p xs h)

pub all-take : (p : ℕ → Bool) (n : ℕ) (xs : Bytes) → all p xs ≡ true → all p (take n xs) ≡ true
all-take p zero xs h = refl
all-take p (suc n) [] h = refl
all-take p (suc n) (x ∷ xs) h = ground (arith, h, all-take p n xs)

pub all-drop : (p : ℕ → Bool) (n : ℕ) (xs : Bytes) → all p xs ≡ true → all p (drop n xs) ≡ true
all-drop p zero xs h = h
all-drop p (suc n) [] h = refl
all-drop p (suc n) (x ∷ xs) h = all-drop p n xs (ground (arith, h))

-- `d` is a class of bytes for which the test is that of `q`.
module _ (p : ℕ → Result Bool) (d q : ℕ → Bool)
    (tests : (c : ℕ) → d c ≡ true → p c ≡ ok (q c)) where
  pattern_loop-all :
      (xs : Bytes) (i n : ℕ)
      → n ≤ length xs
      → all d (take n xs) ≡ true
      → pattern_loop p xs i (i + n) ≡ ok (all q (take n xs))
  unfolding pattern_loop
  pattern_loop-all [] i zero h a = ground arith
  pattern_loop-all [] i (suc n) h a = absurd (omega arith)
  pattern_loop-all (x ∷ xs) i zero h a = ground arith
  pattern_loop-all (x ∷ xs) i (suc n) h a =
      let e : i + suc n ≡ suc i + n = omega arith in
      let (first, others) = &&-true (d x) (all d (take n xs)) a in
      rw (e, tests x first) (ground (arith, pattern_loop-all xs (suc i) n (omega arith) others))

  -- On a range that lies in the view the loop ends, and tests exactly the range's bytes.
  parse_pattern-in :
      (s : Bytes) (i j : ℕ)
      → i ≤ j
      → j ≤ length s
      → all d (take (j - i) (drop i s)) ≡ true
      → parse_pattern p s i j ≡ ok (all q (take (j - i) (drop i s)))
  unfolding parse_pattern
  parse_pattern-in s i j h k a =
      let e : j ≡ i + (j - i) = omega arith in
      ap (pattern_loop p (drop i s) i) e
      ∙ pattern_loop-all (drop i s) i (j - i) (omega (arith, length-drop i s)) a

  parse_pattern-in_prefix :
      (x y : Bytes) → all d x ≡ true → parse_pattern p (x ++ y) 0 (length x) ≡ ok (all q x)
  parse_pattern-in_prefix x y a =
      let e : take (length x - 0) (x ++ y) ≡ x =
        ap (λ (n : ℕ). take n (x ++ y)) (omega arith) ∙ take-length-append x y in
      rw e at (
        parse_pattern-in (x ++ y) 0 (length x) (omega arith) (omega (arith, length-append x y))
          (rw e a))

  parse_pattern-in_suffix :
      (x y : Bytes)
      → all d y ≡ true
      → parse_pattern p (x ++ y) (length x) (length (x ++ y)) ≡ ok (all q y)
  parse_pattern-in_suffix x y a =
      let e : take (length (x ++ y) - length x) (drop (length x) (x ++ y)) ≡ y =
        rw (drop-length-append x y) (take_all _ y (omega (arith, length-append x y))) in
      rw e at (
        parse_pattern-in (x ++ y) (length x) (length (x ++ y)) (omega (arith, length-append x y))
          (omega arith) (rw e a))

-- For a test that is called with an `unsigned char`.
module _ (q : ℕ → Bool) where
  pub parse_pattern-on_byte :
      (s : Bytes) (i j : ℕ)
      → i ≤ j
      → j ≤ length s
      → parse_pattern (on_byte q) s i j ≡ ok (all q (take (j - i) (drop i s)))
  parse_pattern-on_byte s i j h k =
      parse_pattern-in (on_byte q) (λ _. true) q (λ c _. refl) s i j h k
        (all-true (λ _. true) (take (j - i) (drop i s)) λ _. refl)

  pub parse_pattern-on_byte_suffix :
      (x y : Bytes) → parse_pattern (on_byte q) (x ++ y) (length x) (length (x ++ y)) ≡ ok (all q y)
  parse_pattern-on_byte_suffix x y =
      parse_pattern-in_suffix (on_byte q) (λ _. true) q (λ c _. refl) x y
        (all-true (λ _. true) y λ _. refl)

module _ (p : ℕ → Result Bool) (q : ℕ → Bool) (tests : TestsFor p q) where
  on_ascii : (c : ℕ) → is_ascii c ≡ true → p c ≡ ok (q c)
  unfolding on_char
  on_ascii c h = rw (tests c, h) refl

  pub parse_pattern-all :
      (s : Bytes) (i j : ℕ)
      → i ≤ j
      → j ≤ length s
      → all is_ascii (take (j - i) (drop i s)) ≡ true
      → parse_pattern p s i j ≡ ok (all q (take (j - i) (drop i s)))
  parse_pattern-all = parse_pattern-in p is_ascii q on_ascii

  pub parse_pattern_prefix :
      (x y : Bytes) → all is_ascii x ≡ true → parse_pattern p (x ++ y) 0 (length x) ≡ ok (all q x)
  parse_pattern_prefix = parse_pattern-in_prefix p is_ascii q on_ascii

  pub parse_pattern_suffix :
      (x y : Bytes)
      → all is_ascii y ≡ true
      → parse_pattern p (x ++ y) (length x) (length (x ++ y)) ≡ ok (all q y)
  parse_pattern_suffix = parse_pattern-in_suffix p is_ascii q on_ascii

  pattern_loop-ok :
      (xs : Bytes) (i n : ℕ) {b : Bool}
      → n ≤ length xs
      → pattern_loop p xs i (i + n) ≡ ok b
      → b ≡ all q (take n xs)
  unfolding pattern_loop on_char
  pattern_loop-ok [] i zero h e = ground (arith, e)
  pattern_loop-ok [] i (suc n) h e = absurd (omega arith)
  pattern_loop-ok (x ∷ xs) i zero h e = ground (arith, e)
  pattern_loop-ok (x ∷ xs) i (suc n) h e =
      let shift : i + suc n ≡ suc i + n = omega arith in
      let differ : (i == suc i + n) ≡ false = ground arith in
      elim (Bool-cases (is_ascii x)) [
        | inr wild ↦ let e' = rw (shift, differ, tests x, wild) at e in absurd (cc)
        | inl plain ↦
            let e' = rw (shift, differ, on_ascii x plain) at e in
            elim (Bool-cases (q x)) [
              | inr bad ↦ let e'' = rw bad at e' in rw bad (ground (arith, e''))
              | inl good ↦
                  let e'' = rw good at e' in
                  rw good (pattern_loop-ok xs (suc i) n (omega arith) e'')
            ]
      ]

  -- Where the loop comes to a result, it is that of the class, for any bytes.
  pub parse_pattern-ok :
      (s : Bytes) (i j : ℕ) {b : Bool}
      → i ≤ j
      → j ≤ length s
      → parse_pattern p s i j ≡ ok b
      → b ≡ all q (take (j - i) (drop i s))
  unfolding parse_pattern
  parse_pattern-ok s i j h k e =
      pattern_loop-ok (drop i s) i (j - i) (omega (arith, length-drop i s))
        (ap (pattern_loop p (drop i s) i) (omega arith) ∙ e)
