-- ===== src/Keyword/Table.antt =====
-- The parts of the keyword search, on texts that are equal up to case.
use beemo.Common.{
  ℕ, ◌+◌, ◌-◌, ◌≤◌, ◌<◌, Bool, true, not, ◌&&◌, [], ◌∷◌, ◌++◌, pos, ◌≡◌, ◌⊎◌, inl, inr, refl, ap,
  arith, ◌==◌, ==_iff, ltb, length, all, Bool-cases, all_below, all_below_sound,
}
use beemo.Text.{Bytes}
use beemo.Keyword.{downcase, asso_value, hash, case_strcmp, same_letter}
use beemo.Keyword.Reference.{lower}

abbrev pub nonzero : Bytes → Bool
nonzero = all (λ c. not (c == 0))

downcase-zero : (c : ℕ) → (downcase c == 0) ≡ (c == 0)
unfolding downcase
downcase-zero c = ground arith

pub case_strcmp_complete :
    (s w : Bytes) → nonzero w ≡ true → lower s ≡ lower w → case_strcmp s w ≡ pos 0
unfolding case_strcmp
case_strcmp_complete [] [] h e = refl
case_strcmp_complete [] (y ∷ ys) h e = cc
case_strcmp_complete (x ∷ xs) [] h e = cc
case_strcmp_complete (x ∷ xs) (y ∷ ys) h e =
    ground (arith, case_strcmp_complete xs ys, downcase-zero y)

-- A text that compares equal to a word begins with it; a zero byte may follow.
pub case_strcmp_sound :
    (s w : Bytes)
    → nonzero w ≡ true
    → case_strcmp s w ≡ pos 0
    → (t : Bytes) × (lower s ≡ lower w ++ t)
unfolding case_strcmp
case_strcmp_sound s [] h e = (lower s, refl)
case_strcmp_sound [] (y ∷ ys) h e = absurd (ground (arith, downcase-zero y))
case_strcmp_sound (x ∷ xs) (y ∷ ys) h e =
    elim (Bool-cases (not (downcase x == 0) && downcase x == downcase y)) [
      | inl same ↦
          let (t, f) = case_strcmp_sound xs ys (ground arith) (rw same at e) in
          (t, ground (arith, f))
      | inr other ↦ absurd (ground (arith, downcase-zero y))
    ]

-- The hash looks at letters without regard to case.
asso_value_table : all_below 91 (λ c. asso_value (downcase c) == asso_value c) ≡ true
unfolding all_below asso_value downcase
asso_value_table = refl

downcase_high : (c : ℕ) → 91 ≤ c → downcase c ≡ c
unfolding downcase
downcase_high c h = ground arith

pub asso_value-downcase : (c : ℕ) → asso_value (downcase c) ≡ asso_value c
asso_value-downcase c = elim (Bool-cases (ltb c 91)) [
  | inl low ↦ (==_iff _ _).0 (
      all_below_sound 91 (λ c. asso_value (downcase c) == asso_value c) c asso_value_table
        (ground arith))
  | inr high ↦ ap asso_value (downcase_high c (ground arith))
]

-- Equal up to case: the same byte, or one letter in its two cases.
downcase_eq :
    (a b : ℕ)
    → downcase a ≡ downcase b
    → (a ≡ b)
      ⊎ ((k : ℕ) × (k < 26) × (((a ≡ k + 97) × (b ≡ k + 65)) ⊎ ((a ≡ k + 65) × (b ≡ k + 97))))
unfolding downcase
downcase_eq a b e = elim (Bool-cases (a == b)) [
  | inl same ↦ inl (ground arith)
  | inr differ ↦ elim (Bool-cases (ltb a b)) [
    | inl less ↦ inr (a - 65, ground arith, inr (ground arith, ground arith))
    | inr more ↦ inr (b - 65, ground arith, inl (ground arith, ground arith))
  ]
]

-- The test of the first letters passes on a byte and itself, and on a letter in its two cases.
same_letter_table :
    (all_below 256 (λ b. same_letter b b) ≡ true)
    × (all_below 26 (λ k. same_letter (k + 97) (k + 65) && same_letter (k + 65) (k + 97)) ≡ true)
unfolding all_below same_letter
same_letter_table = (refl, refl)

pub same_letter-downcase : (a b : ℕ) → b < 256 → downcase a ≡ downcase b → same_letter a b ≡ true
same_letter-downcase a b lt e = elim (downcase_eq a b e) [
  | inl same ↦ rw same (all_below_sound 256 (λ b. same_letter b b) b same_letter_table.0 lt)
  | inr (k, small, swapped) ↦
      let pair =
        all_below_sound 26 (λ k. same_letter (k + 97) (k + 65) && same_letter (k + 65) (k + 97)) k
          same_letter_table.1 small in
      elim swapped [
        | inl (p, q) ↦ rw (p, q) (ground (arith, pair))
        | inr (p, q) ↦ rw (p, q) (ground (arith, pair))
      ]
]

pub hash-lower : (s : Bytes) (n : ℕ) → 2 ≤ length s → hash (lower s) n ≡ hash s n
unfolding hash
hash-lower [] n h = absurd (omega arith)
hash-lower (a ∷ []) n h = absurd (omega arith)
hash-lower (a ∷ b ∷ s) n h = omega (arith, asso_value-downcase a, asso_value-downcase b)
