-- ===== src/Server/Table.antt =====
-- `std::map` and `std::unordered_map` keyed by a descriptor: an association list with one entry for
-- each key.
use beemo.Common.{
  ℕ, ◌+◌, ◌≤◌, ◌==◌, List, [], ◌∷◌, Option, none, some, if◌then◌else◌, ◌≡◌, ◌≢◌, refl, length,
  arith, Bool-cases, inl, inr,
}

module _ {A : Type 0} where
  unfoldable pub find : ℕ → List (ℕ × A) → Option A
  find key [] = none
  find key ((k, a) ∷ t) = if k == key then some a else find key t

  -- `m[key] = a`
  unfoldable pub insert : ℕ → A → List (ℕ × A) → List (ℕ × A)
  insert key a [] = (key, a) ∷ []
  insert key a ((k, b) ∷ t) = if k == key then (key, a) ∷ t else (k, b) ∷ insert key a t

  -- `m.erase(key)`
  unfoldable pub erase : ℕ → List (ℕ × A) → List (ℕ × A)
  erase key [] = []
  erase key ((k, b) ∷ t) = if k == key then erase key t else (k, b) ∷ erase key t

  pub find-insert : (key : ℕ) (a : A) (t : List (ℕ × A)) → find key (insert key a t) ≡ some a
  unfolding find insert
  find-insert key a [] = ground arith
  find-insert key a ((k, b) ∷ t) = ground (arith, find-insert key a t)

  pub find-insert-other :
      (key other : ℕ) (a : A) (t : List (ℕ × A))
      → other ≢ key
      → find other (insert key a t) ≡ find other t
  unfolding find insert
  find-insert-other key other a [] h = ground arith
  find-insert-other key other a ((k, b) ∷ t) h = ground (arith, find-insert-other key other a t h)

  pub find-erase : (key : ℕ) (t : List (ℕ × A)) → find key (erase key t) ≡ none
  unfolding find erase
  find-erase key [] = refl
  find-erase key ((k, b) ∷ t) = ground (arith, find-erase key t)

  pub find-erase-other :
      (key other : ℕ) (t : List (ℕ × A)) → other ≢ key → find other (erase key t) ≡ find other t
  unfolding find erase
  find-erase-other key other [] h = refl
  find-erase-other key other ((k, b) ∷ t) h = ground (arith, find-erase-other key other t h)

  pub length-erase : (key : ℕ) (t : List (ℕ × A)) → length (erase key t) ≤ length t
  unfolding erase
  length-erase key [] = omega arith
  length-erase key ((k, b) ∷ t) = ground (arith, length-erase key t)

  pub length-insert_new :
      (key : ℕ) (a : A) (t : List (ℕ × A)) → length (insert key a t) ≤ length t + 1
  unfolding insert
  length-insert_new key a [] = omega arith
  length-insert_new key a ((k, b) ∷ t) = ground (arith, length-insert_new key a t)

  -- An entry that is there is replaced.
  pub length-insert_old :
      (key : ℕ) (a b : A) (t : List (ℕ × A))
      → find key t ≡ some b
      → length (insert key a t) ≡ length t
  unfolding find insert
  length-insert_old key a b [] h = absurd cc
  length-insert_old key a b ((k, c) ∷ t) h = elim (Bool-cases (k == key)) [
    | inl e ↦ rw e refl
    | inr e ↦ rw e (omega (arith, length-insert_old key a b t (rw e at h)))
  ]
