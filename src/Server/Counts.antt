-- ===== src/Server/Counts.antt =====
-- linux/ev_epoll.cpp: the events that the workers have, counted.
use beemo.Common.{ℕ, ◌+◌, ◌==◌, ◌&&◌, Bool, true, false, List, [], ◌∷◌, ◌++◌, ◌≡◌, ◌≢◌, refl, arith}
use beemo.Server.World.{Ready, err, readable, writable, neither}

abbrev pub bit : Bool → ℕ
bit true = 1
bit false = 0

-- How many events for the descriptor the workers have.
unfoldable pub count : ℕ → List (ℕ × Ready) → ℕ
count fd [] = 0
count fd ((g, ready) ∷ es) = bit (g == fd) + count fd es

abbrev pub has_bit : Ready → Bool
has_bit neither = false
has_bit _ = true

abbrev pub has_bits : List (ℕ × Ready) → Bool
has_bits [] = true
has_bits ((g, ready) ∷ es) = has_bit ready && has_bits es

pub given_bit : (ready : Ready) → ready ≢ neither → has_bit ready ≡ true
given_bit err h = refl
given_bit readable h = refl
given_bit writable h = refl
given_bit neither h = absurd (h refl)

pub count-cons :
    (fd g : ℕ) (ready : Ready) (es : List (ℕ × Ready))
    → count fd ((g, ready) ∷ es) ≡ bit (g == fd) + count fd es
unfolding count
count-cons fd g ready es = refl

pub count-split :
    (fd g : ℕ) (ready : Ready) (xs ys : List (ℕ × Ready))
    → count fd (xs ++ ((g, ready) ∷ ys)) ≡ bit (g == fd) + count fd (xs ++ ys)
unfolding count
count-split fd g ready [] ys = refl
count-split fd g ready ((h, r) ∷ xs) ys = omega (arith, count-split fd g ready xs ys)

pub has_bits-split :
    (g : ℕ) (ready : Ready) (xs ys : List (ℕ × Ready))
    → has_bits (xs ++ ((g, ready) ∷ ys)) ≡ true
    → (has_bit ready ≡ true) × (has_bits (xs ++ ys) ≡ true)
has_bits-split g ready [] ys e = ground arith
has_bits-split g ready ((h, r) ∷ xs) ys e = ground (arith, has_bits-split g ready xs ys)

pub counted :
    (a b : Bool) (m : ℕ) {n : ℕ}
    → n ≡ 1 + m
    → n + bit a ≡ bit b
    → (m ≡ 0) × (a ≡ false) × (b ≡ true)
counted true true m e f = absurd (omega (arith, e, f))
counted true false m e f = absurd (omega (arith, e, f))
counted false true m e f = (omega (arith, e, f), refl, refl)
counted false false m e f = absurd (omega (arith, e, f))
