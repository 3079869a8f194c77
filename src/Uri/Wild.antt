-- ===== src/Uri/Wild.antt =====
-- User information with a byte from 128 on: its test is undefined.
use beemo.Common.{
  ℕ, zero, suc, ◌+◌, ◌-◌, ◌≤◌, true, false, [], ◌∷◌, some, Result, Bool, undefined, ◌≡◌, refl, ap,
  ◌∙◌, arith, ◌==◌, length, take, all, Bool-cases, inl, inr,
}
use beemo.Text.{Bytes, is_ascii, on_char}
use beemo.Utils.{parse_pattern, pattern_loop}
use beemo.Utils.Pattern.{TestsFor}
use beemo.Uri.{Uri}
use beemo.Uri.Chars.{is_userinfo_char}
use beemo.Uri.Grammar.{userinfo_char, is_userinfo_char-userinfo_char}
use beemo.Uri.Parts.{parse_userinfo}
use beemo.Uri.Parser.{userinfo_part}

-- A test that no byte fails comes to every byte of a range, and so to one from 128 on.
pattern_loop_wild :
    (p : ℕ → Result Bool)
    → TestsFor p (λ _. true)
    → (xs : Bytes) (i n : ℕ) → n ≤ length xs
    → all is_ascii (take n xs) ≡ false
    → pattern_loop p xs i (i + n) ≡ undefined
unfolding pattern_loop on_char
pattern_loop_wild p tests xs i zero h a = absurd (ground (arith, a))
pattern_loop_wild p tests [] i (suc n) h a = absurd (omega arith)
pattern_loop_wild p tests (x ∷ xs) i (suc n) h a =
    let shift : i + suc n ≡ suc i + n = omega arith in
    let differ : (i == suc i + n) ≡ false = ground arith in
    elim (Bool-cases (is_ascii x)) [
      | inr wild ↦ rw (shift, differ, tests x, wild) refl
      | inl plain ↦
          rw (shift, differ, tests x, plain)
            (pattern_loop_wild p tests xs (suc i) n (omega arith) (rw plain at a))
    ]

pub userinfo_part_wild :
    (u : Uri) (auth : Bytes) (i : ℕ)
    → i ≤ length auth
    → all is_ascii (take (i - 0) auth) ≡ false
    → userinfo_part u auth (some i) ≡ undefined
unfolding userinfo_part parse_userinfo parse_pattern userinfo_char
userinfo_part_wild u auth i h a =
    let size : i - 0 ≡ i = omega arith in
    let same : i ≡ 0 + i = omega arith in
    let e =
      ap (pattern_loop is_userinfo_char auth 0) same
      ∙ pattern_loop_wild is_userinfo_char is_userinfo_char-userinfo_char auth 0 i h
          (rw size at a) in
    rw e refl
