-- ===== src/Uri/Path.antt =====
-- The paths that `parse_path` accepts, read off their segments.
use beemo.Common.{
  ℕ, zero, suc, ◌+◌, ◌-◌, ◌≤◌, Bool, true, false, not, ◌&&◌, ◌||◌, List, [], ◌∷◌, ok, ◌≡◌, refl, ap,
  ◌∙◌, arith, ◌==◌, if◌then◌else◌, length, is_empty, take, drop, all, length-drop, inl, inr,
  Bool-cases, &&-true,
}
use beemo.Text.{Bytes, range-take, is_ascii, on_char}
use beemo.Uri.{Uri}
use beemo.Uri.Grammar.{pchar, is_pchar-pchar, pchar-is_ascii}
use beemo.Uri.Chars.{is_pchar}
use beemo.Uri.Parts.{segment_loop, path_loop, parse_path}

-- The text before the first '/', and the segments that each stand behind a '/'.
unfoldable pub segments : Bytes → Bytes × List Bytes
segments [] = ([], [])
segments (c ∷ cs) = let (x, r) = segments cs in if c == b'/' then ([], x ∷ r) else (c ∷ x, r)

-- Every segment is made of pchars, and only the last one may be empty.
unfoldable pub are_segments : List Bytes → Bool
are_segments [] = true
are_segments (x ∷ []) = all pchar x
are_segments (x ∷ y ∷ r) = not (is_empty x) && all pchar x && are_segments (y ∷ r)

abbrev pub is_path_of : Bytes × List Bytes → Bool
is_path_of (x, r) = all pchar x && are_segments r

unfoldable pub is_path : Bytes → Bool
unfolding segments are_segments
is_path s = is_path_of (segments s)

-- A segment of which some bytes were read (`seen`), its rest `x`, and the segments behind it.
abbrev continues : Bool → Bytes × List Bytes → Bool
continues seen (x, []) = all pchar x
continues seen (x, y ∷ r) = (seen || not (is_empty x)) && all pchar x && are_segments (y ∷ r)

continues-false : (p : Bytes × List Bytes) → continues false p ≡ are_segments (p.0 ∷ p.1)
unfolding are_segments
continues-false (x, []) = refl
continues-false (x, y ∷ r) = refl

slash-pchar : (c : ℕ) → (c == b'/') ≡ true → (is_pchar c ≡ ok false) × (pchar c ≡ false)
unfolding is_pchar pchar
slash-pchar c h = let c_is : c ≡ b'/' = ground arith in rw c_is (refl, refl)

pchar_lem : (c : ℕ) → is_ascii c ≡ true → is_pchar c ≡ ok (pchar c)
unfolding on_char
pchar_lem c h = rw (is_pchar-pchar c, h) refl

continues-cons :
    (seen : Bool) (c : ℕ) (p : Bytes × List Bytes)
    → continues seen (if c == b'/' then ([], p.0 ∷ p.1) else (c ∷ p.0, p.1))
      ≡ (if c == b'/' then seen && continues false p else pchar c && continues true p)
unfolding are_segments
continues-cons seen c (x, []) = ground arith
continues-cons seen c (x, y ∷ r) = ground arith

segment_loop-continues :
    (seen : Bool) (xs : Bytes) (i n : ℕ)
    → n ≤ length xs
    → all is_ascii (take n xs) ≡ true
    → segment_loop seen xs i (i + n) ≡ ok (continues seen (segments (take n xs)))
unfolding segment_loop segments
segment_loop-continues seen [] i zero h a = ground arith
segment_loop-continues seen [] i (suc n) h a = absurd (omega arith)
segment_loop-continues seen (c ∷ cs) i zero h a = ground arith
segment_loop-continues seen (c ∷ cs) i (suc n) h a =
    let (first, others) = &&-true (is_ascii c) (all is_ascii (take n cs)) a in
    let e : i + suc n ≡ suc i + n = omega arith in
    rw (e, continues-cons seen c (segments (take n cs)))
      (elim (Bool-cases (c == b'/')) [
        | inl slash ↦
            rw slash
              (ground (arith, segment_loop-continues false cs (suc i) n (omega arith) others))
        | inr plain ↦
            rw (plain, pchar_lem c first)
              (ground (arith, segment_loop-continues true cs (suc i) n (omega arith) others))
      ])

is_path_of-cons :
    (c : ℕ) (p : Bytes × List Bytes)
    → is_path_of (if c == b'/' then ([], p.0 ∷ p.1) else (c ∷ p.0, p.1))
      ≡ (if c == b'/' then continues false p else pchar c && is_path_of p)
is_path_of-cons c (x, r) = ground (arith, continues-false (x, r))

path_loop-is_path :
    (xs : Bytes) (i n : ℕ)
    → n ≤ length xs
    → all is_ascii (take n xs) ≡ true
    → path_loop xs i (i + n) ≡ ok (is_path (take n xs))
unfolding path_loop is_path
path_loop-is_path [] i zero h a = ground arith
path_loop-is_path [] i (suc n) h a = absurd (omega arith)
path_loop-is_path (c ∷ cs) i zero h a = ground arith
path_loop-is_path (c ∷ cs) i (suc n) h a =
    let (first, others) = &&-true (is_ascii c) (all is_ascii (take n cs)) a in
    let e : i + suc n ≡ suc i + n = omega arith in
    rw (e, is_path_of-cons c (segments (take n cs)))
      (elim (Bool-cases (c == b'/')) [
        | inl slash ↦
            rw (slash, (slash-pchar c slash).0)
              (ground (arith, segment_loop-continues false cs (suc i) n (omega arith) others))
        | inr plain ↦
            rw (plain, pchar_lem c first)
              (ground (arith, path_loop-is_path cs (suc i) n (omega arith) others))
      ])

-- On a range within the view that has no byte from 128 on `parse_path` returns. It stores the range as the path exactly when
-- every segment is made of pchars and no segment but the first and the last is empty. Otherwise it
-- sets `has_err`, and nothing else; it never clears `has_err`.
pub parse_path-is_path :
    (u : Uri) (s : Bytes) (i j : ℕ)
    → i ≤ j
    → j ≤ length s
    → all is_ascii (take (j - i) (drop i s)) ≡ true
    → let p = take (j - i) (drop i s) in
      parse_path u s i j
      ≡ ok (if is_path p then record u { path = p } else record u { has_err = true })
unfolding parse_path
parse_path-is_path u s i j h k a =
    let e : path_loop (drop i s) i j ≡ ok (is_path (take (j - i) (drop i s))) =
      ap (path_loop (drop i s) i) (omega arith)
      ∙ path_loop-is_path (drop i s) i (j - i) (omega (arith, length-drop i s)) a in
    elim (Bool-cases (is_path (take (j - i) (drop i s)))) [
      | inl good ↦ rw (e, good, range-take s i j h k)
      | inr bad ↦ rw (e, bad)
    ]

continues-is_path_of : (p : Bytes × List Bytes) → continues false p ≡ true → is_path_of p ≡ true
unfolding are_segments
continues-is_path_of (x, []) h = ground (arith, h)
continues-is_path_of (x, y ∷ r) h = ground (arith, h)

-- A well-formed path has no byte from 128 on.
pub is_path-is_ascii : (s : Bytes) → is_path s ≡ true → all is_ascii s ≡ true
unfolding is_path segments
is_path-is_ascii [] h = refl
is_path-is_ascii (c ∷ cs) h =
    let e = rw (is_path_of-cons c (segments cs)) at h in
    elim (Bool-cases (c == b'/')) [
      | inl slash ↦
          let e' = rw slash at e in
          ground (arith, is_path-is_ascii cs (continues-is_path_of (segments cs) e'))
      | inr plain ↦
          let (first, others) = &&-true (pchar c) (is_path_of (segments cs)) (rw plain at e) in
          ground (arith, pchar-is_ascii c first, is_path-is_ascii cs others)
    ]
