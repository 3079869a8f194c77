-- ===== src/Http/Digits.antt =====
-- A chunk size in hexadecimal digits, as `decode_chunked` finds and reads it.
use mathlib.Core.Option
use beemo.Common.{
  ℕ, suc, ◌+◌, ◌*◌, true, false, ◌&&◌, [], ◌∷◌, ◌++◌, some, ◌≡◌, refl, ap, ◌∙◌, arith, ◌==◌, length,
  take, Bool-cases, ◌⊎◌, Option-cases, inl, inr, take-length-append, is_empty, all, &&-true,
}
use beemo.Text.{
  Bytes, read_hex, is_xdigit, is_space, lacks, find_char, find_char-append, skip_space,
  read_xdigits, xdigit_value,
}
use beemo.Http.Chunked.{size_end}

xdigits_stop :
    (acc : ℕ) (digits rest : Bytes)
    → all is_xdigit digits ≡ true
    → read_xdigits acc (digits ++ 13 ∷ rest) ≡ read_xdigits acc digits
unfolding read_xdigits is_xdigit
xdigits_stop acc [] rest h = refl
xdigits_stop acc (c ∷ cs) rest h = ground (arith, xdigits_stop (16 * acc + xdigit_value c) cs rest)

xdigit_plain :
    (c : ℕ)
    → is_xdigit c ≡ true
    → (is_space c ≡ false)
      × ((c == b'-') ≡ false)
      × ((c == b'+') ≡ false)
      × ((c == b'x') ≡ false)
      × ((c == b'X') ≡ false)
      × ((c == 13) ≡ false)
      × ((c == b' ') ≡ false)
unfolding is_xdigit is_space
xdigit_plain c h = ground arith

-- Behind the digits a carriage return ends the number.
read_hex_stop :
    (digits rest : Bytes)
    → is_empty digits ≡ false
    → all is_xdigit digits ≡ true
    → read_hex (digits ++ 13 ∷ rest) ≡ read_hex digits
unfolding read_hex skip_space
read_hex_stop [] rest e h = cc
read_hex_stop (c ∷ []) rest e h =
    let (space, minus, plus, _, _, _, _) = xdigit_plain c (&&-true (is_xdigit c) true h).0 in
    elim (Bool-cases (c == b'0')) [
      | inl z ↦ rw (space, minus, plus, z, xdigits_stop 0 (c ∷ []) rest h) refl
      | inr z ↦ rw (space, minus, plus, z, xdigits_stop 0 (c ∷ []) rest h) refl
    ]
read_hex_stop (c ∷ d ∷ cs) rest e h =
    let h₁ = &&-true (is_xdigit c) (is_xdigit d && all is_xdigit cs) h in
    let (space, minus, plus, _, _, _, _) = xdigit_plain c h₁.0 in
    let (_, _, _, x, y, _, _) = xdigit_plain d (&&-true (is_xdigit d) (all is_xdigit cs) h₁.1).0 in
    elim (Bool-cases (c == b'0')) [
      | inl z ↦ rw (space, minus, plus, z, x, y, xdigits_stop 0 (c ∷ d ∷ cs) rest h) refl
      | inr z ↦ rw (space, minus, plus, z, xdigits_stop 0 (c ∷ d ∷ cs) rest h) refl
    ]

pub lacks-digits :
    (c : ℕ) (digits : Bytes)
    → (c ≡ 13) ⊎ (c ≡ b' ')
    → all is_xdigit digits ≡ true
    → lacks c digits ≡ true
lacks-digits c [] w h = refl
lacks-digits c (d ∷ ds) w h = ground (arith, w, xdigit_plain d, lacks-digits c ds w)

pub take_behind : (x y : Bytes) (n m : ℕ) → m ≡ length x + n → take m (x ++ y) ≡ x ++ take n y
take_behind [] y n m e = ap (λ k. take k y) (omega (arith, e))
take_behind (c ∷ x) y n m e =
    ap (λ k. take k (c ∷ x ++ y)) {y = suc (length x + n)} (omega (arith, e))
    ∙ ap (◌∷◌ c) (take_behind x y n (length x + n) refl)

-- The size is read up to the line end, or up to a space, wherever behind it that stands.
pub size_text :
    (i : ℕ) (digits rest : Bytes)
    → is_empty digits ≡ false
    → all is_xdigit digits ≡ true
    → let text = digits ++ 13 ∷ rest in
      (m : ℕ) × (size_end (Option.map (λ k. i + k) (find_char b' ' text)) (some (i + length digits))
        ≡ some (i + m))
      × (read_hex (take m text) ≡ read_hex digits)
unfolding find_char
size_text i digits rest e h =
    let found = find_char-append b' ' digits (13 ∷ rest) (lacks-digits b' ' digits (inr refl) h) in
    elim (Option-cases (find_char b' ' rest)) [
      | inl f ↦ (length digits, rw (found, f) refl, rw (take-length-append digits (13 ∷ rest)) refl)
      | inr (k, f) ↦ (
        length digits + suc k,
        rw (found, f) refl,
        rw (take_behind digits (13 ∷ rest) (suc k) (length digits + suc k) refl)
            (read_hex_stop digits (take k rest) e h),
      )
    ]
