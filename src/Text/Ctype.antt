-- ===== src/Text/Ctype.antt =====
-- The classes of <cctype> in the "C" locale, for an argument from 0 to 255. Bytes from 128 on are in
-- no class.
use beemo.Common.{ℕ, ◌+◌, Bool, ◌&&◌, ◌||◌, ltb, leb, ◌==◌, if◌then◌else◌, Result, ok, undefined}

abbrev pub is_ascii : ℕ → Bool
is_ascii c = ltb c 128

-- A function of <cctype> called with a plain `char`, which is signed on x86: a byte from 128 on is
-- passed as a negative number, for which the function is undefined. (EOF is negative too, and allowed,
-- but its value is not relied on here.)
unfoldable pub on_char {ℓ} : {A : Type ℓ} → (ℕ → A) → ℕ → Result A
on_char f c = if is_ascii c then ok (f c) else undefined

-- The same called with an `unsigned char`.
abbrev pub on_byte {ℓ} : {A : Type ℓ} → (ℕ → A) → ℕ → Result A
on_byte f c = ok (f c)

abbrev within : ℕ → ℕ → ℕ → Bool
within lo hi c = leb lo c && leb c hi

unfoldable pub is_digit : ℕ → Bool
is_digit c = within b'0' b'9' c

unfoldable pub is_alpha : ℕ → Bool
is_alpha c = within b'a' b'z' c || within b'A' b'Z' c

unfoldable pub is_xdigit : ℕ → Bool
unfolding is_digit
is_xdigit c = is_digit c || within b'a' b'f' c || within b'A' b'F' c

unfoldable pub is_space : ℕ → Bool
is_space c = c == b' ' || within 9 13 c

unfoldable pub to_lower : ℕ → ℕ
to_lower c = if within b'A' b'Z' c then c + 32 else c
