-- ===== src/Text/Number.antt =====
-- Numbers read from text: `std::stoi`, and `stream >> std::hex >> unsigned int`.
use beemo.Common.{
  ℕ, ◌+◌, ◌-◌, ◌*◌, ◌^◌, Bool, true, false, ◌&&◌, ◌||◌, [], ◌∷◌, ℤ, signed, to_unsigned, Result, ok,
  throw, invalid_argument, out_of_range, leb, ltb, ◌==◌, if◌then◌else◌,
}
use beemo.Text.View.{Bytes}
use beemo.Text.Ctype.{is_digit, is_xdigit, is_space, to_lower}

unfoldable pub skip_space : Bytes → Bytes
unfolding is_space
skip_space [] = []
skip_space (c ∷ cs) = let rest = skip_space cs in if is_space c then rest else c ∷ cs

-- An optional sign: whether it is a minus, and what follows.
abbrev pub take_sign : Bytes → Bool × Bytes
take_sign [] = (false, [])
take_sign (c ∷ cs) =
    if c == b'-' then (true, cs) else if c == b'+' then (false, cs) else (false, c ∷ cs)

-- The value of the longest run of digits, after those read into `acc`.
unfoldable pub read_digits : ℕ → Bytes → ℕ
unfolding is_digit
read_digits acc [] = acc
read_digits acc (c ∷ cs) =
    let rest = read_digits (10 * acc + (c - b'0')) cs in if is_digit c then rest else acc

unfoldable pub xdigit_value : ℕ → ℕ
unfolding is_digit to_lower
xdigit_value c = if is_digit c then c - b'0' else to_lower c - b'a' + 10

unfoldable pub read_xdigits : ℕ → Bytes → ℕ
unfolding is_xdigit xdigit_value
read_xdigits acc [] = acc
read_xdigits acc (c ∷ cs) =
    let rest = read_xdigits (16 * acc + xdigit_value c) cs in if is_xdigit c then rest else acc

abbrev pub starts_digit : Bytes → Bool
starts_digit [] = false
starts_digit (c ∷ cs) = is_digit c

-- The range check of `int`.
abbrev pub fit_int : Bool → ℕ → Result ℤ
fit_int negative n =
    if leb n (if negative then 2 ^ 31 else 2 ^ 31 - 1)
    then ok (signed negative n)
    else throw out_of_range

abbrev stoi_after : Bool × Bytes → Result ℤ
stoi_after (negative, s) =
    if starts_digit s then fit_int negative (read_digits 0 s) else throw invalid_argument

-- `std::stoi(s)`: white space, a sign, digits; what follows the digits is ignored.
unfoldable pub stoi : Bytes → Result ℤ
unfolding skip_space read_digits
stoi s = stoi_after (take_sign (skip_space s))

-- A leading 0x or 0X is passed over.
abbrev pub skip_prefix : Bytes → Bytes
skip_prefix [] = []
skip_prefix (z ∷ []) = z ∷ []
skip_prefix (z ∷ x ∷ s) = if z == b'0' && (x == b'x' || x == b'X') then s else z ∷ x ∷ s

-- A number that does not fit becomes the largest one; a minus sign negates modulo 2 ^ 32.
abbrev pub fit_unsigned : Bool → ℕ → ℕ
fit_unsigned negative n = if ltb n (2 ^ 32) then to_unsigned (signed negative n) else 2 ^ 32 - 1

abbrev read_hex_after : Bool × Bytes → ℕ
read_hex_after (negative, s) = fit_unsigned negative (read_xdigits 0 (skip_prefix s))

-- `ss << std::hex << s; ss >> n`: where no digit follows, `n` becomes 0.
unfoldable pub read_hex : Bytes → ℕ
unfolding skip_space read_xdigits
read_hex s = read_hex_after (take_sign (skip_space s))
