-- ===== src/Text/View.antt =====
-- Strings of bytes, and the members of `std::string_view` that the sources call. An iterator is its
-- offset in the view that it points into.
use Prim.Native.Char.{code}
use Prim.Native.String.{String}
use mathlib.Core.Option
use beemo.Common.{
  ℕ, zero, suc, ◌+◌, ◌-◌, Bool, true, false, ◌&&◌, List, [], ◌∷◌, Option, none, some, Result, ok,
  throw, out_of_range, undefined, ◌==◌, leb, if◌then◌else◌, length, take, drop, get_elem?,
}

abbrev pub Bytes : Type 0
Bytes = List ℕ

-- The bytes of an ASCII literal.
abbrev pub codes : String → Bytes
codes String.[] = []
codes (String.◌∷◌ c s) = code c ∷ codes s

-- `std::string::operator==`
unfoldable pub equal : Bytes → Bytes → Bool
equal [] [] = true
equal (x ∷ xs) (y ∷ ys) = x == y && equal xs ys
equal _ _ = false

-- `find(c)`; `none` is `npos`.
unfoldable pub find_char : ℕ → Bytes → Option ℕ
find_char c [] = none
find_char c (x ∷ xs) = if x == c then some 0 else Option.map suc (find_char c xs)

unfoldable pub starts_with : Bytes → Bytes → Bool
starts_with [] s = true
starts_with (p ∷ ps) [] = false
starts_with (p ∷ ps) (x ∷ xs) = x == p && starts_with ps xs

-- `find(pattern)`, for a pattern that is not empty.
unfoldable pub find_str : Bytes → Bytes → Option ℕ
unfolding starts_with
find_str p [] = none
find_str p (x ∷ xs) = if starts_with p (x ∷ xs) then some 0 else Option.map suc (find_str p xs)

-- `find(c, pos)` and `find(pattern, pos)`: past the end nothing is found.
abbrev pub find_char_from : ℕ → Bytes → ℕ → Option ℕ
find_char_from c s i = Option.map (λ k. i + k) (find_char c (drop i s))

abbrev pub find_str_from : Bytes → Bytes → ℕ → Option ℕ
find_str_from p s i = Option.map (λ k. i + k) (find_str p (drop i s))

-- `find_first_not_of(c, pos)`
unfoldable pub find_not : ℕ → Bytes → Option ℕ
find_not c [] = none
find_not c (x ∷ xs) = if x == c then Option.map suc (find_not c xs) else some 0

abbrev pub find_not_from : ℕ → Bytes → ℕ → Option ℕ
find_not_from c s i = Option.map (λ k. i + k) (find_not c (drop i s))

-- `substr(pos, n)` throws if `pos` lies past the end, and cuts `n` to what is there.
unfoldable pub substr : Bytes → ℕ → ℕ → Result Bytes
substr s i n = if leb i (length s) then ok (take n (drop i s)) else throw out_of_range

abbrev pub substr_from : Bytes → ℕ → Result Bytes
substr_from s i = substr s i (length s)

-- `std::string(first, last)` and `std::string_view(first, last)`.
unfoldable pub range : Bytes → ℕ → ℕ → Result Bytes
range s i j = if leb i j && leb j (length s) then ok (take (j - i) (drop i s)) else undefined

abbrev or_undefined {ℓ} : {A : Type ℓ} → Option A → Result A
or_undefined (some a) = ok a
or_undefined none = undefined

-- `*it`
unfoldable pub deref : Bytes → ℕ → Result ℕ
deref s i = or_undefined (get_elem? s i)

-- `*(it - 1)`
unfoldable pub deref_before : Bytes → ℕ → Result ℕ
unfolding deref
deref_before s zero = undefined
deref_before s (suc i) = deref s i
