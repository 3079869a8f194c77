-- ===== src/Utils.antt =====
-- utils/include/utils/parsing.h and utils/src/parsing.cpp.
pub mod Pattern
pub mod Lists
use beemo.Common.{
  ◌>>=◌, ℕ, zero, suc, Bool, true, false, List, [], ◌∷◌, map, Result, ok, undefined, ◌==◌,
  if◌then◌else◌, drop, is_empty, length,
}
use beemo.Text.{Bytes, to_lower}

-- The loop of `parse_pattern` from offset `i`, where `xs` is what stands from there to the end of
-- the view. An end that the iterator has passed is never met.
unfoldable pub pattern_loop : (ℕ → Result Bool) → Bytes → ℕ → ℕ → Result Bool
pattern_loop p [] i j = if i == j then ok true else undefined
pattern_loop p (x ∷ xs) i j =
    let rest = pattern_loop p xs (suc i) j in
    if i == j then ok true else do pass ← p x; if pass then rest else ok false

unfoldable pub parse_pattern : (ℕ → Result Bool) → Bytes → ℕ → ℕ → Result Bool
unfolding pattern_loop
parse_pattern p s i j = pattern_loop p (drop i s) i j

unfoldable pub lowercase_str : Bytes → Bytes
unfolding to_lower
lowercase_str = map to_lower

-- The inner loop of `parse_list`: the item up to a comma or the end, and what is left there.
unfoldable pub split_item : Bytes → Bytes × Bytes
split_item [] = ([], [])
split_item (c ∷ cs) =
    let (item, rest) = split_item cs in if c == b',' then ([], c ∷ cs) else (c ∷ item, rest)

-- `it = end + 1`, and one more if a space follows.
abbrev pub skip_comma : Bytes → Bytes
skip_comma [] = []
skip_comma (c ∷ []) = []
skip_comma (c ∷ d ∷ rest) = if d == b' ' then rest else d ∷ rest

-- `parse_list` on fuel: the items read, up to the first empty one. `parsed = nullptr` there changes
-- the function's own copy of the pointer, so the caller sees just these items.
unfoldable pub list_loop : ℕ → Bytes → List Bytes
unfolding split_item
list_loop zero s = []
list_loop (suc n) [] = []
list_loop (suc n) (c ∷ s) =
    let (item, rest) = split_item (c ∷ s) in
    let later = list_loop n (skip_comma rest) in if is_empty item then [] else item ∷ later

-- Each round reads at least one byte, so the length is fuel enough.
unfoldable pub parse_list : Bytes → List Bytes
unfolding list_loop
parse_list s = list_loop (length s) s
