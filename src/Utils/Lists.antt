-- ===== src/Utils/Lists.antt =====
-- `parse_list` reads back a list written with "," or ", " between its items.
use beemo.Common.{
  ℕ, zero, suc, ◌≤◌, Bool, true, false, not, List, [], ◌∷◌, ◌++◌, ◌≡◌, refl, ap, ◌∙◌, arith, ◌==◌,
  if◌then◌else◌, length, all, length-append,
}
use beemo.Text.{Bytes}
use beemo.Utils.{split_item, skip_comma, list_loop, parse_list}

abbrev pub no_comma : Bytes → Bool
no_comma = all (λ c. not (c == b','))

abbrev pub starts_plain : Bytes → Bool
starts_plain [] = false
starts_plain (c ∷ cs) = not (c == b' ')

-- An item with no comma, which is not empty and does not begin with a space.
abbrev pub IsItem : Bytes → Type 0
IsItem x = (starts_plain x ≡ true) × (no_comma x ≡ true)

-- An item, and whether a space stands behind the comma before it.
abbrev pub Written : Type 0
Written = Bool × Bytes

abbrev pub write_rest : List Written → Bytes
write_rest [] = []
write_rest ((spaced, x) ∷ r) =
    if spaced then b',' ∷ b' ' ∷ (x ++ write_rest r) else b',' ∷ (x ++ write_rest r)

abbrev pub AllItems : List Written → Type 0
AllItems [] = Unit
AllItems ((spaced, x) ∷ r) = IsItem x × AllItems r

abbrev pub items : List Written → List Bytes
items [] = []
items ((spaced, x) ∷ r) = x ∷ items r

-- `rest` is empty or begins with a comma.
abbrev pub stops : Bytes → Bool
stops [] = true
stops (c ∷ cs) = c == b','

pub split_item-append :
    (x rest : Bytes) → no_comma x ≡ true → stops rest ≡ true → split_item (x ++ rest) ≡ (x, rest)
unfolding split_item
split_item-append [] [] h k = refl
split_item-append [] (c ∷ cs) h k = ground arith
split_item-append (c ∷ x) rest h k = ground (arith, split_item-append x rest)

stops-write_rest : (r : List Written) → stops (write_rest r) ≡ true
stops-write_rest [] = refl
stops-write_rest ((true, x) ∷ r) = refl
stops-write_rest ((false, x) ∷ r) = refl

-- Behind the comma stands the next item.
list_loop-item :
    (n : ℕ) (x : Bytes) (r : List Written)
    → IsItem x
    → list_loop (suc n) (x ++ write_rest r) ≡ x ∷ list_loop n (skip_comma (write_rest r))
unfolding list_loop
list_loop-item n [] r h = cc
list_loop-item n (c ∷ x) r h =
    rw (split_item-append (c ∷ x) (write_rest r) h.1 (stops-write_rest r))

skip_comma-item :
    (spaced : Bool) (x : Bytes) (r : List Written)
    → IsItem x
    → skip_comma (write_rest ((spaced, x) ∷ r)) ≡ x ++ write_rest r
skip_comma-item true [] r h = cc
skip_comma-item true (c ∷ x) r h = refl
skip_comma-item false [] r h = cc
skip_comma-item false (c ∷ x) r h = ground arith

list_loop-nil : (n : ℕ) → list_loop n [] ≡ []
unfolding list_loop
list_loop-nil zero = refl
list_loop-nil (suc n) = refl

length-write_rest :
    (spaced : Bool) (x : Bytes) (r : List Written)
    → suc (length (x ++ write_rest r)) ≤ length (write_rest ((spaced, x) ∷ r))
length-write_rest true x r = omega arith
length-write_rest false x r = omega arith

list_loop-items :
    (n : ℕ) (x : Bytes) (r : List Written)
    → IsItem x
    → AllItems r
    → length (x ++ write_rest r) ≤ n
    → list_loop n (x ++ write_rest r) ≡ x ∷ items r
list_loop-items zero [] r h hs k = cc
list_loop-items zero (c ∷ x) r h hs k = absurd (omega arith)
list_loop-items (suc n) x [] h hs k = list_loop-item n x [] h ∙ ap (◌∷◌ x) (list_loop-nil n)
list_loop-items (suc n) x ((spaced, y) ∷ r) h hs k =
    list_loop-item n x ((spaced, y) ∷ r) h
    ∙ ap (◌∷◌ x) (
        rw (skip_comma-item spaced y r hs.0) (
          list_loop-items n y r hs.0 hs.1 (
            omega (
              arith,
              length-write_rest spaced y r,
              length-append x (write_rest ((spaced, y) ∷ r)),
            ))))

-- Whatever the spacing, `parse_list` returns the items in their order.
pub parse_list-written :
    (x : Bytes) (r : List Written)
    → IsItem x
    → AllItems r
    → parse_list (x ++ write_rest r) ≡ x ∷ items r
unfolding parse_list
parse_list-written x r h hs = list_loop-items _ x r h hs (omega arith)
