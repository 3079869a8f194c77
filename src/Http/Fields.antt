-- ===== src/Http/Fields.antt =====
-- `std::unordered_map<std::string, std::string>`: one value for each name. The order of the entries
-- has no meaning.
use beemo.Common.{
  Bool, true, false, List, [], ◌∷◌, Option, none, some, ◌≡◌, refl, arith, if◌then◌else◌,
}
use beemo.Text.{Bytes, equal, equal_iff}

abbrev pub Fields : Type 0
Fields = List (Bytes × Bytes)

unfoldable pub find_field : Bytes → Fields → Option Bytes
find_field k [] = none
find_field k ((j, v) ∷ fs) = if equal j k then some v else find_field k fs

abbrev is_some : Option Bytes → Bool
is_some none = false
is_some (some v) = true

-- `fields.contains(k)`
unfoldable pub contains : Bytes → Fields → Bool
unfolding find_field
contains k fs = is_some (find_field k fs)

-- `fields[k] = v`
unfoldable pub put_field : Bytes → Bytes → Fields → Fields
put_field k v [] = (k, v) ∷ []
put_field k v ((j, w) ∷ fs) = if equal j k then (j, v) ∷ fs else (j, w) ∷ put_field k v fs

-- `fields[k]`, read: a missing name is entered, with the empty string.
abbrev or_insert : Bytes → Fields → Option Bytes → Bytes × Fields
or_insert k fs (some v) = (v, fs)
or_insert k fs none = ([], put_field k [] fs)

unfoldable pub read_field : Bytes → Fields → Bytes × Fields
unfolding find_field put_field
read_field k fs = or_insert k fs (find_field k fs)

-- A write is seen under its name, and under no other.
pub find_field-put_field :
    (k j v : Bytes) (fs : Fields)
    → find_field j (put_field k v fs) ≡ (if equal k j then some v else find_field j fs)
unfolding find_field put_field
find_field-put_field k j v [] = refl
find_field-put_field k j v ((i, w) ∷ fs) =
    ground (arith, equal_iff k j, equal_iff i k, equal_iff i j, find_field-put_field k j v fs)
