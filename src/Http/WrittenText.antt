-- ===== src/Http/WrittenText.antt =====
-- Header sections as a client writes them, and where their parts lie.
use beemo.Common.{
  ℕ, suc, ◌+◌, ◌≤◌, true, false, not, List, [], ◌∷◌, ◌++◌, some, ok, ◌≡◌, refl, ap, ◌∙◌, arith,
  ◌==◌, length, take, drop, all-append, length-append, take-length-append,
}
use beemo.Text.{
  Bytes, equal, starts_with, find_str, find_str_from, find_not, range, range-take, lacks,
}
use beemo.Utils.{lowercase_str}
use beemo.Http.Fields.{Fields, contains, put_field}
use beemo.Http.Msg.{host_header_token}
use beemo.Http.Headers.{content_start, crlf}

-- A name: it has no ':' and no carriage return. A value: no carriage return, and a byte that is no
-- space first.
pub record IsField (name value : Bytes) : Type 0 where
  pub name_colon : lacks b':' name ≡ true
  pub name_return : lacks 13 name ≡ true
  pub value_return : lacks 13 value ≡ true
  pub value_first : find_not b' ' value ≡ some 0

-- `name: value`
abbrev pub write_field : Bytes → Bytes → Bytes
write_field name value = name ++ b':' ∷ b' ' ∷ value

pub drop_behind : (x y : Bytes) (n m : ℕ) → m ≡ length x + n → drop m (x ++ y) ≡ drop n y
drop_behind [] y n m e = ap (λ k. drop k y) (omega (arith, e))
drop_behind (c ∷ x) y n m e =
    ap (λ k. drop k (c ∷ x ++ y)) {y = suc (length x + n)} (omega (arith, e))
    ∙ drop_behind x y n (length x + n) refl

-- A field, and its line end.
abbrev pub write_line : Bytes × Bytes → Bytes
write_line (name, value) = write_field name value ++ crlf

abbrev pub write_fields : List (Bytes × Bytes) → Bytes
write_fields [] = []
write_fields (f ∷ fs) = write_line f ++ write_fields fs

-- The map that the fields make, entered in their order.
abbrev pub put_fields : List (Bytes × Bytes) → Fields → Fields
put_fields [] fs = fs
put_fields ((name, value) ∷ l) fs = put_fields l (put_field (lowercase_str name) value fs)

-- Fields that the map does not hold yet, with names that differ also in lower case.
abbrev pub NewFields : List (Bytes × Bytes) → Fields → Type 0
NewFields [] fs = Unit
NewFields ((name, value) ∷ l) fs =
    IsField name value
    × (contains (lowercase_str name) fs ≡ false)
    × (equal (lowercase_str name) host_header_token ≡ false)
    × NewFields l (put_field (lowercase_str name) value fs)

-- No carriage return, no line end.
pub find_str-hit :
    (x y : Bytes) → lacks 13 x ≡ true → find_str crlf (x ++ (crlf ++ y)) ≡ some (length x)
unfolding find_str starts_with
find_str-hit [] y h = refl
find_str-hit (c ∷ x) y h = ground (arith, find_str-hit x y)

pub lacks-write_field :
    (name value : Bytes) → IsField name value → lacks 13 (write_field name value) ≡ true
lacks-write_field name value h =
    all-append (λ x. not (x == 13)) name (b':' ∷ b' ' ∷ value)
    ∙ rw (h.name_return, h.value_return) refl

pub range_between :
    (x y z : Bytes) (i j : ℕ) → length x ≡ i → j ≡ i + length y → range (x ++ (y ++ z)) i j ≡ ok y
range_between x y z i j e f =
    let size = length-append x (y ++ z) in
    range-take (x ++ (y ++ z)) i j (omega arith) (omega (arith, length-append y z))
    ∙ ap ok (
        ap (λ k. take k (drop i (x ++ (y ++ z)))) {y = length y} (omega arith)
        ∙ ap (take (length y)) (drop_behind x (y ++ z) 0 i (omega arith))
        ∙ take-length-append y z)

pub find_between :
    (x y z : Bytes) (i : ℕ)
    → length x ≡ i
    → lacks 13 y ≡ true
    → find_str_from crlf (x ++ (y ++ (crlf ++ z))) i ≡ some (i + length y)
find_between x y z i e h =
    rw (drop_behind x (y ++ (crlf ++ z)) 0 i (omega arith), find_str-hit y z h) refl

pub length-write_fields : (fs : List (Bytes × Bytes)) → length fs ≤ length (write_fields fs)
length-write_fields [] = omega arith
length-write_fields ((name, value) ∷ l) =
    let line = write_field name value in
    omega (
      arith,
      length-write_fields l,
      length-append (line ++ crlf) (write_fields l),
      length-append line crlf,
    )

-- The bytes of a request: its line, its fields, an empty line, and what follows.
abbrev pub write_req : Bytes → List (Bytes × Bytes) → Bytes → Bytes
write_req line fs rest = line ++ (crlf ++ (write_fields fs ++ (crlf ++ rest)))

-- Where the content begins: behind the empty line, or on it, if nothing follows.
abbrev pub content_index : Bytes → List (Bytes × Bytes) → Bytes → ℕ
content_index line fs rest =
    content_start (write_req line fs rest) (length line + 2 + length (write_fields fs))
