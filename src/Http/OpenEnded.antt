-- ===== src/Http/OpenEnded.antt =====
-- The text of a response with no content.
use beemo.Common.{
  ℕ, ◌<◌, zero, suc, ◌+◌, ◌/◌, ◌%◌, Bool, true, false, not, ◌&&◌, [], ◌∷◌, ◌++◌, none, ◌≡◌, refl,
  ap, ◌∙◌, sym, arith, ◌==◌, all, all-append, append-nil, append_assoc, &&-true,
}
use beemo.Text.{Bytes, codes, find_str, starts_with, lacks}
use beemo.Http.Fields.{Fields}
use beemo.Http.Resp.{Resp, digits_loop, to_string, field_lines, status_line, to_str}

-- The end of a header section.
abbrev pub empty_line : Bytes
empty_line = codes "\r\n\r\n"

-- A line whose successor is no empty line.
find_line :
    (x rest : Bytes)
    → lacks 13 x ≡ true
    → starts_with (codes "\r\n") rest ≡ false
    → find_str empty_line rest ≡ none
    → find_str empty_line (x ++ (codes "\r\n" ++ rest)) ≡ none
unfolding find_str starts_with
find_line [] rest h k e = ground (arith, h, k, e)
find_line (c ∷ x) rest h k e = ground (arith, find_line x rest)

abbrev pub plain_fields : Fields → Bool
plain_fields = all (λ f. lacks 13 f.0 && lacks 13 f.1)

lacks-append : (x y : Bytes) → lacks 13 x ≡ true → lacks 13 y ≡ true → lacks 13 (x ++ y) ≡ true
lacks-append x y h k = all-append (λ c. not (c == 13)) x y ∙ rw (h, k) refl

starts-field_lines :
    (fs : Fields) → plain_fields fs ≡ true → starts_with (codes "\r\n") (field_lines fs) ≡ false
unfolding starts_with
starts-field_lines [] h = refl
starts-field_lines (([], value) ∷ fs) h = refl
starts-field_lines ((c ∷ name, value) ∷ fs) h = ground (arith, h)

find-field_lines :
    (fs : Fields) → plain_fields fs ≡ true → find_str empty_line (field_lines fs) ≡ none
unfolding find_str
find-field_lines [] h = refl
find-field_lines ((name, value) ∷ fs) h =
    let (both, others) = &&-true (lacks 13 name && lacks 13 value) (plain_fields fs) h in
    let (a, b) = &&-true (lacks 13 name) (lacks 13 value) both in
    let rest = codes "\r\n" ++ field_lines fs in
    ap (find_str empty_line) (sym (append_assoc name (codes ": " ++ value) rest))
    ∙ find_line (name ++ (codes ": " ++ value)) (field_lines fs)
        (lacks-append name (codes ": " ++ value) a b) (starts-field_lines fs others)
        (find-field_lines fs others)

-- A byte that is smaller than the digits is none of them.
lacks-digits_loop :
    (k fuel n : ℕ) (tail : Bytes)
    → k < b'0'
    → lacks k tail ≡ true
    → lacks k (digits_loop fuel n tail) ≡ true
unfolding digits_loop
lacks-digits_loop k zero n tail small h = h
lacks-digits_loop k (suc fuel) n tail small h =
    ground (arith, lacks-digits_loop k fuel (n / 10) ((b'0' + n % 10) ∷ tail) small)

pub lacks-to_string : (k n : ℕ) → k < b'0' → lacks k (to_string n) ≡ true
unfolding to_string
lacks-to_string k n small = lacks-digits_loop k (n + 1) n [] small refl

lacks-status_line : (r : Resp) → lacks 13 r.reason ≡ true → lacks 13 (status_line r) ≡ true
lacks-status_line r h =
    lacks-append (to_string r.major) _ (lacks-to_string 13 r.major (omega arith)) (
      lacks-append (to_string r.minor) _ (lacks-to_string 13 r.minor (omega arith)) (
        lacks-append (to_string r.status_code) (codes " " ++ r.reason)
          (lacks-to_string 13 r.status_code (omega arith)) h))

-- The text of a response with no content does not hold an empty line, so its header section is
-- left open. The reason and the fields are without carriage returns, as those of errors are.
pub find_str-to_str :
    (r : Resp)
    → r.body ≡ []
    → lacks 13 r.reason ≡ true
    → plain_fields r.fields ≡ true
    → find_str empty_line (to_str r) ≡ none
unfolding to_str
find_str-to_str r e h k =
    rw (e, append-nil)
      (find_line (status_line r) (field_lines r.fields) (lacks-status_line r h)
        (starts-field_lines r.fields k) (find-field_lines r.fields k))
