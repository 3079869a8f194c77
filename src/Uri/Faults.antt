-- ===== src/Uri/Faults.antt =====
-- Authorities that the parser gets wrong: a ':' in the user information, and a kept "//".
use beemo.Common.{
  ℕ, suc, ◌+◌, ◌-◌, ◌≤◌, ◌<◌, Bool, true, false, [], ◌∷◌, ◌++◌, Option, none, some, ok, undefined,
  ◌≡◌, refl, sym, ap, ◌∙◌, arith, ◌==◌, length, take, drop, all, Option-cases, Bool-cases, &&-true,
  Result, inl, inr, length-take, length-append, drop-length-append, take-append-drop, append_assoc,
  >>=-eq-ok,
}
use beemo.Text.{
  Bytes, is_ascii, range_prefix, deref, find_char, find_char-none, find_char-hit, find_char_bound,
  find_char_from_bound, lacks,
}
use beemo.Utils.{parse_pattern, pattern_loop}
use beemo.Uri.{Uri}
use beemo.Uri.Chars.{is_host_char}
use beemo.Uri.Grammar.{host_char}
use beemo.Uri.Parts.{parse_port}
use beemo.Uri.Host.{parse_host}
use beemo.Uri.Wild.{userinfo_part_wild}
use beemo.Uri.Authority.{userinfo_part_lem}
use beemo.Uri.RoundTrip.{host_char-ne, host-lacks-bracket, lacks-join}
use beemo.Uri.Parser.{port_colon, parse_authority_str, host_part, userinfo_part}

host_char-pass : (c : ℕ) → host_char c ≡ true → is_host_char c ≡ ok true
unfolding host_char is_host_char
host_char-pass c h = ground arith

-- An end that lies before the iterator is not met: it runs out of the view.
pattern_loop_past :
    (p : ℕ → Result Bool) (q : ℕ → Bool)
    → ((c : ℕ) → q c ≡ true → p c ≡ ok true)
    → (xs : Bytes) (i j : ℕ) → all q xs ≡ true
    → j < i
    → pattern_loop p xs i j ≡ undefined
unfolding pattern_loop
pattern_loop_past p q pass [] i j h k = ground arith
pattern_loop_past p q pass (x ∷ xs) i j h k =
    let (first, others) = &&-true (q x) (all q xs) h in
    let differ : (i == j) ≡ false = ground arith in
    rw (differ, pass x first) (pattern_loop_past p q pass xs (suc i) j others (omega arith))

deref-append : (x y : Bytes) (c : ℕ) → deref (x ++ c ∷ y) (length x) ≡ ok c
unfolding deref
deref-append [] y c = refl
deref-append (a ∷ x) y c = deref-append x y c

parse_host_inverted :
    (u : Uri) (x : Bytes) (c : ℕ) (z : Bytes) (i j : ℕ)
    → all host_char (c ∷ z) ≡ true
    → length x ≡ i
    → j < i
    → parse_host u (x ++ c ∷ z) i j ≡ undefined
unfolding parse_host parse_pattern
parse_host_inverted u x c z i j h e k =
    let differ : (i == j) ≡ false = ground arith in
    let plain : (c == b'[') ≡ false = ground (arith, host_char-ne c) in
    rw (
      differ,
      ← e,
      deref-append x z c,
      plain,
      drop-length-append x (c ∷ z),
      pattern_loop_past is_host_char host_char host_char-pass (c ∷ z) (length x) j h
          (omega (arith, e)),
    )

-- In "user:password@host" the colon of the user information is taken for the port's, and the host
-- is scanned from behind the '@' towards an end before it: undefined behaviour, whatever the names.
pub parse_authority_str_password :
    (u : Uri) (x y : Bytes) (c : ℕ) (z : Bytes)
    → lacks b'@' x ≡ true
    → lacks b':' x ≡ true
    → lacks b']' x ≡ true
    → lacks b'@' y ≡ true
    → lacks b']' y ≡ true
    → all host_char (c ∷ z) ≡ true
    → parse_authority_str u (x ++ b':' ∷ (y ++ b'@' ∷ c ∷ z)) ≡ undefined
unfolding parse_authority_str port_colon host_part
parse_authority_str_password u x y c z xa xc xb ya yb h =
    let auth = x ++ b':' ∷ (y ++ b'@' ∷ c ∷ z) in
    let before = x ++ b':' ∷ y in
    let at : lacks b'@' before ≡ true = lacks-join b'@' x y b':' xa ya refl in
    let split : before ++ b'@' ∷ c ∷ z ≡ auth = append_assoc x (b':' ∷ y) (b'@' ∷ c ∷ z) in
    let bracket : lacks b']' auth ≡ true =
      lacks-join b']' x (y ++ b'@' ∷ c ∷ z) b':' xb
        (lacks-join b']' y (c ∷ z) b'@' yb (host-lacks-bracket (c ∷ z) h) refl) refl in
    let found : find_char b'@' auth ≡ some (length before) =
      ap (find_char b'@') (sym split) ∙ find_char-hit b'@' before (c ∷ z) at in
    let split' : (before ++ b'@' ∷ []) ++ c ∷ z ≡ auth =
      append_assoc before (b'@' ∷ []) (c ∷ z) ∙ split in
    let inverted = λ (v : Uri).
      ap (λ (s : Bytes). parse_host v s (length before + 1) (length x)) (sym split')
      ∙ parse_host_inverted v (before ++ b'@' ∷ []) c z (length before + 1) (length x) h
          (length-append before (b'@' ∷ [])) (omega (arith, length-append x (b':' ∷ y))) in
    let bound : length before ≤ length auth =
      omega (arith, ap length split, length-append before (b'@' ∷ c ∷ z)) in
    elim (Bool-cases (all is_ascii (take (length before - 0) auth))) [
      | inr wild ↦ rw (found, userinfo_part_wild u auth (length before) bound wild) refl
      | inl plain ↦
          rw
            (
              found,
              userinfo_part_lem u auth (length before) bound plain,
              find_char-none b']' auth bracket,
              find_char-hit b':' x (y ++ b'@' ∷ c ∷ z) xc,
            )
            (rw (inverted (record u { has_err = false; userinfo = take (length before - 0) auth })))
    ]

parse_port-keeps :
    (u : Uri) (s : Bytes) (i j : ℕ) {v : Uri}
    → parse_port u s i j ≡ ok v
    → (v.reg_name ≡ u.reg_name) × (v.ipv4 ≡ u.ipv4)
unfolding parse_port
parse_port-keeps u s i j h = ground arith

abbrev pub BeginsSlashes : Bytes → Type 0
BeginsSlashes s = (w : Bytes) × (s ≡ b'/' ∷ b'/' ∷ w)

abbrev slashed : Bytes → Bytes
slashed rest = b'/' ∷ b'/' ∷ rest

parse_host-keeps :
    (u : Uri) (c : ℕ) (x rest : Bytes) {v : Uri}
    → (c == b'[') ≡ false
    → parse_host u (c ∷ x ++ rest) 0 (length (c ∷ x)) ≡ ok v
    → (v.reg_name ≡ c ∷ x) × (v.ipv4 ≡ c ∷ x)
unfolding parse_host deref
parse_host-keeps u c x rest h k =
    let differ : (0 == length (c ∷ x)) ≡ false = ground arith in
    let k' = rw (differ, h) at k in
    let (pass, f, g) =
      >>=-eq-ok (parse_pattern is_host_char (c ∷ x ++ rest) 0 (length (c ∷ x))) _ k' in
    ground (arith, rw (range_prefix (c ∷ x) rest) at g)

host_slashed :
    (u : Uri) (rest : Bytes) (n : ℕ) {v : Uri}
    → n ≤ length rest
    → parse_host u (slashed rest) 0 (suc (suc n)) ≡ ok v
    → (v.reg_name ≡ slashed (take n rest)) × (v.ipv4 ≡ slashed (take n rest))
host_slashed u rest n {v = v} h k =
    let size : length (take n rest) ≡ n = omega (arith, length-take n rest) in
    parse_host-keeps u b'/' (b'/' ∷ take n rest) (drop n rest) {v = v} refl
      (rw (take-append-drop n rest, size) k)

find_behind :
    (c : ℕ) (rest : Bytes) {p : ℕ}
    → (b'/' == c) ≡ false
    → find_char c (slashed rest) ≡ some p
    → 2 ≤ p
unfolding find_char
find_behind c rest d h = elim (Option-cases (find_char c rest)) [
  | inl e ↦ ground (arith, e)
  | inr (k, e) ↦ ground (arith, e)
]

host_part-slashed :
    (u : Uri) (rest : Bytes) (colon : Option ℕ) {v : Uri}
    → ((p : ℕ) → colon ≡ some p → (2 ≤ p) × (p < length (slashed rest)))
    → host_part (slashed rest) 0 colon u ≡ ok v
    → BeginsSlashes v.reg_name × BeginsSlashes v.ipv4
unfolding host_part
host_part-slashed u rest none k h =
    let (w, f, g) = >>=-eq-ok (parse_host u (slashed rest) 0 (length (slashed rest))) _ h in
    let (r, i) = host_slashed u rest (length rest) (omega arith) f in
    (
      (take (length rest) rest, ground (arith, r, g)),
      (take (length rest) rest, ground (arith, i, g)),
    )
host_part-slashed u rest (some p) {v} k h =
    let (a, b) = k p refl in
    let (w, f, g) = >>=-eq-ok (parse_host u (slashed rest) 0 p) _ h in
    let n = p - 2 in
    let p_is : p ≡ suc (suc n) = omega arith in
    let (r', i') = host_slashed u rest n (omega arith) (rw p_is at f) in
    let (r, i) = parse_port-keeps w (slashed rest) (p + 1) (length (slashed rest)) g in
    ((take n rest, ground (arith, r, r')), (take n rest, ground (arith, i, i')))

colon_slashed :
    (rest : Bytes) (bracket : Option ℕ)
    → ((b : ℕ) → bracket ≡ some b → 2 ≤ b)
    → (p : ℕ) → port_colon (slashed rest) bracket ≡ some p
    → (2 ≤ p) × (p < length (slashed rest))
unfolding port_colon find_char
colon_slashed rest none k p h =
    (find_behind b':' rest refl h, find_char_bound b':' (slashed rest) h)
colon_slashed rest (some b) k p h =
    let (lo, hi) = find_char_from_bound b':' (slashed rest) b h in (omega (arith, k b refl), hi)

-- An authority that still has the "//" before it, as `parse_uri` hands it over, and has no '@', is
-- never read as the host that it names: `reg_name` and `ipv4` begin with "//".
pub parse_authority_str_slashed :
    (u : Uri) (rest : Bytes) {v : Uri}
    → lacks b'@' rest ≡ true
    → parse_authority_str u (b'/' ∷ b'/' ∷ rest) ≡ ok v
    → BeginsSlashes v.reg_name × BeginsSlashes v.ipv4
unfolding parse_authority_str userinfo_part
parse_authority_str_slashed u rest h e =
    host_part-slashed u rest (port_colon (slashed rest) (find_char b']' (slashed rest)))
      (colon_slashed rest _ (λ b f. find_behind b']' rest refl f))
      (rw (find_char-none b'@' (slashed rest) h) at e)
