-- ===== src/Keyword/Search.antt =====
-- `keyword_val` is the reference search: the generated table holds every keyword where its hash
-- says, and nothing else.
use beemo.Common.{
  ℕ, ◌+◌, ◌≤◌, ◌<◌, ◌%◌, ◌^◌, Bool, true, ◌&&◌, ◌||◌, [], ◌∷◌, ◌++◌, Option, none, some, pos, ◌≡◌,
  inl, inr, refl, sym, ap, ◌∙◌, arith, ◌==◌, ==_iff, leb, length, get_elem?, is_empty, Bool-cases,
  Option-cases, all_below, all_below_sound, length-append, append-nil, &&-true, leb→le, if-some,
}
use beemo.Text.{Bytes, equal}
use beemo.Keyword.{
  Kvp, downcase, asso_value, hash, wordlist, case_strcmp, match_word, match_at, in_word_set,
  keyword_val,
}
use beemo.Keyword.Reference.{keywords, lower, find_value, reference}
use beemo.Keyword.Listed.{length-lower, keywords-listed, find_value-keyword_val}
use beemo.Keyword.Table.{nonzero, case_strcmp_sound, hash-lower}

-- What the generated table holds at each place, in the other direction.
abbrev is_keyword : ℕ → Option Kvp → Bool
is_keyword k none = true
is_keyword k (some e) =
    is_empty e.key
    || (hash e.key (length e.key) == k
        && leb 2 (length e.key)
        && nonzero e.key
        && find_value (lower e.key) keywords == e.value)

wordlist-is_keyword : all_below 35 (λ k. is_keyword k (get_elem? wordlist k)) ≡ true
unfolding all_below hash find_value equal downcase
wordlist-is_keyword = refl

hash-append : (x t : Bytes) (m n : ℕ) → 2 ≤ length x → hash (x ++ t) m + n ≡ hash x n + m
unfolding hash
hash-append [] t m n h = absurd (omega arith)
hash-append (a ∷ []) t m n h = absurd (omega arith)
hash-append (a ∷ b ∷ x) t m n h = omega arith

match_word-some :
    (s : Bytes) (e : Kvp) {f : Kvp}
    → match_word s e ≡ some f
    → (f ≡ e) × (case_strcmp s e.key ≡ pos 0)
unfolding match_word
match_word-some s e h = ground arith

nil_of-length : (t : Bytes) → length t ≡ 0 → t ≡ []
nil_of-length [] h = refl
nil_of-length (x ∷ t) h = absurd (omega arith)

nil_of-empty : (t : Bytes) → is_empty t ≡ true → t ≡ []
nil_of-empty [] h = refl
nil_of-empty (x ∷ t) h = cc

-- A text that the table's word matches, and whose hash selects that word, spells it.
match_word-spells :
    (s : Bytes) (e : Kvp) {f : Kvp}
    → hash s (length s) ≡ hash e.key (length e.key)
    → 2 ≤ length e.key
    → 2 ≤ length s
    → nonzero e.key ≡ true
    → match_word s e ≡ some f
    → (f ≡ e) × (lower s ≡ lower e.key)
match_word-spells s e h n n' z m =
    let (matched, zero_diff) = match_word-some s e m in
    let (t, same) = case_strcmp_sound s e.key z zero_diff in
    let k = length e.key in
    let longer = hash-append (lower e.key) t (length s) k (omega (arith, length-lower e.key)) in
    let hashes : hash (lower e.key ++ t) (length s) ≡ hash e.key k =
      ap (λ (x : Bytes). hash x (length s)) (sym same) ∙ hash-lower s (length s) n' ∙ h in
    let empty : length t ≡ 0 = omega (
      arith,
      longer,
      hashes,
      hash-lower e.key k n,
      ap length same,
      length-lower s,
      length-lower e.key,
      length-append (lower e.key) t,
    ) in
    (matched, same ∙ ap (◌++◌ (lower e.key)) (nil_of-length t empty) ∙ append-nil (lower e.key))

blank_refused : (s : Bytes) (n : ℕ) → 1 ≤ length s → hash s n ≤ 34 → case_strcmp s [] ≡ pos 0 → ⊥
unfolding case_strcmp hash downcase asso_value
blank_refused [] n h k e = omega arith
blank_refused (a ∷ s) n h k e =
    let zero_byte : a ≡ 0 = ground arith in ground (arith, rw zero_byte at k)

selected :
    (s : Bytes) (e : Kvp) {f : Kvp}
    → 3 ≤ length s
    → hash s (length s) ≤ 34
    → is_keyword (hash s (length s)) (some e) ≡ true
    → match_word s e ≡ some f
    → f.value ≡ reference s
unfolding reference
selected s e {f} long small good m = elim (Bool-cases (is_empty e.key)) [
  | inl blank ↦ absurd (
      blank_refused s (length s) (omega arith) small
        (ap (case_strcmp s) (sym (nil_of-empty e.key blank)) ∙ (match_word-some s e m).1))
  | inr word ↦
      let tests = rw word at good in
      let (rest, v) = &&-true _ (find_value (lower e.key) keywords == e.value) tests in
      let (rest', z) = &&-true _ (nonzero e.key) rest in
      let (h, n) =
        &&-true (hash e.key (length e.key) == hash s (length s)) (leb 2 (length e.key)) rest' in
      let (matched, same) =
        match_word-spells s e (sym ((==_iff _ _).0 h)) (leb→le 2 _ n) (omega arith) z m in
      ap (λ (w : Kvp). w.value) matched
      ∙ sym ((==_iff _ _).0 v)
      ∙ ap (λ (x : Bytes). find_value x keywords) (sym same)
]

-- What a successful search went through.
in_word_set-some :
    (s : Bytes) (n : ℕ) {f : Kvp}
    → in_word_set s n ≡ some f
    → (3 ≤ n) × (hash s n ≤ 34) × (match_at s (get_elem? wordlist (hash s n)) ≡ some f)
unfolding in_word_set
in_word_set-some s n h =
    let (lengths, inner) = if-some (leb n 11 && leb 3 n) _ h in
    let (small, found) = if-some (leb (hash s n) 34) _ inner in
    (leb→le 3 n (&&-true (leb n 11) (leb 3 n) lengths).1, leb→le (hash s n) 34 small, found)

match_at-some :
    (s : Bytes) (o : Option Kvp) {f : Kvp}
    → match_at s o ≡ some f
    → (e : Kvp) × (o ≡ some e) × (match_word s e ≡ some f)
unfolding match_at
match_at-some s none h = cc
match_at-some s (some e) h = (e, refl, h)

in_word_set-reference :
    (s : Bytes) {f : Kvp} → in_word_set s (length s) ≡ some f → f.value ≡ reference s
in_word_set-reference s {f} h =
    let (long, small, found) = in_word_set-some s (length s) h in
    let k = hash s (length s) in
    let (e, there, matched) = match_at-some s (get_elem? wordlist k) found in
    selected s e long small
      (rw there at (
        all_below_sound 35 (λ j. is_keyword j (get_elem? wordlist j)) k wordlist-is_keyword
          (omega (arith, small))))
      matched

keyword_val-some :
    (s : Bytes) {f : Kvp}
    → length s < 2 ^ 32
    → in_word_set s (length s) ≡ some f
    → keyword_val s ≡ f.value
unfolding keyword_val
keyword_val-some s short h = let fits : length s % 2 ^ 32 ≡ length s = omega arith in rw (fits, h)

keyword_val-none :
    (s : Bytes) → length s < 2 ^ 32 → in_word_set s (length s) ≡ none → keyword_val s ≡ 0
unfolding keyword_val
keyword_val-none s short h = let fits : length s % 2 ^ 32 ≡ length s = omega arith in rw (fits, h)

-- `keyword_val` finds the value that the keyword list gives to the text, whatever its case, and 0
-- for a text that is not in the list: the hash loses no keyword and takes no other text for one.
-- The length is cast to 32 bits, so the text is shorter than 2 ^ 32 bytes.
pub keyword_val-reference : (s : Bytes) → length s < 2 ^ 32 → keyword_val s ≡ reference s
unfolding reference
keyword_val-reference s short = elim (Option-cases (in_word_set s (length s))) [
  | inr (f, found) ↦ keyword_val-some s short found ∙ in_word_set-reference s found
  | inl missing ↦ elim (find_value-keyword_val s keywords keywords-listed) [
    | inl none_there ↦ keyword_val-none s short missing ∙ sym none_there
    | inr found ↦ sym found
  ]
]
