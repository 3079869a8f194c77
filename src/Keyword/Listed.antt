-- ===== src/Keyword/Listed.antt =====
-- The generated table holds every keyword of the list, at the place that its hash says.
use beemo.Common.{
  ℕ, suc, ◌≤◌, ◌<◌, ◌%◌, ◌^◌, Bool, true, false, ◌&&◌, List, [], ◌∷◌, Option, none, some, ◌≡◌, ◌⊎◌,
  inl, inr, refl, sym, ap, ◌∙◌, arith, ◌==◌, ==_iff, ltb, leb, length, get_elem?, get_or, all,
  Bool-cases, &&-true, leb→le, ltb→lt,
}
use beemo.Text.{Bytes, equal, equal_iff}
use beemo.Keyword.{Kvp, downcase, hash, wordlist, same_letter, match_word, in_word_set, keyword_val}
use beemo.Keyword.Reference.{keywords, lower, find_value}
use beemo.Keyword.Table.{nonzero, case_strcmp_complete, same_letter-downcase, hash-lower}

pub length-lower : (s : Bytes) → length (lower s) ≡ length s
length-lower [] = refl
length-lower (c ∷ s) = ap suc (length-lower s)

-- Where the generated table holds a keyword.
abbrev pub listed : Kvp → Option Kvp → Bool
listed w none = false
listed w (some e) =
    e.value == w.value
    && equal (lower e.key) (lower w.key)
    && nonzero e.key
    && ltb (get_or e.key 0 0) 256

abbrev pub is_listed : Kvp → Bool
is_listed w =
    leb (length w.key) 11
    && leb 3 (length w.key)
    && leb (hash w.key (length w.key)) 34
    && listed w (get_elem? wordlist (hash w.key (length w.key)))

pub keywords-listed : all is_listed keywords ≡ true
unfolding hash equal downcase
keywords-listed = refl

match_word-lower :
    (s : Bytes) (e : Kvp)
    → 1 ≤ length s
    → nonzero e.key ≡ true
    → get_or e.key 0 0 < 256
    → lower s ≡ lower e.key
    → match_word s e ≡ some e
unfolding match_word
match_word-lower s e n h lt same = rw (case_strcmp_complete s e.key h same, heads s e.key n lt same)
  where
    heads :
        (x y : Bytes)
        → 1 ≤ length x
        → get_or y 0 0 < 256
        → lower x ≡ lower y
        → same_letter (get_or x 0 0) (get_or y 0 0) ≡ true
    heads [] y k lt' f = absurd (omega arith)
    heads (a ∷ x) [] k lt' f = cc
    heads (a ∷ x) (b ∷ y) k lt' f = same_letter-downcase a b lt' (cc)

in_word_set-hit :
    (s : Bytes) (n : ℕ) (e : Kvp)
    → (leb n 11 && leb 3 n) ≡ true
    → leb (hash s n) 34 ≡ true
    → get_elem? wordlist (hash s n) ≡ some e
    → match_word s e ≡ some e
    → in_word_set s n ≡ some e
unfolding in_word_set
in_word_set-hit s n e a b there m = rw (a, b, there, m)

keyword_val-hit :
    (s : Bytes) (n : ℕ) {e : Kvp}
    → length s % 2 ^ 32 ≡ n
    → in_word_set s n ≡ some e
    → keyword_val s ≡ e.value
unfolding keyword_val
keyword_val-hit s n fits h = rw (fits, h)

listed-some :
    (w : Kvp) (o : Option Kvp)
    → listed w o ≡ true
    → (e : Kvp) × (o ≡ some e)
      × (e.value ≡ w.value)
      × (lower e.key ≡ lower w.key)
      × (nonzero e.key ≡ true)
      × (get_or e.key 0 0 < 256)
listed-some w none h = cc
listed-some w (some e) h =
    let (rest, small) = &&-true _ (ltb (get_or e.key 0 0) 256) h in
    let (rest', z) = &&-true _ (nonzero e.key) rest in
    let (v, k) = &&-true (e.value == w.value) (equal (lower e.key) (lower w.key)) rest' in
    (
      e,
      refl,
      (==_iff _ _).0 v,
      (equal_iff (lower e.key) (lower w.key)).0 k,
      z,
      ltb→lt (get_or e.key 0 0) 256 small,
    )

module _ (s : Bytes) (w : Kvp) (same : lower s ≡ lower w.key) where
  same-length : length s ≡ length w.key
  same-length = sym (length-lower s) ∙ ap length same ∙ length-lower w.key

  same-hash : 2 ≤ length w.key → hash s (length w.key) ≡ hash w.key (length w.key)
  same-hash long =
      sym (hash-lower s (length w.key) (omega (arith, same-length)))
      ∙ ap (λ (x : Bytes). hash x (length w.key)) same
      ∙ hash-lower w.key (length w.key) long

  keyword_val-listed : is_listed w ≡ true → keyword_val s ≡ w.value
  keyword_val-listed h =
      let n = length w.key in
      let (rest, there) = &&-true _ (listed w (get_elem? wordlist (hash w.key n))) h in
      let (lengths, small) = &&-true _ (leb (hash w.key n) 34) rest in
      let (le, ge) = &&-true (leb n 11) (leb 3 n) lengths in
      let long = leb→le 3 n ge in
      let short = leb→le n 11 le in
      let (e, at, v, k, z, byte) = listed-some w _ there in
      let hashes = same-hash (omega (arith, long)) in
      let found =
        in_word_set-hit s n e lengths (rw hashes small) (rw hashes at)
          (match_word-lower s e (omega (arith, long, same-length)) z byte (same ∙ sym k)) in
      keyword_val-hit s n (omega (arith, short, same-length)) found ∙ v

pub find_value-keyword_val :
    (s : Bytes) (ws : List Kvp)
    → all is_listed ws ≡ true
    → (find_value (lower s) ws ≡ 0) ⊎ (find_value (lower s) ws ≡ keyword_val s)
unfolding find_value
find_value-keyword_val s [] h = inl refl
find_value-keyword_val s (w ∷ ws) h =
    let (first, later) = &&-true (is_listed w) (all is_listed ws) h in
    elim (Bool-cases (equal (lower s) (lower w.key))) [
      | inl hit ↦
          inr (
            rw hit (sym (keyword_val-listed s w ((equal_iff (lower s) (lower w.key)).0 hit) first)))
      | inr miss ↦ rw miss (find_value-keyword_val s ws later)
    ]
