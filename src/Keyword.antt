-- ===== src/Keyword.antt =====
-- http/include/http/keyword_map.h: the perfect hash of the protocol's keywords. A keyword's value is
-- that of its enumerator in http/include/http/msg.h.
pub mod Table
pub mod Listed
pub mod Search
pub mod Reference
use Prim.Native.Nat.{bit_and, bit_xor}
use Prim.Native.String.{String}
use beemo.Common.{
  ℕ, ◌+◌, ◌-◌, ◌%◌, ◌^◌, Bool, not, ◌&&◌, List, [], ◌∷◌, Option, none, some, ℤ, pos, sub_ℕ, ◌==ℤ◌,
  ◌==◌, leb, if◌then◌else◌, length, get_elem?, get_or,
}
use beemo.Text.{Bytes, codes}

-- `http_kvp`
pub record Kvp : Type 0 where
  pub key : Bytes
  pub value : ℕ

abbrev word : String → ℕ → Kvp
word s v = record { key = codes s; value = v }

-- {""}
abbrev blank : Kvp
blank = record { key = []; value = 0 }

-- `gperf_downcase[c]`: the table maps 'A' to 'Z' to 'a' to 'z', and any other byte to itself.
unfoldable pub downcase : ℕ → ℕ
downcase c = if leb b'A' c && leb c b'Z' then c + 32 else c

-- The entries of `asso_values` from 'A' to 'z'. All others are 35.
abbrev asso_row : List ℕ
asso_row =
    0 ∷ 35 ∷ 5 ∷ 5 ∷ 10 ∷ 35 ∷ 5 ∷ 5 ∷ 10 ∷ 15 ∷ 0 ∷ 5 ∷ 35 ∷ 35 ∷ 0 ∷ 0 ∷ 35 ∷ 5 ∷ 15 ∷ 0 ∷ 0 ∷ 35
    ∷ 35 ∷ 10 ∷ 35 ∷ 15 ∷ 35 ∷ 35 ∷ 35 ∷ 35 ∷ 35 ∷ 35 ∷ 0 ∷ 35 ∷ 5 ∷ 5 ∷ 10 ∷ 35 ∷ 5 ∷ 5 ∷ 10 ∷ 15
    ∷ 0 ∷ 5 ∷ 35 ∷ 35 ∷ 0 ∷ 0 ∷ 35 ∷ 5 ∷ 15 ∷ 0 ∷ 0 ∷ 35 ∷ 35 ∷ 10 ∷ 35 ∷ 15 ∷ []

unfoldable pub asso_value : ℕ → ℕ
asso_value c = if leb b'A' c then get_or asso_row (c - b'A') 35 else 35

-- `hash(str, len)`; the string ends in a zero byte.
unfoldable pub hash : Bytes → ℕ → ℕ
unfolding asso_value
hash s len = len + asso_value (get_or s 1 0) + asso_value (get_or s 0 0)

abbrev pub wordlist : List Kvp
wordlist =
    blank
    ∷ blank
    ∷ blank
    ∷ word "PUT" 5
    ∷ word "POST" 2
    ∷ word "utf-8" 1
    ∷ blank
    ∷ word "OPTIONS" 3
    ∷ blank
    ∷ word "html" 1
    ∷ word "TRACE" 7
    ∷ word "application" 1
    ∷ word "CONNECT" 8
    ∷ word "compress" 4
    ∷ word "text" 2
    ∷ word "close" 2
    ∷ blank
    ∷ word "chunked" 1
    ∷ word "GET" 1
    ∷ word "HEAD" 4
    ∷ word "keep-alive" 1
    ∷ word "DELETE" 6
    ∷ word "deflate" 5
    ∷ word "identity" 2
    ∷ word "gzip" 3
    ∷ blank
    ∷ blank
    ∷ blank
    ∷ blank
    ∷ word "EXTENSION" 9
    ∷ blank
    ∷ blank
    ∷ blank
    ∷ blank
    ∷ word "json" 2
    ∷ []

-- `gperf_case_strcmp`, on strings that end in a zero byte.
unfoldable pub case_strcmp : Bytes → Bytes → ℤ
unfolding downcase
case_strcmp [] [] = pos 0
case_strcmp [] (y ∷ ys) = sub_ℕ 0 (downcase y)
case_strcmp (x ∷ xs) [] = sub_ℕ (downcase x) 0
case_strcmp (x ∷ xs) (y ∷ ys) =
    let rest = case_strcmp xs ys in
    if not (downcase x == 0) && downcase x == downcase y
    then rest
    else sub_ℕ (downcase x) (downcase y)

-- `((*str ^ *s) & ~32) == 0`, on bytes.
unfoldable pub same_letter : ℕ → ℕ → Bool
same_letter a b = bit_and (bit_xor a b) 223 == 0

-- The tests on the word that the hash selects.
unfoldable pub match_word : Bytes → Kvp → Option Kvp
unfolding same_letter case_strcmp
match_word s w =
    if same_letter (get_or s 0 0) (get_or w.key 0 0) && case_strcmp s w.key ==ℤ pos 0
    then some w
    else none

unfoldable pub match_at : Bytes → Option Kvp → Option Kvp
match_at s none = none
match_at s (some w) = match_word s w

unfoldable pub in_word_set : Bytes → ℕ → Option Kvp
unfolding match_at
in_word_set s len =
    if leb len 11 && leb 3 len
    then (if leb (hash s len) 34 then match_at s (get_elem? wordlist (hash s len)) else none)
    else none

abbrev value_or_zero : Option Kvp → ℕ
value_or_zero none = 0
value_or_zero (some w) = w.value

unfoldable pub keyword_val : Bytes → ℕ
unfolding in_word_set
keyword_val s = value_or_zero (in_word_set s (length s % 2 ^ 32))
