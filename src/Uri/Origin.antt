-- ===== src/Uri/Origin.antt =====
-- `parse_uri` on request targets in origin form, "/path?query", and what it makes of errors.
use beemo.Common.{
  ℕ, ◌+◌, ◌-◌, ◌≤◌, true, not, [], ◌∷◌, ◌++◌, none, some, ok, ◌≡◌, refl, ap, ◌∙◌, arith,
  if◌then◌else◌, length, take, drop, all, take_all, length-drop, length-append, take-length-append,
  >>=-eq-ok, append-nil,
}
use beemo.Text.{
  Bytes, is_ascii, codes, range-take, range_suffix, find_char, find_char_bound, find_char-none,
  find_char-hit, find_str, lacks,
}
use beemo.Utils.Pattern.{parse_pattern-ok, parse_pattern_suffix}
use beemo.Uri.{Uri, fail, flag_path, flag_query, has_flag}
use beemo.Utils.{parse_pattern}
use beemo.Uri.Chars.{is_query_char}
use beemo.Uri.Grammar.{query_char, is_query_char-query_char}
use beemo.Uri.Path.{is_path, parse_path-is_path}
use beemo.Uri.Parts.{parse_query, parse_path}
use beemo.Uri.Parser.{parse_uri, parse_uri_front}

parse_query_rest :
    (u : Uri) (s : Bytes) (i : ℕ) {v : Uri}
    → i ≤ length s
    → parse_query u s i (length s) ≡ ok v
    → (v.has_err ≡ not (all query_char (drop i s))) × (v.query ≡ drop i s)
unfolding parse_query
parse_query_rest u s i h k =
    let e : take (length s - i) (drop i s) ≡ drop i s =
      take_all (length s - i) (drop i s) (omega (arith, length-drop i s)) in
    let (pass, f, g) = >>=-eq-ok (parse_pattern is_query_char s i (length s)) _ k in
    let verdict =
      parse_pattern-ok is_query_char query_char is_query_char-query_char s i (length s) h
        (omega arith) f in
    let g' = rw (range-take s i (length s) h (omega arith), e) at g in
    let verdict' = rw e at verdict in ground (arith, verdict', g')

-- Where the query is asked for and there is one, `has_err` tells of the query alone: an error that
-- the scheme, the authority or the path left there is overwritten.
pub parse_uri_query :
    (u : Uri) (raw : Bytes) (flags q : ℕ) {v : Uri}
    → has_flag flags flag_query ≡ true
    → find_char b'?' raw ≡ some q
    → parse_uri u raw flags ≡ ok v
    → (v.has_err ≡ not (all query_char (drop q raw))) × (v.query ≡ drop q raw)
unfolding parse_uri
parse_uri_query u raw flags q h f e =
    let (u', e', k) = >>=-eq-ok (parse_uri_front u raw flags) _ e in
    parse_query_rest u' raw q (omega (arith, find_char_bound b'?' raw f)) (rw (h, f) at k)

find_slash : (s : Bytes) → find_char b'/' (b'/' ∷ s) ≡ some 0
unfolding find_char
find_slash s = refl

query_suffix :
    (u : Uri) (before qs : Bytes)
    → all is_ascii qs ≡ true
    → parse_query u (before ++ qs) (length before) (length (before ++ qs))
      ≡ ok (record u { has_err = not (all query_char qs); query = qs })
unfolding parse_query
query_suffix u before qs a = rw (
  parse_pattern_suffix is_query_char query_char is_query_char-query_char before qs a,
  range_suffix before qs,
)

path_prefix :
    (u : Uri) (p rest : Bytes)
    → all is_ascii p ≡ true
    → parse_path u (p ++ rest) 0 (length p)
      ≡ ok (if is_path p then record u { path = p } else record u { has_err = true })
path_prefix u p rest a =
    let e : take (length p - 0) (p ++ rest) ≡ p =
      ap (λ (n : ℕ). take n (p ++ rest)) (omega arith) ∙ take-length-append p rest in
    rw e at (
      parse_path-is_path u (p ++ rest) 0 (length p) (omega arith)
        (omega (arith, length-append p rest)) (rw e a))

-- A target "/path?query" with no "//" in it and no byte from 128 on: the path up to the '?' is stored if it is well formed,
-- the query with its '?' is stored in any case, and `has_err` tells of the query alone.
pub parse_uri_origin :
    (u : Uri) (p qs : Bytes)
    → find_str (codes "//") (b'/' ∷ p ++ b'?' ∷ qs) ≡ none
    → lacks b'?' p ≡ true
    → all is_ascii p ≡ true
    → all is_ascii qs ≡ true
    → parse_uri u (b'/' ∷ p ++ b'?' ∷ qs) (flag_path + flag_query)
      ≡ ok (record u {
        has_err = not (all query_char (b'?' ∷ qs));
        path = if is_path (b'/' ∷ p) then b'/' ∷ p else u.path;
        query = b'?' ∷ qs;
      })
unfolding parse_uri
parse_uri_origin u p qs h k a a' =
    rw
      (
        h,
        find_char-hit b'?' (b'/' ∷ p) qs k,
        find_slash (p ++ b'?' ∷ qs),
        path_prefix u (b'/' ∷ p) (b'?' ∷ qs) a,
      )
      (ground (
        arith,
        query_suffix (fail u) (b'/' ∷ p) (b'?' ∷ qs) a',
        query_suffix (record u { path = b'/' ∷ p }) (b'/' ∷ p) (b'?' ∷ qs) a',
      ))

path_all :
    (u : Uri) (p : Bytes)
    → all is_ascii p ≡ true
    → parse_path u p 0 (length p)
      ≡ ok (if is_path p then record u { path = p } else record u { has_err = true })
path_all u p a = rw append-nil at (path_prefix u p [] a)

-- A target with no '?', no "//" and no byte from 128 on is stored as the path if it is well formed, and else recorded as
-- an error. An error recorded before stays.
pub parse_uri_origin_path :
    (u : Uri) (p : Bytes)
    → find_str (codes "//") (b'/' ∷ p) ≡ none
    → lacks b'?' p ≡ true
    → all is_ascii p ≡ true
    → parse_uri u (b'/' ∷ p) (flag_path + flag_query)
      ≡ ok
          (if is_path (b'/' ∷ p) then record u { path = b'/' ∷ p } else record u { has_err = true })
unfolding parse_uri
parse_uri_origin_path u p h k a =
    rw (h, find_char-none b'?' (b'/' ∷ p) k, find_slash p, path_all u (b'/' ∷ p) a)
