-- ===== src/Uri/Ends.antt =====
-- The URI parser's loops end: no fuel is involved, whatever the input.
use beemo.Common.{
  ℕ, zero, suc, ◌+◌, ◌-◌, Bool, true, false, not, [], ◌∷◌, Option, none, some, Result, ok,
  undefined, if◌then◌else◌, arith, ◌==◌, length, drop, Ends, ok-Ends, Ends-bind, Ends-if,
}
use beemo.Text.{
  Bytes, is_ascii, on_char, is_alpha, to_lower, range, deref, deref_before, substr, stoi, find_char,
  find_str, codes,
}
use beemo.Utils.{pattern_loop, parse_pattern}
use beemo.Utils.Pattern.{TestsFor}
use beemo.Uri.Grammar.{
  scheme_char, userinfo_char, query_char, host_char, future_char, pchar, is_scheme_char-scheme_char,
  is_userinfo_char-userinfo_char, is_query_char-query_char, is_host_char-host_char,
  is_future_char-future_char, is_pchar-pchar,
}
use beemo.Uri.{Uri, has_flag, flag_scheme, flag_authority, flag_path, flag_query}
use beemo.Uri.Chars.{is_pchar}
use beemo.Uri.Parts.{
  parse_scheme, parse_userinfo, parse_port, segment_loop, path_loop, set_path, parse_path,
  parse_query,
}
use beemo.Uri.Host.{and_pattern, from_dot, parse_ipvfuture, parse_host}
use beemo.Uri.Parser.{
  userinfo_part, host_part, port_colon, parse_authority_str, parse_authority, parse_uri_front,
  parse_uri, scheme_part, path_part, query_part, path_start, when, or_else, authority_end,
}

undefined-Ends {ℓ} : (A : Type ℓ) → Ends {A = A} undefined
undefined-Ends A e = cc

on_char-Ends {ℓ} : {A : Type ℓ} (f : ℕ → A) (c : ℕ) → Ends (on_char f c)
unfolding on_char
on_char-Ends f c = Ends-if (is_ascii c) _ _ (ok-Ends _) (undefined-Ends _)

TestsFor-Ends : {p : ℕ → Result Bool} (q : ℕ → Bool) → TestsFor p q → (c : ℕ) → Ends (p c)
TestsFor-Ends q tests c = rw (tests c) (on_char-Ends q c)

pattern_loop-Ends :
    (p : ℕ → Result Bool)
    → ((c : ℕ) → Ends (p c))
    → (xs : Bytes) (i j : ℕ) → Ends (pattern_loop p xs i j)
unfolding pattern_loop
pattern_loop-Ends p h [] i j = Ends-if _ _ _ (ok-Ends _) (undefined-Ends _)
pattern_loop-Ends p h (x ∷ xs) i j =
    Ends-if _ _ _ (ok-Ends _)
      (Ends-bind _ _ (h x) λ pass _. Ends-if _ _ _ (pattern_loop-Ends p h xs (suc i) j) (ok-Ends _))

pub parse_pattern-Ends :
    (p : ℕ → Result Bool)
    → ((c : ℕ) → Ends (p c))
    → (s : Bytes) (i j : ℕ) → Ends (parse_pattern p s i j)
unfolding parse_pattern
parse_pattern-Ends p h s i j = pattern_loop-Ends p h (drop i s) i j

pub range-Ends : (s : Bytes) (i j : ℕ) → Ends (range s i j)
unfolding range
range-Ends s i j e = ground (arith, e)

pub substr-Ends : (s : Bytes) (i n : ℕ) → Ends (substr s i n)
unfolding substr
substr-Ends s i j e = ground (arith, e)

deref-Ends : (s : Bytes) (i : ℕ) → Ends (deref s i)
unfolding deref
deref-Ends [] i e = cc
deref-Ends (x ∷ s) zero e = cc
deref-Ends (x ∷ s) (suc i) e = deref-Ends s i e

deref_before-Ends : (s : Bytes) (i : ℕ) → Ends (deref_before s i)
unfolding deref_before
deref_before-Ends s zero e = cc
deref_before-Ends s (suc i) e = deref-Ends s i e

pub stoi-Ends : (s : Bytes) → Ends (stoi s)
unfolding stoi
stoi-Ends s = ground arith

parse_scheme-Ends : (u : Uri) (s : Bytes) (i j : ℕ) → Ends (parse_scheme u s i j)
unfolding parse_scheme
parse_scheme-Ends u s i j = Ends-if _ _ _ (ok-Ends _) (
    Ends-bind _ _ (deref-Ends s i) λ c _. Ends-bind _ _ (on_char-Ends is_alpha c) λ _ _.
      Ends-if _ _ _ (ok-Ends _) (
        Ends-bind _ _
          (parse_pattern-Ends _ (TestsFor-Ends scheme_char is_scheme_char-scheme_char) s i j)
          λ _ _. Ends-bind _ _ (range-Ends s i j) λ _ _. ok-Ends _))

parse_userinfo-Ends : (u : Uri) (s : Bytes) (i j : ℕ) → Ends (parse_userinfo u s i j)
unfolding parse_userinfo
parse_userinfo-Ends u s i j =
    Ends-bind _ _
      (parse_pattern-Ends _ (TestsFor-Ends userinfo_char is_userinfo_char-userinfo_char) s i j)
      λ _ _. Ends-bind _ _ (range-Ends s i j) λ _ _. ok-Ends _

parse_query-Ends : (u : Uri) (s : Bytes) (i j : ℕ) → Ends (parse_query u s i j)
unfolding parse_query
parse_query-Ends u s i j =
    Ends-bind _ _ (parse_pattern-Ends _ (TestsFor-Ends query_char is_query_char-query_char) s i j)
      λ _ _. Ends-bind _ _ (range-Ends s i j) λ _ _. ok-Ends _

parse_port-Ends : (u : Uri) (s : Bytes) (i j : ℕ) → Ends (parse_port u s i j)
unfolding parse_port
parse_port-Ends u s i j = Ends-bind _ _ (parse_pattern-Ends _ (λ c. ok-Ends _) s i j) λ _ _.
    Ends-bind _ _ (range-Ends s i j)
      λ port _. Ends-if _ _ _ (ok-Ends _) (Ends-bind _ _ (stoi-Ends port) λ _ _. ok-Ends _)

segment_loop-Ends : (seen : Bool) (xs : Bytes) (i j : ℕ) → Ends (segment_loop seen xs i j)
unfolding segment_loop
segment_loop-Ends seen [] i j = Ends-if _ _ _ (ok-Ends _) (undefined-Ends _)
segment_loop-Ends seen (x ∷ xs) i j =
    let tail = segment_loop (not (x == b'/')) xs (suc i) j in
    let rest = segment_loop-Ends (not (x == b'/')) xs (suc i) j in
    let tested =
      Ends-bind (is_pchar x) (λ pass. if pass then tail else ok false)
        (TestsFor-Ends pchar is_pchar-pchar x) λ pass _. Ends-if pass _ _ rest (ok-Ends false) in
    Ends-if (i == j) _ _ (ok-Ends true)
      (Ends-if (x == b'/') _ _ (Ends-if seen _ _ rest (ok-Ends false)) tested)

path_loop-Ends : (xs : Bytes) (i j : ℕ) → Ends (path_loop xs i j)
unfolding path_loop
path_loop-Ends [] i j = Ends-if _ _ _ (ok-Ends _) (undefined-Ends _)
path_loop-Ends (x ∷ xs) i j = Ends-if _ _ _ (ok-Ends _) (
    Ends-bind _ _ (TestsFor-Ends pchar is_pchar-pchar x) λ _ _.
      Ends-if _ _ _ (path_loop-Ends xs (suc i) j)
        (Ends-if _ _ _ (ok-Ends _) (segment_loop-Ends false xs (suc i) j)))

set_path-Ends : (u : Uri) (s : Bytes) (i j : ℕ) (fine : Bool) → Ends (set_path u s i j fine)
unfolding set_path
set_path-Ends u s i j false = ok-Ends _
set_path-Ends u s i j true = Ends-bind _ _ (range-Ends s i j) λ _ _. ok-Ends _

parse_path-Ends : (u : Uri) (s : Bytes) (i j : ℕ) → Ends (parse_path u s i j)
unfolding parse_path
parse_path-Ends u s i j =
    Ends-bind _ _ (path_loop-Ends (drop i s) i j) λ fine _. set_path-Ends u s i j fine

and_pattern-Ends :
    (pass : Bool) (p : ℕ → Result Bool)
    → ((c : ℕ) → Ends (p c))
    → (s : Bytes) (i j : ℕ) → Ends (and_pattern pass p s i j)
unfolding and_pattern
and_pattern-Ends false p h s i j = ok-Ends _
and_pattern-Ends true p h s i j = parse_pattern-Ends p h s i j

from_dot-Ends : (u : Uri) (s : Bytes) (i j : ℕ) (dot : Option ℕ) → Ends (from_dot u s i j dot)
unfolding from_dot
from_dot-Ends u s i j none = ok-Ends _
from_dot-Ends u s i j (some d) =
    Ends-bind _ _ (parse_pattern-Ends _ (λ c. ok-Ends _) s (i + 1) (i + d)) λ pass _.
      Ends-bind _ _ (range-Ends s (i + 1) (i + d)) λ _ _. Ends-if _ _ _ (ok-Ends _) (
        Ends-bind _ _
          (and_pattern-Ends pass _ (TestsFor-Ends future_char is_future_char-future_char) s
            (i + d + 1) j)
          λ _ _.
            Ends-bind _ _ (range-Ends s (i + d + 1) j) λ _ _. Ends-if _ _ _ (ok-Ends _) (ok-Ends _))

parse_ipvfuture-Ends : (u : Uri) (s : Bytes) (i j : ℕ) → Ends (parse_ipvfuture u s i j)
unfolding parse_ipvfuture
parse_ipvfuture-Ends u s i j = Ends-bind _ _ (range-Ends s i j) λ whole _.
    Ends-if _ _ _ (ok-Ends _) (
      Ends-bind _ _ (deref-Ends s i)
        λ _ _. Ends-if _ _ _ (ok-Ends _) (from_dot-Ends u s i j (find_char b'.' whole)))

parse_host-Ends : (u : Uri) (s : Bytes) (i j : ℕ) → Ends (parse_host u s i j)
unfolding parse_host
parse_host-Ends u s i j = Ends-if _ _ _ (ok-Ends _) (
    Ends-bind _ _ (deref-Ends s i) λ _ _.
      Ends-if _ _ _
        (Ends-bind _ _ (parse_pattern-Ends _ (TestsFor-Ends host_char is_host_char-host_char) s i j)
          λ _ _. Ends-bind _ _ (range-Ends s i j) λ _ _. ok-Ends _)
        (Ends-bind _ _ (deref_before-Ends s j) λ _ _. Ends-if _ _ _ (ok-Ends _) (
          Ends-bind _ _ (deref-Ends s (i + 1)) λ c _. Ends-bind _ _ (on_char-Ends to_lower c) λ _ _.
            Ends-if _ _ _ (parse_ipvfuture-Ends u s (i + 1) (j - 1))
              (Ends-bind _ _ (range-Ends s (i + 1) (j - 1)) λ _ _. ok-Ends _))))

userinfo_part-Ends : (u : Uri) (s : Bytes) (at : Option ℕ) → Ends (userinfo_part u s at)
unfolding userinfo_part
userinfo_part-Ends u s none = ok-Ends _
userinfo_part-Ends u s (some i) = Ends-bind _ _ (parse_userinfo-Ends u s 0 i) λ _ _. ok-Ends _

host_part-Ends : (s : Bytes) (i : ℕ) (colon : Option ℕ) (u : Uri) → Ends (host_part s i colon u)
unfolding host_part
host_part-Ends s i none u = Ends-bind _ _ (parse_host-Ends u s i (length s)) λ _ _. ok-Ends _
host_part-Ends s i (some p) u =
    Ends-bind _ _ (parse_host-Ends u s i p) λ u' _. parse_port-Ends u' s (p + 1) (length s)

parse_authority-Ends : (u : Uri) (s : Bytes) (i j : ℕ) → Ends (parse_authority u s i j)
unfolding parse_authority parse_authority_str
parse_authority-Ends u s i j = Ends-bind _ _ (range-Ends s i j) λ auth _.
    Ends-bind _ _ (userinfo_part-Ends u auth (find_char b'@' auth))
      λ s _. host_part-Ends auth s.1 (port_colon auth (find_char b']' auth)) s.0

scheme_part-Ends : (u : Uri) (s : Bytes) (end : Option ℕ) → Ends (scheme_part u s end)
unfolding scheme_part
scheme_part-Ends u s (some i) = parse_scheme-Ends u s 0 i
scheme_part-Ends u s none = ok-Ends _

path_part-Ends : (u : Uri) (s : Bytes) (p q : Option ℕ) → Ends (path_part u s p q)
unfolding path_part
path_part-Ends u s none q = ok-Ends u
path_part-Ends u s (some i) q = parse_path-Ends u s i _

query_part-Ends : (u : Uri) (s : Bytes) (q : Option ℕ) → Ends (query_part u s q)
unfolding query_part
query_part-Ends u s none = ok-Ends u
query_part-Ends u s (some i) = parse_query-Ends u s i (length s)

when-Ends :
    (b : Bool) (f : Uri → Result Uri) (u : Uri) → ((v : Uri) → Ends (f v)) → Ends (when b f u)
when-Ends true f u h = h u
when-Ends false f u h = ok-Ends u

parse_uri_front-Ends : (u : Uri) (s : Bytes) (flags : ℕ) → Ends (parse_uri_front u s flags)
unfolding parse_uri_front
parse_uri_front-Ends u s flags =
    let scheme_end = find_str (codes "://") s in
    let auth = find_str (codes "//") s in
    let query = find_char b'?' s in
    let path = path_start s auth in
    Ends-bind (when (has_flag flags flag_scheme) (λ v. scheme_part v s scheme_end) u) _
      (when-Ends _ _ u λ v. scheme_part-Ends v s scheme_end)
      λ v _.
        Ends-bind
          (when (has_flag flags flag_authority)
            (λ w. parse_authority w s (or_else auth 0) (authority_end s path query)) v)
          _
          (when-Ends _ _ v
            λ w. parse_authority-Ends w s (or_else auth 0) (authority_end s path query))
          λ w _. when-Ends (has_flag flags flag_path) _ w λ x. path_part-Ends x s path query

pub parse_uri-Ends : (u : Uri) (s : Bytes) (flags : ℕ) → Ends (parse_uri u s flags)
unfolding parse_uri
parse_uri-Ends u s flags =
    Ends-bind (parse_uri_front u s flags) _ (parse_uri_front-Ends u s flags)
      λ v _. when-Ends (has_flag flags flag_query) _ v λ w. query_part-Ends w s (find_char b'?' s)
