-- ===== src/Uri/Parts.antt =====
-- uri/src/parser.cpp: `parse_scheme`, `parse_userinfo`, `parse_port`, `parse_path`, `parse_query`.
-- Each takes the view that its iterators point into, and their offsets.
use beemo.Common.{
  ◌>>=◌, ℕ, suc, Bool, true, false, not, [], ◌∷◌, Result, ok, undefined, ◌==◌, if◌then◌else◌, drop,
  is_empty,
}
use beemo.Text.{Bytes, is_alpha, is_digit, on_char, on_byte, deref, range, stoi}
use beemo.Utils.{parse_pattern}
use beemo.Uri.{Uri, no_port, fail}
use beemo.Uri.Chars.{is_scheme_char, is_userinfo_char, is_query_char, is_pchar}

read_scheme : Uri → Bytes → ℕ → ℕ → Result Uri
read_scheme u s i j = do
  pass ← parse_pattern is_scheme_char s i j
  scheme ← range s i j
  ok (record u { has_err = not pass; scheme = scheme })

unfoldable pub parse_scheme : Uri → Bytes → ℕ → ℕ → Result Uri
unfolding read_scheme
parse_scheme u s i j = if i == j then ok (fail u) else do
  c ← deref s i
  letter ← on_char is_alpha c
  if not letter then ok (fail u) else read_scheme u s i j

unfoldable pub parse_userinfo : Uri → Bytes → ℕ → ℕ → Result Uri
parse_userinfo u s i j = do
  pass ← parse_pattern is_userinfo_char s i j
  userinfo ← range s i j
  ok (record u { has_err = not pass; userinfo = userinfo })

set_port : Uri → Bytes → Result Uri
set_port u port =
    if is_empty port
    then ok (record u { port = no_port })
    else do n ← stoi port; ok (record u { port = n })

unfoldable pub parse_port : Uri → Bytes → ℕ → ℕ → Result Uri
unfolding set_port
parse_port u s i j = do
  pass ← parse_pattern (on_byte is_digit) s i j
  port ← range s i j
  set_port (record u { has_err = not pass }) port

-- The two loops over the segments, one call for each byte: `seen` is `seg_exists`. The call stands
-- in the inner loop, behind a '/'. The result says that no segment is refused.
unfoldable pub segment_loop : Bool → Bytes → ℕ → ℕ → Result Bool
segment_loop seen [] i j = if i == j then ok true else undefined
segment_loop seen (c ∷ cs) i j =
    let rest = segment_loop (not (c == b'/')) cs (suc i) j in
    if i == j
    then ok true
    else if c == b'/'
    then (if seen then rest else ok false)
    else do pass ← is_pchar c; if pass then rest else ok false

-- The first loop, and then the test of the byte at which it stops.
unfoldable pub path_loop : Bytes → ℕ → ℕ → Result Bool
unfolding segment_loop
path_loop [] i j = if i == j then ok true else undefined
path_loop (c ∷ cs) i j =
    let rest = path_loop cs (suc i) j in
    if i == j then ok true else do
      pass ← is_pchar c
      if pass then rest else if not (c == b'/') then ok false else segment_loop false cs (suc i) j

unfoldable pub set_path : Uri → Bytes → ℕ → ℕ → Bool → Result Uri
set_path u s i j false = ok (fail u)
set_path u s i j true = do path ← range s i j; ok (record u { path = path })

unfoldable pub parse_path : Uri → Bytes → ℕ → ℕ → Result Uri
unfolding path_loop set_path
parse_path u s i j = do well_formed ← path_loop (drop i s) i j; set_path u s i j well_formed

unfoldable pub parse_query : Uri → Bytes → ℕ → ℕ → Result Uri
parse_query u s i j = do
  pass ← parse_pattern is_query_char s i j
  query ← range s i j
  ok (record u { has_err = not pass; query = query })
