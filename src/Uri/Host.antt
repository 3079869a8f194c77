-- ===== src/Uri/Host.antt =====
-- uri/src/parser.cpp: `parse_host` and `parse_ipvfuture`.
use beemo.Common.{
  ◌>>=◌, ℕ, ◌+◌, ◌-◌, Bool, true, false, not, Option, none, some, Result, ok, ◌==◌, if◌then◌else◌,
  is_empty,
}
use beemo.Text.{Bytes, is_xdigit, to_lower, on_char, on_byte, deref, deref_before, range, find_char}
use beemo.Utils.{parse_pattern}
use beemo.Uri.{Uri, fail}
use beemo.Uri.Chars.{is_host_char, is_future_char}

-- The second half of `pass && parse_pattern(…)`.
unfoldable pub and_pattern : Bool → (ℕ → Result Bool) → Bytes → ℕ → ℕ → Result Bool
and_pattern false p s i j = ok false
and_pattern true p s i j = parse_pattern p s i j

-- From `uri->future_version = version` on.
read_future : Uri → Bytes → Bool → ℕ → ℕ → Result Uri
unfolding and_pattern
read_future u s pass version_end j = do
  pass' ← and_pattern pass is_future_char s (version_end + 1) j
  future ← range s (version_end + 1) j
  let u' = record u { has_err = not pass' }
  if is_empty future then ok (fail u') else ok (record u' { ipvfuture = future })

-- From the dot on, which stands at `version_end`.
read_version : Uri → Bytes → ℕ → ℕ → ℕ → Result Uri
unfolding read_future
read_version u s i version_end j = do
  pass ← parse_pattern (on_byte is_xdigit) s (i + 1) version_end
  version ← range s (i + 1) version_end
  if is_empty version
      then ok (fail u)
      else read_future (record u { future_version = version }) s pass version_end j

unfoldable pub from_dot : Uri → Bytes → ℕ → ℕ → Option ℕ → Result Uri
unfolding read_version
from_dot u s i j none = ok (fail u)
from_dot u s i j (some dot_pos) = read_version u s i (i + dot_pos) j

unfoldable pub parse_ipvfuture : Uri → Bytes → ℕ → ℕ → Result Uri
unfolding from_dot
parse_ipvfuture u s i j = do
  whole ← range s i j
  if i == j then ok (fail u) else do
    c ← deref s i
    if not (c == b'v') then ok (fail u) else from_dot u s i j (find_char b'.' whole)

-- Behind the test of the closing bracket.
read_literal : Uri → Bytes → ℕ → ℕ → Result Uri
read_literal u s i j = do
  c ← deref s (i + 1)
  lowered ← on_char to_lower c
  if lowered == b'v'
      then parse_ipvfuture u s (i + 1) (j - 1)
      else do host ← range s (i + 1) (j - 1); ok (record u { ipv6 = host })

read_name : Uri → Bytes → ℕ → ℕ → Result Uri
read_name u s i j = do
  pass ← parse_pattern is_host_char s i j
  host ← range s i j
  ok (record u { has_err = not pass; ipv4 = host; reg_name = host })

unfoldable pub parse_host : Uri → Bytes → ℕ → ℕ → Result Uri
unfolding read_literal read_name
parse_host u s i j = if i == j then ok (fail u) else do
  c ← deref s i
  if not (c == b'[')
      then read_name u s i j
      else do d ← deref_before s j; if not (d == b']') then ok (fail u) else read_literal u s i j
