-- ===== src/Uri/Parser.antt =====
-- uri/src/parser.cpp: `parse_authority` and `parse_uri`.
use beemo.Common.{◌>>=◌, ℕ, ◌+◌, Bool, Option, none, some, Result, ok, if◌then◌else◌, length}
use beemo.Text.{Bytes, codes, range, find_char, find_str, find_char_from}
use beemo.Uri.{
  Uri, no_port, no_scheme, flag_scheme, flag_authority, flag_path, flag_query, has_flag,
}
use beemo.Uri.Parts.{parse_scheme, parse_userinfo, parse_port, parse_path, parse_query}
use beemo.Uri.Host.{parse_host}

-- `parse_userinfo`, where there is an '@', and where the host begins.
unfoldable pub userinfo_part : Uri → Bytes → Option ℕ → Result (Uri × ℕ)
userinfo_part u auth none = ok (u, 0)
userinfo_part u auth (some userinfo_end) = do
  u' ← parse_userinfo u auth 0 userinfo_end
  ok (u', userinfo_end + 1)

-- The ':' before the port: behind the ']' of an address, if there is one.
unfoldable pub port_colon : Bytes → Option ℕ → Option ℕ
port_colon auth none = find_char b':' auth
port_colon auth (some literal_end) = find_char_from b':' auth literal_end

unfoldable pub host_part : Bytes → ℕ → Option ℕ → Uri → Result Uri
host_part auth host_start none u = do
  u' ← parse_host u auth host_start (length auth)
  ok (record u' { port = no_port })
host_part auth host_start (some port_start) u = do
  u' ← parse_host u auth host_start port_start
  parse_port u' auth (port_start + 1) (length auth)

-- The part after `auth_str` is made.
unfoldable pub parse_authority_str : Uri → Bytes → Result Uri
unfolding userinfo_part port_colon host_part
parse_authority_str u auth = do
  (u', host_start) ← userinfo_part u auth (find_char b'@' auth)
  host_part auth host_start (port_colon auth (find_char b']' auth)) u'

unfoldable pub parse_authority : Uri → Bytes → ℕ → ℕ → Result Uri
unfolding parse_authority_str
parse_authority u s i j = do auth ← range s i j; parse_authority_str u auth

unfoldable pub scheme_part : Uri → Bytes → Option ℕ → Result Uri
scheme_part u raw (some scheme_end) = parse_scheme u raw 0 scheme_end
scheme_part u raw none = ok (record u { scheme = no_scheme })

-- `path_start_pos`, from the position of "//".
unfoldable pub path_start : Bytes → Option ℕ → Option ℕ
path_start raw none = find_char b'/' raw
path_start raw (some auth_start) = find_char_from b'/' raw (auth_start + 2)

abbrev pub or_else : Option ℕ → ℕ → ℕ
or_else (some i) d = i
or_else none d = d

-- The authority ends before the path, or the query, or with the view.
abbrev pub authority_end : Bytes → Option ℕ → Option ℕ → ℕ
authority_end raw path_pos query_pos = or_else path_pos (or_else query_pos (length raw))

unfoldable pub path_part : Uri → Bytes → Option ℕ → Option ℕ → Result Uri
path_part u raw none query_pos = ok u
path_part u raw (some path_pos) query_pos =
    parse_path u raw path_pos (or_else query_pos (length raw))

unfoldable pub query_part : Uri → Bytes → Option ℕ → Result Uri
query_part u raw none = ok u
query_part u raw (some query_pos) = parse_query u raw query_pos (length raw)

abbrev pub when : Bool → (Uri → Result Uri) → Uri → Result Uri
when b f u = if b then f u else ok u

-- Up to the path.
unfoldable pub parse_uri_front : Uri → Bytes → ℕ → Result Uri
unfolding scheme_part path_start path_part
parse_uri_front u raw flags = do
  let auth_pos = find_str (codes "//") raw
  let query_pos = find_char b'?' raw
  let path_pos = path_start raw auth_pos
  u₁ ← when (has_flag flags flag_scheme) (λ v. scheme_part v raw (find_str (codes "://") raw)) u
  u₂ ←
      when (has_flag flags flag_authority)
        (λ v. parse_authority v raw (or_else auth_pos 0) (authority_end raw path_pos query_pos)) u₁
  when (has_flag flags flag_path) (λ v. path_part v raw path_pos query_pos) u₂

unfoldable pub parse_uri : Uri → Bytes → ℕ → Result Uri
unfolding parse_uri_front query_part
parse_uri u raw flags = do
  u' ← parse_uri_front u raw flags
  when (has_flag flags flag_query) (λ v. query_part v raw (find_char b'?' raw)) u'
