-- ===== src/Tests/UriRuns.antt =====
-- The inputs of uri/test/test_uri.cpp, and some that no test tries.
use beemo.Common.{◌∷◌, [], true, false, ok, throw, invalid_argument, undefined, pos, ◌≡◌, refl}
use beemo.Text.{
  codes, range, deref, deref_before, find_char, find_str, stoi, is_alpha, to_lower, is_xdigit,
}
use beemo.Utils.{parse_pattern}
use beemo.Uri.{Uri, flag_all, flag_authority, no_port}
use beemo.Uri.Parts.{parse_scheme, parse_port, parse_path}
use beemo.Uri.Host.{parse_host, parse_ipvfuture}
use beemo.Uri.Parser.{parse_uri, parse_authority}
use beemo.Uri.Chars.{is_scheme_char, is_future_char, is_host_char, is_pchar}

abbrev pub blank : Uri
blank = record {
  has_err = false;
  asterik = false;
  scheme = [];
  userinfo = [];
  future_version = [];
  ipv4 = [];
  ipv6 = [];
  ipvfuture = [];
  reg_name = [];
  port = pos 0;
  path = [];
  query = [];
}

scheme_run :
    (parse_scheme blank (codes "dfs2dhf-+.") 0 10
      ≡ ok (record blank { scheme = codes "dfs2dhf-+." }))
    × (parse_scheme blank (codes "3dfs") 0 4 ≡ ok (record blank { has_err = true }))
unfolding parse_scheme parse_pattern range deref is_alpha is_scheme_char
scheme_run = (refl, refl)

host_run :
    (parse_host blank (codes "[v4.fff:fff:df]") 0 15
      ≡ ok (record blank { future_version = codes "4"; ipvfuture = codes "fff:fff:df" }))
    × (parse_host blank (codes "127.0.0.1") 0 9
        ≡ ok (record blank { ipv4 = codes "127.0.0.1"; reg_name = codes "127.0.0.1" }))
unfolding parse_host parse_pattern range deref deref_before find_char to_lower is_xdigit
    is_future_char is_host_char parse_ipvfuture
host_run = (refl, refl)

port_run :
    (parse_port blank (codes "80") 0 2 ≡ ok (record blank { port = pos 80 }))
    × (parse_port blank [] 0 0 ≡ ok (record blank { port = no_port }))
    × (parse_port blank (codes "80a") 0 3 ≡ ok (record blank { has_err = true; port = pos 80 }))
    × (parse_port blank (codes "a") 0 1 ≡ throw invalid_argument)
unfolding parse_port parse_pattern range stoi
port_run = (refl, refl, refl, refl)

path_run :
    (parse_path blank (codes "first:seg/dfs") 0 13
      ≡ ok (record blank { path = codes "first:seg/dfs" }))
    × (parse_path blank (codes "//a") 0 3 ≡ ok (record blank { has_err = true }))
unfolding parse_path range is_pchar
path_run = (refl, refl)

-- A byte from 128 on is handed to `isalpha` as a negative number, and a port's as it is.
wild_run :
    (parse_path blank (b'/' ∷ 200 ∷ []) 0 2 ≡ undefined)
    × (parse_host blank (b'a' ∷ 255 ∷ []) 0 2 ≡ undefined)
    × (parse_port blank (b'8' ∷ 200 ∷ []) 0 2 ≡ ok (record blank { has_err = true; port = pos 8 }))
unfolding parse_path parse_host parse_port parse_pattern range deref stoi is_pchar is_host_char
wild_run = (refl, refl, refl)

authority_run :
    (parse_uri blank (codes "localhost:9000") flag_authority
      ≡ ok (record blank {
        ipv4 = codes "localhost";
        reg_name = codes "localhost";
        port = pos 9000;
      }))
    × (parse_uri blank (codes "http?://x") flag_all ≡ undefined)
unfolding parse_uri parse_scheme parse_host parse_port parse_pattern range deref find_char find_str
    stoi parse_authority is_host_char is_scheme_char
authority_run = (refl, refl)
