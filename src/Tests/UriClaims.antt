-- ===== src/Tests/UriClaims.antt =====
-- The theorems on uri/src/parser.cpp at concrete inputs.
use beemo.Common.{◌+◌, not, all, true, false, ok, undefined, pos, ◌≡◌, refl, arith, Defined}
use beemo.Text.{codes, range, deref, stoi, find_char, find_str, read_digits, is_digit}
use beemo.Utils.{parse_pattern}
use beemo.Uri.{flag_path, flag_query}
use beemo.Uri.Chars.{is_host_char, is_pchar, is_query_char}
use beemo.Uri.Grammar.{host_char, pchar, query_char}
use beemo.Uri.Parts.{parse_port, parse_query, parse_path}
use beemo.Uri.Host.{parse_host}
use beemo.Uri.Parser.{parse_authority_str, parse_uri, port_colon, userinfo_part, host_part}
use beemo.Uri.Path.{is_path, parse_path-is_path}
use beemo.Uri.Authority.{parse_authority_str-Defined}
use beemo.Uri.RoundTrip.{parse_authority_str-host_port}
use beemo.Uri.Faults.{BeginsSlashes, parse_authority_str_password, parse_authority_str_slashed}
use beemo.Uri.Origin.{parse_uri_query}
use beemo.Tests.UriRuns.{blank}

parse_path-is_path_example :
    parse_path blank (codes "/a//b?q") 0 5 ≡ ok (record blank { has_err = true })
unfolding is_path pchar
parse_path-is_path_example =
    parse_path-is_path blank (codes "/a//b?q") 0 5 (omega arith) (omega arith) refl

parse_authority_str-Defined_example : Defined (parse_authority_str blank (codes "me@host:80"))
unfolding find_char port_colon
parse_authority_str-Defined_example =
    parse_authority_str-Defined blank (codes "me@host:80") refl λ i p h k. ground (arith, h, k)

parse_authority_str-host_port_example :
    parse_authority_str blank (codes "localhost:9000")
    ≡ ok (record blank { ipv4 = codes "localhost"; reg_name = codes "localhost"; port = pos 9000 })
unfolding host_char is_digit read_digits
parse_authority_str-host_port_example =
    parse_authority_str-host_port blank b'l' (codes "ocalhost") b'9' (codes "000") refl refl
      (omega arith)

parse_authority_str_password_example : parse_authority_str blank (codes "user:pw@host") ≡ undefined
unfolding host_char
parse_authority_str_password_example =
    parse_authority_str_password blank (codes "user") (codes "pw") b'h' (codes "ost") refl refl refl
      refl refl refl

slashed_run :
    parse_authority_str blank (codes "//a:80")
    ≡ ok (record blank { ipv4 = codes "//a"; reg_name = codes "//a"; port = pos 80 })
unfolding parse_authority_str userinfo_part port_colon host_part parse_host parse_port parse_pattern
    range deref find_char stoi is_host_char
slashed_run = refl

parse_authority_str_slashed_example : BeginsSlashes (codes "//a") × BeginsSlashes (codes "//a")
parse_authority_str_slashed_example =
    parse_authority_str_slashed blank (codes "a:80") refl slashed_run

masked_run :
    parse_uri blank (codes "/a b?x") (flag_path + flag_query)
    ≡ ok (record blank { query = codes "?x" })
unfolding parse_uri parse_pattern find_char find_str range is_query_char parse_path is_pchar
    parse_query
masked_run = refl

parse_uri_query_example : (false ≡ not (all query_char (codes "?x"))) × (codes "?x" ≡ codes "?x")
unfolding find_char
parse_uri_query_example =
    parse_uri_query blank (codes "/a b?x") (flag_path + flag_query) 4 refl refl masked_run
