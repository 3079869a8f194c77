-- ===== src/Http/ReqLine.antt =====
-- http/src/parser.cpp: the request line.
use beemo.Common.{
  ℕ, ◌+◌, Bool, true, false, not, ◌&&◌, ◌||◌, [], ◌∷◌, Option, none, some, pos, ◌==ℤ◌, Result, ok,
  throw, out_of_range, ◌>>=◌, ◌==◌, ltb, leb, if◌then◌else◌, length, is_empty,
}
use beemo.Text.{Bytes, find_char, find_char_from, substr, range, stoi}
use beemo.Uri.{flag_all, flag_authority, flag_path, flag_query}
use beemo.Uri.Parser.{parse_uri}
use beemo.Keyword.{keyword_val}
use beemo.Http.Config.{supported_http_major_version, supported_http_minor_version}
use beemo.Http.Err.{bad_req_handler, not_impl_handler}
use beemo.Http.Msg.{
  Req, TargetForm, absolute, authority, asterik, origin, headers, method_invalid, set_err,
}

-- `if (req->uri.has_err) req->err = &bad_req_handler`
abbrev pub check_uri : Req → Req
check_uri r = if r.uri.has_err then set_err r bad_req_handler else r

abbrev pub is_some : Option ℕ → Bool
is_some none = false
is_some (some i) = true

unfoldable pub parse_target_uri : Req → TargetForm → Bytes → ℕ → Result Req
parse_target_uri r form target flags = do
  uri ← parse_uri r.uri target flags
  ok (check_uri (record r { target_form = form; uri = uri }))

-- `at(0)` throws on an empty target. The test of the first character after the one for '*' is
-- never true.
unfoldable pub parse_req_target : Bytes → Req → Result Req
unfolding parse_target_uri
parse_req_target [] r = throw out_of_range
parse_req_target (c ∷ cs) r =
    if c == b'*'
    then (if ltb 1 (length (c ∷ cs)) || not (c == b'*')
        then ok (
            set_err (record r { target_form = asterik; uri = record r.uri { asterik = false } })
              bad_req_handler)
        else ok
            (check_uri (record r { target_form = asterik; uri = record r.uri { asterik = true } })))
    else if c == b'/'
    then parse_target_uri r origin (c ∷ cs) (flag_path + flag_query)
    else if is_some (find_char b'/' (c ∷ cs))
    then parse_target_uri r absolute (c ∷ cs) flag_all
    else parse_target_uri r authority (c ∷ cs) flag_authority

abbrev version_len : ℕ
version_len = 8

abbrev version_major_start : ℕ
version_major_start = 5

abbrev version_minor_start : ℕ
version_minor_start = 7

unfoldable pub parse_version : Bytes → Req → Result Req
parse_version version r =
    if not (length version == version_len) then ok (set_err r bad_req_handler) else do
      major_str ← substr version version_major_start 1
      major ← stoi major_str
      minor_str ← substr version version_minor_start 1
      minor ← stoi minor_str
      let r' = record r { version = record { major = major; minor = minor } }
      if not (major ==ℤ pos supported_http_major_version)
            || not (minor ==ℤ pos supported_http_minor_version)
          then ok (set_err r' bad_req_handler)
          else ok r'

-- From the end of the target on.
unfoldable pub parse_after_target : Bytes → ℕ → Req → Result Req
unfolding parse_version
parse_after_target line target_end r =
    if leb (length line) (target_end + 1) then ok (set_err r bad_req_handler) else do
      version ← range line (target_end + 1) (length line)
      r' ← parse_version version r
      ok (record r' { parse_state = headers })

unfoldable pub parse_target_part : Bytes → ℕ → Option ℕ → Req → Result Req
unfolding parse_req_target parse_after_target
parse_target_part line method_end none r = ok (set_err r bad_req_handler)
parse_target_part line method_end (some target_end) r = do
  target ← range line (method_end + 1) target_end
  r' ← parse_req_target target r
  parse_after_target line target_end r'

unfoldable pub parse_method_part : Bytes → Option ℕ → Req → Result Req
unfolding parse_target_part
parse_method_part line none r = ok (set_err r bad_req_handler)
parse_method_part line (some method_end) r = do
  method_str ← substr line 0 method_end
  let r' = record r { method = keyword_val method_str }
  if r'.method == method_invalid
      then ok (set_err r' not_impl_handler)
      else parse_target_part line method_end (find_char_from b' ' line (method_end + 1)) r'

-- The length is tested only on a line that is empty.
unfoldable pub parse_req_line : Bytes → ℕ → Req → Result Req
unfolding parse_method_part
parse_req_line line max_req_line_len r =
    if is_empty line && ltb max_req_line_len (length line)
    then ok (set_err r bad_req_handler)
    else parse_method_part line (find_char b' ' line) r
