-- ===== src/Http/FieldLine.antt =====
-- http/src/parser.cpp: `parse_field_line` and `parse_host`.
use Prim.Native.Nat.{bit_xor}
use beemo.Common.{ℕ, ◌+◌, ◌-◌, ◌^◌, Option, none, some, Result, ok, ◌>>=◌, if◌then◌else◌}
use beemo.Text.{Bytes, equal, find_char, find_not_from, substr, substr_from}
use beemo.Utils.{lowercase_str}
use beemo.Uri.{flag_scheme, flag_authority}
use beemo.Uri.Parser.{parse_uri}
use beemo.Http.Err.{bad_req_handler}
use beemo.Http.Fields.{contains, put_field}
use beemo.Http.Msg.{
  Req, TargetForm, absolute, authority, asterik, origin, host_header_token, set_err,
}
use beemo.Http.ReqLine.{check_uri}

-- `~uri::flag_authority`, in 32 bits.
abbrev not_flag_authority : ℕ
not_flag_authority = bit_xor (2 ^ 32 - 1) flag_authority

parse_host_uri : Req → Bytes → ℕ → Result Req
parse_host_uri r host_val flags = do
  uri ← parse_uri r.uri host_val flags
  ok (check_uri (record r { uri = uri }))

-- The switch has no case for the absolute form.
unfoldable pub parse_host_for : TargetForm → Bytes → Req → Result Req
unfolding parse_host_uri
parse_host_for origin host_val r = parse_host_uri r host_val (flag_scheme + flag_authority)
parse_host_for authority host_val r = parse_host_uri r host_val not_flag_authority
parse_host_for asterik host_val r = parse_host_uri r host_val (flag_scheme + flag_authority)
parse_host_for absolute host_val r = ok (check_uri r)

unfoldable pub parse_host : Bytes → Req → Result Req
unfolding parse_host_for
parse_host host_val r = parse_host_for r.target_form host_val r

-- From the position of the value on.
unfoldable pub store_field : Bytes → Bytes → Option ℕ → Req → Result Req
store_field line name none r = ok (set_err r bad_req_handler)
store_field line name (some value_start) r = do
  value ← substr_from line value_start
  let r' = record r { fields = put_field name value r.fields }
  if equal name host_header_token then parse_host value r' else ok r'

unfoldable pub parse_field : Bytes → Option ℕ → Req → Result Req
unfolding store_field
parse_field line none r = ok (set_err r bad_req_handler)
parse_field line (some name_end) r = do
  name ← substr line 0 name_end
  if contains (lowercase_str name) r.fields
      then ok (set_err r bad_req_handler)
      else store_field line (lowercase_str name) (find_not_from b' ' line (name_end + 1)) r

unfoldable pub parse_field_line : Bytes → Req → Result Req
unfolding parse_field
parse_field_line line r = parse_field line (find_char b':' line) r
