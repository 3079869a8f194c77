-- ===== src/Http/FieldState.antt =====
-- http/src/parser.cpp: `parse_field_line` does not touch the state of the parser.
use beemo.Common.{
  ℕ, true, false, Bool, Option, none, some, Result, ok, ◌>>=◌, >>=-eq-ok, if◌then◌else◌, ◌≡◌, refl,
}
use beemo.Text.{Bytes, find_char, substr, substr_from, equal}
use beemo.Utils.{lowercase_str}
use beemo.Http.Err.{bad_req_handler}
use beemo.Http.Fields.{put_field}
use beemo.Http.Msg.{
  Req, TargetForm, origin, authority, absolute, asterik, host_header_token, set_err,
}
use beemo.Http.ReqLine.{check_uri}
use beemo.Http.FieldLine.{parse_host_for, parse_host, store_field, parse_field, parse_field_line}

-- Reading a field line leaves the state as it is.
abbrev pub Keeps : Req → Result Req → Type 0
Keeps r m = (r' : Req) → m ≡ ok r' → r'.parse_state ≡ r.parse_state

state_of :
    (r a b : Req) → ok a ≡ ok b → a.parse_state ≡ r.parse_state → b.parse_state ≡ r.parse_state
state_of r a b e h = let same : a ≡ b = cc in rw⁻¹ same h

Keeps-if :
    (r : Req) (b : Bool) (m m' : Result Req)
    → Keeps r m
    → Keeps r m'
    → Keeps r (if b then m else m')
Keeps-if r true m m' h k = h
Keeps-if r false m m' h k = k

ok-Keeps : (r a : Req) → a.parse_state ≡ r.parse_state → Keeps r (ok a)
ok-Keeps r a h b e = state_of r a b e h

if_state :
    (r : Req) (b : Bool) (x y : Req)
    → x.parse_state ≡ r.parse_state
    → y.parse_state ≡ r.parse_state
    → (if b then x else y).parse_state ≡ r.parse_state
if_state r true x y h k = h
if_state r false x y h k = k

check_uri-Keeps : (r a : Req) → a.parse_state ≡ r.parse_state → Keeps r (ok (check_uri a))
check_uri-Keeps r a h r' e =
    state_of r (check_uri a) r' e (if_state r a.uri.has_err (set_err a bad_req_handler) a h h)

Keeps-bind :
    {A : Type 0} (r : Req) (m : Result A) (f : A → Result Req)
    → ((a : A) → Keeps r (f a))
    → Keeps r (m >>= f)
Keeps-bind r m f h r' e = let (a, _, e') = >>=-eq-ok m f e in h a r' e'

parse_host_for-Keeps :
    (form : TargetForm) (value : Bytes) (r : Req) → Keeps r (parse_host_for form value r)
unfolding parse_host_for
parse_host_for-Keeps origin value r =
    Keeps-bind r _ _ λ u. check_uri-Keeps r (record r { uri = u }) refl
parse_host_for-Keeps authority value r =
    Keeps-bind r _ _ λ u. check_uri-Keeps r (record r { uri = u }) refl
parse_host_for-Keeps asterik value r =
    Keeps-bind r _ _ λ u. check_uri-Keeps r (record r { uri = u }) refl
parse_host_for-Keeps absolute value r = check_uri-Keeps r r refl

store_field-Keeps :
    (line name : Bytes) (at : Option ℕ) (r : Req) → Keeps r (store_field line name at r)
unfolding store_field parse_host
store_field-Keeps line name none r = ok-Keeps r (set_err r bad_req_handler) refl
store_field-Keeps line name (some i) r = Keeps-bind r (substr_from line i) _ λ value.
    Keeps-if r (equal name host_header_token) _ _
      (parse_host_for-Keeps r.target_form value
        (record r { fields = put_field name value r.fields }))
      (ok-Keeps r (record r { fields = put_field name value r.fields }) refl)

parse_field-Keeps : (line : Bytes) (at : Option ℕ) (r : Req) → Keeps r (parse_field line at r)
unfolding parse_field
parse_field-Keeps line none r = ok-Keeps r (set_err r bad_req_handler) refl
parse_field-Keeps line (some i) r = Keeps-bind r (substr line 0 i) _ λ name.
    Keeps-if r _ _ _ (ok-Keeps r (set_err r bad_req_handler) refl)
      (store_field-Keeps line (lowercase_str name) _ r)

pub parse_field_line-Keeps : (line : Bytes) (r : Req) → Keeps r (parse_field_line line r)
unfolding parse_field_line
parse_field_line-Keeps line r = parse_field-Keeps line (find_char b':' line) r
