-- ===== src/Http/Resp.antt =====
-- http/src/msg.cpp (`resp`) and `err_builder::build` of http/src/err.cpp.
use beemo.Common.{ℕ, zero, suc, ◌+◌, ◌/◌, ◌%◌, [], ◌∷◌, ◌++◌, ltb, is_empty, if◌then◌else◌}
use beemo.Text.{Bytes, codes}
use beemo.Http.Err.{ErrBuilder, err_status_code, err_reason}
use beemo.Http.Fields.{Fields, put_field}

-- The version is 1.1 in every response.
pub record Resp : Type 0 where
  pub major : ℕ
  pub minor : ℕ
  pub status_code : ℕ
  pub reason : Bytes
  pub fields : Fields
  pub body : Bytes

-- `resp()`, which does not set the status code: it is what the memory held.
abbrev pub init_resp : ℕ → Resp
init_resp status = record {
  major = 1;
  minor = 1;
  status_code = status;
  reason = [];
  fields = [];
  body = [];
}

-- The decimal digits of a number before those in `tail`, on fuel.
unfoldable pub digits_loop : ℕ → ℕ → Bytes → Bytes
digits_loop zero n tail = tail
digits_loop (suc fuel) n tail =
    let more = digits_loop fuel (n / 10) ((b'0' + n % 10) ∷ tail) in
    if ltb n 10 then (b'0' + n) ∷ tail else more

-- `std::to_string`. A number has no more digits than its value, and one.
unfoldable pub to_string : ℕ → Bytes
unfolding digits_loop
to_string n = digits_loop (n + 1) n []

abbrev pub put_header : Bytes → Bytes → Resp → Resp
put_header header value r = record r { fields = put_field header value r.fields }

-- `build`
unfoldable pub build : ErrBuilder → Resp → Resp
unfolding err_status_code err_reason put_field
build e r =
    let r' = record r { status_code = err_status_code e; reason = err_reason e } in
    put_header (codes "Connection") (codes "close")
      (put_header (codes "Content-Length") (codes "0") r')

-- `field.first << ": " << field.second << "\r\n"`
abbrev pub field_lines : Fields → Bytes
field_lines [] = []
field_lines ((name, value) ∷ fs) =
    name ++ (codes ": " ++ (value ++ (codes "\r\n" ++ field_lines fs)))

abbrev pub status_line : Resp → Bytes
status_line r =
    codes "HTTP/"
    ++ (to_string r.major
        ++ (codes "."
            ++ (to_string r.minor
                ++ (codes " " ++ (to_string r.status_code ++ (codes " " ++ r.reason))))))

abbrev pub content_part : Bytes → Bytes
content_part body = if is_empty body then [] else codes "\r\n" ++ body

-- The order of the fields is that of the list.
unfoldable pub to_str : Resp → Bytes
to_str r = status_line r ++ (codes "\r\n" ++ (field_lines r.fields ++ content_part r.body))
