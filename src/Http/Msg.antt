-- ===== src/Http/Msg.antt =====
-- http/include/http/msg.h and http/src/msg.cpp: requests. An enumeration whose values come out of
-- the keyword table by a cast is the number that it holds, which need not be an enumerator's.
use beemo.Common.{ℕ, Bool, true, false, not, ◌&&◌, ◌||◌, List, [], Option, none, some, ℤ}
use beemo.Text.{Bytes, codes}
use beemo.Uri.{Uri}
use beemo.Http.Err.{ErrBuilder}
use beemo.Http.Fields.{Fields}

abbrev pub host_header_token : Bytes
host_header_token = codes "host"

abbrev pub content_length_token : Bytes
content_length_token = codes "content-length"

abbrev pub transfer_encoding_token : Bytes
transfer_encoding_token = codes "transfer-encoding"

abbrev pub content_type_token : Bytes
content_type_token = codes "content-type"

abbrev pub content_encoding_token : Bytes
content_encoding_token = codes "content-encoding"

-- `method_t`
abbrev pub method_invalid : ℕ
method_invalid = 0

abbrev pub get : ℕ
get = 1

abbrev pub post : ℕ
post = 2

-- `media_type_t`, `media_subtype_t`
abbrev pub media_type_invalid : ℕ
media_type_invalid = 0

abbrev pub media_subtype_invalid : ℕ
media_subtype_invalid = 0

-- `encoding_t`
abbrev pub invalid_encoding : ℕ
invalid_encoding = 0

abbrev pub chunked : ℕ
chunked = 1

pub data TargetForm : Type 0 where
  absolute authority asterik origin : TargetForm

pub data ParseState : Type 0 where
  start_line headers content chunk_trailers complete : ParseState

pub record Version : Type 0 where
  pub major : ℤ
  pub minor : ℤ

pub record Req : Type 0 where
  pub target_form : TargetForm
  pub parse_state : ParseState
  pub err : Option ErrBuilder
  pub version : Version
  pub method : ℕ
  pub uri : Uri
  pub fields : Fields
  pub chunked_content_len : ℕ
  pub content_len : ℕ
  pub media_type : ℕ
  pub media_subtype : ℕ
  pub charset : ℕ
  pub content_encodings : List ℕ
  pub transfer_encodings : List ℕ
  pub body : Bytes

-- The members that no constructor sets: they hold what the memory held.
pub record Memory : Type 0 where
  pub target_form : TargetForm
  pub version : Version
  pub method : ℕ
  pub asterik : Bool
  pub port : ℤ
  pub media_type : ℕ
  pub media_subtype : ℕ
  pub charset : ℕ

-- `uri()` and `req()`
abbrev pub init_uri : Memory → Uri
init_uri m = record {
  has_err = false;
  asterik = m.asterik;
  scheme = [];
  userinfo = [];
  future_version = [];
  ipv4 = [];
  ipv6 = [];
  ipvfuture = [];
  reg_name = [];
  port = m.port;
  path = [];
  query = [];
}

abbrev pub init_req : Memory → Req
init_req m = record {
  target_form = m.target_form;
  parse_state = start_line;
  err = none;
  version = m.version;
  method = m.method;
  uri = init_uri m;
  fields = [];
  chunked_content_len = 0;
  content_len = 0;
  media_type = m.media_type;
  media_subtype = m.media_subtype;
  charset = m.charset;
  content_encodings = [];
  transfer_encodings = [];
  body = [];
}

abbrev is_set : Option ErrBuilder → Bool
is_set none = false
is_set (some e) = true

abbrev pub has_err : Req → Bool
has_err r = is_set r.err

abbrev pub in_headers : ParseState → Bool
in_headers headers = true
in_headers _ = false

abbrev pub in_start_line : ParseState → Bool
in_start_line start_line = true
in_start_line _ = false

abbrev pub in_content : ParseState → Bool
in_content content = true
in_content _ = false

abbrev pub is_complete : ParseState → Bool
is_complete complete = true
is_complete _ = false

abbrev pub is_parsing_headers : Req → Bool
is_parsing_headers r = (in_start_line r.parse_state || in_headers r.parse_state) && not (has_err r)

abbrev pub is_parsing_incomplete : Req → Bool
is_parsing_incomplete r = not (is_complete r.parse_state) && not (has_err r)

-- `req->err = &handler`
abbrev pub set_err : Req → ErrBuilder → Req
set_err r e = record r { err = some e }
