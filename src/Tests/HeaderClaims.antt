-- ===== src/Tests/HeaderClaims.antt =====
-- The theorems on the request's header section at concrete inputs.
use beemo.Common.{◌≡◌, false, [], ◌∷◌, ◌++◌, ok, pos, refl, Ends}
use beemo.Text.{Bytes, codes, equal, find_char, find_str, find_not, range, substr, stoi}
use beemo.Utils.{lowercase_str}
use beemo.Keyword.{keyword_val, hash, match_word}
use beemo.Http.Config.{default_config}
use beemo.Http.Fields.{put_field, contains}
use beemo.Http.Msg.{Req, Memory, absolute, headers, init_req, content, origin}
use beemo.Http.ReqLine.{parse_req_line}
use beemo.Http.Headers.{ParseCtx, parse_headers}
use beemo.Http.Ends.{parse_headers-Ends}
use beemo.Http.Resume.{parse_headers-resume}
use beemo.Http.More.{read_of}
use beemo.Http.Written.{parse_headers-write_req}
use beemo.Http.WrittenText.{IsField}
use beemo.Uri.Parser.{parse_uri}
use beemo.Uri.Parts.{parse_path}
use beemo.Uri.Chars.{is_pchar}

abbrev pub memory : Memory
memory = record {
  target_form = absolute;
  version = record { major = pos 0; minor = pos 0 };
  method = 0;
  asterik = false;
  port = pos 0;
  media_type = 0;
  media_subtype = 0;
  charset = 0;
}

abbrev pub new_req : Req
new_req = init_req memory

abbrev start : ParseCtx
start = record { start_idx = 0; config = default_config }

abbrev in_headers : Req
in_headers = record new_req { parse_state = headers }

abbrev pub get_req : Req
get_req = record in_headers {
  method = 1;
  version = record { major = pos 1; minor = pos 1 };
  uri = record new_req.uri { path = codes "/a" };
  target_form = origin;
}

get_run : parse_req_line (codes "GET /a HTTP/1.1") 1000 new_req ≡ ok get_req
unfolding parse_req_line find_char substr keyword_val hash match_word range parse_uri find_str
    parse_path is_pchar stoi
get_run = refl

accept_IsField : IsField (codes "Accept") (codes "a: b")
unfolding find_not
accept_IsField = record {
  name_colon = refl;
  name_return = refl;
  value_return = refl;
  value_first = refl;
}

parse_headers-Ends_example : Ends (parse_headers (codes "GET / HTTP/1.1\r\nA: b") new_req start)
parse_headers-Ends_example = parse_headers-Ends (codes "GET / HTTP/1.1\r\nA: b") new_req start

parse_headers-write_req_example :
    parse_headers (codes "GET /a HTTP/1.1\r\nAccept: a: b\r\n\r\nxyz") new_req start
    ≡ ok
        (record get_req { parse_state = content; fields = (codes "accept", codes "a: b") ∷ [] }, 33)
unfolding lowercase_str contains equal put_field
parse_headers-write_req_example =
    parse_headers-write_req (codes "GET /a HTTP/1.1") ((codes "Accept", codes "a: b") ∷ [])
      (codes "xyz") new_req get_req start refl refl get_run refl refl
      (accept_IsField, refl, refl, tt)

abbrev first_part : Bytes
first_part = codes "GET /a HTTP/1.1\r\nAcc"

first_run : parse_headers first_part new_req start ≡ ok (get_req, 17)
unfolding parse_headers find_str range parse_req_line find_char substr keyword_val hash match_word
    parse_uri parse_path is_pchar stoi
first_run = refl

parse_headers-resume_example :
    read_of (
      parse_headers
        (first_part ++ codes "ept: a\r\n\r\n")
        get_req
        (record start { start_idx = 17 }))
    ≡ read_of (parse_headers (first_part ++ codes "ept: a\r\n\r\n") new_req start)
parse_headers-resume_example =
    parse_headers-resume first_part (codes "ept: a\r\n\r\n") new_req get_req 0 17 default_config
      first_run refl refl
