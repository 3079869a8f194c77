-- ===== src/Tests/RequestData.antt =====
-- Two requests, and the handlers registered for them.
use beemo.Common.{[], ◌∷◌, some, refl, arith}
use beemo.Text.{codes, find_str, equal, find_not, read_digits, is_digit}
use beemo.Utils.{lowercase_str}
use beemo.Uri.Grammar.{host_char, pchar, query_char}
use beemo.Uri.Path.{is_path}
use beemo.Keyword.{keyword_val, hash, match_word}
use beemo.Http.Config.{default_config}
use beemo.Http.Fields.{contains}
use beemo.Http.Msg.{get, post}
use beemo.Http.Routing.{ReqId, ReqHandler}
use beemo.Http.WrittenText.{IsField}
use beemo.Http.Request.Host.{IsHost}
use beemo.Http.Request.Whole.{Request, IsRequest, IsFor}
use beemo.Server.Rx.{Env}
use beemo.Tests.HeaderClaims.{memory}

abbrev pub greet : ReqHandler
greet r = (some (codes "hello"), r)

abbrev pub echo : ReqHandler
echo r = (some r.body, r)

abbrev pub page : ReqId
page = record { path = codes "/a"; method = get }

abbrev pub form : ReqId
form = record { path = codes "/a"; method = post }

abbrev pub env : Env
env = record {
  config = default_config;
  handlers = (form, echo) ∷ (page, greet) ∷ [];
  memory = memory;
  status = 0;
  fuel = 100;
}

abbrev pub asked : Request
asked = record {
  method = codes "GET";
  path = codes "a";
  query = codes "?x=1";
  name_first = b'l';
  name_rest = codes "ocalhost";
  port_first = b'9';
  port_rest = codes "000";
  fields = (codes "Accept", codes "b") ∷ [];
}

abbrev pub sent : Request
sent = record asked {
  method = codes "POST";
  query = [];
  fields = (codes "Content-Length", codes "2") ∷ [];
}

pub localhost-IsHost : IsHost b'l' (codes "ocalhost") b'9' (codes "000")
unfolding host_char is_digit read_digits
localhost-IsHost = record { name = refl; digits = refl; fits = omega arith }

pub accept-IsField : IsField (codes "Accept") (codes "b")
unfolding find_not
accept-IsField = record {
  name_colon = refl;
  name_return = refl;
  value_return = refl;
  value_first = refl;
}

pub length-IsField : IsField (codes "Content-Length") (codes "2")
unfolding find_not
length-IsField = record {
  name_colon = refl;
  name_return = refl;
  value_return = refl;
  value_first = refl;
}

pub asked-IsRequest : IsRequest asked
unfolding find_str is_path keyword_val lowercase_str contains equal hash match_word pchar query_char
asked-IsRequest = record {
  method_space = refl;
  method_return = refl;
  method_known = refl;
  path_space = refl;
  path_return = refl;
  path_mark = refl;
  path_double = refl;
  path_good = refl;
  query_good = (refl, refl);
  host_good = localhost-IsHost;
  fields_new = (accept-IsField, refl, refl, tt);
  fields_coding = refl;
  fields_type = refl;
}

pub sent-IsRequest : IsRequest sent
unfolding find_str is_path keyword_val lowercase_str contains equal hash match_word pchar query_char
sent-IsRequest = record {
  method_space = refl;
  method_return = refl;
  method_known = refl;
  path_space = refl;
  path_return = refl;
  path_mark = refl;
  path_double = refl;
  path_good = refl;
  query_good = tt;
  host_good = localhost-IsHost;
  fields_new = (length-IsField, refl, refl, tt);
  fields_coding = refl;
  fields_type = refl;
}

pub asked-IsFor : IsFor asked default_config
unfolding equal read_digits
asked-IsFor = record { port_same = refl; name_same = refl }

pub sent-IsFor : IsFor sent default_config
unfolding equal read_digits
sent-IsFor = record { port_same = refl; name_same = refl }
