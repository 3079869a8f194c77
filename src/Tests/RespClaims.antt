-- ===== src/Tests/RespClaims.antt =====
-- The theorems on responses and routing at concrete inputs.
use beemo.Common.{◌≡◌, [], ◌∷◌, some, none, ok, pos, refl, arith}
use beemo.Text.{Bytes, codes, equal, find_str, stoi}
use beemo.Http.Err.{bad_req_handler, err_reason}
use beemo.Http.Fields.{find_field, put_field}
use beemo.Http.Msg.{get, post}
use beemo.Http.Resp.{init_resp, build, to_str}
use beemo.Http.Routing.{
  ReqId, ReqHandler, Handlers, same_id, find_handler, route_to_resource_handler,
}
use beemo.Http.Served.{route_to_resource_handler-find_handler}
use beemo.Http.OpenEnded.{empty_line, find_str-to_str}
use beemo.Tests.HeaderClaims.{get_req}

abbrev greet : ReqHandler
greet r = (some (codes "hello"), r)

abbrev fault : ReqHandler
fault r = (none, r)

abbrev page : ReqId
page = record { path = codes "/a"; method = get }

abbrev form : ReqId
form = record { path = codes "/a"; method = post }

abbrev table : Handlers
table = (form, fault) ∷ (page, greet) ∷ []

greet_found : find_handler page table ≡ some greet
unfolding find_handler same_id equal
greet_found = refl

route_to_resource_handler-find_handler_example :
    let resp = (route_to_resource_handler 77 table get_req).0 in
    (resp.body ≡ codes "hello")
    × ((value : Bytes) × (find_field (codes "Content-Length") resp.fields ≡ some value)
        × (stoi value ≡ ok (pos 5)))
    × (resp.status_code ≡ 200)
route_to_resource_handler-find_handler_example =
    route_to_resource_handler-find_handler 77 table get_req get_req greet (codes "hello")
      greet_found refl (omega arith)

find_str-to_str_example : find_str empty_line (to_str (build bad_req_handler (init_resp 0))) ≡ none
unfolding build err_reason put_field equal
find_str-to_str_example = find_str-to_str (build bad_req_handler (init_resp 0)) refl refl refl
