-- ===== src/Http/Routing.antt =====
-- http/src/routing.cpp and http/include/http/routing.h.
use beemo.Common.{ℕ, Bool, ◌&&◌, List, [], ◌∷◌, Option, none, some, ◌==◌, if◌then◌else◌, length}
use beemo.Text.{Bytes, codes, equal}
use beemo.Http.Err.{not_found_handler, internal_server_handler}
use beemo.Http.Msg.{Req, get, post, set_err}
use beemo.Http.Resp.{Resp, init_resp, put_header, to_string}

pub record ReqId : Type 0 where
  pub path : Bytes
  pub method : ℕ

-- A handler may change the request, and gives the content, or throws a std::exception.
abbrev pub ReqHandler : Type 0
ReqHandler = Req → Option Bytes × Req

-- `req_to_handler`, a map: one handler for each id.
abbrev pub Handlers : Type 0
Handlers = List (ReqId × ReqHandler)

-- `req_id::operator==`
unfoldable pub same_id : ReqId → ReqId → Bool
unfolding equal
same_id a b = equal a.path b.path && a.method == b.method

unfoldable pub find_handler : ReqId → Handlers → Option ReqHandler
unfolding same_id
find_handler id [] = none
find_handler id ((j, h) ∷ hs) = if same_id j id then some h else find_handler id hs

unfoldable pub register_req_handler : ReqId → ReqHandler → Handlers → Handlers
unfolding same_id
register_req_handler id handler [] = (id, handler) ∷ []
register_req_handler id handler ((j, h) ∷ hs) =
    if same_id j id then (j, handler) ∷ hs else (j, h) ∷ register_req_handler id handler hs

-- The switch has cases for "get" and "post" only.
abbrev set_status : ℕ → Resp → Resp
set_status method r =
    if method == get
    then record r { status_code = 200; reason = codes "OK" }
    else if method == post
    then record r { status_code = 201; reason = codes "Created" }
    else r

-- Behind the handler's call.
abbrev pub answer : ℕ → Option Bytes × Req → Resp × Req
answer status (none, r) = (init_resp status, set_err r internal_server_handler)
answer status (some body, r) = (
  put_header (codes "Content-Length") (to_string (length body))
      (set_status r.method (record (init_resp status) { body = body })),
  r,
)

abbrev route_to : ℕ → Req → Option ReqHandler → Resp × Req
route_to status r none = (init_resp status, set_err r not_found_handler)
route_to status r (some handler) = answer status (handler r)

-- The first argument is the status code that a new response holds before it is set.
unfoldable pub route_to_resource_handler : ℕ → Handlers → Req → Resp × Req
unfolding find_handler
route_to_resource_handler status handlers r =
    route_to status r (find_handler (record { path = r.uri.path; method = r.method }) handlers)
