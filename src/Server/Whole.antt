-- ===== src/Server/Whole.antt =====
-- http/src/server.cpp: `on_rx` on a whole request for this server.
use beemo.Common.{ℕ, ◌%◌, ◌^◌, ◌<◌, true, false, ◌∷◌, some, ok, ◌≡◌, refl, arith, if-false, length}
use beemo.Text.{Bytes, substr_from}
use beemo.Http.Headers.{ParseCtx}
use beemo.Http.Msg.{Req, has_err, init_req, is_parsing_headers, is_parsing_incomplete}
use beemo.Http.Headers.{parse_headers}
use beemo.Http.Content.{parse_content}
use beemo.Http.Conn.{Conn, prepare_tx}
use beemo.Http.Routing.{ReqHandler, answer, find_handler, route_to_resource_handler}
use beemo.Http.Request.{request_line}
use beemo.Http.Request.Behind.{behind, content_index_bound, substr_from-content_index}
use beemo.Http.Request.Whole.{
  Request, IsRequest, target, host, write_request, content_at, read_headers, read_request,
  parse_headers-write_request,
}
use beemo.Http.Request.Read.{host_name}
use beemo.Server.Epoll.{ev_out}
use beemo.Server.Rx.{Env, rx_headers, rx_content, rx_route, rx_answer, on_rx_conn}

-- A request that is complete, with a handler that is registered for it and gives some content.
pub record IsHandled (env : Env) (r r' : Req) (body : Bytes) : Type 0 where
  pub handler : ReqHandler
  pub found :
      find_handler (record { path = r.uri.path; method = r.method }) env.handlers ≡ some handler
  pub given : handler r ≡ (some body, r')
  pub fine : has_err r' ≡ false

-- The connection with the handler's answer in its buffer.
abbrev pub answered : Env → Conn → ℕ → Req → Bytes → Conn
answered env c i r body =
    prepare_tx
      (record c { resp = (answer env.status (some body, r)).0; req = r; parsed_to_idx = i })

pub rx_route-IsHandled :
    (env : Env) (c : Conn) (r r' : Req) (i : ℕ) (body : Bytes)
    → IsHandled env r r' body
    → rx_route env (record c { req = r; parsed_to_idx = i }) ≡ ok (ev_out, answered env c i r' body)
unfolding rx_route route_to_resource_handler
rx_route-IsHandled env c r r' i body h = rw (h.found, h.given) (if-false _ _ _ h.fine)

module _ (env : Env) (c : Conn) (q : Request) (rest : Bytes) where
  -- The connection is new, or was reset, and its buffer holds the request and what follows it.
  pub record HoldsRequest : Type 0 where
    pub new : c.req ≡ init_req env.memory
    pub buffer : c.io_rx ≡ write_request q rest
    pub short : length (write_request q rest) < 2 ^ 32

  pub rx_headers-write_request :
      IsRequest q
      → HoldsRequest
      → rx_headers env c
        ≡ ok (record c { req = read_headers q env.memory; parsed_to_idx = content_at q rest })
  unfolding rx_headers
  rx_headers-write_request h b =
      let bound =
        content_index_bound (request_line q.method (target q)) ((host_name, host q) ∷ q.fields)
          rest in
      let small : content_at q rest % 2 ^ 32 ≡ content_at q rest =
        let short = b.short in omega arith in
      let ctx : ParseCtx = record { start_idx = c.parsed_to_idx; config = env.config } in
      let flag : is_parsing_headers c.req ≡ true = rw b.new refl in
      let parse : parse_headers c.io_rx c.req ctx
          ≡ ok (read_headers q env.memory, content_at q rest) =
        rw (b.buffer, b.new) (parse_headers-write_request q rest env.memory ctx h) in
      rw (flag, parse, small) refl

  -- A request that is read to its end is answered.
  pub on_rx_conn_done :
      (r r' : Req) (given : Bytes)
      → IsRequest q
      → HoldsRequest
      → parse_content env.fuel (behind rest) (read_headers q env.memory) env.config ≡ ok r
      → is_parsing_incomplete r ≡ false
      → has_err r ≡ false
      → IsHandled env r r' given
      → on_rx_conn env c ≡ ok (ev_out, answered env c (content_at q rest) r' given)
  unfolding on_rx_conn rx_content rx_answer
  on_rx_conn_done r r' given h b parsed done fine handled =
      let from : substr_from c.io_rx (content_at q rest) ≡ ok (behind rest) = rw b.buffer (
        substr_from-content_index (request_line q.method (target q))
          ((host_name, host q) ∷ q.fields) rest) in
      rw (rx_headers-write_request h b, from, parsed, done, fine)
        (rx_route-IsHandled env c r r' (content_at q rest) given handled)

  pub on_rx_conn_complete :
      (n : ℕ) (body given : Bytes) (r' : Req)
      → IsRequest q
      → HoldsRequest
      → parse_content env.fuel (behind rest) (read_headers q env.memory) env.config
        ≡ ok (read_request q env.memory n body)
      → IsHandled env (read_request q env.memory n body) r' given
      → on_rx_conn env c ≡ ok (ev_out, answered env c (content_at q rest) r' given)
  on_rx_conn_complete n body given r' h b parsed handled =
      on_rx_conn_done (read_request q env.memory n body) r' given h b parsed refl refl handled
