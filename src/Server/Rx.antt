-- ===== src/Server/Rx.antt =====
-- http/src/server.cpp: what `on_rx` does with a connection, and the mask that it registers it for.
use beemo.Common.{
  ℕ, ◌%◌, ◌^◌, ◌>>=◌, false, Option, none, some, Result, ok, undefined, if◌then◌else◌,
}
use beemo.Text.{substr_from}
use beemo.Http.Err.{ErrBuilder}
use beemo.Http.Config.{Config}
use beemo.Http.Msg.{Memory, has_err, is_parsing_headers, is_parsing_incomplete}
use beemo.Http.Resp.{build}
use beemo.Http.Headers.{parse_headers}
use beemo.Http.Content.{parse_content}
use beemo.Http.Routing.{Handlers, route_to_resource_handler}
use beemo.Http.Conn.{Conn, prepare_tx}
use beemo.Server.Epoll.{EvMask, ev_in, ev_out}

-- What the handlers take from around them: the configuration, the registered resource handlers,
-- what new objects find in the memory, and the fuel of the decoder's loop.
pub record Env : Type 0 where
  pub config : Config
  pub handlers : Handlers
  pub memory : Memory
  pub status : ℕ
  pub fuel : ℕ

-- The call of `parse_headers`; the index is kept in an `unsigned int`.
unfoldable pub rx_headers : Env → Conn → Result Conn
rx_headers env c =
    if is_parsing_headers c.req
    then (parse_headers c.io_rx c.req (record { start_idx = c.parsed_to_idx; config = env.config })
        >>= λ (r, i). ok (record c { req = r; parsed_to_idx = i % 2 ^ 32 }))
    else ok c

-- The call of `parse_content`, with what the buffer holds from the index on.
unfoldable pub rx_content : Env → Conn → Result Conn
rx_content env c = if has_err c.req then ok c else do
  raw ← substr_from c.io_rx c.parsed_to_idx
  r ← parse_content env.fuel raw c.req env.config
  ok (record c { req = r })

-- From the label `err`; the code goes there only with an error.
abbrev pub rx_err : Option ErrBuilder → Conn → Result (EvMask × Conn)
rx_err none c = undefined
rx_err (some e) c = ok (ev_out, prepare_tx (record c { resp = build e c.resp; keep_alive = false }))

unfoldable pub rx_route : Env → Conn → Result (EvMask × Conn)
rx_route env c =
    let (resp, r) = route_to_resource_handler env.status env.handlers c.req in
    let answered = record c { resp = resp; req = r } in
    if has_err r then rx_err r.err answered else ok (ev_out, prepare_tx answered)

unfoldable pub rx_answer : Env → Conn → Result (EvMask × Conn)
unfolding rx_route
rx_answer env c =
    if is_parsing_incomplete c.req
    then ok (ev_in, c)
    else if has_err c.req
    then rx_err c.req.err c
    else rx_route env c

unfoldable pub on_rx_conn : Env → Conn → Result (EvMask × Conn)
unfolding rx_headers rx_content rx_answer
on_rx_conn env c = rx_headers env c >>= λ c₁.
    if is_parsing_headers c₁.req then ok (ev_in, c₁) else rx_content env c₁ >>= rx_answer env
