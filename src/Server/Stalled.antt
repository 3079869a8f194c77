-- ===== src/Server/Stalled.antt =====
-- linux/ev_epoll.cpp and http/src/server.cpp: a client that closes within its header section.
use beemo.Common.{
  ℕ, suc, ◌&&◌, not, length, ◌%◌, ◌^◌, ◌<◌, true, false, [], ◌∷◌, none, some, append-nil, is_empty,
  ok, ◌≡◌, refl, ap, ◌∙◌, arith,
}
use beemo.Text.{Bytes, find_str_from}
use beemo.Http.Msg.{Req, headers, in_headers, has_err, is_parsing_headers}
use beemo.Http.Headers.{ParseCtx, crlf, header_loop, parse_headers}
use beemo.Http.Resume.{parse_headers_again}
use beemo.Http.Conn.{Conn, closed, do_rx}
use beemo.Server.Epoll.{Epoll, ev_in}
use beemo.Server.Rx.{Env, rx_headers, on_rx_conn}
use beemo.Server.Table.{find, find-insert}
use beemo.Server.World.{WeakPtr, World}
use beemo.Server.Handlers.{handle_in, on_rx, store}
use beemo.Server.Sound.{IsSound, Holds, made_current, reg-Holds, store-IsSound}
use beemo.Server.Settled.{store-Holds}

-- The connection reads its header section, and no line end has arrived behind what is parsed.
pub record IsWithin (c : Conn) : Type 0 where
  pub state : c.req.parse_state ≡ headers
  pub fine : has_err c.req ≡ false
  pub no_line : find_str_from crlf c.io_rx c.parsed_to_idx ≡ none
  pub some_bytes : is_empty c.io_rx ≡ false
  pub small : c.parsed_to_idx < 2 ^ 32

header_loop-none :
    (n : ℕ) (raw : Bytes) (r : Req) (i u : ℕ)
    → in_headers r.parse_state && not (has_err r) ≡ true
    → find_str_from crlf raw i ≡ none
    → header_loop (suc n) raw r i u ≡ ok (r, i)
unfolding header_loop
header_loop-none n raw r i u e f = rw (e, f) refl

rx_headers-IsWithin : (env : Env) (c : Conn) → IsWithin c → rx_headers env c ≡ ok c
unfolding rx_headers
rx_headers-IsWithin env c h =
    let flag : is_parsing_headers c.req ≡ true = rw (h.state, h.fine) refl in
    let index : c.parsed_to_idx % 2 ^ 32 ≡ c.parsed_to_idx = omega (arith, h.small) in
    let ctx : ParseCtx = record { start_idx = c.parsed_to_idx; config = env.config } in
    let parse : parse_headers c.io_rx c.req ctx ≡ ok (c.req, c.parsed_to_idx) =
      parse_headers_again c.io_rx c.req ctx h.state
      ∙ ap (λ n. header_loop n c.io_rx c.req c.parsed_to_idx c.parsed_to_idx)
          {y = suc (length c.io_rx)} (omega arith)
      ∙ header_loop-none (length c.io_rx) c.io_rx c.req c.parsed_to_idx c.parsed_to_idx
          (rw (h.state, h.fine) refl) h.no_line in
    rw (flag, parse, index) refl

module _ {K : Type 0} (ep : Epoll K) (env : Env) where
  -- A client that has sent some of its header section, the last line without its end, and has closed
  -- its side, is never dropped: `handle_in`, on the end of input that `recv` then gives at once,
  -- parses the same bytes again and returns with the connection in the same state, but for its
  -- keep-alive bit, and armed for input, which is ready again. So the loop does not come to rest.
  pub handle_in-IsWithin :
      (p : WeakPtr) (c : Conn) (w : World K)
      → IsSound ep w
      → Holds ep p w
      → IsWithin c
      → let ended : Conn = record c { keep_alive = false } in
        (v : World K) × (handle_in ep env (record { rx = closed ∷ []; tx = [] }) p c w ≡ ok v)
        × IsSound ep v
        × (find p.handle v.conns ≡ some (record { id = p.id; conn = ended }))
        × (ep.armed p.handle v.kernel ≡ true)
        × IsWithin ended
  unfolding handle_in do_rx on_rx on_rx_conn
  handle_in-IsWithin p c w inv held h =
      let ended : Conn = record c { keep_alive = false } in
      let still : IsWithin ended = record {
        state = h.state;
        fine = h.fine;
        no_line = h.no_line;
        some_bytes = h.some_bytes;
        small = h.small;
      } in
      let again = rx_headers-IsWithin env ended still in
      let flag : is_parsing_headers c.req ≡ true = rw (h.state, h.fine) refl in
      let (k, e, eq, sound) =
        reg-Holds ep p ev_in (store p ended w) (store-IsSound ep p w ended inv held)
          (store-Holds ep p ended w held) in
      (
        made_current ep p k (store p ended w),
        rw (append-nil c.io_rx, h.some_bytes, again, flag, eq) refl,
        sound,
        find-insert p.handle (record { id = p.id; conn = ended }) w.conns,
        (ep.mod_sets p.handle ev_in w.kernel k e).1,
        still,
      )
