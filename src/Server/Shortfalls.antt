-- ===== src/Server/Shortfalls.antt =====
-- http/src/server.cpp: a request on a connection that was reset, and a header section that arrives alone.
use beemo.Common.{
  none, ◌%◌, ℕ, ◌^◌, ◌≤◌, ◌<◌, true, List, [], ◌∷◌, ◌++◌, ok, ◌≡◌, refl, ap, arith, ◌∙◌, ltb, false,
  if-false, length, take,
}
use beemo.Text.{Bytes, find_str, read_digits}
use beemo.Http.Headers.{crlf}
use beemo.Http.Msg.{Req, has_err, set_err, in_start_line, is_parsing_headers, is_parsing_incomplete}
use beemo.Http.Conn.{Conn, prepare_tx, reset_state}
use beemo.Http.Request.{request_line}
use beemo.Http.Request.Read.{host_name}
use beemo.Http.Request.Behind.{behind}
use beemo.Http.Request.Whole.{
  Request, IsRequest, IsFor, target, host, write_request, content_at, read_request,
}
use beemo.Http.Request.Served.{IsGet, parse_content-get}
use beemo.Http.Request.Length.{HasLength, parse_content-with_length}
use beemo.Server.Epoll.{ev_out}
use beemo.Server.Rx.{Env, rx_headers, rx_content, rx_answer, on_rx_conn}
use beemo.Http.Err.{bad_req_handler}
use beemo.Http.Resp.{build}
use beemo.Http.Headers.{parse_headers}
use beemo.Server.Again.{write_req-append}
use beemo.Server.InParts.{with_more, behind_headers, on_rx_conn_behind}
use beemo.Server.Events.{rx_events}
use beemo.Server.Whole.{IsHandled, HoldsRequest, answered, on_rx_conn_complete}

-- A kept connection answers its first request again. Take a connection whose buffer holds a written
-- request as for `rx_events-get`, and any bytes behind it. When it is reset after the response
-- and more bytes arrive, be they the next request or not, fewer than 2 ^ 32 with those before, `on_rx`
-- calls the handler of the first request with that request, and if the handler gives some content
-- and leaves no error, its response is in the buffer again.
pub on_rx_conn-reset_state :
    (env : Env) (c : Conn) (q : Request) (rest more given : Bytes) (r' : Req)
    → IsRequest q
    → IsFor q env.config
    → c.io_rx ≡ write_request q rest
    → length (write_request q (rest ++ more)) < 2 ^ 32
    → IsGet q
    → IsHandled env (read_request q env.memory 0 []) r' given
    → let kept = with_more more (reset_state env.memory env.status c) in
      on_rx_conn env kept ≡ ok (ev_out, answered env kept (content_at q (rest ++ more)) r' given)
on_rx_conn-reset_state env c q rest more given r' h f text short g handled =
    let kept = with_more more (reset_state env.memory env.status c) in
    let whole : kept.io_rx ≡ write_request q (rest ++ more) =
      ap (λ t. t ++ more) text
      ∙ write_req-append (request_line q.method (target q)) ((host_name, host q) ∷ q.fields) rest
          more in
    on_rx_conn_complete env kept q (rest ++ more) 0 [] given r' h
      (record { new = refl; buffer = whole; short = short })
      (parse_content-get q env.fuel (behind (rest ++ more)) env.memory env.config h f g) handled

-- A header section that arrives alone, in one event, with a content length of at most 2, is answered
-- before its content arrives. The request is as for `rx_events-with_length`; its handler gets the
-- bytes of the empty line's own line end as the content, as many as the length says, and if it
-- gives some content and leaves no error, its response is in the buffer.
pub on_rx_conn_alone :
    (env : Env) (c : Conn) (q : Request) (given : Bytes) (r' : Req) (d : ℕ) (ds : Bytes)
    → IsRequest q
    → IsFor q env.config
    → HoldsRequest env c q []
    → HasLength q d ds
    → read_digits 0 (d ∷ ds) ≤ 2
    → IsHandled env
        (read_request q env.memory (read_digits 0 (d ∷ ds)) (take (read_digits 0 (d ∷ ds)) crlf))
        r'
        given
    → on_rx_conn env c ≡ ok (ev_out, answered env c (content_at q []) r' given)
on_rx_conn_alone env c q given r' d ds h f held l small handled =
    let n = read_digits 0 (d ∷ ds) in
    let enough : ltb 2 n ≡ false = ground arith in
    on_rx_conn_complete env c q [] n (take n crlf) given r' h held
      (parse_content-with_length q env.fuel crlf env.memory env.config d ds h f l
        ∙ if-false _ _ _ enough)
      handled

-- The connection with 400 in its buffer, to be closed behind it.
abbrev pub refused : Conn → Conn
refused c = prepare_tx (record c {
  req = set_err c.req bad_req_handler;
  parsed_to_idx = c.parsed_to_idx % 2 ^ 32;
  resp = build bad_req_handler c.resp;
  keep_alive = false;
})

abbrev cut_off : Conn → Conn
cut_off c = record c {
  req = set_err c.req bad_req_handler;
  parsed_to_idx = c.parsed_to_idx % 2 ^ 32;
}

rx_headers_cut :
    (env : Env) (c : Conn)
    → in_start_line c.req.parse_state ≡ true
    → has_err c.req ≡ false
    → find_str crlf c.io_rx ≡ none
    → rx_headers env c ≡ ok (cut_off c)
unfolding rx_headers parse_headers
rx_headers_cut env c state fine cut = rw (state, fine, cut) refl

behind_cut : (env : Env) (c : Conn) → behind_headers env (cut_off c) ≡ ok (ev_out, refused c)
unfolding rx_content rx_answer
behind_cut env c =
    let off : is_parsing_headers (cut_off c).req ≡ false = ground arith in
    let done : is_parsing_incomplete (cut_off c).req ≡ false = ground arith in rw (off, done) refl

on_rx_conn_cut :
    (env : Env) (c : Conn)
    → in_start_line c.req.parse_state ≡ true
    → has_err c.req ≡ false
    → find_str crlf c.io_rx ≡ none
    → on_rx_conn env c ≡ ok (ev_out, refused c)
on_rx_conn_cut env c state fine cut =
    on_rx_conn_behind env c (cut_off c) (rx_headers_cut env c state fine cut) ∙ behind_cut env c

-- A request line that comes in parts is refused. Whatever a connection has received before its
-- first line end, and whatever comes later, `on_rx` does not wait: with its request line still to be
-- read, no error yet, and no line end in the buffer, it answers 400 and is to close the connection.
pub rx_events_cut :
    (env : Env) (c : Conn) (bs : List Bytes)
    → in_start_line c.req.parse_state ≡ true
    → has_err c.req ≡ false
    → find_str crlf c.io_rx ≡ none
    → rx_events env c bs ≡ ok (ev_out, refused c)
unfolding rx_events
rx_events_cut env c [] state fine cut = on_rx_conn_cut env c state fine cut
rx_events_cut env c (b ∷ bs) state fine cut = rw (on_rx_conn_cut env c state fine cut) refl
