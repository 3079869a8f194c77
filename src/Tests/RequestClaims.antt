-- ===== src/Tests/RequestClaims.antt =====
-- Whole requests, answered by registered handlers.
use beemo.Common.{ℕ, ◌-◌, ◌+◌, ◌≤◌, List, [], ◌∷◌, ◌++◌, ok, ◌≡◌, refl, inl, arith}
use beemo.Text.{Bytes, codes, find_str, equal, read_digits, is_digit}
use beemo.Utils.{lowercase_str}
use beemo.Keyword.{keyword_val, hash, match_word}
use beemo.Http.Fields.{find_field, put_field}
use beemo.Http.Msg.{Req}
use beemo.Http.Routing.{find_handler, same_id}
use beemo.Http.Conn.{Conn, Tx, complete, do_tx, prepare_tx_bytes, reset_state}
use beemo.Http.Resp.{to_str, to_string}
use beemo.Server.Replies.{ok_text, rx_events_reply}
use beemo.Http.Received.{joined}
use beemo.Http.Request.Whole.{write_request, content_at, read_headers, read_request}
use beemo.Server.Epoll.{ev_out}
use beemo.Server.Rx.{rx_headers, on_rx_conn}
use beemo.Server.World.{init_conn}
use beemo.Server.InParts.{with_more}
use beemo.Server.Events.{rx_events, IsReading, rx_events-joined}
use beemo.Server.Whole.{IsHandled, answered, rx_headers-write_request}
use beemo.Server.Requests.{Arrives, rx_events-get, rx_events-with_length}
use beemo.Server.Shortfalls.{on_rx_conn-reset_state, on_rx_conn_alone, refused, rx_events_cut}
use beemo.Http.Request.Length.{HasLength}
use beemo.Http.Request.Served.{IsGet}
use beemo.Tests.HeaderClaims.{memory}
use beemo.Tests.RequestData.{
  greet, echo, env, asked, sent, asked-IsRequest, sent-IsRequest, asked-IsFor, sent-IsFor,
}

-- The request comes in three events, cut within its fields.
abbrev first_part : Bytes
first_part = codes "GET /a?x=1 HTTP/1.1\r\nHo"

abbrev parts : List Bytes
parts = codes "st: localhost:9000\r\nAcc" ∷ codes "ept: b\r\n\r\n" ∷ []

abbrev starting : Conn
starting = record (init_conn env) { io_rx = first_part }

asked-Arrives : Arrives env starting asked [] parts
unfolding find_str
asked-Arrives = record {
  new = refl;
  index = omega arith;
  line = (19, refl);
  text = refl;
  short = omega arith;
  ends = (omega arith, (omega arith, tt));
}

greet-IsHandled :
    IsHandled env (read_request asked memory 0 []) (read_request asked memory 0 []) (codes "hello")
unfolding find_handler same_id equal keyword_val hash match_word
greet-IsHandled = record { handler = greet; found = refl; given = refl; fine = refl }

asked-IsGet : IsGet asked
unfolding keyword_val hash match_word lowercase_str equal
asked-IsGet = record { method = refl; no_length = refl; no_transfer = refl }

rx_events-get_example :
    rx_events env starting parts
    ≡ ok (
      ev_out,
      answered env
          (with_more (joined parts) starting)
          (content_at asked [])
          (read_request asked memory 0 [])
          (codes "hello"),
    )
rx_events-get_example =
    rx_events-get env starting asked [] (codes "hello") parts (read_request asked memory 0 [])
      asked-IsRequest asked-IsFor asked-Arrives asked-IsGet greet-IsHandled

-- The answer is sent in two pieces.
abbrev replying : Conn
replying =
    answered env (with_more (joined parts) starting) (content_at asked [])
      (read_request asked memory 0 []) (codes "hello")

abbrev to_send : ℕ
to_send = replying.io_tx.bytes_to_tx

abbrev replied : Conn
replied = record replying { io_tx = record replying.io_tx { bytes_tx = 10 + (to_send - 10) } }

replied_run :
    do_tx (Tx.sent 10 ∷ Tx.sent (to_send - 10) ∷ []) replying
    ≡ ok (complete, replied, ok_text (codes "hello"))
unfolding do_tx prepare_tx_bytes to_str to_string put_field keyword_val hash match_word
replied_run = refl

rx_events_reply_example :
    (rx_events env starting parts ≡ ok (ev_out, replying))
    × (ok_text (codes "hello") ≡ ok_text (codes "hello"))
rx_events_reply_example =
    rx_events_reply env starting replied asked [] (codes "hello") (ok_text (codes "hello")) parts
      (Tx.sent 10 ∷ Tx.sent (to_send - 10) ∷ []) (read_request asked memory 0 []) asked-IsRequest
      asked-IsFor asked-Arrives asked-IsGet greet-IsHandled asked-IsGet.method refl (omega arith)
      replied_run

-- The content comes in two events, the first with the end of the header section, and the last with
-- a byte too many.
abbrev form_part : Bytes
form_part = codes "POST /a HTTP/1.1\r\n"

abbrev form_rest : List Bytes
form_rest = codes "Host: localhost:9000\r\nContent-Length: 2\r\n\r\nh" ∷ []

abbrev form_more : List Bytes
form_more = codes "i!" ∷ []

abbrev form_start : Conn
form_start = record (init_conn env) { io_rx = form_part }

sent-Arrives : Arrives env form_start sent (codes "h") form_rest
unfolding find_str
sent-Arrives = record {
  new = refl;
  index = omega arith;
  line = (16, refl);
  text = refl;
  short = omega arith;
  ends = (omega arith, tt);
}

abbrev posted : Bytes → Req
posted content = read_request sent memory 2 content

echo-IsHandled : (content : Bytes) → IsHandled env (posted content) (posted content) content
unfolding find_handler same_id equal keyword_val hash match_word
echo-IsHandled content = record { handler = echo; found = refl; given = refl; fine = refl }

sent-HasLength : HasLength sent b'2' []
unfolding find_field put_field lowercase_str equal is_digit read_digits
sent-HasLength = record { given = refl; digits = refl; small = omega arith; no_transfer = refl }

two_small : read_digits 0 (codes "2") ≤ 2
unfolding read_digits
two_small = omega arith

rx_events-with_length_example :
    rx_events env form_start (form_rest ++ form_more)
    ≡ ok (
      ev_out,
      answered env
          (with_more (joined form_more) (with_more (joined form_rest) form_start))
          (content_at sent (codes "h"))
          (posted (codes "hi"))
          (codes "hi"),
    )
unfolding read_digits
rx_events-with_length_example =
    rx_events-with_length env form_start sent b'h' [] (codes "hi") form_rest form_more
      (posted (codes "hi")) b'2' [] sent-IsRequest sent-IsFor sent-HasLength sent-Arrives
      (omega arith, tt) (omega arith) (echo-IsHandled (codes "hi"))

-- The first request is answered again when the second has come.
abbrev kept : Conn
kept = record (init_conn env) { io_rx = write_request asked [] }

abbrev second : Bytes
second = codes "GET /b HTTP/1.1\r\nHost: localhost:9000\r\n\r\n"

on_rx_conn-reset_state_example :
    let again = with_more second (reset_state memory 0 kept) in
    on_rx_conn env again
    ≡ ok (
      ev_out,
      answered env again (content_at asked second) (read_request asked memory 0 []) (codes "hello"),
    )
on_rx_conn-reset_state_example =
    on_rx_conn-reset_state env kept asked [] second (codes "hello") (read_request asked memory 0 [])
      asked-IsRequest asked-IsFor refl (omega arith) asked-IsGet greet-IsHandled

abbrev alone : Conn
alone = record (init_conn env) { io_rx = write_request sent [] }

-- The handler gets a line end in place of the content.
on_rx_conn_alone_example :
    on_rx_conn env alone
    ≡ ok (ev_out, answered env alone (content_at sent []) (posted (codes "\r\n")) (codes "\r\n"))
unfolding read_digits
on_rx_conn_alone_example =
    on_rx_conn_alone env alone sent (codes "\r\n") (posted (codes "\r\n")) b'2' [] sent-IsRequest
      sent-IsFor (record { new = refl; buffer = refl; short = omega arith }) sent-HasLength
      two_small (echo-IsHandled (codes "\r\n"))

-- The line end of the request line is not there yet.
abbrev cut : Conn
cut = record (init_conn env) { io_rx = codes "GET /a HT" }

rx_events_cut_example : rx_events env cut (codes "TP/1.1\r\n" ∷ []) ≡ ok (ev_out, refused cut)
unfolding find_str
rx_events_cut_example = rx_events_cut env cut (codes "TP/1.1\r\n" ∷ []) refl refl refl

abbrev parsed : Conn
parsed = record (with_more (joined parts) starting) {
  req = read_headers asked memory;
  parsed_to_idx = content_at asked [];
}

parsed_lem : rx_headers env (with_more (joined parts) starting) ≡ ok parsed
parsed_lem =
    rx_headers-write_request env (with_more (joined parts) starting) asked [] asked-IsRequest
      (record { new = refl; buffer = refl; short = omega arith })

starting-IsReading : IsReading starting
unfolding find_str
starting-IsReading = record { fine = refl; line = inl (refl, (19, refl)); index = omega arith }

rx_events-joined_example :
    rx_events env starting parts ≡ on_rx_conn env (with_more (joined parts) starting)
rx_events-joined_example =
    rx_events-joined env starting parsed parts starting-IsReading (omega arith) parsed_lem refl
      (omega arith, (omega arith, tt))
