-- ===== src/Server/Replies.antt =====
-- http/src/server.cpp, http/src/msg.cpp and http/src/conn.cpp: the bytes that a client gets for a
-- request.
use beemo.Common.{
  ℕ, ◌^◌, ◌<◌, true, List, [], ◌∷◌, ◌++◌, some, ok, ◌≡◌, refl, ◌∙◌, arith, append_assoc, all-append,
  length-append, not, ◌/◌, ◌%◌, ◌+◌, ◌≤◌, zero, suc, ◌==◌, length,
}
use beemo.Text.{Bytes, codes, lacks}
use beemo.Http.Fields.{put_field}
use beemo.Http.Msg.{Req, get}
use beemo.Http.OpenEnded.{lacks-to_string}
use beemo.Http.Resp.{digits_loop, to_str, to_string, content_part}
use beemo.Http.Routing.{answer}
use beemo.Http.Conn.{Conn, Tx, complete, do_tx}
use beemo.Http.Received.{joined, do_tx-prepare_tx_bytes}
use beemo.Http.Request.Whole.{Request, IsRequest, IsFor, content_at, read_request}
use beemo.Http.Request.Served.{IsGet}
use beemo.Server.Epoll.{ev_out}
use beemo.Server.Rx.{Env}
use beemo.Server.InParts.{with_more}
use beemo.Server.Events.{rx_events}
use beemo.Server.Requests.{Arrives, rx_events-get}
use beemo.Server.Whole.{IsHandled, answered}

-- What follows the header fields: an empty line and the content, or nothing for an empty content.
abbrev pub behind_line : Bytes → Bytes
behind_line [] = []
behind_line (c ∷ cs) = codes "\r\n" ++ (c ∷ cs)

-- The text of the answer to a "get".
abbrev pub ok_text : Bytes → Bytes
ok_text body =
    codes "HTTP/1.1 200 OK\r\nContent-Length: "
    ++ (to_string (length body) ++ (codes "\r\n" ++ behind_line body))

content_part-behind_line : (body : Bytes) → content_part body ≡ behind_line body
content_part-behind_line [] = refl
content_part-behind_line (c ∷ cs) = refl

to_str-answer :
    (status : ℕ) (r : Req) (body : Bytes)
    → r.method ≡ get
    → to_str (answer status (some body, r)).0 ≡ ok_text body
unfolding to_str to_string put_field
to_str-answer status r body h =
    let is_get : (r.method == get) ≡ true = ground (arith, h) in
    let flat = append_assoc (to_string (length body)) (codes "\r\n") (content_part body) in
    rw (is_get, flat, content_part-behind_line body) refl

behind_line-lacks : (body : Bytes) → lacks 0 body ≡ true → lacks 0 (behind_line body) ≡ true
behind_line-lacks [] h = refl
behind_line-lacks (c ∷ cs) h = h

ok_text-lacks : (body : Bytes) → lacks 0 body ≡ true → lacks 0 (ok_text body) ≡ true
ok_text-lacks body h =
    all-append (λ x. not (x == 0)) (to_string (length body)) (codes "\r\n" ++ behind_line body)
    ∙ rw (lacks-to_string 0 (length body) (omega arith), behind_line-lacks body h) refl

length-digits_loop :
    (fuel n : ℕ) (tail : Bytes) → length (digits_loop fuel n tail) ≤ fuel + length tail
unfolding digits_loop
length-digits_loop zero n tail = omega arith
length-digits_loop (suc fuel) n tail =
    ground (arith, length-digits_loop fuel (n / 10) ((b'0' + n % 10) ∷ tail))

length-to_string : (n : ℕ) → length (to_string n) ≤ n + 1
unfolding to_string
length-to_string n = omega (arith, length-digits_loop (n + 1) n [])

length-behind_line : (body : Bytes) → length (behind_line body) ≤ length body + 2
length-behind_line [] = omega arith
length-behind_line (c ∷ cs) = omega arith

length-ok_text : (body : Bytes) → length body < 2 ^ 30 → length (ok_text body) < 2 ^ 32
length-ok_text body h = omega (
  arith,
  length-append (to_string (length body)) (codes "\r\n" ++ behind_line body),
  length-to_string (length body),
  length-behind_line body,
)

-- The bytes of a request bring the bytes of its answer. Take a connection and events as for
-- `rx_events-get`, with a handler that leaves the method "get" in the request. When the calls of
-- `send` then take what is in the buffer to the end, be it in several pieces, they take exactly a
-- status line with 200, the Content-Length of what the handler gave, and behind an empty line, unless
-- it is empty, what the handler gave, if that has no zero byte and fewer than 2 ^ 30 bytes.
pub rx_events_reply :
    (env : Env) (c d : Conn) (q : Request) (rest given out : Bytes) (bs : List Bytes) (ts : List Tx)
    (r' : Req)
    → IsRequest q
    → IsFor q env.config
    → Arrives env c q rest bs
    → IsGet q
    → IsHandled env (read_request q env.memory 0 []) r' given
    → r'.method ≡ get
    → lacks 0 given ≡ true
    → length given < 2 ^ 30
    → do_tx ts (answered env (with_more (joined bs) c) (content_at q rest) r' given)
      ≡ ok (complete, d, out)
    → (rx_events env c bs
        ≡ ok (ev_out, answered env (with_more (joined bs) c) (content_at q rest) r' given))
      × (out ≡ ok_text given)
rx_events_reply env c d q rest given out bs ts r' h f a g handled still free short all_sent =
    let text = to_str-answer env.status r' given still in
    let resp = (answer env.status (some given, r')).0 in
    let before : Conn = record (with_more (joined bs) c) {
      resp = resp;
      req = r';
      parsed_to_idx = content_at q rest;
    } in
    let sent_text =
      do_tx-prepare_tx_bytes (to_str resp) ts before d out (rw text (ok_text-lacks given free))
        (rw text (length-ok_text given short)) all_sent in
    (rx_events-get env c q rest given bs r' h f a g handled, sent_text ∙ text)
