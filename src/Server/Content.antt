-- ===== src/Server/Content.antt =====
-- http/src/server.cpp: `on_rx` on a request whose content comes in any number of events.
use beemo.Common.{
  ℕ, ◌≤◌, ◌<◌, true, false, List, [], ◌∷◌, ◌++◌, ok, ◌≡◌, refl, ap, ◌∙◌, sym, arith, ◌>>=◌, ltb,
  leb, leb→le, if-true, if-false, Bool-cases, inl, inr, length, take, take_all, drop, append-nil,
  append_assoc, length-append, length-drop,
}
use beemo.Text.{Bytes, substr, substr_from, read_digits}
use beemo.Http.Msg.{Req, has_err, is_parsing_headers}
use beemo.Http.Content.{parse_content}
use beemo.Http.Conn.{Conn}
use beemo.Http.More.{drop-append}
use beemo.Http.Received.{joined}
use beemo.Http.Written.{substr_in}
use beemo.Http.Request.{request_line}
use beemo.Http.Request.Behind.{substr_from-content_index}
use beemo.Http.Request.Read.{host_name}
use beemo.Http.Request.Whole.{Request, IsRequest, IsFor, host, target, content_at, read_request}
use beemo.Http.Request.Served.{as_read}
use beemo.Http.Request.Length.{HasLength, parse_content-with_length, parse_content-again}
use beemo.Server.Epoll.{ev_in, ev_out}
use beemo.Server.Rx.{Env, rx_headers, rx_content, rx_answer, rx_route, on_rx_conn}
use beemo.Server.InParts.{with_more, on_rx_conn_behind}
use beemo.Server.Events.{rx_events, EndsBefore, with_more-joined}
use beemo.Server.Whole.{
  IsHandled, HoldsRequest, answered, rx_headers-write_request, rx_route-IsHandled,
}

-- What lies behind an index, with more input.
substr_from-append :
    (s more : Bytes) (i : ℕ) {t : Bytes}
    → substr_from s i ≡ ok t
    → substr_from (s ++ more) i ≡ ok (t ++ more)
unfolding substr
substr_from-append s more i {t} e = elim (Bool-cases (leb i (length s))) [
  | inr b ↦ let e' = rw b at e in absurd cc
  | inl b ↦
      let le = leb→le i (length s) b in
      let all = take_all (length s) (drop i s) (omega (arith, length-drop i s)) in
      let here : drop i s ≡ t = let e' = rw (b, all) at e in cc in
      substr_in (s ++ more) i (length (s ++ more)) (omega (arith, le, length-append s more))
      ∙ ap ok (
          take_all (length (s ++ more)) (drop i (s ++ more))
            (omega (arith, length-drop i (s ++ more)))
          ∙ drop-append i s more le
          ∙ ap (λ x. x ++ more) here)
]

module _ (env : Env) (q : Request) (d : ℕ) (ds : Bytes) where
  abbrev pub size : ℕ
  size = read_digits 0 (d ∷ ds)

  -- The connection has read the header section, and has the first bytes of the content.
  pub record HasPart (c : Conn) (got : Bytes) : Type 0 where
    pub read : c.req ≡ as_read q env.memory size
    pub buffer : substr_from c.io_rx c.parsed_to_idx ≡ ok got

  pub content_buffer :
      (c : Conn) (b : ℕ) (rest : Bytes)
      → HoldsRequest env c q (b ∷ rest)
      → substr_from c.io_rx (content_at q (b ∷ rest)) ≡ ok (b ∷ rest)
  content_buffer c b rest held = rw held.buffer (
      substr_from-content_index (request_line q.method (target q)) ((host_name, host q) ∷ q.fields)
        (b ∷ rest))

  -- The first event with some of the content, which is not all of it.
  pub on_rx_conn_part :
      (c : Conn) (b : ℕ) (rest : Bytes)
      → IsRequest q
      → IsFor q env.config
      → HasLength q d ds
      → HoldsRequest env c q (b ∷ rest)
      → length (b ∷ rest) < size
      → on_rx_conn env c
        ≡ ok (
          ev_in,
          record c { req = as_read q env.memory size; parsed_to_idx = content_at q (b ∷ rest) },
        )
  unfolding on_rx_conn rx_content rx_answer
  on_rx_conn_part c b rest h f l held short =
      let from = content_buffer c b rest held in
      let less : ltb (length (b ∷ rest)) size ≡ true = ground arith in
      let parsed =
        parse_content-with_length q env.fuel (b ∷ rest) env.memory env.config d ds h f l
        ∙ if-true _ _ _ less in
      rw (rx_headers-write_request env c q (b ∷ rest) h held, from, parsed) refl

  rx_headers_off : (c : Conn) → is_parsing_headers c.req ≡ false → rx_headers env c ≡ ok c
  unfolding rx_headers
  rx_headers_off c off = rw off refl

  rx_content_read :
      (c : Conn) (raw : Bytes) (r : Req)
      → has_err c.req ≡ false
      → substr_from c.io_rx c.parsed_to_idx ≡ ok raw
      → parse_content env.fuel raw c.req env.config ≡ ok r
      → rx_content env c ≡ ok (record c { req = r })
  unfolding rx_content
  rx_content_read c raw r fine from parsed = rw (fine, from, parsed) refl

  -- The rest of the call, where the header section has been read before.
  on_rx_conn_again :
      (c : Conn) (got : Bytes) (r : Req)
      → HasPart c got
      → parse_content env.fuel got (as_read q env.memory size) env.config ≡ ok r
      → on_rx_conn env c ≡ rx_answer env (record c { req = r })
  on_rx_conn_again c got r part parsed =
      let off : is_parsing_headers c.req ≡ false = rw part.read refl in
      let fine : has_err c.req ≡ false = rw part.read refl in
      let parsed' = ap (λ x. parse_content env.fuel got x env.config) part.read ∙ parsed in
      let read = rx_content_read c got r fine part.buffer parsed' in
      on_rx_conn_behind env c c (rx_headers_off c off)
      ∙ if-false _ _ _ off
      ∙ ap (λ m. m >>= rx_answer env) read

  rx_answer-as_read :
      (c : Conn)
      → rx_answer env (record c { req = as_read q env.memory size })
        ≡ ok (ev_in, record c { req = as_read q env.memory size })
  unfolding rx_answer
  rx_answer-as_read c = refl

  rx_answer-read_request :
      (c : Conn) (content : Bytes)
      → rx_answer env (record c { req = read_request q env.memory size content })
        ≡ rx_route env (record c { req = read_request q env.memory size content })
  unfolding rx_answer
  rx_answer-read_request c content = refl

  -- A later event, with which the content is still not all there, or is.
  on_rx_conn_waits :
      (c : Conn) (got : Bytes)
      → IsRequest q
      → IsFor q env.config
      → HasLength q d ds
      → HasPart c got
      → length got < size
      → on_rx_conn env c ≡ ok (ev_in, c)
  on_rx_conn_waits c got h f l part short =
      let less : ltb (length got) size ≡ true = ground arith in
      on_rx_conn_again c got (as_read q env.memory size) part
        (parse_content-again q env.fuel got env.memory env.config d ds h f l ∙ if-true _ _ _ less)
      ∙ rx_answer-as_read c
      ∙ ap {A = Req} (λ r. ok (ev_in, record c { req = r })) (sym part.read)

  on_rx_conn_has :
      (c : Conn) (got given : Bytes) (r' : Req)
      → IsRequest q
      → IsFor q env.config
      → HasLength q d ds
      → HasPart c got
      → size ≤ length got
      → IsHandled env (read_request q env.memory size (take size got)) r' given
      → on_rx_conn env c ≡ ok (ev_out, answered env c c.parsed_to_idx r' given)
  on_rx_conn_has c got given r' h f l part there handled =
      let enough : ltb (length got) size ≡ false = ground arith in
      on_rx_conn_again c got (read_request q env.memory size (take size got)) part (
        parse_content-again q env.fuel got env.memory env.config d ds h f l ∙ if-false _ _ _ enough)
      ∙ rx_answer-read_request c (take size got)
      ∙ rx_route-IsHandled env c _ r' c.parsed_to_idx given handled

  pub HasPart-with_more :
      (c : Conn) (got b : Bytes) → HasPart c got → HasPart (with_more b c) (got ++ b)
  HasPart-with_more c got b part = record {
    read = part.read;
    buffer = substr_from-append c.io_rx b c.parsed_to_idx part.buffer;
  }

  -- The rest of the content, in any number of events.
  pub rx_events_content :
      (c : Conn) (got given : Bytes) (bs : List Bytes) (r' : Req)
      → IsRequest q
      → IsFor q env.config
      → HasLength q d ds
      → HasPart c got
      → EndsBefore size (length got) bs
      → size ≤ length (got ++ joined bs)
      → IsHandled env (read_request q env.memory size (take size (got ++ joined bs))) r' given
      → rx_events env c bs
        ≡ ok (ev_out, answered env (with_more (joined bs) c) c.parsed_to_idx r' given)
  unfolding rx_events
  rx_events_content c got given [] r' h f l part ends there handled =
      let same = append-nil got in
      on_rx_conn_has c got given r' h f l part (rw same at there) (rw same at handled)
      ∙ ap (λ t. ok (ev_out, answered env (record c { io_rx = t }) c.parsed_to_idx r' given))
          (sym (append-nil c.io_rx))
  rx_events_content c got given (b ∷ bs) r' h f l part (short, ends) there handled =
      let same = append_assoc got b (joined bs) in
      rw (on_rx_conn_waits c got h f l part short) (
        rx_events_content (with_more b c) (got ++ b) given bs r' h f l
          (HasPart-with_more c got b part) (rw (length-append got b) ends) (rw same there)
          (rw same handled)
        ∙ ap (λ x. ok (ev_out, answered env x c.parsed_to_idx r' given)) (with_more-joined c b bs))
