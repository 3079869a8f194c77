-- ===== src/Server/Requests.antt =====
-- http/src/server.cpp: a request, with content or without, from its first event to its answer.
use beemo.Common.{
  ℕ, ◌^◌, ◌≤◌, ◌<◌, List, [], ◌∷◌, ◌++◌, some, ok, ◌≡◌, refl, ap, sym, arith, ◌∙◌, ltb, false,
  if-false, append-nil, append_assoc, length-append, >>=-eq-ok, inl, length, take,
}
use beemo.Text.{Bytes, find_str, read_digits}
use beemo.Http.Headers.{crlf}
use beemo.Http.Msg.{Req, init_req}
use beemo.Http.Conn.{Conn}
use beemo.Http.Request.Behind.{behind}
use beemo.Http.Request.Whole.{
  Request, IsRequest, IsFor, write_request, content_at, read_headers, read_request,
}
use beemo.Http.Request.Served.{as_read, IsGet, parse_content-get}
use beemo.Http.Request.Length.{HasLength, parse_content-with_length}
use beemo.Server.Epoll.{EvMask, ev_in, ev_out}
use beemo.Server.Rx.{Env, on_rx_conn}
use beemo.Http.Received.{joined}
use beemo.Server.InParts.{with_more}
use beemo.Server.Content.{
  HasPart, HasPart-with_more, content_buffer, on_rx_conn_part, rx_events_content,
}
use beemo.Server.Events.{rx_events, IsReading, EndsBefore, rx_events-joined}
use beemo.Server.Whole.{
  IsHandled, HoldsRequest, answered, rx_headers-write_request, on_rx_conn_complete,
}

module _ (env : Env) (c : Conn) (q : Request) (rest : Bytes) (bs : List Bytes) where
  -- The connection is new, or was reset. It has the request line with its line end, and gets the rest
  -- of the request, and what follows it, in events of which all but the last end before the content.
  pub record Arrives : Type 0 where
    pub new : c.req ≡ init_req env.memory
    pub index : c.parsed_to_idx ≤ length c.io_rx
    pub line : (j : ℕ) × (find_str crlf c.io_rx ≡ some j)
    pub text : c.io_rx ++ joined bs ≡ write_request q rest
    pub short : length (write_request q rest) < 2 ^ 32
    pub ends : EndsBefore (content_at q rest) (length c.io_rx) bs

  pub Arrives-HoldsRequest : Arrives → HoldsRequest env (with_more (joined bs) c) q rest
  Arrives-HoldsRequest a = record { new = a.new; buffer = a.text; short = a.short }

  Arrives-IsReading : Arrives → IsReading c
  Arrives-IsReading a = record {
    fine = rw a.new refl;
    line = inl (rw a.new refl, a.line);
    index = a.index;
  }

  -- The events do what one event does.
  pub rx_events-Arrives :
      IsRequest q → Arrives → rx_events env c bs ≡ on_rx_conn env (with_more (joined bs) c)
  rx_events-Arrives h a =
      let whole = with_more (joined bs) c in
      rx_events-joined env c
        (record whole { req = read_headers q env.memory; parsed_to_idx = content_at q rest }) bs
        (Arrives-IsReading a) (rw a.text a.short)
        (rx_headers-write_request env whole q rest h (Arrives-HoldsRequest a)) refl a.ends

-- A request is answered. Take a connection that is new, or was reset, and that gets a written
-- request, of fewer than 2 ^ 32 bytes with what follows it, in any number of events: the first brings
-- at least the request line, and all but the last end before the index at which the content of the
-- whole is read. The request has a method that is read as "get", a well-formed path, a query or none,
-- a host field first with the server's address or name and its port, and other fields with new
-- names, none of them for a length, a coding or a content type. If a handler is registered for the
-- path and method, and gives some content and leaves no error when it is called with the request
-- that the header section says, then `on_rx` waits at each event but the last, and returns at the
-- last with the mask for output, and with the handler's response in the buffer for sending.
pub rx_events-get :
    (env : Env) (c : Conn) (q : Request) (rest given : Bytes) (bs : List Bytes) (r' : Req)
    → IsRequest q
    → IsFor q env.config
    → Arrives env c q rest bs
    → IsGet q
    → IsHandled env (read_request q env.memory 0 []) r' given
    → rx_events env c bs
      ≡ ok (ev_out, answered env (with_more (joined bs) c) (content_at q rest) r' given)
rx_events-get env c q rest given bs r' h f a g handled =
    rx_events-Arrives env c q rest bs h a
    ∙ on_rx_conn_complete env (with_more (joined bs) c) q rest 0 [] given r' h
        (Arrives-HoldsRequest env c q rest bs a)
        (parse_content-get q env.fuel (behind rest) env.memory env.config h f g) handled

EndsBefore-same : (k n m : ℕ) (bs : List Bytes) → n ≡ m → EndsBefore k m bs → EndsBefore k n bs
EndsBefore-same k n m bs e h = rw e h

behind_events :
    (env : Env) (c' : Conn) (x : Bytes) (bs more : List Bytes) (s : EvMask × Conn)
    → ((c : Conn)
        → rx_events env c bs ≡ ok (ev_in, c')
        → rx_events env c (bs ++ x ∷ more) ≡ rx_events env (with_more x c') more)
    → (b : Bytes)
    → (elim s.0 [ ev_in ↦ rx_events env (with_more b s.1) bs | ev_out ↦ ok s ]) ≡ ok (ev_in, c')
    → (elim s.0 [ ev_in ↦ rx_events env (with_more b s.1) (bs ++ x ∷ more) | ev_out ↦ ok s ])
      ≡ rx_events env (with_more x c') more
behind_events env c' x bs more (ev_in, c₁) ih b e = ih (with_more b c₁) e
behind_events env c' x bs more (ev_out, c₁) ih b e = absurd cc

-- More events, for a connection that waits.
rx_events-append :
    (env : Env) (c c' : Conn) (x : Bytes) (bs more : List Bytes)
    → rx_events env c bs ≡ ok (ev_in, c')
    → rx_events env c (bs ++ x ∷ more) ≡ rx_events env (with_more x c') more
unfolding rx_events
rx_events-append env c c' x [] more e = rw e refl
rx_events-append env c c' x (b ∷ bs) more e =
    let (s, f, e') = >>=-eq-ok (on_rx_conn env c) _ e in
    rw f (behind_events env c' x bs more s (λ c₁. rx_events-append env c₁ c' x bs more) b e')

-- A request with content is answered, if the event that ends its header section brings a byte of the
-- content as well. Take a connection as for `rx_events-get`, and
-- events as there, the last of which brings at least one byte behind the header section; and then more
-- events. The request is as there, but that its method may be any known one, and that it has a
-- content length, of digits that write a number below 2 ^ 31; and so many bytes are there with the
-- last of all events, and not before. If the handler for its path and method gives some content
-- and leaves no error when it is called with the request that the header section says and exactly
-- that many bytes as its content, then `on_rx` waits at each event but the last, and returns at the
-- last with the mask for output, and with the handler's response in the buffer for sending.
pub rx_events-with_length :
    (env : Env) (c : Conn) (q : Request) (b : ℕ) (rest given : Bytes) (bs more : List Bytes)
    (r' : Req) (d : ℕ) (ds : Bytes)
    → IsRequest q
    → IsFor q env.config
    → HasLength q d ds
    → Arrives env c q (b ∷ rest) bs
    → EndsBefore (read_digits 0 (d ∷ ds)) (length (b ∷ rest)) more
    → read_digits 0 (d ∷ ds) ≤ length (b ∷ rest ++ joined more)
    → IsHandled env
        (read_request q env.memory
          (read_digits 0 (d ∷ ds))
          (take (read_digits 0 (d ∷ ds)) (b ∷ rest ++ joined more)))
        r'
        given
    → rx_events env c (bs ++ more)
      ≡ ok (
        ev_out,
        answered env
            (with_more (joined more) (with_more (joined bs) c))
            (content_at q (b ∷ rest))
            r'
            given,
      )
rx_events-with_length env c q b rest given bs [] r' d ds h f l a ends there handled =
    let n = read_digits 0 (d ∷ ds) in
    let nothing = append-nil rest in
    let there' : n ≤ length (b ∷ rest) = rw nothing at there in
    let enough : ltb (length (b ∷ rest)) n ≡ false = ground arith in
    ap (rx_events env c) (append-nil bs)
    ∙ rx_events-Arrives env c q (b ∷ rest) bs h a
    ∙ on_rx_conn_complete env (with_more (joined bs) c) q (b ∷ rest) n (take n (b ∷ rest)) given r'
        h (Arrives-HoldsRequest env c q (b ∷ rest) bs a)
        (parse_content-with_length q env.fuel (b ∷ rest) env.memory env.config d ds h f l
          ∙ if-false _ _ _ enough)
        (rw nothing at handled)
    ∙ ap
        (λ t. ok (ev_out, answered env (record c { io_rx = t }) (content_at q (b ∷ rest)) r' given))
        (sym (append-nil (c.io_rx ++ joined bs)))
rx_events-with_length env c q b rest given bs (x ∷ more) r' d ds h f l a (short, ends) there
      handled =
    let n = read_digits 0 (d ∷ ds) in
    let whole = with_more (joined bs) c in
    let c₁ : Conn = record whole {
      req = as_read q env.memory n;
      parsed_to_idx = content_at q (b ∷ rest);
    } in
    let waits : rx_events env c bs ≡ ok (ev_in, c₁) =
      rx_events-Arrives env c q (b ∷ rest) bs h a
      ∙ on_rx_conn_part env q d ds whole b rest h f l (Arrives-HoldsRequest env c q (b ∷ rest) bs a)
          short in
    let part : HasPart env q d ds c₁ (b ∷ rest) = record {
      read = refl;
      buffer =
          content_buffer env q d ds whole b rest (Arrives-HoldsRequest env c q (b ∷ rest) bs a);
    } in
    let same = append_assoc rest x (joined more) in
    rx_events-append env c c₁ x bs more waits
    ∙ rx_events_content env q d ds (with_more x c₁) (b ∷ rest ++ x) given more r' h f l
        (HasPart-with_more env q d ds c₁ (b ∷ rest) x part)
        (EndsBefore-same n _ _ more (length-append (b ∷ rest) x) ends) (rw same there)
        (rw same handled)
    ∙ ap
        (λ t. ok (ev_out, answered env (record c { io_rx = t }) (content_at q (b ∷ rest)) r' given))
        (append_assoc (c.io_rx ++ joined bs) x (joined more))
