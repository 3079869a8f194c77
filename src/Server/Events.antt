-- ===== src/Server/Events.antt =====
-- http/src/server.cpp: a header section that comes in any number of events.
use beemo.Common.{
  ℕ, ◌+◌, ◌%◌, ◌^◌, ◌≤◌, ◌<◌, true, false, ◌>>=◌, List, [], ◌∷◌, ◌++◌, some, Result, ok, ◌≡◌, refl,
  sym, ap, ◌∙◌, ◌⊎◌, arith, inl, inr, if-true, length, length-append, append_assoc, append-nil,
}
use beemo.Text.{Bytes, find_str}
use beemo.Http.Headers.{crlf, parse_headers}
use beemo.Http.Msg.{Req, headers, in_start_line, has_err, is_parsing_headers}
use beemo.Http.Received.{joined}
use beemo.Http.Stopped.{Waiting, parse_headers_bound, parse_headers_prefix}
use beemo.Http.Conn.{Conn}
use beemo.Server.Epoll.{EvMask, ev_in, ev_out}
use beemo.Server.Rx.{Env, rx_headers, on_rx_conn}
use beemo.Server.InParts.{
  WaitsFor, WaitsFor-parse_headers, rx_headers-WaitsFor, rx_headers_cases, on_rx_conn_behind,
  with_more, ctx_of, headers_read, rx_headers_read, going_on,
}

-- `on_rx`, and again for each text that arrives while the connection waits for input.
unfoldable pub rx_events : Env → Conn → List Bytes → Result (EvMask × Conn)
unfolding on_rx_conn
rx_events env c [] = on_rx_conn env c
rx_events env c (b ∷ bs) =
    ◌>>=◌ (on_rx_conn env c)
      λ s. elim s.0 [ ev_in ↦ rx_events env (with_more b s.1) bs | ev_out ↦ ok s ]

-- The connection reads its request line, which is there, or its headers.
pub record IsReading (c : Conn) : Type 0 where
  pub fine : has_err c.req ≡ false
  pub line :
      ((in_start_line c.req.parse_state ≡ true) × ((j : ℕ) × (find_str crlf c.io_rx ≡ some j)))
      ⊎ (c.req.parse_state ≡ headers)
  pub index : c.parsed_to_idx ≤ length c.io_rx

-- Every event but the last ends before the position.
abbrev pub EndsBefore : ℕ → ℕ → List Bytes → Type 0
EndsBefore k n [] = Unit
EndsBefore k n (b ∷ bs) = (n < k) × EndsBefore k (n + length b) bs

IsReading-parsing : (c : Conn) → IsReading c → is_parsing_headers c.req ≡ true
IsReading-parsing c h = elim h.line [
  | inl (s, _) ↦ rw (s, h.fine) refl
  | inr s ↦ going_on c.req s h.fine
]

prefix_waits :
    (env : Env) (c : Conn) (r : Req) (more : Bytes) (k : ℕ)
    → IsReading c
    → parse_headers (c.io_rx ++ more) c.req (ctx_of env c) ≡ ok (r, k)
    → has_err r ≡ false
    → Waiting (parse_headers c.io_rx c.req (ctx_of env c)) ⊎ (k ≤ length c.io_rx)
prefix_waits env c r more k h parse fine = elim h.line [
  | inl (s, (j, f)) ↦
      parse_headers_prefix c.io_rx more c.req r (ctx_of env c) j k parse fine (inl (s, f)) h.index
  | inr s ↦ parse_headers_prefix c.io_rx more c.req r (ctx_of env c) 0 k parse fine (inr s) h.index
]

IsReading-WaitsFor :
    (env : Env) (c c₁ : Conn) (more : Bytes)
    → IsReading c
    → length c.io_rx < 2 ^ 32
    → rx_headers env (with_more more c) ≡ ok c₁
    → has_err c₁.req ≡ false
    → length c.io_rx < c₁.parsed_to_idx
    → (c' : Conn) × WaitsFor env c c'
IsReading-WaitsFor env c c₁ more h short read fine before =
    let b = IsReading-parsing c h in
    let ((r, k), parse, same) = rx_headers_cases env (with_more more c) c₁ b read in
    let good : has_err r ≡ false = ap (λ x. has_err x.req) same ∙ fine in
    let at : k % 2 ^ 32 ≡ c₁.parsed_to_idx = ap {A = Conn} (λ x. x.parsed_to_idx) same in
    elim (prefix_waits env c r more k h parse good) [
      | inr le ↦ absurd (omega (arith, le, at))
      | inl (r', k', parse', state, fine') ↦ (
        headers_read (r', k') c,
        record {
          read = rx_headers_read env c (r', k') b parse';
          state = state;
          fine = fine';
          index = h.index;
          short = short;
        },
      )
    ]

WaitsFor-IsReading :
    (env : Env) (c c' : Conn) (more : Bytes) → WaitsFor env c c' → IsReading (with_more more c')
WaitsFor-IsReading env c c' more w =
    let (parse, same) = WaitsFor-parse_headers env c c' w in
    let bound =
      parse_headers_bound c.io_rx c.req c'.req (ctx_of env c) c'.parsed_to_idx parse
        (rw (w.state, w.fine) refl) w.index in
    let buffer : c'.io_rx ≡ c.io_rx = ap (λ x. x.io_rx) same in
    record {
      fine = w.fine;
      line = inr w.state;
      index = omega (arith, length-append c'.io_rx more, bound, ap length buffer);
    }

pub with_more-joined :
    (c : Conn) (b : Bytes) (bs : List Bytes)
    → with_more (joined bs) (with_more b c) ≡ with_more (joined (b ∷ bs)) c
with_more-joined c b bs = ap (λ t. record c { io_rx = t }) (append_assoc c.io_rx b (joined bs))

-- Headers in any number of events are headers in one. Take a connection that reads its request line,
-- which has arrived with its line end, or its headers; let the rest of the input arrive in any
-- events, of which all but the last end before the content. If `parse_headers` finds no error in the
-- whole, then `on_rx` waits at each event but the last, and at the last it does what it does with a
-- connection that has received all the input at once.
pub rx_events-joined :
    (env : Env) (c c₁ : Conn) (bs : List Bytes)
    → IsReading c
    → length (c.io_rx ++ joined bs) < 2 ^ 32
    → rx_headers env (with_more (joined bs) c) ≡ ok c₁
    → has_err c₁.req ≡ false
    → EndsBefore c₁.parsed_to_idx (length c.io_rx) bs
    → rx_events env c bs ≡ on_rx_conn env (with_more (joined bs) c)
unfolding rx_events
rx_events-joined env c c₁ [] h short read fine before =
    ap (λ t. on_rx_conn env (record c { io_rx = t })) (sym (append-nil c.io_rx))
rx_events-joined env c c₁ (b ∷ bs) h short read fine (here, before) =
    let size = length-append c.io_rx (joined (b ∷ bs)) in
    let (c', w) =
      IsReading-WaitsFor env c c₁ (joined (b ∷ bs)) h (omega (arith, short, size)) read fine here in
    let (parse, same) = WaitsFor-parse_headers env c c' w in
    let buffer : c'.io_rx ≡ c.io_rx = ap (λ x. x.io_rx) same in
    let length_now : length (c'.io_rx ++ b) ≡ length c.io_rx + length b =
      omega (arith, length-append c'.io_rx b, ap length buffer) in
    let flat : with_more (joined bs) (with_more b c') ≡ with_more (joined (b ∷ bs)) c' =
      with_more-joined c' b bs in
    let on = rx_headers-WaitsFor env c c' c₁ (joined (b ∷ bs)) w read fine in
    let on' : rx_headers env (with_more (joined bs) (with_more b c')) ≡ ok c₁ =
      ap (rx_headers env) flat ∙ on in
    let wait : on_rx_conn env c ≡ ok (ev_in, c') =
      on_rx_conn_behind env c c' w.read ∙ if-true _ _ _ (going_on c'.req w.state w.fine) in
    let ih =
      rx_events-joined env (with_more b c') c₁ bs (WaitsFor-IsReading env c c' b w)
        (rw (append_assoc c'.io_rx b (joined bs), buffer) short) on' fine (rw length_now before) in
    rw wait (
      ih
      ∙ on_rx_conn_behind env (with_more (joined bs) (with_more b c')) c₁ on'
      ∙ sym (on_rx_conn_behind env (with_more (joined (b ∷ bs)) c) c₁ read))
