-- ===== src/Server/InParts.antt =====
-- http/src/server.cpp: a header section that comes in two events, `rx_headers`.
use beemo.Common.{
  ℕ, ◌%◌, ◌^◌, ◌≤◌, ◌<◌, true, false, not, ◌&&◌, ◌>>=◌, ◌++◌, Result, ok, throw, undefined,
  unfinished, ◌≡◌, refl, sym, ap, ◌∙◌, arith, inl, inr, if-cases, if◌then◌else◌, length, >>=-eq-ok,
}
use beemo.Text.{Bytes}
use beemo.Http.Msg.{Req, headers, in_headers, has_err, is_parsing_headers}
use beemo.Http.Headers.{ParseCtx, parse_headers}
use beemo.Http.More.{read_of}
use beemo.Http.Resume.{parse_headers-resume}
use beemo.Http.Stopped.{parse_headers_bound}
use beemo.Http.Conn.{Conn}
use beemo.Server.Epoll.{EvMask, ev_in}
use beemo.Server.Rx.{Env, rx_headers, rx_content, rx_answer, on_rx_conn}

-- What has the same outcome as a success has the same request, and without an error the same index.
same_outcome :
    (m : Result (Req × ℕ)) (r : Req) (i : ℕ)
    → read_of m ≡ read_of (ok (r, i))
    → has_err r ≡ false
    → m ≡ ok (r, i)
same_outcome (ok (r', i')) r i e h =
    let same : r' ≡ r = cc in
    let at : (if has_err r' then 0 else i') ≡ (if has_err r then 0 else i) = cc in
    let fine : has_err r' ≡ false = ap has_err same ∙ h in
    let index : i' ≡ i = rw (fine, h) at at in rw (same, index) refl
same_outcome (throw x) r i e h = absurd cc
same_outcome undefined r i e h = absurd cc
same_outcome unfinished r i e h = absurd cc

-- The buffer with more behind it.
abbrev pub with_more : Bytes → Conn → Conn
with_more more c = record c { io_rx = c.io_rx ++ more }

-- The connection waits within its header section.
pub record WaitsFor (env : Env) (c c' : Conn) : Type 0 where
  pub read : rx_headers env c ≡ ok c'
  pub state : c'.req.parse_state ≡ headers
  pub fine : has_err c'.req ≡ false
  pub index : c.parsed_to_idx ≤ length c.io_rx
  pub short : length c.io_rx < 2 ^ 32

abbrev pub ctx_of : Env → Conn → ParseCtx
ctx_of env c = record { start_idx = c.parsed_to_idx; config = env.config }

pair_same : (s : Req × ℕ) (r : Req) (k : ℕ) → s.0 ≡ r → s.1 ≡ k → s ≡ (r, k)
pair_same (a, b) r k e f = rw (e, f) refl

-- The connection with what `parse_headers` gives.
abbrev pub headers_read : Req × ℕ → Conn → Conn
headers_read s c = record c { req = s.0; parsed_to_idx = s.1 % 2 ^ 32 }

pub rx_headers_cases :
    (env : Env) (c c₁ : Conn)
    → is_parsing_headers c.req ≡ true
    → rx_headers env c ≡ ok c₁
    → (s : Req × ℕ) × (parse_headers c.io_rx c.req (ctx_of env c) ≡ ok s) × (headers_read s c ≡ c₁)
unfolding rx_headers
rx_headers_cases env c c₁ b e =
    let (s, parse, e') = >>=-eq-ok (parse_headers c.io_rx c.req (ctx_of env c)) _ (rw b at e) in
    (s, parse, cc)

pub rx_headers_read :
    (env : Env) (c : Conn) (s : Req × ℕ)
    → is_parsing_headers c.req ≡ true
    → parse_headers c.io_rx c.req (ctx_of env c) ≡ ok s
    → rx_headers env c ≡ ok (headers_read s c)
unfolding rx_headers
rx_headers_read env c s b e = rw (b, e) refl

pub going_on : (r : Req) → r.parse_state ≡ headers → has_err r ≡ false → is_parsing_headers r ≡ true
going_on r s e = rw (s, e) refl

WaitsFor-parsing : (env : Env) (c c' : Conn) → WaitsFor env c c' → is_parsing_headers c.req ≡ true
unfolding rx_headers
WaitsFor-parsing env c c' w = elim (if-cases (is_parsing_headers c.req) _ _ w.read) [
  | inl (b, e) ↦ b
  | inr (b, e) ↦
      let same : c ≡ c' = cc in
      ap (λ x. is_parsing_headers x.req) same ∙ going_on c'.req w.state w.fine
]

-- The call of `parse_headers` behind it.
pub WaitsFor-parse_headers :
    (env : Env) (c c' : Conn)
    → WaitsFor env c c'
    → (parse_headers c.io_rx c.req (ctx_of env c) ≡ ok (c'.req, c'.parsed_to_idx))
      × (c' ≡ record c { req = c'.req; parsed_to_idx = c'.parsed_to_idx })
WaitsFor-parse_headers env c c' w =
    let ((r, k), parse, same) = rx_headers_cases env c c' (WaitsFor-parsing env c c' w) w.read in
    let req : r ≡ c'.req = ap {A = Conn} (λ x. x.req) same in
    let going : in_headers r.parse_state && not (has_err r) ≡ true =
      rw (req, w.state, w.fine) refl in
    let bound = parse_headers_bound c.io_rx c.req r (ctx_of env c) k parse going w.index in
    let short = w.short in
    let small : k % 2 ^ 32 ≡ k = omega arith in
    let at : k ≡ c'.parsed_to_idx = sym small ∙ ap {A = Conn} (λ x. x.parsed_to_idx) same in
    (
      parse ∙ ap ok (pair_same (r, k) c'.req c'.parsed_to_idx req at),
      sym same
          ∙ ap (λ s. record c { req = s.0; parsed_to_idx = s.1 })
              (pair_same (r, k % 2 ^ 32) c'.req c'.parsed_to_idx req (small ∙ at)),
    )

-- The rest of `on_rx`.
abbrev pub behind_headers : Env → Conn → Result (EvMask × Conn)
behind_headers env c =
    if is_parsing_headers c.req then ok (ev_in, c) else rx_content env c >>= rx_answer env

pub on_rx_conn_behind :
    (env : Env) (c c₁ : Conn) → rx_headers env c ≡ ok c₁ → on_rx_conn env c ≡ behind_headers env c₁
unfolding on_rx_conn
on_rx_conn_behind env c c₁ e = rw e refl

-- With more input the call goes on where it stopped: what it then gives is what one call gives with
-- all the input at once.
pub rx_headers-WaitsFor :
    (env : Env) (c c' c₁ : Conn) (more : Bytes)
    → WaitsFor env c c'
    → rx_headers env (with_more more c) ≡ ok c₁
    → has_err c₁.req ≡ false
    → rx_headers env (with_more more c') ≡ ok c₁
rx_headers-WaitsFor env c c' c₁ more w read fine =
    let (parse, same) = WaitsFor-parse_headers env c c' w in
    let ((r, k), parse₁, same₁) =
      rx_headers_cases env (with_more more c) c₁ (WaitsFor-parsing env c c' w) read in
    let good : has_err r ≡ false = ap (λ x. has_err x.req) same₁ ∙ fine in
    let resumed =
      parse_headers-resume c.io_rx more c.req c'.req c.parsed_to_idx c'.parsed_to_idx env.config
        parse w.state w.fine in
    let again = same_outcome _ r k (resumed ∙ ap read_of parse₁) good in
    let buffer : (with_more more c').io_rx ≡ c.io_rx ++ more = ap (λ x. x.io_rx ++ more) same in
    let parse' : parse_headers (with_more more c').io_rx c'.req (ctx_of env c') ≡ ok (r, k) =
      ap (λ t. parse_headers t c'.req (ctx_of env c')) buffer ∙ again in
    let conn : headers_read (r, k) (with_more more c') ≡ c₁ =
      ap (λ x. headers_read (r, k) (with_more more x)) same ∙ same₁ in
    rx_headers_read env (with_more more c') (r, k) (going_on c'.req w.state w.fine) parse'
    ∙ ap ok conn
