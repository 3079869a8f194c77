-- ===== src/Server/Answers.antt =====
-- http/src/server.cpp: every way out of `on_rx`.
use beemo.Common.{
  ◌%◌, ◌^◌, true, false, Option, none, some, ok, ◌≡◌, arith, refl, sym, ap, ◌∙◌, ◌⊎◌, inl, inr,
  >>=-eq-ok, if-cases,
}
use beemo.Http.Err.{ErrBuilder}
use beemo.Http.Msg.{Req, has_err, is_parsing_headers, is_parsing_incomplete}
use beemo.Http.Resp.{Resp, build}
use beemo.Http.Headers.{parse_headers}
use beemo.Http.Content.{parse_content}
use beemo.Http.Routing.{route_to_resource_handler}
use beemo.Http.Conn.{Conn, prepare_tx, prepare_tx_bytes}
use beemo.Text.{substr_from}
use beemo.Server.Epoll.{EvMask, ev_in, ev_out}
use beemo.Server.Rx.{Env, rx_headers, rx_content, rx_err, rx_route, rx_answer, on_rx_conn}

-- The connection waits for more: nothing but its request and the index of its parser has changed.
abbrev pub Waits : Conn → EvMask → Conn → Type 0
Waits c m c' =
    (m ≡ ev_in)
    × (is_parsing_incomplete c'.req ≡ true)
    × (c' ≡ record c { req = c'.req; parsed_to_idx = c'.parsed_to_idx })

-- An error is answered: its response is prepared, and the connection is to be closed after it.
abbrev pub Refuses : Conn → EvMask → Conn → Type 0
Refuses c m c' =
    (m ≡ ev_out)
    × ((e : ErrBuilder) × (before : Resp) × (c'.req.err ≡ some e)
        × (c'
            ≡ prepare_tx (record c {
              req = c'.req;
              parsed_to_idx = c'.parsed_to_idx;
              resp = build e before;
              keep_alive = false;
            })))

-- The request is complete and its handler's response is prepared.
abbrev pub Serves : Env → Conn → EvMask → Conn → Type 0
Serves env c m c' =
    (m ≡ ev_out)
    × ((r : Req) × (resp : Resp) × (is_parsing_incomplete r ≡ false)
        × (has_err r ≡ false)
        × (route_to_resource_handler env.status env.handlers r ≡ (resp, c'.req))
        × (has_err c'.req ≡ false)
        × (c'
            ≡ prepare_tx
                (record c { req = c'.req; parsed_to_idx = c'.parsed_to_idx; resp = resp })))

-- Only the request and the index have changed.
abbrev Parses : Conn → Conn → Type 0
Parses c c' = c' ≡ record c { req = c'.req; parsed_to_idx = c'.parsed_to_idx }

rx_headers-Parses : (env : Env) (c c' : Conn) → rx_headers env c ≡ ok c' → Parses c c'
unfolding rx_headers
rx_headers-Parses env c c' e = elim (if-cases (is_parsing_headers c.req) _ _ e) [
  | inl (b, e') ↦
      let ((r, i), _, e'') = >>=-eq-ok (parse_headers c.io_rx c.req _) _ e' in
      let f : record c { req = r; parsed_to_idx = i % 2 ^ 32 } ≡ c' = cc in rw⁻¹ f refl
  | inr (b, e') ↦ let f : c ≡ c' = cc in rw⁻¹ f refl
]

rx_content-Parses : (env : Env) (c c' : Conn) → rx_content env c ≡ ok c' → Parses c c'
unfolding rx_content
rx_content-Parses env c c' e = elim (if-cases (has_err c.req) _ _ e) [
  | inl (b, e') ↦ let f : c ≡ c' = cc in rw⁻¹ f refl
  | inr (b, e') ↦
      let (raw, _, e'') = >>=-eq-ok (substr_from c.io_rx c.parsed_to_idx) _ e' in
      let (r, _, e₃) = >>=-eq-ok (parse_content env.fuel raw c.req env.config) _ e'' in
      let f : record c { req = r } ≡ c' = cc in rw⁻¹ f refl
]

is_parsing_headers-incomplete :
    (r : Req) → is_parsing_headers r ≡ true → is_parsing_incomplete r ≡ true
is_parsing_headers-incomplete r h = ground (arith, h)

rx_err-Refuses :
    (c c₁ : Conn) (o : Option ErrBuilder) (m : EvMask) (c' : Conn)
    → c₁.req.err ≡ o
    → c₁ ≡ record c { req = c₁.req; parsed_to_idx = c₁.parsed_to_idx; resp = c₁.resp }
    → rx_err o c₁ ≡ ok (m, c')
    → Refuses c m c'
unfolding prepare_tx_bytes
rx_err-Refuses c c₁ none m c' has p e = absurd cc
rx_err-Refuses c c₁ (some b) m c' has p e =
    let f : prepare_tx (record c₁ { resp = build b c₁.resp; keep_alive = false }) ≡ c' = cc in
    let g : ev_out ≡ m = cc in
    rw⁻¹ f (
      sym g,
      (
        b,
        c₁.resp,
        has,
        ap (λ x. prepare_tx (record x { resp = build b c₁.resp; keep_alive = false })) p,
      ),
    )

with_resp :
    (c c₁ : Conn)
    → Parses c c₁
    → c₁ ≡ record c { req = c₁.req; parsed_to_idx = c₁.parsed_to_idx; resp = c₁.resp }
with_resp c c₁ p =
    p
    ∙ ap (λ r. record c { req = c₁.req; parsed_to_idx = c₁.parsed_to_idx; resp = r })
        (ap (λ x. x.resp) (sym p))

rx_route-cases :
    (env : Env) (c c₁ : Conn) (m : EvMask) (c' : Conn)
    → Parses c c₁
    → is_parsing_incomplete c₁.req ≡ false
    → has_err c₁.req ≡ false
    → rx_route env c₁ ≡ ok (m, c')
    → Refuses c m c' ⊎ Serves env c m c'
unfolding rx_route prepare_tx_bytes
rx_route-cases env c c₁ m c' p done fine e =
    let routed = route_to_resource_handler env.status env.handlers c₁.req in
    let answered = record c₁ { resp = routed.0; req = routed.1 } in
    elim (if-cases (has_err routed.1) _ _ e) [
      | inl (h, e') ↦ inl (
          rx_err-Refuses c answered routed.1.err m c' refl
            (ap {A = Conn} (λ x. record x { resp = routed.0; req = routed.1 }) p) e')
      | inr (h, e') ↦
          let f : prepare_tx answered ≡ c' = cc in
          let g : ev_out ≡ m = cc in
          inr (
            rw⁻¹ f (
              sym g,
              (
                c₁.req,
                routed.0,
                done,
                fine,
                refl,
                h,
                ap (λ x. prepare_tx (record x { resp = routed.0; req = routed.1 })) p,
              ),
            ))
    ]

rx_answer-cases :
    (env : Env) (c c₁ : Conn) (m : EvMask) (c' : Conn)
    → Parses c c₁
    → rx_answer env c₁ ≡ ok (m, c')
    → Waits c m c' ⊎ (Refuses c m c' ⊎ Serves env c m c')
unfolding rx_answer
rx_answer-cases env c c₁ m c' p e = elim (if-cases (is_parsing_incomplete c₁.req) _ _ e) [
  | inl (b, e₁) ↦ let f : c₁ ≡ c' = cc in let g : ev_in ≡ m = cc in inl (rw⁻¹ f (sym g, b, p))
  | inr (b, e₁) ↦ elim (if-cases (has_err c₁.req) _ _ e₁) [
    | inl (h, e₂) ↦ inr (inl (rx_err-Refuses c c₁ c₁.req.err m c' refl (with_resp c c₁ p) e₂))
    | inr (h, e₂) ↦ inr (rx_route-cases env c c₁ m c' p b h e₂)
  ]
]

Parses-trans : (c c₁ c₂ : Conn) → Parses c c₁ → Parses c₁ c₂ → Parses c c₂
Parses-trans c c₁ c₂ p q =
    q ∙ ap {A = Conn} (λ x. record x { req = c₂.req; parsed_to_idx = c₂.parsed_to_idx }) p

-- When `on_rx` returns, one of three things has happened. The request is incomplete and without an
-- error: the connection is registered for input, and only its request and the parser's index have
-- changed. Or there is an error: its response is prepared to be sent, the connection is registered
-- for output, and is no longer to be kept alive. Or the request is complete: the response of the
-- handler that it is routed to is prepared, the connection is registered for output, and is kept
-- alive if it was to be.
pub on_rx_conn-cases :
    (env : Env) (c : Conn) (m : EvMask) (c' : Conn)
    → on_rx_conn env c ≡ ok (m, c')
    → Waits c m c' ⊎ (Refuses c m c' ⊎ Serves env c m c')
unfolding on_rx_conn
on_rx_conn-cases env c m c' e =
    let (c₁, e₁, e₂) = >>=-eq-ok (rx_headers env c) _ e in
    let p = rx_headers-Parses env c c₁ e₁ in
    elim (if-cases (is_parsing_headers c₁.req) _ _ e₂) [
      | inl (b, e₃) ↦
          let f : c₁ ≡ c' = cc in
          let g : ev_in ≡ m = cc in inl (rw⁻¹ f (sym g, is_parsing_headers-incomplete c₁.req b, p))
      | inr (b, e₃) ↦
          let (c₂, e₄, e₅) = >>=-eq-ok (rx_content env c₁) (rx_answer env) e₃ in
          rx_answer-cases env c c₂ m c' (Parses-trans c c₁ c₂ p (rx_content-Parses env c₁ c₂ e₄)) e₅
    ]
