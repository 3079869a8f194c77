-- ===== src/Server/Sent.antt =====
-- http/src/server.cpp and linux/ev_epoll.cpp: a connection from its answer to what follows it.
use beemo.Common.{
  ◌<◌, ◌^◌, true, false, List, [], ◌∷◌, some, ok, length, ◌≡◌, refl, sym, ap, ◌∙◌, ◌⊎◌, inl, inr,
  >>=-eq-ok, if-cases, if-true, Bool-cases, arith,
}
use beemo.Text.{Bytes, lacks}
use beemo.Http.Msg.{has_err}
use beemo.Http.Resp.{to_str}
use beemo.Http.Conn.{
  Conn, Tx, sent, no_room, broken, IoStatus, complete, do_tx, prepare_tx, prepare_tx_bytes,
  reset_state, has_more, add_sent,
}
use beemo.Http.Received.{do_tx-prepare_tx_bytes}
use beemo.Server.Epoll.{Epoll, ev_in, ev_out}
use beemo.Server.Rx.{Env, on_rx_conn}
use beemo.Server.Table.{find, find-insert}
use beemo.Server.World.{WeakPtr, World}
use beemo.Server.Handlers.{handle_out, on_tx, on_close, store}
use beemo.Server.Sound.{IsSound, Holds, made_current, removed, reg-Holds, store-IsSound}
use beemo.Server.Settled.{store-Holds}
use beemo.Server.Answers.{on_rx_conn-cases}

-- Sending changes nothing of a connection but its buffer.
do_tx-keep_alive :
    (ts : List Tx) (c d : Conn) (status : IoStatus) (out : Bytes)
    → do_tx ts c ≡ ok (status, d, out)
    → d.keep_alive ≡ c.keep_alive
unfolding do_tx
do_tx-keep_alive [] c d status out e = elim (if-cases (has_more c) _ _ e) [
  | inl (b, f) ↦ absurd cc
  | inr (b, f) ↦ ap (λ x. x.keep_alive) {x = d} {y = c} cc
]
do_tx-keep_alive (sent n ∷ ts) c d status out e = elim (if-cases (has_more c) _ _ e) [
  | inl (b, f) ↦
      let ((status', d', out'), g, h) = >>=-eq-ok (do_tx ts (add_sent n c)) _ f in
      let same : d' ≡ d = cc in rw⁻¹ same (do_tx-keep_alive ts (add_sent n c) d' status' out' g)
  | inr (b, f) ↦ ap (λ x. x.keep_alive) {x = d} {y = c} cc
]
do_tx-keep_alive (no_room ∷ ts) c d status out e = elim (if-cases (has_more c) _ _ e) [
  | inl (b, f) ↦ ap (λ x. x.keep_alive) {x = d} {y = c} cc
  | inr (b, f) ↦ ap (λ x. x.keep_alive) {x = d} {y = c} cc
]
do_tx-keep_alive (broken ∷ ts) c d status out e = elim (if-cases (has_more c) _ _ e) [
  | inl (b, f) ↦ ap (λ x. x.keep_alive) {x = d} {y = c} cc
  | inr (b, f) ↦ ap (λ x. x.keep_alive) {x = d} {y = c} cc
]

-- A connection that is registered for output has its response in the buffer, and is kept alive only
-- if its request has no error.
answered :
    (env : Env) (c c' : Conn)
    → on_rx_conn env c ≡ ok (ev_out, c')
    → ((c₀ : Conn) × (c' ≡ prepare_tx c₀) × (c₀.resp ≡ c'.resp))
      × ((c'.keep_alive ≡ false) ⊎ (has_err c'.req ≡ false))
unfolding prepare_tx_bytes
answered env c c' e = elim (on_rx_conn-cases env c ev_out c' e) [
  | inl (w, _, _) ↦ absurd cc
  | inr (inl (_, (b, before, has, f))) ↦
      ((_, f, ap {A = Conn} (λ x. x.resp) (sym f)), inl (ap {A = Conn} (λ x. x.keep_alive) f))
  | inr (inr (_, (r, resp, _, _, _, fine, f))) ↦
      ((_, f, ap {A = Conn} (λ x. x.resp) (sym f)), inr fine)
]

still_fine :
    (c : Conn)
    → (c.keep_alive ≡ false) ⊎ (has_err c.req ≡ false)
    → c.keep_alive ≡ true
    → has_err c.req ≡ false
still_fine c (inl off) on = absurd (ground (arith, on, off))
still_fine c (inr fine) on = fine

module _ {K : Type 0} (ep : Epoll K) (env : Env) where
  -- An answer is sent whole, and then its connection is closed or begins again. When `on_rx` has
  -- registered a connection for output, and the calls of `send` take what is in its buffer to the
  -- end, be it in several pieces, they take exactly the text of the response, if it has no zero byte
  -- and fewer than 2 ^ 32 bytes. Then `handle_out` takes the connection out of the tables and closes
  -- its descriptor, if it is not to be kept alive, as always after an error; or it resets the
  -- connection and registers it for input again.
  pub handle_out-on_rx_conn :
      (p : WeakPtr) (c c' d : Conn) (w : World K) (ts : List Tx) (out : Bytes)
      → IsSound ep w
      → Holds ep p w
      → on_rx_conn env c ≡ ok (ev_out, c')
      → lacks 0 (to_str c'.resp) ≡ true
      → length (to_str c'.resp) < 2 ^ 32
      → do_tx ts c' ≡ ok (complete, d, out)
      → (out ≡ to_str c'.resp)
        × (((c'.keep_alive ≡ false)
              × (handle_out ep env (record { rx = []; tx = ts }) p c' w ≡ ok (removed ep p w)))
            ⊎ ((has_err c'.req ≡ false)
                × ((v : World K) × (handle_out ep env (record { rx = []; tx = ts }) p c' w ≡ ok v)
                    × (find p.handle v.conns
                        ≡ some (record { id = p.id; conn = reset_state env.memory env.status d }))
                    × (ep.armed p.handle v.kernel ≡ true))))
  unfolding handle_out on_tx on_close
  handle_out-on_rx_conn p c c' d w ts out inv held e free short sent_all =
      let ((c₀, made, same), why) = answered env c c' e in
      let text : out ≡ to_str c'.resp =
        do_tx-prepare_tx_bytes (to_str c'.resp) ts c₀ d out free short (
          ap (do_tx ts) (ap (λ r. prepare_tx_bytes (to_str r) c₀) (sym same) ∙ sym made)
          ∙ sent_all) in
      let flag = do_tx-keep_alive ts c' d complete out sent_all in
      let (k, on, done, _) =
        reg-Holds ep p ev_in (store p (reset_state env.memory env.status d) w)
          (store-IsSound ep p w (reset_state env.memory env.status d) inv held)
          (store-Holds ep p (reset_state env.memory env.status d) w held) in
      elim (Bool-cases c'.keep_alive) [
        | inr off ↦ (text, inl (off, rw (sent_all, flag ∙ off) refl))
        | inl on' ↦ (
          text,
          inr (
            still_fine c' why on',
            (
              made_current ep p k (store p (reset_state env.memory env.status d) w),
              rw sent_all (if-true d.keep_alive _ _ (flag ∙ on') ∙ ap (λ x. ok x.1) done),
              find-insert p.handle
                  (record { id = p.id; conn = reset_state env.memory env.status d }) w.conns,
              (ep.mod_sets p.handle ev_in w.kernel k on).1,
            ),
          ),
        )
      ]
