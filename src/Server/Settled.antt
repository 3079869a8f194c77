-- ===== src/Server/Settled.antt =====
-- http/src/server.cpp and linux/ev_epoll.cpp: how a handler leaves its connection, and all others.
use beemo.Common.{
  ℕ, ◌≤◌, true, false, none, some, ◌≡◌, ◌≢◌, refl, ◌∙◌, arith, if-cases, ◌⊎◌, inl, inr, length, ok,
  >>=-eq-ok, is_empty, if◌then◌else◌,
}
use beemo.Http.Conn.{Conn, IoStatus, complete, partial, failed, do_rx, do_tx, reset_state}
use beemo.Text.{Bytes}
use beemo.Server.Epoll.{Epoll, EvMask}
use beemo.Server.Rx.{Env, on_rx_conn}
use beemo.Server.Table.{
  find, find-insert, find-insert-other, find-erase, find-erase-other, length-erase,
  length-insert_old,
}
use beemo.Server.World.{Object, WeakPtr, World, Ready, err, readable, writable, neither}
use beemo.Server.Handlers.{
  Io, store, reg, on_close, on_rx, on_tx, send_rest, after_rx, after_tx, handle_in, handle_out,
  handle,
}
use beemo.Server.Sound.{IsSound, Holds, reg-Holds, removed, removed-IsSound, store-IsSound}

module _ {K : Type 0} (ep : Epoll K) where
  -- From `w` to `v` the connection under a descriptor is closed, or kept and registered again;
  -- nothing else changes but the objects' numbers.
  pub record Settles (fd : ℕ) (w v : World K) : Type 0 where
    pub sound : IsSound ep v
    pub here :
        ((find fd v.conns ≡ none) × (ep.armed fd v.kernel ≡ false))
        ⊎ ((o : Object) × (find fd v.conns ≡ some o) × (ep.armed fd v.kernel ≡ true))
    pub others :
        (other : ℕ)
        → other ≢ fd
        → (find other v.conns ≡ find other w.conns)
          × (ep.armed other v.kernel ≡ ep.armed other w.kernel)
    pub size : length v.conns ≤ length w.conns
    pub main : v.main ≡ w.main
    pub pending : v.pending ≡ w.pending

  pub store-Holds : (p : WeakPtr) (c : Conn) (w : World K) → Holds ep p w → Holds ep p (store p c w)
  store-Holds p c w (o, at, same, current) = (
    record { id = p.id; conn = c },
    find-insert p.handle (record { id = p.id; conn = c }) w.conns,
    refl,
    current,
  )

  reg-store-Settles :
      (p : WeakPtr) (m : EvMask) (c : Conn) (w : World K)
      → IsSound ep w
      → Holds ep p w
      → Settles p.handle w (reg ep p m (store p c w)).1
  reg-store-Settles p m c w inv (o, at, same, current) =
      let (k, e, eq, sound) =
        reg-Holds ep p m (store p c w) (store-IsSound ep p w c inv (o, at, same, current))
          (store-Holds p c w (o, at, same, current)) in
      let new : Object = record { id = p.id; conn = c } in
      rw eq (record {
        sound = sound;
        here = inr (new, find-insert p.handle new w.conns, (ep.mod_sets p.handle m w.kernel k e).1);
        others = λ other n. (
          find-insert-other p.handle other new w.conns n,
          (ep.mod_other p.handle m w.kernel k other e n).1,
        );
        size = omega (arith, length-insert_old p.handle new o w.conns at);
        main = refl;
        pending = refl;
      })

  on_close-Settles :
      (p : WeakPtr) (w v : World K)
      → IsSound ep w
      → Holds ep p w
      → on_close ep false p w ≡ ok v
      → Settles p.handle w v
  unfolding on_close
  on_close-Settles p w v inv held e =
      let e' : removed ep p w ≡ v = cc in
      rw⁻¹ e' (record {
        sound = removed-IsSound ep p w inv held;
        here = inl (find-erase p.handle w.conns, ep.close_armed p.handle w.kernel);
        others = λ other n. (
          find-erase-other p.handle other w.conns n,
          (ep.close_other p.handle other w.kernel n).1,
        );
        size = length-erase p.handle w.conns;
        main = refl;
        pending = refl;
      })

  store-Settles :
      (p : WeakPtr) (c : Conn) (w v : World K)
      → Holds ep p w
      → Settles p.handle (store p c w) v
      → Settles p.handle w v
  store-Settles p c w v (o, at, same, current) s =
      let new : Object = record { id = p.id; conn = c } in
      record {
        sound = s.sound;
        here = s.here;
        others = λ other n. (
          (s.others other n).0 ∙ find-insert-other p.handle other new w.conns n,
          (s.others other n).1,
        );
        size = omega (arith, s.size, length-insert_old p.handle new o w.conns at);
        main = s.main;
        pending = s.pending;
      }

  close_store-Settles :
      (p : WeakPtr) (c : Conn) (w v : World K)
      → IsSound ep w
      → Holds ep p w
      → on_close ep false p (store p c w) ≡ ok v
      → Settles p.handle w v
  close_store-Settles p c w v inv h e =
      store-Settles p c w v h
        (on_close-Settles p (store p c w) v (store-IsSound ep p w c inv h) (store-Holds p c w h) e)

  -- A handler that ends by storing the connection and registering it.
  reg_end-Settles :
      (p : WeakPtr) (m : EvMask) (c : Conn) (w v : World K)
      → IsSound ep w
      → Holds ep p w
      → ok (reg ep p m (store p c w)).1 ≡ ok v
      → Settles p.handle w v
  reg_end-Settles p m c w v inv h e =
      let e' : (reg ep p m (store p c w)).1 ≡ v = cc in rw⁻¹ e' (reg-store-Settles p m c w inv h)

  module _ (env : Env) (p : WeakPtr) (w v : World K) (inv : IsSound ep w) (h : Holds ep p w) where
    on_rx-Settles : (c : Conn) → on_rx ep env p c w ≡ ok v → Settles p.handle w v
    unfolding on_rx
    on_rx-Settles c e =
        let ((m, c'), _, e') = >>=-eq-ok (on_rx_conn env c) _ e in
        reg_end-Settles p m c' w v inv h e'

    on_tx-Settles : (c : Conn) → on_tx ep env p c w ≡ ok v → Settles p.handle w v
    unfolding on_tx
    on_tx-Settles c e = elim (if-cases c.keep_alive _ _ e) [
      | inl (b, e') ↦ reg_end-Settles p _ (reset_state env.memory env.status c) w v inv h e'
      | inr (b, e') ↦ on_close-Settles p w v inv h e'
    ]

    rx_rest-Settles :
        (c : Conn)
        → (if is_empty c.io_rx then on_close ep false p (store p c w) else on_rx ep env p c w)
          ≡ ok v
        → Settles p.handle w v
    rx_rest-Settles c e = elim (if-cases (is_empty c.io_rx) _ _ e) [
      | inl (b, e') ↦ close_store-Settles p c w v inv h e'
      | inr (b, e') ↦ on_rx-Settles c e'
    ]

    after_rx-Settles :
        (status : IoStatus) (c : Conn)
        → after_rx ep env p w (status, c) ≡ ok v
        → Settles p.handle w v
    after_rx-Settles failed c e = close_store-Settles p c w v inv h e
    after_rx-Settles complete c e = rx_rest-Settles c e
    after_rx-Settles partial c e = rx_rest-Settles c e

    after_tx-Settles :
        (status : IoStatus) (c : Conn) (s : Bytes)
        → after_tx ep env p w (status, c, s) ≡ ok v
        → Settles p.handle w v
    after_tx-Settles failed c s e = close_store-Settles p c w v inv h e
    after_tx-Settles complete c s e = on_tx-Settles c e
    after_tx-Settles partial c s e =
        let (c', _, e') = >>=-eq-ok (send_rest c) _ e in reg_end-Settles p _ c' w v inv h e'

    pub handle-Settles :
        (ready : Ready) (io : Io) (c : Conn)
        → ready ≢ neither
        → handle ep env ready io p c w ≡ ok v
        → Settles p.handle w v
    unfolding handle handle_in handle_out
    handle-Settles err io c n e = on_close-Settles p w v inv h e
    handle-Settles readable io c n e =
        let ((status, c'), _, e') = >>=-eq-ok (do_rx io.rx c) _ e in after_rx-Settles status c' e'
    handle-Settles writable io c n e =
        let ((status, c', s), _, e') = >>=-eq-ok (do_tx io.tx c) _ e in
        after_tx-Settles status c' s e'
    handle-Settles neither io c n e = absurd (n refl)
