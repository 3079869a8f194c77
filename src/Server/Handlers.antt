-- ===== src/Server/Handlers.antt =====
-- The handlers of http/src/server.cpp and the event loop of linux/ev_epoll.cpp. A handler gets a
-- weak pointer and the connection that it locked, and returns the world, in which the table holds
-- the connection as the handler leaves it.
use beemo.Common.{
  ℕ, suc, ◌-◌, ◌>>=◌, Bool, true, false, List, [], ◌∷◌, Option, none, some, is_empty, Result, ok,
  throw, undefined, transport_err, if◌then◌else◌, ltb, take, drop,
}
use beemo.Text.{Bytes}
use beemo.Http.Err.{timeout_handler}
use beemo.Http.Resp.{build}
use beemo.Http.Conn.{
  Conn, Rx, Tx, IoStatus, complete, partial, failed, reset_state, prepare_tx_bytes, do_rx, do_tx,
}
use beemo.Server.Epoll.{Epoll, EvMask, ev_in, ev_out}
use beemo.Server.Rx.{Env, on_rx_conn}
use beemo.Server.Table.{find, insert, erase}
use beemo.Server.World.{
  WeakPtr, Ready, err, readable, writable, neither, World, init_conn, lock, waiting, registering,
}

-- What the socket calls of one handler return.
pub record Io : Type 0 where
  pub rx : List Rx
  pub tx : List Tx

-- What is left to send. `strncpy` copies it to the start of the buffer that it lies in, which is
-- undefined if the two regions overlap.
unfoldable pub send_rest : Conn → Result Conn
send_rest c =
    let rest = c.io_tx.bytes_to_tx - c.io_tx.bytes_tx in
    if ltb c.io_tx.bytes_tx rest
    then undefined
    else ok (prepare_tx_bytes (take rest (drop c.io_tx.bytes_tx c.io_tx.buf)) c)

module _ {K : Type 0} where
  -- The object under the pointer's handle, changed in place.
  abbrev pub store : WeakPtr → Conn → World K → World K
  store p c w = record w { conns = insert p.handle (record { id = p.id; conn = c }) w.conns }

  -- `events_[sktfd] = c`
  abbrev pub record_event : WeakPtr → World K → World K
  record_event p w = record w { events = insert p.handle p w.events }

module _ {K : Type 0} (ep : Epoll K) where
  -- `epoll_ctl`, as `reg` calls it: EPOLL_CTL_ADD if the pointer of the event loop has expired.
  abbrev pub ctl : WeakPtr → EvMask → World K → Option Conn → Option K
  ctl p m w none = ep.ctl_add p.handle m w.kernel
  ctl p m w (some c) = ep.ctl_mod p.handle m w.kernel

  abbrev reg_done : WeakPtr → World K → Option K → Bool × World K
  reg_done p w none = (false, w)
  reg_done p w (some k) = (true, record_event p (record w { kernel = k }))

  -- `reg`, with whether it returns 0.
  unfoldable pub reg : WeakPtr → EvMask → World K → Bool × World K
  reg p m w = reg_done p w (ctl p m w (lock (find p.handle w.events) w))

  -- `on_close`, called with `conn_mtx_` held or not: to lock it again is undefined. The object dies
  -- with the handler, and its socket with it.
  unfoldable pub on_close : Bool → WeakPtr → World K → Result (World K)
  on_close true p w = undefined
  on_close false p w =
      ok (record w { conns = erase p.handle w.conns; kernel = ep.close p.handle w.kernel })

  -- `~server`: the mutex is held while `on_close` is called for each connection.
  unfoldable pub destroy : World K → Result (World K)
  destroy w = elim w.conns [
    | [] ↦ ok w
    | (fd, o) ∷ rest ↦ on_close true (record { handle = fd; id = o.id }) w
  ]

module _ {K : Type 0} (ep : Epoll K) (env : Env) where
  -- The new object and its entry of `conns_`.
  abbrev pub take_in : ℕ → World K → World K
  take_in fd w =
      store (record { handle = fd; id = w.made }) (init_conn env) (record w { made = suc w.made })

  -- `on_conn` up to the return of `epoll_ctl`, with where it then stands; its rest is `record_event`.
  abbrev begun : WeakPtr → World K → Option K → World K
  begun p w none = record w { main = waiting }
  begun p w (some k) = record w { kernel = k; main = registering p }

  unfoldable pub begin_conn : ℕ → World K → World K
  begin_conn fd w =
      let v = take_in fd w in
      let p : WeakPtr = record { handle = fd; id = w.made } in
      begun p v (ctl ep p ev_in v (lock (find fd v.events) v))

  -- `on_conn`, with whether the socket could be made non-blocking; else the new object dies.
  unfoldable pub on_conn : Bool → ℕ → World K → Result (World K)
  on_conn false fd w = throw transport_err
  on_conn true fd w = ok (reg ep (record { handle = fd; id = w.made }) ev_in (take_in fd w)).1

  unfoldable pub on_rx : WeakPtr → Conn → World K → Result (World K)
  on_rx p c w = on_rx_conn env c >>= λ (m, c'). ok (reg ep p m (store p c' w)).1

  unfoldable pub on_tx : WeakPtr → Conn → World K → Result (World K)
  on_tx p c w =
      if c.keep_alive
      then ok (reg ep p ev_in (store p (reset_state env.memory env.status c) w)).1
      else on_close ep false p w

  unfoldable pub on_timeout : WeakPtr → Conn → World K → Result (World K)
  on_timeout p c w =
      on_close ep false p (store p (record c { resp = build timeout_handler c.resp }) w)

  -- The switch of `handle_in`, which falls through.
  abbrev pub after_rx : WeakPtr → World K → IoStatus × Conn → Result (World K)
  after_rx p w (failed, c) = on_close ep false p (store p c w)
  after_rx p w (complete, c) =
      if is_empty c.io_rx then on_close ep false p (store p c w) else on_rx p c w
  after_rx p w (partial, c) =
      if is_empty c.io_rx then on_close ep false p (store p c w) else on_rx p c w

  unfoldable pub handle_in : Io → WeakPtr → Conn → World K → Result (World K)
  handle_in io p c w = do_rx io.rx c >>= after_rx p w

  -- The switch of `handle_out`.
  abbrev pub after_tx : WeakPtr → World K → IoStatus × Conn × Bytes → Result (World K)
  after_tx p w (complete, c, _) = on_tx p c w
  after_tx p w (partial, c, _) = send_rest c >>= λ c'. ok (reg ep p ev_out (store p c' w)).1
  after_tx p w (failed, c, _) = on_close ep false p (store p c w)

  unfoldable pub handle_out : Io → WeakPtr → Conn → World K → Result (World K)
  handle_out io p c w = do_tx io.tx c >>= after_tx p w

  -- One event of the loop, for a connection that could be locked.
  unfoldable pub handle : Ready → Io → WeakPtr → Conn → World K → Result (World K)
  handle err io p c w = on_close ep false p w
  handle readable io p c w = handle_in io p c w
  handle writable io p c w = handle_out io p c w
  handle neither io p c w = ok w

  abbrev locked : Ready → Io → World K → Option WeakPtr → Option Conn → Result (World K)
  locked ready io w (some p) (some c) = handle ready io p c w
  locked ready io w _ _ = ok w

  unfoldable pub dispatch : Ready → Io → ℕ → World K → Result (World K)
  dispatch ready io fd w = let weak = find fd w.events in locked ready io w weak (lock weak w)
