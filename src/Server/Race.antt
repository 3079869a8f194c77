-- ===== src/Server/Race.antt =====
-- http/src/server.cpp and linux/ev_epoll.cpp: an event between the two halves of the first `reg`.
use beemo.Common.{ℕ, true, false, [], ◌∷◌, none, some, ◌≡◌, refl}
use beemo.Http.Config.{Config}
use beemo.Server.Epoll.{Epoll}
use beemo.Server.Rx.{Env}
use beemo.Server.Table.{find}
use beemo.Server.World.{Object, WeakPtr, World, Ready, accepting, waiting}
use beemo.Server.Handlers.{Io, begin_conn, record_event}
use beemo.Server.Sound.{IsSound}
use beemo.Server.Dispatched.{dispatch-registering}
use beemo.Server.Arrival.{begin_conn-Arrives}
use beemo.Server.Steps.{Step, Reach}
use beemo.Server.Serving.{IsSound-same, same_main}

module _ {K : Type 0} (ep : Epoll K) (config : Config) where
  -- A connection can be lost before it is served. From every state in which `accept` is to return
  -- and the tables agree, on a new descriptor, the threads can come to a state in which `start`
  -- waits for the next connection, the new one stands in the table, no worker has an event for it
  -- that it had not before, and the kernel is set to tell of none: an event of any kind comes as soon
  -- as `epoll_ctl` has returned, and is passed over, since `events_` is not yet assigned.
  pub begin_conn-lost :
      (env : Env) (ready : Ready) (fd : ℕ) (w : World K)
      → IsSound ep w
      → w.main ≡ accepting
      → find fd w.conns ≡ none
      → (v : World K) × Reach ep config true w v
        × (v.main ≡ waiting)
        × ((o : Object) × (find fd v.conns ≡ some o))
        × (v.pending ≡ w.pending)
        × (ep.armed fd v.kernel ≡ false)
  begin_conn-lost env ready fd w inv m fresh =
      let io : Io = record { rx = []; tx = [] } in
      let p : WeakPtr = record { handle = fd; id = w.made } in
      let a = begin_conn-Arrives ep env fd w inv m fresh in
      let (o, at, on) = a.here in
      let w₁ = begin_conn ep env fd w in
      let w₂ = record w₁ { kernel = ep.deliver fd w₁.kernel; pending = (fd, ready) ∷ w₁.pending } in
      let w₃ = record w₂ { pending = w₁.pending } in
      let sound =
        IsSound-same ep config w₁ w₃ a.sound refl refl refl (λ g. ep.deliver_watched fd g w₁.kernel)
          (same_main ep config w₁) in
      (
        record (record_event p w₃) { main = waiting },
        Reach.later
            (Reach.later
              (Reach.later (Reach.later Reach.start (Step.accepts env fd m fresh refl))
                (Step.waits fd ready on (λ e. absurd cc) refl))
              (Step.handles env fd ready io [] w₁.pending refl
                (dispatch-registering ep env ready io p w₃ sound a.main)))
            (Step.records p a.main refl),
        refl,
        (o, at),
        a.pending,
        ep.deliver_armed fd w₁.kernel,
      )
