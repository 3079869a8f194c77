-- ===== src/Server/Steps.antt =====
-- The threads of the server, interleaved: the loop of `start` in http/src/server.cpp, and the
-- workers that run `evloop::loop` of linux/ev_epoll.cpp.
use beemo.Common.{false, ◌≢◌, ℕ, Bool, true, List, ◌∷◌, ◌++◌, none, ◌≡◌, ltb, length, ok}
use beemo.Http.Config.{Config}
use beemo.Server.Epoll.{Epoll}
use beemo.Server.Rx.{Env}
use beemo.Server.Table.{find}
use beemo.Server.World.{
  World, Ready, neither, waiting, accepting, returned, registering, Main, WeakPtr,
}
use beemo.Server.Handlers.{Io, dispatch, begin_conn, record_event}

module _ {K : Type 0} (ep : Epoll K) (config : Config) where
  -- The wait of `start` finds room.
  abbrev pub has_room : World K → Bool
  has_room w = ltb (length w.conns) config.max_concurrent_connections

  -- The event has one of the bits that `loop` looks at (EPOLLHUP alone is none), and is not for the
  -- connection that `start` is registering.
  abbrev pub IsPlain : Ready → ℕ → Main → Type 0
  IsPlain ready fd m = (ready ≢ neither) × ((p : WeakPtr) → m ≡ registering p → p.handle ≢ fd)

  -- A step of a thread. The kernel's part: `accept` gives a descriptor that is not open, so not in
  -- the table; `epoll_wait` tells only of armed ones. `strays` says whether an event may be other
  -- than plain. A worker runs a handler whole, once it has its event; the tables that handlers share
  -- are locked where they use them.
  pub data Step (strays : Bool) (w v : World K) : Type 0 where
    checks :
        w.main ≡ waiting → has_room w ≡ true → v ≡ record w { main = accepting } → Step strays w v
    accepts :
        (env : Env) (fd : ℕ)
        → w.main ≡ accepting
        → find fd w.conns ≡ none
        → v ≡ begin_conn ep env fd w
        → Step strays w v
    records :
        (p : WeakPtr)
        → w.main ≡ registering p
        → v ≡ record (record_event p w) { main = waiting }
        → Step strays w v
    -- `accept`, or making the socket non-blocking, throws `transport_err`.
    fails : w.main ≡ accepting → v ≡ record w { main = returned } → Step strays w v
    waits :
        (fd : ℕ) (ready : Ready)
        → ep.armed fd w.kernel ≡ true
        → (strays ≡ false → IsPlain ready fd w.main)
        → v ≡ record w { kernel = ep.deliver fd w.kernel; pending = (fd, ready) ∷ w.pending }
        → Step strays w v
    handles :
        (env : Env) (fd : ℕ) (ready : Ready) (io : Io) (xs ys : List (ℕ × Ready))
        → w.pending ≡ xs ++ ((fd, ready) ∷ ys)
        → dispatch ep env ready io fd (record w { pending = xs ++ ys }) ≡ ok v
        → Step strays w v

  pub data Reach (strays : Bool) (w : World K) : World K → Type 0 where
    start : Reach strays w w
    later : {v u : World K} → Reach strays w v → Step strays v u → Reach strays w u
