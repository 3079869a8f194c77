-- ===== src/Server/Life.antt =====
-- http/src/server.cpp and linux/ev_epoll.cpp: the server's construction, the loops that it starts, and
-- its end.
use beemo.Common.{
  ℕ, zero, suc, ℤ, negsuc, Option, none, some, Result, ok, throw, undefined, std_exception, ◌>>=◌,
}
use beemo.Http.Config.{Config}
use beemo.Pool.{Pool, init, submit}
use beemo.Server.Epoll.{Epoll}
use beemo.Server.Handlers.{destroy}
use beemo.Server.World.{World, init_world}

-- `evloop(max_evs)`, with what `epoll_create` gives; `none` is the error -1.
unfoldable pub make_evloop : {K : Type 0} → Option K → Result K
make_evloop none = throw std_exception
make_evloop (some k) = ok k

-- `~evloop`: `delete[]` of an object that `new` made.
unfoldable pub destroy_evloop : {K : Type 0} → K → Result K
destroy_evloop k = undefined

-- `evloop_->loop(max_events, timeout)`, as a job.
pub record Loop : Type 0 where
  pub max_events : ℕ
  pub timeout : ℤ

-- The server's connections and event loop, and its pool.
pub record Server (K : Type 0) : Type 0 where
  pub world : World K
  pub workers : Pool Loop

-- The first loop of `start`.
unfoldable pub submit_loops : Config → ℕ → Pool Loop → Pool Loop
unfolding submit
submit_loops config zero p = p
submit_loops config (suc n) p =
    submit_loops config n
      (submit (record { max_events = config.max_events_per_thread; timeout = negsuc 0 }) p)

module _ {K : Type 0} where
  -- `server(config)`
  unfoldable pub make_server : Config → Option K → Result (Server K)
  unfolding make_evloop
  make_server config created = make_evloop created >>= λ k.
      ok (record { world = init_world k; workers = init config.num_req_handler_threads })

  unfoldable pub start_loops : Config → Server K → Server K
  unfolding submit_loops
  start_loops config s = record s {
    workers = submit_loops config config.num_req_handler_threads s.workers;
  }

  -- `~server`, and then the members, the last declared first: the event loop goes before the pool,
  -- whose workers run in it.
  unfoldable pub destroy_server : Epoll K → Server K → Result (World K)
  unfolding destroy_evloop
  destroy_server ep s =
      destroy ep s.world >>= λ w. destroy_evloop w.kernel >>= λ k. ok (record w { kernel = k })
