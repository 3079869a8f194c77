-- ===== src/Tests/LoopClaims.antt =====
-- The server's pool, of two threads, each in a loop.
use beemo.Common.{◌<◌, [], ◌∷◌, negsuc, some, ok, ◌≡◌, refl, arith}
use beemo.Http.Config.{Config, default_config}
use beemo.Pool.{
  Pool, init, turn, submit, ready, running, is_running, is_exited, tally, request_stop, Step, Reach,
}
use beemo.Pool.Endless.{Endless, Endless-exited}
use beemo.Server.World.{init_world}
use beemo.Server.Life.{Loop, Server, make_server, start_loops}
use beemo.Server.Loops.{start_loops-running}
use beemo.Tests.Kernel.{Interest}

abbrev config : Config
config = record default_config { num_req_handler_threads = 2 }

abbrev made : Server Interest
made = record { world = init_world []; workers = init 2 }

abbrev loop : Loop
loop = record { max_events = 1024; timeout = negsuc 0 }

abbrev submitted : Pool Loop
submitted = submit loop (submit loop (init 2))

abbrev one : Pool Loop
one = turn [] (ready ∷ []) submitted

abbrev two : Pool Loop
two = turn (running loop ∷ []) [] one

abbrev at_rest : Pool Loop
at_rest = record two { signals = 0 }

make_server_lem : make_server config (some []) ≡ ok made
unfolding make_server
make_server_lem = refl

at_rest-Endless : Endless (start_loops config made).workers at_rest
unfolding start_loops submit turn
at_rest-Endless =
    Endless.goes_on
      (Endless.goes_on
        (Endless.goes_on
          (Endless.goes_on Endless.begins (Step.locks [] (ready ∷ []) refl refl) refl)
          (Step.locks (running loop ∷ []) [] refl refl) refl)
        (Step.missed 1 refl refl refl) refl)
      (Step.missed 0 refl refl refl) refl

start_loops-running_example : (tally is_running at_rest.workers ≡ 2) × (at_rest.jobs ≡ [])
unfolding start_loops submit turn
start_loops-running_example =
    start_loops-running config [] made at_rest make_server_lem at_rest-Endless refl refl refl refl

two-Reach : Reach (init 2) two
unfolding submit turn
two-Reach =
    Reach.later
      (Reach.later
        (Reach.later (Reach.later Reach.start (Step.submits loop refl)) (Step.submits loop refl))
        (Step.locks [] (ready ∷ []) refl refl))
      (Step.locks (running loop ∷ []) [] refl refl)

-- The destructor asks for a stop while both are in their loops.
Endless-exited_example : tally is_exited (request_stop two).workers < 2
unfolding submit turn
Endless-exited_example =
    Endless-exited 2 two (request_stop two) two-Reach (omega arith)
      (Endless.goes_on Endless.begins (Step.stops refl refl) refl)
