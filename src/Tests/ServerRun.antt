-- ===== src/Tests/ServerRun.antt =====
-- A run of the server: a connection arrives, and an event for it.
use beemo.Common.{ℕ, false, [], ◌∷◌, some, ◌≡◌, refl}
use beemo.Http.Config.{default_config}
use beemo.Server.Rx.{Env}
use beemo.Server.Table.{find, insert}
use beemo.Server.World.{WeakPtr, World, readable, waiting, init_world, init_conn, lock, lock}
use beemo.Server.Handlers.{begin_conn}
use beemo.Server.Sound.{IsSound, Holds}
use beemo.Server.Steps.{Step, Reach}
use beemo.Server.Serving.{Reach-IsSound}
use beemo.Tests.HeaderClaims.{memory}
use beemo.Tests.Kernel.{Interest, kernel}

abbrev pub env : Env
env = record { config = default_config; handlers = []; memory = memory; status = 0; fuel = 100 }

-- The connection with the descriptor 5 has been taken in, and an event has come for it.
abbrev pub pointer : WeakPtr
pointer = record { handle = 5; id = 0 }

abbrev pub serving : World Interest
serving = record {
  conns = (5, record { id = 0; conn = init_conn env }) ∷ [];
  events = (5, pointer) ∷ [];
  made = 1;
  kernel = (5, false) ∷ [];
  main = waiting;
  pending = (5, readable) ∷ [];
}

pub serving-Reach : Reach kernel default_config false (init_world []) serving
unfolding kernel begin_conn insert find lock
serving-Reach =
    Reach.later
      (Reach.later
        (Reach.later (Reach.later Reach.start (Step.checks refl refl refl))
          (Step.accepts env 5 refl refl refl))
        (Step.records pointer refl refl))
      (Step.waits 5 readable refl (λ e. (λ f. cc, λ p f. absurd cc)) refl)

pub new_kernel : (fd : ℕ) → kernel.watched fd [] ≡ false
unfolding kernel find
new_kernel fd = refl

pub serving_found : find 5 serving.conns ≡ some (record { id = 0; conn = init_conn env })
unfolding find
serving_found = refl

pub new_off : (fd : ℕ) → kernel.armed fd [] ≡ false
unfolding kernel find
new_off fd = refl

pub serving-IsSound : IsSound kernel serving
serving-IsSound = Reach-IsSound kernel default_config false [] serving new_kernel serving-Reach

serving_current : find 5 serving.events ≡ some pointer
unfolding find
serving_current = refl

pub serving-Holds : Holds kernel pointer serving
serving-Holds = (record { id = 0; conn = init_conn env }, serving_found, refl, serving_current)
