-- ===== src/Tests/PoolClaims.antt =====
-- The theorems on the thread pool at a pool of one worker and one of two.
use beemo.Common.{ℕ, ◌+◌, ◌<◌, true, [], ◌∷◌, ◌++◌, length, ◌≡◌, refl, ◌⊎◌, ◌≤◌, arith}
use beemo.Pool.{
  Pool, init, turn, submit, ready, is_ready, is_asleep, is_running, is_exited, tally, Step, Reach,
}
use beemo.Pool.Order.{Moves, empty_queue, view, Reach-Queue}
use beemo.Pool.Wakeups.{Reach-Served}
use beemo.Pool.Shutdown.{left, Reach-Ends, Step-Stopped}

-- A worker goes to sleep; two jobs, 7 and 8, are submitted, and the worker is woken and takes 7.
abbrev two_jobs : Pool ℕ
two_jobs = submit 8 (submit 7 (turn [] [] (init 1)))

abbrev woken : Pool ℕ
woken = record two_jobs { signals = 1; workers = ready ∷ [] }

abbrev served : Pool ℕ
served = turn [] [] woken

woken-Reach : Reach (init 1) woken
unfolding turn submit
woken-Reach =
    Reach.later
      (Reach.later
        (Reach.later (Reach.later Reach.start (Step.locks [] [] refl refl)) (Step.submits 7 refl))
        (Step.submits 8 refl))
      (Step.wakes [] [] 1 refl refl refl)

Reach-Queue_example :
    Moves empty_queue (view served) × (served.accepted ≡ served.started ++ served.jobs)
Reach-Queue_example = Reach-Queue 1 (Reach.later woken-Reach (Step.locks [] [] refl refl))

Reach-Served_example :
    ((tally is_asleep woken.workers ≡ 0)
      ⊎ (length woken.jobs ≤ tally is_ready woken.workers + woken.signals))
    × (tally is_ready woken.workers + tally is_asleep woken.workers + tally is_running woken.workers
        ≡ 1)
    × ((length woken.jobs ≡ 0)
        ⊎ (0 < tally is_ready woken.workers + tally is_running woken.workers + woken.signals))
unfolding turn submit
Reach-Served_example = Reach-Served 1 (omega arith) woken-Reach refl

-- The worker is in the job 7 with 8 waiting when the destructor runs.
abbrev stopping : Pool ℕ
stopping = record served { stop = true }

stopping-Reach : Reach (init 1) stopping
unfolding turn submit
stopping-Reach =
    Reach.later
      (Reach.later (Reach.later woken-Reach (Step.locks [] [] refl refl)) (Step.stops refl refl))
      (Step.wakes_all refl refl)

Reach-Ends_example :
    (tally is_asleep stopping.workers ≡ 0)
    × ((tally is_exited stopping.workers ≡ 1)
        ⊎ ((q : Pool ℕ) × Step stopping q × (left q < left stopping)))
unfolding turn submit
Reach-Ends_example = Reach-Ends 1 stopping stopping-Reach refl refl

abbrev freed : Pool ℕ
freed = record stopping { workers = ready ∷ [] }

Step-Stopped_example :
    ((freed.workers ≡ stopping.workers) ⊎ (left freed < left stopping))
    × (freed.started ≡ stopping.started)
    × (freed.stop ≡ true)
unfolding turn submit
Step-Stopped_example =
    Step-Stopped 1 stopping freed stopping-Reach refl refl (Step.finishes [] [] 7 refl refl)
