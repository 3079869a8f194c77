-- ===== src/Server/Loops.antt =====
-- http/src/server.cpp: the loops that `start` submits to the pool.
use beemo.Common.{
  ℕ, zero, suc, ◌+◌, false, [], ◌∷◌, ◌++◌, negsuc, some, ok, length, length-append, ◌≡◌, refl, sym,
  ap, ◌∙◌, arith,
}
use beemo.Http.Config.{Config}
use beemo.Pool.{Pool, init, submit, tally, is_ready, is_running, Step}
use beemo.Pool.Endless.{Endless, Endless-trans, Endless-rest}
use beemo.Server.World.{init_world}
use beemo.Server.Life.{Loop, Server, make_server, submit_loops, start_loops}

submit_loops-Endless :
    (config : Config) (n : ℕ) (p : Pool Loop) → Endless p (submit_loops config n p)
unfolding submit_loops
submit_loops-Endless config zero p = Endless.begins
submit_loops-Endless config (suc n) p =
    let job : Loop = record { max_events = config.max_events_per_thread; timeout = negsuc 0 } in
    Endless-trans (Endless.goes_on Endless.begins (Step.submits job refl) refl)
      (submit_loops-Endless config n (submit job p))

submit_loops-accepted :
    (config : Config) (n : ℕ) (p : Pool Loop)
    → p.stop ≡ false
    → length (submit_loops config n p).accepted ≡ length p.accepted + n
unfolding submit_loops submit
submit_loops-accepted config zero p h = omega arith
submit_loops-accepted config (suc n) p h =
    let job : Loop = record { max_events = config.max_events_per_thread; timeout = negsuc 0 } in
    let next : Pool Loop = record p {
      jobs = p.jobs ++ job ∷ [];
      stop = false;
      signals = suc p.signals;
      accepted = p.accepted ++ job ∷ [];
    } in
    rw h
      (omega (arith, submit_loops-accepted config n next refl, length-append p.accepted (job ∷ [])))

-- Every loop of the server runs. Take a server that was made, and has submitted its loops, and let
-- its threads take any steps in which no loop returns, nothing more is submitted and no stop is asked
-- for. Then, whenever no worker is about to lock the mutex and no notification is left to be made,
-- each of the threads of the pool is in a loop, and none is left in the queue.
pub start_loops-running :
    {K : Type 0} (config : Config) (k : K) (s : Server K) (q : Pool Loop)
    → make_server config (some k) ≡ ok s
    → Endless (start_loops config s).workers q
    → q.accepted ≡ (start_loops config s).workers.accepted
    → q.stop ≡ false
    → tally is_ready q.workers ≡ 0
    → q.signals ≡ 0
    → (tally is_running q.workers ≡ config.num_req_handler_threads) × (q.jobs ≡ [])
unfolding make_server start_loops
start_loops-running {K} config k s q made e same on rest quiet =
    let n = config.num_req_handler_threads in
    let fresh : Server K = record { world = init_world k; workers = init n } in
    let is_fresh : fresh ≡ s = cc in
    let pool : s.workers ≡ init n = ap (λ x. x.workers) (sym is_fresh) in
    let from : Endless (init n) (submit_loops config n s.workers) =
      rw pool (submit_loops-Endless config n (init n)) in
    let count : length (submit_loops config n s.workers).accepted ≡ n =
      rw pool (submit_loops-accepted config n (init n) refl ∙ omega arith) in
    Endless-rest n q (Endless-trans from e) (ap length same ∙ count) on rest quiet
