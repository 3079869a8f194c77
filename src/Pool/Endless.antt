-- ===== src/Pool/Endless.antt =====
-- http/src/pool.cpp: a pool whose jobs do not return, as the loops of linux/ev_epoll.cpp.
use beemo.Common.{
  ℕ, ◌+◌, ◌≤◌, ◌<◌, Bool, true, false, List, [], ◌∷◌, ◌++◌, ◌≡◌, refl, sym, ap, ◌∙◌, length,
  length-append, arith,
}
use beemo.Pool.{
  Worker, Pool, init, turn, submit, ready, is_ready, is_running, is_exited, tally, Step, Reach,
}
use beemo.Pool.Wakeups.{init-tally, tally-append, wake_all-Counts, Reach-IsServed}
use beemo.Pool.Order.{Reach-Queue}
use beemo.Pool.Shutdown.{Reach-IsWound}

length-none {ℓ} : {A : Type ℓ} (xs : List A) → length xs ≡ 0 → xs ≡ []
length-none [] h = refl
length-none (x ∷ xs) h = absurd (omega arith)

module _ {ℓ} {A : Type ℓ} where
  -- A job returns.
  abbrev pub is_finish : {p q : Pool A} → Step p q → Bool
  is_finish (Step.finishes xs ys job at e) = true
  is_finish _ = false

  -- Steps of the threads in which no job returns.
  pub data Endless (p : Pool A) : Pool A → Type ℓ where
    begins : Endless p p
    goes_on : {q r : Pool A} → Endless p q → (s : Step q r) → is_finish s ≡ false → Endless p r

  pub Endless-trans : {p q r : Pool A} → Endless p q → Endless q r → Endless p r
  Endless-trans e Endless.begins = e
  Endless-trans e (Endless.goes_on before s f) = Endless.goes_on (Endless-trans e before) s f

  turn-running :
      (p : Pool A) (xs ys : List (Worker A)) (js : List A)
      → p.workers ≡ xs ++ (ready ∷ ys)
      → p.jobs ≡ js
      → tally is_running p.workers ≤ tally is_running (turn xs ys p).workers
  unfolding turn
  turn-running p xs ys [] at e = rw e (grind (arith, tally-append, at))
  turn-running p xs ys (j ∷ js) at e = rw e (grind (arith, tally-append, at))

  Step-running :
      (p q : Pool A) (s : Step p q)
      → is_finish s ≡ false
      → tally is_running p.workers ≤ tally is_running q.workers
  unfolding submit
  Step-running p q (Step.locks xs ys at e) f = rw e (turn-running p xs ys p.jobs at refl)
  Step-running p q (Step.finishes xs ys job at e) f = cc
  Step-running p q (Step.spurious xs ys at e) f = rw e (grind (arith, tally-append, at))
  Step-running p q (Step.submits job e) f = rw e (ground arith)
  Step-running p q (Step.wakes xs ys k some at e) f = rw e (grind (arith, tally-append, at))
  Step-running p q (Step.missed k some absent e) f = rw e (omega arith)
  Step-running p q (Step.stops once e) f = rw e (omega arith)
  Step-running p q (Step.wakes_all some e) f = rw e (grind (arith, wake_all-Counts p.workers))

  Endless-Reach :
      (n : ℕ) (p : Pool A) {q : Pool A}
      → Reach (init n) p
      → Endless p q
      → Reach (init n) q × (tally is_running p.workers ≤ tally is_running q.workers)
  Endless-Reach n p r Endless.begins = (r, omega arith)
  Endless-Reach n p r (Endless.goes_on {q} {r = q'} before s f) =
      let (reached, more) = Endless-Reach n p r before in
      (Reach.later reached s, omega (arith, more, Step-running q q' s f))

  -- The destructor of a pool waits for ever for a job that does not return. Take a pool of `n`
  -- threads that has come to `p`, where some worker is in a job. As long as no job returns, whatever
  -- the threads do, the destructor's `stop` and its notification among it, some worker has not
  -- returned, and so one of the destructor's `n` joins does not either.
  pub Endless-exited :
      (n : ℕ) (p q : Pool A)
      → Reach (init n) p
      → 0 < tally is_running p.workers
      → Endless p q
      → tally is_exited q.workers < n
  Endless-exited n p q r some e =
      let (reached, more) = Endless-Reach n p r e in ground (arith, Reach-IsWound n reached, more)

  turn-started :
      (p : Pool A) (xs ys : List (Worker A)) (js : List A)
      → p.workers ≡ xs ++ (ready ∷ ys)
      → p.jobs ≡ js
      → tally is_running (turn xs ys p).workers + length p.started
        ≡ length (turn xs ys p).started + tally is_running p.workers
  unfolding turn
  turn-started p xs ys [] at e = rw e (grind (arith, tally-append, at))
  turn-started p xs ys (j ∷ js) at e =
      let size = length-append p.started (j ∷ []) in rw e (grind (arith, tally-append, at))

  -- Every job that was begun is still run, by a worker of its own.
  Step-started :
      (p q : Pool A) (s : Step p q)
      → is_finish s ≡ false
      → tally is_running q.workers + length p.started
        ≡ length q.started + tally is_running p.workers
  unfolding submit
  Step-started p q (Step.locks xs ys at e) f = rw e (turn-started p xs ys p.jobs at refl)
  Step-started p q (Step.finishes xs ys job at e) f = cc
  Step-started p q (Step.spurious xs ys at e) f = rw e (grind (arith, tally-append, at))
  Step-started p q (Step.submits job e) f = rw e (ground arith)
  Step-started p q (Step.wakes xs ys k some at e) f = rw e (grind (arith, tally-append, at))
  Step-started p q (Step.missed k some absent e) f = rw e (omega arith)
  Step-started p q (Step.stops once e) f = rw e (omega arith)
  Step-started p q (Step.wakes_all some e) f = rw e (grind (arith, wake_all-Counts p.workers))

  Endless-started :
      (n : ℕ) {q : Pool A} → Endless (init n) q → tally is_running q.workers ≡ length q.started
  Endless-started n Endless.begins = ground (arith, init-tally A n)
  Endless-started n (Endless.goes_on {q} {r} before s f) =
      omega (arith, Endless-started n before, Step-started q r s f)

  -- In a pool of `n` threads, as many jobs as there are threads have
  -- been accepted, none of which returns, and no stop has been asked for. Then, whenever no worker is
  -- about to lock the mutex and no notification is left to be made, each of the `n` workers is in
  -- a job, and none is left in the queue.
  pub Endless-rest :
      (n : ℕ) (q : Pool A)
      → Endless (init n) q
      → length q.accepted ≡ n
      → q.stop ≡ false
      → tally is_ready q.workers ≡ 0
      → q.signals ≡ 0
      → (tally is_running q.workers ≡ n) × (q.jobs ≡ [])
  Endless-rest n q e count on rest quiet =
      let (reached, _) = Endless-Reach n (init n) Reach.start e in
      let (awake, total) = Reach-IsServed n reached on in
      let (_, order) = Reach-Queue n reached in
      let all_in : n ≡ length q.started + length q.jobs =
        sym count ∙ ap length order ∙ length-append q.started q.jobs in
      let begun = Endless-started n e in
      let none_left : length q.jobs ≡ 0 = ground arith in
      (omega (arith, begun, all_in, none_left), length-none q.jobs none_left)
