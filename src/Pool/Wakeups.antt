-- ===== src/Pool/Wakeups.antt =====
-- http/src/pool.cpp: the counts of the workers that stand ready, asleep, in a job or at the end,
-- and that no notification is lost.
use beemo.Common.{
  ℕ, zero, suc, ◌+◌, ◌≤◌, ◌<◌, false, List, [], ◌∷◌, ◌++◌, ◌≡◌, refl, ◌⊎◌, length, length-append,
  arith,
}
use beemo.Pool.{
  Worker, Pool, init, replicate_ready, turn, submit, wake_all, ready, asleep, running, exited,
  is_ready, is_asleep, is_running, is_exited, tally, Step, Reach,
}

pub init-tally {ℓ} :
    (A : Type ℓ) (n : ℕ)
    → (tally is_ready (replicate_ready {A = A} n) ≡ n)
      × (tally is_asleep (replicate_ready {A = A} n) ≡ 0)
      × (tally is_running (replicate_ready {A = A} n) ≡ 0)
      × (tally is_exited (replicate_ready {A = A} n) ≡ 0)
init-tally A zero = (refl, refl, refl, refl)
init-tally A (suc n) = ground (arith, init-tally A n)

module _ {ℓ} {A : Type ℓ} where
  pub tally-append :
      (f : Worker A → ℕ) (xs : List (Worker A)) (w : Worker A) (ys : List (Worker A))
      → tally f (xs ++ (w ∷ ys)) ≡ tally f xs + (f w + tally f ys)
  tally-append f [] w ys = omega arith
  tally-append f (x ∷ xs) w ys = omega (arith, tally-append f xs w ys)

  -- The four counts of a list of workers.
  abbrev Counts : List (Worker A) → ℕ → ℕ → ℕ → ℕ → Type 0
  Counts ws a b c d =
      (tally is_ready ws ≡ a)
      × (tally is_asleep ws ≡ b)
      × (tally is_running ws ≡ c)
      × (tally is_exited ws ≡ d)

  pub wake_all-Counts :
      (ws : List (Worker A))
      → Counts
          (wake_all ws)
          (tally is_ready ws + tally is_asleep ws)
          0
          (tally is_running ws)
          (tally is_exited ws)
  wake_all-Counts [] = (refl, refl, refl, refl)
  wake_all-Counts (ready ∷ ws) = ground (arith, wake_all-Counts ws)
  wake_all-Counts (asleep ∷ ws) = ground (arith, wake_all-Counts ws)
  wake_all-Counts (running job ∷ ws) = ground (arith, wake_all-Counts ws)
  wake_all-Counts (exited ∷ ws) = ground (arith, wake_all-Counts ws)

  -- What holds of a pool of `n` threads until the destructor sets `stop`.
  abbrev pub IsServed : ℕ → Pool A → Type 0
  IsServed n p =
      p.stop ≡ false
      → ((tally is_asleep p.workers ≡ 0) ⊎ (length p.jobs ≤ tally is_ready p.workers + p.signals))
        × (tally is_ready p.workers + tally is_asleep p.workers + tally is_running p.workers ≡ n)

  turn-IsServed :
      (n : ℕ) (p : Pool A) (xs ys : List (Worker A)) (js : List A)
      → p.workers ≡ xs ++ (ready ∷ ys)
      → p.jobs ≡ js
      → IsServed n p
      → IsServed n (turn xs ys p)
  unfolding turn
  turn-IsServed n p xs ys [] at e inv = rw e (λ s. grind (arith, tally-append, at, e, inv))
  turn-IsServed n p xs ys (j ∷ js) at e inv = rw e (λ s. grind (arith, tally-append, at, e, inv))

  Step-IsServed : (n : ℕ) (p q : Pool A) → Step p q → IsServed n p → IsServed n q
  unfolding turn submit
  Step-IsServed n p q (Step.locks xs ys at e) inv =
      rw e (turn-IsServed n p xs ys p.jobs at refl inv)
  Step-IsServed n p q (Step.finishes xs ys job at e) inv =
      rw e (λ s. grind (arith, tally-append, at, inv s))
  Step-IsServed n p q (Step.spurious xs ys at e) inv =
      rw e (λ s. grind (arith, tally-append, at, inv s))
  Step-IsServed n p q (Step.submits job e) inv =
      rw e (λ s. ground (arith, length-append p.jobs (job ∷ []), inv))
  Step-IsServed n p q (Step.wakes xs ys k some at e) inv =
      rw e (λ s. grind (arith, tally-append, at, inv s))
  Step-IsServed n p q (Step.missed k some none e) inv = rw e (λ s. grind (arith, inv s))
  Step-IsServed n p q (Step.stops once e) inv = rw e (λ s. absurd (grind arith))
  Step-IsServed n p q (Step.wakes_all some e) inv =
      rw e (λ s. grind (arith, wake_all-Counts p.workers, inv s))

  pub Reach-IsServed : (n : ℕ) {p : Pool A} → Reach (init n) p → IsServed n p
  Reach-IsServed n Reach.start = λ s. ground (arith, init-tally A n)
  Reach-IsServed n (Reach.later {q} {r} before step) =
      Step-IsServed n q r step (Reach-IsServed n before)

  -- In a pool of `n > 0` threads that the destructor has not stopped, a queued job is never left
  -- alone: no worker sleeps or as many workers and notifications are on their way as jobs are
  -- queued, all `n` threads are still there, and if a job is queued some worker is about to lock
  -- the mutex or in a job, or a notification is pending.
  pub Reach-Served :
      (n : ℕ) {p : Pool A}
      → 0 < n
      → Reach (init n) p
      → p.stop ≡ false
      → ((tally is_asleep p.workers ≡ 0) ⊎ (length p.jobs ≤ tally is_ready p.workers + p.signals))
        × (tally is_ready p.workers + tally is_asleep p.workers + tally is_running p.workers ≡ n)
        × ((length p.jobs ≡ 0)
            ⊎ (0 < tally is_ready p.workers + tally is_running p.workers + p.signals))
  Reach-Served n some r open_yet = grind (arith, Reach-IsServed n r open_yet)
