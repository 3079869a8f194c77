-- ===== src/Pool/Shutdown.antt =====
-- http/src/pool.cpp: what follows the destructor's `stop = true`.
use beemo.Common.{
  ℕ, ◌+◌, ◌*◌, ◌<◌, true, false, List, [], ◌∷◌, ◌++◌, ◌≡◌, refl, ap, ◌⊎◌, inl, inr, arith,
  zero-cases,
}
use beemo.Pool.{
  Worker, Pool, init, turn, submit, ready, asleep, running, exited, is_ready, is_asleep, is_running,
  is_exited, tally, Step, Reach,
}
use beemo.Pool.Wakeups.{tally-append, wake_all-Counts, init-tally}

module _ {ℓ} {A : Type ℓ} where
  -- What holds of a pool of `n` threads.
  abbrev pub IsWound : ℕ → Pool A → Type 0
  IsWound n p =
      (tally is_ready p.workers
          + tally is_asleep p.workers
          + tally is_running p.workers
          + tally is_exited p.workers
        ≡ n)
      × (p.stop ≡ true → p.broadcast ≡ false → tally is_asleep p.workers ≡ 0)
      × (p.stop ≡ false → p.broadcast ≡ false)

  turn-IsWound :
      (n : ℕ) (p : Pool A) (xs ys : List (Worker A)) (js : List A)
      → p.workers ≡ xs ++ (ready ∷ ys)
      → p.jobs ≡ js
      → IsWound n p
      → IsWound n (turn xs ys p)
  unfolding turn
  turn-IsWound n p xs ys [] at e inv = rw e (grind (arith, tally-append, at, inv))
  turn-IsWound n p xs ys (j ∷ js) at e inv = rw e (grind (arith, tally-append, at, inv))

  Step-IsWound : (n : ℕ) (p q : Pool A) → Step p q → IsWound n p → IsWound n q
  unfolding submit
  Step-IsWound n p q (Step.locks xs ys at e) inv = rw e (turn-IsWound n p xs ys p.jobs at refl inv)
  Step-IsWound n p q (Step.finishes xs ys job at e) inv =
      rw e (grind (arith, tally-append, at, inv))
  Step-IsWound n p q (Step.spurious xs ys at e) inv = rw e (grind (arith, tally-append, at, inv))
  Step-IsWound n p q (Step.submits job e) inv = rw e (ground (arith, inv))
  Step-IsWound n p q (Step.wakes xs ys k some at e) inv =
      rw e (grind (arith, tally-append, at, inv))
  Step-IsWound n p q (Step.missed k some absent e) inv = rw e inv
  Step-IsWound n p q (Step.stops once e) inv =
      rw e (inv.0, λ s b. absurd (ground (arith, b)), λ s. absurd (ground (arith, s)))
  Step-IsWound n p q (Step.wakes_all some e) inv =
      rw e (grind (arith, wake_all-Counts p.workers, inv))

  pub Reach-IsWound : (n : ℕ) {p : Pool A} → Reach (init n) p → IsWound n p
  Reach-IsWound n Reach.start = ground (arith, init-tally A n)
  Reach-IsWound n (Reach.later {q} {r} before step) =
      Step-IsWound n q r step (Reach-IsWound n before)

  -- What the workers have left to do before they all have returned.
  abbrev pub left : Pool A → ℕ
  left p = tally is_ready p.workers + 2 * tally is_running p.workers

  turn-Stopped :
      (p : Pool A) (xs ys : List (Worker A)) (js : List A)
      → p.jobs ≡ js
      → p.stop ≡ true
      → turn xs ys p ≡ record p { workers = xs ++ (exited ∷ ys) }
  unfolding turn
  turn-Stopped p xs ys [] e s = rw (e, s) refl
  turn-Stopped p xs ys (j ∷ js) e s = rw (e, s) refl

  -- Once the sleepers are woken, a step changes no worker or takes one closer to its return.
  Step-left :
      (p q : Pool A)
      → Step p q
      → p.stop ≡ true
      → p.broadcast ≡ false
      → tally is_asleep p.workers ≡ 0
      → ((q.workers ≡ p.workers) ⊎ (left q < left p)) × (q.started ≡ p.started) × (q.stop ≡ true)
  unfolding submit
  Step-left p q (Step.locks xs ys at e) s b a =
      rw (e, turn-Stopped p xs ys p.jobs refl s) (grind (arith, tally-append, at))
  Step-left p q (Step.finishes xs ys job at e) s b a = rw e (grind (arith, tally-append, at))
  Step-left p q (Step.spurious xs ys at e) s b a = absurd (grind (arith, tally-append, at))
  Step-left p q (Step.submits job e) s b a = rw (e, s) (inl refl, refl, refl)
  Step-left p q (Step.wakes xs ys k some at e) s b a = absurd (grind (arith, tally-append, at))
  Step-left p q (Step.missed k some absent e) s b a = rw e (inl refl, refl, s)
  Step-left p q (Step.stops once e) s b a = absurd (ground arith)
  Step-left p q (Step.wakes_all some e) s b a = absurd (ground arith)

  -- A worker that is not asleep and has not returned.
  data Pending (ws : List (Worker A)) : Type ℓ where
    at_ready : (xs ys : List (Worker A)) → ws ≡ xs ++ (ready ∷ ys) → Pending ws
    at_running : (xs ys : List (Worker A)) (job : A) → ws ≡ xs ++ (running job ∷ ys) → Pending ws

  after : (w : Worker A) (ws : List (Worker A)) → Pending ws → Pending (w ∷ ws)
  after w ws (Pending.at_ready xs ys e) = Pending.at_ready (w ∷ xs) ys (ap (◌∷◌ w) e)
  after w ws (Pending.at_running xs ys job e) = Pending.at_running (w ∷ xs) ys job (ap (◌∷◌ w) e)

  pending : (ws : List (Worker A)) → 0 < tally is_ready ws + 2 * tally is_running ws → Pending ws
  pending [] h = absurd (omega arith)
  pending (ready ∷ ws) h = Pending.at_ready [] ws refl
  pending (asleep ∷ ws) h = after asleep ws (pending ws (omega arith))
  pending (running job ∷ ws) h = Pending.at_running [] ws job refl
  pending (exited ∷ ws) h = after exited ws (pending ws (omega arith))

  Pending-Step :
      (p : Pool A) → Pending p.workers → p.stop ≡ true → (q : Pool A) × Step p q × (left q < left p)
  Pending-Step p (Pending.at_ready xs ys at) s = (
    turn xs ys p,
    Step.locks xs ys at refl,
    rw (turn-Stopped p xs ys p.jobs refl s) (grind (arith, tally-append, at)),
  )
  Pending-Step p (Pending.at_running xs ys job at) s = (
    record p { workers = xs ++ (ready ∷ ys) },
    Step.finishes xs ys job at refl,
    grind (arith, tally-append, at),
  )

  -- The destructor's joins return. In a pool of `n` threads that has come to `p`, where the
  -- destructor has set `stop` and its `notify_all` has run, no worker sleeps, and all `n` workers
  -- have returned or some thread can take a step that makes `left p`, the work until they have,
  -- smaller.
  pub Reach-Ends :
      (n : ℕ) (p : Pool A)
      → Reach (init n) p
      → p.stop ≡ true
      → p.broadcast ≡ false
      → (tally is_asleep p.workers ≡ 0)
        × ((tally is_exited p.workers ≡ n) ⊎ ((q : Pool A) × Step p q × (left q < left p)))
  Reach-Ends n p r s b =
      let inv = Reach-IsWound n r in
      let quiet = inv.1 s b in
      elim (zero-cases (left p)) [
        | inl none ↦ (quiet, inl (ground (arith, inv, quiet)))
        | inr some ↦ (quiet, inr (Pending-Step p (pending p.workers some) s))
      ]

  -- Nothing is begun once the pool is stopped. In a pool of `n` threads that has come to `p`, where
  -- the destructor has set `stop` and its `notify_all` has run, every step of a thread leaves the
  -- workers as they are or makes `left p` smaller, takes no job from the queue, and leaves the pool
  -- stopped.
  pub Step-Stopped :
      (n : ℕ) (p q : Pool A)
      → Reach (init n) p
      → p.stop ≡ true
      → p.broadcast ≡ false
      → Step p q
      → ((q.workers ≡ p.workers) ⊎ (left q < left p)) × (q.started ≡ p.started) × (q.stop ≡ true)
  Step-Stopped n p q r s b step = Step-left p q step s b ((Reach-IsWound n r).1 s b)
