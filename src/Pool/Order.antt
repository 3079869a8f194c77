-- ===== src/Pool/Order.antt =====
-- http/src/pool.cpp: the pool as a first-in first-out queue that can be closed.
use beemo.Common.{Bool, true, false, List, [], ◌∷◌, ◌++◌, ◌≡◌, refl, ◌∙◌, sym, ℕ, append_assoc}
use beemo.Pool.{Worker, Pool, init, turn, submit, Step, Reach}

-- What a caller sees: the jobs waiting, the jobs taken so far, and whether the queue is closed.
pub record Queue {ℓ} (A : Type ℓ) : Type ℓ where
  pub waiting : List A
  pub taken : List A
  pub closed : Bool

module _ {ℓ} {A : Type ℓ} where
  abbrev pub view : Pool A → Queue A
  view p = record { waiting = p.jobs; taken = p.started; closed = p.stop }

  pub data Move (u v : Queue A) : Type ℓ where
    stay : v ≡ u → Move u v
    push :
        (job : A) → u.closed ≡ false → v ≡ record u { waiting = u.waiting ++ job ∷ [] } → Move u v
    pop :
        (job : A) (rest : List A)
        → u.closed ≡ false
        → u.waiting ≡ job ∷ rest
        → v ≡ record u { waiting = rest; taken = u.taken ++ job ∷ [] }
        → Move u v
    close : v ≡ record u { closed = true } → Move u v

  turn-Move :
      (p : Pool A) (xs ys : List (Worker A)) (b : Bool) (js : List A)
      → p.stop ≡ b
      → p.jobs ≡ js
      → Move (view p) (view (turn xs ys p))
  unfolding turn
  turn-Move p xs ys false [] s e = rw (e, s) (Move.stay refl)
  turn-Move p xs ys false (j ∷ js) s e = rw (e, s) (Move.pop j js refl refl refl)
  turn-Move p xs ys true [] s e = rw (e, s) (Move.stay refl)
  turn-Move p xs ys true (j ∷ js) s e = rw (e, s) (Move.stay refl)

  submit-Move : (p : Pool A) (job : A) (b : Bool) → p.stop ≡ b → Move (view p) (view (submit job p))
  unfolding submit
  submit-Move p job false s = rw s (Move.push job refl refl)
  submit-Move p job true s = rw s (Move.stay refl)

  Step-Move : {p q : Pool A} → Step p q → Move (view p) (view q)
  Step-Move {p} {q} (Step.locks xs ys at e) = rw e (turn-Move p xs ys p.stop p.jobs refl refl)
  Step-Move {p} {q} (Step.finishes xs ys job at e) = Move.stay (rw e refl)
  Step-Move {p} {q} (Step.spurious xs ys at e) = Move.stay (rw e refl)
  Step-Move {p} {q} (Step.submits job e) = rw e (submit-Move p job p.stop refl)
  Step-Move {p} {q} (Step.wakes xs ys k some at e) = Move.stay (rw e refl)
  Step-Move {p} {q} (Step.missed k some absent e) = Move.stay (rw e refl)
  Step-Move {p} {q} (Step.stops once e) = Move.close (rw e refl)
  Step-Move {p} {q} (Step.wakes_all some e) = Move.stay (rw e refl)

  -- The runs of the abstract queue.
  pub data Moves (u : Queue A) : Queue A → Type ℓ where
    begin : Moves u u
    more : {v w : Queue A} → Moves u v → Move v w → Moves u w

  abbrev pub empty_queue : Queue A
  empty_queue = record { waiting = []; taken = []; closed = false }

  Reach-Moves : (n : ℕ) {p : Pool A} → Reach (init n) p → Moves empty_queue (view p)
  Reach-Moves n Reach.start = Moves.begin
  Reach-Moves n (Reach.later before step) = Moves.more (Reach-Moves n before) (Step-Move step)

  -- What the queue accepted is what was started, in order, followed by what waits.
  abbrev IsInOrder : Pool A → Type ℓ
  IsInOrder p = p.accepted ≡ p.started ++ p.jobs

  turn-IsInOrder :
      (p : Pool A) (xs ys : List (Worker A)) (b : Bool) (js : List A)
      → p.stop ≡ b
      → p.jobs ≡ js
      → p.accepted ≡ p.started ++ js
      → IsInOrder (turn xs ys p)
  unfolding turn
  turn-IsInOrder p xs ys false [] s e inv = rw (e, s) inv
  turn-IsInOrder p xs ys false (j ∷ js) s e inv =
      rw (e, s) (inv ∙ sym (append_assoc p.started (j ∷ []) js))
  turn-IsInOrder p xs ys true [] s e inv = rw (e, s) inv
  turn-IsInOrder p xs ys true (j ∷ js) s e inv = rw (e, s) inv

  submit-IsInOrder :
      (p : Pool A) (job : A) (b : Bool) → p.stop ≡ b → IsInOrder p → IsInOrder (submit job p)
  unfolding submit
  submit-IsInOrder p job false s inv = rw s (rw inv (append_assoc p.started p.jobs (job ∷ [])))
  submit-IsInOrder p job true s inv = rw s inv

  Step-IsInOrder : {p q : Pool A} → Step p q → IsInOrder p → IsInOrder q
  Step-IsInOrder {p} {q} (Step.locks xs ys at e) inv =
      rw e (turn-IsInOrder p xs ys p.stop p.jobs refl refl inv)
  Step-IsInOrder {p} {q} (Step.submits job e) inv = rw e (submit-IsInOrder p job p.stop refl inv)
  Step-IsInOrder {p} {q} (Step.finishes xs ys job at e) inv = rw e inv
  Step-IsInOrder {p} {q} (Step.spurious xs ys at e) inv = rw e inv
  Step-IsInOrder {p} {q} (Step.wakes xs ys k some at e) inv = rw e inv
  Step-IsInOrder {p} {q} (Step.missed k some absent e) inv = rw e inv
  Step-IsInOrder {p} {q} (Step.stops once e) inv = rw e inv
  Step-IsInOrder {p} {q} (Step.wakes_all some e) inv = rw e inv

  Reach-IsInOrder : (n : ℕ) {p : Pool A} → Reach (init n) p → IsInOrder p
  Reach-IsInOrder n Reach.start = refl
  Reach-IsInOrder n (Reach.later before step) = Step-IsInOrder step (Reach-IsInOrder n before)

  -- The pool implements a first-in first-out queue that can be closed. Whatever the interleaving
  -- of its threads, a pool that has come to `p` from its start is, as a caller sees it, in a state
  -- that the abstract queue comes to by pushing a job at the end, taking the one at the front, or
  -- closing, with nothing pushed or taken once it is closed; and the jobs accepted so far are those
  -- started, in the same order, followed by those that wait.
  pub Reach-Queue :
      (n : ℕ) {p : Pool A}
      → Reach (init n) p
      → Moves empty_queue (view p) × (p.accepted ≡ p.started ++ p.jobs)
  Reach-Queue n r = (Reach-Moves n r, Reach-IsInOrder n r)
