-- ===== src/Pool.antt =====
-- http/src/pool.cpp and http/include/http/pool.h: the queue of jobs, the workers and the condition
-- variable, interleaved at the sections that hold `job_mutex`.
pub mod Wakeups
pub mod Order
pub mod Shutdown
pub mod Endless
use beemo.Common.{
  ℕ, zero, suc, ◌+◌, Bool, true, false, not, ◌&&◌, List, [], ◌∷◌, ◌++◌, ◌≡◌, is_empty,
  if◌then◌else◌,
}

-- Where a worker stands: before it locks the mutex, in `condition.wait` with no notification,
-- in a job, or past its `return`.
pub data Worker {ℓ} (A : Type ℓ) : Type ℓ where
  ready asleep : Worker A
  running : A → Worker A
  exited : Worker A

-- The members, with the calls of `notify_one` and `notify_all` that are still to be made, which
-- come after the mutex is unlocked. `accepted` and `started` record the jobs in the order in which
-- they entered the queue and left it.
pub record Pool {ℓ} (A : Type ℓ) : Type ℓ where
  pub jobs : List A
  pub stop : Bool
  pub workers : List (Worker A)
  pub signals : ℕ
  pub broadcast : Bool
  pub accepted : List A
  pub started : List A

module _ {ℓ} {A : Type ℓ} where
  abbrev pub replicate_ready : ℕ → List (Worker A)
  replicate_ready zero = []
  replicate_ready (suc n) = ready ∷ replicate_ready n

  -- `pool(thread_num, …)`
  abbrev pub init : ℕ → Pool A
  init thread_num = record {
    jobs = [];
    stop = false;
    workers = replicate_ready thread_num;
    signals = 0;
    broadcast = false;
    accepted = [];
    started = [];
  }

  -- The section of a worker: the test of the wait, and what follows it.
  abbrev take_job : List (Worker A) → List (Worker A) → Pool A → List A → Pool A
  take_job before after p [] = record p { workers = before ++ (asleep ∷ after) }
  take_job before after p (job ∷ rest) = record p {
    workers = before ++ (running job ∷ after);
    jobs = rest;
    started = p.started ++ job ∷ [];
  }

  unfoldable pub turn : List (Worker A) → List (Worker A) → Pool A → Pool A
  turn before after p =
      if is_empty p.jobs && not p.stop
      then record p { workers = before ++ (asleep ∷ after) }
      else if p.stop
      then record p { workers = before ++ (exited ∷ after) }
      else take_job before after p p.jobs

  -- `submit`, up to the notification.
  unfoldable pub submit : A → Pool A → Pool A
  submit job p = if p.stop then p else record p {
    jobs = p.jobs ++ job ∷ [];
    signals = suc p.signals;
    accepted = p.accepted ++ job ∷ [];
  }

  -- The section of the destructor.
  abbrev pub request_stop : Pool A → Pool A
  request_stop p = record p { stop = true; broadcast = true }

  abbrev wake : Worker A → Worker A
  wake ready = ready
  wake asleep = ready
  wake (running job) = running job
  wake exited = exited

  abbrev pub wake_all : List (Worker A) → List (Worker A)
  wake_all [] = []
  wake_all (w ∷ ws) = wake w ∷ wake_all ws

  abbrev pub is_asleep : Worker A → ℕ
  is_asleep asleep = 1
  is_asleep _ = 0

  abbrev pub is_ready : Worker A → ℕ
  is_ready ready = 1
  is_ready _ = 0

  abbrev pub is_running : Worker A → ℕ
  is_running (running job) = 1
  is_running _ = 0

  abbrev pub is_exited : Worker A → ℕ
  is_exited exited = 1
  is_exited _ = 0

  -- How many workers stand so.
  abbrev pub tally : (Worker A → ℕ) → List (Worker A) → ℕ
  tally f [] = 0
  tally f (w ∷ ws) = f w + tally f ws

  -- A step of one thread. `wakes` is a notification that finds a worker asleep, `missed` one that
  -- finds none, `spurious` a wakeup with no notification; the destructor runs once.
  pub data Step (p q : Pool A) : Type ℓ where
    locks : (xs ys : List (Worker A)) → p.workers ≡ xs ++ (ready ∷ ys) → q ≡ turn xs ys p → Step p q
    finishes :
        (xs ys : List (Worker A)) (job : A)
        → p.workers ≡ xs ++ (running job ∷ ys)
        → q ≡ record p { workers = xs ++ (ready ∷ ys) }
        → Step p q
    spurious :
        (xs ys : List (Worker A))
        → p.workers ≡ xs ++ (asleep ∷ ys)
        → q ≡ record p { workers = xs ++ (ready ∷ ys) }
        → Step p q
    submits : (job : A) → q ≡ submit job p → Step p q
    wakes :
        (xs ys : List (Worker A)) (n : ℕ)
        → p.signals ≡ suc n
        → p.workers ≡ xs ++ (asleep ∷ ys)
        → q ≡ record p { signals = n; workers = xs ++ (ready ∷ ys) }
        → Step p q
    missed :
        (n : ℕ)
        → p.signals ≡ suc n
        → tally is_asleep p.workers ≡ 0
        → q ≡ record p { signals = n }
        → Step p q
    stops : p.stop ≡ false → q ≡ request_stop p → Step p q
    wakes_all :
        p.broadcast ≡ true
        → q ≡ record p { broadcast = false; workers = wake_all p.workers }
        → Step p q

  -- What a pool of some size can come to.
  pub data Reach (p : Pool A) : Pool A → Type ℓ where
    start : Reach p p
    later : {q r : Pool A} → Reach p q → Step q r → Reach p r
