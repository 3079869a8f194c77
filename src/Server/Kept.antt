-- ===== src/Server/Kept.antt =====
-- linux/ev_epoll.cpp: each connection has one event to come or one worker.
use beemo.Common.{
  ℕ, ◌+◌, ◌==◌, true, false, List, ◌∷◌, ◌++◌, none, some, ◌≡◌, ◌≢◌, refl, sym, ap, ◌∙◌, arith, ok,
  same-cases, ◌⊎◌, inl, inr,
}
use beemo.Http.Config.{Config}
use beemo.Server.Epoll.{Epoll}
use beemo.Server.Rx.{Env}
use beemo.Server.Table.{find}
use beemo.Server.World.{Object, WeakPtr, World, Ready, registering, init_world}
use beemo.Server.Handlers.{Io, dispatch}
use beemo.Server.Sound.{is_some, IsSound}
use beemo.Server.Arrival.{begin_conn-Arrives}
use beemo.Server.Dispatched.{dispatch-cases}
use beemo.Server.Steps.{Step, Reach}
use beemo.Server.Serving.{IsServing, Reach-IsServing, IsSound-same, same_main}
use beemo.Server.Counts.{
  bit, count, has_bits, count-cons, count-split, has_bits-split, given_bit, counted,
}

module _ {K : Type 0} (ep : Epoll K) (config : Config) where
  -- The kernel is to tell of a descriptor, or one worker has its event, if there is a connection for
  -- it, and otherwise neither.
  abbrev Once : ℕ → World K → Type 0
  Once fd w = count fd w.pending + bit (ep.armed fd w.kernel) ≡ bit (is_some (find fd w.conns))

  record IsKept (w : World K) : Type 0 where
    bits : has_bits w.pending ≡ true
    once : (fd : ℕ) → Once fd w
    calm : (p : WeakPtr) → w.main ≡ registering p → ep.armed p.handle w.kernel ≡ true

  -- With an event in hand there is no other, the descriptor is disabled, and it has a connection.
  in_hand :
      (fd : ℕ) (ready : Ready) (xs ys : List (ℕ × Ready)) (w : World K)
      → IsKept w
      → w.pending ≡ xs ++ ((fd, ready) ∷ ys)
      → (count fd (xs ++ ys) ≡ 0)
        × (ep.armed fd w.kernel ≡ false)
        × (is_some (find fd w.conns) ≡ true)
  in_hand fd ready xs ys w inv at =
      let itself : (fd == fd) ≡ true = ground arith in
      counted (ep.armed fd w.kernel) (is_some (find fd w.conns)) (count fd (xs ++ ys))
        (ap (count fd) at
          ∙ count-split fd fd ready xs ys
          ∙ ap (λ b. bit b + count fd (xs ++ ys)) itself)
        (inv.once fd)

  -- The counts of the other descriptors are those before the event was taken off.
  aside :
      (fd other : ℕ) (ready : Ready) (xs ys : List (ℕ × Ready)) (w : World K)
      → w.pending ≡ xs ++ ((fd, ready) ∷ ys)
      → other ≢ fd
      → count other (xs ++ ys) ≡ count other w.pending
  aside fd other ready xs ys w at n =
      let differ : (fd == other) ≡ false = ground (arith, n) in
      let split =
        ap (count other) at
        ∙ count-split other fd ready xs ys
        ∙ ap (λ b. bit b + count other (xs ++ ys)) differ in
      omega (arith, split)

  settled-Once :
      (fd : ℕ) (v : World K)
      → count fd v.pending ≡ 0
      → ((find fd v.conns ≡ none) × (ep.armed fd v.kernel ≡ false))
        ⊎ ((o : Object) × (find fd v.conns ≡ some o) × (ep.armed fd v.kernel ≡ true))
      → Once fd v
  settled-Once fd v c (inl (gone, off)) = rw (c, gone, off) refl
  settled-Once fd v c (inr (o, at, on)) = rw (c, at, on) refl

  dispatch-IsKept :
      (env : Env) (fd : ℕ) (ready : Ready) (io : Io) (xs ys : List (ℕ × Ready)) (w v : World K)
      → IsSound ep (record w { pending = xs ++ ys })
      → IsKept w
      → w.pending ≡ xs ++ ((fd, ready) ∷ ys)
      → dispatch ep env ready io fd (record w { pending = xs ++ ys }) ≡ ok v
      → IsKept v
  dispatch-IsKept env fd ready io xs ys w v sound inv at e =
      let (bit', bits) = has_bits-split fd ready xs ys (ap has_bits (sym at) ∙ inv.bits) in
      let (none_left, off, there) = in_hand fd ready xs ys w inv at in
      elim (dispatch-cases ep env ready io fd (record w { pending = xs ++ ys }) v sound e) [
        | inl (same, inl gone) ↦ let there' = rw gone at there in absurd cc
        | inl (same, inr (inl n)) ↦ let bit'' = rw n at bit' in absurd cc
        | inl (same, inr (inr (p, m, h))) ↦
            let on = rw h at (inv.calm p m) in let both = sym on ∙ off in absurd cc
        | inr s ↦ record {
          bits = ap has_bits s.pending ∙ bits;
          once = λ other. elim (same-cases other fd) [
            | inl same ↦ rw same (settled-Once fd v (ap (count fd) s.pending ∙ none_left) s.here)
            | inr n ↦
                let (f, a) = s.others other n in
                rw (s.pending, f, a, aside fd other ready xs ys w at n) (inv.once other)
          ];
          calm = λ p m.
              let on = inv.calm p (sym s.main ∙ m) in
              elim (same-cases p.handle fd) [
                | inl same ↦ let both = sym (rw same at on) ∙ off in absurd cc
                | inr n ↦ (s.others p.handle n).1 ∙ on
              ];
        }
      ]

  waits-Once :
      (fd other : ℕ) (ready : Ready) (w : World K)
      → ep.armed fd w.kernel ≡ true
      → Once other w
      → Once other (record w { kernel = ep.deliver fd w.kernel; pending = (fd, ready) ∷ w.pending })
  waits-Once fd other ready w on h = elim (same-cases other fd) [
    | inl same ↦
        let itself : (fd == fd) ≡ true = ground arith in
        let h' = rw (same, on) at h in
        rw (same, count-cons fd fd ready w.pending, itself, ep.deliver_armed fd w.kernel)
          (omega (arith, h'))
    | inr n ↦
        let differ : (fd == other) ≡ false = ground (arith, n) in
        rw (count-cons other fd ready w.pending, differ, ep.deliver_other fd other w.kernel n)
          (omega (arith, h))
  ]

  Step-IsKept :
      (w v : World K) → Step ep config false w v → IsServing ep config w → IsKept w → IsKept v
  Step-IsKept w v (Step.checks m room e) serving inv =
      rw e (record { bits = inv.bits; once = inv.once; calm = λ p a. absurd cc })
  Step-IsKept w v (Step.accepts env fd m fresh e) serving inv =
      let a = begin_conn-Arrives ep env fd w serving.sound m fresh in
      let (o, at, on) = a.here in
      let before = rw fresh at (inv.once fd) in
      rw e (record {
        bits = ap has_bits a.pending ∙ inv.bits;
        once = λ other. elim (same-cases other fd) [
          | inl same ↦ rw (same, a.pending, at, on) (omega (arith, before))
          | inr n ↦ let (f, b) = a.others other n in rw (a.pending, f, b) (inv.once other)
        ];
        calm = λ p b.
            let both = sym a.main ∙ b in
            let h : record { handle = fd; id = w.made } ≡ p = cc in
            rw (sym (ap (λ x. x.handle) h)) on;
      })
  Step-IsKept w v (Step.records p m e) serving inv =
      rw e (record { bits = inv.bits; once = inv.once; calm = λ q a. absurd cc })
  Step-IsKept w v (Step.fails m e) serving inv =
      rw e (record { bits = inv.bits; once = inv.once; calm = λ p a. absurd cc })
  Step-IsKept w v (Step.waits fd ready on plain e) serving inv =
      let (bit', apart) = plain refl in
      rw e (record {
        bits = rw (given_bit ready bit') inv.bits;
        once = λ other. waits-Once fd other ready w on (inv.once other);
        calm = λ p m. ep.deliver_other fd p.handle w.kernel (apart p m) ∙ inv.calm p m;
      })
  Step-IsKept w v (Step.handles env fd ready io xs ys at e) serving inv =
      dispatch-IsKept env fd ready io xs ys w v
        (IsSound-same ep config w _ serving.sound refl refl refl (λ fd'. refl)
          (same_main ep config w))
        inv at e

  init-IsKept : (k : K) → ((fd : ℕ) → ep.armed fd k ≡ false) → IsKept (init_world k)
  unfolding find count
  init-IsKept k new = record { bits = refl; once = λ fd. rw (new fd) refl; calm = λ p m. absurd cc }

  all-IsKept :
      (k : K) (w : World K)
      → ((fd : ℕ) → ep.watched fd k ≡ false)
      → ((fd : ℕ) → ep.armed fd k ≡ false)
      → Reach ep config false (init_world k) w
      → IsKept w
  all-IsKept k _ new off Reach.start = init-IsKept k off
  all-IsKept k _ new off (Reach.later {v} {u} before step) =
      Step-IsKept v u step (Reach-IsServing ep config false k v new before)
        (all-IsKept k v new off before)

  -- Where every event that `epoll_wait` returns has one of the bits that the loop looks at, and none
  -- is for a connection that is still being registered, no connection is forgotten, and none is
  -- handled twice at a time: after every step of the threads, for each descriptor of a connection,
  -- either the kernel is set to tell of it and no worker has an event for it, or exactly
  -- one worker has one and the kernel tells of no other; for all other descriptors there is neither.
  -- The epoll instance watches nothing at the start, and is set to tell of nothing.
  pub count-armed :
      (k : K) (w : World K) (fd : ℕ)
      → ((fd : ℕ) → ep.watched fd k ≡ false)
      → ((fd : ℕ) → ep.armed fd k ≡ false)
      → Reach ep config false (init_world k) w
      → count fd w.pending + bit (ep.armed fd w.kernel) ≡ bit (is_some (find fd w.conns))
  count-armed k w fd new off r = (all-IsKept k w new off r).once fd
