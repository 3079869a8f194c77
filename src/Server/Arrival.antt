-- ===== src/Server/Arrival.antt =====
-- http/src/server.cpp: a connection that `on_conn` takes in.
use beemo.Common.{
  ◌⊎◌, same-cases, ℕ, ◌≤◌, ◌+◌, true, Option, none, some, ◌≡◌, ◌≢◌, refl, sym, ap, ◌∙◌, arith,
  Option-cases, inl, inr, length, ok,
}
use beemo.Server.Epoll.{Epoll, ev_in}
use beemo.Server.Rx.{Env}
use beemo.Server.Table.{find, find-insert, find-insert-other, length-insert_new}
use beemo.Server.World.{
  Object, WeakPtr, World, init_conn, lock, Main, accepting, waiting, registering,
}
use beemo.Server.Handlers.{take_in, reg, on_conn, begin_conn, record_event}
use beemo.Server.Sound.{is_some, IsSound}

-- Which pointer the event loop has, where `start` is not registering that connection.
accepted_event :
    (fd : ℕ) (o : Object) (m : Main) (events : Option WeakPtr)
    → m ≡ accepting
    → (m ≡ registering (record { handle = fd; id = o.id }))
      ⊎ (events ≡ some (record { handle = fd; id = o.id }))
    → events ≡ some (record { handle = fd; id = o.id })
accepted_event fd o m events a (inl r) = absurd cc
accepted_event fd o m events a (inr e) = e

other_event :
    (fd : ℕ) (o : Object) (p : WeakPtr) (m : Main) (events : Option WeakPtr)
    → fd ≢ p.handle
    → m ≡ registering p
    → (m ≡ registering (record { handle = fd; id = o.id }))
      ⊎ (events ≡ some (record { handle = fd; id = o.id }))
    → events ≡ some (record { handle = fd; id = o.id })
other_event fd o p m events n a (inl r) =
    let q : WeakPtr = record { handle = fd; id = o.id } in
    let same : q ≡ p = cc in absurd (n (ap (λ x. x.handle) same))
other_event fd o p m events n a (inr e) = e

module _ {K : Type 0} (ep : Epoll K) (env : Env) where
  -- From `w` to `v` the connection under a descriptor is new, and registered.
  pub record Arrives (fd : ℕ) (w v : World K) : Type 0 where
    pub sound : IsSound ep v
    pub here : (o : Object) × (find fd v.conns ≡ some o) × (ep.armed fd v.kernel ≡ true)
    pub others :
        (other : ℕ)
        → other ≢ fd
        → (find other v.conns ≡ find other w.conns)
          × (ep.armed other v.kernel ≡ ep.armed other w.kernel)
    pub size : length v.conns ≤ length w.conns + 1
    pub main : v.main ≡ registering (record { handle = fd; id = w.made })
    pub pending : v.pending ≡ w.pending

  abbrev new_object : World K → Object
  new_object w = record { id = w.made; conn = init_conn env }

  -- The pointer that the event loop has for the descriptor, if any, has expired.
  lock_expired :
      (fd : ℕ) (k : K) (w : World K)
      → IsSound ep w
      → lock (find fd w.events) (record (take_in ep env fd w) { kernel = k }) ≡ none
  unfolding lock
  lock_expired fd k w inv = elim (Option-cases (find fd w.events)) [
    | inl e ↦ rw e refl
    | inr (q, e) ↦
        let (h, older) = inv.weak fd q e in
        rw (e, h, find-insert fd (new_object w) w.conns) (ground arith)
  ]

  pub begin_conn-Arrives :
      (fd : ℕ) (w : World K)
      → IsSound ep w
      → w.main ≡ accepting
      → find fd w.conns ≡ none
      → Arrives fd w (begin_conn ep env fd w)
  unfolding begin_conn
  begin_conn-Arrives fd w inv m fresh =
      let p : WeakPtr = record { handle = fd; id = w.made } in
      let (k, e) = ep.add_new fd ev_in w.kernel (inv.watch fd ∙ ap is_some fresh) in
      let sets = ep.add_sets fd ev_in w.kernel k e in
      let here = find-insert fd (new_object w) w.conns in
      rw (lock_expired fd w.kernel w inv, e)
        (record {
          sound = record {
            watch = λ other. elim (same-cases other fd) [
              | inl s ↦ rw s (sets.0 ∙ sym (ap is_some here))
              | inr n ↦
                  (ep.add_other fd ev_in w.kernel k other e n).0
                  ∙ inv.watch other
                  ∙ ap is_some (sym (find-insert-other fd other (new_object w) w.conns n))
            ];
            event = λ other o at. elim (same-cases other fd) [
              | inl s ↦
                  let at' = rw (s, here) at at in
                  let i : w.made ≡ o.id = cc in
                  inl (rw s (ap (λ j. registering (record { handle = fd; id = j })) i))
              | inr n ↦ inr (
                  accepted_event other o w.main (find other w.events) m (
                    inv.event other o
                      (rw (find-insert-other fd other (new_object w) w.conns n) at at)))
            ];
            weak = λ other q f. let (h, older) = inv.weak other q f in (h, omega arith);
            half = λ q f.
                let same : p ≡ q = cc in
                rw⁻¹ same (
                  (new_object w, here, refl),
                  omega arith,
                  λ r g i. let older = (inv.weak fd r g).1 in absurd (omega (arith, i)),
                );
          };
          here = (new_object w, here, sets.1);
          others = λ other n. (
            find-insert-other fd other (new_object w) w.conns n,
            (ep.add_other fd ev_in w.kernel k other e n).1,
          );
          size = length-insert_new fd (new_object w) w.conns;
          main = refl;
          pending = refl;
        })

  -- The two halves are `on_conn`.
  on_conn-begin_conn :
      (fd : ℕ) (w : World K)
      → IsSound ep w
      → find fd w.conns ≡ none
      → let p : WeakPtr = record { handle = fd; id = w.made } in
        on_conn ep env true fd w
        ≡ ok (record (record_event p (begin_conn ep env fd w)) { main = w.main })
  unfolding on_conn begin_conn reg
  on_conn-begin_conn fd w inv fresh =
      let (k, e) = ep.add_new fd ev_in w.kernel (inv.watch fd ∙ ap is_some fresh) in
      rw (lock_expired fd w.kernel w inv, e) refl

module _ {K : Type 0} (ep : Epoll K) where
  -- The second half, which makes the tables agree for the new connection too.
  pub recorded-IsSound :
      (p : WeakPtr) (w : World K)
      → IsSound ep w
      → w.main ≡ registering p
      → IsSound ep (record (record_event p w) { main = waiting })
  recorded-IsSound p w inv m =
      let ((o, at, same), older, expired) = inv.half p m in
      record {
        watch = inv.watch;
        event = λ fd o' f. elim (same-cases fd p.handle) [
          | inl s ↦
              let f' = sym at ∙ rw s at f in
              let i : p.id ≡ o'.id = sym same ∙ cc in
              inr (
                rw (s, find-insert p.handle p w.events)
                  (ap (λ j. some (record { handle = p.handle; id = j })) i))
          | inr n ↦ inr (
              rw (find-insert-other p.handle fd p w.events n)
                (other_event fd o' p w.main (find fd w.events) n m (inv.event fd o' f)))
        ];
        weak = λ fd q f. elim (same-cases fd p.handle) [
          | inl s ↦
              let f' = rw (s, find-insert p.handle p w.events) at f in
              let i : p ≡ q = cc in rw⁻¹ i (sym s, older)
          | inr n ↦ inv.weak fd q (rw (find-insert-other p.handle fd p w.events n) at f)
        ];
        half = λ q f. absurd cc;
      }
