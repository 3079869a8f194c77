-- ===== src/Server/Dispatched.antt =====
-- linux/ev_epoll.cpp: what the loop does with an event for a descriptor.
use beemo.Common.{
  false, ℕ, ◌==◌, true, none, some, ◌≡◌, ◌≢◌, refl, sym, ◌∙◌, arith, ok, Option-cases, ◌⊎◌, inl,
  inr,
}
use beemo.Server.Epoll.{Epoll}
use beemo.Server.Rx.{Env}
use beemo.Server.Table.{find}
use beemo.Server.World.{
  Object, World, Ready, err, readable, writable, neither, lock, registering, WeakPtr,
}
use beemo.Server.Handlers.{Io, handle, dispatch}
use beemo.Server.Sound.{IsSound}
use beemo.Server.Settled.{Settles, handle-Settles}

neither-cases : (ready : Ready) → (ready ≡ neither) ⊎ (ready ≢ neither)
neither-cases err = inr (λ e. cc)
neither-cases readable = inr (λ e. cc)
neither-cases writable = inr (λ e. cc)
neither-cases neither = inl refl

module _ {K : Type 0} (ep : Epoll K) (env : Env) where
  dispatch-Settles :
      (ready : Ready) (io : Io) (fd : ℕ) (w v : World K) (o : Object)
      → IsSound ep w
      → find fd w.conns ≡ some o
      → find fd w.events ≡ some (record { handle = fd; id = o.id })
      → ready ≢ neither
      → dispatch ep env ready io fd w ≡ ok v
      → Settles ep fd w v
  unfolding dispatch lock
  dispatch-Settles ready io fd w v o inv at current n e =
      let same : (o.id == o.id) ≡ true = ground arith in
      handle-Settles ep env (record { handle = fd; id = o.id }) w v inv (o, at, refl, current) ready
        io o.conn n (rw (current, at, same) at e)

  -- An event is passed over if the event loop's pointer has expired.
  dispatch-expired :
      (ready : Ready) (io : Io) (fd : ℕ) (w : World K)
      → lock (find fd w.events) w ≡ none
      → dispatch ep env ready io fd w ≡ ok w
  unfolding dispatch
  dispatch-expired ready io fd w gone = elim (Option-cases (find fd w.events)) [
    | inl e ↦ rw e refl
    | inr (q, e) ↦ rw (e, rw e at gone) refl
  ]

  -- An event for a descriptor with no connection is passed over.
  dispatch_gone :
      (ready : Ready) (io : Io) (fd : ℕ) (w : World K)
      → IsSound ep w
      → find fd w.conns ≡ none
      → dispatch ep env ready io fd w ≡ ok w
  unfolding lock
  dispatch_gone ready io fd w inv gone =
      dispatch-expired ready io fd w (elim (Option-cases (find fd w.events)) [
        | inl e ↦ rw e refl
        | inr (q, e) ↦ rw (e, (inv.weak fd q e).0, gone) refl
      ])

  -- So is one with neither of the three bits, whether there is a connection or not.
  dispatch-neither : (io : Io) (fd : ℕ) (w : World K) → dispatch ep env neither io fd w ≡ ok w
  unfolding dispatch handle
  dispatch-neither io fd w = elim (Option-cases (find fd w.events)) [
    | inl e ↦ rw e refl
    | inr (q, e) ↦ elim (Option-cases (lock (some q) w)) [
      | inl f ↦ rw (e, f) refl
      | inr (c, f) ↦ rw (e, f) refl
    ]
  ]

  -- One for the connection that is being registered is passed over too.
  pub dispatch-registering :
      (ready : Ready) (io : Io) (p : WeakPtr) (w : World K)
      → IsSound ep w
      → w.main ≡ registering p
      → dispatch ep env ready io p.handle w ≡ ok w
  unfolding lock
  dispatch-registering ready io p w inv m =
      let ((o, at, same), older, expired) = inv.half p m in
      dispatch-expired ready io p.handle w (elim (Option-cases (find p.handle w.events)) [
        | inl e ↦ rw e refl
        | inr (q, e) ↦
            let n = expired q e in
            let differ : (o.id == q.id) ≡ false = ground (arith, same, n) in
            rw (e, (inv.weak p.handle q e).0, at, differ) refl
      ])

  -- An event that is handled to its end is passed over, for want of a connection or of a bit, or
  -- since the connection is being registered; or its connection is settled.
  pub dispatch-cases :
      (ready : Ready) (io : Io) (fd : ℕ) (w v : World K)
      → IsSound ep w
      → dispatch ep env ready io fd w ≡ ok v
      → ((w ≡ v)
          × ((find fd w.conns ≡ none)
              ⊎ ((ready ≡ neither) ⊎ ((p : WeakPtr) × (w.main ≡ registering p) × (p.handle ≡ fd)))))
        ⊎ Settles ep fd w v
  dispatch-cases ready io fd w v inv e = elim (neither-cases ready) [
    | inl n ↦ let e' = sym (dispatch-neither io fd w) ∙ rw n at e in inl (cc, inr (inl n))
    | inr n ↦ elim (Option-cases (find fd w.conns)) [
      | inl gone ↦ let e' = sym (dispatch_gone ready io fd w inv gone) ∙ e in inl (cc, inl gone)
      | inr (o, at) ↦ elim (inv.event fd o at) [
        | inl m ↦
            let e' =
              sym (dispatch-registering ready io (record { handle = fd; id = o.id }) w inv m) ∙ e in
            inl (cc, inr (inr (record { handle = fd; id = o.id }, m, refl)))
        | inr current ↦ inr (dispatch-Settles ready io fd w v o inv at current n e)
      ]
    ]
  ]
