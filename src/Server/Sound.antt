-- ===== src/Server/Sound.antt =====
-- http/src/server.cpp and linux/ev_epoll.cpp: the tables of the server and of the event loop agree
-- with the kernel's.
use beemo.Common.{
  ◌⊎◌, ◌≢◌, ◌<◌, ℕ, ◌<◌, Bool, true, false, Option, none, some, ◌≡◌, ◌≢◌, refl, sym, ap, ◌∙◌, arith,
  same-cases, inl, inr,
}
use beemo.Http.Conn.{Conn}
use beemo.Server.Epoll.{Epoll, EvMask}
use beemo.Server.Table.{
  find, insert, erase, find-insert, find-insert-other, find-erase, find-erase-other,
}
use beemo.Server.World.{Object, WeakPtr, World, lock, registering}
use beemo.Server.Handlers.{store, reg}

abbrev pub is_some : {A : Type 0} → Option A → Bool
is_some none = false
is_some (some a) = true

module _ {K : Type 0} (ep : Epoll K) where
  -- The kernel watches the descriptors of the table of connections, and no others; the event loop's
  -- pointer for such a descriptor is to its connection, but for one that is being registered, whose
  -- pointer has expired; every pointer is to an object that was made for its descriptor.
  pub record IsSound (w : World K) : Type 0 where
    pub watch : (fd : ℕ) → ep.watched fd w.kernel ≡ is_some (find fd w.conns)
    pub event :
        (fd : ℕ) (o : Object)
        → find fd w.conns ≡ some o
        → (w.main ≡ registering (record { handle = fd; id = o.id }))
          ⊎ (find fd w.events ≡ some (record { handle = fd; id = o.id }))
    pub weak :
        (fd : ℕ) (p : WeakPtr) → find fd w.events ≡ some p → (p.handle ≡ fd) × (p.id < w.made)
    pub half :
        (p : WeakPtr)
        → w.main ≡ registering p
        → ((o : Object) × (find p.handle w.conns ≡ some o) × (o.id ≡ p.id))
          × (p.id < w.made)
          × ((q : WeakPtr) → find p.handle w.events ≡ some q → q.id ≢ p.id)

  -- The pointer is to the connection of the table under its handle, and the event loop has it.
  abbrev pub Holds : WeakPtr → World K → Type 0
  Holds p w =
      (o : Object) × (find p.handle w.conns ≡ some o)
      × (o.id ≡ p.id)
      × (find p.handle w.events ≡ some p)

  -- It is not the connection that is being registered.
  apart :
      (p q : WeakPtr) (w : World K)
      → IsSound w
      → Holds p w
      → w.main ≡ registering q
      → q.handle ≢ p.handle
  apart p q w inv (o, at, same, current) m e =
      let ((o', at', same'), _, expired) = inv.half q m in
      let twice : o ≡ o' = let at'' = rw e at at' in let both = sym at ∙ at'' in cc in
      expired p (rw e current) (sym same ∙ ap (λ x. x.id) twice ∙ same')

  pub store-IsSound :
      (p : WeakPtr) (w : World K) (c : Conn) → IsSound w → Holds p w → IsSound (store p c w)
  store-IsSound p w c inv (o, at, same, current) =
      let new : Object = record { id = p.id; conn = c } in
      record {
        watch = λ fd. elim (same-cases fd p.handle) [
          | inl e ↦ rw (e, find-insert p.handle new w.conns) (inv.watch p.handle ∙ ap is_some at)
          | inr n ↦ rw (find-insert-other p.handle fd new w.conns n) (inv.watch fd)
        ];
        event = λ fd o' e'. elim (same-cases fd p.handle) [
          | inl e ↦
              let e'' = rw (e, find-insert p.handle new w.conns) at e' in
              let i : p.id ≡ o'.id = cc in
              inr (rw (e, current) (ap (λ j. some (record { handle = p.handle; id = j })) i))
          | inr n ↦ inv.event fd o' (rw (find-insert-other p.handle fd new w.conns n) at e')
        ];
        weak = inv.weak;
        half = λ q m.
            let ((o', at', same'), older, expired) = inv.half q m in
            let n = apart p q w inv (o, at, same, current) m in
            ((o', find-insert-other p.handle q.handle new w.conns n ∙ at', same'), older, expired);
      }

  abbrev pub made_current : WeakPtr → K → World K → World K
  made_current p k w = record w { kernel = k; events = insert p.handle p w.events }

  made_current-IsSound :
      (p : WeakPtr) (k : K) (w : World K)
      → IsSound w
      → Holds p w
      → ep.watched p.handle k ≡ true
      → ((other : ℕ) → other ≢ p.handle → ep.watched other k ≡ ep.watched other w.kernel)
      → IsSound (made_current p k w)
  made_current-IsSound p k w inv (o, at, same, current) on others = record {
    watch = λ fd. elim (same-cases fd p.handle) [
      | inl e ↦ rw e (on ∙ sym (ap is_some at))
      | inr n ↦ others fd n ∙ inv.watch fd
    ];
    event = λ fd o' e'. elim (same-cases fd p.handle) [
      | inl e ↦
          let e'' = rw e at e' in
          let i : p.id ≡ o'.id = sym same ∙ cc in
          inr (
            rw (e, find-insert p.handle p w.events)
              (ap (λ j. some (record { handle = p.handle; id = j })) i))
      | inr n ↦ rw (find-insert-other p.handle fd p w.events n) (inv.event fd o' e')
    ];
    weak = λ fd q e'. elim (same-cases fd p.handle) [
      | inl e ↦
          let e'' = rw (e, find-insert p.handle p w.events) at e' in
          let i : p ≡ q = cc in rw⁻¹ i (sym e, (inv.weak p.handle p current).1)
      | inr n ↦ inv.weak fd q (rw (find-insert-other p.handle fd p w.events n) at e')
    ];
    half = λ q m.
        let (held, older, expired) = inv.half q m in
        let n = apart p q w inv (o, at, same, current) m in
        (
          held,
          older,
          λ r f. expired r (rw (find-insert-other p.handle q.handle p w.events n) at f),
        );
  }

  -- A connection of the table is found by the event loop's pointer.
  pub lock-Holds : (p : WeakPtr) (w : World K) → Holds p w → (c : Conn) × (lock (some p) w ≡ some c)
  unfolding lock
  lock-Holds p w (o, at, same, current) = (o.conn, rw (at, same) (ground arith))

  pub reg-Holds :
      (p : WeakPtr) (m : EvMask) (w : World K)
      → IsSound w
      → Holds p w
      → (k : K) × (ep.ctl_mod p.handle m w.kernel ≡ some k)
        × (reg ep p m w ≡ (true, made_current p k w))
        × IsSound (made_current p k w)
  unfolding reg
  reg-Holds p m w inv (o, at, same, current) =
      let (c, locked) = lock-Holds p w (o, at, same, current) in
      let (k, e) = ep.mod_old p.handle m w.kernel (inv.watch p.handle ∙ ap is_some at) in
      (
        k,
        e,
        rw (current, locked, e) refl,
        made_current-IsSound p k w inv (o, at, same, current)
            (ep.mod_sets p.handle m w.kernel k e).0
            (λ other n. (ep.mod_other p.handle m w.kernel k other e n).0),
      )

  abbrev pub removed : WeakPtr → World K → World K
  removed p w = record w { conns = erase p.handle w.conns; kernel = ep.close p.handle w.kernel }

  pub removed-IsSound : (p : WeakPtr) (w : World K) → IsSound w → Holds p w → IsSound (removed p w)
  removed-IsSound p w inv held = record {
    watch = λ fd. elim (same-cases fd p.handle) [
      | inl e ↦ rw (e, find-erase p.handle w.conns) (ep.close_watched p.handle w.kernel)
      | inr n ↦
          rw (find-erase-other p.handle fd w.conns n)
            ((ep.close_other p.handle fd w.kernel n).0 ∙ inv.watch fd)
    ];
    event = λ fd o e'. elim (same-cases fd p.handle) [
      | inl e ↦ let e'' = rw (e, find-erase p.handle w.conns) at e' in absurd cc
      | inr n ↦ inv.event fd o (rw (find-erase-other p.handle fd w.conns n) at e')
    ];
    weak = inv.weak;
    half = λ q m.
        let ((o, at, same), older, expired) = inv.half q m in
        let n = apart p q w inv held m in
        ((o, find-erase-other p.handle q.handle w.conns n ∙ at, same), older, expired);
  }
