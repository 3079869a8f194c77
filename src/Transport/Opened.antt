-- ===== src/Transport/Opened.antt =====
-- linux/acceptor.cpp: `acceptor::open` stops at the first call that fails.
use beemo.Common.{
  ℕ, ◌%◌, ◌^◌, List, [], ◌∷◌, Option, none, some, Result, ok, throw, transport_err, ◌≡◌, refl, ◌⊎◌,
  inl, inr,
}
use beemo.Transport.{
  Call, create, set_reuse_address, bind_any, listen_to, Ret, returned, failed, Os, Socket, Void,
  open_acceptor,
}

-- The outcome of a list of calls: that of an `open`, and the error that it keeps, which is not that
-- of `listen`.
abbrev pub outcome : Option (Call × ℕ) → Result Void
outcome none = ok tt
outcome (some e) = throw transport_err

abbrev pub kept : Option (Call × ℕ) → ℕ → ℕ
kept none before = before
kept (some (listen_to h n, errno)) before = before
kept (some (_, errno)) before = errno

module _ {S : Type 0} (os : Os S) where
  abbrev on_ret : {A : Type 0} → Ret × S → (ℕ → S → A) → (ℕ → S → A) → A
  on_ret (returned n, t) f g = f n t
  on_ret (failed errno, t) f g = g errno t

  Ret-cases :
      (r : Ret × S)
      → ((n : ℕ) × (t : S) × (r ≡ (returned n, t))) ⊎ ((e : ℕ) × (t : S) × (r ≡ (failed e, t)))
  Ret-cases (returned n, t) = inl (n, t, refl)
  Ret-cases (failed e, t) = inr (e, t, refl)

  -- Calls made in order, up to the first that fails: that one with its error, if any.
  unfoldable pub attempt : List Call → S → Option (Call × ℕ) × S
  attempt [] t = (none, t)
  attempt (c ∷ cs) t = on_ret (os c t) (λ n t'. attempt cs t') (λ errno t'. (some (c, errno), t'))

  -- What `open` is to leave, by the result of `socket(…)`.
  abbrev pub opens : ℕ → ℕ → Socket → Ret × S → Result Void × Socket × S
  opens port backlog s (failed errno, t) =
      (throw transport_err, record { handle = none; last_error = errno }, t)
  opens port backlog s (returned h, t) =
      let (first, t') =
        attempt
          (set_reuse_address (some h)
            ∷ bind_any (some h) (port % 2 ^ 16)
            ∷ listen_to (some h) backlog
            ∷ [])
          t in
      (outcome first, record { handle = some h; last_error = kept first s.last_error }, t')

  -- `acceptor::open` makes its four calls in order and stops at the first that fails, with an
  -- exception; it returns exactly if none does, and then the socket has the new handle and listens.
  -- The error of the failed call is kept, but for that of `listen`, where the error from before
  -- stays.
  pub open_acceptor-opens :
      (port backlog : ℕ) (s : Socket) (t : S)
      → open_acceptor os port backlog s t ≡ opens port backlog s (os create t)
  unfolding open_acceptor attempt
  open_acceptor-opens port backlog s t = elim (Ret-cases (os create t)) [
    | inr (e, t₁, r) ↦ rw r refl
    | inl (h, t₁, r) ↦ elim (Ret-cases (os (set_reuse_address (some h)) t₁)) [
      | inr (e, t₂, r₂) ↦ rw (r, r₂) refl
      | inl (n, t₂, r₂) ↦ elim (Ret-cases (os (bind_any (some h) (port % 2 ^ 16)) t₂)) [
        | inr (e, t₃, r₃) ↦ rw (r, r₂, r₃) refl
        | inl (m, t₃, r₃) ↦ elim (Ret-cases (os (listen_to (some h) backlog) t₃)) [
          | inr (e, t₄, r₄) ↦ rw (r, r₂, r₃, r₄) refl
          | inl (l, t₄, r₄) ↦ rw (r, r₂, r₃, r₄) refl
        ]
      ]
    ]
  ]
