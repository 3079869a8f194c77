-- ===== src/Tests/Kernel.antt =====
-- An instance of epoll: the descriptors of the interest list, with whether they are armed.
use beemo.Common.{
  ℕ, Bool, true, false, List, Option, none, some, ◌≡◌, ◌≢◌, refl, ap, Option-cases, same-cases, inl,
  inr,
}
use beemo.Server.Epoll.{Epoll, EvMask}
use beemo.Server.Table.{
  find, insert, erase, find-insert, find-insert-other, find-erase, find-erase-other,
}
use beemo.Server.Sound.{is_some}

abbrev pub Interest : Type 0
Interest = List (ℕ × Bool)

abbrev or_false : Option Bool → Bool
or_false none = false
or_false (some b) = b

unfoldable pub watched : ℕ → Interest → Bool
watched fd k = is_some (find fd k)

unfoldable pub armed : ℕ → Interest → Bool
armed fd k = or_false (find fd k)

abbrev add_at : ℕ → Interest → Option Bool → Option Interest
add_at fd k none = some (insert fd true k)
add_at fd k (some b) = none

unfoldable pub ctl_add : ℕ → EvMask → Interest → Option Interest
ctl_add fd m k = add_at fd k (find fd k)

abbrev mod_at : ℕ → Interest → Option Bool → Option Interest
mod_at fd k none = none
mod_at fd k (some b) = some (insert fd true k)

unfoldable pub ctl_mod : ℕ → EvMask → Interest → Option Interest
ctl_mod fd m k = mod_at fd k (find fd k)

abbrev deliver_at : ℕ → Interest → Option Bool → Interest
deliver_at fd k none = k
deliver_at fd k (some b) = insert fd false k

unfoldable pub deliver : ℕ → Interest → Interest
deliver fd k = deliver_at fd k (find fd k)

abbrev Keeps : ℕ → Interest → Interest → Type 0
Keeps other k k' = (watched other k' ≡ watched other k) × (armed other k' ≡ armed other k)

Keeps-find : (other : ℕ) (k k' : Interest) → find other k' ≡ find other k → Keeps other k k'
unfolding watched armed
Keeps-find other k k' e = (ap is_some e, ap or_false e)

insert-sets :
    (fd : ℕ) (k : Interest)
    → (watched fd (insert fd true k) ≡ true) × (armed fd (insert fd true k) ≡ true)
unfolding watched armed
insert-sets fd k = (ap is_some (find-insert fd true k), ap or_false (find-insert fd true k))

add_at-some :
    (fd : ℕ) (k : Interest) (o : Option Bool) (k' : Interest)
    → add_at fd k o ≡ some k'
    → insert fd true k ≡ k'
add_at-some fd k none k' e = cc
add_at-some fd k (some b) k' e = absurd cc

mod_at-some :
    (fd : ℕ) (k : Interest) (o : Option Bool) (k' : Interest)
    → mod_at fd k o ≡ some k'
    → insert fd true k ≡ k'
mod_at-some fd k none k' e = absurd cc
mod_at-some fd k (some b) k' e = cc

add_at-none :
    (fd : ℕ) (k : Interest) (o : Option Bool)
    → is_some o ≡ false
    → (k' : Interest) × (add_at fd k o ≡ some k')
add_at-none fd k none e = (insert fd true k, refl)
add_at-none fd k (some b) e = absurd cc

add_at_old : (fd : ℕ) (k : Interest) (o : Option Bool) → is_some o ≡ true → add_at fd k o ≡ none
add_at_old fd k none e = absurd cc
add_at_old fd k (some b) e = refl

mod_at_old :
    (fd : ℕ) (k : Interest) (o : Option Bool)
    → is_some o ≡ true
    → (k' : Interest) × (mod_at fd k o ≡ some k')
mod_at_old fd k none e = absurd cc
mod_at_old fd k (some b) e = (insert fd true k, refl)

mod_at-none : (fd : ℕ) (k : Interest) (o : Option Bool) → is_some o ≡ false → mod_at fd k o ≡ none
mod_at-none fd k none e = refl
mod_at-none fd k (some b) e = absurd cc

set_other :
    (fd : ℕ) (k k' : Interest) (other : ℕ) → insert fd true k ≡ k' → other ≢ fd → Keeps other k k'
set_other fd k k' other e n =
    rw⁻¹ e (Keeps-find other k (insert fd true k) (find-insert-other fd other true k n))

pub deliver-watched : (fd other : ℕ) (k : Interest) → watched other (deliver fd k) ≡ watched other k
unfolding watched deliver
deliver-watched fd other k = elim (Option-cases (find fd k)) [
  | inl e ↦ rw e refl
  | inr (b, e) ↦ elim (same-cases other fd) [
    | inl same ↦ rw (same, e) (ap is_some (find-insert fd false k))
    | inr n ↦ rw e (ap is_some (find-insert-other fd other false k n))
  ]
]

pub deliver-armed : (fd : ℕ) (k : Interest) → armed fd (deliver fd k) ≡ false
unfolding armed deliver
deliver-armed fd k = elim (Option-cases (find fd k)) [
  | inl e ↦ rw (e, e) refl
  | inr (b, e) ↦ rw e (ap or_false (find-insert fd false k))
]

pub deliver-other :
    (fd other : ℕ) (k : Interest) → other ≢ fd → armed other (deliver fd k) ≡ armed other k
unfolding armed deliver
deliver-other fd other k n = elim (Option-cases (find fd k)) [
  | inl e ↦ rw e refl
  | inr (b, e) ↦ rw e (ap or_false (find-insert-other fd other false k n))
]

pub close-watched : (fd : ℕ) (k : Interest) → watched fd (erase fd k) ≡ false
unfolding watched
close-watched fd k = ap is_some (find-erase fd k)

pub close-armed : (fd : ℕ) (k : Interest) → armed fd (erase fd k) ≡ false
unfolding armed
close-armed fd k = ap or_false (find-erase fd k)

pub close-other : (fd other : ℕ) (k : Interest) → other ≢ fd → Keeps other k (erase fd k)
close-other fd other k n = Keeps-find other k (erase fd k) (find-erase-other fd other k n)

pub add_new :
    (fd : ℕ) (m : EvMask) (k : Interest)
    → watched fd k ≡ false
    → (k' : Interest) × (ctl_add fd m k ≡ some k')
unfolding watched ctl_add
add_new fd m k = add_at-none fd k (find fd k)

pub add_old : (fd : ℕ) (m : EvMask) (k : Interest) → watched fd k ≡ true → ctl_add fd m k ≡ none
unfolding watched ctl_add
add_old fd m k = add_at_old fd k (find fd k)

pub mod_old :
    (fd : ℕ) (m : EvMask) (k : Interest)
    → watched fd k ≡ true
    → (k' : Interest) × (ctl_mod fd m k ≡ some k')
unfolding watched ctl_mod
mod_old fd m k = mod_at_old fd k (find fd k)

pub mod_new : (fd : ℕ) (m : EvMask) (k : Interest) → watched fd k ≡ false → ctl_mod fd m k ≡ none
unfolding watched ctl_mod
mod_new fd m k = mod_at-none fd k (find fd k)

pub add_sets :
    (fd : ℕ) (m : EvMask) (k k' : Interest)
    → ctl_add fd m k ≡ some k'
    → (watched fd k' ≡ true) × (armed fd k' ≡ true)
unfolding ctl_add
add_sets fd m k k' e = rw⁻¹ (add_at-some fd k (find fd k) k' e) (insert-sets fd k)

pub mod_sets :
    (fd : ℕ) (m : EvMask) (k k' : Interest)
    → ctl_mod fd m k ≡ some k'
    → (watched fd k' ≡ true) × (armed fd k' ≡ true)
unfolding ctl_mod
mod_sets fd m k k' e = rw⁻¹ (mod_at-some fd k (find fd k) k' e) (insert-sets fd k)

pub add_other :
    (fd : ℕ) (m : EvMask) (k k' : Interest) (other : ℕ)
    → ctl_add fd m k ≡ some k'
    → other ≢ fd
    → Keeps other k k'
unfolding ctl_add
add_other fd m k k' other e = set_other fd k k' other (add_at-some fd k (find fd k) k' e)

pub mod_other :
    (fd : ℕ) (m : EvMask) (k k' : Interest) (other : ℕ)
    → ctl_mod fd m k ≡ some k'
    → other ≢ fd
    → Keeps other k k'
unfolding ctl_mod
mod_other fd m k k' other e = set_other fd k k' other (mod_at-some fd k (find fd k) k' e)

unfoldable pub kernel : Epoll Interest
unfolding watched armed ctl_add ctl_mod deliver erase
kernel = record {
  watched = watched;
  armed = armed;
  ctl_add = ctl_add;
  ctl_mod = ctl_mod;
  deliver = deliver;
  close = erase;
  add_new = add_new;
  add_old = add_old;
  mod_old = mod_old;
  mod_new = mod_new;
  add_sets = add_sets;
  add_other = add_other;
  mod_sets = mod_sets;
  mod_other = mod_other;
  deliver_watched = deliver-watched;
  deliver_armed = deliver-armed;
  deliver_other = deliver-other;
  close_watched = close-watched;
  close_armed = close-armed;
  close_other = close-other;
}
