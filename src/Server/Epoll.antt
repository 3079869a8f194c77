-- ===== src/Server/Epoll.antt =====
-- The calls of epoll that linux/ev_epoll.cpp makes, as an interface to the kernel.
use beemo.Common.{ℕ, Bool, true, false, Option, none, some, ◌≡◌, ◌≢◌}

-- `ev_mask`
pub data EvMask : Type 0 where
  ev_in ev_out : EvMask

-- The kernel's state, as far as the instance goes. A descriptor is watched while the interest list
-- holds it, and armed while, besides, EPOLLONESHOT has not disabled it. `none` is the error -1. The
-- laws are those of epoll_ctl(2), for a kernel that has memory for the watch, and of close(2): an
-- open file leaves the interest list with its last descriptor.
pub record Epoll (K : Type 0) : Type 0 where
  pub watched : ℕ → K → Bool
  pub armed : ℕ → K → Bool
  pub ctl_add : ℕ → EvMask → K → Option K
  pub ctl_mod : ℕ → EvMask → K → Option K
  -- `epoll_wait` returns an event for the descriptor.
  pub deliver : ℕ → K → K
  pub close : ℕ → K → K
  pub add_new :
      (fd : ℕ) (m : EvMask) (k : K) → watched fd k ≡ false → (k' : K) × (ctl_add fd m k ≡ some k')
  pub add_old : (fd : ℕ) (m : EvMask) (k : K) → watched fd k ≡ true → ctl_add fd m k ≡ none
  pub mod_old :
      (fd : ℕ) (m : EvMask) (k : K) → watched fd k ≡ true → (k' : K) × (ctl_mod fd m k ≡ some k')
  pub mod_new : (fd : ℕ) (m : EvMask) (k : K) → watched fd k ≡ false → ctl_mod fd m k ≡ none
  pub add_sets :
      (fd : ℕ) (m : EvMask) (k k' : K)
      → ctl_add fd m k ≡ some k'
      → (watched fd k' ≡ true) × (armed fd k' ≡ true)
  pub add_other :
      (fd : ℕ) (m : EvMask) (k k' : K) (other : ℕ)
      → ctl_add fd m k ≡ some k'
      → other ≢ fd
      → (watched other k' ≡ watched other k) × (armed other k' ≡ armed other k)
  pub mod_sets :
      (fd : ℕ) (m : EvMask) (k k' : K)
      → ctl_mod fd m k ≡ some k'
      → (watched fd k' ≡ true) × (armed fd k' ≡ true)
  pub mod_other :
      (fd : ℕ) (m : EvMask) (k k' : K) (other : ℕ)
      → ctl_mod fd m k ≡ some k'
      → other ≢ fd
      → (watched other k' ≡ watched other k) × (armed other k' ≡ armed other k)
  pub deliver_watched : (fd other : ℕ) (k : K) → watched other (deliver fd k) ≡ watched other k
  pub deliver_armed : (fd : ℕ) (k : K) → armed fd (deliver fd k) ≡ false
  pub deliver_other :
      (fd other : ℕ) (k : K) → other ≢ fd → armed other (deliver fd k) ≡ armed other k
  pub close_watched : (fd : ℕ) (k : K) → watched fd (close fd k) ≡ false
  pub close_armed : (fd : ℕ) (k : K) → armed fd (close fd k) ≡ false
  pub close_other :
      (fd other : ℕ) (k : K)
      → other ≢ fd
      → (watched other (close fd k) ≡ watched other k) × (armed other (close fd k) ≡ armed other k)
