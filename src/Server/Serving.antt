-- ===== src/Server/Serving.antt =====
-- http/src/server.cpp and linux/ev_epoll.cpp: what holds of the server at all times.
use beemo.Common.{
  ◌↔◌, ℕ, ◌<◌, ◌≤◌, Bool, false, ◌++◌, ◌≡◌, refl, sym, ◌∙◌, arith, length, ok, inl, inr, ltb→lt,
}
use beemo.Http.Config.{Config}
use beemo.Server.Epoll.{Epoll}
use beemo.Server.Rx.{Env}
use beemo.Server.Table.{find}
use beemo.Server.World.{World, Ready, accepting, init_world, registering, WeakPtr}
use beemo.Server.Handlers.{Io, dispatch}
use beemo.Server.Sound.{IsSound}
use beemo.Server.Arrival.{begin_conn-Arrives, recorded-IsSound}
use beemo.Server.Dispatched.{dispatch-cases}
use beemo.Server.Steps.{Step, Reach}

module _ {K : Type 0} (ep : Epoll K) (config : Config) where
  abbrev max : ℕ
  max = config.max_concurrent_connections

  -- The tables agree, and their size is bounded.
  pub record IsServing (w : World K) : Type 0 where
    pub sound : IsSound ep w
    pub size : length w.conns ≤ max
    pub room : w.main ≡ accepting → length w.conns < max

  -- The same tables with another kernel state that watches the same, and `start` elsewhere, but not
  -- in `reg`.
  pub IsSound-same :
      (w v : World K)
      → IsSound ep w
      → v.conns ≡ w.conns
      → v.events ≡ w.events
      → v.made ≡ w.made
      → ((fd : ℕ) → ep.watched fd v.kernel ≡ ep.watched fd w.kernel)
      → ((p : WeakPtr) → (v.main ≡ registering p) ↔ (w.main ≡ registering p))
      → IsSound ep v
  IsSound-same w v inv c e m k r = record {
    watch = λ fd. rw c (k fd ∙ inv.watch fd);
    event = λ fd o f.
        rw e (elim (inv.event fd o (rw c at f)) [ inl a ↦ inl ((r _).1 a) | inr b ↦ inr b ]);
    weak = λ fd p f. rw m (inv.weak fd p (rw e at f));
    half = λ p a. rw (c, e, m) (inv.half p ((r p).0 a));
  }

  pub same_main : (w : World K) (p : WeakPtr) → (w.main ≡ registering p) ↔ (w.main ≡ registering p)
  same_main w p = (λ a. a, λ a. a)

  -- A handler that returns leaves no larger table, and `start` where it was.
  dispatch-IsServing :
      (env : Env) (ready : Ready) (io : Io) (fd : ℕ) (w v : World K)
      → IsServing w
      → dispatch ep env ready io fd w ≡ ok v
      → IsServing v
  dispatch-IsServing env ready io fd w v inv e =
      elim (dispatch-cases ep env ready io fd w v inv.sound e) [
        | inl (same, _) ↦ rw⁻¹ same inv
        | inr s ↦ record {
          sound = s.sound;
          size = omega (arith, s.size, inv.size);
          room = λ m. let r = inv.room (rw s.main at m) in omega (arith, s.size, r);
        }
      ]

  Step-IsServing :
      (strays : Bool) (w v : World K) → Step ep config strays w v → IsServing w → IsServing v
  Step-IsServing strays w v (Step.checks m room e) inv = rw e (record {
    sound =
        IsSound-same w _ inv.sound refl refl refl (λ fd. refl)
          (λ p. (λ a. absurd cc, λ a. absurd cc));
    size = inv.size;
    room = λ a. ltb→lt _ _ room;
  })
  Step-IsServing strays w v (Step.accepts env fd m fresh e) inv =
      let a = begin_conn-Arrives ep env fd w inv.sound m fresh in
      let r = inv.room m in
      rw e (record {
        sound = a.sound;
        size = omega (arith, a.size, r);
        room = λ wrong. let both = sym wrong ∙ a.main in absurd cc;
      })
  Step-IsServing strays w v (Step.records p m e) inv = rw e (record {
    sound = recorded-IsSound ep p w inv.sound m;
    size = inv.size;
    room = λ wrong. absurd cc;
  })
  Step-IsServing strays w v (Step.fails m e) inv = rw e (record {
    sound =
        IsSound-same w _ inv.sound refl refl refl (λ fd. refl)
          (λ p. (λ a. absurd cc, λ a. absurd cc));
    size = inv.size;
    room = λ wrong. absurd cc;
  })
  Step-IsServing strays w v (Step.waits fd ready on bits e) inv = rw e (record {
    sound =
        IsSound-same w _ inv.sound refl refl refl (λ fd'. ep.deliver_watched fd fd' w.kernel)
          (same_main w);
    size = inv.size;
    room = inv.room;
  })
  Step-IsServing strays w v (Step.handles env fd ready io xs ys at e) inv =
      dispatch-IsServing env ready io fd (record w { pending = xs ++ ys }) v
        (record {
          sound = IsSound-same w _ inv.sound refl refl refl (λ fd'. refl) (same_main w);
          size = inv.size;
          room = inv.room;
        })
        e

  init-IsServing : (k : K) → ((fd : ℕ) → ep.watched fd k ≡ false) → IsServing (init_world k)
  unfolding find
  init-IsServing k new = record {
    sound = record {
      watch = new;
      event = λ fd o e. absurd cc;
      weak = λ fd p e. absurd cc;
      half = λ p m. absurd cc;
    };
    size = omega arith;
    room = λ wrong. absurd cc;
  }

  pub Reach-IsServing :
      (strays : Bool) (k : K) (w : World K)
      → ((fd : ℕ) → ep.watched fd k ≡ false)
      → Reach ep config strays (init_world k) w
      → IsServing w
  Reach-IsServing strays k _ new Reach.start = init-IsServing k new
  Reach-IsServing strays k _ new (Reach.later {v} {u} before step) =
      Step-IsServing strays v u step (Reach-IsServing strays k v new before)

  -- After every step of the threads, in any order, the server has no more connections than the
  -- configuration allows, though the test of their number and the insertion of the next one are
  -- apart. The epoll instance watches nothing at the start.
  pub Reach-size :
      (strays : Bool) (k : K) (w : World K)
      → ((fd : ℕ) → ep.watched fd k ≡ false)
      → Reach ep config strays (init_world k) w
      → length w.conns ≤ config.max_concurrent_connections
  Reach-size strays k w new r = (Reach-IsServing strays k w new r).size

  -- After every step of the threads, in any order, the three tables agree. The kernel watches a
  -- descriptor exactly if the server has a connection for it; the event loop's pointer for that
  -- descriptor is then to this connection, unless `start` is still registering it, and then any
  -- pointer that is there has expired; and every pointer is to an object that was made for its
  -- descriptor. The epoll instance watches nothing at the start.
  pub Reach-IsSound :
      (strays : Bool) (k : K) (w : World K)
      → ((fd : ℕ) → ep.watched fd k ≡ false)
      → Reach ep config strays (init_world k) w
      → IsSound ep w
  Reach-IsSound strays k w new r = (Reach-IsServing strays k w new r).sound
