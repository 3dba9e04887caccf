-- ===== src/Poisonable/Guards.antt =====
-- `lock` and `read` of a `Poisonable`, followed by `unlock`, `unlock_read` or the drop of the guard.
use happylock.Base.{◌≡◌, refl, Bool, true, false, none, some, List, ℕ}
use happylock.Exec.{Res, ok, panic, hang, ret, ◌>>=◌, and_then, beside, on_unwind}
use happylock.Key.{KeyCell, ThreadKey, owned, keyable_drop, thread_key_drop, with_key}
use happylock.Shared.{Shared}
use happylock.RawLock.{Mode, raw_lock}
use happylock.RawLock.Holding.{claim, AllAt}
use happylock.RawLock.Contract.{Holding, Locks, Unlocks, IsRawLock, Unlocks-claim}
use happylock.RawLock.Leaf.{mine}
use happylock.Lockable.Guarded.{IsGuarded}
use happylock.Collection.Access.{Result}
use happylock.Collection.Access.Scoped.{Ends}
use happylock.Collection.Access.Guards.{Returns}
use happylock.Poisonable.{
  Poisonable, PoisonGuard, PoisonResult, into_inner, report, poison_ref_drop,
}
use happylock.Poisonable.Contract.{poison_ref_drop-Unlocks}
use happylock.Poisonable.Methods.{
  poisonable_guard_with, poisonable_lock, poisonable_unlock, poison_guard_drop,
}

-- The guard of a `PoisonResult`, by `unwrap_or_else(PoisonError::into_inner)`.
abbrev pub unwrap_or_inner {ℓ} : {G : Type ℓ} → PoisonResult G → G
unwrap_or_inner (Result.ok g) = g
unwrap_or_inner (Result.err e) = into_inner e

module _ {W G D : Type 0} (held : W → Holding) (m : Mode) (foot : List ℕ) (p : Poisonable W G D)
    (law : IsRawLock (mine held) m foot p.inner_lock)
    (guards : IsGuarded (mine held) m foot p.inner) where
  after_unlock :
      (h : Holding) (cell : KeyCell) (key : ThreadKey) (u : Res (Shared W) (Unit {0}))
      → cell.is_locked ≡ true
      → Unlocks (mine held) h u
      → Returns
          (mine held)
          h
          (and_then (on_unwind (beside cell u) (keyable_drop (owned key))) (λ _. ret key))
        × Ends {0} (mine held) h false (
            and_then
              (on_unwind (beside cell u) (keyable_drop (owned key)))
              (λ _. thread_key_drop key))
  unfolding thread_key_drop
  after_unlock h cell key (ok _ s) alive e = ((e, alive), (e, refl))
  after_unlock h cell key (panic s) alive e = absurd e
  after_unlock h cell key hang alive e = absurd e

  -- The two ways on from a lock that was taken.
  abbrev Both : Holding → Bool → Res (KeyCell × Shared W) (PoisonResult (PoisonGuard G)) → Type 0
  Both h panicking r =
      Returns (mine held) h (and_then r (λ g. poisonable_unlock p panicking (unwrap_or_inner g)))
      × Ends {0} (mine held) h false
          (and_then r (λ g. poison_guard_drop p panicking (unwrap_or_inner g)))

  reported :
      (h : Holding) (panicking : Bool) (b : Bool) (g : PoisonGuard G) (cell : KeyCell)
      (s : Shared W)
      → Returns (mine held) h (poisonable_unlock p panicking g (cell, s))
        × Ends {0} (mine held) h false (poison_guard_drop p panicking g (cell, s))
      → Both h panicking (ok (report b g) (cell, s))
  unfolding into_inner
  reported h panicking true g cell s e = e
  reported h panicking false g cell s e = e

  locked_Both :
      (h : Holding) (key : ThreadKey) (panicking : Bool) (cell : KeyCell)
      (l : Res (Shared W) (Unit {0}))
      → AllAt none foot h
      → cell.is_locked ≡ true
      → Locks (mine held) h (claim (some m) foot h) l
      → Both h panicking (
          and_then
            (on_unwind (beside cell l) (keyable_drop (owned key)))
            (λ _. poisonable_guard_with m p key))
  unfolding poisonable_guard_with keyable_drop poisonable_unlock poison_guard_drop with_key
  locked_Both h key panicking cell (ok _ s) free alive e =
      let (g, eg, drops) = guards.made s in
      rw eg (
        reported h panicking (s.flags p.poisoned)
          (record { guard = record { guard = g; flag = p.poisoned }; key = key }) cell s
          (after_unlock h cell key (poison_ref_drop p panicking _ s) alive (
            Unlocks-claim (mine held) m foot h s _ free e
              (poison_ref_drop-Unlocks held p m foot g drops p.poisoned panicking s))))
  locked_Both h key panicking cell (panic s) free alive e = ((e, refl), (e, refl))
  locked_Both h key panicking cell hang free alive e = (tt, tt)

  -- A wrapped lock that keeps its contract, whose guards release its addresses, none of which is
  -- held, and a key that is alive. `lock` and then `unlock`, whether the guard came with an error
  -- or not, in a thread that panics or not: the thread holds what it held before, and has its key
  -- again; if `lock` panics, it holds that too, and its key is dropped. `lock` and then the drop of
  -- the guard: the same locks, and the cell of the key is unlocked. So for `read` and `unlock_read`.
  pub poisonable_lock-unlock :
      (key : ThreadKey) (panicking : Bool) (cell : KeyCell) (s : Shared W)
      → AllAt none foot (mine held s)
      → cell.is_locked ≡ true
      → Returns (mine held) (mine held s) (
          (do r ← poisonable_lock m p key; poisonable_unlock p panicking (unwrap_or_inner r))
            (cell, s))
        × Ends {0} (mine held) (mine held s) false (
            (do r ← poisonable_lock m p key; poison_guard_drop p panicking (unwrap_or_inner r))
              (cell, s))
  unfolding poisonable_lock with_key
  poisonable_lock-unlock key panicking cell s free alive =
      locked_Both (mine held s) key panicking cell (raw_lock m p.inner_lock s) free alive
        (law.locks s free)
