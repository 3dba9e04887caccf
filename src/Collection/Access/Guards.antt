-- ===== src/Collection/Access/Guards.antt =====
-- `lock` and `read` followed by `unlock`, `unlock_read` or the drop of the guard.
use happylock.Base.{◌≡◌, refl, Bool, true, false, none, some, List, ℕ}
use happylock.Exec.{Res, ok, panic, hang, ret, ◌>>=◌, and_then, lift, beside, on_unwind}
use happylock.Key.{KeyCell, ThreadKey, owned, keyable_drop, thread_key_drop, with_key}
use happylock.RawLock.{RawLock, Mode, raw_lock}
use happylock.RawLock.Holding.{claim, AllAt}
use happylock.RawLock.Contract.{Holding, Locks, Unlocks, IsRawLock, Unlocks-claim}
use happylock.Lockable.{Lockable}
use happylock.Lockable.Guarded.{IsGuarded}
use happylock.Collection.Access.{lock, unlock, lock_guard_drop}
use happylock.Collection.Access.Scoped.{Ends}

module _ {S : Type 0} (held : S → Holding) where
  -- The thread holds `h`; the key is back, or was dropped while a panic went on.
  abbrev pub Returns : Holding → Res (KeyCell × S) ThreadKey → Type 0
  Returns h (ok key (cell, s)) = (held s ≡ h) × (cell.is_locked ≡ true)
  Returns h (panic (cell, s)) = (held s ≡ h) × (cell.is_locked ≡ false)
  Returns h hang = Unit

  module _ {G D : Type 0} (m : Mode) (foot : List ℕ) (raw : RawLock S) (data_ : Lockable S G D)
      (law : IsRawLock held m foot raw) (guards : IsGuarded held m foot data_) where
    after_unlock :
        (h : Holding) (cell : KeyCell) (key : ThreadKey) (u : Res S (Unit {0}))
        → cell.is_locked ≡ true
        → Unlocks held h u
        → Returns h (and_then (on_unwind (beside cell u) (keyable_drop (owned key))) (λ _. ret key))
    after_unlock h cell key (ok _ s) alive e = (e, alive)
    after_unlock h cell key (panic s) alive e = absurd e
    after_unlock h cell key hang alive e = absurd e

    after_drop :
        (h : Holding) (cell : KeyCell) (key : ThreadKey) (u : Res S (Unit {0}))
        → Unlocks held h u
        → Ends {0} held h false (
            and_then
              (on_unwind (beside cell u) (keyable_drop (owned key)))
              (λ _. thread_key_drop key))
    unfolding thread_key_drop
    after_drop h cell key (ok _ s) e = (e, refl)
    after_drop h cell key (panic s) e = absurd e
    after_drop h cell key hang e = absurd e

    visited :
        (h : Holding) (cell : KeyCell) (key : ThreadKey) (r : Res S (Unit {0}))
        → AllAt none foot h
        → cell.is_locked ≡ true
        → Locks held h (claim (some m) foot h) r
        → Returns h (
            and_then
              (and_then
                (on_unwind
                  (and_then (beside cell r) (λ _. lift data_.guard))
                  (keyable_drop (owned key)))
                (λ g. ret (record { guard = g; key = key })))
              (unlock data_))
    unfolding keyable_drop unlock with_key
    visited h cell key (ok _ s) free alive e =
        let (g, eg, drops) = guards.made s in
        rw eg (
          after_unlock h cell key (data_.drop_guard false g s) alive
            (Unlocks-claim held m foot h s _ free e (drops false s)))
    visited h cell key (panic s) free alive e = (e, refl)
    visited h cell key hang free alive e = tt

    left :
        (h : Holding) (cell : KeyCell) (key : ThreadKey) (panicking : Bool) (r : Res S (Unit {0}))
        → AllAt none foot h
        → Locks held h (claim (some m) foot h) r
        → Ends {0} held h false (
            and_then
              (and_then
                (on_unwind
                  (and_then (beside cell r) (λ _. lift data_.guard))
                  (keyable_drop (owned key)))
                (λ g. ret (record { guard = g; key = key })))
              (lock_guard_drop data_ panicking))
    unfolding keyable_drop lock_guard_drop with_key
    left h cell key panicking (ok _ s) free e =
        let (g, eg, drops) = guards.made s in
        rw eg (
          after_drop h cell key (data_.drop_guard panicking g s)
            (Unlocks-claim held m foot h s _ free e (drops panicking s)))
    left h cell key panicking (panic s) free e = (e, refl)
    left h cell key panicking hang free e = tt

    -- A collection that keeps the contract of `RawLock`, whose guards release its addresses, none
    -- of which is held, and a key that is alive. `lock` and then `unlock`: the thread holds what
    -- it held before, and has its key again; if `lock` panics, it holds that too, and its key is
    -- dropped. `lock` and then the drop of the guard, in a panic or not: the same locks, and the
    -- cell of the key is unlocked. So for `read` and `unlock_read`.
    pub lock-unlock :
        (key : ThreadKey) (cell : KeyCell) (s : S)
        → AllAt none foot (held s)
        → cell.is_locked ≡ true
        → Returns (held s) ((do g ← lock m raw data_ key; unlock data_ g) (cell, s))
          × ((panicking : Bool)
              → Ends {0} held
                  (held s)
                  false
                  ((do g ← lock m raw data_ key; lock_guard_drop data_ panicking g) (cell, s)))
    unfolding lock with_key
    lock-unlock key cell s free alive = (
      visited (held s) cell key (raw_lock m raw s) free alive (law.locks s free),
      λ panicking. left (held s) cell key panicking (raw_lock m raw s) free (law.locks s free),
    )
