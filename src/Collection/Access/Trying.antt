-- ===== src/Collection/Access/Trying.antt =====
-- `try_lock` and `try_read`, followed by `unlock` or `unlock_read` if they have locked.
use happylock.Base.{◌≡◌, refl, Bool, true, false, none, some, List, ℕ, if◌then◌else◌}
use happylock.Exec.{M, Res, ok, panic, hang, ret, ◌>>=◌, and_then, lift, beside, on_unwind}
use happylock.Key.{KeyCell, ThreadKey, owned, keyable_drop, with_key}
use happylock.RawLock.{RawLock, Mode, raw_try_lock}
use happylock.RawLock.Holding.{claim, AllAt}
use happylock.RawLock.Contract.{Holding, TryLocks, Unlocks, IsRawLock, Unlocks-claim}
use happylock.Lockable.{Lockable}
use happylock.Lockable.Guarded.{IsGuarded}
use happylock.Collection.Access.{Result, LockGuard, try_lock, unlock}

module _ {S : Type 0} (held : S → Holding) where
  -- The thread holds `h` and has its key, or the key was dropped while a panic went on; and the
  -- call comes to an end.
  abbrev pub TryReturns {ℓ} : {R : Type ℓ} → Holding → Res (KeyCell × S) R → Type 0
  TryReturns h (ok _ (cell, s)) = (held s ≡ h) × (cell.is_locked ≡ true)
  TryReturns h (panic (cell, s)) = (held s ≡ h) × (cell.is_locked ≡ false)
  TryReturns h hang = ⊥

  module _ {G D : Type 0} (m : Mode) (foot : List ℕ) (raw : RawLock S) (data_ : Lockable S G D)
      (law : IsRawLock held m foot raw) (guards : IsGuarded held m foot data_) where
    -- The guard, if there is one, is unlocked; the key comes back either way.
    abbrev pub unlock_if : Result (LockGuard G) ThreadKey → M (KeyCell × S) ThreadKey
    unlock_if (Result.ok g) = unlock data_ g
    unlock_if (Result.err key) = ret key

    unlocked_TryReturns :
        (h : Holding) (cell : KeyCell) (key : ThreadKey) (u : Res S (Unit {0}))
        → cell.is_locked ≡ true
        → Unlocks held h u
        → TryReturns h
            (and_then (on_unwind (beside cell u) (keyable_drop (owned key))) (λ _. ret key))
    unlocked_TryReturns h cell key (ok _ s) alive e = (e, alive)
    unlocked_TryReturns h cell key (panic s) alive e = absurd e
    unlocked_TryReturns h cell key hang alive e = absurd e

    tried_TryReturns :
        (h : Holding) (cell : KeyCell) (key : ThreadKey) (r : Res S Bool)
        → AllAt none foot h
        → cell.is_locked ≡ true
        → TryLocks held h (claim (some m) foot h) r
        → TryReturns h (
            and_then
              (and_then (on_unwind (beside cell r) (keyable_drop (owned key))) (λ success.
                if success
                then (do
                  g ← with_key (owned key) (lift data_.guard)
                  ret (Result.ok (record { guard = g; key = key })))
                else ret (Result.err key)))
              unlock_if)
    unfolding keyable_drop unlock with_key
    tried_TryReturns h cell key (ok true s) free alive e =
        let (g, eg, drops) = guards.made s in
        rw eg (
          unlocked_TryReturns h cell key (data_.drop_guard false g s) alive
            (Unlocks-claim held m foot h s _ free e (drops false s)))
    tried_TryReturns h cell key (ok false s) free alive e = (e, alive)
    tried_TryReturns h cell key (panic s) free alive e = (e, refl)
    tried_TryReturns h cell key hang free alive e = absurd e

    -- A collection that keeps the contract of `RawLock`, whose guards release its addresses, none
    -- of which is held, and a key that is alive. `try_lock`, and `unlock` if it has locked, come
    -- to an end: the thread holds what it held before, and has its key again; or there was a
    -- panic, it holds that too, and its key is dropped. So for `try_read` and `unlock_read`.
    pub try_lock-unlock :
        (key : ThreadKey) (cell : KeyCell) (s : S)
        → AllAt none foot (held s)
        → cell.is_locked ≡ true
        → TryReturns (held s) ((do r ← try_lock m raw data_ key; unlock_if r) (cell, s))
    unfolding try_lock with_key
    try_lock-unlock key cell s free alive =
        tried_TryReturns (held s) cell key (raw_try_lock m raw s) free alive (law.tries s free)
