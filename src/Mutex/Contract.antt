-- ===== src/Mutex/Contract.antt =====
-- A mutex keeps the contract of `RawLock` if its raw mutex keeps that of `lock_api`.
use happylock.Base.{ℕ, refl, none, some, [], ◌∷◌}
use happylock.Shared.{Shared}
use happylock.RawLock.{write}
use happylock.RawLock.Holding.{claim, AllAt}
use happylock.RawLock.Contract.{Holding, Locks, TryLocks, Unlocks, IsRawLock}
use happylock.RawLock.Leaf.{mine, killing-Unlocks, guarded-Locks, guarded-TryLocks}
use happylock.Lockable.Guarded.{IsGuarded}
use happylock.Mutex.{RawMutex, mutex_lock, mutex_lockable, mutex_ref}

-- The documentation of `lock_api::RawMutex`, for the mutex at `a` and the thread that calls:
-- `lock` returns with the mutex held, `try_lock` says whether it is, `unlock` gives up a mutex that
-- is held. Where `lock` or `try_lock` panics the thread holds what it held.
pub record IsRawMutex {W : Type 0} (held : W → Holding) (raw : RawMutex W) (a : ℕ) : Type 0 where
  pub locks :
      (s : Shared W)
      → AllAt none (a ∷ []) (mine held s)
      → Locks (mine held) (mine held s) (claim (some write) (a ∷ []) (mine held s)) (raw.lock a s)
  pub tries :
      (s : Shared W)
      → AllAt none (a ∷ []) (mine held s)
      → TryLocks
          (mine held)
          (mine held s)
          (claim (some write) (a ∷ []) (mine held s))
          (raw.try_lock a s)
  pub unlocks :
      (s : Shared W)
      → AllAt (some write) (a ∷ []) (mine held s)
      → Unlocks (mine held) (claim none (a ∷ []) (mine held s)) (raw.unlock a s)

-- If the raw mutex keeps its contract, the methods of the mutex keep that of a `RawLock` that
-- stands for the one address of the mutex, whether the mutex is killed or not.
pub mutex_lock-IsRawLock :
    {W : Type 0} (held : W → Holding) (raw : RawMutex W) (a : ℕ)
    → IsRawMutex held raw a
    → IsRawLock (mine held) write (a ∷ []) (mutex_lock raw a)
unfolding mutex_lock
mutex_lock-IsRawLock held raw a laws = record {
  locks = λ s free. guarded-Locks held _ a (raw.lock a) s (laws.locks s free) (s.flags a);
  tries = λ s free. guarded-TryLocks held _ a (raw.try_lock a) s (laws.tries s free) (s.flags a);
  unlocks = λ s taken.
      killing-Unlocks held (claim none (a ∷ []) (mine held s)) (mine held s) a (raw.unlock a s)
        (laws.unlocks s taken);
}

-- The reference that a mutex makes releases the mutex when it is dropped, if the raw mutex keeps
-- its contract.
pub mutex_lockable-IsGuarded :
    {W : Type 0} (held : W → Holding) (raw : RawMutex W) (a : ℕ)
    → IsRawMutex held raw a
    → IsGuarded (mine held) write (a ∷ []) (mutex_lockable raw a)
unfolding mutex_lockable
mutex_lockable-IsGuarded held raw a laws = record {
  made = λ s. (
    mutex_ref a,
    refl,
    λ panicking s' taken. (mutex_lock-IsRawLock held raw a laws).unlocks s' taken,
  );
}
