-- ===== src/RwLock/Contract.antt =====
-- A read-write lock keeps the contract of `RawLock`, for writing and for reading, if its raw lock
-- keeps that of `lock_api`.
use happylock.Base.{ℕ, refl, none, some, [], ◌∷◌}
use happylock.Shared.{Shared}
use happylock.RawLock.{Mode, write, read}
use happylock.RawLock.Holding.{claim, AllAt}
use happylock.RawLock.Contract.{Holding, Locks, TryLocks, Unlocks, IsRawLock}
use happylock.RawLock.Leaf.{mine, killing-Unlocks, guarded-Locks, guarded-TryLocks}
use happylock.Lockable.Guarded.{IsGuarded}
use happylock.RwLock.{
  RawRwLock, lock_raw, try_lock_raw, unlock_raw, rwlock_lock, rwlock_lockable, rwlock_ref,
}

-- The documentation of `lock_api::RawRwLock`, for one mode, the lock at `a` and the thread that
-- calls: the methods take, try to take and give up that mode of the lock. Where a locking method
-- panics the thread holds what it held.
pub record IsRawRwLock {W : Type 0} (held : W → Holding) (raw : RawRwLock W) (m : Mode) (a : ℕ)
    : Type 0 where
  pub locks :
      (s : Shared W)
      → AllAt none (a ∷ []) (mine held s)
      → Locks (mine held) (mine held s) (claim (some m) (a ∷ []) (mine held s)) (lock_raw raw m a s)
  pub tries :
      (s : Shared W)
      → AllAt none (a ∷ []) (mine held s)
      → TryLocks
          (mine held)
          (mine held s)
          (claim (some m) (a ∷ []) (mine held s))
          (try_lock_raw raw m a s)
  pub unlocks :
      (s : Shared W)
      → AllAt (some m) (a ∷ []) (mine held s)
      → Unlocks (mine held) (claim none (a ∷ []) (mine held s)) (unlock_raw raw m a s)

-- If the raw lock keeps its contract for a mode, the methods of the read-write lock for that mode
-- keep that of a `RawLock` that stands for the one address of the lock, killed or not.
pub rwlock_lock-IsRawLock :
    {W : Type 0} (held : W → Holding) (raw : RawRwLock W) (m : Mode) (a : ℕ)
    → IsRawRwLock held raw m a
    → IsRawLock (mine held) m (a ∷ []) (rwlock_lock raw a)
unfolding rwlock_lock
rwlock_lock-IsRawLock held raw write a laws = record {
  locks = λ s free. guarded-Locks held _ a (raw.lock_exclusive a) s (laws.locks s free) (s.flags a);
  tries = λ s free.
      guarded-TryLocks held _ a (raw.try_lock_exclusive a) s (laws.tries s free) (s.flags a);
  unlocks = λ s taken.
      killing-Unlocks held (claim none (a ∷ []) (mine held s)) (mine held s) a
        (raw.unlock_exclusive a s) (laws.unlocks s taken);
}
rwlock_lock-IsRawLock held raw read a laws = record {
  locks = λ s free. guarded-Locks held _ a (raw.lock_shared a) s (laws.locks s free) (s.flags a);
  tries =
      λ s free. guarded-TryLocks held _ a (raw.try_lock_shared a) s (laws.tries s free) (s.flags a);
  unlocks = λ s taken.
      killing-Unlocks held (claim none (a ∷ []) (mine held s)) (mine held s) a
        (raw.unlock_shared a s) (laws.unlocks s taken);
}

-- The reference that a read-write lock makes releases its mode of the lock when it is dropped, if
-- the raw lock keeps its contract for that mode.
pub rwlock_lockable-IsGuarded :
    {W : Type 0} (held : W → Holding) (raw : RawRwLock W) (m : Mode) (a : ℕ)
    → IsRawRwLock held raw m a
    → IsGuarded (mine held) m (a ∷ []) (rwlock_lockable raw m a)
unfolding rwlock_lockable
rwlock_lockable-IsGuarded held raw m a laws = record {
  made = λ s. (
    rwlock_ref a,
    refl,
    λ panicking s' taken. (rwlock_lock-IsRawLock held raw m a laws).unlocks s' taken,
  );
}
