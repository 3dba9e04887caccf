-- ===== src/RwLock.antt =====
-- src/rwlock/rwlock.rs, read_guard.rs and write_guard.rs. `lock_api::RawRwLock` is a parameter;
-- its methods run on everything that is shared, since other threads may act while a method runs.
pub mod Contract
pub mod Killed
pub mod Methods
pub mod Data
pub mod Deref
pub mod Debug
pub mod Writing
use happylock.Base.{ℕ, Bool, false, ◌∷◌, ◌++◌, [], if◌then◌else◌}
use happylock.Exec.{M, ret, throw, ◌>>=◌, handle_unwind}
use happylock.Shared.{Shared, is_poisoned, poison}
use happylock.RawLock.{RawLock, Mode, write, read, raw_unlock}
use happylock.Lockable.{Lockable}

pub record RawRwLock (W : Type 0) : Type 0 where
  pub lock_exclusive : ℕ → M (Shared W) (Unit {0})
  pub try_lock_exclusive : ℕ → M (Shared W) Bool
  pub unlock_exclusive : ℕ → M (Shared W) (Unit {0})
  pub lock_shared : ℕ → M (Shared W) (Unit {0})
  pub try_lock_shared : ℕ → M (Shared W) Bool
  pub unlock_shared : ℕ → M (Shared W) (Unit {0})

-- `RwLockWriteRef` and `RwLockReadRef`: references to the lock.
pub data RwLockRef : Type 0 where
  rwlock_ref : ℕ → RwLockRef

module _ {W : Type 0} (raw : RawRwLock W) where
  abbrev pub lock_raw : Mode → ℕ → M (Shared W) (Unit {0})
  lock_raw write = raw.lock_exclusive
  lock_raw read = raw.lock_shared

  abbrev pub try_lock_raw : Mode → ℕ → M (Shared W) Bool
  try_lock_raw write = raw.try_lock_exclusive
  try_lock_raw read = raw.try_lock_shared

  abbrev pub unlock_raw : Mode → ℕ → M (Shared W) (Unit {0})
  unlock_raw write = raw.unlock_exclusive
  unlock_raw read = raw.unlock_shared

  -- `raw_write` and `raw_read`
  rwlock_raw_lock : Mode → ℕ → M (Shared W) (Unit {0})
  rwlock_raw_lock m a = do
    killed ← is_poisoned a
    if killed then throw else handle_unwind (lock_raw m a) (poison a)

  -- `raw_try_write` and `raw_try_read`
  rwlock_raw_try_lock : Mode → ℕ → M (Shared W) Bool
  rwlock_raw_try_lock m a = do
    killed ← is_poisoned a
    if killed then ret false else handle_unwind (try_lock_raw m a) (poison a)

  -- `raw_unlock_write` and `raw_unlock_read`
  rwlock_raw_unlock : Mode → ℕ → M (Shared W) (Unit {0})
  rwlock_raw_unlock m a = handle_unwind (unlock_raw m a) (poison a)

  -- `impl RawLock for RwLock`
  unfoldable pub rwlock_lock : ℕ → RawLock (Shared W)
  unfolding rwlock_raw_lock rwlock_raw_try_lock rwlock_raw_unlock is_poisoned poison
  rwlock_lock a = record {
    addr = a;
    poison = poison a;
    raw_write = rwlock_raw_lock write a;
    raw_try_write = rwlock_raw_try_lock write a;
    raw_unlock_write = rwlock_raw_unlock write a;
    raw_read = rwlock_raw_lock read a;
    raw_try_read = rwlock_raw_try_lock read a;
    raw_unlock_read = rwlock_raw_unlock read a;
  }

  abbrev rwlock_ref_drop : Mode → Bool → RwLockRef → M (Shared W) (Unit {0})
  rwlock_ref_drop m panicking (rwlock_ref a) = raw_unlock m (rwlock_lock a)

  -- `impl Lockable for RwLock` and `impl Sharable for RwLock`
  unfoldable pub rwlock_lockable : Mode → ℕ → Lockable (Shared W) RwLockRef ℕ
  rwlock_lockable m a = record {
    get_ptrs = λ ptrs. ptrs ++ rwlock_lock a ∷ [];
    guard = ret (rwlock_ref a);
    access = ret a;
    drop_guard = rwlock_ref_drop m;
  }
