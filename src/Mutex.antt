-- ===== src/Mutex.antt =====
-- src/mutex/mutex.rs and src/mutex/guard.rs. `lock_api::RawMutex` is a parameter; its methods run
-- on everything that is shared, since other threads may act while a method runs.
pub mod Contract
pub mod Killed
pub mod Methods
pub mod Data
pub mod Deref
pub mod Debug
use happylock.Base.{ℕ, Bool, false, List, ◌∷◌, ◌++◌, [], if◌then◌else◌}
use happylock.Exec.{M, ret, throw, ◌>>=◌, ◌>>◌, handle_unwind}
use happylock.Shared.{Shared, is_poisoned, poison}
use happylock.RawLock.{RawLock}
use happylock.Lockable.{Lockable}

pub record RawMutex (W : Type 0) : Type 0 where
  pub lock : ℕ → M (Shared W) (Unit {0})
  pub try_lock : ℕ → M (Shared W) Bool
  pub unlock : ℕ → M (Shared W) (Unit {0})

-- A `MutexRef` is a reference to its mutex, by address; so is `&mut T`, to the data of it.
pub data MutexRef : Type 0 where
  mutex_ref : ℕ → MutexRef

module _ {W : Type 0} (raw : RawMutex W) where
  -- A mutex is known by its address, which stands for its three fields.
  mutex_raw_write : ℕ → M (Shared W) (Unit {0})
  mutex_raw_write a = do
    killed ← is_poisoned a
    if killed then throw else handle_unwind (raw.lock a) (poison a)

  mutex_raw_try_write : ℕ → M (Shared W) Bool
  mutex_raw_try_write a = do
    killed ← is_poisoned a
    if killed then ret false else handle_unwind (raw.try_lock a) (poison a)

  mutex_raw_unlock_write : ℕ → M (Shared W) (Unit {0})
  mutex_raw_unlock_write a = handle_unwind (raw.unlock a) (poison a)

  -- `impl RawLock for Mutex`: the methods for reading call those for writing.
  unfoldable pub mutex_lock : ℕ → RawLock (Shared W)
  unfolding mutex_raw_write mutex_raw_try_write mutex_raw_unlock_write is_poisoned poison
  mutex_lock a = record {
    addr = a;
    poison = poison a;
    raw_write = mutex_raw_write a;
    raw_try_write = mutex_raw_try_write a;
    raw_unlock_write = mutex_raw_unlock_write a;
    raw_read = mutex_raw_write a;
    raw_try_read = mutex_raw_try_write a;
    raw_unlock_read = mutex_raw_unlock_write a;
  }

  abbrev mutex_ref_drop : Bool → MutexRef → M (Shared W) (Unit {0})
  mutex_ref_drop panicking (mutex_ref a) = (mutex_lock a).raw_unlock_write

  -- `impl Lockable for Mutex`
  unfoldable pub mutex_lockable : ℕ → Lockable (Shared W) MutexRef ℕ
  mutex_lockable a = record {
    get_ptrs = λ ptrs. ptrs ++ mutex_lock a ∷ [];
    guard = ret (mutex_ref a);
    access = ret a;
    drop_guard = mutex_ref_drop;
  }
