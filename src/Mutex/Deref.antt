-- ===== src/Mutex/Deref.antt =====
-- src/mutex/guard.rs: the data that `MutexRef` and `MutexGuard` give access to, by the address of
-- the mutex, their constructors and the drop of a `MutexGuard`.
use happylock.Base.{ℕ, Bool}
use happylock.Exec.{M, ◌>>◌, lift}
use happylock.Key.{KeyCell, ThreadKey, owned, thread_key_drop, with_key}
use happylock.Shared.{Shared}
use happylock.Mutex.{RawMutex, MutexRef, mutex_ref, mutex_lock, mutex_ref_drop}
use happylock.Mutex.Methods.{MutexGuard}

unfoldable pub mutex_ref_new : ℕ → MutexRef
mutex_ref_new mutex = mutex_ref mutex

unfoldable pub mutex_ref_deref : MutexRef → ℕ
mutex_ref_deref (mutex_ref a) = a

unfoldable pub mutex_ref_deref_mut : MutexRef → ℕ
mutex_ref_deref_mut (mutex_ref a) = a

-- `AsRef` and `AsMut`, by a coercion that dereferences.
unfoldable pub mutex_ref_as_ref : MutexRef → ℕ
unfolding mutex_ref_deref
mutex_ref_as_ref r = mutex_ref_deref r

-- `Hash`, `Debug` and `Display` call the method of the data.
unfoldable pub mutex_ref_fmt {ℓ} : {R : Type ℓ} → (ℕ → R) → MutexRef → R
unfolding mutex_ref_deref
mutex_ref_fmt fmt r = fmt (mutex_ref_deref r)

unfoldable pub mutex_guard_new : ℕ → ThreadKey → MutexGuard
mutex_guard_new mutex key = record { mutex = mutex_ref mutex; thread_key = key }

-- `Deref` and `DerefMut`
unfoldable pub mutex_guard_deref : MutexGuard → ℕ
unfolding mutex_ref_deref
mutex_guard_deref g = mutex_ref_deref g.mutex

-- `AsRef` and `AsMut`
unfoldable pub mutex_guard_as_ref : MutexGuard → ℕ
unfolding mutex_guard_deref
mutex_guard_as_ref g = mutex_guard_deref g

-- `Hash`, `Debug` and `Display`
unfoldable pub mutex_guard_fmt {ℓ} : {R : Type ℓ} → (ℕ → R) → MutexGuard → R
unfolding mutex_guard_deref
mutex_guard_fmt fmt g = fmt (mutex_guard_deref g)

module _ {W : Type 0} (raw : RawMutex W) where
  -- The fields of a `MutexGuard` are dropped in order.
  unfoldable pub mutex_guard_drop : Bool → MutexGuard → M (KeyCell × Shared W) (Unit {0})
  unfolding with_key thread_key_drop mutex_lock
  mutex_guard_drop panicking g = do
    with_key (owned g.thread_key) (lift (mutex_ref_drop raw panicking g.mutex))
    thread_key_drop g.thread_key
