-- ===== src/Mutex/Debug.antt =====
-- `impl Debug for Mutex` in src/mutex/mutex.rs, which locks the mutex to show its data.
use happylock.Base.{ℕ, some, none, true, false}
use happylock.Exec.{M, ret, ◌>>=◌, ◌>>◌, handle_unwind}
use happylock.Shared.{Shared}
use happylock.Mutex.{RawMutex, MutexRef, mutex_lock, mutex_ref_drop}
use happylock.Mutex.Methods.{mutex_try_lock_no_key}
use happylock.Mutex.Deref.{mutex_ref_deref}

module _ {ℓ} {W : Type 0} {R : Type ℓ} (raw : RawMutex W) (fmt : ℕ → M (Shared W) R)
    (placeholder : M (Shared W) R) where
  -- With a reference: the data are shown, and the reference is dropped, also if that panics.
  unfoldable pub mutex_show : MutexRef → M (Shared W) R
  unfolding mutex_ref_deref mutex_lock
  mutex_show value = do
    r ← handle_unwind (fmt (mutex_ref_deref value)) (mutex_ref_drop raw true value)
    mutex_ref_drop raw false value
    ret r

  -- `fmt`, with the formatting of the data and of the placeholder as arguments.
  unfoldable pub mutex_debug : ℕ → M (Shared W) R
  unfolding mutex_show mutex_try_lock_no_key
  mutex_debug a = do
    value ← mutex_try_lock_no_key raw a
    elim value [ none ↦ placeholder | some v ↦ mutex_show v ]
