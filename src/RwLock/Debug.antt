-- ===== src/RwLock/Debug.antt =====
-- `impl Debug for RwLock` in src/rwlock/rwlock.rs, which locks for reading to show the data.
use happylock.Base.{ℕ, some, none, true, false}
use happylock.Exec.{M, ret, ◌>>=◌, ◌>>◌, handle_unwind}
use happylock.Shared.{Shared}
use happylock.RawLock.{read}
use happylock.RwLock.{RawRwLock, RwLockRef, rwlock_ref_drop}
use happylock.RwLock.Methods.{rwlock_try_no_key}
use happylock.RwLock.Deref.{read_ref_deref}

module _ {ℓ} {W : Type 0} {R : Type ℓ} (raw : RawRwLock W) (fmt : ℕ → M (Shared W) R)
    (placeholder : M (Shared W) R) where
  -- With a reference: the data are shown, and the reference is dropped, also if that panics.
  unfoldable pub rwlock_show : RwLockRef → M (Shared W) R
  unfolding read_ref_deref
  rwlock_show value = do
    r ← handle_unwind (fmt (read_ref_deref value)) (rwlock_ref_drop raw read true value)
    rwlock_ref_drop raw read false value
    ret r

  -- `fmt`, with the formatting of the data and of the placeholder as arguments.
  unfoldable pub rwlock_debug : ℕ → M (Shared W) R
  unfolding rwlock_show rwlock_try_no_key
  rwlock_debug a = do
    value ← rwlock_try_no_key raw read a
    elim value [ none ↦ placeholder | some v ↦ rwlock_show v ]
