-- ===== src/RwLock/Writing.antt =====
-- The methods of src/rwlock/rwlock.rs that take a key and lock for writing: those for reading, in
-- the other mode.
use happylock.Base.{ℕ}
use happylock.Exec.{M}
use happylock.Key.{KeyCell, ThreadKey, Keyable}
use happylock.Shared.{Shared}
use happylock.RawLock.{write}
use happylock.RwLock.{RawRwLock}
use happylock.RwLock.Methods.{
  RwLockGuard, rwlock_scoped, rwlock_scoped_try, rwlock_lock_with, rwlock_try_lock_with,
  rwlock_unlock,
}
use happylock.Collection.Access.{Result}

module _ {W : Type 0} (raw : RawRwLock W) (a : ℕ) where
  unfoldable pub rwlock_scoped_write {ℓ} :
      {R : Type ℓ} → Keyable → (ℕ → M (KeyCell × Shared W) R) → M (KeyCell × Shared W) R
  unfolding rwlock_scoped
  rwlock_scoped_write key f = rwlock_scoped raw write a key f

  unfoldable pub rwlock_scoped_try_write {ℓ} :
      {R : Type ℓ}
      → Keyable
      → (ℕ → M (KeyCell × Shared W) R)
      → M (KeyCell × Shared W) (Result R Keyable)
  unfolding rwlock_scoped_try
  rwlock_scoped_try_write key f = rwlock_scoped_try raw write a key f

  unfoldable pub rwlock_write : ThreadKey → M (KeyCell × Shared W) RwLockGuard
  unfolding rwlock_lock_with
  rwlock_write key = rwlock_lock_with raw write a key

  unfoldable pub rwlock_try_write :
      ThreadKey → M (KeyCell × Shared W) (Result RwLockGuard ThreadKey)
  unfolding rwlock_try_lock_with
  rwlock_try_write key = rwlock_try_lock_with raw write a key

module _ {W : Type 0} (raw : RawRwLock W) where
  unfoldable pub rwlock_unlock_write : RwLockGuard → M (KeyCell × Shared W) ThreadKey
  unfolding rwlock_unlock
  rwlock_unlock_write guard = rwlock_unlock raw write guard
