-- ===== src/Collection/Retry/Methods.antt =====
-- The methods of `RetryingLockCollection` that take a key: src/collection/retry.rs. The collection is taken with
-- its `Lockable` implementation for writing, and with its `Sharable` one for reading.
use happylock.Base.{ℕ}
use happylock.Exec.{M}
use happylock.Key.{KeyCell, ThreadKey, Keyable}
use happylock.RawLock.{write, read}
use happylock.Lockable.{Lockable}
use happylock.Collection.Access.{Result, LockGuard, scoped, scoped_try, lock, try_lock, unlock}
use happylock.Collection.Retry.{retry_raw}

module _ {S G D : Type 0} (a fuel : ℕ) (c : Lockable S G D) where
  unfoldable pub retry_scoped_lock {ℓ} :
      {R : Type ℓ} → Keyable → (D → M (KeyCell × S) R) → M (KeyCell × S) R
  unfolding scoped retry_raw
  retry_scoped_lock key f = scoped write (retry_raw a fuel c) c key f

  unfoldable pub retry_scoped_try_lock {ℓ} :
      {R : Type ℓ} → Keyable → (D → M (KeyCell × S) R) → M (KeyCell × S) (Result R Keyable)
  unfolding scoped_try retry_raw
  retry_scoped_try_lock key f = scoped_try write (retry_raw a fuel c) c key f

  unfoldable pub retry_lock_with : ThreadKey → M (KeyCell × S) (LockGuard G)
  unfolding lock retry_raw
  retry_lock_with key = lock write (retry_raw a fuel c) c key

  unfoldable pub retry_try_lock_with : ThreadKey → M (KeyCell × S) (Result (LockGuard G) ThreadKey)
  unfolding try_lock retry_raw
  retry_try_lock_with key = try_lock write (retry_raw a fuel c) c key

  unfoldable pub retry_unlock : LockGuard G → M (KeyCell × S) ThreadKey
  unfolding unlock retry_raw
  retry_unlock guard = unlock c guard

  unfoldable pub retry_scoped_read {ℓ} :
      {R : Type ℓ} → Keyable → (D → M (KeyCell × S) R) → M (KeyCell × S) R
  unfolding scoped retry_raw
  retry_scoped_read key f = scoped read (retry_raw a fuel c) c key f

  unfoldable pub retry_scoped_try_read {ℓ} :
      {R : Type ℓ} → Keyable → (D → M (KeyCell × S) R) → M (KeyCell × S) (Result R Keyable)
  unfolding scoped_try retry_raw
  retry_scoped_try_read key f = scoped_try read (retry_raw a fuel c) c key f

  unfoldable pub retry_read : ThreadKey → M (KeyCell × S) (LockGuard G)
  unfolding lock retry_raw
  retry_read key = lock read (retry_raw a fuel c) c key

  unfoldable pub retry_try_read : ThreadKey → M (KeyCell × S) (Result (LockGuard G) ThreadKey)
  unfolding try_lock retry_raw
  retry_try_read key = try_lock read (retry_raw a fuel c) c key

  unfoldable pub retry_unlock_read : LockGuard G → M (KeyCell × S) ThreadKey
  unfolding unlock retry_raw
  retry_unlock_read guard = unlock c guard
