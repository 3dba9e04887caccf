-- ===== src/Collection/Sorted/OwnedMethods.antt =====
-- The methods of `OwnedLockCollection` that take a key: src/collection/owned.rs. The collection is taken with
-- its `Lockable` implementation for writing, and with its `Sharable` one for reading.
use happylock.Base.{ℕ}
use happylock.Exec.{M}
use happylock.Key.{KeyCell, ThreadKey, Keyable}
use happylock.RawLock.{write, read}
use happylock.Lockable.{Lockable}
use happylock.Collection.Access.{Result, LockGuard, scoped, scoped_try, lock, try_lock, unlock}
use happylock.Collection.Sorted.{owned_raw, owned_lockable}

module _ {S G D : Type 0} (a : ℕ) (c : Lockable S G D) where
  unfoldable pub owned_scoped_lock {ℓ} :
      {R : Type ℓ} → Keyable → (D → M (KeyCell × S) R) → M (KeyCell × S) R
  unfolding scoped owned_raw owned_lockable
  owned_scoped_lock key f = scoped write (owned_raw a c) (owned_lockable a c) key f

  unfoldable pub owned_scoped_try_lock {ℓ} :
      {R : Type ℓ} → Keyable → (D → M (KeyCell × S) R) → M (KeyCell × S) (Result R Keyable)
  unfolding scoped_try owned_raw owned_lockable
  owned_scoped_try_lock key f = scoped_try write (owned_raw a c) (owned_lockable a c) key f

  unfoldable pub owned_lock : ThreadKey → M (KeyCell × S) (LockGuard G)
  unfolding lock owned_raw owned_lockable
  owned_lock key = lock write (owned_raw a c) (owned_lockable a c) key

  unfoldable pub owned_try_lock : ThreadKey → M (KeyCell × S) (Result (LockGuard G) ThreadKey)
  unfolding try_lock owned_raw owned_lockable
  owned_try_lock key = try_lock write (owned_raw a c) (owned_lockable a c) key

  unfoldable pub owned_unlock : LockGuard G → M (KeyCell × S) ThreadKey
  unfolding unlock owned_raw owned_lockable
  owned_unlock guard = unlock (owned_lockable a c) guard

  unfoldable pub owned_scoped_read {ℓ} :
      {R : Type ℓ} → Keyable → (D → M (KeyCell × S) R) → M (KeyCell × S) R
  unfolding scoped owned_raw owned_lockable
  owned_scoped_read key f = scoped read (owned_raw a c) (owned_lockable a c) key f

  unfoldable pub owned_scoped_try_read {ℓ} :
      {R : Type ℓ} → Keyable → (D → M (KeyCell × S) R) → M (KeyCell × S) (Result R Keyable)
  unfolding scoped_try owned_raw owned_lockable
  owned_scoped_try_read key f = scoped_try read (owned_raw a c) (owned_lockable a c) key f

  unfoldable pub owned_read : ThreadKey → M (KeyCell × S) (LockGuard G)
  unfolding lock owned_raw owned_lockable
  owned_read key = lock read (owned_raw a c) (owned_lockable a c) key

  unfoldable pub owned_try_read : ThreadKey → M (KeyCell × S) (Result (LockGuard G) ThreadKey)
  unfolding try_lock owned_raw owned_lockable
  owned_try_read key = try_lock read (owned_raw a c) (owned_lockable a c) key

  unfoldable pub owned_unlock_read : LockGuard G → M (KeyCell × S) ThreadKey
  unfolding unlock owned_raw owned_lockable
  owned_unlock_read guard = unlock (owned_lockable a c) guard
