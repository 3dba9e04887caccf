-- ===== src/Collection/Sorted/BoxedMethods.antt =====
-- The methods of `BoxedLockCollection` that take a key: src/collection/boxed.rs. The collection is taken with
-- its `Lockable` implementation for writing, and with its `Sharable` one for reading.
use happylock.Base.{ℕ}
use happylock.Exec.{M}
use happylock.Key.{KeyCell, ThreadKey, Keyable}
use happylock.RawLock.{write, read}
use happylock.Collection.Access.{Result, LockGuard, scoped, scoped_try, lock, try_lock, unlock}
use happylock.Collection.Sorted.{SortedCollection, sorted_raw, sorted_lockable}

module _ {S G D : Type 0} (a : ℕ) (c : SortedCollection S G D) where
  unfoldable pub boxed_scoped_lock {ℓ} :
      {R : Type ℓ} → Keyable → (D → M (KeyCell × S) R) → M (KeyCell × S) R
  unfolding scoped sorted_raw sorted_lockable
  boxed_scoped_lock key f = scoped write (sorted_raw a c) (sorted_lockable c) key f

  unfoldable pub boxed_scoped_try_lock {ℓ} :
      {R : Type ℓ} → Keyable → (D → M (KeyCell × S) R) → M (KeyCell × S) (Result R Keyable)
  unfolding scoped_try sorted_raw sorted_lockable
  boxed_scoped_try_lock key f = scoped_try write (sorted_raw a c) (sorted_lockable c) key f

  unfoldable pub boxed_lock : ThreadKey → M (KeyCell × S) (LockGuard G)
  unfolding lock sorted_raw sorted_lockable
  boxed_lock key = lock write (sorted_raw a c) (sorted_lockable c) key

  unfoldable pub boxed_try_lock : ThreadKey → M (KeyCell × S) (Result (LockGuard G) ThreadKey)
  unfolding try_lock sorted_raw sorted_lockable
  boxed_try_lock key = try_lock write (sorted_raw a c) (sorted_lockable c) key

  unfoldable pub boxed_unlock : LockGuard G → M (KeyCell × S) ThreadKey
  unfolding unlock sorted_raw sorted_lockable
  boxed_unlock guard = unlock (sorted_lockable c) guard

  unfoldable pub boxed_scoped_read {ℓ} :
      {R : Type ℓ} → Keyable → (D → M (KeyCell × S) R) → M (KeyCell × S) R
  unfolding scoped sorted_raw sorted_lockable
  boxed_scoped_read key f = scoped read (sorted_raw a c) (sorted_lockable c) key f

  unfoldable pub boxed_scoped_try_read {ℓ} :
      {R : Type ℓ} → Keyable → (D → M (KeyCell × S) R) → M (KeyCell × S) (Result R Keyable)
  unfolding scoped_try sorted_raw sorted_lockable
  boxed_scoped_try_read key f = scoped_try read (sorted_raw a c) (sorted_lockable c) key f

  unfoldable pub boxed_read : ThreadKey → M (KeyCell × S) (LockGuard G)
  unfolding lock sorted_raw sorted_lockable
  boxed_read key = lock read (sorted_raw a c) (sorted_lockable c) key

  unfoldable pub boxed_try_read : ThreadKey → M (KeyCell × S) (Result (LockGuard G) ThreadKey)
  unfolding try_lock sorted_raw sorted_lockable
  boxed_try_read key = try_lock read (sorted_raw a c) (sorted_lockable c) key

  unfoldable pub boxed_unlock_read : LockGuard G → M (KeyCell × S) ThreadKey
  unfolding unlock sorted_raw sorted_lockable
  boxed_unlock_read guard = unlock (sorted_lockable c) guard
