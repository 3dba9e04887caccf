-- ===== src/RwLock/Methods.antt =====
-- The methods of src/rwlock/rwlock.rs that take a key, and `RwLockReadGuard` and
-- `RwLockWriteGuard` of src/rwlock.rs.
use happylock.Base.{ℕ, ◌≡◌, refl, false, Option, some, none, if◌then◌else◌}
use happylock.Exec.{M, ret, ◌>>=◌, ◌>>◌, handle_unwind, lift}
use happylock.Shared.{Shared}
use happylock.RawLock.{Mode, raw_lock, raw_try_lock, raw_unlock}
use happylock.Key.{KeyCell, ThreadKey, Keyable, owned, keyable_drop, with_key}
use happylock.RwLock.{
  RawRwLock, RwLockRef, rwlock_ref, rwlock_lock, rwlock_ref_drop, rwlock_lockable,
}
use happylock.Collection.Access.{Result, LockGuard, scoped, scoped_try, lock, try_lock, unlock}
use happylock.Collection.Access.Single.{map_ok, locked_same, tried_same}

pub record RwLockGuard : Type 0 where
  pub rwlock : RwLockRef
  pub thread_key : ThreadKey

module _ {W : Type 0} (raw : RawRwLock W) (m : Mode) (a : ℕ) where
  -- `scoped_read` and `scoped_write`: the closure is called on the data of the lock, by address.
  unfoldable pub rwlock_scoped {ℓ} :
      {R : Type ℓ} → Keyable → (ℕ → M (KeyCell × Shared W) R) → M (KeyCell × Shared W) R
  unfolding rwlock_lock with_key keyable_drop
  rwlock_scoped key f = do
    r ← with_key key (do
      lift (raw_lock m (rwlock_lock raw a))
      handle_unwind (f a) (lift (raw_unlock m (rwlock_lock raw a))))
    keyable_drop key
    lift (raw_unlock m (rwlock_lock raw a))
    ret r

  -- `scoped_try_read` and `scoped_try_write`
  unfoldable pub rwlock_scoped_try {ℓ} :
      {R : Type ℓ}
      → Keyable
      → (ℕ → M (KeyCell × Shared W) R)
      → M (KeyCell × Shared W) (Result R Keyable)
  unfolding rwlock_lock with_key keyable_drop
  rwlock_scoped_try key f = do
    success ← with_key key (lift (raw_try_lock m (rwlock_lock raw a)))
    if success
        then (do
          r ← with_key key (handle_unwind (f a) (lift (raw_unlock m (rwlock_lock raw a))))
          keyable_drop key
          lift (raw_unlock m (rwlock_lock raw a))
          ret (Result.ok r))
        else ret (Result.err key)

  -- `read` and `write`
  unfoldable pub rwlock_lock_with : ThreadKey → M (KeyCell × Shared W) RwLockGuard
  unfolding rwlock_lock with_key
  rwlock_lock_with key = do
    with_key (owned key) (lift (raw_lock m (rwlock_lock raw a)))
    ret (record { rwlock = rwlock_ref a; thread_key = key })

  -- `try_read` and `try_write`
  unfoldable pub rwlock_try_lock_with :
      ThreadKey → M (KeyCell × Shared W) (Result RwLockGuard ThreadKey)
  unfolding rwlock_lock with_key
  rwlock_try_lock_with key = do
    success ← with_key (owned key) (lift (raw_try_lock m (rwlock_lock raw a)))
    if success
        then ret (Result.ok (record { rwlock = rwlock_ref a; thread_key = key }))
        else ret (Result.err key)

  -- `try_read_no_key` and `try_write_no_key`
  unfoldable pub rwlock_try_no_key : M (Shared W) (Option RwLockRef)
  unfolding rwlock_lock
  rwlock_try_no_key = do
    success ← raw_try_lock m (rwlock_lock raw a)
    if success then ret (some (rwlock_ref a)) else ret none

module _ {W : Type 0} (raw : RawRwLock W) (m : Mode) where
  -- `unlock_read` and `unlock_write`
  unfoldable pub rwlock_unlock : RwLockGuard → M (KeyCell × Shared W) ThreadKey
  unfolding with_key
  rwlock_unlock guard = do
    with_key (owned guard.thread_key) (lift (rwlock_ref_drop raw m false guard.rwlock))
    ret guard.thread_key

-- The guard of a read-write lock, as that of a collection.
abbrev pub as_lock_guard : RwLockGuard → LockGuard RwLockRef
as_lock_guard g = record { guard = g.rwlock; key = g.thread_key }

module _ {W : Type 0} (raw : RawRwLock W) (m : Mode) (a : ℕ) where
  -- A read-write lock is, for either mode, a collection of one lock: each of its methods that take
  -- a key does what the method of the collections does for it as a raw lock and as a lockable
  -- value, in every state, with the same guard up to the names of its fields.
  pub rwlock_methods-collection :
      (key : Keyable) (key' : ThreadKey) (cs : KeyCell × Shared W) (guard : RwLockGuard)
      → ((R : Type 0) (f : ℕ → M (KeyCell × Shared W) R)
          → (rwlock_scoped raw m a key f cs
              ≡ scoped m (rwlock_lock raw a) (rwlock_lockable raw m a) key f cs)
            × (rwlock_scoped_try raw m a key f cs
                ≡ scoped_try m (rwlock_lock raw a) (rwlock_lockable raw m a) key f cs))
        × ((do g ← rwlock_lock_with raw m a key'; ret (as_lock_guard g)) cs
            ≡ lock m (rwlock_lock raw a) (rwlock_lockable raw m a) key' cs)
        × ((do r ← rwlock_try_lock_with raw m a key'; ret (map_ok as_lock_guard r)) cs
            ≡ try_lock m (rwlock_lock raw a) (rwlock_lockable raw m a) key' cs)
        × (rwlock_unlock raw m guard cs ≡ unlock (rwlock_lockable raw m a) (as_lock_guard guard) cs)
  unfolding rwlock_scoped rwlock_scoped_try rwlock_lock_with rwlock_unlock scoped scoped_try lock
      try_lock rwlock_try_lock_with with_key unlock rwlock_lockable
  rwlock_methods-collection key key' cs guard = (
    λ R f. (refl, refl),
    locked_same (rwlock_ref a) key' (record { rwlock = rwlock_ref a; thread_key = key' })
        as_lock_guard refl cs.0 (raw_lock m (rwlock_lock raw a) cs.1),
    tried_same (rwlock_ref a) key' (record { rwlock = rwlock_ref a; thread_key = key' })
        as_lock_guard refl (with_key (owned key') (lift (raw_try_lock m (rwlock_lock raw a))) cs),
    refl,
  )
