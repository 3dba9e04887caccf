-- ===== src/Mutex/Methods.antt =====
-- The methods of src/mutex/mutex.rs that take a key, and `MutexGuard` of src/mutex.rs.
use happylock.Base.{Option, some, none, ℕ, ◌≡◌, refl, false, if◌then◌else◌}
use happylock.Exec.{M, ret, ◌>>=◌, ◌>>◌, handle_unwind, lift}
use happylock.Shared.{Shared}
use happylock.RawLock.{write}
use happylock.Key.{KeyCell, ThreadKey, Keyable, owned, keyable_drop, with_key}
use happylock.Mutex.{RawMutex, MutexRef, mutex_ref, mutex_lock, mutex_ref_drop, mutex_lockable}
use happylock.Collection.Access.Single.{map_ok, locked_same, tried_same}
use happylock.Collection.Access.{Result, LockGuard, scoped, scoped_try, lock, try_lock, unlock}

pub record MutexGuard : Type 0 where
  pub mutex : MutexRef
  pub thread_key : ThreadKey

module _ {W : Type 0} (raw : RawMutex W) (a : ℕ) where
  -- `scoped_lock`: the closure is called on the data of the mutex, by the address of the mutex.
  unfoldable pub mutex_scoped_lock {ℓ} :
      {R : Type ℓ} → Keyable → (ℕ → M (KeyCell × Shared W) R) → M (KeyCell × Shared W) R
  unfolding mutex_lock with_key keyable_drop
  mutex_scoped_lock key f = do
    r ← with_key key (do
      lift (mutex_lock raw a).raw_write
      handle_unwind (f a) (lift (mutex_lock raw a).raw_unlock_write))
    keyable_drop key
    lift (mutex_lock raw a).raw_unlock_write
    ret r

  -- `scoped_try_lock`
  unfoldable pub mutex_scoped_try_lock {ℓ} :
      {R : Type ℓ}
      → Keyable
      → (ℕ → M (KeyCell × Shared W) R)
      → M (KeyCell × Shared W) (Result R Keyable)
  unfolding mutex_lock with_key keyable_drop
  mutex_scoped_try_lock key f = do
    success ← with_key key (lift (mutex_lock raw a).raw_try_write)
    if success
        then (do
          r ← with_key key (handle_unwind (f a) (lift (mutex_lock raw a).raw_unlock_write))
          keyable_drop key
          lift (mutex_lock raw a).raw_unlock_write
          ret (Result.ok r))
        else ret (Result.err key)

  -- `Mutex::lock`
  unfoldable pub mutex_lock_with : ThreadKey → M (KeyCell × Shared W) MutexGuard
  unfolding mutex_lock with_key
  mutex_lock_with key = do
    with_key (owned key) (lift (mutex_lock raw a).raw_write)
    ret (record { mutex = mutex_ref a; thread_key = key })

  -- `Mutex::try_lock`
  unfoldable pub mutex_try_lock_with :
      ThreadKey → M (KeyCell × Shared W) (Result MutexGuard ThreadKey)
  unfolding mutex_lock with_key
  mutex_try_lock_with key = do
    success ← with_key (owned key) (lift (mutex_lock raw a).raw_try_write)
    if success
        then ret (Result.ok (record { mutex = mutex_ref a; thread_key = key }))
        else ret (Result.err key)

  -- `Mutex::try_lock_no_key`
  unfoldable pub mutex_try_lock_no_key : M (Shared W) (Option MutexRef)
  unfolding mutex_lock
  mutex_try_lock_no_key = do
    success ← (mutex_lock raw a).raw_try_write
    ret (if success then some (mutex_ref a) else none)

module _ {W : Type 0} (raw : RawMutex W) where
  -- `Mutex::unlock`
  unfoldable pub mutex_unlock : MutexGuard → M (KeyCell × Shared W) ThreadKey
  unfolding with_key
  mutex_unlock guard = do
    with_key (owned guard.thread_key) (lift (mutex_ref_drop raw false guard.mutex))
    ret guard.thread_key

-- The guard of a mutex, as that of a collection.
abbrev pub as_lock_guard : MutexGuard → LockGuard MutexRef
as_lock_guard g = record { guard = g.mutex; key = g.thread_key }

module _ {W : Type 0} (raw : RawMutex W) (a : ℕ) where
  -- A mutex is a collection of one lock: each of its methods that take a key does what the method
  -- of the collections does for the mutex as a raw lock and as a lockable value, in every state,
  -- with the same guard up to the names of its fields.
  pub mutex_methods-collection :
      (key : Keyable) (key' : ThreadKey) (cs : KeyCell × Shared W) (guard : MutexGuard)
      → ((R : Type 0) (f : ℕ → M (KeyCell × Shared W) R)
          → (mutex_scoped_lock raw a key f cs
              ≡ scoped write (mutex_lock raw a) (mutex_lockable raw a) key f cs)
            × (mutex_scoped_try_lock raw a key f cs
                ≡ scoped_try write (mutex_lock raw a) (mutex_lockable raw a) key f cs))
        × ((do g ← mutex_lock_with raw a key'; ret (as_lock_guard g)) cs
            ≡ lock write (mutex_lock raw a) (mutex_lockable raw a) key' cs)
        × ((do r ← mutex_try_lock_with raw a key'; ret (map_ok as_lock_guard r)) cs
            ≡ try_lock write (mutex_lock raw a) (mutex_lockable raw a) key' cs)
        × (mutex_unlock raw guard cs ≡ unlock (mutex_lockable raw a) (as_lock_guard guard) cs)
  unfolding mutex_scoped_lock mutex_scoped_try_lock mutex_lock_with mutex_unlock scoped scoped_try
      lock try_lock mutex_try_lock_with with_key unlock mutex_lockable
  mutex_methods-collection key key' cs guard = (
    λ R f. (refl, refl),
    locked_same (mutex_ref a) key' (record { mutex = mutex_ref a; thread_key = key' }) as_lock_guard
        refl cs.0 ((mutex_lock raw a).raw_write cs.1),
    tried_same (mutex_ref a) key' (record { mutex = mutex_ref a; thread_key = key' }) as_lock_guard
        refl (with_key (owned key') (lift (mutex_lock raw a).raw_try_write) cs),
    refl,
  )
