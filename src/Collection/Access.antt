-- ===== src/Collection/Access.antt =====
-- How a thread with its key uses a lock: the scoped functions of src/collection/utils.rs, and the
-- methods `lock`, `try_lock`, `unlock` and their counterparts for reading, whose bodies are the
-- same in src/collection/boxed.rs, owned.rs, ref.rs and retry.rs. `raw` is the collection as a
-- `RawLock`, and `data_` as a `Lockable` or a `Sharable`.
pub mod Scoped
pub mod Guards
pub mod Single
pub mod Trying
pub mod Deref
pub mod Critical
use happylock.Base.{Bool, true, false, if◌then◌else◌}
use happylock.Exec.{M, ret, ◌>>=◌, ◌>>◌, handle_unwind, lift}
use happylock.Key.{KeyCell, ThreadKey, Keyable, owned, keyable_drop, thread_key_drop, with_key}
use happylock.RawLock.{RawLock, Mode, raw_lock, raw_try_lock, raw_unlock}
use happylock.Lockable.{Lockable}

-- `Result`, whose constructors are written behind the type.
pub data Result {ℓ κ} (A : Type ℓ) (E : Type κ) : Type (ℓ ⊔ κ) where
  ok : A → Result A E
  err : E → Result A E

-- `LockGuard`
pub record LockGuard (G : Type 0) : Type 0 where
  pub guard : G
  pub key : ThreadKey

module _ {S G D : Type 0} (m : Mode) (raw : RawLock S) (data_ : Lockable S G D) where
  -- The closure on the data, with the unlocking if it panics.
  unfoldable pub protected {ℓ} : {R : Type ℓ} → (D → M (KeyCell × S) R) → M (KeyCell × S) R
  protected f = handle_unwind (do d ← lift data_.access; f d) (lift (raw_unlock m raw))

  -- `scoped_write` and `scoped_read`
  unfoldable pub scoped {ℓ} : {R : Type ℓ} → Keyable → (D → M (KeyCell × S) R) → M (KeyCell × S) R
  unfolding protected with_key keyable_drop
  scoped key f = do
    r ← with_key key (do lift (raw_lock m raw); protected f)
    keyable_drop key
    lift (raw_unlock m raw)
    ret r

  -- `scoped_try_write` and `scoped_try_read`
  unfoldable pub scoped_try {ℓ} :
      {R : Type ℓ} → Keyable → (D → M (KeyCell × S) R) → M (KeyCell × S) (Result R Keyable)
  unfolding protected with_key keyable_drop
  scoped_try key f = do
    success ← with_key key (lift (raw_try_lock m raw))
    if success
        then (do
          r ← with_key key (protected f)
          keyable_drop key
          lift (raw_unlock m raw)
          ret (Result.ok r))
        else ret (Result.err key)

  -- `lock` and `read`
  unfoldable pub lock : ThreadKey → M (KeyCell × S) (LockGuard G)
  unfolding with_key
  lock key = do
    g ← with_key (owned key) (do lift (raw_lock m raw); lift data_.guard)
    ret (record { guard = g; key = key })

  -- `try_lock` and `try_read`
  unfoldable pub try_lock : ThreadKey → M (KeyCell × S) (Result (LockGuard G) ThreadKey)
  unfolding with_key
  try_lock key = do
    success ← with_key (owned key) (lift (raw_try_lock m raw))
    if success
        then (do
          g ← with_key (owned key) (lift data_.guard)
          ret (Result.ok (record { guard = g; key = key })))
        else ret (Result.err key)

module _ {S G D : Type 0} (data_ : Lockable S G D) where
  -- `unlock` and `unlock_read`
  unfoldable pub unlock : LockGuard G → M (KeyCell × S) ThreadKey
  unfolding with_key
  unlock guard = do
    with_key (owned guard.key) (lift (data_.drop_guard false guard.guard))
    ret guard.key

  -- The fields of a `LockGuard` are dropped in order, the guard before the key.
  unfoldable pub lock_guard_drop : Bool → LockGuard G → M (KeyCell × S) (Unit {0})
  unfolding with_key thread_key_drop
  lock_guard_drop panicking guard = do
    with_key (owned guard.key) (lift (data_.drop_guard panicking guard.guard))
    thread_key_drop guard.key
