-- ===== src/RwLock/Deref.antt =====
-- src/rwlock/read_guard.rs and write_guard.rs: the data that the references and guards of a
-- read-write lock give access to, by the address of the lock, their constructors and the drop of a
-- guard.
use happylock.Base.{ℕ, Bool}
use happylock.Exec.{M, ◌>>◌, lift}
use happylock.Key.{KeyCell, ThreadKey, owned, thread_key_drop, with_key}
use happylock.Shared.{Shared}
use happylock.RawLock.{Mode}
use happylock.RwLock.{RawRwLock, RwLockRef, rwlock_ref, rwlock_ref_drop}
use happylock.RwLock.Methods.{RwLockGuard}

unfoldable pub read_ref_new : ℕ → RwLockRef
read_ref_new mutex = rwlock_ref mutex

unfoldable pub read_ref_deref : RwLockRef → ℕ
read_ref_deref (rwlock_ref a) = a

-- `AsRef`, by a coercion that dereferences.
unfoldable pub read_ref_as_ref : RwLockRef → ℕ
unfolding read_ref_deref
read_ref_as_ref r = read_ref_deref r

-- `Hash`, `Debug` and `Display` call the method of the data.
unfoldable pub read_ref_fmt {ℓ} : {R : Type ℓ} → (ℕ → R) → RwLockRef → R
unfolding read_ref_deref
read_ref_fmt fmt r = fmt (read_ref_deref r)

unfoldable pub read_guard_new : ℕ → ThreadKey → RwLockGuard
read_guard_new rwlock key = record { rwlock = rwlock_ref rwlock; thread_key = key }

unfoldable pub read_guard_deref : RwLockGuard → ℕ
unfolding read_ref_deref
read_guard_deref g = read_ref_deref g.rwlock

unfoldable pub read_guard_as_ref : RwLockGuard → ℕ
unfolding read_guard_deref
read_guard_as_ref g = read_guard_deref g

unfoldable pub read_guard_fmt {ℓ} : {R : Type ℓ} → (ℕ → R) → RwLockGuard → R
unfolding read_guard_deref
read_guard_fmt fmt g = fmt (read_guard_deref g)

unfoldable pub write_ref_new : ℕ → RwLockRef
write_ref_new mutex = rwlock_ref mutex

unfoldable pub write_ref_deref : RwLockRef → ℕ
write_ref_deref (rwlock_ref a) = a

unfoldable pub write_ref_deref_mut : RwLockRef → ℕ
write_ref_deref_mut (rwlock_ref a) = a

-- `AsRef` and `AsMut`
unfoldable pub write_ref_as_ref : RwLockRef → ℕ
unfolding write_ref_deref
write_ref_as_ref r = write_ref_deref r

unfoldable pub write_ref_fmt {ℓ} : {R : Type ℓ} → (ℕ → R) → RwLockRef → R
unfolding write_ref_deref
write_ref_fmt fmt r = fmt (write_ref_deref r)

unfoldable pub write_guard_new : ℕ → ThreadKey → RwLockGuard
write_guard_new rwlock key = record { rwlock = rwlock_ref rwlock; thread_key = key }

-- `Deref` and `DerefMut`
unfoldable pub write_guard_deref : RwLockGuard → ℕ
unfolding write_ref_deref
write_guard_deref g = write_ref_deref g.rwlock

-- `AsRef` and `AsMut`
unfoldable pub write_guard_as_ref : RwLockGuard → ℕ
unfolding write_guard_deref
write_guard_as_ref g = write_guard_deref g

unfoldable pub write_guard_fmt {ℓ} : {R : Type ℓ} → (ℕ → R) → RwLockGuard → R
unfolding write_guard_deref
write_guard_fmt fmt g = fmt (write_guard_deref g)

module _ {W : Type 0} (raw : RawRwLock W) (m : Mode) where
  -- The fields of an `RwLockReadGuard` or an `RwLockWriteGuard` are dropped in order.
  unfoldable pub rwlock_guard_drop : Bool → RwLockGuard → M (KeyCell × Shared W) (Unit {0})
  unfolding with_key thread_key_drop
  rwlock_guard_drop panicking g = do
    with_key (owned g.thread_key) (lift (rwlock_ref_drop raw m panicking g.rwlock))
    thread_key_drop g.thread_key
