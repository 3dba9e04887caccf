-- ===== src/Collection/Access/Deref.antt =====
-- src/collection/guard.rs: what a `LockGuard` gives access to.
use happylock.Collection.Access.{LockGuard}

module _ {G : Type 0} where
  -- `Deref` and `DerefMut`
  unfoldable pub lock_guard_deref : LockGuard G → G
  lock_guard_deref g = g.guard

  -- `AsRef` and `AsMut`
  unfoldable pub lock_guard_as_ref : LockGuard G → G
  lock_guard_as_ref g = g.guard

  -- `Hash` calls the method of the guard inside, which is an argument.
  unfoldable pub lock_guard_hash {ℓ} : {R : Type ℓ} → (G → R) → LockGuard G → R
  lock_guard_hash hash g = hash g.guard

  -- `Debug` and `Display` call the method of what the guard dereferences to.
  unfoldable pub lock_guard_fmt {ℓ} : {R : Type ℓ} → (G → R) → LockGuard G → R
  unfolding lock_guard_deref
  lock_guard_fmt fmt g = fmt (lock_guard_deref g)
