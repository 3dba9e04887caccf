-- ===== src/Poisonable/Deref.antt =====
-- What `PoisonRef` and `PoisonGuard` (src/poisonable/guard.rs) and `PoisonError` (error.rs) give
-- access to, and `PoisonFlag::new` (flag.rs).
use happylock.Base.{ℕ, Bool, false}
use happylock.Poisonable.{PoisonRef, PoisonGuard, PoisonError}

-- `PoisonFlag::new`
unfoldable pub poison_flag_new : Bool
poison_flag_new = false

module _ {G : Type 0} where
  unfoldable pub poison_ref_new : ℕ → G → PoisonRef G
  poison_ref_new flag guard = record { guard = guard; flag = flag }

  -- `Deref` and `DerefMut`
  unfoldable pub poison_ref_deref : PoisonRef G → G
  poison_ref_deref r = r.guard

  -- `AsRef` and `AsMut`
  unfoldable pub poison_ref_as_ref : PoisonRef G → G
  poison_ref_as_ref r = r.guard

  -- `Hash` calls the method of the guard inside, `Debug` and `Display` that of what the reference
  -- dereferences to.
  unfoldable pub poison_ref_hash {ℓ} : {R : Type ℓ} → (G → R) → PoisonRef G → R
  poison_ref_hash hash r = hash r.guard

  unfoldable pub poison_ref_fmt {ℓ} : {R : Type ℓ} → (G → R) → PoisonRef G → R
  unfolding poison_ref_deref
  poison_ref_fmt fmt r = fmt (poison_ref_deref r)

  -- `Hash`, `Debug` and `Display` of a `PoisonGuard` call the methods of its reference.
  unfoldable pub poison_guard_fmt {ℓ} : {R : Type ℓ} → (PoisonRef G → R) → PoisonGuard G → R
  poison_guard_fmt fmt g = fmt g.guard

  -- `Deref` and `DerefMut`, by those of the guard inside.
  unfoldable pub poison_guard_deref : {T : Type 0} → (G → T) → PoisonGuard G → T
  poison_guard_deref deref g = deref g.guard.guard

  -- `AsRef` and `AsMut`
  unfoldable pub poison_guard_as_ref : PoisonGuard G → G
  poison_guard_as_ref g = g.guard.guard

  -- `PoisonError::new`
  unfoldable pub poison_error_new : G → PoisonError G
  poison_error_new guard = record { guard = guard }

  unfoldable pub get_ref : PoisonError G → G
  get_ref e = e.guard

  unfoldable pub get_mut : PoisonError G → G
  get_mut e = e.guard

  unfoldable pub poison_error_as_ref : PoisonError G → G
  unfolding get_ref
  poison_error_as_ref e = get_ref e

  unfoldable pub poison_error_as_mut : PoisonError G → G
  unfolding get_mut
  poison_error_as_mut e = get_mut e
