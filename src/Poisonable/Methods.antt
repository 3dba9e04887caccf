-- ===== src/Poisonable/Methods.antt =====
-- The methods of src/poisonable/poisonable.rs that take a key.
use happylock.Base.{Bool, if◌then◌else◌}
use happylock.Exec.{M, ret, ◌>>=◌, ◌>>◌, handle_unwind, lift}
use happylock.Key.{KeyCell, ThreadKey, Keyable, owned, keyable_drop, thread_key_drop, with_key}
use happylock.Shared.{Shared, is_poisoned, poison}
use happylock.RawLock.{Mode, raw_lock, raw_try_lock, raw_unlock}
use happylock.Collection.Access.{Result}
use happylock.Poisonable.{
  Poisonable, PoisonGuard, PoisonResult, would_block, TryLockPoisonableResult, from_poison_error,
  report, poison_ref_drop, poisonable_access,
}

abbrev pub or_would_block : {G : Type 0} → PoisonResult (PoisonGuard G) → TryLockPoisonableResult G
or_would_block (Result.ok g) = Result.ok g
or_would_block (Result.err e) = Result.err (from_poison_error e)

module _ {W G D : Type 0} (m : Mode) (p : Poisonable W G D) where
  -- The clean-up of the scoped methods.
  unfoldable pub poison_and_unlock : M (KeyCell × Shared W) (Unit {0})
  unfolding poison
  poison_and_unlock = do lift (poison p.poisoned); lift (raw_unlock m p.inner_lock)

  -- The closure on the data, with that clean-up.
  unfoldable pub poisoning {ℓ} :
      {R : Type ℓ} → (PoisonResult D → M (KeyCell × Shared W) R) → M (KeyCell × Shared W) R
  unfolding poison_and_unlock poisonable_access
  poisoning f = handle_unwind (do d ← lift (poisonable_access p); f d) poison_and_unlock

  -- `scoped_lock` and `scoped_read`: the key is dropped when the lock is unlocked.
  unfoldable pub poisonable_scoped {ℓ} :
      {R : Type ℓ}
      → Keyable
      → (PoisonResult D → M (KeyCell × Shared W) R)
      → M (KeyCell × Shared W) R
  unfolding poisoning with_key keyable_drop
  poisonable_scoped key f = do
    r ← with_key key (do
      lift (raw_lock m p.inner_lock)
      r ← poisoning f
      lift (raw_unlock m p.inner_lock)
      ret r)
    keyable_drop key
    ret r

  -- `scoped_try_lock` and `scoped_try_read`
  unfoldable pub poisonable_scoped_try {ℓ} :
      {R : Type ℓ}
      → Keyable
      → (PoisonResult D → M (KeyCell × Shared W) R)
      → M (KeyCell × Shared W) (Result R Keyable)
  unfolding poisoning with_key keyable_drop
  poisonable_scoped_try key f = do
    success ← with_key key (lift (raw_try_lock m p.inner_lock))
    if success
        then (do
          r ← with_key key (do r ← poisoning f; lift (raw_unlock m p.inner_lock); ret r)
          keyable_drop key
          ret (Result.ok r))
        else ret (Result.err key)

  -- The private `guard` and `read_guard`, which take the key.
  unfoldable pub poisonable_guard_with :
      ThreadKey → M (KeyCell × Shared W) (PoisonResult (PoisonGuard G))
  unfolding with_key is_poisoned
  poisonable_guard_with key = do
    g ← with_key (owned key) (lift p.inner.guard)
    b ← lift (is_poisoned p.poisoned)
    ret (report b (record { guard = record { guard = g; flag = p.poisoned }; key = key }))

  -- `lock` and `read`
  unfoldable pub poisonable_lock : ThreadKey → M (KeyCell × Shared W) (PoisonResult (PoisonGuard G))
  unfolding with_key poisonable_guard_with
  poisonable_lock key = do
    with_key (owned key) (lift (raw_lock m p.inner_lock))
    poisonable_guard_with key

  -- `try_lock` and `try_read`
  unfoldable pub poisonable_try_lock :
      ThreadKey → M (KeyCell × Shared W) (TryLockPoisonableResult G)
  unfolding with_key poisonable_guard_with
  poisonable_try_lock key = do
    success ← with_key (owned key) (lift (raw_try_lock m p.inner_lock))
    if success
        then (do r ← poisonable_guard_with key; ret (or_would_block r))
        else ret (Result.err (would_block key))

module _ {W G D : Type 0} (p : Poisonable W G D) where
  -- `unlock` and `unlock_read`, in a thread that may be panicking.
  unfoldable pub poisonable_unlock : Bool → PoisonGuard G → M (KeyCell × Shared W) ThreadKey
  unfolding with_key poison_ref_drop
  poisonable_unlock panicking guard = do
    with_key (owned guard.key) (lift (poison_ref_drop p panicking guard.guard))
    ret guard.key

  -- The drop of a `PoisonGuard`: its fields are dropped in order.
  unfoldable pub poison_guard_drop : Bool → PoisonGuard G → M (KeyCell × Shared W) (Unit {0})
  unfolding with_key poison_ref_drop thread_key_drop
  poison_guard_drop panicking guard = do
    with_key (owned guard.key) (lift (poison_ref_drop p panicking guard.guard))
    thread_key_drop guard.key
