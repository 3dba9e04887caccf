-- ===== src/Poisonable/Reading.antt =====
-- The methods of src/poisonable/poisonable.rs that lock for reading: those for writing, with the
-- parts for reading of what the `Poisonable` wraps.
use happylock.Base.{Bool}
use happylock.Exec.{M}
use happylock.Key.{KeyCell, ThreadKey, Keyable}
use happylock.Shared.{Shared}
use happylock.RawLock.{read}
use happylock.Collection.Access.{Result}
use happylock.Poisonable.{Poisonable, PoisonGuard, PoisonResult, TryLockPoisonableResult}
use happylock.Poisonable.Methods.{
  poisonable_scoped, poisonable_scoped_try, poisonable_guard_with, poisonable_lock,
  poisonable_try_lock, poisonable_unlock,
}

module _ {W G D : Type 0} (p : Poisonable W G D) where
  unfoldable pub poisonable_read_guard_with :
      ThreadKey → M (KeyCell × Shared W) (PoisonResult (PoisonGuard G))
  unfolding poisonable_guard_with
  poisonable_read_guard_with key = poisonable_guard_with read p key

  unfoldable pub poisonable_scoped_read {ℓ} :
      {R : Type ℓ}
      → Keyable
      → (PoisonResult D → M (KeyCell × Shared W) R)
      → M (KeyCell × Shared W) R
  unfolding poisonable_scoped
  poisonable_scoped_read key f = poisonable_scoped read p key f

  unfoldable pub poisonable_scoped_try_read {ℓ} :
      {R : Type ℓ}
      → Keyable
      → (PoisonResult D → M (KeyCell × Shared W) R)
      → M (KeyCell × Shared W) (Result R Keyable)
  unfolding poisonable_scoped_try
  poisonable_scoped_try_read key f = poisonable_scoped_try read p key f

  unfoldable pub poisonable_read : ThreadKey → M (KeyCell × Shared W) (PoisonResult (PoisonGuard G))
  unfolding poisonable_lock
  poisonable_read key = poisonable_lock read p key

  unfoldable pub poisonable_try_read :
      ThreadKey → M (KeyCell × Shared W) (TryLockPoisonableResult G)
  unfolding poisonable_try_lock
  poisonable_try_read key = poisonable_try_lock read p key

  unfoldable pub poisonable_unlock_read : Bool → PoisonGuard G → M (KeyCell × Shared W) ThreadKey
  unfolding poisonable_unlock
  poisonable_unlock_read panicking guard = poisonable_unlock p panicking guard
