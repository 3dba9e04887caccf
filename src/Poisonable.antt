-- ===== src/Poisonable.antt =====
-- src/poisonable.rs, with poisonable/error.rs, poisonable/guard.rs and the implementations of
-- `RawLock`, `Lockable` and `Sharable` in poisonable/poisonable.rs. As for `Lockable`, a value
-- stands for one way to lock: its parts are those for writing, or those for reading.
pub mod Methods
pub mod Contract
pub mod Scoped
pub mod Guards
pub mod Poisoning
pub mod Reading
pub mod Deref
use happylock.Base.{ℕ, Bool, true, false, if◌then◌else◌}
use happylock.Exec.{M, ret, ◌>>=◌, ◌>>◌}
use happylock.Key.{ThreadKey}
use happylock.Shared.{Shared, is_poisoned, clear_poison, poison}
use happylock.RawLock.{RawLock}
use happylock.Lockable.{Lockable}
use happylock.Collection.Access.{Result}

-- `Poisonable`: what it wraps, as a raw lock and as a lockable value, and the address of its flag.
pub record Poisonable (W G D : Type 0) : Type 0 where
  pub inner_lock : RawLock (Shared W)
  pub inner : Lockable (Shared W) G D
  pub poisoned : ℕ

pub record PoisonRef (G : Type 0) : Type 0 where
  pub guard : G
  pub flag : ℕ

pub record PoisonGuard (G : Type 0) : Type 0 where
  pub guard : PoisonRef G
  pub key : ThreadKey

pub record PoisonError {ℓ} (G : Type ℓ) : Type ℓ where
  pub guard : G

pub data TryLockPoisonableError (G : Type 0) : Type 0 where
  poisoned : PoisonError (PoisonGuard G) → TryLockPoisonableError G
  would_block : ThreadKey → TryLockPoisonableError G

abbrev pub PoisonResult {ℓ} : Type ℓ → Type ℓ
PoisonResult G = Result G (PoisonError G)

abbrev pub TryLockPoisonableResult : Type 0 → Type 0
TryLockPoisonableResult G = Result (PoisonGuard G) (TryLockPoisonableError G)

-- `PoisonError::into_inner`
unfoldable pub into_inner {ℓ} : {G : Type ℓ} → PoisonError G → G
into_inner e = e.guard

-- `From<PoisonError<PoisonGuard>> for TryLockPoisonableError`
abbrev pub from_poison_error : {G : Type 0} → PoisonError (PoisonGuard G) → TryLockPoisonableError G
from_poison_error value = poisoned value

-- `if self.is_poisoned() { Err(PoisonError::new(x)) } else { Ok(x) }`, for what `x` evaluates to.
abbrev pub report {ℓ} : {G : Type ℓ} → Bool → G → PoisonResult G
report b x = if b then Result.err (record { guard = x }) else Result.ok x

module _ {W G D : Type 0} (p : Poisonable W G D) where
  -- `impl Drop for PoisonRef`, and then the drop of its fields.
  unfoldable pub poison_ref_drop : Bool → PoisonRef G → M (Shared W) (Unit {0})
  unfolding poison
  poison_ref_drop panicking r = do
    if panicking then poison r.flag else ret tt
    p.inner.drop_guard panicking r.guard

  -- The drop of a `PoisonResult`: its value is dropped, and an error's guard is its value.
  unfoldable pub poison_result_drop : Bool → PoisonResult (PoisonRef G) → M (Shared W) (Unit {0})
  unfolding poison_ref_drop
  poison_result_drop panicking (Result.ok r) = poison_ref_drop panicking r
  poison_result_drop panicking (Result.err e) = poison_ref_drop panicking e.guard

  -- `guard` and `read_guard`
  unfoldable pub poisonable_guard : M (Shared W) (PoisonResult (PoisonRef G))
  unfolding is_poisoned
  poisonable_guard = do
    g ← p.inner.guard
    b ← is_poisoned p.poisoned
    ret (report b (record { guard = g; flag = p.poisoned }))

  -- `data_mut` and `data_ref`
  unfoldable pub poisonable_access : M (Shared W) (PoisonResult D)
  unfolding is_poisoned
  poisonable_access = do b ← is_poisoned p.poisoned; d ← p.inner.access; ret (report b d)

  -- `impl Lockable for Poisonable` and `impl Sharable for Poisonable`
  unfoldable pub poisonable_lockable :
      Lockable (Shared W) (PoisonResult (PoisonRef G)) (PoisonResult D)
  unfolding poisonable_guard poisonable_access poison_result_drop
  poisonable_lockable = record {
    get_ptrs = p.inner.get_ptrs;
    guard = poisonable_guard;
    access = poisonable_access;
    drop_guard = poison_result_drop;
  }

  -- `impl RawLock for Poisonable`, at an address.
  unfoldable pub poisonable_raw : ℕ → RawLock (Shared W)
  poisonable_raw a = record {
    addr = a;
    poison = p.inner_lock.poison;
    raw_write = p.inner_lock.raw_write;
    raw_try_write = p.inner_lock.raw_try_write;
    raw_unlock_write = p.inner_lock.raw_unlock_write;
    raw_read = p.inner_lock.raw_read;
    raw_try_read = p.inner_lock.raw_try_read;
    raw_unlock_read = p.inner_lock.raw_unlock_read;
  }

  -- `Poisonable::is_poisoned` and `Poisonable::clear_poison`
  unfoldable pub poisonable_is_poisoned : M (Shared W) Bool
  unfolding is_poisoned
  poisonable_is_poisoned = is_poisoned p.poisoned

  unfoldable pub poisonable_clear_poison : M (Shared W) (Unit {0})
  unfolding clear_poison
  poisonable_clear_poison = clear_poison p.poisoned

  -- `into_child` and `child_mut`: the child, or a reference to it, by the value that stands for it.
  unfoldable pub into_child : M (Shared W) (PoisonResult (Lockable (Shared W) G D))
  unfolding is_poisoned
  into_child = do b ← is_poisoned p.poisoned; ret (report b p.inner)

  -- `into_inner` and `get_mut`, with those of what is wrapped.
  unfoldable pub poisonable_inner {ℓ} :
      {I : Type ℓ} → M (Shared W) I → M (Shared W) (PoisonResult I)
  unfolding is_poisoned
  poisonable_inner inner_of = do b ← is_poisoned p.poisoned; x ← inner_of; ret (report b x)

-- `Poisonable::new`, with the flag at an address.
unfoldable pub poisonable_new :
    {W G D : Type 0}
    → RawLock (Shared W)
    → Lockable (Shared W) G D
    → ℕ
    → M (Shared W) (Poisonable W G D)
unfolding clear_poison
poisonable_new lock value a = do
  clear_poison a
  ret (record { inner_lock = lock; inner = value; poisoned = a })
