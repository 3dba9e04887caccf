-- ===== src/RawLock.antt =====
-- The trait `RawLock` of src/lockable.rs: a lock is the record of its methods, so a `dyn RawLock`
-- is a value of it. `S` is the state that the methods run on.
pub mod Holding
pub mod Contract
pub mod Leaf
pub mod Killing
use happylock.Base.{ℕ, Bool}
use happylock.Exec.{M}

pub record RawLock {ℓ} (S : Type ℓ) : Type ℓ where
  pub addr : ℕ  -- the address that a `&dyn RawLock` points to
  pub poison : M S (Unit {0})
  pub raw_write : M S (Unit {0})
  pub raw_try_write : M S Bool
  pub raw_unlock_write : M S (Unit {0})
  pub raw_read : M S (Unit {0})
  pub raw_try_read : M S Bool
  pub raw_unlock_read : M S (Unit {0})

-- The methods for writing and those for reading have the same code but for the names.
pub data Mode : Type 0 where
  write read : Mode

module _ {ℓ} {S : Type ℓ} where
  abbrev pub raw_lock : Mode → RawLock S → M S (Unit {0})
  raw_lock write l = l.raw_write
  raw_lock read l = l.raw_read

  abbrev pub raw_try_lock : Mode → RawLock S → M S Bool
  raw_try_lock write l = l.raw_try_write
  raw_try_lock read l = l.raw_try_read

  abbrev pub raw_unlock : Mode → RawLock S → M S (Unit {0})
  raw_unlock write l = l.raw_unlock_write
  raw_unlock read l = l.raw_unlock_read
