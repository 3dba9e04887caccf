-- ===== src/Key.antt =====
-- src/key.rs: the thread-local `KeyCell` and the `ThreadKey`. The cell stands beside the state `S`
-- that the locks live in, since nothing but the functions here can reach it.
pub mod Uniqueness
use happylock.Base.{Bool, true, false, not, Option, none, some, if◌then◌else◌}
use happylock.Exec.{M, Res, ok, ret, ◌>>=◌, ◌>>◌, handle_unwind, get_cell, set_cell}

pub record KeyCell : Type 0 where
  pub is_locked : Bool

-- A `ThreadKey` carries nothing: what counts is how many of them there are.
pub data ThreadKey : Type 0 where
  thread_key : ThreadKey

-- `impl Keyable`: the key itself, or a mutable reference to it.
pub data Keyable : Type 0 where
  owned borrowed : ThreadKey → Keyable

-- `Cell::new(false)`, by `KeyCell::default`.
abbrev pub key_cell_default : KeyCell
key_cell_default = record { is_locked = false }

module _ {S : Type 0} where
  -- `!self.is_locked.replace(true)`
  unfoldable pub key_cell_try_lock : M (KeyCell × S) Bool
  key_cell_try_lock = do
    cell ← get_cell
    set_cell (record { is_locked = true })
    ret (not cell.is_locked)

  unfoldable pub key_cell_force_unlock : M (KeyCell × S) (Unit {0})
  key_cell_force_unlock = set_cell (record { is_locked = false })

  -- `ThreadKey::get`
  unfoldable pub thread_key_get : M (KeyCell × S) (Option ThreadKey)
  unfolding key_cell_try_lock
  thread_key_get = do locked ← key_cell_try_lock; ret (if locked then some thread_key else none)

  -- `impl Drop for ThreadKey`
  unfoldable pub thread_key_drop : ThreadKey → M (KeyCell × S) (Unit {0})
  unfolding key_cell_force_unlock
  thread_key_drop key = key_cell_force_unlock

  -- Dropping a reference to the key does nothing.
  unfoldable pub keyable_drop : Keyable → M (KeyCell × S) (Unit {0})
  unfolding thread_key_drop
  keyable_drop (owned key) = thread_key_drop key
  keyable_drop (borrowed key) = ret tt

  -- A body that owns `key`: if it unwinds, the key is dropped on the way.
  unfoldable pub with_key {ℓ} : {A : Type ℓ} → Keyable → M (KeyCell × S) A → M (KeyCell × S) A
  unfolding keyable_drop
  with_key key body = handle_unwind body (keyable_drop key)
