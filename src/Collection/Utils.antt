-- ===== src/Collection/Utils.antt =====
-- src/collection/utils.rs: what the four kinds of collection share. A function of the source that
-- stands there once for writing and once for reading takes the `Mode` here.
pub mod Unlocking
pub mod Locking
pub mod Trying
use happylock.Base.{ℕ, ◌+◌, Bool, true, false, ◌||◌, List, [], ◌∷◌, take, ◌==◌, leb, if◌then◌else◌}
use happylock.Exec.{M, ret, ◌>>=◌, ◌>>◌, handle_unwind, with_cell, lift, get_cell, set_cell}
use happylock.RawLock.{RawLock, Mode, raw_lock, raw_try_lock, raw_unlock}
use happylock.Lockable.{Lockable}

module _ {S : Type 0} where
  -- `Vec::sort_by_key` by address: stable, so of equal addresses the earlier stays in front.
  unfoldable pub insert_by_addr : RawLock S → List (RawLock S) → List (RawLock S)
  insert_by_addr l [] = l ∷ []
  insert_by_addr l (k ∷ ks) = if leb l.addr k.addr then l ∷ k ∷ ks else k ∷ insert_by_addr l ks

  unfoldable pub sort_by_addr : List (RawLock S) → List (RawLock S)
  unfolding insert_by_addr
  sort_by_addr [] = []
  sort_by_addr (l ∷ ls) = insert_by_addr l (sort_by_addr ls)

  unfoldable pub get_locks_unsorted : {G D : Type 0} → Lockable S G D → List (RawLock S)
  get_locks_unsorted l = l.get_ptrs []

  unfoldable pub get_locks : {G D : Type 0} → Lockable S G D → List (RawLock S)
  unfolding get_locks_unsorted
  get_locks l = sort_by_addr (get_locks_unsorted l)

  -- Some two neighbours have the same address.
  unfoldable pub ordered_contains_duplicates : List (RawLock S) → Bool
  ordered_contains_duplicates [] = false
  ordered_contains_duplicates (l ∷ []) = false
  ordered_contains_duplicates (l ∷ k ∷ ks) =
      l.addr == k.addr || ordered_contains_duplicates (k ∷ ks)

  unfoldable pub unlock_all : Mode → List (RawLock S) → M S (Unit {0})
  unlock_all m [] = ret tt
  unlock_all m (l ∷ ls) = do raw_unlock m l; unlock_all m ls

  unfoldable pub poison_all : List (RawLock S) → M S (Unit {0})
  poison_all [] = ret tt
  poison_all (l ∷ ls) = do l.poison; poison_all ls

  -- `attempt_to_recover_writes_from_panic` and `attempt_to_recover_reads_from_panic`.
  unfoldable pub attempt_to_recover : Mode → List (RawLock S) → M S (Unit {0})
  attempt_to_recover m locks = handle_unwind (unlock_all m locks) (poison_all locks)

  -- The loop of `ordered_write` and `ordered_read`, with the cell `locked`.
  unfoldable pub lock_all : Mode → List (RawLock S) → M (ℕ × S) (Unit {0})
  lock_all m [] = ret tt
  lock_all m (l ∷ ls) = do
    lift (raw_lock m l)
    locked ← get_cell
    set_cell (locked + 1)
    lock_all m ls

  -- The clean-up after a panic: `&locks[0..locked.get()]` is recovered.
  unfoldable pub recover_locked : Mode → List (RawLock S) → M (ℕ × S) (Unit {0})
  recover_locked m locks = do locked ← get_cell; lift (attempt_to_recover m (take locked locks))

  -- `ordered_write` and `ordered_read`.
  unfoldable pub ordered_lock : Mode → List (RawLock S) → M S (Unit {0})
  unfolding lock_all recover_locked
  ordered_lock m locks = with_cell 0 (handle_unwind (lock_all m locks) (recover_locked m locks))

  -- The loop of `ordered_try_write` and `ordered_try_read` from index `i` on. After a failure
  -- `undo` is called on `&locks[0..i]`: it is a parameter, since the retrying collection has the
  -- same loop but for that call.
  unfoldable pub try_lock_all :
      (List (RawLock S) → M S (Unit {0}))
      → Mode
      → List (RawLock S)
      → ℕ
      → List (RawLock S)
      → M (ℕ × S) Bool
  try_lock_all undo m locks i [] = ret true
  try_lock_all undo m locks i (l ∷ ls) = do
    success ← lift (raw_try_lock m l)
    if success
        then (do locked ← get_cell; set_cell (locked + 1); try_lock_all undo m locks (i + 1) ls)
        else (do lift (undo (take i locks)); ret false)

  -- `ordered_try_write` and `ordered_try_read`.
  unfoldable pub ordered_try_lock : Mode → List (RawLock S) → M S Bool
  unfolding try_lock_all recover_locked
  ordered_try_lock m locks =
      with_cell 0
        (handle_unwind (try_lock_all (unlock_all m) m locks 0 locks) (recover_locked m locks))
