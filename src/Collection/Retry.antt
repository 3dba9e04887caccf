-- ===== src/Collection/Retry.antt =====
-- src/collection/retry.rs: `RetryingLockCollection`.
pub mod Places
pub mod Progress
pub mod Front
pub mod BackOff
pub mod Rounds
pub mod Loop
pub mod Termination
pub mod Leaks
pub mod Range
pub mod Methods
use happylock.Base.{
  ℕ, zero, suc, ◌+◌, Bool, true, false, not, Option, none, some, List, [], ◌∷◌, take, get_elem?,
  ◌==◌, leb, if◌then◌else◌,
}
use happylock.Exec.{
  M, hang, ret, throw, ◌>>=◌, ◌>>◌, handle_unwind, with_cell, lift, get_cell, set_cell,
}
use happylock.RawLock.{RawLock, Mode, write, read, raw_lock, raw_try_lock, raw_unlock}
use happylock.RawLock.Holding.{has}
use happylock.Lockable.{Lockable}
use happylock.Collection.Utils.{
  get_locks_unsorted, unlock_all, poison_all, attempt_to_recover, recover_locked, try_lock_all,
}

-- The two cells of `raw_write` and `raw_read`.
pub record Cells : Type 0 where
  pub first_index : ℕ
  pub locked : ℕ

-- How a round over the locks ends: with a `break`, or with `continue 'outer`.
pub data Round : Type 0 where
  complete again : Round

module _ {S : Type 0} where
  -- The loop of `contains_duplicates`, with the addresses in `locks_set`.
  unfoldable pub contains_duplicates_from : List ℕ → List (RawLock S) → Bool
  contains_duplicates_from locks_set [] = false
  contains_duplicates_from locks_set (l ∷ ls) =
      let rest = contains_duplicates_from (l.addr ∷ locks_set) ls in
      if has locks_set l.addr then true else rest

  unfoldable pub contains_duplicates : {G D : Type 0} → Lockable S G D → Bool
  unfolding contains_duplicates_from
  contains_duplicates l = contains_duplicates_from [] (l.get_ptrs [])

  -- `locks[i]`, with the panic of an index out of range.
  unfoldable pub index : {A : Type 0} → List (RawLock S) → ℕ → (RawLock S → M S A) → M S A
  index locks i k = elim (get_elem? locks i) [ none ↦ throw | some l ↦ k l ]

  -- The failed attempt at index `i`: everything is unlocked, and the next round starts with `i`.
  pub back_off : Mode → List (RawLock S) → ℕ → M (Cells × S) Round
  unfolding index
  back_off m locks i = do
    lift (attempt_to_recover m (take i locks))
    cells ← get_cell
    if leb i cells.first_index then lift (index locks cells.first_index (raw_unlock m)) else ret tt
    cells ← get_cell
    set_cell (record cells { locked = 0 })
    cells ← get_cell
    set_cell (record cells { first_index = i })
    ret again

  -- The `for` over the locks from index `i` on.
  try_others : Mode → List (RawLock S) → ℕ → List (RawLock S) → M (Cells × S) Round
  unfolding back_off
  try_others m locks i [] = ret complete
  try_others m locks i (l ∷ ls) = do
    cells ← get_cell
    if i == cells.first_index then try_others m locks (i + 1) ls else (do
      success ← lift (raw_try_lock m l)
      if success
          then (do
            cells ← get_cell
            set_cell (record cells { locked = cells.locked + 1 })
            try_others m locks (i + 1) ls)
          else back_off m locks i)

  -- One turn of `'outer: loop`.
  unfoldable pub round : Mode → List (RawLock S) → M (Cells × S) Round
  unfolding try_others index
  round m locks = do
    cells ← get_cell
    lift (index locks cells.first_index (raw_lock m))
    try_others m locks 0 locks

  -- The clean-up after a panic.
  unfoldable pub clean_up : Mode → List (RawLock S) → M (Cells × S) (Unit {0})
  unfolding index
  clean_up m locks = do
    cells ← get_cell
    lift (attempt_to_recover m (take cells.locked locks))
    cells ← get_cell
    if leb cells.locked cells.first_index
        then lift (index locks cells.first_index (raw_unlock m))
        else ret tt

  -- The loop, for at most `fuel` rounds.
  unfoldable pub retry_loop : Mode → List (RawLock S) → ℕ → M (Cells × S) (Unit {0})
  unfolding round
  retry_loop m locks zero = λ cs. hang
  retry_loop m locks (suc fuel) = do
    r ← round m locks
    elim r [ complete ↦ ret tt | again ↦ retry_loop m locks fuel ]

module _ {S : Type 0} where
  -- `raw_write` and `raw_read`, on the locks of the collection.
  unfoldable pub retry_lock : Mode → ℕ → List (RawLock S) → M S (Unit {0})
  unfolding retry_loop clean_up
  retry_lock m fuel [] = ret tt
  retry_lock m fuel (l ∷ ls) =
      with_cell (record { first_index = 0; locked = 0 })
        (handle_unwind (retry_loop m (l ∷ ls) fuel) (clean_up m (l ∷ ls)))

  -- `raw_try_write` and `raw_try_read`
  unfoldable pub retry_try_lock : Mode → List (RawLock S) → M S Bool
  unfolding try_lock_all recover_locked
  retry_try_lock m [] = ret true
  retry_try_lock m (l ∷ ls) = with_cell 0 (
      handle_unwind (try_lock_all (attempt_to_recover m) m (l ∷ ls) 0 (l ∷ ls))
        (recover_locked m (l ∷ ls)))

  -- `impl RawLock for RetryingLockCollection`. The address of the collection is an argument, and
  -- so is the number of rounds after which a call counts as one that does not return.
  unfoldable pub retry_raw : {G D : Type 0} → ℕ → ℕ → Lockable S G D → RawLock S
  unfolding retry_lock retry_try_lock
  retry_raw a fuel data_ =
      let locks = get_locks_unsorted data_ in
      record {
        addr = a;
        poison = poison_all locks;
        raw_write = retry_lock write fuel locks;
        raw_try_write = retry_try_lock write locks;
        raw_unlock_write = unlock_all write locks;
        raw_read = retry_lock read fuel locks;
        raw_try_read = retry_try_lock read locks;
        raw_unlock_read = unlock_all read locks;
      }

  -- `try_new`: a collection is its data.
  unfoldable pub retry_try_new : {G D : Type 0} → Lockable S G D → Option (Lockable S G D)
  unfolding contains_duplicates
  retry_try_new data_ = if not (contains_duplicates data_) then some data_ else none
