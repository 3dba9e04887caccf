-- ===== src/Collection/Contract.antt =====
-- Collections as locks: each keeps the contract of `RawLock` for all the addresses of its locks, so
-- collections nest. The retrying collection keeps it where its blocking methods do not panic.
use happylock.Base.{ℕ, none, some, List, [], ◌∷◌, refl}
use happylock.RawLock.{RawLock, Mode, write, read}
use happylock.RawLock.Holding.{claim, AllAt, Distinct}
use happylock.RawLock.Contract.{Holding, TryLocks, IsRawLock, feet}
use happylock.Lockable.{Lockable}
use happylock.Collection.Utils.{get_locks_unsorted, attempt_to_recover}
use happylock.Collection.Utils.Unlocking.{Obey, unlock_all-Unlocks, recover_prefix}
use happylock.Collection.Utils.Locking.{ordered_lock-Locks}
use happylock.Collection.Utils.Trying.{ordered_try_lock-TryLocks, try_all-TryLocks}
use happylock.Collection.Sorted.{SortedCollection, ordered_raw, sorted_raw, owned_raw}
use happylock.Collection.Retry.{retry_try_lock}

module _ {S : Type 0} (held : S → Holding) (foot : RawLock S → List ℕ) where
  ordered_raw-IsRawLock :
      (m : Mode) (a : ℕ) (ls : List (RawLock S))
      → Obey held m foot ls
      → Distinct (feet foot ls)
      → IsRawLock held m (feet foot ls) (ordered_raw a ls)
  unfolding ordered_raw
  ordered_raw-IsRawLock write a ls laws d = record {
    locks = λ s free. ordered_lock-Locks held write foot ls s laws d free;
    tries = λ s free. ordered_try_lock-TryLocks held write foot ls s laws d free;
    unlocks = λ s taken. unlock_all-Unlocks held write foot ls s laws d taken;
  }
  ordered_raw-IsRawLock read a ls laws d = record {
    locks = λ s free. ordered_lock-Locks held read foot ls s laws d free;
    tries = λ s free. ordered_try_lock-TryLocks held read foot ls s laws d free;
    unlocks = λ s taken. unlock_all-Unlocks held read foot ls s laws d taken;
  }

  -- A `RefLockCollection` or `BoxedLockCollection` whose locks keep the contract and stand for
  -- distinct addresses keeps it itself, for the addresses of all its locks: locking takes all or,
  -- after a panic, none; trying takes all or none; unlocking releases all.
  pub sorted_raw-IsRawLock :
      {G D : Type 0} (m : Mode) (a : ℕ) (c : SortedCollection S G D)
      → Obey held m foot c.locks
      → Distinct (feet foot c.locks)
      → IsRawLock held m (feet foot c.locks) (sorted_raw a c)
  unfolding sorted_raw
  sorted_raw-IsRawLock m a c laws d = ordered_raw-IsRawLock m a c.locks laws d

  -- The same of an `OwnedLockCollection`, in the order of its data.
  pub owned_raw-IsRawLock :
      {G D : Type 0} (m : Mode) (a : ℕ) (d_ : Lockable S G D)
      → Obey held m foot (get_locks_unsorted d_)
      → Distinct (feet foot (get_locks_unsorted d_))
      → IsRawLock held m (feet foot (get_locks_unsorted d_)) (owned_raw a d_)
  unfolding owned_raw
  owned_raw-IsRawLock m a d_ laws d = ordered_raw-IsRawLock m a (get_locks_unsorted d_) laws d

  -- `raw_try_write` and `raw_try_read` of a retrying collection: all or none, and on a panic none.
  pub retry_try_lock-TryLocks :
      (m : Mode) (ls : List (RawLock S)) (s : S)
      → Obey held m foot ls
      → Distinct (feet foot ls)
      → AllAt none (feet foot ls) (held s)
      → TryLocks held (held s) (claim (some m) (feet foot ls) (held s)) (retry_try_lock m ls s)
  unfolding retry_try_lock
  retry_try_lock-TryLocks m [] s laws d free = refl
  retry_try_lock-TryLocks m (l ∷ ls) s laws d free =
      try_all-TryLocks held m foot (l ∷ ls) (attempt_to_recover m) laws d (held s) free
        (λ j s' p. recover_prefix held m foot j (l ∷ ls) (held s) s' laws d free p) s refl
