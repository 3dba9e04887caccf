-- ===== src/Collection/Sorted.antt =====
-- `RefLockCollection`, `BoxedLockCollection` (src/collection/ref.rs, boxed.rs) and
-- `OwnedLockCollection` (owned.rs): the collections that lock in a fixed order.
pub mod RefMethods
pub mod BoxedMethods
pub mod OwnedMethods
use happylock.Base.{ℕ, Option, none, some, List, [], ◌∷◌, ◌++◌, if◌then◌else◌}
use happylock.RawLock.{RawLock, write, read}
use happylock.Lockable.{Lockable}
use happylock.Collection.Utils.{
  get_locks, get_locks_unsorted, sort_by_addr, ordered_contains_duplicates, unlock_all, poison_all,
  ordered_lock, ordered_try_lock,
}

-- A `RefLockCollection` or a `BoxedLockCollection`: the data, and its locks sorted by address.
pub record SortedCollection (S G D : Type 0) : Type 0 where
  pub child : Lockable S G D
  pub locks : List (RawLock S)

module _ {S : Type 0} where
  -- The methods of `RawLock` over a list of locks, for the collection at an address.
  unfoldable pub ordered_raw : ℕ → List (RawLock S) → RawLock S
  ordered_raw a locks = record {
    addr = a;
    poison = poison_all locks;
    raw_write = ordered_lock write locks;
    raw_try_write = ordered_try_lock write locks;
    raw_unlock_write = unlock_all write locks;
    raw_read = ordered_lock read locks;
    raw_try_read = ordered_try_lock read locks;
    raw_unlock_read = unlock_all read locks;
  }

module _ {S G D : Type 0} where
  -- `RefLockCollection::new` and `new_unchecked`
  unfoldable pub ref_new_unchecked : Lockable S G D → SortedCollection S G D
  ref_new_unchecked data_ = record { child = data_; locks = get_locks data_ }

  -- `RefLockCollection::try_new`
  unfoldable pub ref_try_new : Lockable S G D → Option (SortedCollection S G D)
  ref_try_new data_ =
      let locks = get_locks data_ in
      if ordered_contains_duplicates locks
      then none
      else some (record { child = data_; locks = locks })

  -- `BoxedLockCollection::new_unchecked`, with its own `sort_by_key`; the box is left out.
  unfoldable pub boxed_new_unchecked : Lockable S G D → SortedCollection S G D
  boxed_new_unchecked data_ = record { child = data_; locks = sort_by_addr (data_.get_ptrs []) }

  -- `BoxedLockCollection::try_new`
  unfoldable pub boxed_try_new : Lockable S G D → Option (SortedCollection S G D)
  unfolding boxed_new_unchecked
  boxed_try_new data_ =
      let this = boxed_new_unchecked data_ in
      if ordered_contains_duplicates this.locks then none else some this

  -- `impl RawLock for RefLockCollection` and `for BoxedLockCollection`
  unfoldable pub sorted_raw : ℕ → SortedCollection S G D → RawLock S
  unfolding ordered_raw
  sorted_raw a c = ordered_raw a c.locks

  -- `impl Lockable for RefLockCollection` and `for BoxedLockCollection`: the cached locks are
  -- handed on one by one.
  unfoldable pub sorted_lockable : SortedCollection S G D → Lockable S G D
  sorted_lockable c = record {
    get_ptrs = λ ptrs. ptrs ++ c.locks;
    guard = c.child.guard;
    access = c.child.access;
    drop_guard = c.child.drop_guard;
  }

  -- `impl RawLock for OwnedLockCollection`: a collection is its data, and the order is that of
  -- `get_ptrs`.
  unfoldable pub owned_raw : ℕ → Lockable S G D → RawLock S
  unfolding ordered_raw
  owned_raw a data_ = ordered_raw a (get_locks_unsorted data_)

  -- `impl Lockable for OwnedLockCollection`: it hands on itself, as one lock.
  unfoldable pub owned_lockable : ℕ → Lockable S G D → Lockable S G D
  unfolding owned_raw
  owned_lockable a data_ = record {
    get_ptrs = λ ptrs. ptrs ++ owned_raw a data_ ∷ [];
    guard = data_.guard;
    access = data_.access;
    drop_guard = data_.drop_guard;
  }
