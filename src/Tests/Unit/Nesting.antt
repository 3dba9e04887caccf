-- ===== src/Tests/Unit/Nesting.antt =====
-- Unit tests of src/collection/ with collections of collections, of none, and of one thread that
-- locks a collection again.
use happylock.Base.{
  ℕ, ◌+◌, ◌≡◌, refl, true, false, none, some, List, [], ◌∷◌, map, ◌&&◌, ◌==◌, length,
}
use happylock.Exec.{ret, throw, ◌>>=◌, ◌>>◌}
use happylock.Key.{ThreadKey, borrowed}
use happylock.Shared.{Shared}
use happylock.RawLock.{Mode, write, read}
use happylock.Lockable.{Lockable, many, by_ref, pair}
use happylock.Mutex.{MutexRef, mutex_lock, mutex_lockable}
use happylock.Mutex.Deref.{mutex_ref_deref}
use happylock.RwLock.{RwLockRef, rwlock_lock, rwlock_lockable}
use happylock.RwLock.Deref.{read_ref_deref, write_ref_deref}
use happylock.Collection.Access.{Result, LockGuard, lock_guard_drop}
use happylock.Collection.Access.Deref.{lock_guard_deref}
use happylock.Collection.Utils.{
  ordered_lock, ordered_try_lock, unlock_all, sort_by_addr, get_locks, get_locks_unsorted,
  ordered_contains_duplicates, attempt_to_recover,
}
use happylock.Collection.Sorted.{
  boxed_try_new, ref_try_new, sorted_lockable, owned_lockable, boxed_new_unchecked,
  ref_new_unchecked,
}
use happylock.Collection.Sorted.BoxedMethods.{boxed_lock, boxed_unlock, boxed_read}
use happylock.Collection.Sorted.RefMethods.{
  ref_lock, ref_read, ref_unlock, ref_unlock_read, ref_try_lock,
}
use happylock.Collection.Sorted.OwnedMethods.{
  owned_lock, owned_unlock, owned_read, owned_scoped_lock, owned_scoped_read, owned_try_lock,
}
use happylock.Collection.Retry.{retry_try_new, contains_duplicates}
use happylock.Collection.Retry.Methods.{
  retry_lock_with, retry_unlock, retry_read, retry_unlock_read,
}
use happylock.Tests.Simulation.{
  Sim, Program, sim_mutex, is_locked, store, assert, get_key, passes, assert_holds,
}
use happylock.Tests.Unit.{
  Api, two_mutexes, two_rwlocks, holding, load_at, store_at, with_unwrapped, unlock_works,
}
use happylock.Tests.Unit.Boxed
use happylock.Tests.Unit.ByRef
use happylock.Tests.Unit.Retrying
use happylock.Tests.Unit.Owned

-- `assert!(mutex1.is_locked()); assert!(mutex2.is_locked());`
abbrev both_locked : Program (Unit {0})
both_locked = do a ← is_locked 1; assert a; b ← is_locked 2; assert b

-- The data of a guard of two locks.
abbrev both_hold : {X : Type 0} → (X → ℕ) → ℕ → ℕ → LockGuard (List X) → Program (Unit {0})
both_hold deref v w guard = do
  a ← load_at (map deref (lock_guard_deref guard)) 0
  assert (a == v)
  b ← load_at (map deref (lock_guard_deref guard)) 1
  assert (b == w)

abbrev Writing : Type 1
Writing = Api (List RwLockRef) (List ℕ)

-- `works_in_collection`: the guard for writing is given back in a way that yields a key, and the
-- locks are then locked for reading. What the test says of the locks in between is an argument.
module _ (locked : Program (Unit {0})) (writing shared : Writing)
    (give_back : LockGuard (List RwLockRef) → Program ThreadKey) where
  abbrev works_in_collection : ℕ → ℕ → ℕ → Program (Unit {0})
  works_in_collection i v w = do
    key ← get_key
    guard ← writing.lock key
    locked
    both_hold write_ref_deref 0 1 guard
    store_at (map write_ref_deref (lock_guard_deref guard)) i 2
    key ← give_back guard
    guard ← shared.lock key
    locked
    both_hold read_ref_deref v w guard
    shared.drop_guard guard

-- `[&mutex1, &mutex2]`
abbrev rwlock_refs : Mode → Lockable (Shared Sim) (List RwLockRef) (List ℕ)
rwlock_refs m = by_ref (two_rwlocks m)

abbrev boxed_works_in_collection : Program (Unit {0})
boxed_works_in_collection = with_unwrapped (boxed_try_new (rwlock_refs write)) (λ inner.
    with_unwrapped (boxed_try_new (rwlock_refs read)) (λ inner'.
      with_unwrapped (boxed_try_new (sorted_lockable inner)) (λ outer.
        with_unwrapped (boxed_try_new (sorted_lockable inner')) (λ outer'.
          works_in_collection both_locked (Boxed.api outer) (Boxed.reading outer')
            (Boxed.api outer).unlock 0 2 1))))

abbrev ref_works_in_collection : Program (Unit {0})
ref_works_in_collection = with_unwrapped (ref_try_new (rwlock_refs write)) (λ inner.
    with_unwrapped (ref_try_new (rwlock_refs read)) (λ inner'.
      with_unwrapped (ref_try_new (by_ref (sorted_lockable inner))) (λ outer.
        with_unwrapped (ref_try_new (by_ref (sorted_lockable inner'))) (λ outer'.
          works_in_collection both_locked (ByRef.api outer) (ByRef.reading outer')
            (λ guard. (do (ByRef.api outer).drop_guard guard; get_key)) 1 0 2))))

-- The inner collection is at the address 8, and there is nothing to ask its locks.
abbrev owned_works_in_collection : Program (Unit {0})
owned_works_in_collection =
    let writing = Owned.api (owned_lockable 8 (two_rwlocks write)) in
    let shared = Owned.reading (owned_lockable 8 (two_rwlocks read)) in
    works_in_collection (ret tt) writing shared writing.unlock 1 0 2

abbrev retrying_works_with_other_collections : Program (Unit {0})
retrying_works_with_other_collections =
    with_unwrapped (retry_try_new (by_ref two_mutexes)) (λ inner.
      with_unwrapped (boxed_try_new inner) (λ outer. (do
        key ← get_key
        guard ← boxed_lock 9 outer key
        both_locked
        lock_guard_drop (sorted_lockable outer) false guard)))

abbrev no_rwlocks : Lockable (Shared Sim) (List RwLockRef) (List ℕ)
no_rwlocks = many []

-- Locking an empty collection, and then locking it for the other mode.
abbrev locks_empty : Writing → Writing → Program (Unit {0})
locks_empty first second = do
  key ← get_key
  guard ← first.lock key
  assert (length (lock_guard_deref guard) == 0)
  key ← first.unlock guard
  guard ← second.lock key
  assert (length (lock_guard_deref guard) == 0)
  second.drop_guard guard

abbrev retrying_lock_empty_lock_collection : Program (Unit {0})
retrying_lock_empty_lock_collection =
    locks_empty (Retrying.api no_rwlocks) (Retrying.reading no_rwlocks)

abbrev retrying_read_empty_lock_collection : Program (Unit {0})
retrying_read_empty_lock_collection =
    locks_empty (Retrying.reading no_rwlocks) (Retrying.api no_rwlocks)

-- `(Mutex::new(..), Mutex::new(..))`, and the same of `RwLock`s.
abbrev ref_unlock_collection_works : Program (Unit {0})
ref_unlock_collection_works =
    let c = ref_new_unchecked Owned.tuple in unlock_works (ByRef.api c) (ByRef.api c).try_lock

abbrev ref_read_unlock_collection_works : Program (Unit {0})
ref_read_unlock_collection_works =
    unlock_works (ByRef.reading (ref_new_unchecked (Owned.rw_tuple read)))
      (ByRef.api (ref_new_unchecked (Owned.rw_tuple write))).try_lock

abbrev owned_scoped_read_works : Program (Unit {0})
owned_scoped_read_works = do
  key ← get_key
  sum ←
      owned_scoped_read 9 (two_rwlocks read) (borrowed key)
        (λ guard. (do a ← load_at guard 0; b ← load_at guard 1; ret (a + b)))
  assert (sum == 24 + 42)

abbrev owned_scoped_lock_works : Program (Unit {0})
owned_scoped_lock_works = do
  key ← get_key
  _ ←
      owned_scoped_lock 9 (two_rwlocks write) (borrowed key)
        (λ guard. (do a ← load_at guard 0; b ← load_at guard 1; store_at guard 0 (a + b)))
  sum ← owned_scoped_lock 9 (two_rwlocks write) (borrowed key) (λ guard. (do
    a ← load_at guard 0
    assert (a == 24 + 42)
    b ← load_at guard 1
    assert (b == 42)
    ret (a + b)))
  assert (sum == 24 + 42 + 42)

abbrev unlocked_0_1 : Result (LockGuard (MutexRef × MutexRef)) ThreadKey → Program (Unit {0})
unlocked_0_1 (Result.err key) = throw
unlocked_0_1 (Result.ok guard) = do
  assert_holds (mutex_ref_deref (lock_guard_deref guard).0) 0
  assert_holds (mutex_ref_deref (lock_guard_deref guard).1) 1
  (Owned.api Owned.tuple).drop_guard guard

abbrev owned_try_lock_works_on_unlocked : Program (Unit {0})
owned_try_lock_works_on_unlocked = do
  key ← get_key
  guard ← owned_try_lock 9 Owned.tuple key
  unlocked_0_1 guard

-- What is read and written through `get_mut` is at the addresses of the locks.
abbrev owned_get_mut_applies_changes : Program (Unit {0})
owned_get_mut_applies_changes = do
  key ← get_key
  assert_holds 1 10
  assert_holds 2 11
  store 1 12
  guard ← owned_lock 9 two_mutexes key
  both_hold mutex_ref_deref 12 11 guard
  (Owned.api two_mutexes).drop_guard guard

-- `into_inner` of an array of one mutex moves out what lies at its address.
abbrev owned_into_inner_works : Program (Unit {0})
owned_into_inner_works = do
  let collection = many (mutex_lockable sim_mutex 1 ∷ [])
  key ← get_key
  guard ← owned_lock 9 collection key
  store_at (map mutex_ref_deref (lock_guard_deref guard)) 0 11
  (Owned.api collection).drop_guard guard
  assert_holds 1 11

-- `(&collection1, &collection1)`
abbrev owned_duplicates_detected : Program (Unit {0})
owned_duplicates_detected =
    let collection1 = by_ref (owned_lockable 8 two_mutexes) in
    elim (boxed_try_new (pair collection1 collection1)) [ none ↦ ret tt | some c ↦ throw ]

nesting_tests :
    passes (holding 0 1) boxed_works_in_collection
      && passes (holding 0 1) ref_works_in_collection
      && passes (holding 0 1) owned_works_in_collection
      && passes (holding 0 0) retrying_works_with_other_collections
      && passes (holding 0 0) retrying_lock_empty_lock_collection
      && passes (holding 0 0) retrying_read_empty_lock_collection
      && passes (holding 0 0) ref_unlock_collection_works
      && passes (holding 0 0) ref_read_unlock_collection_works
      && passes (holding 24 42) owned_scoped_read_works
      && passes (holding 24 42) owned_scoped_lock_works
      && passes (holding 0 1) owned_try_lock_works_on_unlocked
      && passes (holding 10 11) owned_get_mut_applies_changes
      && passes (holding 10 0) owned_into_inner_works
      && passes (holding 5 10) owned_duplicates_detected
    ≡ true
unfolding get_key many by_ref pair mutex_lock mutex_lockable mutex_ref_deref rwlock_lock
    rwlock_lockable read_ref_deref write_ref_deref lock_guard_drop lock_guard_deref ordered_lock
    ordered_try_lock unlock_all sort_by_addr get_locks get_locks_unsorted
    ordered_contains_duplicates attempt_to_recover boxed_new_unchecked boxed_try_new
    ref_new_unchecked ref_try_new sorted_lockable owned_lockable boxed_lock boxed_unlock boxed_read
    ref_lock ref_read ref_unlock ref_unlock_read ref_try_lock owned_lock owned_unlock owned_read
    owned_scoped_lock owned_scoped_read owned_try_lock retry_try_new contains_duplicates
    retry_lock_with retry_unlock retry_read retry_unlock_read
nesting_tests = refl
