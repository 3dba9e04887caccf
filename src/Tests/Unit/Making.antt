-- ===== src/Tests/Unit/Making.antt =====
-- Unit tests of src/collection/ that make collections, and lock what they made.
use happylock.Base.{
  ℕ, ◌+◌, ◌≡◌, refl, Bool, true, false, Option, none, some, List, [], ◌∷◌, map, ◌&&◌, ◌==◌, not,
}
use happylock.Exec.{ret, throw, ◌>>=◌, ◌>>◌}
use happylock.Key.{ThreadKey, borrowed, owned}
use happylock.Shared.{Shared}
use happylock.RawLock.{read}
use happylock.Lockable.{Lockable, many, by_ref}
use happylock.Mutex.{MutexRef, mutex_lock, mutex_lockable}
use happylock.Mutex.Methods.{mutex_scoped_lock}
use happylock.Mutex.Deref.{mutex_ref_deref}
use happylock.RwLock.{rwlock_lock, rwlock_lockable}
use happylock.Collection.Access.{lock_guard_drop}
use happylock.Collection.Access.Deref.{lock_guard_deref}
use happylock.Collection.Utils.{
  ordered_lock, unlock_all, sort_by_addr, get_locks, get_locks_unsorted,
  ordered_contains_duplicates, attempt_to_recover,
}
use happylock.Collection.Sorted.{
  boxed_new_unchecked, boxed_try_new, ref_new_unchecked, ref_try_new, sorted_lockable,
}
use happylock.Collection.Sorted.BoxedMethods.{boxed_lock}
use happylock.Collection.Sorted.RefMethods.{ref_lock, ref_scoped_lock}
use happylock.Collection.Retry.{retry_try_new, contains_duplicates}
use happylock.Collection.Retry.Methods.{retry_lock_with, retry_scoped_lock, retry_scoped_read}
use happylock.Collection.Boxing.{boxing_new_unchecked, boxing_child}
use happylock.Collection.Values.{
  vec, boxing_new, boxing_iter, retrying_new, retrying_into_iter, retrying_iter, ref_new,
  ref_into_iter, ref_iter,
}
use happylock.Tests.Simulation.{
  Sim, Program, sim_mutex, store, assert, get_key, passes, at, assert_holds,
}
use happylock.Tests.Unit.{Api, two_mutexes, two_rwlocks, holding, load_at, store_at}
use happylock.Tests.Unit.Boxed
use happylock.Tests.Unit.ByRef
use happylock.Tests.Unit.Retrying

-- `[Mutex::new(..), ..]` at some addresses.
abbrev array : List ℕ → Lockable (Shared Sim) (List MutexRef) (List ℕ)
array places = many (map (mutex_lockable sim_mutex) places)

abbrev three : List ℕ
three = 1 ∷ 2 ∷ 3 ∷ []

-- `[&mutex1, &mutex2]` and `[&mutex1, &mutex1]`
abbrev refs : ℕ → ℕ → Lockable (Shared Sim) (List MutexRef) (List ℕ)
refs a b = many (by_ref (mutex_lockable sim_mutex a) ∷ by_ref (mutex_lockable sim_mutex b) ∷ [])

abbrev is_some : {A : Type 0} → Option A → Bool
is_some none = false
is_some (some a) = true

abbrev boxed_non_duplicates_allowed : Program (Unit {0})
boxed_non_duplicates_allowed = assert (is_some (boxed_try_new (refs 1 2)))

abbrev boxed_duplicates_not_allowed : Program (Unit {0})
boxed_duplicates_not_allowed = assert (not (is_some (boxed_try_new (refs 1 1))))

abbrev ref_non_duplicates_allowed : Program (Unit {0})
ref_non_duplicates_allowed = assert (is_some (ref_try_new (refs 1 2)))

abbrev ref_duplicates_not_allowed : Program (Unit {0})
ref_duplicates_not_allowed = assert (not (is_some (ref_try_new (refs 1 1))))

abbrev retrying_nonduplicate_lock_references_are_allowed : Program (Unit {0})
retrying_nonduplicate_lock_references_are_allowed = assert (is_some (retry_try_new (refs 1 2)))

abbrev retrying_duplicate_lock_references_are_disallowed : Program (Unit {0})
retrying_duplicate_lock_references_are_disallowed =
    assert (not (is_some (retry_try_new (refs 1 1))))

-- The strings of the tests, told apart by numbers.
abbrev foo_bar_baz : ℕ → ℕ
foo_bar_baz = at (at (at (λ a. 0) 1 10) 2 11) 3 12

-- Locks three mutexes, and finds the three strings in them.
abbrev locks_three : {D : Type 0} → Api (List MutexRef) D → Program (Unit {0})
locks_three api = do
  key ← get_key
  guard ← api.lock key
  a ← load_at (map mutex_ref_deref (lock_guard_deref guard)) 0
  assert (a == 10)
  b ← load_at (map mutex_ref_deref (lock_guard_deref guard)) 1
  assert (b == 11)
  c ← load_at (map mutex_ref_deref (lock_guard_deref guard)) 2
  assert (c == 12)
  api.drop_guard guard

abbrev boxed_from_iterator : Program (Unit {0})
boxed_from_iterator = locks_three (Boxed.api (boxed_new_unchecked (array (vec.collect three))))

abbrev boxed_from_test : Program (Unit {0})
boxed_from_test = locks_three (Boxed.api (boxed_new_unchecked (array three)))

abbrev ref_from_test : Program (Unit {0})
ref_from_test = locks_three (ByRef.api (ref_new_unchecked (array three)))

abbrev retrying_from_test : Program (Unit {0})
retrying_from_test = locks_three (Retrying.api (array three))

abbrev retrying_from_iterator : Program (Unit {0})
retrying_from_iterator = locks_three (Retrying.api (array (vec.collect three)))

-- `for (i, mutex) in ...enumerate() { mutex.scoped_lock(&mut key, |val| assert_eq!(*val, i)) }`
abbrev enumerated : ThreadKey → ℕ → List ℕ → Program (Unit {0})
enumerated key i [] = ret tt
enumerated key i (a ∷ rest) = do
  mutex_scoped_lock sim_mutex a (borrowed key) (λ val. assert_holds val i)
  enumerated key (i + 1) rest

abbrev each_holds_its_index : List ℕ → Program (Unit {0})
each_holds_its_index mutexes = do key ← get_key; enumerated key 0 mutexes

abbrev with_iterator : Option (List ℕ) → Program (Unit {0})
with_iterator none = throw
with_iterator (some mutexes) = each_holds_its_index mutexes

-- Iterators over references to a boxed collection, a ref collection and a retrying collection:
-- `into_iter` of a reference, and `iter`.
abbrev boxed_iterated : Option (List ℕ)
boxed_iterated =
    let (c, h) = boxing_new array three (record { next = 0; boxes = λ p. none; dropped = [] }) in
    boxing_iter vec c h

abbrev boxed_into_ref_iterator : Program (Unit {0})
boxed_into_ref_iterator = with_iterator boxed_iterated

abbrev boxed_ref_iterator : Program (Unit {0})
boxed_ref_iterator = with_iterator boxed_iterated

abbrev ref_into_ref_iterator : Program (Unit {0})
ref_into_ref_iterator = each_holds_its_index (ref_into_iter vec (ref_new array three))

abbrev ref_ref_iterator : Program (Unit {0})
ref_ref_iterator = each_holds_its_index (ref_iter vec (ref_new array three))

abbrev retrying_into_ref_iterator : Program (Unit {0})
retrying_into_ref_iterator = each_holds_its_index (retrying_into_iter vec (retrying_new three))

abbrev retrying_ref_iterator : Program (Unit {0})
retrying_ref_iterator = each_holds_its_index (retrying_iter vec (retrying_new three))

abbrev retrying_mut_iterator : Program (Unit {0})
retrying_mut_iterator = each_holds_its_index (retrying_into_iter vec (retrying_new three))

abbrev ref_scoped_lock_changes_collection : Program (Unit {0})
ref_scoped_lock_changes_collection = do
  let collection = ref_new_unchecked two_mutexes
  key ← get_key
  sum ←
      ref_scoped_lock 9 collection (borrowed key)
        (λ guard. (do store_at guard 0 128; a ← load_at guard 0; b ← load_at guard 1; ret (a + b)))
  assert (sum == 128 + 42)
  guard ← ref_lock 9 collection key
  a ← load_at (map mutex_ref_deref (lock_guard_deref guard)) 0
  assert (a == 128)
  b ← load_at (map mutex_ref_deref (lock_guard_deref guard)) 1
  assert (b == 42)
  lock_guard_drop (sorted_lockable collection) false guard

abbrev retrying_new_ref_works : Program (Unit {0})
retrying_new_ref_works = do
  key ← get_key
  retry_scoped_lock 9 3 (by_ref two_mutexes) (owned key)
      (λ guard. (do a ← load_at guard 0; assert (a == 0); b ← load_at guard 1; assert (b == 1)))

-- What is written through `get_mut` is at the address of the lock.
abbrev retrying_get_mut_affects_scoped_read : Program (Unit {0})
retrying_get_mut_affects_scoped_read = do
  key ← get_key
  store 1 128
  sum ← retry_scoped_read 9 3 (two_rwlocks read) (borrowed key) (λ guard. (do
    a ← load_at guard 0
    assert (a == 128)
    b ← load_at guard 1
    assert (b == 42)
    ret (a + b)))
  assert (sum == 128 + 42)

abbrev indexed : ℕ → ℕ
indexed = at (holding 0 1) 3 2

making_tests :
    passes (holding 0 1) boxed_non_duplicates_allowed
      && passes (holding 0 0) boxed_duplicates_not_allowed
      && passes (holding 0 1) ref_non_duplicates_allowed
      && passes (holding 0 0) ref_duplicates_not_allowed
      && passes (holding 0 0) retrying_nonduplicate_lock_references_are_allowed
      && passes (holding 0 0) retrying_duplicate_lock_references_are_disallowed
      && passes foo_bar_baz boxed_from_iterator
      && passes foo_bar_baz boxed_from_test
      && passes foo_bar_baz ref_from_test
      && passes foo_bar_baz retrying_from_test
      && passes foo_bar_baz retrying_from_iterator
      && passes indexed boxed_into_ref_iterator
      && passes indexed boxed_ref_iterator
      && passes indexed ref_into_ref_iterator
      && passes indexed ref_ref_iterator
      && passes indexed retrying_into_ref_iterator
      && passes indexed retrying_ref_iterator
      && passes indexed retrying_mut_iterator
      && passes (holding 24 42) ref_scoped_lock_changes_collection
      && passes (holding 0 1) retrying_new_ref_works
      && passes (holding 24 42) retrying_get_mut_affects_scoped_read
    ≡ true
unfolding get_key many by_ref mutex_lock mutex_lockable mutex_scoped_lock mutex_ref_deref
    rwlock_lock rwlock_lockable lock_guard_drop lock_guard_deref ordered_lock unlock_all
    sort_by_addr get_locks get_locks_unsorted ordered_contains_duplicates attempt_to_recover
    boxed_new_unchecked boxed_try_new ref_new_unchecked ref_try_new sorted_lockable boxed_lock
    ref_lock ref_scoped_lock retry_try_new contains_duplicates retry_lock_with retry_scoped_lock
    retry_scoped_read boxing_new_unchecked boxing_child boxing_new boxing_iter retrying_new
    retrying_into_iter retrying_iter ref_new ref_into_iter ref_iter
making_tests = refl
