-- ===== src/Tests/Unit/Boxed.antt =====
-- Unit tests of src/collection/boxed.rs.
use happylock.Base.{ℕ, ◌≡◌, refl, true, false, List, ◌&&◌}
use happylock.Shared.{Shared}
use happylock.RawLock.{write, read}
use happylock.Lockable.{many, pair, by_ref}
use happylock.Collection.Utils.{
  ordered_lock, ordered_try_lock, unlock_all, sort_by_addr, ordered_contains_duplicates,
}
use happylock.Mutex.{MutexRef, mutex_lock, mutex_lockable}
use happylock.Mutex.Methods.{mutex_try_lock_with}
use happylock.RwLock.{RwLockRef, rwlock_lock, rwlock_lockable}
use happylock.RwLock.Methods.{rwlock_try_lock_with}
use happylock.Collection.Access.{lock_guard_drop}
use happylock.Collection.Sorted.{
  SortedCollection, boxed_new_unchecked, boxed_try_new, sorted_lockable,
}
use happylock.Collection.Sorted.BoxedMethods.{
  boxed_lock, boxed_try_lock, boxed_unlock, boxed_scoped_lock, boxed_scoped_try_lock, boxed_read,
  boxed_try_read, boxed_unlock_read, boxed_scoped_read, boxed_scoped_try_read,
}
use happylock.Tests.Simulation.{Sim, Program, sim_mutex, sim_rwlock, passes, get_key}
use happylock.Tests.Unit.{
  mutex_tuple, rwlock_tuple, with_unwrapped, Api, two_mutexes, two_rwlocks, holding,
  scoped_try_can_fail, try_both, try_fails_with_mutex, try_fails_with_rwlock, unlock_works,
  sees_changes,
}

abbrev pub api : {G D : Type 0} → SortedCollection (Shared Sim) G D → Api G D
api c = record {
  lock = boxed_lock 9 c;
  try_lock = boxed_try_lock 9 c;
  unlock = boxed_unlock 9 c;
  drop_guard = lock_guard_drop (sorted_lockable c) false;
  scoped_lock = boxed_scoped_lock 9 c;
  scoped_try_lock = boxed_scoped_try_lock 9 c;
}

abbrev pub reading : {G D : Type 0} → SortedCollection (Shared Sim) G D → Api G D
reading c = record {
  lock = boxed_read 9 c;
  try_lock = boxed_try_read 9 c;
  unlock = boxed_unlock_read 9 c;
  drop_guard = lock_guard_drop (sorted_lockable c) false;
  scoped_lock = boxed_scoped_read 9 c;
  scoped_try_lock = boxed_scoped_try_read 9 c;
}

abbrev mutexes : Api (List MutexRef) (List ℕ)
mutexes = api (boxed_new_unchecked two_mutexes)

abbrev writes : Api (List RwLockRef) (List ℕ)
writes = api (boxed_new_unchecked (two_rwlocks write))

abbrev reads : Api (List RwLockRef) (List ℕ)
reads = reading (boxed_new_unchecked (two_rwlocks read))

abbrev boxed_scoped_read_sees_changes : Program (Unit {0})
boxed_scoped_read_sees_changes = sees_changes writes reads

abbrev boxed_scoped_try_lock_can_fail : Program (Unit {0})
boxed_scoped_try_lock_can_fail = scoped_try_can_fail mutexes mutexes

abbrev boxed_scoped_try_read_can_fail : Program (Unit {0})
boxed_scoped_try_read_can_fail = scoped_try_can_fail writes reads

abbrev boxed_try_lock_works : Program (Unit {0})
boxed_try_lock_works = try_both mutexes mutexes false

abbrev boxed_try_read_works : Program (Unit {0})
boxed_try_read_works = try_both reads reads true

abbrev boxed_try_lock_fails_with_one_exclusive_lock : Program (Unit {0})
boxed_try_lock_fails_with_one_exclusive_lock = try_fails_with_mutex mutexes

abbrev boxed_try_read_fails_during_exclusive_lock : Program (Unit {0})
boxed_try_read_fails_during_exclusive_lock = try_both writes reads false

abbrev boxed_try_read_fails_with_one_exclusive_lock : Program (Unit {0})
boxed_try_read_fails_with_one_exclusive_lock = try_fails_with_rwlock reads

abbrev boxed_unlock_collection_works : Program (Unit {0})
boxed_unlock_collection_works =
    with_unwrapped (boxed_try_new mutex_tuple)
      (λ c. unlock_works (api c) (mutex_try_lock_with sim_mutex 1))

abbrev boxed_read_unlock_collection_works : Program (Unit {0})
boxed_read_unlock_collection_works =
    with_unwrapped (boxed_try_new (rwlock_tuple read))
      (λ c. unlock_works (reading c) (rwlock_try_lock_with sim_rwlock write 1))

boxed_tests :
    passes (holding 24 42) boxed_scoped_read_sees_changes
      && passes (holding 1 2) boxed_scoped_try_lock_can_fail
      && passes (holding 1 2) boxed_scoped_try_read_can_fail
      && passes (holding 1 2) boxed_try_lock_works
      && passes (holding 1 2) boxed_try_read_works
      && passes (holding 1 2) boxed_try_lock_fails_with_one_exclusive_lock
      && passes (holding 1 2) boxed_try_read_fails_during_exclusive_lock
      && passes (holding 1 2) boxed_try_read_fails_with_one_exclusive_lock
      && passes (holding 0 0) boxed_unlock_collection_works
      && passes (holding 0 0) boxed_read_unlock_collection_works
    ≡ true
unfolding boxed_new_unchecked boxed_try_new sorted_lockable lock_guard_drop boxed_lock
    boxed_try_lock boxed_unlock boxed_scoped_lock boxed_scoped_try_lock boxed_read boxed_try_read
    boxed_unlock_read boxed_scoped_read boxed_scoped_try_read mutex_try_lock_with
    rwlock_try_lock_with get_key many pair by_ref mutex_lockable mutex_lock rwlock_lockable
    rwlock_lock ordered_lock ordered_try_lock unlock_all sort_by_addr ordered_contains_duplicates
boxed_tests = refl
