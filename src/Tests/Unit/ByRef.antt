-- ===== src/Tests/Unit/ByRef.antt =====
-- Unit tests of src/collection/ref.rs.
use happylock.Base.{ℕ, ◌≡◌, refl, true, false, List, ◌&&◌}
use happylock.Shared.{Shared}
use happylock.RawLock.{write, read}
use happylock.Lockable.{many, pair, by_ref}
use happylock.Mutex.{MutexRef, mutex_lock, mutex_lockable}
use happylock.Mutex.Methods.{mutex_lock_with, mutex_try_lock_with}
use happylock.Mutex.Deref.{mutex_ref_deref}
use happylock.RwLock.{RwLockRef, rwlock_lock, rwlock_lockable}
use happylock.RwLock.Methods.{rwlock_lock_with, rwlock_try_lock_with}
use happylock.RwLock.Deref.{read_ref_deref, write_ref_deref}
use happylock.Collection.Access.{lock_guard_drop}
use happylock.Collection.Utils.{
  ordered_lock, ordered_try_lock, unlock_all, sort_by_addr, get_locks, get_locks_unsorted,
}
use happylock.Collection.Sorted.{SortedCollection, ref_new_unchecked, sorted_lockable}
use happylock.Collection.Sorted.RefMethods.{
  ref_lock, ref_try_lock, ref_unlock, ref_scoped_lock, ref_scoped_try_lock, ref_read, ref_try_read,
  ref_unlock_read, ref_scoped_read, ref_scoped_try_read,
}
use happylock.Tests.Simulation.{Sim, Program, passes, get_key}
use happylock.Tests.Unit.{
  Api, two_mutexes, two_rwlocks, holding, scoped_try_can_fail, try_fails_for_forgotten_mutex,
  try_fails_for_forgotten_rwlock, sees_changes, try_succeeds, can_read_twice,
}

abbrev pub api : {G D : Type 0} → SortedCollection (Shared Sim) G D → Api G D
api c = record {
  lock = ref_lock 9 c;
  try_lock = ref_try_lock 9 c;
  unlock = ref_unlock 9 c;
  drop_guard = lock_guard_drop (sorted_lockable c) false;
  scoped_lock = ref_scoped_lock 9 c;
  scoped_try_lock = ref_scoped_try_lock 9 c;
}

abbrev pub reading : {G D : Type 0} → SortedCollection (Shared Sim) G D → Api G D
reading c = record {
  lock = ref_read 9 c;
  try_lock = ref_try_read 9 c;
  unlock = ref_unlock_read 9 c;
  drop_guard = lock_guard_drop (sorted_lockable c) false;
  scoped_lock = ref_scoped_read 9 c;
  scoped_try_lock = ref_scoped_try_read 9 c;
}

abbrev mutexes : Api (List MutexRef) (List ℕ)
mutexes = api (ref_new_unchecked two_mutexes)

abbrev writes : Api (List RwLockRef) (List ℕ)
writes = api (ref_new_unchecked (two_rwlocks write))

abbrev reads : Api (List RwLockRef) (List ℕ)
reads = reading (ref_new_unchecked (two_rwlocks read))

abbrev ref_scoped_read_sees_changes : Program (Unit {0})
ref_scoped_read_sees_changes = sees_changes writes reads

abbrev ref_scoped_try_lock_can_fail : Program (Unit {0})
ref_scoped_try_lock_can_fail = scoped_try_can_fail mutexes mutexes

abbrev ref_scoped_try_read_can_fail : Program (Unit {0})
ref_scoped_try_read_can_fail = scoped_try_can_fail writes reads

abbrev ref_try_lock_succeeds_for_unlocked_collection : Program (Unit {0})
ref_try_lock_succeeds_for_unlocked_collection = try_succeeds mutex_ref_deref mutexes

abbrev ref_try_lock_fails_for_locked_collection : Program (Unit {0})
ref_try_lock_fails_for_locked_collection = try_fails_for_forgotten_mutex mutexes

abbrev ref_try_read_succeeds_for_unlocked_collection : Program (Unit {0})
ref_try_read_succeeds_for_unlocked_collection = try_succeeds read_ref_deref reads

abbrev ref_try_read_fails_for_locked_collection : Program (Unit {0})
ref_try_read_fails_for_locked_collection = try_fails_for_forgotten_rwlock reads

abbrev ref_can_read_twice_on_different_threads : Program (Unit {0})
ref_can_read_twice_on_different_threads = can_read_twice read_ref_deref reads

ref_tests :
    passes (holding 24 42) ref_scoped_read_sees_changes
      && passes (holding 1 2) ref_scoped_try_lock_can_fail
      && passes (holding 1 2) ref_scoped_try_read_can_fail
      && passes (holding 24 42) ref_try_lock_succeeds_for_unlocked_collection
      && passes (holding 24 42) ref_try_lock_fails_for_locked_collection
      && passes (holding 24 42) ref_try_read_succeeds_for_unlocked_collection
      && passes (holding 24 42) ref_try_read_fails_for_locked_collection
      && passes (holding 24 42) ref_can_read_twice_on_different_threads
    ≡ true
unfolding get_key many pair by_ref mutex_lockable mutex_lock rwlock_lockable rwlock_lock unlock_all
    mutex_lock_with mutex_try_lock_with rwlock_lock_with rwlock_try_lock_with mutex_ref_deref
    read_ref_deref write_ref_deref lock_guard_drop ref_new_unchecked sorted_lockable sort_by_addr
    get_locks get_locks_unsorted ordered_lock ordered_try_lock ref_lock ref_try_lock ref_unlock
    ref_scoped_lock ref_scoped_try_lock ref_read ref_try_read ref_unlock_read ref_scoped_read
    ref_scoped_try_read
ref_tests = refl
