-- ===== src/Tests/Unit/Owned.antt =====
-- Unit tests of src/collection/owned.rs.
use happylock.Base.{ℕ, ◌≡◌, refl, true, false, List, ◌&&◌}
use happylock.Shared.{Shared}
use happylock.RawLock.{Mode, write, read}
use happylock.Lockable.{Lockable, many, pair, by_ref}
use happylock.Mutex.{MutexRef, mutex_lock, mutex_lockable}
use happylock.Mutex.Methods.{mutex_lock_with, mutex_try_lock_with}
use happylock.Mutex.Deref.{mutex_ref_deref}
use happylock.RwLock.{RwLockRef, rwlock_lock, rwlock_lockable}
use happylock.RwLock.Methods.{rwlock_lock_with, rwlock_try_lock_with}
use happylock.RwLock.Deref.{read_ref_deref, write_ref_deref}
use happylock.Collection.Access.{lock_guard_drop}
use happylock.Collection.Utils.{ordered_lock, ordered_try_lock, unlock_all, get_locks_unsorted}
use happylock.Collection.Sorted.OwnedMethods.{
  owned_lock, owned_try_lock, owned_unlock, owned_scoped_lock, owned_scoped_try_lock, owned_read,
  owned_try_read, owned_unlock_read, owned_scoped_read, owned_scoped_try_read,
}
use happylock.Tests.Simulation.{Sim, Program, sim_mutex, sim_rwlock, passes, get_key}
use happylock.Tests.Unit.{
  Api, two_mutexes, two_rwlocks, holding, scoped_try_can_fail, unlock_works, try_succeeds,
  can_read_twice, try_fails_on_locked,
}

abbrev pub api : {G D : Type 0} → Lockable (Shared Sim) G D → Api G D
api c = record {
  lock = owned_lock 9 c;
  try_lock = owned_try_lock 9 c;
  unlock = owned_unlock 9 c;
  drop_guard = lock_guard_drop (c) false;
  scoped_lock = owned_scoped_lock 9 c;
  scoped_try_lock = owned_scoped_try_lock 9 c;
}

abbrev pub reading : {G D : Type 0} → Lockable (Shared Sim) G D → Api G D
reading c = record {
  lock = owned_read 9 c;
  try_lock = owned_try_read 9 c;
  unlock = owned_unlock_read 9 c;
  drop_guard = lock_guard_drop (c) false;
  scoped_lock = owned_scoped_read 9 c;
  scoped_try_lock = owned_scoped_try_read 9 c;
}

abbrev mutexes : Api (List MutexRef) (List ℕ)
mutexes = api (two_mutexes)

abbrev writes : Api (List RwLockRef) (List ℕ)
writes = api ((two_rwlocks write))

abbrev reads : Api (List RwLockRef) (List ℕ)
reads = reading ((two_rwlocks read))

-- `(Mutex::new(..), Mutex::new(..))`, and the same of `RwLock`s.
abbrev pub tuple : Lockable (Shared Sim) (MutexRef × MutexRef) (ℕ × ℕ)
tuple = pair (mutex_lockable sim_mutex 1) (mutex_lockable sim_mutex 2)

abbrev pub rw_tuple : Mode → Lockable (Shared Sim) (RwLockRef × RwLockRef) (ℕ × ℕ)
rw_tuple m = pair (rwlock_lockable sim_rwlock m 1) (rwlock_lockable sim_rwlock m 2)

abbrev owned_scoped_try_lock_can_fail : Program (Unit {0})
owned_scoped_try_lock_can_fail = scoped_try_can_fail mutexes mutexes

abbrev owned_scoped_try_read_can_fail : Program (Unit {0})
owned_scoped_try_read_can_fail = scoped_try_can_fail writes reads

abbrev owned_try_lock_fails_on_locked : Program (Unit {0})
owned_try_lock_fails_on_locked = try_fails_on_locked (api tuple) (api tuple)

abbrev owned_try_read_succeeds_for_unlocked_collection : Program (Unit {0})
owned_try_read_succeeds_for_unlocked_collection = try_succeeds read_ref_deref reads

abbrev owned_try_read_fails_on_locked : Program (Unit {0})
owned_try_read_fails_on_locked =
    try_fails_on_locked (api (rw_tuple write)) (reading (rw_tuple read))

abbrev owned_can_read_twice_on_different_threads : Program (Unit {0})
owned_can_read_twice_on_different_threads = can_read_twice read_ref_deref reads

abbrev owned_unlock_collection_works : Program (Unit {0})
owned_unlock_collection_works = unlock_works (api tuple) (api tuple).try_lock

abbrev owned_read_unlock_collection_works : Program (Unit {0})
owned_read_unlock_collection_works =
    unlock_works (reading (rw_tuple read)) (api (rw_tuple write)).try_lock

owned_tests :
    passes (holding 1 2) owned_scoped_try_lock_can_fail
      && passes (holding 1 2) owned_scoped_try_read_can_fail
      && passes (holding 0 1) owned_try_lock_fails_on_locked
      && passes (holding 24 42) owned_try_read_succeeds_for_unlocked_collection
      && passes (holding 0 1) owned_try_read_fails_on_locked
      && passes (holding 24 42) owned_can_read_twice_on_different_threads
      && passes (holding 0 0) owned_unlock_collection_works
      && passes (holding 0 0) owned_read_unlock_collection_works
    ≡ true
unfolding get_key many pair by_ref mutex_lockable mutex_lock rwlock_lockable rwlock_lock unlock_all
    mutex_lock_with mutex_try_lock_with rwlock_lock_with rwlock_try_lock_with mutex_ref_deref
    read_ref_deref write_ref_deref lock_guard_drop get_locks_unsorted ordered_lock ordered_try_lock
    owned_lock owned_try_lock owned_unlock owned_scoped_lock owned_scoped_try_lock owned_read
    owned_try_read owned_unlock_read owned_scoped_read owned_scoped_try_read
owned_tests = refl
