-- ===== src/Tests/Unit/Retrying.antt =====
-- Unit tests of src/collection/retry.rs.
use happylock.Base.{ℕ, ◌≡◌, refl, true, false, List, ◌&&◌}
use happylock.Shared.{Shared}
use happylock.RawLock.{write, read}
use happylock.Lockable.{Lockable, many, pair, by_ref}
use happylock.Mutex.{MutexRef, mutex_lock, mutex_lockable}
use happylock.Mutex.Methods.{mutex_lock_with, mutex_try_lock_with}
use happylock.Mutex.Deref.{mutex_ref_deref}
use happylock.RwLock.{RwLockRef, rwlock_lock, rwlock_lockable}
use happylock.RwLock.Methods.{rwlock_lock_with, rwlock_try_lock_with}
use happylock.RwLock.Deref.{read_ref_deref, write_ref_deref}
use happylock.Collection.Access.{lock_guard_drop}
use happylock.Collection.Utils.{unlock_all, get_locks_unsorted, attempt_to_recover}
use happylock.Collection.Retry.{retry_try_new}
use happylock.Collection.Retry.Methods.{
  retry_lock_with, retry_try_lock_with, retry_unlock, retry_scoped_lock, retry_scoped_try_lock,
  retry_read, retry_try_read, retry_unlock_read, retry_scoped_read, retry_scoped_try_read,
}
use happylock.Tests.Simulation.{Sim, Program, passes, get_key}
use happylock.Tests.Unit.{
  with_unwrapped, Api, two_mutexes, two_rwlocks, holding, scoped_try_can_fail, try_both,
  try_fails_for_forgotten_rwlock, sees_changes, locks_all,
}

-- Three rounds are more than a test needs.
abbrev pub api : {G D : Type 0} → Lockable (Shared Sim) G D → Api G D
api c = record {
  lock = retry_lock_with 9 3 c;
  try_lock = retry_try_lock_with 9 3 c;
  unlock = retry_unlock 9 3 c;
  drop_guard = lock_guard_drop (c) false;
  scoped_lock = retry_scoped_lock 9 3 c;
  scoped_try_lock = retry_scoped_try_lock 9 3 c;
}

abbrev pub reading : {G D : Type 0} → Lockable (Shared Sim) G D → Api G D
reading c = record {
  lock = retry_read 9 3 c;
  try_lock = retry_try_read 9 3 c;
  unlock = retry_unlock_read 9 3 c;
  drop_guard = lock_guard_drop (c) false;
  scoped_lock = retry_scoped_read 9 3 c;
  scoped_try_lock = retry_scoped_try_read 9 3 c;
}

abbrev mutexes : Api (List MutexRef) (List ℕ)
mutexes = api (two_mutexes)

abbrev writes : Api (List RwLockRef) (List ℕ)
writes = api ((two_rwlocks write))

abbrev reads : Api (List RwLockRef) (List ℕ)
reads = reading ((two_rwlocks read))

abbrev retrying_scoped_read_sees_changes : Program (Unit {0})
retrying_scoped_read_sees_changes = sees_changes writes reads

abbrev retrying_scoped_try_lock_can_fail : Program (Unit {0})
retrying_scoped_try_lock_can_fail = scoped_try_can_fail mutexes mutexes

abbrev retrying_scoped_try_read_can_fail : Program (Unit {0})
retrying_scoped_try_read_can_fail = scoped_try_can_fail writes reads

abbrev retrying_try_lock_works : Program (Unit {0})
retrying_try_lock_works = try_both mutexes mutexes false

abbrev retrying_try_read_works : Program (Unit {0})
retrying_try_read_works = try_both reads reads true

abbrev retrying_try_read_fails_for_locked_collection : Program (Unit {0})
retrying_try_read_fails_for_locked_collection = try_fails_for_forgotten_rwlock reads

abbrev retrying_locks_all_inner_mutexes : Program (Unit {0})
retrying_locks_all_inner_mutexes =
    with_unwrapped (retry_try_new two_mutexes) (λ c. locks_all (api c))

abbrev retrying_locks_all_inner_rwlocks : Program (Unit {0})
retrying_locks_all_inner_rwlocks =
    with_unwrapped (retry_try_new (two_rwlocks read)) (λ c. locks_all (reading c))

retrying_tests :
    passes (holding 24 42) retrying_scoped_read_sees_changes
      && passes (holding 1 2) retrying_scoped_try_lock_can_fail
      && passes (holding 1 2) retrying_scoped_try_read_can_fail
      && passes (holding 1 2) retrying_try_lock_works
      && passes (holding 1 2) retrying_try_read_works
      && passes (holding 24 42) retrying_try_read_fails_for_locked_collection
      && passes (holding 0 0) retrying_locks_all_inner_mutexes
      && passes (holding 0 0) retrying_locks_all_inner_rwlocks
    ≡ true
unfolding get_key many pair by_ref mutex_lockable mutex_lock rwlock_lockable rwlock_lock unlock_all
    mutex_lock_with mutex_try_lock_with rwlock_lock_with rwlock_try_lock_with mutex_ref_deref
    read_ref_deref write_ref_deref lock_guard_drop get_locks_unsorted attempt_to_recover
    retry_try_new retry_lock_with retry_try_lock_with retry_unlock retry_scoped_lock
    retry_scoped_try_lock retry_read retry_try_read retry_unlock_read retry_scoped_read
    retry_scoped_try_read
retrying_tests = refl
