-- ===== src/Tests/Unit/Guarding.antt =====
-- Unit tests of src/collection/guard.rs and src/collection/utils.rs, and those of
-- src/tests/forget.rs.
use happylock.Base.{ℕ, ◌≡◌, refl, true, false, not, [], ◌&&◌, ◌==◌}
use happylock.Exec.{◌>>=◌, ◌>>◌}
use happylock.Key.{thread_key_get, borrowed}
use happylock.Shared.{Shared}
use happylock.RawLock.{read}
use happylock.Lockable.{by_ref, pair}
use happylock.Mutex.{MutexRef, mutex_lock, mutex_lockable}
use happylock.Mutex.Methods.{MutexGuard, mutex_lock_with, mutex_unlock, mutex_scoped_lock}
use happylock.Mutex.Deref.{mutex_ref_deref, mutex_guard_deref, mutex_guard_as_ref, mutex_guard_drop}
use happylock.RwLock.{rwlock_lock, rwlock_lockable}
use happylock.RwLock.Deref.{read_ref_fmt}
use happylock.Collection.Access.{LockGuard, lock_guard_drop}
use happylock.Collection.Access.Deref.{lock_guard_deref, lock_guard_as_ref, lock_guard_fmt}
use happylock.Collection.Utils.{
  ordered_lock, unlock_all, sort_by_addr, get_locks_unsorted, ordered_contains_duplicates,
}
use happylock.Collection.Sorted.{boxed_new_unchecked}
use happylock.Collection.Sorted.BoxedMethods.{boxed_lock, boxed_unlock}
use happylock.Collection.Sorted.OwnedMethods.{owned_read}
use happylock.Tests.Simulation.{
  Sim, Program, sim_mutex, sim_rwlock, load, store, assert, get_key, passes, at, assert_holds,
}
use happylock.Tests.Unit.{holding}
use happylock.Tests.Unit.Locks.{hello, is_some}

abbrev guard_display_works : Program (Unit {0})
guard_display_works = do
  let lock = rwlock_lockable sim_rwlock read 1
  key ← get_key
  guard ← owned_read 9 lock key
  text ← lock_guard_fmt (read_ref_fmt load) guard
  assert (text == hello)
  lock_guard_drop lock false guard

-- `LockCollection::new_ref(&locks)`, written through in a way that gives the tuple of references,
-- and then the two mutexes on their own.
abbrev writes_first :
    (LockGuard (MutexRef × MutexRef) → MutexRef × MutexRef) → (MutexGuard → ℕ) → Program (Unit {0})
writes_first seen data_ = do
  let lock =
      boxed_new_unchecked (by_ref (pair (mutex_lockable sim_mutex 1) (mutex_lockable sim_mutex 2)))
  key ← get_key
  guard ← boxed_lock 9 lock key
  store (mutex_ref_deref (seen guard).0) 3
  key ← boxed_unlock 9 lock guard
  guard ← mutex_lock_with sim_mutex 1 key
  assert_holds (data_ guard) 3
  key ← mutex_unlock sim_mutex guard
  guard ← mutex_lock_with sim_mutex 2 key
  assert_holds (data_ guard) 2
  mutex_guard_drop sim_mutex false guard

abbrev guard_deref_mut_works : Program (Unit {0})
guard_deref_mut_works = writes_first lock_guard_deref mutex_guard_deref

abbrev guard_as_ref_works : Program (Unit {0})
guard_as_ref_works = writes_first lock_guard_deref mutex_guard_as_ref

abbrev guard_as_mut_works : Program (Unit {0})
guard_as_mut_works = writes_first lock_guard_as_ref mutex_guard_as_ref

abbrev empty_array_does_not_contain_duplicates : Program (Unit {0})
empty_array_does_not_contain_duplicates =
    assert (not (ordered_contains_duplicates {S = Shared Sim} []))

-- The guard is forgotten: it is not dropped.
abbrev no_new_threadkey_when_forgetting_lock : Program (Unit {0})
no_new_threadkey_when_forgetting_lock = do
  key ← get_key
  guard ← mutex_lock_with sim_mutex 1 key
  again ← thread_key_get
  assert (not (is_some again))

abbrev no_new_threadkey_in_scoped_lock : Program (Unit {0})
no_new_threadkey_in_scoped_lock = do
  key ← get_key
  mutex_scoped_lock sim_mutex 1 (borrowed key)
      (λ _. (do again ← thread_key_get; assert (not (is_some again))))
  guard ← mutex_lock_with sim_mutex 1 key
  mutex_guard_drop sim_mutex false guard

guard_tests :
    passes (at (λ a. 0) 1 hello) guard_display_works
      && passes (holding 1 2) guard_deref_mut_works
      && passes (holding 1 2) guard_as_ref_works
      && passes (holding 1 2) guard_as_mut_works
      && passes (λ a. 0) empty_array_does_not_contain_duplicates
      && passes (λ a. 0) no_new_threadkey_when_forgetting_lock
      && passes (λ a. 0) no_new_threadkey_in_scoped_lock
    ≡ true
unfolding get_key thread_key_get by_ref pair mutex_lock mutex_lockable mutex_lock_with mutex_unlock
    mutex_scoped_lock mutex_ref_deref mutex_guard_deref mutex_guard_as_ref mutex_guard_drop
    rwlock_lock rwlock_lockable read_ref_fmt lock_guard_drop lock_guard_deref lock_guard_as_ref
    lock_guard_fmt ordered_lock unlock_all sort_by_addr get_locks_unsorted
    ordered_contains_duplicates boxed_new_unchecked boxed_lock boxed_unlock owned_read
guard_tests = refl
