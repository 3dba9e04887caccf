-- ===== src/Tests/Unit/RwLocks.antt =====
-- Unit tests of src/rwlock.rs. The lock of a test lies at the address 1.
use happylock.Base.{◌==◌, ℕ, ◌≡◌, refl, true, false, not, ◌&&◌}
use happylock.Exec.{ret, ◌>>=◌, ◌>>◌, lift}
use happylock.Key.{ThreadKey, owned, borrowed}
use happylock.RawLock.{Mode, write, read}
use happylock.RwLock.{RwLockRef, rwlock_lock, rwlock_lockable}
use happylock.RwLock.Methods.{
  RwLockGuard, rwlock_lock_with, rwlock_try_lock_with, rwlock_try_no_key, rwlock_scoped,
  rwlock_unlock,
}
use happylock.RwLock.Writing.{rwlock_try_write, rwlock_unlock_write, rwlock_scoped_write}
use happylock.RwLock.Deref.{
  read_guard_deref, read_guard_as_ref, read_ref_as_ref, write_guard_as_ref, write_ref_as_ref,
  write_guard_deref, rwlock_guard_drop, read_guard_fmt, write_guard_fmt, read_ref_fmt,
  write_ref_fmt,
}
use happylock.Collection.Utils.{ordered_lock, unlock_all, sort_by_addr}
use happylock.Collection.Access.{Result, lock_guard_drop}
use happylock.Collection.Access.Deref.{lock_guard_deref}
use happylock.Collection.Sorted.{boxed_new_unchecked, sorted_lockable}
use happylock.Collection.Sorted.BoxedMethods.{boxed_lock, boxed_read}
use happylock.Tests.Simulation.{
  Program, sim_rwlock, load, store, assert, get_key, in_thread, is_ok, passes, at, assert_holds,
}
use happylock.Tests.Unit.Locks.{hello, goodbye, assert_locked, take_and_drop}

-- `read` or `write`, and the drop of its guard.
abbrev lock_for : Mode → ThreadKey → Program RwLockGuard
lock_for m key = rwlock_lock_with sim_rwlock m 1 key

abbrev drop_for : Mode → RwLockGuard → Program (Unit {0})
drop_for m guard = rwlock_guard_drop sim_rwlock m false guard

-- The drop of what `try_write` or `try_read` returned.
abbrev drop_tried : Mode → Result RwLockGuard ThreadKey → Program (Unit {0})
drop_tried m (Result.ok guard) = drop_for m guard
drop_tried m (Result.err key) = ret tt

abbrev rwlock_unlocked_when_initialized : Program (Unit {0})
rwlock_unlocked_when_initialized = do
  key ← get_key
  assert_locked false
  r ← rwlock_try_write sim_rwlock 1 key
  assert (is_ok r)
  drop_tried write r

-- `locked_after_read` and `locked_after_write`
abbrev locked_after : Mode → Program (Unit {0})
locked_after m = do key ← get_key; guard ← lock_for m key; assert_locked true; drop_for m guard

abbrev rwlock_locked_after_read : Program (Unit {0})
rwlock_locked_after_read = locked_after read

abbrev rwlock_locked_after_write : Program (Unit {0})
rwlock_locked_after_write = locked_after write

abbrev rwlock_locked_after_scoped_write : Program (Unit {0})
rwlock_locked_after_scoped_write = do
  key ← get_key
  rwlock_scoped_write sim_rwlock 1 (borrowed key) (λ guard. (do
    assert_locked true
    assert_holds guard hello
    in_thread
        (do key ← get_key; r ← rwlock_try_lock_with sim_rwlock read 1 key; assert (not (is_ok r)))))

-- What is written through `get_mut` is at the address of the lock.
abbrev rwlock_get_mut_works : Program (Unit {0})
rwlock_get_mut_works = do
  key ← get_key
  store 1 24
  rwlock_scoped sim_rwlock read 1 (owned key) (λ guard. assert_holds guard 24)

-- `try_write_can_fail` and `try_read_can_fail`
abbrev try_can_fail : Mode → Program (Unit {0})
try_can_fail m = do
  key ← get_key
  guard ← lock_for write key
  in_thread (do key ← get_key; r ← rwlock_try_lock_with sim_rwlock m 1 key; assert (not (is_ok r)))
  drop_for write guard

abbrev rwlock_try_write_can_fail : Program (Unit {0})
rwlock_try_write_can_fail = try_can_fail write

abbrev rwlock_try_read_can_fail : Program (Unit {0})
rwlock_try_read_can_fail = try_can_fail read

abbrev rwlock_dropping_read_ref_releases_rwlock : Program (Unit {0})
rwlock_dropping_read_ref_releases_rwlock = do
  r ← lift (rwlock_try_no_key sim_rwlock read 1)
  take_and_drop (λ guard. lift ((rwlock_lockable sim_rwlock read 1).drop_guard false guard)) r
  assert_locked false

abbrev rwlock_dropping_write_guard_releases_rwlock : Program (Unit {0})
rwlock_dropping_write_guard_releases_rwlock = do
  key ← get_key
  guard ← lock_for write key
  drop_for write guard
  assert_locked false

abbrev rwlock_unlock_write_test : Program (Unit {0})
rwlock_unlock_write_test = do
  key ← get_key
  guard ← lock_for write key
  store (write_guard_deref guard) goodbye
  key ← rwlock_unlock_write sim_rwlock guard
  guard ← lock_for read key
  assert_holds (read_guard_deref guard) goodbye
  drop_for read guard

abbrev rwlock_unlock_read_test : Program (Unit {0})
rwlock_unlock_read_test = do
  key ← get_key
  guard ← lock_for read key
  assert_holds (read_guard_deref guard) hello
  key ← rwlock_unlock sim_rwlock read guard
  guard ← lock_for write key
  assert_holds (write_guard_deref guard) hello
  drop_for write guard

abbrev rwlock_read_ref_as_ref : Program (Unit {0})
rwlock_read_ref_as_ref = do
  let lock = boxed_new_unchecked (rwlock_lockable sim_rwlock read 1)
  key ← get_key
  guard ← boxed_read 9 lock key
  assert_holds (read_ref_as_ref (lock_guard_deref guard)) hello
  lock_guard_drop (sorted_lockable lock) false guard

abbrev rwlock_write_ref_as_ref : Program (Unit {0})
rwlock_write_ref_as_ref = do
  let lock = boxed_new_unchecked (rwlock_lockable sim_rwlock write 1)
  key ← get_key
  guard ← boxed_lock 9 lock key
  assert_holds (write_ref_as_ref (lock_guard_deref guard)) hello
  lock_guard_drop (sorted_lockable lock) false guard

abbrev rwlock_read_guard_as_ref : Program (Unit {0})
rwlock_read_guard_as_ref = do
  key ← get_key
  guard ← lock_for read key
  assert_holds (read_guard_as_ref guard) hello
  drop_for read guard

abbrev rwlock_write_guard_as_ref : Program (Unit {0})
rwlock_write_guard_as_ref = do
  key ← get_key
  guard ← lock_for write key
  assert_holds (write_guard_as_ref guard) hello
  drop_for write guard

abbrev rwlock_write_guard_as_mut : Program (Unit {0})
rwlock_write_guard_as_mut = do
  key ← get_key
  guard ← lock_for write key
  assert_holds (write_guard_as_ref guard) hello
  store (write_guard_as_ref guard) goodbye
  assert_holds (write_guard_as_ref guard) goodbye
  drop_for write guard

-- `.to_string()` reads the data, and a string is its own text.
abbrev displays : Mode → (RwLockGuard → Program ℕ) → Program (Unit {0})
displays m to_string = do
  key ← get_key
  guard ← lock_for m key
  text ← to_string guard
  assert (text == hello)
  drop_for m guard

abbrev ref_displays : Mode → (RwLockRef → Program ℕ) → Program (Unit {0})
ref_displays m to_string = do
  r ← lift (rwlock_try_no_key sim_rwlock m 1)
  take_and_drop
      (λ guard. (do
        text ← to_string guard
        assert (text == hello)
        lift ((rwlock_lockable sim_rwlock m 1).drop_guard false guard)))
      r

abbrev rwlock_read_display_works : Program (Unit {0})
rwlock_read_display_works = displays read (read_guard_fmt load)

abbrev rwlock_write_display_works : Program (Unit {0})
rwlock_write_display_works = displays write (write_guard_fmt load)

abbrev rwlock_read_ref_display_works : Program (Unit {0})
rwlock_read_ref_display_works = ref_displays read (read_ref_fmt load)

abbrev rwlock_write_ref_display_works : Program (Unit {0})
rwlock_write_ref_display_works = ref_displays write (write_ref_fmt load)

abbrev holding_hello : ℕ → ℕ
holding_hello = at (λ a. 0) 1 hello

rwlock_tests :
    passes holding_hello rwlock_unlocked_when_initialized
      && passes holding_hello rwlock_locked_after_read
      && passes holding_hello rwlock_locked_after_write
      && passes holding_hello rwlock_locked_after_scoped_write
      && passes (at (λ a. 0) 1 42) rwlock_get_mut_works
      && passes holding_hello rwlock_try_write_can_fail
      && passes holding_hello rwlock_try_read_can_fail
      && passes holding_hello rwlock_dropping_read_ref_releases_rwlock
      && passes holding_hello rwlock_dropping_write_guard_releases_rwlock
      && passes holding_hello rwlock_unlock_write_test
      && passes holding_hello rwlock_unlock_read_test
      && passes holding_hello rwlock_read_ref_as_ref
      && passes holding_hello rwlock_write_ref_as_ref
      && passes holding_hello rwlock_read_guard_as_ref
      && passes holding_hello rwlock_write_guard_as_ref
      && passes holding_hello rwlock_write_guard_as_mut
      && passes holding_hello rwlock_read_display_works
      && passes holding_hello rwlock_write_display_works
      && passes holding_hello rwlock_read_ref_display_works
      && passes holding_hello rwlock_write_ref_display_works
    ≡ true
unfolding get_key read_guard_fmt write_guard_fmt read_ref_fmt write_ref_fmt rwlock_lock
    rwlock_lockable rwlock_lock_with rwlock_try_lock_with rwlock_try_no_key rwlock_scoped
    rwlock_unlock rwlock_try_write rwlock_unlock_write rwlock_scoped_write read_guard_deref
    read_guard_as_ref read_ref_as_ref write_guard_as_ref write_ref_as_ref write_guard_deref
    rwlock_guard_drop ordered_lock unlock_all sort_by_addr lock_guard_drop lock_guard_deref
    boxed_new_unchecked sorted_lockable boxed_lock boxed_read
rwlock_tests = refl
