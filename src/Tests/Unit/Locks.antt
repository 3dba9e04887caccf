-- ===== src/Tests/Unit/Locks.antt =====
-- Unit tests of src/key.rs and mutex.rs. The lock of a test lies at the address 1, and
-- the strings of the tests are told apart by numbers.
use happylock.Base.{
  ℕ, ◌≡◌, refl, Bool, true, false, not, none, some, Option, ◌&&◌, ◌==◌, if◌then◌else◌,
}
use happylock.Exec.{ret, throw, ◌>>=◌, ◌>>◌, lift}
use happylock.Key.{ThreadKey, thread_key_get, thread_key_drop, owned}
use happylock.Mutex.{mutex_lock, mutex_lockable}
use happylock.Mutex.Methods.{
  mutex_lock_with, mutex_unlock, mutex_scoped_lock, mutex_try_lock_no_key,
}
use happylock.Mutex.Deref.{
  mutex_guard_deref, mutex_guard_as_ref, mutex_ref_as_ref, mutex_guard_drop, mutex_guard_fmt,
  mutex_ref_fmt,
}
use happylock.Collection.Utils.{ordered_lock, unlock_all, sort_by_addr}
use happylock.Collection.Access.{lock_guard_drop}
use happylock.Collection.Access.Deref.{lock_guard_as_ref}
use happylock.Collection.Sorted.{boxed_new_unchecked, sorted_lockable}
use happylock.Collection.Sorted.BoxedMethods.{boxed_lock, boxed_unlock}
use happylock.Tests.Simulation.{
  Program, sim_mutex, is_locked, load, store, assert, get_key, passes, at, assert_holds,
}

abbrev pub hello : ℕ
hello = 1

abbrev pub goodbye : ℕ
goodbye = 2

-- `ThreadKey::get()`, and the drop of what it returns.
abbrev pub is_some : Option ThreadKey → Bool
is_some none = false
is_some (some key) = true

abbrev drop_option : Option ThreadKey → Program (Unit {0})
drop_option none = ret tt
drop_option (some key) = thread_key_drop key

abbrev thread_key_returns_some_on_first_call : Program (Unit {0})
thread_key_returns_some_on_first_call = do
  key ← thread_key_get
  assert (is_some key)
  drop_option key

abbrev thread_key_returns_none_on_second_call : Program (Unit {0})
thread_key_returns_none_on_second_call = do
  key ← thread_key_get
  second ← thread_key_get
  assert (not (is_some second))
  drop_option key

abbrev dropping_thread_key_allows_reobtaining : Program (Unit {0})
dropping_thread_key_allows_reobtaining = do
  key ← thread_key_get
  drop_option key
  again ← thread_key_get
  assert (is_some again)
  drop_option again

abbrev pub assert_locked : Bool → Program (Unit {0})
assert_locked expected = do b ← is_locked 1; assert (if expected then b else not b)

abbrev mutex_unlocked_when_initialized : Program (Unit {0})
mutex_unlocked_when_initialized = assert_locked false

abbrev mutex_locked_after_read : Program (Unit {0})
mutex_locked_after_read = do
  key ← get_key
  guard ← mutex_lock_with sim_mutex 1 key
  assert_locked true
  mutex_guard_drop sim_mutex false guard

abbrev mutex_from_works : Program (Unit {0})
mutex_from_works = do
  key ← get_key
  guard ← mutex_lock_with sim_mutex 1 key
  assert_holds (mutex_guard_deref guard) hello
  mutex_guard_drop sim_mutex false guard

-- What is written through `as_mut` is at the address of the mutex.
abbrev mutex_as_mut_works : Program (Unit {0})
mutex_as_mut_works = do
  key ← get_key
  store 1 24
  mutex_scoped_lock sim_mutex 1 (owned key) (λ guard. assert_holds guard 24)

abbrev mutex_ref_as_mut : Program (Unit {0})
mutex_ref_as_mut = do
  let collection = boxed_new_unchecked (mutex_lockable sim_mutex 1)
  key ← get_key
  guard ← boxed_lock 9 collection key
  store (mutex_ref_as_ref (lock_guard_as_ref guard)) 3
  key ← boxed_unlock 9 collection guard
  guard ← boxed_lock 9 collection key
  assert_holds (mutex_ref_as_ref (lock_guard_as_ref guard)) 3
  lock_guard_drop (sorted_lockable collection) false guard

abbrev mutex_guard_as_mut : Program (Unit {0})
mutex_guard_as_mut = do
  key ← get_key
  guard ← mutex_lock_with sim_mutex 1 key
  store (mutex_guard_as_ref guard) 3
  key ← mutex_unlock sim_mutex guard
  guard ← mutex_lock_with sim_mutex 1 key
  assert_holds (mutex_guard_as_ref guard) 3
  mutex_guard_drop sim_mutex false guard

abbrev mutex_dropping_guard_releases_mutex : Program (Unit {0})
mutex_dropping_guard_releases_mutex = do
  key ← get_key
  guard ← mutex_lock_with sim_mutex 1 key
  mutex_guard_drop sim_mutex false guard
  assert_locked false

-- `.unwrap()` of a reference that was taken without a key, and its drop.
abbrev pub take_and_drop {ℓ} :
    {R : Type ℓ} → (R → Program (Unit {0})) → Option R → Program (Unit {0})
take_and_drop dropped r = elim r [ none ↦ throw | some guard ↦ dropped guard ]

-- `.to_string()` reads the data, and a string is its own text.
abbrev mutex_display_works_for_guard : Program (Unit {0})
mutex_display_works_for_guard = do
  key ← get_key
  guard ← mutex_lock_with sim_mutex 1 key
  text ← mutex_guard_fmt load guard
  assert (text == hello)
  mutex_guard_drop sim_mutex false guard

abbrev mutex_display_works_for_ref : Program (Unit {0})
mutex_display_works_for_ref = do
  r ← lift (mutex_try_lock_no_key sim_mutex 1)
  take_and_drop
      (λ guard. (do
        text ← mutex_ref_fmt load guard
        assert (text == hello)
        lift ((mutex_lockable sim_mutex 1).drop_guard false guard)))
      r

abbrev mutex_dropping_ref_releases_mutex : Program (Unit {0})
mutex_dropping_ref_releases_mutex = do
  r ← lift (mutex_try_lock_no_key sim_mutex 1)
  take_and_drop (λ guard. lift ((mutex_lockable sim_mutex 1).drop_guard false guard)) r
  assert_locked false

mutex_tests :
    passes (λ a. 0) thread_key_returns_some_on_first_call
      && passes (λ a. 0) thread_key_returns_none_on_second_call
      && passes (λ a. 0) dropping_thread_key_allows_reobtaining
      && passes (at (λ a. 0) 1 hello) mutex_unlocked_when_initialized
      && passes (at (λ a. 0) 1 hello) mutex_locked_after_read
      && passes (at (λ a. 0) 1 hello) mutex_from_works
      && passes (at (λ a. 0) 1 42) mutex_as_mut_works
      && passes (λ a. 0) mutex_ref_as_mut
      && passes (λ a. 0) mutex_guard_as_mut
      && passes (at (λ a. 0) 1 hello) mutex_dropping_guard_releases_mutex
      && passes (at (λ a. 0) 1 hello) mutex_dropping_ref_releases_mutex
      && passes (at (λ a. 0) 1 hello) mutex_display_works_for_guard
      && passes (at (λ a. 0) 1 hello) mutex_display_works_for_ref
    ≡ true
unfolding get_key mutex_guard_fmt mutex_ref_fmt thread_key_get thread_key_drop mutex_lock
    mutex_lockable mutex_lock_with mutex_unlock mutex_scoped_lock mutex_try_lock_no_key
    mutex_guard_deref mutex_guard_as_ref mutex_ref_as_ref mutex_guard_drop ordered_lock unlock_all
    sort_by_addr lock_guard_drop lock_guard_as_ref boxed_new_unchecked sorted_lockable boxed_lock
    boxed_unlock
mutex_tests = refl
