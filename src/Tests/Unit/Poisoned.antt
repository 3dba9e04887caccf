-- ===== src/Tests/Unit/Poisoned.antt =====
-- Unit tests of src/poisonable.rs for what is reached through a `Poisonable`, its guards and its
-- errors.
use happylock.Base.{ℕ, ◌≡◌, refl, true, false, not, [], ◌&&◌, ◌==◌, get_elem?, length, none, some}
use happylock.Exec.{M, ok, ret, throw, ◌>>=◌, ◌>>◌, lift, handle_unwind}
use happylock.Shared.{Shared}
use happylock.RawLock.{write, read}
use happylock.Mutex.{MutexRef, mutex_lock, mutex_lockable}
use happylock.Mutex.Deref.{mutex_ref_deref, mutex_ref_fmt}
use happylock.RwLock.{rwlock_lock, rwlock_lockable}
use happylock.RwLock.Deref.{read_ref_deref, write_ref_deref}
use happylock.Collection.Access.{Result}
use happylock.Poisonable.{
  Poisonable, PoisonGuard, PoisonResult, PoisonError, TryLockPoisonableError, poisonable_new,
  poisonable_is_poisoned, poisonable_clear_poison, into_inner, poisoned, into_child, would_block,
  poisonable_inner, poisonable_lockable, from_poison_error,
}
use happylock.Poisonable.Methods.{poisonable_lock, poison_guard_drop, poisonable_unlock}
use happylock.Poisonable.Reading.{poisonable_read}
use happylock.Poisonable.Deref.{
  poison_guard_fmt, poison_ref_fmt, poison_guard_deref, get_mut, get_ref, poison_guard_as_ref,
  poison_error_as_ref, poison_error_as_mut,
}
use happylock.Tests.Simulation.{
  Sim, Program, load, store, assert, get_key, in_thread, catch_unwind, panics, panic_dropping,
  assert_holds, is_ok, passes, at,
}
use happylock.Tests.Unit.Poisoning.{
  foo, bar, PoisonMutex, new_mutex, new_rwlock, for_mode, unwrap, unwrap_err, drop_locked,
  lock_and_panic, is_poisoned_now,
}

-- The data behind an address are moved out.
abbrev take : ℕ → M (Shared Sim) ℕ
take a s = ok (s.world.values a) s

module _ (mutex : PoisonMutex) where
  -- `get_mut`, `into_inner`, and `into_inner` of a child.
  abbrev mutex_get_mut : Program (PoisonResult ℕ)
  mutex_get_mut = lift (poisonable_inner mutex mutex.inner.access)

  abbrev mutex_into_inner : Program (PoisonResult ℕ)
  mutex_into_inner = lift (poisonable_inner mutex (do a ← mutex.inner.access; take a))

  -- A thread that locks the mutex and panics.
  abbrev locked_and_panicked : Program (Unit {0})
  locked_and_panicked = lock_and_panic mutex (poisonable_lock write mutex)

abbrev poisonable_non_poisoned_get_mut_is_ok : Program (Unit {0})
poisonable_non_poisoned_get_mut_is_ok = do
  mutex ← new_mutex
  guard ← mutex_get_mut mutex
  assert (is_ok guard)
  a ← unwrap guard
  assert_holds a 42

abbrev poisonable_non_poisoned_get_mut_is_err : Program (Unit {0})
poisonable_non_poisoned_get_mut_is_err = do
  mutex ← new_mutex
  _ ← catch_unwind (locked_and_panicked mutex)
  guard ← mutex_get_mut mutex
  assert (not (is_ok guard))
  error ← unwrap_err guard
  assert_holds (get_ref error) 42

abbrev poisonable_unpoisoned_into_inner : Program (Unit {0})
poisonable_unpoisoned_into_inner = do
  mutex ← new_mutex
  r ← mutex_into_inner mutex
  v ← unwrap r
  assert (v == foo)

abbrev poisonable_poisoned_into_inner : Program (Unit {0})
poisonable_poisoned_into_inner = do
  mutex ← new_mutex
  panics (locked_and_panicked mutex)
  r ← mutex_into_inner mutex
  error ← unwrap_err r
  assert (into_inner error == foo)

abbrev poisonable_unpoisoned_into_child : Program (Unit {0})
poisonable_unpoisoned_into_child = do
  mutex ← new_mutex
  r ← lift (into_child mutex)
  child ← unwrap r
  v ← lift (do a ← child.access; take a)
  assert (v == foo)

abbrev poisonable_poisoned_into_child : Program (Unit {0})
poisonable_poisoned_into_child = do
  mutex ← new_mutex
  panics (locked_and_panicked mutex)
  r ← lift (into_child mutex)
  error ← unwrap_err r
  v ← lift (do a ← (into_inner error).access; take a)
  assert (v == foo)

abbrev poisonable_guard_as_ref : Program (Unit {0})
poisonable_guard_as_ref = do
  key ← get_key
  collection ← new_mutex
  guard ← poisonable_lock write collection key
  g ← unwrap guard
  assert_holds (mutex_ref_deref (poison_guard_as_ref g)) foo
  drop_locked collection false guard

-- `.to_string()` reads the data, and a string is its own text.
abbrev poisonable_display_works : Program (Unit {0})
poisonable_display_works = do
  key ← get_key
  mutex ← new_mutex
  r ← poisonable_lock write mutex key
  guard ← unwrap r
  text ← poison_guard_fmt (poison_ref_fmt (mutex_ref_fmt load)) guard
  assert (text == foo)
  poison_guard_drop mutex false guard

abbrev poisonable_guard_as_mut : Program (Unit {0})
poisonable_guard_as_mut = do
  key ← get_key
  mutex ← new_mutex
  guard1 ← poisonable_lock write mutex key
  g ← unwrap guard1
  store (mutex_ref_deref (poison_guard_as_ref g)) bar
  key ← poisonable_unlock mutex false g
  guard ← poisonable_lock write mutex key
  g ← unwrap guard
  assert_holds (poison_guard_deref mutex_ref_deref g) bar
  drop_locked mutex false guard

abbrev poisonable_get_ptrs : Program (Unit {0})
poisonable_get_ptrs = do
  poisonable ← new_mutex
  assert (length ((poisonable_lockable poisonable).get_ptrs []) == 1)
  elim (get_elem? ((poisonable_lockable poisonable).get_ptrs []) 0) [
    | none ↦ throw
    | some lock ↦ assert (lock.addr == poisonable.inner_lock.addr)
  ]

-- `.unwrap_or_else(|mut e| { **e.get_mut() = 1; ..clear_poison(); e.into_inner() })`, and the drop
-- of what it returns.
abbrev clear_poison_and_set :
    {G : Type 0} → (G → ℕ) → Poisonable Sim G ℕ → PoisonResult (PoisonGuard G) → Program (Unit {0})
clear_poison_and_set deref lock (Result.ok g) = poison_guard_drop lock false g
clear_poison_and_set deref lock (Result.err e) = do
  store (poison_guard_deref deref (get_mut e)) 1
  lift (poisonable_clear_poison lock)
  poison_guard_drop lock false (into_inner e)

abbrev poisonable_clear_poison_for_poisoned_mutex : Program (Unit {0})
poisonable_clear_poison_for_poisoned_mutex = do
  mutex ← new_mutex
  _ ← catch_unwind (
      in_thread (do
        key ← get_key
        r ← poisonable_lock write mutex key
        lock ← unwrap r
        panic_dropping (poison_guard_drop mutex true lock)))
  b ← is_poisoned_now mutex
  assert b
  key ← get_key
  r ← poisonable_lock write mutex key
  clear_poison_and_set mutex_ref_deref mutex r
  b ← is_poisoned_now mutex
  assert (not b)

abbrev poisonable_clear_poison_for_poisoned_rwlock : Program (Unit {0})
poisonable_clear_poison_for_poisoned_rwlock = do
  lock ← new_rwlock read
  _ ← catch_unwind (
      in_thread (do
        key ← get_key
        r ← poisonable_read lock key
        guard ← unwrap r
        handle_unwind (do assert_holds (poison_guard_deref read_ref_deref guard) 42; throw)
            (poison_guard_drop lock true guard)))
  b ← is_poisoned_now lock
  assert b
  key ← get_key
  r ← poisonable_lock write (for_mode write lock) key
  clear_poison_and_set write_ref_deref (for_mode write lock) r
  b ← is_poisoned_now lock
  assert (not b)

-- The error of `lock` after a panic, and the test of it.
abbrev with_lock_error :
    (PoisonMutex → PoisonError (PoisonGuard MutexRef) → Program (Unit {0})) → Program (Unit {0})
with_lock_error test = do
  mutex ← new_mutex
  _ ← catch_unwind (locked_and_panicked mutex)
  b ← is_poisoned_now mutex
  assert b
  key ← get_key
  r ← poisonable_lock write mutex key
  error ← unwrap_err r
  test mutex error

abbrev poisonable_error_as_ref : Program (Unit {0})
poisonable_error_as_ref = with_lock_error (λ mutex error. (do
  assert_holds (poison_guard_deref mutex_ref_deref (poison_error_as_ref error)) foo
  poison_guard_drop mutex false error.guard))

abbrev poisonable_error_as_mut : Program (Unit {0})
poisonable_error_as_mut = with_lock_error (λ mutex error. (do
  store (poison_guard_deref mutex_ref_deref (poison_error_as_mut error)) bar
  key ← poisonable_unlock mutex false (into_inner error)
  lift (poisonable_clear_poison mutex)
  r ← poisonable_lock write mutex key
  guard ← unwrap r
  assert_holds (poison_guard_deref mutex_ref_deref guard) bar
  poison_guard_drop mutex false guard))

-- `let TryLockPoisonableError::Poisoned(error) = error else { panic!() };`
abbrev unwrap_poisoned :
    {G : Type 0} → TryLockPoisonableError G → Program (PoisonError (PoisonGuard G))
unwrap_poisoned (poisoned e) = ret e
unwrap_poisoned (would_block key) = throw

abbrev poisonable_try_error_from_lock_error : Program (Unit {0})
poisonable_try_error_from_lock_error = with_lock_error (λ mutex error. (do
  error ← unwrap_poisoned (from_poison_error error)
  assert_holds (poison_guard_deref mutex_ref_deref (into_inner error)) foo
  poison_guard_drop mutex false error.guard))

abbrev holding_foo : ℕ → ℕ
holding_foo = at (λ a. 0) 1 foo

poisoned_tests :
    passes (at (λ a. 0) 1 42) poisonable_non_poisoned_get_mut_is_ok
      && passes (at (λ a. 0) 1 42) poisonable_non_poisoned_get_mut_is_err
      && passes holding_foo poisonable_unpoisoned_into_inner
      && passes holding_foo poisonable_poisoned_into_inner
      && passes holding_foo poisonable_unpoisoned_into_child
      && passes holding_foo poisonable_poisoned_into_child
      && passes holding_foo poisonable_guard_as_ref
      && passes holding_foo poisonable_display_works
      && passes holding_foo poisonable_guard_as_mut
      && passes (at (λ a. 0) 1 5) poisonable_get_ptrs
      && passes (λ a. 0) poisonable_clear_poison_for_poisoned_mutex
      && passes (λ a. 0) poisonable_clear_poison_for_poisoned_rwlock
      && passes holding_foo poisonable_error_as_ref
      && passes holding_foo poisonable_error_as_mut
      && passes holding_foo poisonable_try_error_from_lock_error
    ≡ true
unfolding get_key poison_guard_fmt poison_ref_fmt mutex_ref_fmt mutex_lockable mutex_lock
    rwlock_lockable rwlock_lock poisonable_new poisonable_is_poisoned poisonable_clear_poison
    into_inner poisonable_lock poison_guard_drop poisonable_read poison_guard_deref get_mut get_ref
    poison_guard_as_ref poison_error_as_ref poison_error_as_mut into_child poisonable_inner
    poisonable_lockable poisonable_unlock mutex_ref_deref read_ref_deref write_ref_deref
poisoned_tests = refl
