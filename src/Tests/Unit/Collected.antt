-- ===== src/Tests/Unit/Collected.antt =====
-- Unit tests of src/poisonable.rs with a `Poisonable` in a `LockCollection`.
use happylock.Base.{ℕ, ◌≡◌, refl, true, false, ◌&&◌}
use happylock.Exec.{ret, ◌>>=◌, ◌>>◌}
use happylock.Shared.{Shared}
use happylock.RawLock.{read}
use happylock.Mutex.{mutex_lock, mutex_lockable}
use happylock.Mutex.Deref.{mutex_ref_deref, mutex_ref_as_ref}
use happylock.RwLock.{rwlock_lock, rwlock_lockable}
use happylock.RwLock.Deref.{read_ref_deref}
use happylock.Collection.Utils.{ordered_lock, unlock_all, sort_by_addr}
use happylock.Collection.Access.{lock_guard_drop}
use happylock.Collection.Access.Deref.{lock_guard_deref, lock_guard_as_ref}
use happylock.Collection.Sorted.{SortedCollection, boxed_new_unchecked, sorted_lockable}
use happylock.Collection.Sorted.BoxedMethods.{boxed_lock, boxed_unlock, boxed_read}
use happylock.Poisonable.{Poisonable, PoisonRef, PoisonResult, poisonable_lockable, poisonable_new}
use happylock.Poisonable.Deref.{poison_ref_deref, get_ref, poison_ref_as_ref}
use happylock.Tests.Simulation.{
  Sim, Program, store, get_key, in_thread, panics, panic_dropping, assert_holds, passes, at,
}
use happylock.Tests.Unit.{Api}
use happylock.Tests.Unit.Boxed.{api, reading}
use happylock.Tests.Unit.Poisoning.{foo, bar, new_mutex, new_rwlock, unwrap, unwrap_err}

-- `LockCollection<Poisonable<..>>`
abbrev Collected : Type 0 → Type 0
Collected G = SortedCollection (Shared Sim) (PoisonResult (PoisonRef G)) (PoisonResult ℕ)

-- `LockCollection::new(Poisonable::new(..))`
abbrev new_collection : {G : Type 0} → Program (Poisonable Sim G ℕ) → Program (Collected G)
new_collection new_poisonable = do
  p ← new_poisonable
  ret (boxed_new_unchecked (poisonable_lockable p))

module _ {G : Type 0} (deref : G → ℕ) (collection : Collected G)
    (methods : Api (PoisonResult (PoisonRef G)) (PoisonResult ℕ)) where
  -- The body of `locking_poisoned_mutex_returns_error_in_collection`, and of the same for reading.
  abbrev locking_poisoned_returns_error : Program (Unit {0})
  locking_poisoned_returns_error = do
    key ← get_key
    panics (
        in_thread (do
          key ← get_key
          guard1 ← methods.lock key
          guard ← unwrap (lock_guard_deref guard1)
          assert_holds (deref (poison_ref_deref guard)) 42
          panic_dropping (lock_guard_drop (sorted_lockable collection) true guard1)))
    guard ← methods.lock key
    error ← unwrap_err (lock_guard_deref guard)
    assert_holds (deref (poison_ref_deref (get_ref error))) 42
    methods.drop_guard guard

abbrev poisonable_locking_poisoned_mutex_returns_error_in_collection : Program (Unit {0})
poisonable_locking_poisoned_mutex_returns_error_in_collection = do
  mutex ← new_collection new_mutex
  locking_poisoned_returns_error mutex_ref_deref mutex (api mutex)

abbrev poisonable_locking_poisoned_rwlock_returns_error_in_collection : Program (Unit {0})
poisonable_locking_poisoned_rwlock_returns_error_in_collection = do
  mutex ← new_collection (new_rwlock read)
  locking_poisoned_returns_error read_ref_deref mutex (reading mutex)

abbrev poisonable_ref_as_ref : Program (Unit {0})
poisonable_ref_as_ref = do
  key ← get_key
  collection ← new_collection new_mutex
  guard ← boxed_lock 9 collection key
  r ← unwrap (lock_guard_as_ref guard)
  assert_holds (mutex_ref_deref (poison_ref_as_ref r)) foo
  lock_guard_drop (sorted_lockable collection) false guard

abbrev poisonable_ref_as_mut : Program (Unit {0})
poisonable_ref_as_mut = do
  key ← get_key
  collection ← new_collection new_mutex
  guard1 ← boxed_lock 9 collection key
  r ← unwrap (lock_guard_as_ref guard1)
  store (mutex_ref_deref (poison_ref_as_ref r)) bar
  key ← boxed_unlock 9 collection guard1
  guard ← boxed_lock 9 collection key
  r ← unwrap (lock_guard_deref guard)
  assert_holds (mutex_ref_as_ref (poison_ref_as_ref r)) bar
  lock_guard_drop (sorted_lockable collection) false guard

abbrev poisonable_deref_mut_in_collection : Program (Unit {0})
poisonable_deref_mut_in_collection = do
  key ← get_key
  collection ← new_collection new_mutex
  guard1 ← boxed_lock 9 collection key
  r ← unwrap (lock_guard_as_ref guard1)
  assert_holds (mutex_ref_deref (poison_ref_deref r)) 42
  store (mutex_ref_deref (poison_ref_deref r)) 24
  key ← boxed_unlock 9 collection guard1
  guard ← boxed_lock 9 collection key
  lock_guard_drop (sorted_lockable collection) false guard

collected_tests :
    passes (at (λ a. 0) 1 42) poisonable_locking_poisoned_mutex_returns_error_in_collection
      && passes (at (λ a. 0) 1 42) poisonable_locking_poisoned_rwlock_returns_error_in_collection
      && passes (at (λ a. 0) 1 foo) poisonable_ref_as_ref
      && passes (at (λ a. 0) 1 foo) poisonable_ref_as_mut
      && passes (at (λ a. 0) 1 42) poisonable_deref_mut_in_collection
    ≡ true
unfolding get_key mutex_lockable mutex_lock rwlock_lockable rwlock_lock poisonable_new
    poisonable_lockable mutex_ref_deref mutex_ref_as_ref read_ref_deref ordered_lock unlock_all
    sort_by_addr lock_guard_drop lock_guard_deref lock_guard_as_ref boxed_new_unchecked
    sorted_lockable boxed_lock boxed_unlock boxed_read poison_ref_deref get_ref poison_ref_as_ref
collected_tests = refl
