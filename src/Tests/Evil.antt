-- ===== src/Tests/Evil.antt =====
-- src/tests/evil_mutex.rs, evil_try_mutex.rs and evil_unlock_mutex.rs: mutexes that panic, in
-- collections. In Rust the addresses of the three mutexes come in any order.
use happylock.Base.{ℕ, ◌≡◌, refl, Bool, true, false, not, ◌&&◌, if◌then◌else◌}
use happylock.Exec.{ret, throw, ◌>>=◌, ◌>>◌}
use happylock.Key.{ThreadKey, borrowed}
use happylock.Shared.{Shared}
use happylock.Lockable.{Lockable, by_ref, pair}
use happylock.Mutex.{RawMutex, MutexRef, mutex_lock, mutex_lockable}
use happylock.Mutex.Methods.{mutex_scoped_try_lock}
use happylock.Collection.Access.{Result, LockGuard, lock_guard_drop}
use happylock.Collection.Utils.{
  ordered_lock, ordered_try_lock, unlock_all, sort_by_addr, get_locks_unsorted,
  ordered_contains_duplicates, attempt_to_recover, poison_all,
}
use happylock.Collection.Sorted.{boxed_new_unchecked, boxed_try_new, sorted_lockable}
use happylock.Collection.Sorted.BoxedMethods.{boxed_lock, boxed_try_lock}
use happylock.Collection.Retry.{retry_try_new, contains_duplicates}
use happylock.Collection.Retry.Methods.{retry_lock_with, retry_try_lock_with}
use happylock.Tests.Simulation.{
  Sim, Program, sim_mutex, assert, get_key, in_thread, catch_unwind, is_ok, passes,
}
use happylock.Tests.Unit.{with_unwrapped, Api, drop_result}
use happylock.Tests.Unit.Boxed
use happylock.Tests.Unit.Retrying

-- `EvilMutex` of evil_mutex.rs, and that of evil_try_mutex.rs.
abbrev evil_mutex : RawMutex Sim
evil_mutex = record { lock = λ a. throw; try_lock = sim_mutex.try_lock; unlock = λ a. throw }

abbrev evil_try_mutex : RawMutex Sim
evil_try_mutex = record { lock = sim_mutex.lock; try_lock = λ a. throw; unlock = sim_mutex.unlock }

-- `KindaEvilMutex` and `EvilMutex` of evil_unlock_mutex.rs.
abbrev kinda_evil_mutex : RawMutex Sim
kinda_evil_mutex = record {
  lock = sim_mutex.lock;
  try_lock = sim_mutex.try_lock;
  unlock = λ a. throw;
}

abbrev all_evil_mutex : RawMutex Sim
all_evil_mutex = record { lock = λ a. throw; try_lock = λ a. throw; unlock = λ a. throw }

abbrev Triple : Type 0 → Type 0
Triple A = A × (A × A)

-- What a thread does with a collection of the three: `_ = collection.lock(key);`, and the same
-- for `try_lock`, also with `.unwrap()` before the guard is used and dropped.
abbrev pub locks_it : {G D : Type 0} → Api G D → Program (Unit {0})
locks_it api = do key ← get_key; guard ← api.lock key; api.drop_guard guard

abbrev pub tries_it : {G D : Type 0} → Api G D → Program (Unit {0})
tries_it api = do key ← get_key; r ← api.try_lock key; drop_result api r

abbrev unwrap_and_drop :
    {G D : Type 0} → Api G D → Result (LockGuard G) ThreadKey → Program (Unit {0})
unwrap_and_drop api (Result.ok guard) = api.drop_guard guard
unwrap_and_drop api (Result.err key) = throw

abbrev unwraps_it : {G D : Type 0} → Api G D → Program (Unit {0})
unwraps_it api = do key ← get_key; r ← api.try_lock key; unwrap_and_drop api r

-- Whether a test passes, wherever its three locks lie.
abbrev pub anywhere : (ℕ → ℕ → ℕ → Program (Unit {0})) → Bool
anywhere test =
    passes (λ a. 0) (test 1 2 3)
    && passes (λ a. 0) (test 1 3 2)
    && passes (λ a. 0) (test 2 1 3)
    && passes (λ a. 0) (test 2 3 1)
    && passes (λ a. 0) (test 3 1 2)
    && passes (λ a. 0) (test 3 2 1)

-- `(&good, &evil, &useless)`
module _ (good evil : RawMutex Sim) (a b c : ℕ) where
  abbrev mutexes : Lockable (Shared Sim) (Triple MutexRef) (Triple ℕ)
  mutexes =
      pair (by_ref (mutex_lockable good a))
        (pair (by_ref (mutex_lockable evil b)) (by_ref (mutex_lockable sim_mutex c)))

  abbrev try_each : ThreadKey → RawMutex Sim → ℕ → Program Bool
  try_each key raw m = do
    r ← mutex_scoped_try_lock raw m (borrowed key) (λ _. ret (tt {0}))
    ret (is_ok r)

  -- The thread panics; then the first mutex can be locked or not, the evil one cannot, and the
  -- useless one can.
  abbrev evil_test : Bool → Program (Unit {0}) → Program (Unit {0})
  evil_test first_is_ok body = do
    key ← get_key
    r ← catch_unwind (in_thread body)
    assert (not r)
    x ← try_each key good a
    assert (if first_is_ok then x else not x)
    y ← try_each key evil b
    assert (not y)
    z ← try_each key sim_mutex c
    assert z

abbrev evil_mutex_boxed_mutexes : ℕ → ℕ → ℕ → Program (Unit {0})
evil_mutex_boxed_mutexes a b c = evil_test sim_mutex evil_mutex a b c true (
    with_unwrapped (boxed_try_new (mutexes sim_mutex evil_mutex a b c))
      (λ x. locks_it (Boxed.api x)))

abbrev evil_mutex_retrying_mutexes : ℕ → ℕ → ℕ → Program (Unit {0})
evil_mutex_retrying_mutexes a b c = evil_test sim_mutex evil_mutex a b c true (
    with_unwrapped (retry_try_new (mutexes sim_mutex evil_mutex a b c))
      (λ x. locks_it (Retrying.api x)))

abbrev evil_try_boxed_mutexes : ℕ → ℕ → ℕ → Program (Unit {0})
evil_try_boxed_mutexes a b c = evil_test sim_mutex evil_try_mutex a b c true (
    with_unwrapped (boxed_try_new (mutexes sim_mutex evil_try_mutex a b c))
      (λ x. unwraps_it (Boxed.api x)))

abbrev evil_try_retrying_mutexes : ℕ → ℕ → ℕ → Program (Unit {0})
evil_try_retrying_mutexes a b c = evil_test sim_mutex evil_try_mutex a b c true (
    with_unwrapped (retry_try_new (mutexes sim_mutex evil_try_mutex a b c))
      (λ x. tries_it (Retrying.api x)))

abbrev evil_unlock_boxed_mutexes : ℕ → ℕ → ℕ → Program (Unit {0})
evil_unlock_boxed_mutexes a b c = evil_test kinda_evil_mutex all_evil_mutex a b c false (
    with_unwrapped (boxed_try_new (mutexes kinda_evil_mutex all_evil_mutex a b c))
      (λ x. locks_it (Boxed.api x)))

abbrev evil_unlock_retrying_mutexes : ℕ → ℕ → ℕ → Program (Unit {0})
evil_unlock_retrying_mutexes a b c = evil_test kinda_evil_mutex all_evil_mutex a b c false (
    with_unwrapped (retry_try_new (mutexes kinda_evil_mutex all_evil_mutex a b c))
      (λ x. locks_it (Retrying.api x)))

-- The tests pass wherever the mutexes lie, but for a boxed collection whose clean-up panics: its
-- test passes with the mutexes in the order in which it makes them.
evil_tests :
    anywhere evil_mutex_boxed_mutexes
      && anywhere evil_mutex_retrying_mutexes
      && anywhere evil_try_boxed_mutexes
      && anywhere evil_try_retrying_mutexes
      && passes (λ a. 0) (evil_unlock_boxed_mutexes 1 2 3)
      && anywhere evil_unlock_retrying_mutexes
    ≡ true
unfolding get_key pair by_ref mutex_lock mutex_lockable mutex_scoped_try_lock lock_guard_drop
    ordered_lock ordered_try_lock unlock_all sort_by_addr get_locks_unsorted poison_all
    ordered_contains_duplicates attempt_to_recover boxed_new_unchecked boxed_try_new sorted_lockable
    boxed_lock boxed_try_lock retry_try_new contains_duplicates retry_lock_with retry_try_lock_with
evil_tests = refl

-- It fails if the useless mutex lies in front: the clean-up unlocks that mutex, panics at the next
-- one, and then poisons both.
evil_unlock_test_fails : passes (λ a. 0) (evil_unlock_boxed_mutexes 2 3 1) ≡ false
unfolding get_key pair by_ref mutex_lock mutex_lockable mutex_scoped_try_lock lock_guard_drop
    ordered_lock ordered_try_lock unlock_all sort_by_addr get_locks_unsorted poison_all
    ordered_contains_duplicates attempt_to_recover boxed_new_unchecked boxed_try_new sorted_lockable
    boxed_lock boxed_try_lock retry_try_new contains_duplicates retry_lock_with retry_try_lock_with
evil_unlock_test_fails = refl
