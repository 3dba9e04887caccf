-- ===== src/Tests/Unit/Poisoning.antt =====
-- Unit tests of src/poisonable.rs that lock. The lock of a test lies at the address 1, and the flag
-- of the `Poisonable` around it at the address 3. The strings of the tests are told apart by
-- numbers.
use happylock.Base.{ℕ, ◌≡◌, refl, Bool, true, false, not, ◌&&◌}
use happylock.Exec.{ret, throw, ◌>>=◌, ◌>>◌, lift}
use happylock.Key.{ThreadKey, owned}
use happylock.RawLock.{Mode, write, read}
use happylock.Mutex.{MutexRef, mutex_lock, mutex_lockable}
use happylock.RwLock.{RwLockRef, rwlock_lock, rwlock_lockable}
use happylock.Collection.Access.{Result}
use happylock.Poisonable.{
  Poisonable, PoisonGuard, PoisonResult, poisonable_new, poisonable_is_poisoned,
  poisonable_clear_poison, into_inner,
}
use happylock.Poisonable.Methods.{
  poisonable_lock, poisonable_scoped, poisonable_scoped_try, poison_guard_drop,
}
use happylock.Poisonable.Reading.{poisonable_scoped_read, poisonable_scoped_try_read}
use happylock.Tests.Simulation.{
  Sim, Program, sim_mutex, sim_rwlock, store, assert, get_key, in_thread, catch_unwind,
  panic_dropping, is_ok, assert_holds, passes, at,
}

abbrev pub foo : ℕ
foo = 1

abbrev pub bar : ℕ
bar = 2

-- `Poisonable::new(Mutex::new(..))`, and the same around an `RwLock`, to be locked in a mode.
abbrev pub PoisonMutex : Type 0
PoisonMutex = Poisonable Sim MutexRef ℕ

abbrev pub PoisonRwLock : Type 0
PoisonRwLock = Poisonable Sim RwLockRef ℕ

abbrev pub new_mutex : Program PoisonMutex
new_mutex = lift (poisonable_new (mutex_lock sim_mutex 1) (mutex_lockable sim_mutex 1) 3)

abbrev pub new_rwlock : Mode → Program PoisonRwLock
new_rwlock m = lift (poisonable_new (rwlock_lock sim_rwlock 1) (rwlock_lockable sim_rwlock m 1) 3)

-- The same `Poisonable`, with the parts of its lock for a mode.
abbrev pub for_mode : Mode → PoisonRwLock → PoisonRwLock
for_mode m p = record p { inner = rwlock_lockable sim_rwlock m 1 }

-- `.unwrap()` and `.unwrap_err()`
abbrev pub unwrap {ℓ κ} : {A : Type ℓ} {E : Type κ} → Result A E → Program A
unwrap (Result.ok a) = ret a
unwrap (Result.err e) = throw

abbrev pub unwrap_err {ℓ κ} : {A : Type ℓ} {E : Type κ} → Result A E → Program E
unwrap_err (Result.ok a) = throw
unwrap_err (Result.err e) = ret e

-- The drop of what `lock` or `read` returned.
abbrev pub drop_locked :
    {G D : Type 0} → Poisonable Sim G D → Bool → PoisonResult (PoisonGuard G) → Program (Unit {0})
drop_locked p panicking (Result.ok g) = poison_guard_drop p panicking g
drop_locked p panicking (Result.err e) = poison_guard_drop p panicking e.guard

-- What `lock` or `read` returns to a thread that panics then.
abbrev pub lock_and_panic :
    {G D : Type 0}
    → Poisonable Sim G D
    → (ThreadKey → Program (PoisonResult (PoisonGuard G)))
    → Program (Unit {0})
lock_and_panic p locking = do
  key ← get_key
  guard ← locking key
  panic_dropping (drop_locked p true guard)

abbrev pub is_poisoned_now : {G D : Type 0} → Poisonable Sim G D → Program Bool
is_poisoned_now p = lift (poisonable_is_poisoned p)

-- The tests of one body, for `scoped_lock` of a mutex and `scoped_read` of a read-write lock.
module _ {G : Type 0} (p : Poisonable Sim G ℕ)
    (scoped_access : ThreadKey → (PoisonResult ℕ → Program (Unit {0})) → Program (Unit {0})) where
  -- `let Err(error) = num else { panic!() };`, and the flag cleared.
  abbrev pub clears_poison : ℕ → PoisonResult ℕ → Program (Unit {0})
  clears_poison expected num = do
    error ← unwrap_err num
    lift (poisonable_clear_poison p)
    assert_holds (into_inner error) expected

  abbrev pub scoped_can_poison : (ℕ → Program (Unit {0})) → ℕ → Program (Unit {0})
  scoped_can_poison first expected = do
    key ← get_key
    r ← catch_unwind (scoped_access key (λ num. (do a ← unwrap num; first a; throw)))
    assert (not r)
    key ← get_key
    b ← is_poisoned_now p
    assert b
    scoped_access key (clears_poison expected)
    b ← is_poisoned_now p
    assert (not b)

abbrev poisonable_scoped_lock_can_poison : Program (Unit {0})
poisonable_scoped_lock_can_poison = do
  mutex ← new_mutex
  scoped_can_poison mutex (λ key f. poisonable_scoped write mutex (owned key) f) (λ a. store a 56)
      56

abbrev poisonable_scoped_read_can_poison : Program (Unit {0})
poisonable_scoped_read_can_poison = do
  mutex ← new_rwlock read
  scoped_can_poison mutex (λ key f. poisonable_scoped_read mutex (owned key) f)
      (λ a. assert_holds a 42) 42

abbrev poisonable_scoped_try_lock_can_fail : Program (Unit {0})
poisonable_scoped_try_lock_can_fail = do
  key ← get_key
  mutex ← new_mutex
  guard ← poisonable_lock write mutex key
  in_thread (do
    key ← get_key
    r ← poisonable_scoped_try write mutex (owned key) (λ _. ret (tt {0}))
    assert (not (is_ok r)))
  drop_locked mutex false guard

abbrev poisonable_scoped_try_read_can_fail : Program (Unit {0})
poisonable_scoped_try_read_can_fail = do
  key ← get_key
  rwlock ← new_rwlock write
  guard ← poisonable_lock write rwlock key
  in_thread (do
    key ← get_key
    r ← poisonable_scoped_try_read (for_mode read rwlock) (owned key) (λ _. ret (tt {0}))
    assert (not (is_ok r)))
  drop_locked rwlock false guard

abbrev poisonable_scoped_try_lock_can_succeed : Program (Unit {0})
poisonable_scoped_try_lock_can_succeed = do
  rwlock ← new_rwlock write
  in_thread (do
    key ← get_key
    r ←
        poisonable_scoped_try write rwlock (owned key)
          (λ guard. (do a ← unwrap guard; assert_holds a 42))
    assert (is_ok r))

abbrev poisonable_scoped_try_read_can_succeed : Program (Unit {0})
poisonable_scoped_try_read_can_succeed = do
  rwlock ← new_rwlock read
  in_thread (do
    key ← get_key
    r ←
        poisonable_scoped_try_read rwlock (owned key)
          (λ guard. (do a ← unwrap guard; assert_holds a 42))
    assert (is_ok r))

abbrev poisonable_new_poisonable_is_not_poisoned : Program (Unit {0})
poisonable_new_poisonable_is_not_poisoned = do
  mutex ← new_mutex
  b ← is_poisoned_now mutex
  assert (not b)

poisoning_tests :
    passes (at (λ a. 0) 1 42) poisonable_scoped_lock_can_poison
      && passes (at (λ a. 0) 1 42) poisonable_scoped_read_can_poison
      && passes (at (λ a. 0) 1 42) poisonable_scoped_try_lock_can_fail
      && passes (at (λ a. 0) 1 42) poisonable_scoped_try_read_can_fail
      && passes (at (λ a. 0) 1 42) poisonable_scoped_try_lock_can_succeed
      && passes (at (λ a. 0) 1 42) poisonable_scoped_try_read_can_succeed
      && passes (at (λ a. 0) 1 42) poisonable_new_poisonable_is_not_poisoned
    ≡ true
unfolding get_key mutex_lockable mutex_lock rwlock_lockable rwlock_lock poisonable_new
    poisonable_is_poisoned poisonable_clear_poison into_inner poisonable_lock poisonable_scoped
    poisonable_scoped_try poison_guard_drop poisonable_scoped_read poisonable_scoped_try_read
poisoning_tests = refl
