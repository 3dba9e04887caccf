-- ===== src/Tests/Unit.antt =====
-- Unit tests of src/collection/: the tests of one name have the same body in each file, for the
-- methods of its collection. The locks of a test lie at the addresses 1 and 2.
pub mod Boxed
pub mod Retrying
pub mod ByRef
pub mod Owned
pub mod Poisoning
pub mod Poisoned
pub mod Collected
pub mod Locks
pub mod RwLocks
pub mod Lockables
pub mod Making
pub mod Nesting
pub mod Contents
pub mod Guarding
use happylock.Base.{
  ℕ, ◌+◌, Bool, true, false, not, Option, none, some, List, [], ◌∷◌, map, ◌==◌, if◌then◌else◌,
  get_elem?,
}
use happylock.Exec.{M, ret, throw, ◌>>=◌, ◌>>◌, lift}
use happylock.Key.{ThreadKey, thread_key, Keyable, owned, borrowed}
use happylock.Shared.{Shared}
use happylock.RawLock.{Mode, write, read}
use happylock.Lockable.{Lockable, many, pair, by_ref}
use happylock.Mutex.{MutexRef, mutex_lockable}
use happylock.Mutex.Methods.{mutex_lock_with, mutex_try_lock_with}
use happylock.RwLock.{RwLockRef, rwlock_lockable}
use happylock.RwLock.Methods.{rwlock_lock_with, rwlock_try_lock_with}
use happylock.Collection.Access.{Result, LockGuard}
use happylock.Tests.Simulation.{
  Sim, Program, sim_mutex, sim_rwlock, is_locked, load, store, assert, get_key, in_thread, is_ok,
  at,
}

-- `[Mutex::new(..), Mutex::new(..)]`, and two `RwLock`s to be locked for writing or for reading.
abbrev pub two_mutexes : Lockable (Shared Sim) (List MutexRef) (List ℕ)
two_mutexes = many (mutex_lockable sim_mutex 1 ∷ mutex_lockable sim_mutex 2 ∷ [])

abbrev pub two_rwlocks : Mode → Lockable (Shared Sim) (List RwLockRef) (List ℕ)
two_rwlocks m = many (rwlock_lockable sim_rwlock m 1 ∷ rwlock_lockable sim_rwlock m 2 ∷ [])

-- `(&lock1, &lock2)`
abbrev pub mutex_tuple : Lockable (Shared Sim) (MutexRef × MutexRef) (ℕ × ℕ)
mutex_tuple = pair (by_ref (mutex_lockable sim_mutex 1)) (by_ref (mutex_lockable sim_mutex 2))

abbrev pub rwlock_tuple : Mode → Lockable (Shared Sim) (RwLockRef × RwLockRef) (ℕ × ℕ)
rwlock_tuple m =
    pair (by_ref (rwlock_lockable sim_rwlock m 1)) (by_ref (rwlock_lockable sim_rwlock m 2))

-- `.unwrap()` of a collection, and then the test.
abbrev pub with_unwrapped : {C : Type 0} → Option C → (C → Program (Unit {0})) → Program (Unit {0})
with_unwrapped c test = elim c [ none ↦ throw | some x ↦ test x ]

-- The data that the two locks are made around.
abbrev pub holding : ℕ → ℕ → ℕ → ℕ
holding v w = at (at (λ a. 0) 1 v) 2 w

-- The methods of a collection for one mode.
pub record Api (G D : Type 0) : Type 1 where
  pub lock : ThreadKey → Program (LockGuard G)
  pub try_lock : ThreadKey → Program (Result (LockGuard G) ThreadKey)
  pub unlock : LockGuard G → Program ThreadKey
  pub drop_guard : LockGuard G → Program (Unit {0})
  pub scoped_lock : Keyable → (D → Program ℕ) → Program ℕ
  pub scoped_try_lock : Keyable → (D → Program (Unit {0})) → Program (Result (Unit {0}) Keyable)

-- The data behind the reference with an index, which panics out of range.
abbrev pub load_at : List ℕ → ℕ → Program ℕ
load_at data_ i = elim (get_elem? data_ i) [ none ↦ throw | some a ↦ load a ]

abbrev pub store_at : List ℕ → ℕ → ℕ → Program (Unit {0})
store_at data_ i v = elim (get_elem? data_ i) [ none ↦ throw | some a ↦ store a v ]

-- The end of a scope drops a guard that is in a result.
abbrev pub drop_result :
    {G D : Type 0} → Api G D → Result (LockGuard G) ThreadKey → Program (Unit {0})
drop_result api (Result.ok g) = api.drop_guard g
drop_result api (Result.err key) = ret tt

module _ {G D G' D' : Type 0} (held : Api G D) (tried : Api G' D') where
  -- `scoped_try_lock_can_fail` and `scoped_try_read_can_fail`
  abbrev pub scoped_try_can_fail : Program (Unit {0})
  scoped_try_can_fail = do
    key ← get_key
    guard ← held.lock key
    in_thread (do
      key ← get_key
      r ← tried.scoped_try_lock (owned key) (λ _. ret tt)
      assert (not (is_ok r)))
    held.drop_guard guard

  -- One thread tries to lock, and then, while it holds what it got, another one.
  abbrev pub try_both : Bool → Program (Unit {0})
  try_both expected = do
    key ← get_key
    guard ← held.try_lock key
    in_thread (do
      key ← get_key
      guard ← tried.try_lock key
      assert (if expected then is_ok guard else not (is_ok guard))
      drop_result tried guard)
    assert (is_ok guard)
    drop_result held guard

module _ {G D : Type 0} (api : Api G D) where
  -- `try_lock_fails_with_one_exclusive_lock`
  abbrev pub try_fails_with_mutex : Program (Unit {0})
  try_fails_with_mutex = do
    key ← get_key
    guard ← mutex_try_lock_with sim_mutex 2 key
    in_thread (do key ← get_key; guard ← api.try_lock key; assert (not (is_ok guard)))
    assert (is_ok guard)

  -- `try_read_fails_with_one_exclusive_lock`
  abbrev pub try_fails_with_rwlock : Program (Unit {0})
  try_fails_with_rwlock = do
    key ← get_key
    guard ← rwlock_try_lock_with sim_rwlock write 2 key
    in_thread (do key ← get_key; guard ← api.try_lock key; assert (not (is_ok guard)))
    assert (is_ok guard)

  -- Another thread has locked the second mutex or read-write lock, and forgotten the guard.
  abbrev pub try_fails_for_forgotten_mutex : Program (Unit {0})
  try_fails_for_forgotten_mutex = do
    key ← get_key
    in_thread
        (do key ← get_key; guard ← mutex_lock_with sim_mutex 2 key; v ← load 2; assert (v == 42))
    guard ← api.try_lock key
    assert (not (is_ok guard))

  abbrev pub try_fails_for_forgotten_rwlock : Program (Unit {0})
  try_fails_for_forgotten_rwlock = do
    key ← get_key
    in_thread (do
      key ← get_key
      guard ← rwlock_lock_with sim_rwlock write 2 key
      v ← load 2
      assert (v == 42))
    guard ← api.try_lock key
    assert (not (is_ok guard))

  -- `unlock_collection_works`, with what is tried with the key that comes back.
  abbrev pub unlock_works :
      {R : Type 0} → (ThreadKey → Program (Result R ThreadKey)) → Program (Unit {0})
  unlock_works again = do
    key ← get_key
    guard ← api.lock key
    key ← api.unlock guard
    r ← again key
    assert (is_ok r)

-- `scoped_read_sees_changes`
abbrev pub sees_changes : {G : Type 0} → Api G (List ℕ) → Api G (List ℕ) → Program (Unit {0})
sees_changes writing reading = do
  key ← get_key
  _ ← writing.scoped_lock (borrowed key) (λ guard. (do store_at guard 0 128; ret 0))
  sum ← reading.scoped_lock (borrowed key) (λ guard. (do
    a ← load_at guard 0
    assert (a == 128)
    b ← load_at guard 1
    assert (b == 42)
    ret (a + b)))
  assert (sum == 128 + 42)

-- The data of a guard for two locks, by the references in it.
module _ {X D : Type 0} (deref : X → ℕ) (api : Api (List X) D) where
  abbrev guards_24_42 : LockGuard (List X) → Program (Unit {0})
  guards_24_42 guard = do
    a ← load_at (map deref guard.guard) 0
    assert (a == 24)
    b ← load_at (map deref guard.guard) 1
    assert (b == 42)

  abbrev guarded : Result (LockGuard (List X)) ThreadKey → Program (Unit {0})
  guarded (Result.ok guard) = do guards_24_42 guard; api.drop_guard guard
  guarded (Result.err key) = throw

  -- `try_lock_succeeds_for_unlocked_collection` and the same for reading.
  abbrev pub try_succeeds : Program (Unit {0})
  try_succeeds = do key ← get_key; guard ← api.try_lock key; guarded guard

  -- `can_read_twice_on_different_threads`: the guard of the other thread is forgotten.
  abbrev pub can_read_twice : Program (Unit {0})
  can_read_twice = do
    key ← get_key
    in_thread (do key ← get_key; guard ← api.lock key; guards_24_42 guard)
    guard ← api.try_lock key
    guarded guard

module _ {G D G' D' : Type 0} (held : Api G D) (tried : Api G' D') where
  -- Another thread has locked the collection, and forgotten the guard.
  abbrev pub try_fails_on_locked : Program (Unit {0})
  try_fails_on_locked = do
    key ← get_key
    in_thread (do key ← get_key; guard ← held.lock key; ret tt)
    r ← tried.try_lock key
    assert (not (is_ok r))

-- `locks_all_inner_mutexes` and `locks_all_inner_rwlocks`
abbrev pub locks_all : {G D : Type 0} → Api G D → Program (Unit {0})
locks_all api = do
  key ← get_key
  guard ← api.lock key
  first ← is_locked 1
  assert first
  second ← is_locked 2
  assert second
  api.drop_guard guard
