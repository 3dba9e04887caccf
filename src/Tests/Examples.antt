-- ===== src/Tests/Examples.antt =====
-- examples/basic.rs, double_mutex.rs and fibonacci.rs, with what they print, for threads that run
-- one after the other.
use happylock.Base.{ℕ, zero, suc, ◌+◌, ◌-◌, ◌≡◌, refl, true, false, List, [], ◌∷◌, map, ◌&&◌, ◌==◌}
use happylock.Exec.{ret, ◌>>=◌, ◌>>◌}
use happylock.Shared.{Shared}
use happylock.Lockable.{Lockable, many, pair, by_ref}
use happylock.Mutex.{MutexRef, mutex_lock, mutex_lockable}
use happylock.Mutex.Methods.{mutex_lock_with}
use happylock.Mutex.Deref.{mutex_ref_deref, mutex_guard_deref, mutex_guard_drop}
use happylock.Collection.Access.{LockGuard, lock_guard_drop}
use happylock.Collection.Access.Deref.{lock_guard_deref}
use happylock.Collection.Utils.{
  ordered_lock, unlock_all, sort_by_addr, get_locks, get_locks_unsorted,
}
use happylock.Collection.Sorted.{ref_new_unchecked, boxed_new_unchecked, sorted_lockable}
use happylock.Collection.Sorted.RefMethods.{ref_lock}
use happylock.Collection.Sorted.BoxedMethods.{boxed_lock}
use happylock.Collection.Retry.Methods.{retry_lock_with}
use happylock.Tests.Simulation.{
  Sim, Program, sim_mutex, load, store, assert, get_key, in_thread, catch_unwind, passes,
}
use happylock.Tests.Unit.{holding, load_at, store_at}

-- `N` threads, which are joined; their results are not looked at.
abbrev threads : ℕ → Program (Unit {0}) → Program (Unit {0})
threads zero th = ret tt
threads (suc n) th = do r ← catch_unwind (in_thread th); threads n th

abbrev basic_thread : Program (Unit {0})
basic_thread = do
  key ← get_key
  data_ ← mutex_lock_with sim_mutex 1 key
  v ← load (mutex_guard_deref data_)
  store (mutex_guard_deref data_) (v + 1)
  mutex_guard_drop sim_mutex false data_

abbrev basic_main : Program ℕ
basic_main = do
  threads 10 basic_thread
  key ← get_key
  data_ ← mutex_lock_with sim_mutex 1 key
  printed ← load (mutex_guard_deref data_)
  mutex_guard_drop sim_mutex false data_
  ret printed

-- `(Mutex<i32>, Mutex<String>)`: the string is the number that it shows.
abbrev double_data : Lockable (Shared Sim) (MutexRef × MutexRef) (ℕ × ℕ)
double_data = by_ref (pair (mutex_lockable sim_mutex 1) (mutex_lockable sim_mutex 2))

abbrev double_thread : Program (Unit {0})
double_thread = do
  let lock = ref_new_unchecked double_data
  key ← get_key
  guard ← ref_lock 9 lock key
  v ← load (mutex_ref_deref (lock_guard_deref guard).0)
  store (mutex_ref_deref (lock_guard_deref guard).1) (100 - v)
  v ← load (mutex_ref_deref (lock_guard_deref guard).0)
  store (mutex_ref_deref (lock_guard_deref guard).0) (v + 1)
  lock_guard_drop (sorted_lockable lock) false guard

abbrev double_main : Program (ℕ × ℕ)
double_main = do
  let lock = ref_new_unchecked double_data
  threads 10 double_thread
  key ← get_key
  data_ ← ref_lock 9 lock key
  first ← load (mutex_ref_deref (lock_guard_deref data_).0)
  second ← load (mutex_ref_deref (lock_guard_deref data_).1)
  lock_guard_drop (sorted_lockable lock) false data_
  ret (first, second)

abbrev fibonacci_data : Lockable (Shared Sim) (List MutexRef) (List ℕ)
fibonacci_data = by_ref (many (mutex_lockable sim_mutex 1 ∷ mutex_lockable sim_mutex 2 ∷ []))

abbrev refs : LockGuard (List MutexRef) → List ℕ
refs guard = map mutex_ref_deref (lock_guard_deref guard)

abbrev fibonacci_thread : Program (Unit {0})
fibonacci_thread = do
  key ← get_key
  guard ← retry_lock_with 9 1 fibonacci_data key
  x ← load_at (refs guard) 1
  y ← load_at (refs guard) 0
  store_at (refs guard) 1 (x + y)
  store_at (refs guard) 0 x
  lock_guard_drop fibonacci_data false guard

abbrev fibonacci_main : ℕ → Program (ℕ × ℕ)
fibonacci_main n = do
  let collection = boxed_new_unchecked fibonacci_data
  threads n fibonacci_thread
  key ← get_key
  data_ ← boxed_lock 9 collection key
  first ← load_at (refs data_) 0
  second ← load_at (refs data_) 1
  lock_guard_drop (sorted_lockable collection) false data_
  ret (first, second)

-- The last printed numbers fit into an `i32`: the 36th and the 37th Fibonacci number.
examples_print :
    passes (holding 0 0) (do x ← basic_main; assert (x == 10))
      && passes (holding 0 0) (do x ← double_main; assert (x.0 == 10 && x.1 == 91))
      && passes
          (holding 0 1)
          (do x ← fibonacci_main 36; assert (x.0 == 14930352 && x.1 == 24157817))
    ≡ true
unfolding get_key many pair by_ref mutex_lock mutex_lockable mutex_lock_with mutex_ref_deref
    mutex_guard_deref mutex_guard_drop lock_guard_drop lock_guard_deref ordered_lock unlock_all
    sort_by_addr get_locks get_locks_unsorted ref_new_unchecked boxed_new_unchecked sorted_lockable
    ref_lock boxed_lock retry_lock_with
examples_print = refl
