-- ===== src/Tests/Whole.antt =====
-- The theorems about tuples, `try_lock` with a guard, and whole collections, for two mutexes.
use happylock.Base.{ℕ, refl, List, [], ◌∷◌, ◌++◌, inl}
use happylock.Exec.{◌>>=◌}
use happylock.Key.{thread_key}
use happylock.Shared.{Shared}
use happylock.RawLock.{write}
use happylock.Lockable.{Lockable, many, pair}
use happylock.Lockable.Guarded.{IsGuarded, pair-IsGuarded}
use happylock.Mutex.{MutexRef, mutex_lock, mutex_lockable}
use happylock.Mutex.Contract.{mutex_lockable-IsGuarded}
use happylock.Collection.Utils.{
  sort_by_addr, get_locks, get_locks_unsorted, ordered_contains_duplicates,
}
use happylock.Collection.Access.{try_lock}
use happylock.Collection.Access.Trying.{TryReturns, unlock_if, try_lock-unlock}
use happylock.Collection.Access.Guards.{Returns}
use happylock.Collection.Sorted.{SortedCollection, ref_try_new, ref_new_unchecked}
use happylock.Collection.Sorted.RefMethods.{ref_lock, ref_unlock}
use happylock.Collection.Sorted.BoxedMethods.{boxed_lock, boxed_unlock}
use happylock.Collection.Mutexes.{vec_of, mutexes_lock-unlock}
use happylock.Tests.Demo.{Demo, own_of, start, demo_mutex, demo_mutex-IsRawMutex}
use happylock.Tests.Collections.{demo_held, leaf, leaf-IsRawLock, alive}

abbrev at_7 : Lockable (Shared Demo) MutexRef ℕ
at_7 = mutex_lockable demo_mutex 7

abbrev at_4 : Lockable (Shared Demo) MutexRef ℕ
at_4 = mutex_lockable demo_mutex 4

pair-IsGuarded_example : IsGuarded demo_held write ((7 ∷ []) ++ (4 ∷ [])) (pair at_7 at_4)
pair-IsGuarded_example =
    pair-IsGuarded demo_held write (7 ∷ []) (4 ∷ []) at_7 at_4
      (mutex_lockable-IsGuarded own_of demo_mutex 7 (demo_mutex-IsRawMutex 7))
      (mutex_lockable-IsGuarded own_of demo_mutex 4 (demo_mutex-IsRawMutex 4)) (refl, (refl, tt))

abbrev law_4 : IsGuarded demo_held write (4 ∷ []) at_4
law_4 = mutex_lockable-IsGuarded own_of demo_mutex 4 (demo_mutex-IsRawMutex 4)

try_lock-unlock_example : TryReturns demo_held (demo_held start) (
    (do
      r ← try_lock write (leaf 4) at_4 thread_key
      unlock_if demo_held write (4 ∷ []) (leaf 4) at_4 (leaf-IsRawLock 4) law_4 r)
      (alive, start))
try_lock-unlock_example =
    try_lock-unlock demo_held write (4 ∷ []) (leaf 4) at_4 (leaf-IsRawLock 4) law_4 thread_key alive
      start (refl, tt) refl

abbrev two_mutexes : SortedCollection (Shared Demo) (List MutexRef) (List ℕ)
two_mutexes = ref_new_unchecked (vec_of demo_mutex (7 ∷ 4 ∷ []))

mutexes_lock-unlock_example :
    Returns demo_held
      (demo_held start)
      ((do g ← ref_lock 1 two_mutexes thread_key; ref_unlock 1 two_mutexes g) (alive, start))
    × Returns demo_held
        (demo_held start)
        ((do g ← boxed_lock 1 two_mutexes thread_key; boxed_unlock 1 two_mutexes g) (alive, start))
unfolding ref_try_new ref_new_unchecked get_locks get_locks_unsorted many mutex_lock mutex_lockable
    ordered_contains_duplicates sort_by_addr
mutexes_lock-unlock_example =
    mutexes_lock-unlock own_of demo_mutex (7 ∷ 4 ∷ []) two_mutexes
      (demo_mutex-IsRawMutex 7, (demo_mutex-IsRawMutex 4, tt)) (inl refl) 1 thread_key alive start
      (refl, (refl, tt)) refl
