-- ===== src/Tests/Collections.antt =====
-- The theorems about collections, for mutexes at 7 and 4, and one at 9 that others have taken.
use happylock.Base.{ℕ, refl, true, false, some, List, [], ◌∷◌}
use happylock.Exec.{ret}
use happylock.Key.{KeyCell, thread_key, owned, borrowed}
use happylock.Shared.{Shared}
use happylock.RawLock.{RawLock, write}
use happylock.RawLock.Holding.{claim}
use happylock.RawLock.Contract.{Holding, IsRawLock, Locks, TryLocks, feet}
use happylock.RawLock.Leaf.{mine}
use happylock.Mutex.{MutexRef, mutex_lock, mutex_lockable}
use happylock.Mutex.Contract.{mutex_lock-IsRawLock}
use happylock.Lockable.{Lockable, many}
use happylock.Collection.Utils.{ordered_lock, ordered_try_lock, get_locks_unsorted}
use happylock.Collection.Utils.Locking.{ordered_lock-Locks}
use happylock.Collection.Utils.Trying.{ordered_try_lock-TryLocks}
use happylock.Collection.Access.{scoped, scoped_try}
use happylock.Collection.Access.Scoped.{Ends, TryEnds, scoped-Ends, scoped_try-TryEnds}
use happylock.Collection.Sorted.{SortedCollection, sorted_raw, owned_raw}
use happylock.Collection.Retry.{retry_try_lock}
use happylock.Collection.Contract.{
  sorted_raw-IsRawLock, owned_raw-IsRawLock, retry_try_lock-TryLocks,
}
use happylock.Tests.Demo.{Demo, own_of, demo_mutex, demo_mutex-IsRawMutex, start}

abbrev pub demo_held : Shared Demo → Holding
demo_held = mine own_of

abbrev pub demo_foot : RawLock (Shared Demo) → List ℕ
demo_foot l = l.addr ∷ []

abbrev pub leaf : ℕ → RawLock (Shared Demo)
leaf = mutex_lock demo_mutex

abbrev pub two_free : List (RawLock (Shared Demo))
two_free = leaf 7 ∷ leaf 4 ∷ []

abbrev with_busy : List (RawLock (Shared Demo))
with_busy = leaf 7 ∷ leaf 9 ∷ []

abbrev two_mutexes : Lockable (Shared Demo) (List MutexRef) (List ℕ)
two_mutexes = many (mutex_lockable demo_mutex 7 ∷ mutex_lockable demo_mutex 4 ∷ [])

abbrev collection : SortedCollection (Shared Demo) (List MutexRef) (List ℕ)
collection = record { child = two_mutexes; locks = leaf 4 ∷ leaf 7 ∷ [] }

pub leaf-IsRawLock : (a : ℕ) → IsRawLock demo_held write (a ∷ []) (leaf a)
leaf-IsRawLock a = mutex_lock-IsRawLock own_of demo_mutex a (demo_mutex-IsRawMutex a)

ordered_lock-Locks_example :
    Locks demo_held
      (demo_held start)
      (claim (some write) (feet demo_foot two_free) (demo_held start))
      (ordered_lock write two_free start)
unfolding mutex_lock
ordered_lock-Locks_example =
    ordered_lock-Locks demo_held write demo_foot two_free start
      (leaf-IsRawLock 7, (leaf-IsRawLock 4, tt)) (refl, (refl, tt)) (refl, (refl, tt))

ordered_try_lock-TryLocks_example :
    TryLocks demo_held
      (demo_held start)
      (claim (some write) (feet demo_foot with_busy) (demo_held start))
      (ordered_try_lock write with_busy start)
unfolding mutex_lock
ordered_try_lock-TryLocks_example =
    ordered_try_lock-TryLocks demo_held write demo_foot with_busy start
      (leaf-IsRawLock 7, (leaf-IsRawLock 9, tt)) (refl, (refl, tt)) (refl, (refl, tt))

retry_try_lock-TryLocks_example :
    TryLocks demo_held
      (demo_held start)
      (claim (some write) (feet demo_foot with_busy) (demo_held start))
      (retry_try_lock write with_busy start)
unfolding mutex_lock
retry_try_lock-TryLocks_example =
    retry_try_lock-TryLocks demo_held demo_foot write with_busy start
      (leaf-IsRawLock 7, (leaf-IsRawLock 9, tt)) (refl, (refl, tt)) (refl, (refl, tt))

sorted_raw-IsRawLock_example :
    IsRawLock demo_held write (feet demo_foot collection.locks) (sorted_raw 100 collection)
unfolding mutex_lock
sorted_raw-IsRawLock_example =
    sorted_raw-IsRawLock demo_held demo_foot write 100 collection
      (leaf-IsRawLock 4, (leaf-IsRawLock 7, tt)) (refl, (refl, tt))

owned_raw-IsRawLock_example :
    IsRawLock demo_held write
      (feet demo_foot (get_locks_unsorted two_mutexes))
      (owned_raw 100 two_mutexes)
unfolding mutex_lock mutex_lockable many get_locks_unsorted
owned_raw-IsRawLock_example =
    owned_raw-IsRawLock demo_held demo_foot write 100 two_mutexes
      (leaf-IsRawLock 7, (leaf-IsRawLock 4, tt)) (refl, (refl, tt))

abbrev pub alive : KeyCell
alive = record { is_locked = true }

scoped-Ends_example : Ends {0} demo_held (demo_held start) false (
    scoped write
      (sorted_raw 100 collection)
      two_mutexes
      (owned thread_key)
      (λ ds. ret tt)
      (alive, start))
unfolding mutex_lock mutex_lockable many
scoped-Ends_example =
    scoped-Ends demo_held write (4 ∷ 7 ∷ []) (sorted_raw 100 collection) two_mutexes (λ ds. ret tt)
      sorted_raw-IsRawLock_example (λ cell s. (refl, refl)) (owned thread_key) alive start
      (refl, (refl, tt)) refl

scoped_try-TryEnds_example : TryEnds {0} demo_held (demo_held start) true (
    scoped_try write
      (sorted_raw 100 collection)
      two_mutexes
      (borrowed thread_key)
      (λ ds. ret tt)
      (alive, start))
unfolding mutex_lock mutex_lockable many
scoped_try-TryEnds_example =
    scoped_try-TryEnds demo_held write (4 ∷ 7 ∷ []) (sorted_raw 100 collection) two_mutexes
      (λ ds. ret tt) sorted_raw-IsRawLock_example (λ cell s. (refl, refl)) (borrowed thread_key)
      alive start (refl, (refl, tt)) refl
