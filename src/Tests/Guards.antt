-- ===== src/Tests/Guards.antt =====
-- The theorems about guards and about the methods of a mutex, for two mutexes.
use happylock.Base.{ℕ, ◌≡◌, refl, Bool, false, List, [], ◌∷◌}
use happylock.Exec.{M, ret, ◌>>=◌}
use happylock.Key.{KeyCell, thread_key, owned}
use happylock.Shared.{Shared}
use happylock.RawLock.{write, read}
use happylock.Lockable.{Lockable, many}
use happylock.Lockable.Guarded.{IsGuarded, all_feet, many-IsGuarded}
use happylock.Mutex.{MutexRef, mutex_ref, mutex_lock, mutex_lockable}
use happylock.Mutex.Contract.{mutex_lockable-IsGuarded}
use happylock.Mutex.Methods.{
  MutexGuard, mutex_scoped_lock, mutex_scoped_try_lock, mutex_lock_with, mutex_try_lock_with,
  mutex_unlock, as_lock_guard, mutex_methods-collection,
}
use happylock.RwLock.{rwlock_lockable}
use happylock.RwLock.Contract.{rwlock_lockable-IsGuarded}
use happylock.Collection.Access.{scoped, scoped_try, lock, try_lock, unlock, lock_guard_drop}
use happylock.Collection.Access.Single.{map_ok}
use happylock.Collection.Access.Scoped.{Ends}
use happylock.Collection.Access.Guards.{Returns, lock-unlock}
use happylock.Collection.Duplicates.{addrs}
use happylock.Tests.Demo.{
  Demo, own_of, start, demo_mutex, demo_rwlock, demo_mutex-IsRawMutex, demo_rwlock-IsRawRwLock,
}
use happylock.Tests.Collections.{demo_held, leaf, leaf-IsRawLock, alive}

abbrev one : ℕ → Lockable (Shared Demo) MutexRef ℕ
one = mutex_lockable demo_mutex

mutex_lockable-IsGuarded_example : IsGuarded demo_held write (4 ∷ []) (one 4)
mutex_lockable-IsGuarded_example =
    mutex_lockable-IsGuarded own_of demo_mutex 4 (demo_mutex-IsRawMutex 4)

rwlock_lockable-IsGuarded_example :
    IsGuarded demo_held read (4 ∷ []) (rwlock_lockable demo_rwlock read 4)
rwlock_lockable-IsGuarded_example =
    rwlock_lockable-IsGuarded own_of demo_rwlock read 4 (demo_rwlock-IsRawRwLock read 4)

-- The addresses of the locks that a value lists.
abbrev listed : Lockable (Shared Demo) MutexRef ℕ → List ℕ
listed l = addrs (l.get_ptrs [])

abbrev ones : List (Lockable (Shared Demo) MutexRef ℕ)
ones = one 7 ∷ one 4 ∷ []

many-IsGuarded_example :
    IsGuarded demo_held write (all_feet demo_held write listed ones) (many ones)
unfolding mutex_lockable mutex_lock
many-IsGuarded_example =
    many-IsGuarded demo_held write listed ones
      (
        mutex_lockable-IsGuarded own_of demo_mutex 7 (demo_mutex-IsRawMutex 7),
        (mutex_lockable-IsGuarded own_of demo_mutex 4 (demo_mutex-IsRawMutex 4), tt),
      )
      (refl, (refl, tt))

lock-unlock_example :
    Returns demo_held
      (demo_held start)
      ((do g ← lock write (leaf 4) (one 4) thread_key; unlock (one 4) g) (alive, start))
    × ((panicking : Bool)
        → Ends {0} demo_held (demo_held start) false (
            (do g ← lock write (leaf 4) (one 4) thread_key; lock_guard_drop (one 4) panicking g)
              (alive, start)))
lock-unlock_example =
    lock-unlock demo_held write (4 ∷ []) (leaf 4) (one 4) (leaf-IsRawLock 4)
      (mutex_lockable-IsGuarded own_of demo_mutex 4 (demo_mutex-IsRawMutex 4)) thread_key alive
      start (refl, tt) refl

abbrev guard_4 : MutexGuard
guard_4 = record { mutex = mutex_ref 4; thread_key = thread_key }

mutex_methods-collection_example :
    ((R : Type 0) (f : ℕ → M (KeyCell × Shared Demo) R)
      → (mutex_scoped_lock demo_mutex 4 (owned thread_key) f (alive, start)
          ≡ scoped write (leaf 4) (one 4) (owned thread_key) f (alive, start))
        × (mutex_scoped_try_lock demo_mutex 4 (owned thread_key) f (alive, start)
            ≡ scoped_try write (leaf 4) (one 4) (owned thread_key) f (alive, start)))
    × ((do g ← mutex_lock_with demo_mutex 4 thread_key; ret (as_lock_guard g)) (alive, start)
        ≡ lock write (leaf 4) (one 4) thread_key (alive, start))
    × ((do r ← mutex_try_lock_with demo_mutex 4 thread_key; ret (map_ok as_lock_guard r))
          (alive, start)
        ≡ try_lock write (leaf 4) (one 4) thread_key (alive, start))
    × (mutex_unlock demo_mutex guard_4 (alive, start)
        ≡ unlock (one 4) (as_lock_guard guard_4) (alive, start))
mutex_methods-collection_example =
    mutex_methods-collection demo_mutex 4 (owned thread_key) thread_key (alive, start) guard_4
