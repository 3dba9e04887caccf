-- ===== src/Tests/Poisonable.antt =====
-- The theorems about `Poisonable` and about the methods of a read-write lock.
use happylock.Base.{ℕ, ◌≡◌, refl, Bool, true, false, some, [], ◌∷◌, ◌==◌}
use happylock.Exec.{M, ok, ret, throw, ◌>>=◌}
use happylock.Key.{KeyCell, thread_key, owned}
use happylock.Shared.{Shared}
use happylock.RawLock.{write, read, raw_lock, raw_try_lock}
use happylock.RawLock.Contract.{IsRawLock}
use happylock.Lockable.Guarded.{IsGuarded}
use happylock.Mutex.{MutexRef, mutex_ref, mutex_lock, mutex_lockable}
use happylock.Mutex.Contract.{mutex_lockable-IsGuarded}
use happylock.RwLock.{rwlock_ref, rwlock_lock, rwlock_lockable}
use happylock.RwLock.Methods.{
  RwLockGuard, rwlock_scoped, rwlock_scoped_try, rwlock_lock_with, rwlock_try_lock_with,
  rwlock_unlock, as_lock_guard, rwlock_methods-collection,
}
use happylock.Collection.Access.{scoped, scoped_try, lock, try_lock, unlock}
use happylock.Collection.Access.Single.{map_ok}
use happylock.Collection.Access.Scoped.{Ends, TryEnds}
use happylock.Collection.Access.Guards.{Returns}
use happylock.Poisonable.{
  Poisonable, PoisonResult, poisonable_raw, poisonable_lockable, poisonable_access,
}
use happylock.Poisonable.Methods.{
  poisonable_scoped, poisonable_scoped_try, poisonable_lock, poisonable_try_lock, poisonable_unlock,
  poison_guard_drop,
}
use happylock.Poisonable.Contract.{poisonable-IsGuarded}
use happylock.Poisonable.Scoped.{poisonable_scoped-Ends}
use happylock.Poisonable.Guards.{unwrap_or_inner, poisonable_lock-unlock}
use happylock.Poisonable.Poisoning.{
  Poisons, LeavesSet, LeavesPoisoned, Says, TrySays, poisonable_scoped-Poisons,
  poisonable_lock-Says, poison_guard_drop-LeavesPoisoned,
}
use happylock.Tests.Demo.{
  Demo, own_of, start, with_own, demo_mutex, demo_rwlock, demo_mutex-IsRawMutex,
}
use happylock.Tests.Collections.{demo_held, leaf, leaf-IsRawLock, alive}

-- A mutex at 4 in a `Poisonable` whose flag is at 5.
abbrev wrapped : Poisonable Demo MutexRef ℕ
wrapped = record { inner_lock = leaf 4; inner = mutex_lockable demo_mutex 4; poisoned = 5 }

wrapped-IsGuarded : IsGuarded demo_held write (4 ∷ []) (mutex_lockable demo_mutex 4)
wrapped-IsGuarded = mutex_lockable-IsGuarded own_of demo_mutex 4 (demo_mutex-IsRawMutex 4)

poisonable-IsGuarded_example :
    IsRawLock demo_held write (4 ∷ []) (poisonable_raw wrapped 3)
    × IsGuarded demo_held write (4 ∷ []) (poisonable_lockable wrapped)
poisonable-IsGuarded_example =
    poisonable-IsGuarded own_of wrapped write (4 ∷ []) 3 (leaf-IsRawLock 4) wrapped-IsGuarded

poisonable_scoped-Ends_example :
    Ends {0} demo_held
      (demo_held start)
      false
      (poisonable_scoped write wrapped (owned thread_key) (λ d. ret tt) (alive, start))
    × TryEnds {0} demo_held
        (demo_held start)
        false
        (poisonable_scoped_try write wrapped (owned thread_key) (λ d. ret tt) (alive, start))
unfolding mutex_lockable poisonable_access
poisonable_scoped-Ends_example =
    poisonable_scoped-Ends own_of write (4 ∷ []) wrapped (λ d. ret tt) (leaf-IsRawLock 4)
      (λ cell s. (refl, refl)) (owned thread_key) alive start (refl, tt) refl

poisonable_lock-unlock_example :
    Returns demo_held (demo_held start) (
      (do
        r ← poisonable_lock write wrapped thread_key
        poisonable_unlock wrapped true (unwrap_or_inner r))
        (alive, start))
    × Ends {0} demo_held (demo_held start) false (
        (do
          r ← poisonable_lock write wrapped thread_key
          poison_guard_drop wrapped true (unwrap_or_inner r))
          (alive, start))
poisonable_lock-unlock_example =
    poisonable_lock-unlock own_of write (4 ∷ []) wrapped (leaf-IsRawLock 4) wrapped-IsGuarded
      thread_key true alive start (refl, tt) refl

abbrev failing : PoisonResult ℕ → M (KeyCell × Shared Demo) (Unit {0})
failing d = throw

abbrev holding_4 : Shared Demo
holding_4 = with_own start (some write) 4

poisonable_scoped-Poisons_example :
    ((raw_lock write (leaf 4) start ≡ ok tt holding_4)
      → Poisons 5 (poisonable_scoped write wrapped (owned thread_key) failing (alive, start)))
    × ((raw_try_lock write (leaf 4) start ≡ ok true holding_4)
        → Poisons 5 (poisonable_scoped_try write wrapped (owned thread_key) failing (alive, start)))
unfolding mutex_lock mutex_lockable poisonable_access
poisonable_scoped-Poisons_example =
    poisonable_scoped-Poisons write wrapped failing (λ s e. e) (owned thread_key) alive start
      holding_4 (alive, holding_4) refl

abbrev poisoned_5 : Shared Demo
poisoned_5 = record start { flags = λ a. a == 5 }

poisonable_lock-Says_example :
    Says write wrapped (poisonable_lock write wrapped thread_key (alive, poisoned_5))
    × TrySays write wrapped thread_key alive
        (raw_try_lock write (leaf 4) poisoned_5)
        (poisonable_try_lock write wrapped thread_key (alive, poisoned_5))
poisonable_lock-Says_example = poisonable_lock-Says write wrapped thread_key alive poisoned_5

drop_keeps :
    (panicking : Bool) (g : MutexRef) (s : Shared Demo)
    → s.flags 5 ≡ true
    → LeavesSet 5 ((mutex_lockable demo_mutex 4).drop_guard panicking g s)
unfolding mutex_lock mutex_lockable
drop_keeps panicking (mutex_ref a) s e = e

poison_guard_drop-LeavesPoisoned_example : LeavesPoisoned 5 (
    poison_guard_drop wrapped true
      (record { guard = record { guard = mutex_ref 4; flag = 5 }; key = thread_key })
      (alive, holding_4))
poison_guard_drop-LeavesPoisoned_example =
    poison_guard_drop-LeavesPoisoned wrapped drop_keeps thread_key (mutex_ref 4) alive holding_4

abbrev guard_4 : RwLockGuard
guard_4 = record { rwlock = rwlock_ref 4; thread_key = thread_key }

rwlock_methods-collection_example :
    ((R : Type 0) (f : ℕ → M (KeyCell × Shared Demo) R)
      → (rwlock_scoped demo_rwlock read 4 (owned thread_key) f (alive, start)
          ≡ scoped read
              (rwlock_lock demo_rwlock 4)
              (rwlock_lockable demo_rwlock read 4)
              (owned thread_key)
              f
              (alive, start))
        × (rwlock_scoped_try demo_rwlock read 4 (owned thread_key) f (alive, start)
            ≡ scoped_try read
                (rwlock_lock demo_rwlock 4)
                (rwlock_lockable demo_rwlock read 4)
                (owned thread_key)
                f
                (alive, start)))
    × ((do g ← rwlock_lock_with demo_rwlock read 4 thread_key; ret (as_lock_guard g)) (alive, start)
        ≡ lock read
            (rwlock_lock demo_rwlock 4)
            (rwlock_lockable demo_rwlock read 4)
            thread_key
            (alive, start))
    × ((do r ← rwlock_try_lock_with demo_rwlock read 4 thread_key; ret (map_ok as_lock_guard r))
          (alive, start)
        ≡ try_lock read
            (rwlock_lock demo_rwlock 4)
            (rwlock_lockable demo_rwlock read 4)
            thread_key
            (alive, start))
    × (rwlock_unlock demo_rwlock read guard_4 (alive, start)
        ≡ unlock (rwlock_lockable demo_rwlock read 4) (as_lock_guard guard_4) (alive, start))
rwlock_methods-collection_example =
    rwlock_methods-collection demo_rwlock read 4 (owned thread_key) thread_key (alive, start)
      guard_4
