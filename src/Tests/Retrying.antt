-- ===== src/Tests/Retrying.antt =====
-- The theorems about the retrying loop, for locks that another thread can take away a few times.
use happylock.Base.{ℕ, zero, suc, ◌≡◌, refl, Bool, true, false, Option, none, some, List, [], ◌∷◌}
use happylock.Exec.{M, ok, panic, ret, throw, resume_unwind}
use happylock.RawLock.{RawLock, Mode, write, raw_unlock}
use happylock.RawLock.Holding.{claim, AllAt}
use happylock.RawLock.Contract.{Holding, IsRawLock, feet}
use happylock.Shared.{Shared, store_flag}
use happylock.Mutex.{RawMutex, mutex_lock}
use happylock.Mutex.Contract.{mutex_lock-IsRawLock}
use happylock.Collection.Retry.{retry_lock}
use happylock.Collection.Retry.Leaks.{retry_lock-unlocks_unheld, retry_lock-leaks}
use happylock.Collection.Retry.Termination.{Holds, retry_lock-Holds}
use happylock.Tests.Demo.{
  Demo, start, killed_4, with_own, own_of, demo_mutex, demo_mutex-IsRawMutex,
}
use happylock.Tests.Collections.{demo_held, demo_foot, leaf, leaf-IsRawLock, two_free}

retry_lock-Holds_example :
    Holds demo_held
      (claim (some write) (feet demo_foot two_free) (demo_held start))
      (retry_lock write 5 two_free start)
unfolding mutex_lock
retry_lock-Holds_example =
    retry_lock-Holds demo_held write demo_foot 5 two_free start
      (leaf-IsRawLock 7, (leaf-IsRawLock 4, tt)) (refl, (refl, tt)) (refl, (refl, tt))

-- `left`: how often an attempt to lock finds the lock taken by another thread, which soon unlocks it.
record Rivals : Type 0 where
  own : Holding
  left : ℕ

abbrev own_locks : Rivals → Holding
own_locks w = w.own

abbrev left_of : Rivals → ℕ
left_of w = w.left

abbrev take_lock : Option Mode → ℕ → M Rivals (Unit {0})
take_lock o a w = ok tt (record w { own = claim o (a ∷ []) w.own })

abbrev attempt : ℕ → ℕ → M Rivals Bool
attempt zero a w = ok true (record w { own = claim (some write) (a ∷ []) w.own })
attempt (suc n) a w = ok false (record w { left = n })

abbrev rival_lock : ℕ → RawLock Rivals
rival_lock a = record {
  addr = a;
  poison = ret tt;
  raw_write = take_lock (some write) a;
  raw_try_write = λ w. attempt w.left a w;
  raw_unlock_write = take_lock none a;
  raw_read = take_lock (some write) a;
  raw_try_read = λ w. attempt w.left a w;
  raw_unlock_read = take_lock none a;
}

abbrev rival_foot : RawLock Rivals → List ℕ
rival_foot l = l.addr ∷ []

abbrev contested : Rivals
contested = record { own = λ _. none; left = 3 }

abbrev two_rivals : List (RawLock Rivals)
two_rivals = rival_lock 7 ∷ rival_lock 4 ∷ []

-- A mutex whose attempts to lock panic.
abbrev evil_mutex : RawMutex Demo
evil_mutex = record demo_mutex { try_lock = λ a. throw }

abbrev third : RawLock (Shared Demo)
third = mutex_lock evil_mutex 5

third-IsRawLock : IsRawLock demo_held write (5 ∷ []) third
third-IsRawLock = mutex_lock-IsRawLock own_of evil_mutex 5 (record {
  locks = λ s free. (demo_mutex-IsRawMutex 5).locks s free;
  tries = λ s free. refl;
  unlocks = λ s taken. (demo_mutex-IsRawMutex 5).unlocks s taken;
})

retry_lock-unlocks_unheld_example :
    AllAt none (feet demo_foot (leaf 4 ∷ leaf 7 ∷ [])) (demo_held killed_4)
    × (retry_lock write 1 (leaf 4 ∷ leaf 7 ∷ []) killed_4
        ≡ resume_unwind (raw_unlock write (leaf 4) killed_4))
unfolding mutex_lock
retry_lock-unlocks_unheld_example =
    retry_lock-unlocks_unheld demo_held write demo_foot 0 (leaf 4) (leaf 7 ∷ []) killed_4 killed_4
      (leaf-IsRawLock 4) (refl, (refl, tt)) refl

abbrev one_taken : Shared Demo
one_taken = with_own start (some write) 7

abbrev two_taken : Shared Demo
two_taken = with_own one_taken (some write) 4

abbrev third_killed : Shared Demo
third_killed = record two_taken { flags = store_flag 5 true start.flags }

retry_lock-leaks_example :
    (s' : Shared Demo) × (retry_lock write 1 (leaf 7 ∷ leaf 4 ∷ third ∷ []) start ≡ panic s')
    × AllAt (some write) (4 ∷ []) (demo_held s')
unfolding mutex_lock
retry_lock-leaks_example =
    retry_lock-leaks demo_held write demo_foot 0 (leaf 7) (leaf 4) third [] start one_taken
      two_taken third_killed (leaf-IsRawLock 7) (leaf-IsRawLock 4) third-IsRawLock
      (refl, (refl, (refl, tt))) (refl, (refl, (refl, tt))) refl refl refl
