-- ===== src/Tests/Locks.antt =====
-- The theorems about keys, mutexes and read-write locks.
use happylock.Base.{ℕ, ◌≡◌, refl, inl, true, none, some, List, [], ◌∷◌, arith}
use happylock.Exec.{ok, throw}
use happylock.Key.Uniqueness.{KeyEvent, gets, drops, key_run, fresh_thread}
use happylock.Shared.{Shared, store_flag, poison}
use happylock.RawLock.{Mode, write, read}
use happylock.RawLock.Contract.{IsRawLock}
use happylock.RawLock.Leaf.{mine}
use happylock.RawLock.Killing.{Refuses, tries, unlocks, at_once, after_call}
use happylock.Mutex.{RawMutex, mutex_lock}
use happylock.Mutex.Contract.{mutex_lock-IsRawLock}
use happylock.Mutex.Killed.{mutex_lock-killed}
use happylock.RwLock.{RawRwLock, unlock_raw, rwlock_lock}
use happylock.RwLock.Contract.{rwlock_lock-IsRawLock}
use happylock.RwLock.Killed.{rwlock_lock-killed}
use happylock.Tests.Demo.{
  Demo, own_of, with_own, start, demo_mutex, demo_rwlock, demo_unlock, demo_mutex-IsRawMutex,
  demo_rwlock-IsRawRwLock,
}

abbrev history : List KeyEvent
history = gets ∷ gets ∷ drops ∷ gets ∷ []

abbrev keys_of : List KeyEvent → ℕ
keys_of es = (key_run fresh_thread es).live

mutex_lock-IsRawLock_example : IsRawLock (mine own_of) write (4 ∷ []) (mutex_lock demo_mutex 4)
mutex_lock-IsRawLock_example = mutex_lock-IsRawLock own_of demo_mutex 4 (demo_mutex-IsRawMutex 4)

rwlock_lock-IsRawLock_example : IsRawLock (mine own_of) read (4 ∷ []) (rwlock_lock demo_rwlock 4)
rwlock_lock-IsRawLock_example =
    rwlock_lock-IsRawLock own_of demo_rwlock read 4 (demo_rwlock-IsRawRwLock read 4)

-- Raw locks in which an attempt to lock panics.
abbrev evil_mutex : RawMutex Demo
evil_mutex = record demo_mutex { try_lock = λ a. throw }

abbrev evil_rwlock : RawRwLock Demo
evil_rwlock = record demo_rwlock { try_lock_shared = λ a. throw }

abbrev holding_4 : Shared Demo
holding_4 = with_own start (some write) 4

abbrev killed_holding_4 : Shared Demo
killed_holding_4 = record holding_4 { flags = store_flag 4 true start.flags }

demo_unlock-keeps :
    (s t : Shared Demo) → s.flags 4 ≡ true → demo_unlock 4 s ≡ ok tt t → t.flags 4 ≡ true
demo_unlock-keeps s t k e = ground arith

demo_unlock_raw-keeps :
    (m : Mode) (s t : Shared Demo)
    → s.flags 4 ≡ true
    → unlock_raw evil_rwlock m 4 s ≡ ok tt t
    → t.flags 4 ≡ true
demo_unlock_raw-keeps write s t k e = demo_unlock-keeps s t k e
demo_unlock_raw-keeps read s t k e = demo_unlock-keeps s t k e

-- An attempt to lock a mutex that is held panics; then it is unlocked, and still refuses.
mutex_lock-killed_example : Refuses (mutex_lock evil_mutex 4) (with_own killed_holding_4 none 4)
unfolding mutex_lock poison
mutex_lock-killed_example =
    mutex_lock-killed evil_mutex 4 demo_unlock-keeps (tries write) holding_4 killed_holding_4
      (with_own killed_holding_4 none 4) refl (after_call at_once (unlocks write) (inl refl))

rwlock_lock-killed_example : Refuses (rwlock_lock evil_rwlock 4) (with_own killed_holding_4 none 4)
unfolding rwlock_lock poison
rwlock_lock-killed_example =
    rwlock_lock-killed evil_rwlock 4 demo_unlock_raw-keeps (tries read) holding_4 killed_holding_4
      (with_own killed_holding_4 none 4) refl (after_call at_once (unlocks write) (inl refl))
