-- ===== src/RwLock/Killed.antt =====
-- After a panic in a raw read-write lock nobody can take the lock any more.
use happylock.Base.{ℕ, ◌≡◌, true, arith}
use happylock.Exec.{ok, panic, throw}
use happylock.Shared.{Shared, poison}
use happylock.RawLock.{Mode, write, read}
use happylock.RawLock.Leaf.{
  on_unwind-kills, guarded-kills, tried-kills, EndsAt, refused-stays, failed-stays, unlocked-stays,
}
use happylock.RawLock.Killing.{
  Method, locks, tries, unlocks, kills, call, Refuses, Later, Later-killed,
}
use happylock.RwLock.{RawRwLock, lock_raw, try_lock_raw, unlock_raw, rwlock_lock}

module _ {W : Type 0} (raw : RawRwLock W) (a : ℕ) where
  Refuses-of_flag : (s : Shared W) → s.flags a ≡ true → Refuses (rwlock_lock raw a) s
  unfolding rwlock_lock
  Refuses-of_flag s e write = (rw e, rw e)
  Refuses-of_flag s e read = (rw e, rw e)

  panicked-killed :
      (c : Method) (s t : Shared W) → call (rwlock_lock raw a) c s ≡ panic t → t.flags a ≡ true
  unfolding rwlock_lock poison
  panicked-killed (locks write) s t e =
      guarded-kills a throw (lock_raw raw write a) s t (λ k p. ground arith) e
  panicked-killed (locks read) s t e =
      guarded-kills a throw (lock_raw raw read a) s t (λ k p. ground arith) e
  panicked-killed (tries write) s t e = tried-kills a (try_lock_raw raw write a) s t e
  panicked-killed (tries read) s t e = tried-kills a (try_lock_raw raw read a) s t e
  panicked-killed (unlocks write) s t e = on_unwind-kills a (unlock_raw raw write a s) t e
  panicked-killed (unlocks read) s t e = on_unwind-kills a (unlock_raw raw read a s) t e
  panicked-killed kills s t e = cc

  module _
      (keeps : (m : Mode) (s t : Shared W)
        → s.flags a ≡ true
        → unlock_raw raw m a s ≡ ok tt t
        → t.flags a ≡ true) where
    killed-stays :
        (c : Method) (s t : Shared W)
        → s.flags a ≡ true
        → EndsAt a (call (rwlock_lock raw a) c s) t
        → t.flags a ≡ true
    unfolding rwlock_lock poison
    killed-stays (locks write) s t k h = refused-stays a (lock_raw raw write a) s t k h
    killed-stays (locks read) s t k h = refused-stays a (lock_raw raw read a) s t k h
    killed-stays (tries write) s t k h = failed-stays a (try_lock_raw raw write a) s t k h
    killed-stays (tries read) s t k h = failed-stays a (try_lock_raw raw read a) s t k h
    killed-stays (unlocks write) s t k h =
        unlocked-stays a (unlock_raw raw write a s) t (keeps write s t k) h
    killed-stays (unlocks read) s t k h =
        unlocked-stays a (unlock_raw raw read a s) t (keeps read s t k) h
    killed-stays kills s t k h = ground arith

    -- If a method of a read-write lock panics, for reading or for writing, the lock refuses both
    -- from then on, whatever calls of its methods follow and whatever other code does that leaves
    -- its flag as it is: the methods that lock panic, those that try fail, and neither changes
    -- anything. Unlocking the raw lock does not clear the flag of the read-write lock.
    pub rwlock_lock-killed :
        (c : Method) (s s' t : Shared W)
        → call (rwlock_lock raw a) c s ≡ panic s'
        → Later (rwlock_lock raw a) a s' t
        → Refuses (rwlock_lock raw a) t
    rwlock_lock-killed c s s' t e later =
        Refuses-of_flag t
          (Later-killed (rwlock_lock raw a) a s' killed-stays (panicked-killed c s s' e) t later)
