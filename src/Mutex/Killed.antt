-- ===== src/Mutex/Killed.antt =====
-- After a panic in a raw mutex nobody can take the mutex any more.
use happylock.Base.{ℕ, ◌≡◌, true, arith}
use happylock.Exec.{ok, panic, throw}
use happylock.Shared.{Shared, poison}
use happylock.RawLock.{write, read}
use happylock.RawLock.Leaf.{
  on_unwind-kills, guarded-kills, tried-kills, EndsAt, refused-stays, failed-stays, unlocked-stays,
}
use happylock.RawLock.Killing.{
  Method, locks, tries, unlocks, kills, call, Refuses, Later, Later-killed,
}
use happylock.Mutex.{RawMutex, mutex_lock}

module _ {W : Type 0} (raw : RawMutex W) (a : ℕ) where
  Refuses-of_flag : (s : Shared W) → s.flags a ≡ true → Refuses (mutex_lock raw a) s
  unfolding mutex_lock
  Refuses-of_flag s e write = (rw e, rw e)
  Refuses-of_flag s e read = (rw e, rw e)

  panicked-killed :
      (c : Method) (s t : Shared W) → call (mutex_lock raw a) c s ≡ panic t → t.flags a ≡ true
  unfolding mutex_lock poison
  panicked-killed (locks write) s t e =
      guarded-kills a throw (raw.lock a) s t (λ k p. ground arith) e
  panicked-killed (locks read) s t e =
      guarded-kills a throw (raw.lock a) s t (λ k p. ground arith) e
  panicked-killed (tries write) s t e = tried-kills a (raw.try_lock a) s t e
  panicked-killed (tries read) s t e = tried-kills a (raw.try_lock a) s t e
  panicked-killed (unlocks write) s t e = on_unwind-kills a (raw.unlock a s) t e
  panicked-killed (unlocks read) s t e = on_unwind-kills a (raw.unlock a s) t e
  panicked-killed kills s t e = cc

  module _
      (keeps : (s t : Shared W)
        → s.flags a ≡ true
        → raw.unlock a s ≡ ok tt t
        → t.flags a ≡ true) where
    killed-stays :
        (c : Method) (s t : Shared W)
        → s.flags a ≡ true
        → EndsAt a (call (mutex_lock raw a) c s) t
        → t.flags a ≡ true
    unfolding mutex_lock poison
    killed-stays (locks write) s t k h = refused-stays a (raw.lock a) s t k h
    killed-stays (locks read) s t k h = refused-stays a (raw.lock a) s t k h
    killed-stays (tries write) s t k h = failed-stays a (raw.try_lock a) s t k h
    killed-stays (tries read) s t k h = failed-stays a (raw.try_lock a) s t k h
    killed-stays (unlocks write) s t k h = unlocked-stays a (raw.unlock a s) t (keeps s t k) h
    killed-stays (unlocks read) s t k h = unlocked-stays a (raw.unlock a s) t (keeps s t k) h
    killed-stays kills s t k h = ground arith

    -- If one of the methods of a mutex panics, for whatever reason, the mutex refuses from then on,
    -- whatever calls of its methods follow and whatever other code does that leaves its flag as it
    -- is: the methods that lock panic, those that try fail, for writing and for reading, and
    -- none changes anything. Unlocking the raw mutex does not clear the flag of the mutex.
    pub mutex_lock-killed :
        (c : Method) (s s' t : Shared W)
        → call (mutex_lock raw a) c s ≡ panic s'
        → Later (mutex_lock raw a) a s' t
        → Refuses (mutex_lock raw a) t
    mutex_lock-killed c s s' t e later =
        Refuses-of_flag t
          (Later-killed (mutex_lock raw a) a s' killed-stays (panicked-killed c s s' e) t later)
