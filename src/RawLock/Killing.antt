-- ===== src/RawLock/Killing.antt =====
-- What may happen to a lock that a flag kills, once a call of it has panicked: later calls of its
-- methods, by any thread, and everything else that the threads do. The flags of mutexes and
-- read-write locks (src/mutex/mutex.rs, src/rwlock/rwlock.rs) are private, so only their own
-- methods change them.
use happylock.Base.{ℕ, ◌≡◌, ◌∙◌, true, false}
use happylock.Exec.{M, ok, panic, ret, ◌>>=◌}
use happylock.Shared.{Shared}
use happylock.RawLock.{RawLock, Mode, raw_lock, raw_try_lock, raw_unlock}
use happylock.RawLock.Leaf.{EndsAt}

-- The methods of `RawLock`: `kills` is a call of `poison`.
pub data Method : Type 0 where
  locks tries unlocks : Mode → Method
  kills : Method

module _ {W : Type 0} (l : RawLock (Shared W)) where
  abbrev pub call : Method → M (Shared W) (Unit {0})
  call (locks m) = raw_lock m l
  call (tries m) = do b ← raw_try_lock m l; ret tt
  call (unlocks m) = raw_unlock m l
  call kills = l.poison

  -- The locking methods of both modes refuse, and change nothing.
  abbrev pub Refuses : Shared W → Type 0
  Refuses s = (m : Mode) → (raw_lock m l s ≡ panic s) × (raw_try_lock m l s ≡ ok false s)

  -- The states that can come after `s`: through a call of any method in any mode, and through
  -- whatever leaves the flag of the lock, at `a`, as it is.
  pub data Later (a : ℕ) (s : Shared W) : Shared W → Type 0 where
    at_once : Later a s s
    after_call : {t u : Shared W} → Later a s t → (c : Method) → EndsAt a (call c t) u → Later a s u
    after_others : {t u : Shared W} → Later a s t → u.flags a ≡ t.flags a → Later a s u

  -- If no method clears the flag, it stays set.
  pub Later-killed :
      (a : ℕ) (s : Shared W)
      → ((c : Method) (t u : Shared W)
          → t.flags a ≡ true
          → EndsAt a (call c t) u
          → u.flags a ≡ true)
      → s.flags a ≡ true
      → (t : Shared W) → Later a s t
      → t.flags a ≡ true
  Later-killed a s keeps e t at_once = e
  Later-killed a s keeps e u (after_call {t} later c ends) =
      keeps c t u (Later-killed a s keeps e t later) ends
  Later-killed a s keeps e u (after_others {t} later same) = same ∙ Later-killed a s keeps e t later
