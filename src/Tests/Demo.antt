-- ===== src/Tests/Demo.antt =====
-- Raw locks over a world that records what the running thread holds, and which locks other threads
-- keep for themselves. It shows that the contracts of `lock_api` can be met.
use happylock.Base.{
  ℕ, refl, Bool, true, false, Option, none, some, [], ◌∷◌, ◌==◌, if◌then◌else◌, Bool-cases, inl,
  inr,
}
use happylock.Exec.{M, ok, hang}
use happylock.Shared.{Shared}
use happylock.RawLock.{Mode, write, read}
use happylock.RawLock.Holding.{claim}
use happylock.RawLock.Contract.{Holding, Locks, TryLocks}
use happylock.RawLock.Leaf.{mine}
use happylock.Mutex.{RawMutex}
use happylock.Mutex.Contract.{IsRawMutex}
use happylock.RwLock.{RawRwLock}
use happylock.RwLock.Contract.{IsRawRwLock}

pub record Demo : Type 0 where
  pub own : Holding
  pub busy : ℕ → Bool

abbrev pub own_of : Demo → Holding
own_of w = w.own

abbrev pub with_own : Shared Demo → Option Mode → ℕ → Shared Demo
with_own s o a = record s {
  world = record { own = claim o (a ∷ []) s.world.own; busy = s.world.busy };
}

abbrev pub demo_lock : Mode → ℕ → M (Shared Demo) (Unit {0})
demo_lock m a s = if s.world.busy a then hang else ok tt (with_own s (some m) a)

abbrev pub demo_try_lock : Mode → ℕ → M (Shared Demo) Bool
demo_try_lock m a s = if s.world.busy a then ok false s else ok true (with_own s (some m) a)

abbrev pub demo_unlock : ℕ → M (Shared Demo) (Unit {0})
demo_unlock a s = ok tt (with_own s none a)

abbrev pub demo_mutex : RawMutex Demo
demo_mutex = record { lock = demo_lock write; try_lock = demo_try_lock write; unlock = demo_unlock }

abbrev pub demo_rwlock : RawRwLock Demo
demo_rwlock = record {
  lock_exclusive = demo_lock write;
  try_lock_exclusive = demo_try_lock write;
  unlock_exclusive = demo_unlock;
  lock_shared = demo_lock read;
  try_lock_shared = demo_try_lock read;
  unlock_shared = demo_unlock;
}

demo_lock-Locks :
    (m : Mode) (a : ℕ) (s : Shared Demo)
    → Locks
        (mine own_of)
        (mine own_of s)
        (claim (some m) (a ∷ []) (mine own_of s))
        (demo_lock m a s)
demo_lock-Locks m a s = elim (Bool-cases (s.world.busy a)) [ inl e ↦ rw e tt | inr e ↦ rw e refl ]

demo_try_lock-TryLocks :
    (m : Mode) (a : ℕ) (s : Shared Demo)
    → TryLocks
        (mine own_of)
        (mine own_of s)
        (claim (some m) (a ∷ []) (mine own_of s))
        (demo_try_lock m a s)
demo_try_lock-TryLocks m a s = elim (Bool-cases (s.world.busy a)) [
  | inl e ↦ rw e refl
  | inr e ↦ rw e refl
]

pub demo_mutex-IsRawMutex : (a : ℕ) → IsRawMutex own_of demo_mutex a
demo_mutex-IsRawMutex a = record {
  locks = λ s free. demo_lock-Locks write a s;
  tries = λ s free. demo_try_lock-TryLocks write a s;
  unlocks = λ s taken. refl;
}

pub demo_rwlock-IsRawRwLock : (m : Mode) (a : ℕ) → IsRawRwLock own_of demo_rwlock m a
demo_rwlock-IsRawRwLock write a = record {
  locks = λ s free. demo_lock-Locks write a s;
  tries = λ s free. demo_try_lock-TryLocks write a s;
  unlocks = λ s taken. refl;
}
demo_rwlock-IsRawRwLock read a = record {
  locks = λ s free. demo_lock-Locks read a s;
  tries = λ s free. demo_try_lock-TryLocks read a s;
  unlocks = λ s taken. refl;
}

-- Nothing is held, nothing is killed, and other threads keep the lock at 9.
abbrev pub start : Shared Demo
start = record { flags = λ _. false; world = record { own = λ _. none; busy = λ a. a == 9 } }

-- The same with the mutex at 4 killed.
abbrev pub killed_4 : Shared Demo
killed_4 = record start { flags = λ a. a == 4 }
