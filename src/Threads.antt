-- ===== src/Threads.antt =====
-- Many threads that lock collections of mutexes with `RefLockCollection` or `BoxedLockCollection`
-- (src/collection/ref.rs, boxed.rs and utils.rs). The mutexes that a thread asks for, one after
-- the other, are those that the code of `raw_write` locks when it runs on mutexes that record the
-- calls; a thread waits at a mutex until no other thread holds it.
pub mod Plan
pub mod Invariant
pub mod Progress
pub mod Liveness
pub mod Philosophers
use happylock.Base.{
  ℕ, suc, ◌≡◌, Bool, true, false, Option, some, List, [], ◌∷◌, ◌++◌, map, ◌⊎◌, All,
}
use happylock.Exec.{M, Res, ok, panic, hang, ret}
use happylock.Shared.{Shared}
use happylock.RawLock.{write, raw_lock}
use happylock.RawLock.Holding.{has}
use happylock.Lockable.{Lockable, many}
use happylock.Mutex.{RawMutex, MutexRef, mutex_lockable}
use happylock.Collection.Sorted.{SortedCollection, ref_try_new, boxed_try_new, sorted_raw}

-- A raw mutex that records the calls of `lock`.
abbrev pub recording : RawMutex (List ℕ)
recording = record {
  lock = λ a s. ok tt (record s { world = s.world ++ a ∷ [] });
  try_lock = λ a. ret true;
  unlock = λ a. ret tt;
}

-- A vector of mutexes at the addresses.
abbrev pub mutexes : List ℕ → Lockable (Shared (List ℕ)) (List MutexRef) (List ℕ)
mutexes as_list = many (map (mutex_lockable recording) as_list)

abbrev pub quiet : List ℕ → Shared (List ℕ)
quiet log = record { flags = λ a. false; world = log }

abbrev recorded : Res (Shared (List ℕ)) (Unit {0}) → List ℕ
recorded (ok _ s) = s.world
recorded (panic s) = s.world
recorded hang = []

-- The addresses of the mutexes that a computation locks, in order.
abbrev pub calls : M (Shared (List ℕ)) (Unit {0}) → List ℕ
calls m = recorded (m (quiet []))

-- What locking a collection of mutexes that `try_new` accepts asks for.
pub data Planned (ws : List ℕ) : Type 0 where
  planned :
      (addresses : List ℕ) (a : ℕ) (c : SortedCollection (Shared (List ℕ)) (List MutexRef) (List ℕ))
      → (ref_try_new (mutexes addresses) ≡ some c) ⊎ (boxed_try_new (mutexes addresses) ≡ some c)
      → ws ≡ calls (raw_lock write (sorted_raw a c))
      → Planned ws

-- The mutexes that a thread holds, and those that it still asks for in the call it is in.
pub record Thread : Type 0 where
  pub holds : List ℕ
  pub wants : List ℕ

abbrev pub Free : ℕ → List Thread → Type 0
Free a ts = All (λ t. has t.holds a ≡ false) ts

-- What a thread can do on its own: lock the next mutex, if no thread holds it, or, when it has all
-- that it asked for, unlock one.
pub data Move (ts : List Thread) (t u : Thread) : Type 0 where
  acquire :
      (a : ℕ) (ws : List ℕ)
      → t.wants ≡ a ∷ ws
      → Free a ts
      → u ≡ record { holds = a ∷ t.holds; wants = ws }
      → Move ts t u
  release :
      (a : ℕ) (hs ks : List ℕ)
      → t.wants ≡ []
      → t.holds ≡ hs ++ a ∷ ks
      → u ≡ record { holds = hs ++ ks; wants = [] }
      → Move ts t u

-- A thread that holds nothing, and so has its key, calls `lock`.
pub data Start (t u : Thread) : Type 0 where
  start :
      (ws : List ℕ)
      → t.holds ≡ []
      → t.wants ≡ []
      → Planned ws
      → u ≡ record { holds = []; wants = ws }
      → Start t u

-- One thread of many changes.
pub data Change (P : Thread → Thread → Type 0) (ts us : List Thread) : Type 0 where
  change :
      (xs ys : List Thread) (t u : Thread)
      → ts ≡ xs ++ t ∷ ys
      → us ≡ xs ++ u ∷ ys
      → P t u
      → Change P ts us

abbrev pub Moves : List Thread → List Thread → Type 0
Moves ts us = Change (Move ts) ts us

abbrev pub Starts : List Thread → List Thread → Type 0
Starts ts us = Change Start ts us

abbrev pub IsIdle : Thread → Type 0
IsIdle t = (t.holds ≡ []) × (t.wants ≡ [])

-- What can come of threads that are all idle at first.
pub data Reach : List Thread → Type 0 where
  at_first : (ts : List Thread) → All IsIdle ts → Reach ts
  after_move : {ts us : List Thread} → Reach ts → Moves ts us → Reach us
  after_start : {ts us : List Thread} → Reach ts → Starts ts us → Reach us

-- A run of so many moves.
pub data Run : ℕ → List Thread → List Thread → Type 0 where
  done : (ts : List Thread) → Run 0 ts ts
  more : {n : ℕ} {ts us vs : List Thread} → Moves ts us → Run n us vs → Run (suc n) ts vs
