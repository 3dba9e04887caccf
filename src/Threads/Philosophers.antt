-- ===== src/Threads/Philosophers.antt =====
-- examples/dining_philosophers.rs: philosophers who each lock two forks, and then drop them.
use mathlib.Core.List.{append_assoc}
use happylock.Base.{
  ℕ, ◌≤◌, ◌<◌, ◌≡◌, ◌≢◌, refl, subst, some, List, [], ◌∷◌, ◌++◌, map, inl, All, arith,
}
use happylock.Shared.{Shared}
use happylock.RawLock.{write, raw_lock}
use happylock.Lockable.{many}
use happylock.Mutex.{MutexRef, mutex_lock, mutex_lockable}
use happylock.Collection.Utils.{get_locks_unsorted}
use happylock.Collection.Duplicates.{try_new_iff}
use happylock.Collection.Sorted.{SortedCollection, ref_try_new, ref_new_unchecked, sorted_raw}
use happylock.Threads.{
  mutexes, calls, Planned, planned, Thread, Reach, at_first, after_start, change, start, Run,
  IsIdle,
}
use happylock.Threads.Progress.{Next}
use happylock.Threads.Liveness.{work, Run-finishes}

pub record Philosopher : Type 0 where
  pub left : ℕ
  pub right : ℕ

abbrev pub philosophers : List Philosopher
philosophers =
    record { left = 0; right = 1 }
    ∷ record { left = 1; right = 2 }
    ∷ record { left = 2; right = 3 }
    ∷ record { left = 3; right = 4 }
    ∷ record { left = 4; right = 0 }
    ∷ []

-- The forks lie at addresses of their own.
module _ (fork : ℕ → ℕ) where
  abbrev pub forks_of : Philosopher → SortedCollection (Shared (List ℕ)) (List MutexRef) (List ℕ)
  forks_of p = ref_new_unchecked (mutexes (fork p.left ∷ fork p.right ∷ []))

  -- The forks that `cycle` locks, in the order in which it does.
  unfoldable pub cycle : Philosopher → List ℕ
  unfolding sorted_raw ref_new_unchecked
  cycle p = calls (raw_lock write (sorted_raw 0 (forks_of p)))

  abbrev pub seated : Philosopher → Thread
  seated p = record { holds = []; wants = cycle p }

  -- The threads that `main` has spawned, when each has called `lock`.
  abbrev pub table : List Philosopher → List Thread
  table ps = map seated ps

  forks-accepted :
      (p : Philosopher)
      → fork p.left ≢ fork p.right
      → ref_try_new (mutexes (fork p.left ∷ fork p.right ∷ [])) ≡ some (forks_of p)
  unfolding get_locks_unsorted many mutex_lock mutex_lockable
  forks-accepted p ne =
      let (two, boxed, retry, sorted, sorted') =
        try_new_iff (mutexes (fork p.left ∷ fork p.right ∷ [])) in
      two.1 (ground arith, (refl, tt))

  Planned-cycle : (p : Philosopher) → fork p.left ≢ fork p.right → Planned (cycle p)
  unfolding cycle
  Planned-cycle p ne =
      planned (fork p.left ∷ fork p.right ∷ []) 0 (forks_of p) (inl (forks-accepted p ne)) refl

  abbrev pub TwoForks : Philosopher → Type 0
  TwoForks p = fork p.left ≢ fork p.right

  abbrev waiting : Philosopher → Thread
  waiting p = record { holds = []; wants = [] }

  waiting-IsIdle : (ps : List Philosopher) → All IsIdle (map waiting ps)
  waiting-IsIdle [] = tt
  waiting-IsIdle (p ∷ ps) = ((refl, refl), waiting-IsIdle ps)

  -- The philosophers call `lock` one after the other.
  sit-Reach :
      (ts : List Thread) (ps : List Philosopher)
      → All TwoForks ps
      → Reach (ts ++ map waiting ps)
      → Reach (ts ++ map seated ps)
  sit-Reach ts [] two r = r
  sit-Reach ts (p ∷ ps) two r = subst Reach (append_assoc ts (seated p ∷ []) (map seated ps)) (
      sit-Reach (ts ++ seated p ∷ []) ps two.1 (
        after_start r (
          change ts (map waiting ps) (waiting p) (seated p) refl
            (append_assoc ts (seated p ∷ []) (map waiting ps))
            (start (cycle p) refl refl (Planned-cycle p two.0) refl))))

  -- Any number of philosophers, each with two different forks, whoever shares a fork with whom:
  -- when all have called `lock`, the run goes on until each has locked both its forks and dropped
  -- them. At most `work` moves are possible, some thread can move after fewer, and after that many
  -- all are idle.
  pub philosophers-finish :
      (ps : List Philosopher) (n : ℕ) (us : List Thread)
      → All TwoForks ps
      → Run n (table ps) us
      → (n ≤ work (table ps))
        × (n < work (table ps) → Next us)
        × (n ≡ work (table ps) → All IsIdle us)
  philosophers-finish ps n us two run =
      Run-finishes (table ps) n us
        (sit-Reach [] ps two (at_first (map waiting ps) (waiting-IsIdle ps))) run
