-- ===== src/Tests/Threads.antt =====
-- Two threads that lock the same two mutexes, given in different orders.
use happylock.Base.{ℕ, ◌≤◌, ◌<◌, ◌≡◌, refl, inl, List, [], ◌∷◌, All, arith}
use happylock.Shared.{Shared}
use happylock.RawLock.{write, raw_lock}
use happylock.RawLock.Holding.{SameHas}
use happylock.Lockable.{many}
use happylock.Mutex.{MutexRef, mutex_lock, mutex_lockable}
use happylock.Collection.Utils.{get_locks, sort_by_addr, ordered_contains_duplicates, ordered_lock}
use happylock.Collection.Sorted.{SortedCollection, ref_new_unchecked, ref_try_new, sorted_raw}
use happylock.Threads.{
  mutexes, calls, Planned, planned, Thread, Reach, at_first, after_start, start, change, acquire,
  Run, more, done, IsIdle,
}
use happylock.Threads.Plan.{Ascending, calls-Ascending}
use happylock.Threads.Progress.{Next}
use happylock.Threads.Liveness.{work, Run-finishes}
use happylock.Threads.Philosophers.{philosophers, table, philosophers-finish}

abbrev four_seven : List ℕ
four_seven = 4 ∷ 7 ∷ []

from_4_7 : Planned four_seven
unfolding ref_try_new ref_new_unchecked get_locks many mutex_lock mutex_lockable sorted_raw
    ordered_contains_duplicates sort_by_addr ordered_lock
from_4_7 = planned (4 ∷ 7 ∷ []) 100 (ref_new_unchecked (mutexes (4 ∷ 7 ∷ []))) (inl refl) refl

from_7_4 : Planned four_seven
unfolding ref_try_new ref_new_unchecked get_locks many mutex_lock mutex_lockable sorted_raw
    ordered_contains_duplicates sort_by_addr ordered_lock
from_7_4 = planned (7 ∷ 4 ∷ []) 100 (ref_new_unchecked (mutexes (7 ∷ 4 ∷ []))) (inl refl) refl

abbrev seven_four : SortedCollection (Shared (List ℕ)) (List MutexRef) (List ℕ)
seven_four = ref_new_unchecked (mutexes (7 ∷ 4 ∷ []))

calls-Ascending_example :
    Ascending (calls (raw_lock write (sorted_raw 100 seven_four)))
    × SameHas (7 ∷ 4 ∷ []) (calls (raw_lock write (sorted_raw 100 seven_four)))
unfolding ref_try_new ref_new_unchecked get_locks many mutex_lock mutex_lockable
    ordered_contains_duplicates sort_by_addr
calls-Ascending_example = calls-Ascending (7 ∷ 4 ∷ []) 100 seven_four (inl refl)

abbrev idle_thread : Thread
idle_thread = record { holds = []; wants = [] }

abbrev asking : Thread
asking = record { holds = []; wants = four_seven }

abbrev two_idle : List Thread
two_idle = idle_thread ∷ idle_thread ∷ []

abbrev two_asking : List Thread
two_asking = asking ∷ asking ∷ []

abbrev one_ahead : List Thread
one_ahead = record { holds = 4 ∷ []; wants = 7 ∷ [] } ∷ asking ∷ []

two_asking-Reach : Reach two_asking
two_asking-Reach =
    after_start {ts = asking ∷ idle_thread ∷ []}
      (after_start {ts = two_idle} (at_first two_idle ((refl, refl), ((refl, refl), tt))) (
        change [] (idle_thread ∷ []) idle_thread asking refl refl
          (start four_seven refl refl from_4_7 refl)))
      (change (asking ∷ []) [] idle_thread asking refl refl
        (start four_seven refl refl from_7_4 refl))

one_step : Run 1 two_asking one_ahead
one_step =
    more
      (change [] (asking ∷ []) asking (record { holds = 4 ∷ []; wants = 7 ∷ [] }) refl refl
        (acquire 4 (7 ∷ []) refl (refl, (refl, tt)) refl))
      (done one_ahead)

Run-finishes_example :
    (1 ≤ work two_asking)
    × (1 < work two_asking → Next one_ahead)
    × (1 ≡ work two_asking → All IsIdle one_ahead)
Run-finishes_example = Run-finishes two_asking 1 one_ahead two_asking-Reach one_step

-- The fork with an index lies at that address.
abbrev fork_at : ℕ → ℕ
fork_at i = i

philosophers-finish_example :
    (0 ≤ work (table fork_at philosophers))
    × (0 < work (table fork_at philosophers) → Next (table fork_at philosophers))
    × (0 ≡ work (table fork_at philosophers) → All IsIdle (table fork_at philosophers))
philosophers-finish_example =
    philosophers-finish fork_at philosophers 0 (table fork_at philosophers) (omega arith)
      (done (table fork_at philosophers))
