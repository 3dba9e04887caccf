-- ===== src/Threads/Plan.antt =====
-- The mutexes that a thread asks for: those of its collection, by ascending addresses.
use mathlib.Core.List.{append_assoc, append-nil, map-append}
use happylock.Base.{
  ℕ, ◌+◌, ◌<◌, ◌≡◌, refl, sym, ap, ◌∙◌, subst, false, some, List, [], ◌∷◌, ◌++◌, All, All-append,
  All-map, inl, inr, ◌⊎◌, length, arith,
}
use happylock.Exec.{Res, ok}
use happylock.Shared.{Shared}
use happylock.RawLock.{RawLock, write, raw_lock}
use happylock.RawLock.Holding.{has, SameHas}
use happylock.Lockable.{many}
use happylock.Mutex.{MutexRef, mutex_lock, mutex_lockable}
use happylock.Collection.Utils.{
  sort_by_addr, get_locks, get_locks_unsorted, ordered_contains_duplicates, lock_all, ordered_lock,
}
use happylock.Collection.Duplicates.{
  addrs, IsSorted, sort_by_addr-IsSorted, has-sort_by_addr, All-sort_by_addr,
}
use happylock.Collection.Sorted.{
  SortedCollection, ref_try_new, boxed_try_new, boxed_new_unchecked, sorted_raw,
}
use happylock.Threads.{recording, mutexes, quiet, calls, Planned, planned}

abbrev pub Ascending : List ℕ → Type 0
Ascending [] = Unit
Ascending (a ∷ as_list) = All (λ b. a < b) as_list × Ascending as_list

module _ {S : Type 0} where
  sorted-Ascending :
      (ls : List (RawLock S))
      → IsSorted ls
      → ordered_contains_duplicates ls ≡ false
      → Ascending (addrs ls)
  unfolding ordered_contains_duplicates
  sorted-Ascending [] s d = tt
  sorted-Ascending (l ∷ []) s d = (tt, tt)
  sorted-Ascending (l ∷ k ∷ ks) s d =
      let rest = sorted-Ascending (k ∷ ks) s.1 (ground arith) in
      let below : l.addr < k.addr = ground arith in
      ((below, All-map (λ b h. omega arith) (addrs ks) rest.0), rest)

-- A lock whose `raw_write` records its address, and does no more.
abbrev IsRecorded : RawLock (Shared (List ℕ)) → Type 0
IsRecorded l = (log : List ℕ) → raw_lock write l (quiet log) ≡ ok tt (quiet (log ++ l.addr ∷ []))

mutex_lock-IsRecorded : (a : ℕ) → IsRecorded (mutex_lock recording a)
unfolding mutex_lock
mutex_lock-IsRecorded a log = refl

mutexes-IsRecorded :
    (as_list : List ℕ) (ptrs : List (RawLock (Shared (List ℕ))))
    → All IsRecorded ptrs
    → All IsRecorded ((mutexes as_list).get_ptrs ptrs)
unfolding many mutex_lockable
mutexes-IsRecorded [] ptrs p = p
mutexes-IsRecorded (a ∷ as_list) ptrs p =
    mutexes-IsRecorded as_list (ptrs ++ mutex_lock recording a ∷ [])
      (All-append IsRecorded ptrs _ p (mutex_lock-IsRecorded a, tt))

ends_alike :
    (n n' : ℕ) (log log' : List ℕ)
    → n ≡ n'
    → log ≡ log'
    → ◌≡◌ {A = Res (ℕ × Shared (List ℕ)) (Unit {0})} (ok tt (n, quiet log)) (ok tt (n', quiet log'))
ends_alike n n' log log' e f = cc

lock_all-calls :
    (ls : List (RawLock (Shared (List ℕ)))) (n : ℕ) (log : List ℕ)
    → All IsRecorded ls
    → lock_all write ls (n, quiet log) ≡ ok tt (n + length ls, quiet (log ++ addrs ls))
unfolding lock_all
lock_all-calls [] n log p =
    ends_alike n (n + 0) log (log ++ []) (omega arith) (sym (append-nil log))
lock_all-calls (l ∷ ls) n log p = rw (p.0 log) (
    lock_all-calls ls (n + 1) (log ++ l.addr ∷ []) p.1
    ∙ ends_alike _ _ _ _ (omega arith) (append_assoc log (l.addr ∷ []) (addrs ls)))

ordered_lock-calls :
    (ls : List (RawLock (Shared (List ℕ))))
    → All IsRecorded ls
    → calls (ordered_lock write ls) ≡ addrs ls
unfolding ordered_lock
ordered_lock-calls ls p = rw (lock_all-calls ls 0 [] p) refl

-- The two ways to make a collection come to the same locks.
accepted_locks :
    (as_list : List ℕ) (c : SortedCollection (Shared (List ℕ)) (List MutexRef) (List ℕ))
    → (ref_try_new (mutexes as_list) ≡ some c) ⊎ (boxed_try_new (mutexes as_list) ≡ some c)
    → (c.locks ≡ sort_by_addr ((mutexes as_list).get_ptrs []))
      × (ordered_contains_duplicates (sort_by_addr ((mutexes as_list).get_ptrs [])) ≡ false)
unfolding ref_try_new boxed_try_new boxed_new_unchecked get_locks get_locks_unsorted
accepted_locks as_list c (inl e) = ground arith
accepted_locks as_list c (inr e) = ground arith

mutexes-addrs :
    (as_list : List ℕ) (ptrs : List (RawLock (Shared (List ℕ))))
    → addrs ((mutexes as_list).get_ptrs ptrs) ≡ addrs ptrs ++ as_list
unfolding many mutex_lockable mutex_lock
mutexes-addrs [] ptrs = sym (append-nil (addrs ptrs))
mutexes-addrs (a ∷ as_list) ptrs =
    mutexes-addrs as_list (ptrs ++ mutex_lock recording a ∷ [])
    ∙ (ap (λ xs. xs ++ as_list) (map-append (λ l. l.addr) ptrs (mutex_lock recording a ∷ []))
        ∙ append_assoc (addrs ptrs) (a ∷ []) as_list)

-- If `try_new` of `RefLockCollection` or of `BoxedLockCollection` has accepted a vector of mutexes,
-- `raw_write` of the collection asks for every mutex of the vector and for no other, in the order
-- of their addresses and each once.
pub calls-Ascending :
    (as_list : List ℕ) (a : ℕ) (c : SortedCollection (Shared (List ℕ)) (List MutexRef) (List ℕ))
    → (ref_try_new (mutexes as_list) ≡ some c) ⊎ (boxed_try_new (mutexes as_list) ≡ some c)
    → Ascending (calls (raw_lock write (sorted_raw a c)))
      × SameHas as_list (calls (raw_lock write (sorted_raw a c)))
unfolding sorted_raw
calls-Ascending as_list a c made =
    let (same, distinct) = accepted_locks as_list c made in
    let ptrs = (mutexes as_list).get_ptrs [] in
    let ls = sort_by_addr ptrs in
    let asks : calls (ordered_lock write c.locks) ≡ addrs ls =
      ap (λ x. calls (ordered_lock write x)) same
      ∙ ordered_lock-calls ls (All-sort_by_addr IsRecorded _ (mutexes-IsRecorded as_list [] tt)) in
    (
      subst Ascending (sym asks) (sorted-Ascending ls (sort_by_addr-IsSorted _) distinct),
      λ b. sym (
          ap (λ xs. has xs b) asks
          ∙ (has-sort_by_addr ptrs b ∙ ap (λ xs. has xs b) (mutexes-addrs as_list []))),
    )

pub Planned-Ascending : (ws : List ℕ) → Planned ws → Ascending ws
Planned-Ascending ws (planned as_list a c made e) =
    subst Ascending (sym e) (calls-Ascending as_list a c made).0
