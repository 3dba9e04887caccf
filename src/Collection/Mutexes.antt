-- ===== src/Collection/Mutexes.antt =====
-- From the raw mutexes to the methods with a key: a `RefLockCollection` or a `BoxedLockCollection`
-- of a vector of mutexes.
use mathlib.Core.List.{append_assoc, append-nil}
use happylock.Base.{
  ℕ, ◌≡◌, refl, sym, ap, ◌∙◌, subst, true, false, none, some, List, [], ◌∷◌, ◌++◌, map, ◌⊎◌, inl,
  inr, All, arith,
}
use happylock.Exec.{◌>>=◌}
use happylock.Key.{KeyCell, ThreadKey}
use happylock.Shared.{Shared}
use happylock.RawLock.{RawLock, write}
use happylock.RawLock.Holding.{has, AllAt, Distinct, SameHas, All-SameHas}
use happylock.RawLock.Contract.{Holding, IsRawLock, feet}
use happylock.RawLock.Leaf.{mine}
use happylock.Lockable.{Lockable, many}
use happylock.Lockable.Guarded.{IsGuarded, all_feet, many-IsGuarded, IsGuarded-SameHas}
use happylock.Mutex.{RawMutex, MutexRef, mutex_lock, mutex_lockable}
use happylock.Mutex.Contract.{IsRawMutex, mutex_lock-IsRawLock, mutex_lockable-IsGuarded}
use happylock.Collection.Utils.{
  sort_by_addr, get_locks, get_locks_unsorted, ordered_contains_duplicates,
}
use happylock.Collection.Utils.Unlocking.{Obey}
use happylock.Collection.Duplicates.{
  addrs, All-sort_by_addr, has-sort_by_addr, Distinct-sort_by_addr, sort_by_addr-IsSorted,
  sorted_duplicates,
}
use happylock.Collection.Sorted.{
  SortedCollection, ref_try_new, boxed_try_new, boxed_new_unchecked, sorted_raw, sorted_lockable,
}
use happylock.Collection.Sorted.RefMethods.{ref_lock, ref_unlock}
use happylock.Collection.Sorted.BoxedMethods.{boxed_lock, boxed_unlock}
use happylock.Collection.Contract.{sorted_raw-IsRawLock}
use happylock.Collection.Access.Guards.{Returns, lock-unlock}

module _ {W : Type 0} (raw : RawMutex W) where
  abbrev pub vec_of : List ℕ → Lockable (Shared W) (List MutexRef) (List ℕ)
  vec_of as_list = many (map (mutex_lockable raw) as_list)

  abbrev raw_locks : List ℕ → List (RawLock (Shared W))
  raw_locks = map (mutex_lock raw)

  get_ptrs-vec_of :
      (as_list : List ℕ) (ptrs : List (RawLock (Shared W)))
      → (vec_of as_list).get_ptrs ptrs ≡ ptrs ++ raw_locks as_list
  unfolding many mutex_lockable
  get_ptrs-vec_of [] ptrs = sym (append-nil ptrs)
  get_ptrs-vec_of (a ∷ as_list) ptrs =
      get_ptrs-vec_of as_list (ptrs ++ mutex_lock raw a ∷ [])
      ∙ append_assoc ptrs (mutex_lock raw a ∷ []) (raw_locks as_list)

  addrs-raw_locks : (as_list : List ℕ) → addrs (raw_locks as_list) ≡ as_list
  unfolding mutex_lock
  addrs-raw_locks [] = refl
  addrs-raw_locks (a ∷ as_list) = ap (◌∷◌ a) (addrs-raw_locks as_list)

  accepted :
      (as_list : List ℕ) (c : SortedCollection (Shared W) (List MutexRef) (List ℕ))
      → (ref_try_new (vec_of as_list) ≡ some c) ⊎ (boxed_try_new (vec_of as_list) ≡ some c)
      → (c ≡ record { child = vec_of as_list; locks = sort_by_addr ((vec_of as_list).get_ptrs []) })
        × (ordered_contains_duplicates (sort_by_addr ((vec_of as_list).get_ptrs [])) ≡ false)
  unfolding ref_try_new boxed_try_new boxed_new_unchecked get_locks get_locks_unsorted
  accepted as_list c (inl e) = ground arith
  accepted as_list c (inr e) = ground arith

abbrev own_foot : {S : Type 0} → RawLock S → List ℕ
own_foot l = l.addr ∷ []

feet-own_foot : {S : Type 0} (ls : List (RawLock S)) → feet own_foot ls ≡ addrs ls
feet-own_foot [] = refl
feet-own_foot (l ∷ ls) = ap (◌∷◌ l.addr) (feet-own_foot ls)

module _ {W : Type 0} (held : W → Holding) (raw : RawMutex W) where
  raw_locks-Obey :
      (as_list : List ℕ)
      → All (IsRawMutex held raw) as_list
      → Obey (mine held) write own_foot (raw_locks raw as_list)
  unfolding mutex_lock
  raw_locks-Obey [] laws = tt
  raw_locks-Obey (a ∷ as_list) laws =
      (mutex_lock-IsRawLock held raw a laws.0, raw_locks-Obey as_list laws.1)

  abbrev listed : Lockable (Shared W) MutexRef ℕ → List ℕ
  listed l = addrs (l.get_ptrs [])

  members : List ℕ → List (Lockable (Shared W) MutexRef ℕ)
  members = map (mutex_lockable raw)

  members-listed :
      (as_list : List ℕ) → all_feet (mine held) write listed (members as_list) ≡ as_list
  unfolding members mutex_lockable mutex_lock
  members-listed [] = refl
  members-listed (a ∷ as_list) = ap (◌∷◌ a) (members-listed as_list)

  members-IsGuarded :
      (as_list : List ℕ)
      → All (IsRawMutex held raw) as_list
      → All (λ l. IsGuarded (mine held) write (listed l) l) (members as_list)
  unfolding members mutex_lockable mutex_lock
  members-IsGuarded [] laws = tt
  members-IsGuarded (a ∷ as_list) laws =
      (mutex_lockable-IsGuarded held raw a laws.0, members-IsGuarded as_list laws.1)

  vec_of-IsGuarded :
      (as_list : List ℕ)
      → All (IsRawMutex held raw) as_list
      → Distinct as_list
      → IsGuarded (mine held) write as_list (vec_of raw as_list)
  unfolding members
  vec_of-IsGuarded as_list laws d =
      subst (λ xs. IsGuarded (mine held) write xs (vec_of raw as_list)) (members-listed as_list)
        (many-IsGuarded (mine held) write listed (members as_list) (members-IsGuarded as_list laws)
          (subst Distinct (sym (members-listed as_list)) d))

  module _ (as_list : List ℕ) (laws : All (IsRawMutex held raw) as_list)
      (nodup : ordered_contains_duplicates (sort_by_addr ((vec_of raw as_list).get_ptrs []))
        ≡ false) where
    abbrev sorted_locks : List (RawLock (Shared W))
    sorted_locks = sort_by_addr ((vec_of raw as_list).get_ptrs [])

    abbrev made_collection : SortedCollection (Shared W) (List MutexRef) (List ℕ)
    made_collection = record { child = vec_of raw as_list; locks = sorted_locks }

    unsorted-addrs : addrs ((vec_of raw as_list).get_ptrs []) ≡ as_list
    unsorted-addrs = ap addrs (get_ptrs-vec_of raw as_list []) ∙ addrs-raw_locks raw as_list

    same_addrs : SameHas as_list (feet own_foot sorted_locks)
    same_addrs a =
        ap (λ xs. has xs a) (sym unsorted-addrs)
        ∙ (sym (has-sort_by_addr ((vec_of raw as_list).get_ptrs []) a)
            ∙ ap (λ xs. has xs a) (sym (feet-own_foot sorted_locks)))

    sorted-Distinct : Distinct (addrs sorted_locks)
    sorted-Distinct = (sorted_duplicates sorted_locks (sort_by_addr-IsSorted _)).0 nodup

    sorted_law :
        (a : ℕ)
        → IsRawLock (mine held) write (feet own_foot sorted_locks) (sorted_raw a made_collection)
    sorted_law a =
        sorted_raw-IsRawLock (mine held) own_foot write a made_collection
          (All-sort_by_addr _ _ (
            subst (Obey (mine held) write own_foot) (sym (get_ptrs-vec_of raw as_list []))
              (raw_locks-Obey as_list laws)))
          (subst Distinct (sym (feet-own_foot sorted_locks)) sorted-Distinct)

    sorted_guards :
        IsGuarded (mine held) write (feet own_foot sorted_locks) (sorted_lockable made_collection)
    unfolding sorted_lockable
    sorted_guards =
        let distinct =
          subst Distinct unsorted-addrs ((Distinct-sort_by_addr _).0 sorted-Distinct) in
        let law =
          IsGuarded-SameHas (mine held) write as_list (feet own_foot sorted_locks)
            (vec_of raw as_list) same_addrs (vec_of-IsGuarded as_list laws distinct) in
        record { made = law.made }

    collected :
        (a : ℕ) (key : ThreadKey) (cell : KeyCell) (s : Shared W)
        → AllAt none as_list (mine held s)
        → cell.is_locked ≡ true
        → Returns
            (mine held)
            (mine held s)
            ((do g ← ref_lock a made_collection key; ref_unlock a made_collection g) (cell, s))
          × Returns (mine held) (mine held s) (
              (do g ← boxed_lock a made_collection key; boxed_unlock a made_collection g) (cell, s))
    unfolding ref_lock ref_unlock boxed_lock boxed_unlock
    collected a key cell s free alive =
        let both =
          lock-unlock (mine held) write (feet own_foot sorted_locks) (sorted_raw a made_collection)
            (sorted_lockable made_collection) (sorted_law a) sorted_guards key cell s
            (All-SameHas _ as_list _ same_addrs free) alive in
        (both.0, both.0)

  -- If `lock_api` keeps its contract for each mutex of a vector, `try_new` has accepted the vector,
  -- and a thread that holds none of the mutexes has its key, then `lock` and `unlock` of the
  -- `RefLockCollection`, and those of the `BoxedLockCollection`, leave the thread with what it held
  -- before, and with its key; or `lock` panics, it holds that too, and its key is dropped.
  pub mutexes_lock-unlock :
      (as_list : List ℕ) (c : SortedCollection (Shared W) (List MutexRef) (List ℕ))
      → All (IsRawMutex held raw) as_list
      → (ref_try_new (vec_of raw as_list) ≡ some c) ⊎ (boxed_try_new (vec_of raw as_list) ≡ some c)
      → (a : ℕ) (key : ThreadKey) (cell : KeyCell) (s : Shared W) → AllAt none as_list (mine held s)
      → cell.is_locked ≡ true
      → Returns (mine held) (mine held s) ((do g ← ref_lock a c key; ref_unlock a c g) (cell, s))
        × Returns
            (mine held)
            (mine held s)
            ((do g ← boxed_lock a c key; boxed_unlock a c g) (cell, s))
  mutexes_lock-unlock as_list c laws made a key cell s free alive =
      let (same, nodup) = accepted raw as_list c made in
      subst
        (λ (x : SortedCollection (Shared W) (List MutexRef) (List ℕ)).
          Returns (mine held) (mine held s) ((do g ← ref_lock a x key; ref_unlock a x g) (cell, s))
          × Returns (mine held) (mine held s)
              ((do g ← boxed_lock a x key; boxed_unlock a x g) (cell, s)))
        (sym same) (collected as_list laws nodup a key cell s free alive)
