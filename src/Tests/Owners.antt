-- ===== src/Tests/Owners.antt =====
-- The theorem about the data of collections, for mutexes around numbers in an empty heap.
use happylock.Base.{ℕ, ◌≡◌, refl, none, List, [], ◌∷◌, ◌++◌, map}
use happylock.Shared.{Shared}
use happylock.Lockable.{Lockable, many}
use happylock.Lockable.Inner.{Inner, Anything, many_inner}
use happylock.Mutex.{MutexRef, mutex_lockable}
use happylock.Mutex.Data.{Mutex, mutex_new, mutex_inner, mutex_inner-IsFaithful}
use happylock.Collection.Values.{
  OwnedLockCollection, RetryingLockCollection, vec, owned_from_iter, owned_extend, owned_inner,
  retrying_from_iter, retrying_extend, retrying_inner, boxing_from_iter, boxing_into_inner,
}
use happylock.Collection.Values.Keeping.{GivesBack, values-kept}
use happylock.Tests.Demo.{Demo, demo_mutex}
use happylock.Collection.Boxing.{Heap}

-- A mutex lies at the address that stands for its raw mutex.
abbrev in_demo : List (Mutex ℕ ℕ) → Lockable (Shared Demo) (List MutexRef) (List ℕ)
in_demo ms = many (map (λ (m : Mutex ℕ ℕ). mutex_lockable demo_mutex m.raw) ms)

abbrev numbers : Inner (List (Mutex ℕ ℕ)) (List ℕ)
numbers = many_inner mutex_inner

abbrev made : List ℕ → List (Mutex ℕ ℕ)
made vs = map (mutex_new 4) vs

abbrev owning : OwnedLockCollection (List (Mutex ℕ ℕ))
owning = owned_from_iter vec (made (1 ∷ 2 ∷ []))

abbrev retrying : RetryingLockCollection (List (Mutex ℕ ℕ))
retrying = retrying_from_iter vec (made (1 ∷ 2 ∷ []))

abbrev no_boxes : Heap (List (Mutex ℕ ℕ))
no_boxes = record { next = 0; boxes = λ p. none; dropped = [] }

into_inner-new : (v : ℕ) → (mutex_inner {R = ℕ} {T = ℕ}).into_inner (mutex_new 4 v) ≡ v
unfolding mutex_inner mutex_new
into_inner-new v = refl

values-kept_example :
    ((owned_inner numbers).into_inner (owned_extend vec owning (made (3 ∷ [])))
      ≡ (1 ∷ 2 ∷ []) ++ (3 ∷ []))
    × ((retrying_inner numbers).into_inner (retrying_extend vec retrying (made (3 ∷ [])))
        ≡ (1 ∷ 2 ∷ []) ++ (3 ∷ []))
    × ((owned_inner numbers).get_mut owning ≡ 1 ∷ 2 ∷ [])
    × ((retrying_inner numbers).get_mut retrying ≡ 1 ∷ 2 ∷ [])
    × ((owned_inner numbers).into_inner ((owned_inner numbers).write_back owning (8 ∷ 9 ∷ []))
        ≡ 8 ∷ 9 ∷ [])
    × ((retrying_inner numbers).into_inner
          ((retrying_inner numbers).write_back retrying (8 ∷ 9 ∷ []))
        ≡ 8 ∷ 9 ∷ [])
    × GivesBack in_demo mutex_inner Anything mutex_inner-IsFaithful
        (mutex_new 4)
        into_inner-new
        (1 ∷ 2 ∷ [])
        no_boxes
        (boxing_into_inner numbers
          (boxing_from_iter in_demo vec (made (1 ∷ 2 ∷ [])) no_boxes).0
          (boxing_from_iter in_demo vec (made (1 ∷ 2 ∷ [])) no_boxes).1)
values-kept_example =
    values-kept in_demo mutex_inner Anything mutex_inner-IsFaithful (mutex_new 4) into_inner-new
      (1 ∷ 2 ∷ []) (3 ∷ []) (8 ∷ 9 ∷ []) no_boxes (tt, (tt, tt)) (λ p le. refl)
