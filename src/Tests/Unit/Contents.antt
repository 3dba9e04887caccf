-- ===== src/Tests/Unit/Contents.antt =====
-- Unit tests of src/collection/ that reach the child or the data of a collection without locking.
-- The mutexes are values; a reference to an array of them is an address.
use happylock.Base.{
  ℕ, ◌+◌, ◌≡◌, refl, Bool, true, false, Option, none, some, List, [], ◌∷◌, map, ◌&&◌, ◌==◌, length,
}
use happylock.Shared.{Shared}
use happylock.Lockable.{Lockable}
use happylock.Lockable.Inner.{Inner, many_inner, pair_inner}
use happylock.Mutex.Data.{
  Mutex, mutex_new, mutex_default, mutex_inner, mutex_into_inner, mutex_get_mut,
}
use happylock.RwLock.Data.{RwLock, rwlock_default, rwlock_inner, rwlock_into_inner}
use happylock.Collection.Boxing.{Heap, boxing_new_unchecked, boxing_child, boxing_into_child}
use happylock.Collection.Values.{
  vec, owned_child_mut, owned_into_child, retrying_into_child, RetryingLockCollection,
  OwnedLockCollection, owned_new, owned_into_iter, owned_from_iter, owned_extend, owned_as_mut,
  owned_default, owned_inner, retrying_new, retrying_default, retrying_inner, retrying_into_iter,
  retrying_extend, retrying_as_ref, retrying_child, ref_new, ref_child, ref_as_ref, boxing_new,
  boxing_default, boxing_into_iter, boxing_into_inner, boxing_as_ref,
}
use happylock.Tests.Simulation.{Sim}

-- A mutex as a value, around data of a type.
abbrev Value : Type 0 → Type 0
Value T = Mutex (Unit {0}) T

abbrev values : List ℕ → List (Value ℕ)
values data_ = map (mutex_new tt) data_

-- Each mutex, moved out, holds its index.
abbrev hold_indices : ℕ → List (Value ℕ) → Bool
hold_indices i [] = true
hold_indices i (m ∷ ms) = mutex_into_inner m == i && hold_indices (i + 1) ms

abbrev empty_heap : {L : Type 0} → Heap L
empty_heap = record { next = 0; boxes = λ p. none; dropped = [] }

-- `(Mutex<f64>, Mutex<Option<i32>>, Mutex<usize>)`, with the numbers of `f64` and `String` being
-- those of ℕ: only their defaults matter.
abbrev Triple : Type 0
Triple = Value ℕ × (Value (Option ℕ) × Value ℕ)

abbrev triple_inner : Inner Triple (ℕ × (Option ℕ × ℕ))
triple_inner = pair_inner mutex_inner (pair_inner mutex_inner mutex_inner)

abbrev default_triple : Triple
default_triple = (mutex_default tt 0, (mutex_default tt none, mutex_default tt 0))

abbrev are_defaults : ℕ × (Option ℕ × ℕ) → Bool
are_defaults (a, (none, c)) = a == 0 && c == 0
are_defaults (a, (some b, c)) = false

-- The same with an `RwLock` in front.
abbrev rw_default_triple : RwLock (Unit {0}) ℕ × (Value (Option ℕ) × Value ℕ)
rw_default_triple = (rwlock_default tt 0, (mutex_default tt none, mutex_default tt 0))

-- Tests of a boxed collection, in whatever way its child is lockable.
module _ {G D : Type 0} where
  abbrev boxed_into_owned_iterator : (List (Value ℕ) → Lockable (Shared Sim) G D) → Bool
  boxed_into_owned_iterator lockable =
      let (c, h) = boxing_new lockable (values (0 ∷ 1 ∷ 2 ∷ [])) empty_heap in
      elim (boxing_into_iter vec c h) [ none ↦ false | some (ms, h') ↦ hold_indices 0 ms ]

  abbrev boxed_uses_correct_default : (Triple → Lockable (Shared Sim) G D) → Bool
  boxed_uses_correct_default lockable =
      let (c, h) = boxing_default lockable default_triple empty_heap in
      elim (boxing_into_inner triple_inner c h) [ none ↦ false | some (v, h') ↦ are_defaults v ]

  abbrev boxed_into_inner_works : (Value ℕ × Value ℕ → Lockable (Shared Sim) G D) → Bool
  boxed_into_inner_works lockable =
      let (c, h) = boxing_new lockable (mutex_new tt 10, mutex_new tt 47) empty_heap in
      elim (boxing_into_inner (pair_inner mutex_inner mutex_inner) c h) [
        | none ↦ false
        | some (v, h') ↦ v.0 == 10 && v.1 == 47
      ]

  -- For a reference to an array at the address 7.
  abbrev boxed_as_ref_works : (ℕ → Lockable (Shared Sim) G D) → Bool
  boxed_as_ref_works lockable =
      let (c, h) = boxing_new lockable 7 empty_heap in
      elim (boxing_as_ref (λ mutexes. mutexes) c h) [ none ↦ false | some a ↦ a == 7 ]

  abbrev boxed_child_test : (ℕ → Lockable (Shared Sim) G D) → Bool
  boxed_child_test lockable =
      let (c, h) = boxing_new lockable 7 empty_heap in
      elim (boxing_child c h) [ none ↦ false | some a ↦ a == 7 ]

  abbrev ref_as_ref_works : (ℕ → Lockable (Shared Sim) G D) → Bool
  ref_as_ref_works lockable = ref_as_ref (λ mutexes. mutexes) (ref_new lockable 7) == 7

  abbrev ref_child_test : (ℕ → Lockable (Shared Sim) G D) → Bool
  ref_child_test lockable = ref_child (ref_new lockable 7) == 7

  boxed_ref_tests :
      (l : List (Value ℕ) → Lockable (Shared Sim) G D) (t : Triple → Lockable (Shared Sim) G D)
      (p : Value ℕ × Value ℕ → Lockable (Shared Sim) G D) (r : ℕ → Lockable (Shared Sim) G D)
      → boxed_into_owned_iterator l
          && boxed_uses_correct_default t
          && boxed_into_inner_works p
          && boxed_as_ref_works r
          && boxed_child_test r
          && ref_as_ref_works r
          && ref_child_test r
        ≡ true
  unfolding mutex_new mutex_default mutex_inner mutex_into_inner pair_inner boxing_new_unchecked
      boxing_child boxing_into_child boxing_new boxing_default boxing_into_iter boxing_into_inner
      boxing_as_ref ref_new ref_child ref_as_ref
  boxed_ref_tests l t p r = refl

abbrev retrying_uses_correct_default : Bool
retrying_uses_correct_default = are_defaults (
    (retrying_inner (pair_inner rwlock_inner (pair_inner mutex_inner mutex_inner))).into_inner
      (retrying_default rw_default_triple))

abbrev retrying_into_owned_iterator : Bool
retrying_into_owned_iterator =
    hold_indices 0 (retrying_into_iter vec (retrying_new (values (0 ∷ 1 ∷ 2 ∷ []))))

abbrev retrying_extend_collection : Bool
retrying_extend_collection =
    let collection = retrying_extend vec (retrying_new (values (0 ∷ []))) (values (0 ∷ [])) in
    length ((retrying_inner (many_inner mutex_inner)).into_inner collection) == 2

abbrev retrying_as_ref_works : Bool
retrying_as_ref_works = retrying_as_ref (λ mutexes. mutexes) (retrying_new 7) == 7

abbrev retrying_child_test : Bool
retrying_child_test = retrying_child (retrying_new 7) == 7

abbrev owned_default_works : Bool
owned_default_works =
    are_defaults ((owned_inner triple_inner).into_inner (owned_default default_triple))

abbrev collected : OwnedLockCollection (List (Value ℕ))
collected = owned_from_iter vec (values (0 ∷ 1 ∷ 2 ∷ 3 ∷ []))

abbrev owned_from_into_iter_is_correct : Bool
owned_from_into_iter_is_correct =
    length ((owned_inner (many_inner mutex_inner)).get_mut collected) == 4
    && hold_indices 0 (owned_into_iter vec collected)

-- Each mutex shows its index through `get_mut`.
abbrev show_indices : ℕ → List (Value ℕ) → Bool
show_indices i [] = true
show_indices i (m ∷ ms) = mutex_get_mut m == i && show_indices (i + 1) ms

abbrev owned_from_iter_is_correct : Bool
owned_from_iter_is_correct =
    let collection = owned_as_mut (λ v. v) collected in
    length collection == 4 && show_indices 0 collection

abbrev owned_can_be_extended : Bool
owned_can_be_extended =
    length (owned_extend vec (owned_new (values (0 ∷ 1 ∷ []))) (values (2 ∷ []))).data_ == 3

-- `[0] = Mutex::new(42)` through a mutable reference, which is what can be seen through it.
abbrev set_first : List (Value ℕ) → List (Value ℕ)
set_first [] = []
set_first (m ∷ ms) = mutex_new tt 42 ∷ ms

abbrev first_is_42 : List (Value ℕ) → Bool
first_is_42 [] = false
first_is_42 (m ∷ ms) = mutex_get_mut m == 42

abbrev two_owned : OwnedLockCollection (List (Value ℕ))
two_owned = owned_new (values (0 ∷ 1 ∷ []))

abbrev set_owned : List (Value ℕ) → OwnedLockCollection (List (Value ℕ))
set_owned child = record two_owned { data_ = set_first child }

abbrev owned_as_mut_works : Bool
owned_as_mut_works =
    first_is_42 (owned_as_mut (λ v. v) (set_owned (owned_as_mut (λ v. v) two_owned)))

abbrev owned_child_mut_works : Bool
owned_child_mut_works = first_is_42 (owned_child_mut (set_owned (owned_child_mut two_owned)))

abbrev owned_into_child_works : Bool
owned_into_child_works = first_is_42 (owned_into_child (set_owned (owned_child_mut two_owned)))

abbrev two_retrying : RetryingLockCollection (List (Value ℕ))
two_retrying = retrying_new (values (0 ∷ 1 ∷ []))

abbrev set_retrying : List (Value ℕ) → RetryingLockCollection (List (Value ℕ))
set_retrying child = record two_retrying { data_ = set_first child }

abbrev retrying_as_mut_works : Bool
retrying_as_mut_works =
    first_is_42 (retrying_as_ref (λ v. v) (set_retrying (retrying_as_ref (λ v. v) two_retrying)))

abbrev retrying_child_mut_works : Bool
retrying_child_mut_works = first_is_42 (retrying_child (set_retrying (retrying_child two_retrying)))

abbrev retrying_into_child_works : Bool
retrying_into_child_works =
    first_is_42 (retrying_into_child (set_retrying (retrying_child two_retrying)))

contents_tests :
    retrying_uses_correct_default && retrying_into_owned_iterator && retrying_extend_collection
      && retrying_as_ref_works && retrying_child_test && owned_default_works
      && owned_from_into_iter_is_correct && owned_from_iter_is_correct && owned_can_be_extended
      && owned_as_mut_works && owned_child_mut_works && owned_into_child_works
      && retrying_as_mut_works && retrying_child_mut_works && retrying_into_child_works
    ≡ true
unfolding mutex_new mutex_default mutex_inner mutex_into_inner mutex_get_mut rwlock_default
    rwlock_inner rwlock_into_inner pair_inner many_inner owned_new owned_into_iter owned_from_iter
    owned_extend owned_as_mut owned_default owned_inner retrying_new retrying_default retrying_inner
    retrying_into_iter retrying_extend retrying_as_ref retrying_child owned_child_mut
    owned_into_child retrying_into_child
contents_tests = refl
