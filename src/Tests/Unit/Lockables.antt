-- ===== src/Tests/Unit/Lockables.antt =====
-- Unit tests of src/lockable.rs. The locks of a test lie at the addresses 1 and 2; the fields of a
-- lock, `raw()` among them, have its address.
use happylock.Base.{
  ℕ, ◌≡◌, refl, true, List, [], ◌∷◌, ◌&&◌, ◌==◌, none, some, get_elem?, length, map,
}
use happylock.Exec.{ret, throw, ◌>>=◌, ◌>>◌}
use happylock.Key.{borrowed}
use happylock.Shared.{Shared}
use happylock.RawLock.{RawLock, write, read}
use happylock.Lockable.{Lockable, many, by_ref}
use happylock.Lockable.Inner.{many_inner}
use happylock.Lockable.Slices.{
  vec_lockable, slice_lockable, vec_sharable, slice_sharable, vec_inner, slice_inner,
}
use happylock.Mutex.{MutexRef, mutex_lock, mutex_lockable}
use happylock.Mutex.Data.{Mutex, mutex_new, mutex_inner, mutex_into_inner, mutex_get_mut}
use happylock.Mutex.Deref.{mutex_ref_deref}
use happylock.RwLock.{RwLockRef, rwlock_lock, rwlock_lockable}
use happylock.RwLock.Deref.{read_ref_deref, write_ref_deref}
use happylock.Collection.Utils.{ordered_lock, unlock_all, sort_by_addr}
use happylock.Collection.Access.{lock_guard_drop}
use happylock.Collection.Access.Deref.{lock_guard_deref}
use happylock.Collection.Sorted.{boxed_new_unchecked, sorted_lockable}
use happylock.Collection.Sorted.BoxedMethods.{
  boxed_lock, boxed_unlock, boxed_scoped_lock, boxed_read, boxed_scoped_read,
}
use happylock.Tests.Simulation.{Sim, Program, sim_mutex, sim_rwlock, assert, get_key, passes}
use happylock.Tests.Unit.{Api, holding, load_at, store_at}
use happylock.Tests.Unit.Boxed.{api, reading}

-- `[Mutex::new(..), ..]` at the given addresses.
abbrev mutexes : List ℕ → List (Lockable (Shared Sim) MutexRef ℕ)
mutexes places = map (mutex_lockable sim_mutex) places

-- `addr_eq` of each lock and a place.
abbrev addr_eq : List (RawLock (Shared Sim)) → List ℕ → Program (Unit {0})
addr_eq [] bs = ret tt
addr_eq (l ∷ ls) [] = throw
addr_eq (l ∷ ls) (b ∷ bs) = do assert (l.addr == b); addr_eq ls bs

-- `get_ptrs` into an empty vector pushes the locks at the given addresses.
abbrev pushes : {G D : Type 0} → Lockable (Shared Sim) G D → List ℕ → Program (Unit {0})
pushes locks places = do
  let lock_ptrs = locks.get_ptrs []
  assert (length lock_ptrs == length places)
  addr_eq lock_ptrs places

abbrev mut_ref_get_ptrs : Program (Unit {0})
mut_ref_get_ptrs = pushes (by_ref (rwlock_lockable sim_rwlock write 1)) (1 ∷ [])

abbrev array_get_ptrs_empty : Program (Unit {0})
array_get_ptrs_empty = pushes (many (mutexes [])) []

abbrev array_get_ptrs_length_one : Program (Unit {0})
array_get_ptrs_length_one = pushes (many (mutexes (1 ∷ []))) (1 ∷ [])

abbrev array_get_ptrs_length_two : Program (Unit {0})
array_get_ptrs_length_two = pushes (many (mutexes (1 ∷ 2 ∷ []))) (1 ∷ 2 ∷ [])

abbrev vec_get_ptrs_empty : Program (Unit {0})
vec_get_ptrs_empty = pushes (vec_lockable (mutexes [])) []

abbrev vec_get_ptrs_length_one : Program (Unit {0})
vec_get_ptrs_length_one = pushes (vec_lockable (mutexes (1 ∷ []))) (1 ∷ [])

abbrev vec_get_ptrs_length_two : Program (Unit {0})
vec_get_ptrs_length_two = pushes (vec_lockable (mutexes (1 ∷ 2 ∷ []))) (1 ∷ 2 ∷ [])

abbrev box_get_ptrs_empty : Program (Unit {0})
box_get_ptrs_empty = pushes (slice_lockable (mutexes [])) []

abbrev box_get_ptrs_length_one : Program (Unit {0})
box_get_ptrs_length_one = pushes (slice_lockable (mutexes (1 ∷ []))) (1 ∷ [])

abbrev box_get_ptrs_length_two : Program (Unit {0})
box_get_ptrs_length_two = pushes (slice_lockable (mutexes (1 ∷ 2 ∷ []))) (1 ∷ 2 ∷ [])

-- `Mutex::new` as values, and a vector that holds 1 and 2.
abbrev two_values : List (Mutex (Unit {0}) ℕ)
two_values = mutex_new tt 1 ∷ mutex_new tt 2 ∷ []

abbrev are_1_and_2 : List ℕ → Program (Unit {0})
are_1_and_2 data_ = do
  assert (length data_ == 2)
  elim (get_elem? data_ 0) [ none ↦ throw | some v ↦ assert (v == 1) ]
  elim (get_elem? data_ 1) [ none ↦ throw | some v ↦ assert (v == 2) ]

abbrev vec_as_mut : Program (Unit {0})
vec_as_mut = are_1_and_2 ((vec_inner mutex_inner).get_mut two_values)

abbrev vec_into_inner : Program (Unit {0})
vec_into_inner = are_1_and_2 ((vec_inner mutex_inner).into_inner two_values)

abbrev box_as_mut : Program (Unit {0})
box_as_mut = are_1_and_2 ((slice_inner mutex_inner).get_mut two_values)

-- `assert_eq!(*guard[0], v); assert_eq!(*guard[1], w);`
abbrev assert_both : ℕ → ℕ → List ℕ → Program (Unit {0})
assert_both v w guard = do
  a ← load_at guard 0
  assert (a == v)
  b ← load_at guard 1
  assert (b == w)

module _ {X Y : Type 0} (deref : X → ℕ) (deref' : Y → ℕ) (writing : Api (List X) (List ℕ))
    (later : Api (List Y) (List ℕ)) where
  -- The tests with guards: what was written before `unlock` is there afterwards.
  abbrev guard_test : Program (Unit {0})
  guard_test = do
    key ← get_key
    guard ← writing.lock key
    assert_both 1 2 (map deref (lock_guard_deref guard))
    store_at (map deref (lock_guard_deref guard)) 0 3
    key ← writing.unlock guard
    guard ← later.lock key
    assert_both 3 2 (map deref' (lock_guard_deref guard))
    later.drop_guard guard

  -- The tests with data: the same for two scoped calls.
  abbrev data_test : Program (Unit {0})
  data_test = do
    key ← get_key
    _ ←
        writing.scoped_lock (borrowed key)
          (λ guard. (do assert_both 1 2 guard; store_at guard 0 3; ret 0))
    _ ← later.scoped_lock (borrowed key) (λ guard. (do assert_both 3 2 guard; ret 0))
    ret tt

abbrev two_rwlocks : List (Lockable (Shared Sim) RwLockRef ℕ)
two_rwlocks = rwlock_lockable sim_rwlock write 1 ∷ rwlock_lockable sim_rwlock write 2 ∷ []

abbrev two_shared : List (Lockable (Shared Sim) RwLockRef ℕ)
two_shared = rwlock_lockable sim_rwlock read 1 ∷ rwlock_lockable sim_rwlock read 2 ∷ []

abbrev two_mutexes : List (Lockable (Shared Sim) MutexRef ℕ)
two_mutexes = mutexes (1 ∷ 2 ∷ [])

abbrev vec_guard_ref : Program (Unit {0})
vec_guard_ref =
    guard_test write_ref_deref read_ref_deref (api (boxed_new_unchecked (vec_lockable two_rwlocks)))
      (reading (boxed_new_unchecked (vec_sharable two_shared)))

abbrev vec_data_mut : Program (Unit {0})
vec_data_mut =
    data_test mutex_ref_deref mutex_ref_deref (api (boxed_new_unchecked (vec_lockable two_mutexes)))
      (api (boxed_new_unchecked (vec_lockable two_mutexes)))

abbrev vec_data_ref : Program (Unit {0})
vec_data_ref =
    data_test write_ref_deref read_ref_deref (api (boxed_new_unchecked (vec_lockable two_rwlocks)))
      (reading (boxed_new_unchecked (vec_sharable two_shared)))

abbrev box_guard_mut : Program (Unit {0})
box_guard_mut =
    guard_test mutex_ref_deref mutex_ref_deref
      (api (boxed_new_unchecked (slice_lockable two_mutexes)))
      (api (boxed_new_unchecked (slice_lockable two_mutexes)))

abbrev box_data_mut : Program (Unit {0})
box_data_mut =
    data_test mutex_ref_deref mutex_ref_deref
      (api (boxed_new_unchecked (slice_lockable two_mutexes)))
      (api (boxed_new_unchecked (slice_lockable two_mutexes)))

abbrev box_guard_ref : Program (Unit {0})
box_guard_ref =
    guard_test write_ref_deref read_ref_deref
      (api (boxed_new_unchecked (slice_lockable two_rwlocks)))
      (reading (boxed_new_unchecked (slice_sharable two_shared)))

abbrev box_data_ref : Program (Unit {0})
box_data_ref =
    data_test write_ref_deref read_ref_deref
      (api (boxed_new_unchecked (slice_lockable two_rwlocks)))
      (reading (boxed_new_unchecked (slice_sharable two_shared)))

lockable_tests :
    passes (holding 5 0) mut_ref_get_ptrs
      && passes (λ a. 0) array_get_ptrs_empty
      && passes (holding 1 0) array_get_ptrs_length_one
      && passes (holding 1 2) array_get_ptrs_length_two
      && passes (λ a. 0) vec_get_ptrs_empty
      && passes (holding 1 0) vec_get_ptrs_length_one
      && passes (holding 1 2) vec_get_ptrs_length_two
      && passes (λ a. 0) box_get_ptrs_empty
      && passes (holding 1 0) box_get_ptrs_length_one
      && passes (holding 1 2) box_get_ptrs_length_two
      && passes (λ a. 0) vec_as_mut
      && passes (λ a. 0) vec_into_inner
      && passes (λ a. 0) box_as_mut
      && passes (holding 1 2) vec_guard_ref
      && passes (holding 1 2) vec_data_mut
      && passes (holding 1 2) vec_data_ref
      && passes (holding 1 2) box_guard_mut
      && passes (holding 1 2) box_data_mut
      && passes (holding 1 2) box_guard_ref
      && passes (holding 1 2) box_data_ref
    ≡ true
unfolding get_key many by_ref many_inner vec_lockable slice_lockable vec_sharable slice_sharable
    vec_inner slice_inner mutex_lock mutex_lockable mutex_new mutex_inner mutex_into_inner
    mutex_get_mut mutex_ref_deref rwlock_lock rwlock_lockable read_ref_deref write_ref_deref
    ordered_lock unlock_all sort_by_addr lock_guard_drop lock_guard_deref boxed_new_unchecked
    sorted_lockable boxed_lock boxed_unlock boxed_scoped_lock boxed_read boxed_scoped_read
lockable_tests = refl
