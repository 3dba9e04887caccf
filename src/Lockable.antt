-- ===== src/Lockable.antt =====
-- The traits `Lockable` and `Sharable` of src/lockable.rs, and their implementations there.
--
-- A value of `Lockable S G D` is one lockable value together with one way to lock it: its
-- `Lockable` implementation (`guard`, `data_mut`), or for a shared lock its `Sharable` one
-- (`read_guard`, `data_ref`), which has the same `get_ptrs`. `G` is the guard type, with the code
-- that drops a guard, and `D` the type of the references to the data.
pub mod Guarded
pub mod Inner
pub mod Slices
use happylock.Base.{Bool, true, List, [], ◌∷◌}
use happylock.Exec.{M, ret, ◌>>=◌, ◌>>◌, handle_unwind}
use happylock.RawLock.{RawLock}

pub record Lockable (S G D : Type 0) : Type 0 where
  -- The locks are pushed behind those that are in the vector already.
  pub get_ptrs : List (RawLock S) → List (RawLock S)
  pub guard : M S G
  pub access : M S D  -- `data_mut` or `data_ref`
  -- Whether the thread is panicking, and the guard.
  pub drop_guard : Bool → G → M S (Unit {0})

module _ {S G D : Type 0} where
  -- `impl Lockable for &T` and `for &mut T`: all calls go to the value.
  unfoldable pub by_ref : Lockable S G D → Lockable S G D
  by_ref l = record {
    get_ptrs = λ ptrs. l.get_ptrs ptrs;
    guard = l.guard;
    access = l.access;
    drop_guard = l.drop_guard;
  }

  -- The loops over the elements of an array, a `Box<[T]>` or a `Vec<T>`.
  get_all : List (Lockable S G D) → List (RawLock S) → List (RawLock S)
  get_all [] ptrs = ptrs
  get_all (l ∷ ls) ptrs = get_all ls (l.get_ptrs ptrs)

  guard_all : List (Lockable S G D) → M S (List G)
  guard_all [] = ret []
  guard_all (l ∷ ls) = do g ← l.guard; gs ← guard_all ls; ret (g ∷ gs)

  access_all : List (Lockable S G D) → M S (List D)
  access_all [] = ret []
  access_all (l ∷ ls) = do d ← l.access; ds ← access_all ls; ret (d ∷ ds)

  -- The guards are dropped in order, each by the code of its own type; if one panics, those behind
  -- it are dropped as the thread unwinds.
  drop_all : List (Lockable S G D) → Bool → List G → M S (Unit {0})
  drop_all [] panicking gs = ret tt
  drop_all (l ∷ ls) panicking [] = ret tt
  drop_all (l ∷ ls) panicking (g ∷ gs) = do
    handle_unwind (l.drop_guard panicking g) (drop_all ls true gs)
    drop_all ls panicking gs

  -- `impl Lockable for [T; N]`, `Box<[T]>` and `Vec<T>`.
  unfoldable pub many : List (Lockable S G D) → Lockable S (List G) (List D)
  unfolding get_all guard_all access_all drop_all
  many ls = record {
    get_ptrs = get_all ls;
    guard = guard_all ls;
    access = access_all ls;
    drop_guard = drop_all ls;
  }

-- `tuple_impls!` at two components, dropped like those of an array.
unfoldable pub pair :
    {S G D G' D' : Type 0} → Lockable S G D → Lockable S G' D' → Lockable S (G × G') (D × D')
pair a b = record {
  get_ptrs = λ ptrs. b.get_ptrs (a.get_ptrs ptrs);
  guard = do
    g ← a.guard
    h ← b.guard
    ret (g, h);
  access = do
    d ← a.access
    e ← b.access
    ret (d, e);
  drop_guard = λ panicking gs. (do
    handle_unwind (a.drop_guard panicking gs.0) (b.drop_guard true gs.1)
    b.drop_guard panicking gs.1);
}
