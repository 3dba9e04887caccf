-- ===== src/Lockable/Slices.antt =====
-- The implementations of src/lockable.rs for arrays, boxed slices and vectors, by trait. They go
-- through the elements in order; those of `Lockable` and of `Sharable` differ in the parts of the
-- elements that they use.
use happylock.Base.{List}
use happylock.Lockable.{Lockable, many}
use happylock.Lockable.Inner.{Inner, many_inner}

module _ {S G D : Type 0} (ls : List (Lockable S G D)) where
  unfoldable pub array_sharable : Lockable S (List G) (List D)
  unfolding many
  array_sharable = many ls

  unfoldable pub slice_lockable : Lockable S (List G) (List D)
  unfolding many
  slice_lockable = many ls

  unfoldable pub slice_sharable : Lockable S (List G) (List D)
  unfolding many
  slice_sharable = many ls

  unfoldable pub vec_lockable : Lockable S (List G) (List D)
  unfolding many
  vec_lockable = many ls

  unfoldable pub vec_sharable : Lockable S (List G) (List D)
  unfolding many
  vec_sharable = many ls

module _ {L I : Type 0} (i : Inner L I) where
  -- `LockableGetMut` and `LockableIntoInner`
  unfoldable pub slice_inner : Inner (List L) (List I)
  unfolding many_inner
  slice_inner = many_inner i

  unfoldable pub vec_inner : Inner (List L) (List I)
  unfolding many_inner
  vec_inner = many_inner i
