-- ===== src/Collection/Values.antt =====
-- What the collections do as owners of their data, without locking: constructors, access to the
-- child, iterators, `into_inner` and `get_mut` in src/collection/owned.rs, retry.rs, ref.rs and
-- boxed.rs. The traits of the standard library that the child implements are arguments.
pub mod Keeping
use happylock.Base.{Option, none, some, List, ◌++◌}
use happylock.RawLock.{RawLock}
use happylock.Lockable.{Lockable}
use happylock.Lockable.Inner.{Inner}
use happylock.Collection.Utils.{get_locks}
use happylock.Collection.Boxing.{
  Heap, BoxedCollection, boxing_new_unchecked, boxing_child, boxing_into_child,
}

-- `FromIterator`, `IntoIterator` and `Extend` of a child, whose elements are a list.
pub record Container (C L : Type 0) : Type 0 where
  pub collect : List L → C
  pub into_iter : C → List L
  pub extend : C → List L → C

-- `Vec`
abbrev pub vec : {L : Type 0} → Container (List L) L
vec = record { collect = λ xs. xs; into_iter = λ xs. xs; extend = λ xs ys. xs ++ ys }

pub record OwnedLockCollection (L : Type 0) : Type 0 where
  pub data_ : L

pub record RetryingLockCollection (L : Type 0) : Type 0 where
  pub data_ : L

-- With the value that the collection refers to.
pub record RefLockCollection (S L : Type 0) : Type 0 where
  pub data_ : L
  pub locks : List (RawLock S)

module _ {L : Type 0} where
  unfoldable pub owned_new : L → OwnedLockCollection L
  owned_new data_ = record { data_ = data_ }

  unfoldable pub owned_from : L → OwnedLockCollection L
  unfolding owned_new
  owned_from value = owned_new value

  unfoldable pub owned_default : L → OwnedLockCollection L
  unfolding owned_new
  owned_default default = owned_new default

  unfoldable pub owned_into_child : OwnedLockCollection L → L
  owned_into_child c = c.data_

  unfoldable pub owned_child_mut : OwnedLockCollection L → L
  owned_child_mut c = c.data_

  unfoldable pub owned_as_mut : {T : Type 0} → (L → T) → OwnedLockCollection L → T
  owned_as_mut as_mut c = as_mut c.data_

  -- `LockableIntoInner` and `LockableGetMut`
  unfoldable pub owned_inner : {I : Type 0} → Inner L I → Inner (OwnedLockCollection L) I
  owned_inner i = record {
    into_inner = λ c. i.into_inner c.data_;
    get_mut = λ c. i.get_mut c.data_;
    write_back = λ c v. record c { data_ = i.write_back c.data_ v };
  }

  unfoldable pub retrying_new_unchecked : L → RetryingLockCollection L
  retrying_new_unchecked data_ = record { data_ = data_ }

  -- `new` and `new_ref`
  unfoldable pub retrying_new : L → RetryingLockCollection L
  unfolding retrying_new_unchecked
  retrying_new data_ = retrying_new_unchecked data_

  unfoldable pub retrying_from : L → RetryingLockCollection L
  unfolding retrying_new
  retrying_from value = retrying_new value

  unfoldable pub retrying_default : L → RetryingLockCollection L
  unfolding retrying_new
  retrying_default default = retrying_new default

  unfoldable pub retrying_into_child : RetryingLockCollection L → L
  retrying_into_child c = c.data_

  -- `child` and `child_mut`
  unfoldable pub retrying_child : RetryingLockCollection L → L
  retrying_child c = c.data_

  -- `as_ref` and `as_mut`
  unfoldable pub retrying_as_ref : {T : Type 0} → (L → T) → RetryingLockCollection L → T
  retrying_as_ref as_ref c = as_ref c.data_

  -- `LockableIntoInner` and `LockableGetMut`
  unfoldable pub retrying_inner : {I : Type 0} → Inner L I → Inner (RetryingLockCollection L) I
  retrying_inner i = record {
    into_inner = λ c. i.into_inner c.data_;
    get_mut = λ c. i.get_mut c.data_;
    write_back = λ c v. record c { data_ = i.write_back c.data_ v };
  }

module _ {C L : Type 0} (k : Container C L) where
  unfoldable pub owned_into_iter : OwnedLockCollection C → List L
  owned_into_iter c = k.into_iter c.data_

  unfoldable pub owned_from_iter : List L → OwnedLockCollection C
  unfolding owned_new
  owned_from_iter iter = owned_new (k.collect iter)

  unfoldable pub owned_extend : OwnedLockCollection C → List L → OwnedLockCollection C
  owned_extend c iter = record c { data_ = k.extend c.data_ iter }

  -- `into_iter` of the collection and of references to it, `iter` and `iter_mut`.
  unfoldable pub retrying_into_iter : RetryingLockCollection C → List L
  retrying_into_iter c = k.into_iter c.data_

  unfoldable pub retrying_iter : RetryingLockCollection C → List L
  unfolding retrying_into_iter
  retrying_iter c = retrying_into_iter c

  unfoldable pub retrying_from_iter : List L → RetryingLockCollection C
  unfolding retrying_new
  retrying_from_iter iter = retrying_new (k.collect iter)

  unfoldable pub retrying_extend : RetryingLockCollection C → List L → RetryingLockCollection C
  retrying_extend c iter = record c { data_ = k.extend c.data_ iter }

  unfoldable pub ref_into_iter : {S : Type 0} → RefLockCollection S C → List L
  ref_into_iter c = k.into_iter c.data_

  unfoldable pub ref_iter : {S : Type 0} → RefLockCollection S C → List L
  unfolding ref_into_iter
  ref_iter c = ref_into_iter c

  -- `into_iter`, which moves the child out of its box.
  unfoldable pub boxing_into_iter :
      {S : Type 0} → BoxedCollection S → Heap C → Option (List L × Heap C)
  unfolding boxing_into_child
  boxing_into_iter c h = elim (boxing_into_child c h) [
    | none ↦ none
    | some (x, h') ↦ some (k.into_iter x, h')
  ]

  -- `into_iter` of a reference, and `iter`.
  unfoldable pub boxing_iter : {S : Type 0} → BoxedCollection S → Heap C → Option (List L)
  unfolding boxing_child
  boxing_iter c h = elim (boxing_child c h) [ none ↦ none | some x ↦ some (k.into_iter x) ]

module _ {S G D L : Type 0} (lockable : L → Lockable S G D) where
  -- `new`
  unfoldable pub ref_new : L → RefLockCollection S L
  ref_new data_ = record { data_ = data_; locks = get_locks (lockable data_) }

  unfoldable pub ref_from : L → RefLockCollection S L
  unfolding ref_new
  ref_from value = ref_new value

  -- `new` and `new_ref`
  unfoldable pub boxing_new : L → Heap L → BoxedCollection S × Heap L
  unfolding boxing_new_unchecked
  boxing_new data_ h = boxing_new_unchecked lockable data_ h

  unfoldable pub boxing_from : L → Heap L → BoxedCollection S × Heap L
  unfolding boxing_new
  boxing_from value h = boxing_new value h

  unfoldable pub boxing_default : L → Heap L → BoxedCollection S × Heap L
  unfolding boxing_new
  boxing_default default h = boxing_new default h

  unfoldable pub boxing_from_iter :
      {E : Type 0} → Container L E → List E → Heap L → BoxedCollection S × Heap L
  unfolding boxing_new
  boxing_from_iter k iter h = boxing_new (k.collect iter) h

module _ {S L : Type 0} where
  unfoldable pub ref_child : RefLockCollection S L → L
  ref_child c = c.data_

  unfoldable pub ref_as_ref : {T : Type 0} → (L → T) → RefLockCollection S L → T
  ref_as_ref as_ref c = as_ref c.data_

  unfoldable pub boxing_as_ref : {T : Type 0} → (L → T) → BoxedCollection S → Heap L → Option T
  unfolding boxing_child
  boxing_as_ref as_ref c h = elim (boxing_child c h) [ none ↦ none | some x ↦ some (as_ref x) ]

  unfoldable pub boxing_into_inner :
      {I : Type 0} → Inner L I → BoxedCollection S → Heap L → Option (I × Heap L)
  unfolding boxing_into_child
  boxing_into_inner i c h = elim (boxing_into_child c h) [
    | none ↦ none
    | some (x, h') ↦ some (i.into_inner x, h')
  ]
