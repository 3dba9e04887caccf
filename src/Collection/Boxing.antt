-- ===== src/Collection/Boxing.antt =====
-- The box of a `BoxedLockCollection` in src/collection/boxed.rs: its constructors, `child`,
-- `into_child` and `drop` on a heap, where freed memory has no value.
pub mod Owning
use happylock.Base.{ℕ, ◌+◌, Bool, Option, none, some, List, [], ◌∷◌, ◌==◌, if◌then◌else◌}
use happylock.RawLock.{RawLock}
use happylock.Lockable.{Lockable}
use happylock.Collection.Utils.{sort_by_addr, ordered_contains_duplicates}

-- The boxes that are allocated, the address that the next one gets, and what has been dropped.
pub record Heap (L : Type 0) : Type 0 where
  pub next : ℕ
  pub boxes : ℕ → Option L
  pub dropped : List L

pub record BoxedCollection (S : Type 0) : Type 0 where
  pub data_ : ℕ
  pub locks : List (RawLock S)

abbrev pub set_box : {L : Type 0} → (ℕ → Option L) → ℕ → Option L → ℕ → Option L
set_box boxes p o q = if q == p then o else boxes q

module _ {L : Type 0} where
  -- `Box::leak(Box::new(data))`
  unfoldable box_leak : L → Heap L → ℕ × Heap L
  box_leak data_ h =
      (h.next, record h { next = h.next + 1; boxes = set_box h.boxes h.next (some data_) })

  -- `Box::from_raw`, and then what the box holds is moved out, which frees it. There is no result
  -- if the box was freed before.
  unfoldable box_into_inner : ℕ → Heap L → Option (L × Heap L)
  box_into_inner p h = elim (h.boxes p) [
    | none ↦ none
    | some x ↦ some (x, record h { boxes = set_box h.boxes p none })
  ]

module _ {S G D L : Type 0} (lockable : L → Lockable S G D) where
  -- `BoxedLockCollection::new_unchecked`
  unfoldable pub boxing_new_unchecked : L → Heap L → BoxedCollection S × Heap L
  unfolding box_leak
  boxing_new_unchecked x h =
      let (data_, h') = box_leak x h in
      (record { data_ = data_; locks = sort_by_addr ((lockable x).get_ptrs []) }, h')

module _ {S L : Type 0} where
  -- `BoxedLockCollection::child`
  unfoldable pub boxing_child : BoxedCollection S → Heap L → Option L
  boxing_child c h = h.boxes c.data_

  -- `BoxedLockCollection::into_child`; the collection is forgotten, so it is not dropped again.
  unfoldable pub boxing_into_child : BoxedCollection S → Heap L → Option (L × Heap L)
  unfolding box_into_inner
  boxing_into_child c h = box_into_inner c.data_ h

  -- `impl Drop for BoxedLockCollection`: the drop of the box drops the data.
  unfoldable pub boxing_drop : BoxedCollection S → Heap L → Option (Heap L)
  unfolding box_into_inner
  boxing_drop c h = elim (box_into_inner c.data_ h) [
    | none ↦ none
    | some (x, h') ↦ some (record h' { dropped = x ∷ h'.dropped })
  ]

module _ {S G D L : Type 0} (lockable : L → Lockable S G D) where
  -- `BoxedLockCollection::try_new`: a collection that is rejected is dropped.
  unfoldable pub boxing_try_new : L → Heap L → Option (Option (BoxedCollection S) × Heap L)
  unfolding boxing_new_unchecked boxing_drop
  boxing_try_new x h =
      let (this, h') = boxing_new_unchecked lockable x h in
      if ordered_contains_duplicates this.locks
      then elim (boxing_drop this h') [ none ↦ none | some h'' ↦ some (none, h'') ]
      else some (some this, h')
