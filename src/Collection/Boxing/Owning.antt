-- ===== src/Collection/Boxing/Owning.antt =====
-- A `BoxedLockCollection` owns its data: they are moved out or dropped once, and no other box is
-- touched.
use happylock.Base.{
  ℕ, ◌+◌, ◌≤◌, ◌≡◌, refl, sym, ap, subst, ◌∙◌, Bool, true, false, Option, none, some, [], ◌∷◌,
  if◌then◌else◌, arith,
}
use happylock.Lockable.{Lockable}
use happylock.Collection.Utils.{sort_by_addr, ordered_contains_duplicates}
use happylock.Collection.Boxing.{
  Heap, BoxedCollection, box_leak, box_into_inner, boxing_new_unchecked, boxing_child,
  boxing_into_child, boxing_drop, boxing_try_new, set_box,
}

module _ {L : Type 0} where
  -- No box is allocated from the next address on.
  abbrev pub IsFresh : Heap L → Type 0
  IsFresh h = (p : ℕ) → h.next ≤ p → h.boxes p ≡ none

  -- The second heap has the boxes of the first.
  abbrev pub SameBoxes : Heap L → Heap L → Type 0
  SameBoxes h h' = (p : ℕ) → h'.boxes p ≡ h.boxes p

  -- The heap after a collection was dropped, and what `into_child` gives.
  abbrev pub Dropped : L → Heap L → Option (Heap L) → Type 0
  Dropped x h none = ⊥
  Dropped x h (some h') = IsFresh h' × SameBoxes h h' × (h'.dropped ≡ x ∷ h.dropped)

  abbrev pub MovedOut : L → Heap L → Option (L × Heap L) → Type 0
  MovedOut x h none = ⊥
  MovedOut x h (some (y, h')) = IsFresh h' × SameBoxes h h' × (h'.dropped ≡ h.dropped) × (y ≡ x)

  freed-SameBoxes :
      (o : Option L) (h : Heap L)
      → IsFresh h
      → (p : ℕ) → set_box (set_box h.boxes h.next o) h.next none p ≡ h.boxes p
  freed-SameBoxes o h fresh p = ground (arith, fresh p)

  freed-IsFresh :
      (o : Option L) (h : Heap L)
      → IsFresh h
      → (p : ℕ) → h.next + 1 ≤ p
      → set_box (set_box h.boxes h.next o) h.next none p ≡ none
  freed-IsFresh o h fresh p le = freed-SameBoxes o h fresh p ∙ fresh p (omega arith)

  leaked_box : (x : L) (h : Heap L) → set_box h.boxes h.next (some x) h.next ≡ some x
  leaked_box x h = ground arith

  abbrev freed : L → Heap L → Heap L
  freed x h = record h {
    next = h.next + 1;
    boxes = set_box (set_box h.boxes h.next (some x)) h.next none;
  }

  abbrev moved : Heap L → ℕ → Option L → Option (L × Heap L)
  moved h p o = elim o [
    | none ↦ none
    | some y ↦ some (y, record h { boxes = set_box h.boxes p none })
  ]

  -- What `Box::from_raw` gives for the box that was just made.
  leaked-into_inner :
      (x : L) (h : Heap L) → box_into_inner h.next (box_leak x h).1 ≡ some (x, freed x h)
  unfolding box_leak box_into_inner
  leaked-into_inner x h = ap (moved (box_leak x h).1 h.next) (leaked_box x h)

  abbrev drop_inner : Option (L × Heap L) → Option (Heap L)
  drop_inner o = elim o [ none ↦ none | some (x, h) ↦ some (record h { dropped = x ∷ h.dropped }) ]

module _ {S G D L : Type 0} (lockable : L → Lockable S G D) (x : L) (h : Heap L) where
  abbrev pub made : BoxedCollection S × Heap L
  made = boxing_new_unchecked lockable x h

  made-Dropped : IsFresh h → Dropped x h (boxing_drop made.0 made.1)
  unfolding boxing_drop boxing_new_unchecked
  made-Dropped fresh =
      subst (Dropped x h) (sym (ap drop_inner (leaked-into_inner x h)))
        (freed-IsFresh (some x) h fresh, freed-SameBoxes (some x) h fresh, refl)

  made-MovedOut : IsFresh h → MovedOut x h (boxing_into_child made.0 made.1)
  unfolding boxing_into_child boxing_new_unchecked
  made-MovedOut fresh =
      subst (MovedOut x h) (sym (leaked-into_inner x h))
        (freed-IsFresh (some x) h fresh, freed-SameBoxes (some x) h fresh, refl, refl)

  -- Whether the data list a lock twice.
  abbrev pub Repeats : Bool → Type 0
  Repeats b = ordered_contains_duplicates (sort_by_addr ((lockable x).get_ptrs [])) ≡ b

  -- A collection that is rejected is dropped; else it is what `new_unchecked` gives.
  abbrev pub Tried : Option (Option (BoxedCollection S) × Heap L) → Type 0
  Tried none = ⊥
  Tried (some (none, h')) = Repeats true × Dropped x h (some h')
  Tried (some (some c, h')) = Repeats false × (made ≡ (c, h'))

  abbrev rejected : Option (Heap L) → Option (Option (BoxedCollection S) × Heap L)
  rejected o = elim o [ none ↦ none | some h'' ↦ some (none, h'') ]

  rejected-Tried : (o : Option (Heap L)) → Repeats true → Dropped x h o → Tried (rejected o)
  rejected-Tried none e d = absurd d
  rejected-Tried (some h'') e d = (e, d)

  checked-Tried :
      (b : Bool)
      → Repeats b
      → IsFresh h
      → Tried (if b then rejected (boxing_drop made.0 made.1) else some (some made.0, made.1))
  checked-Tried true e fresh = rejected-Tried (boxing_drop made.0 made.1) e (made-Dropped fresh)
  checked-Tried false e fresh = (e, refl)

  -- A heap with no box from the next address on. A new boxed collection has its data behind
  -- `child`. Dropping it drops the data once, and `into_child` gives the data without dropping
  -- them; the heap then has the boxes that it had before the collection was made. `try_new` gives
  -- such a collection if the data list no lock twice; else it has dropped the data once, and the
  -- heap has the boxes that it had before.
  pub boxing-owns :
      IsFresh h
      → (boxing_child made.0 made.1 ≡ some x)
        × Dropped x h (boxing_drop made.0 made.1)
        × MovedOut x h (boxing_into_child made.0 made.1)
        × Tried (boxing_try_new lockable x h)
  unfolding boxing_new_unchecked boxing_child boxing_try_new box_leak
  boxing-owns fresh =
      (leaked_box x h, made-Dropped fresh, made-MovedOut fresh, checked-Tried _ refl fresh)
