-- ===== src/Collection/Values/Keeping.antt =====
-- The collections keep the data of their locks, whatever order they lock them in.
use mathlib.Core.List.{map-append}
use happylock.Base.{◌≡◌, sym, ap, ◌∙◌, Option, none, some, List, ◌++◌, map}
use happylock.Lockable.{Lockable}
use happylock.Lockable.Inner.{
  Inner, IsFaithful, many_inner, FitsAll, many_inner-made, many_inner-IsFaithful,
}
use happylock.Collection.Boxing.{Heap}
use happylock.Collection.Boxing.Owning.{IsFresh, SameBoxes, MovedOut, boxing-owns}
use happylock.Collection.Values.{
  vec, owned_from_iter, owned_extend, owned_inner, retrying_from_iter, retrying_extend,
  retrying_inner, boxing_from_iter, boxing_into_inner,
}

module _ {S G D L I : Type 0} (lockable : List L → Lockable S G D) (i : Inner L I)
    (Fits : L → I → Type 0) (law : IsFaithful i Fits) (make : I → L)
    (back : (v : I) → i.into_inner (make v) ≡ v) where
  -- The data come out of the box, and the heap is as it was.
  abbrev pub GivesBack : List I → Heap (List L) → Option (List I × Heap (List L)) → Type 0
  GivesBack vs h none = ⊥
  GivesBack vs h (some (us, h')) = (us ≡ vs) × SameBoxes h h' × (h'.dropped ≡ h.dropped)

  moved-GivesBack :
      (vs : List I) (h : Heap (List L)) (o : Option (List L × Heap (List L)))
      → MovedOut (map make vs) h o
      → GivesBack vs h
          (elim o [ none ↦ none | some (x, h') ↦ some ((many_inner i).into_inner x, h') ])
  moved-GivesBack vs h none m = absurd m
  moved-GivesBack vs h (some (x, h')) (fresh, same, dropped, e) =
      (ap (many_inner i).into_inner e ∙ many_inner-made i make vs back, same, dropped)

  extended : (vs ws : List I) → (many_inner i).into_inner (map make vs ++ map make ws) ≡ vs ++ ws
  extended vs ws =
      ap (many_inner i).into_inner (sym (map-append make vs ws))
      ∙ many_inner-made i make (vs ++ ws) back

  -- Locks that show and give up their own data, made from the data `vs`. `into_inner` of an owned
  -- or retrying collection that is collected from these locks and extended by those made from `ws`
  -- gives `vs ++ ws`, in order; through `get_mut` of the one collected, the data are `vs`, and
  -- `into_inner` after writing fitting data through it gives those. `into_inner` of a boxed
  -- collection that is collected from the locks gives `vs`, frees its box without dropping them,
  -- and leaves the other boxes.
  pub values-kept :
      (vs ws us : List I) (h : Heap (List L))
      → FitsAll Fits (map make vs) us
      → IsFresh h
      → ((owned_inner (many_inner i)).into_inner
            (owned_extend vec (owned_from_iter vec (map make vs)) (map make ws))
          ≡ vs ++ ws)
        × ((retrying_inner (many_inner i)).into_inner
              (retrying_extend vec (retrying_from_iter vec (map make vs)) (map make ws))
            ≡ vs ++ ws)
        × ((owned_inner (many_inner i)).get_mut (owned_from_iter vec (map make vs)) ≡ vs)
        × ((retrying_inner (many_inner i)).get_mut (retrying_from_iter vec (map make vs)) ≡ vs)
        × ((owned_inner (many_inner i)).into_inner
              ((owned_inner (many_inner i)).write_back (owned_from_iter vec (map make vs)) us)
            ≡ us)
        × ((retrying_inner (many_inner i)).into_inner
              ((retrying_inner (many_inner i)).write_back (retrying_from_iter vec (map make vs)) us)
            ≡ us)
        × GivesBack vs h (
            boxing_into_inner
              (many_inner i)
              (boxing_from_iter lockable vec (map make vs) h).0
              (boxing_from_iter lockable vec (map make vs) h).1)
  unfolding owned_inner owned_extend owned_from_iter retrying_inner retrying_extend
      retrying_from_iter boxing_into_inner boxing_from_iter
  values-kept vs ws us h fits fresh =
      let laws = many_inner-IsFaithful i Fits law in
      let back_all = many_inner-made i make vs back in
      let (child, dropped, moved, tried) = boxing-owns lockable (map make vs) h fresh in
      (
        extended vs ws,
        extended vs ws,
        laws.seen (map make vs) ∙ back_all,
        laws.seen (map make vs) ∙ back_all,
        laws.written (map make vs) us fits,
        laws.written (map make vs) us fits,
        moved-GivesBack vs h _ moved,
      )
