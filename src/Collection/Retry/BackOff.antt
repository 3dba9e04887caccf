-- ===== src/Collection/Retry/BackOff.antt =====
-- Backing off from a round of the retrying loop, after an attempt that has failed.
use happylock.Base.{
  ℕ, ◌<◌, ◌≡◌, refl, sym, Bool, true, false, none, some, List, ◌∷◌, ◌++◌, take, length,
  length-append, subst, ap, ◌∙◌, arith, tests, leb, if◌then◌else◌,
}
use happylock.Exec.{
  M, Res, ok, panic, hang, ret, ◌>>=◌, ◌>>◌, and_then, beside, lift, get_cell, set_cell,
}
use happylock.RawLock.{RawLock, Mode, raw_unlock}
use happylock.RawLock.Holding.{
  All-has, claim, AllAt, Disjoint, claim-undo, AllAt-claim, AllAt-claim_of_has,
}
use happylock.RawLock.Contract.{Holding, feet}
use happylock.Collection.Utils.{attempt_to_recover}
use happylock.Collection.Retry.{Cells, Round, complete, again, index, back_off}
use happylock.Collection.Retry.Places.{Within, Within-append_right, foot-Within, foot-Disjoint}
use happylock.Collection.Retry.Progress.{Progress, Goes, Goes-from, attempt_to_recover-Goes}
use happylock.Collection.Retry.Front.{
  Started, take_front, front-Distinct, front-laws, at-free, at-law, Holds, only_first, nothing_left,
}

module _ {S : Type 0} {p : Progress S} {held : S → Holding} {m : Mode} {foot : RawLock S → List ℕ}
    {locks : List (RawLock S)} {h : Holding} {f : ℕ} {first : RawLock S}
    (st : Started p held m foot locks h f first) (t : S) where
  -- How a round that started in `t` ends.
  abbrev pub Ends : Res (Cells × S) Round → Type 0
  Ends (ok complete (c, s)) = (held s ≡ claim (some m) (feet foot locks) h) × p.Le t s
  Ends (ok again (c, s)) = (held s ≡ h) × (c.locked ≡ 0) × (c.first_index < length locks) × p.Lt t s
  Ends (panic s) = p.Bad
  Ends hang = p.Bad

  pub forget : Cells → ℕ → M (Cells × S) Round
  forget c i = (do
    cells ← get_cell
    set_cell (record cells { locked = 0 })
    cells ← get_cell
    set_cell (record cells { first_index = i })
    ret again)

  forget-Ends :
      (c : Cells) (i : ℕ) (t' : S) (r : Res S (Unit {0}))
      → i < length locks
      → p.Lt t t'
      → Goes p held h t' r
      → Ends (and_then (beside c r) (λ _. forget c i))
  unfolding forget
  forget-Ends c i t' (ok _ s) lt q g = (g.0, refl, lt, p.lt_le t t' s q g.1)
  forget-Ends c i t' (panic s) lt q g = g
  forget-Ends c i t' hang lt q g = g

  pub index-first : {A : Type 0} (k : RawLock S → M S A) (j : ℕ) → j ≡ f → index locks j k ≡ k first
  unfolding index
  index-first k j e = rw e (rw (st.at, index))

  in_range :
      (front ls : List (RawLock S)) (l : RawLock S) (i : ℕ)
      → locks ≡ front ++ l ∷ ls
      → i ≡ length front
      → i < length locks
  in_range front ls l i e n = omega (arith, ap length e, length-append front (l ∷ ls))

  first-Goes :
      (s t' : S)
      → held s ≡ claim (some m) (foot first) h
      → p.Le t' s
      → Goes p held h t' (raw_unlock m first s)
  first-Goes s t' e le = Goes-from p held h t' s (raw_unlock m first s) le (
      subst (λ g. Goes p held g s (raw_unlock m first s))
        (ap (claim none (foot first)) e
          ∙ claim-undo none (some m) (foot first) h (at-free st locks f first st.free st.at))
        ((at-law st locks f first st.laws st.at).unlocks s
          (rw e (AllAt-claim (some m) (foot first) h))))

  -- The first lock is still held after the recovery exactly if its index is not below `i`.
  release_first-Ends :
      (c : Cells) (front ls : List (RawLock S)) (l : RawLock S) (i : ℕ) (t' s g : S)
      → locks ≡ front ++ l ∷ ls
      → i ≡ length front
      → c.first_index ≡ f
      → p.Lt t t'
      → Holds st front g
      → held s ≡ claim none (feet foot front) (held g)
      → p.Le t' s
      → (b : Bool) → leb i c.first_index ≡ b
      → Ends (
          and_then
            ((if b then lift (index locks c.first_index (raw_unlock m)) else ret tt) (c, s))
            (λ _. forget c i))
  release_first-Ends c front ls l i t' s g e n cf lt q r le true b =
      let apart : Disjoint (feet foot front) (foot first) =
        subst (λ k. Disjoint (feet foot k) (foot first)) (take_front st front (l ∷ ls) i e n)
          (foot-Disjoint foot locks f i first st.d st.at (omega tests)) in
      rw (index-first (raw_unlock m) c.first_index cf) (
        forget-Ends c i t' (raw_unlock m first s) (in_range front ls l i e n) lt
          (first-Goes s t' (only_first st front (l ∷ ls) s g e apart q r) le))
  release_first-Ends c front ls l i t' s g e n cf lt q r le false b =
      let within : Within (feet foot front) (foot first) =
        subst (λ k. Within (feet foot k) (foot first)) (take_front st front (l ∷ ls) i e n)
          (foot-Within foot locks f i first st.at (ground arith)) in
      forget-Ends c i t' (ok tt s) (in_range front ls l i e n) lt
        (nothing_left st front (l ∷ ls) s g e within q r, le)

  recovered-Ends :
      (c : Cells) (front ls : List (RawLock S)) (l : RawLock S) (i : ℕ) (t' : S)
      (r : Res S (Unit {0}))
      → locks ≡ front ++ l ∷ ls
      → i ≡ length front
      → c.first_index ≡ f
      → p.Lt t t'
      → Holds st front t'
      → Goes p held (claim none (feet foot front) (held t')) t' r
      → Ends (
          and_then (beside c r) (λ _. (do
            cells ← get_cell
            if leb i cells.first_index
                then lift (index locks cells.first_index (raw_unlock m))
                else ret tt
            forget c i)))
  recovered-Ends c front ls l i t' (ok _ s) e n cf lt q g =
      release_first-Ends c front ls l i t' s t' e n cf lt q g.0 g.1 (leb i c.first_index) refl
  recovered-Ends c front ls l i t' (panic s) e n cf lt q g = g
  recovered-Ends c front ls l i t' hang e n cf lt q g = g

  pub back_off-Ends :
      (c : Cells) (front ls : List (RawLock S)) (l : RawLock S) (i : ℕ) (t' : S)
      → locks ≡ front ++ l ∷ ls
      → i ≡ length front
      → c.first_index ≡ f
      → p.Lt t t'
      → Holds st front t'
      → Ends (back_off m locks i (c, t'))
  unfolding back_off forget
  back_off-Ends c front ls l i t' e n cf lt q =
      let ff = feet foot front in
      let held_front : AllAt (some m) ff (held t') = rw q (
        AllAt-claim_of_has (some m) (foot first ++ ff) ff h
          (Within-append_right (foot first) ff ff (All-has ff))) in
      recovered-Ends c front ls l i t' (attempt_to_recover m (take i locks) t') e n cf lt q (
        subst (λ k. Goes p held (claim none ff (held t')) t' (attempt_to_recover m k t'))
          (sym (take_front st front (l ∷ ls) i e n))
          (attempt_to_recover-Goes p held m foot front t' (front-laws st front (l ∷ ls) e)
            (front-Distinct st front (l ∷ ls) e) held_front))
