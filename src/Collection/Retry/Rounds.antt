-- ===== src/Collection/Retry/Rounds.antt =====
-- One round of the retrying loop: it breaks with all the locks, or goes on with none.
use happylock.Base.{
  ℕ, ◌+◌, ◌≡◌, refl, sym, Bool, true, false, some, List, [], ◌∷◌, ◌++◌, length, length-append,
  subst, ap, ◌∙◌, arith, ◌==◌, if◌then◌else◌, Bool-cases, inl, inr,
}
use mathlib.Core.List.{append_assoc, append-nil}
use happylock.Exec.{Res, ok, panic, hang, ◌>>=◌, ◌>>◌, and_then, beside, get_cell, set_cell}
use happylock.RawLock.{RawLock, Mode, raw_lock, raw_try_lock}
use happylock.RawLock.Holding.{claim}
use happylock.RawLock.Contract.{Holding, feet}
use happylock.Collection.Retry.{Cells, back_off, try_others, round}
use happylock.Collection.Retry.Places.{foot-Within-feet}
use happylock.Collection.Retry.Progress.{Progress, Goes, TryGoes}
use happylock.Collection.Retry.Front.{
  Started, get_rest, at-free, at-law, Holds, next-free, next-Holds, same-Holds, is_first,
  claim-absorb,
}
use happylock.Collection.Retry.BackOff.{Ends, index-first, back_off-Ends}

module _ {S : Type 0} {p : Progress S} {held : S → Holding} {m : Mode} {foot : RawLock S → List ℕ}
    {locks : List (RawLock S)} {h : Holding} {f : ℕ} {first : RawLock S}
    (st : Started p held m foot locks h f first) (t : S) where
  tried-Ends :
      (c : Cells) (front ls : List (RawLock S)) (l : RawLock S) (i : ℕ) (t' : S) (r : Res S Bool)
      → locks ≡ front ++ l ∷ ls
      → i ≡ length front
      → c.first_index ≡ f
      → p.Le t t'
      → Holds st front t'
      → TryGoes p held (held t') (claim (some m) (foot l) (held t')) t' r
      → ((c' : Cells) (s : S)
          → c'.first_index ≡ f
          → p.Le t s
          → Holds st (front ++ l ∷ []) s
          → Ends st t (try_others m locks (i + 1) ls (c', s)))
      → Ends st t (
          and_then (beside c r) (λ success.
            if success
            then (do
              cells ← get_cell
              set_cell (record cells { locked = cells.locked + 1 })
              try_others m locks (i + 1) ls)
            else back_off m locks i))
  tried-Ends c front ls l i t' (ok true s) e n cf le q g next =
      next (record c { locked = c.locked + 1 }) s cf (p.le_trans t t' s le g.1)
        (next-Holds st front l t' s q g.0)
  tried-Ends c front ls l i t' (ok false s) e n cf le q g next =
      back_off-Ends st t c front ls l i s e n cf (p.le_lt t t' s le g.1) (g.0 ∙ q)
  tried-Ends c front ls l i t' (panic s) e n cf le q g next = g
  tried-Ends c front ls l i t' hang e n cf le q g next = g

  try_others-Ends :
      (rest front : List (RawLock S)) (c : Cells) (i : ℕ) (t' : S)
      → locks ≡ front ++ rest
      → i ≡ length front
      → c.first_index ≡ f
      → p.Le t t'
      → Holds st front t'
      → Ends st t (try_others m locks i rest (c, t'))
  unfolding try_others
  try_others-Ends [] front c i t' e n cf le q =
      let whole = e ∙ append-nil front in
      (
        q
            ∙ subst
                (λ k.
                  claim (some m) (foot first ++ feet foot k) h ≡ claim (some m) (feet foot locks) h)
                whole
                (claim-absorb (some m) (foot first) (feet foot locks) h
                  (foot-Within-feet foot locks f first st.at)),
        le,
      )
  try_others-Ends (l ∷ ls) front c i t' e n cf le q =
      let e' = e ∙ sym (append_assoc front (l ∷ []) ls) in
      let n' : i + 1 ≡ length (front ++ l ∷ []) = omega (arith, length-append front (l ∷ [])) in
      elim (Bool-cases (i == c.first_index)) [
        | inl here ↦ rw here (
            try_others-Ends ls (front ++ l ∷ []) c (i + 1) t' e' n' cf le
              (same-Holds st front l t' (is_first st front ls l i e n (ground arith)) q))
        | inr other ↦ rw other (
            tried-Ends c front ls l i t' (raw_try_lock m l t') e n cf le q
              ((at-law st locks i l st.laws (get_rest st front ls l i e n)).tries t'
                (next-free st front ls l i t' e n (λ same. ground arith) q))
              (λ c' s cf' le' q'.
                try_others-Ends ls (front ++ l ∷ []) c' (i + 1) s e' n' cf' le' q'))
      ]

  started-Ends :
      (c : Cells) (r : Res S (Unit {0}))
      → c.first_index ≡ f
      → Goes p held (claim (some m) (foot first) h) t r
      → Ends st t (and_then (beside c r) (λ _. try_others m locks 0 locks))
  started-Ends c (ok _ s) cf g =
      try_others-Ends locks [] c 0 s refl refl cf g.1
        (g.0 ∙ ap (λ k. claim (some m) k h) (sym (append-nil (foot first))))
  started-Ends c (panic s) cf g = g
  started-Ends c hang cf g = g

  -- A round that starts with nothing held ends with all the locks, or with none and an attempt of
  -- the others used up.
  pub round-Ends : (c : Cells) → c.first_index ≡ f → held t ≡ h → Ends st t (round m locks (c, t))
  unfolding round
  round-Ends c cf e = rw (index-first st t (raw_lock m) c.first_index cf) (
      started-Ends c (raw_lock m first t) cf (
        subst (λ g. Goes p held (claim (some m) (foot first) g) t (raw_lock m first t)) e
          ((at-law st locks f first st.laws st.at).locks t
            (rw e (at-free st locks f first st.free st.at)))))
