-- ===== src/Collection/Utils/Unlocking.antt =====
-- Unlocking a list of locks, and the recovery after a panic.
use happylock.Base.{
  ℕ, ◌≡◌, refl, none, some, List, [], ◌∷◌, take, All, All-append_left, All-append_right, All-take,
  subst, ap, ◌∙◌,
}
use happylock.Exec.{Res, ok, panic, hang, M, on_unwind, beside, resume_unwind, drop_cell}
use happylock.RawLock.{RawLock, Mode, raw_unlock}
use happylock.RawLock.Holding.{
  claim, AllAt, Distinct, claim-undo, AllAt-claim, AllAt-claim-Disjoint, Distinct-append_left,
  Distinct-append_right, Distinct-append-Disjoint,
}
use happylock.RawLock.Contract.{Holding, Unlocks, IsRawLock, feet, feet-take, Unlocks-append}
use happylock.Collection.Utils.{unlock_all, poison_all, attempt_to_recover}

module _ {S : Type 0} (held : S → Holding) (m : Mode) (foot : RawLock S → List ℕ) where
  abbrev pub Obey : List (RawLock S) → Type 0
  Obey ls = All (λ l. IsRawLock held m (foot l) l) ls

  -- Unlocking distinct locks that are held releases exactly their addresses, without a panic.
  pub unlock_all-Unlocks :
      (ls : List (RawLock S)) (s : S)
      → Obey ls
      → Distinct (feet foot ls)
      → AllAt (some m) (feet foot ls) (held s)
      → Unlocks held (claim none (feet foot ls) (held s)) (unlock_all m ls s)
  unfolding unlock_all
  unlock_all-Unlocks [] s laws d at = refl
  unlock_all-Unlocks (l ∷ ls) s laws d at =
      Unlocks-append held m (foot l) (feet foot ls) s (raw_unlock m l s) (unlock_all m ls) d at
        (laws.0.unlocks s)
        (λ s' taken.
          unlock_all-Unlocks ls s' laws.1 (Distinct-append_right (foot l) (feet foot ls) d) taken)

  on_unwind-Unlocks :
      (h : Holding) (r : Res S (Unit {0})) (g : M S (Unit {0}))
      → Unlocks held h r
      → Unlocks held h (on_unwind r g)
  on_unwind-Unlocks h (ok _ s) g p = p
  on_unwind-Unlocks h (panic s) g p = absurd p
  on_unwind-Unlocks h hang g p = absurd p

  -- A prefix of a list of distinct free locks.
  pub prefix-Distinct :
      (j : ℕ) (ls : List (RawLock S)) → Distinct (feet foot ls) → Distinct (feet foot (take j ls))
  prefix-Distinct j ls d =
      let (rest, e) = feet-take foot j ls in
      Distinct-append_left (feet foot (take j ls)) rest (subst Distinct e d)

  pub prefix-AllAt :
      (j : ℕ) (ls : List (RawLock S)) (h : Holding)
      → AllAt none (feet foot ls) h
      → AllAt none (feet foot (take j ls)) h
  prefix-AllAt j ls h free =
      let (rest, e) = feet-take foot j ls in
      All-append_left _ (feet foot (take j ls)) rest (subst (λ f. AllAt none f h) e free)

  -- If a prefix of free locks was taken, unlocking it gives the holding before back.
  pub unlock_prefix :
      (j : ℕ) (ls : List (RawLock S)) (h : Holding) (s : S)
      → Obey ls
      → Distinct (feet foot ls)
      → AllAt none (feet foot ls) h
      → held s ≡ claim (some m) (feet foot (take j ls)) h
      → Unlocks held h (unlock_all m (take j ls) s)
  unlock_prefix j ls h s laws d free e =
      let front = feet foot (take j ls) in
      subst (λ g. Unlocks held g (unlock_all m (take j ls) s))
        (ap (claim none front) e ∙ claim-undo none (some m) front h (prefix-AllAt j ls h free))
        (unlock_all-Unlocks (take j ls) s (All-take _ j ls laws) (prefix-Distinct j ls d)
          (rw e (AllAt-claim (some m) front h)))

  pub recover_prefix :
      (j : ℕ) (ls : List (RawLock S)) (h : Holding) (s : S)
      → Obey ls
      → Distinct (feet foot ls)
      → AllAt none (feet foot ls) h
      → held s ≡ claim (some m) (feet foot (take j ls)) h
      → Unlocks held h (attempt_to_recover m (take j ls) s)
  unfolding attempt_to_recover
  recover_prefix j ls h s laws d free e =
      on_unwind-Unlocks h (unlock_all m (take j ls) s) (poison_all (take j ls))
        (unlock_prefix j ls h s laws d free e)

  -- After the first lock was taken the others are as free as before.
  pub rest-AllAt :
      (l : RawLock S) (ls : List (RawLock S)) (h h' : Holding)
      → Distinct (feet foot (l ∷ ls))
      → AllAt none (feet foot (l ∷ ls)) h
      → h' ≡ claim (some m) (foot l) h
      → AllAt none (feet foot ls) h'
  rest-AllAt l ls h h' d free e = rw e (
      AllAt-claim-Disjoint none (some m) (foot l) (feet foot ls) h
        (Distinct-append-Disjoint (foot l) (feet foot ls) d)
        (All-append_right _ (foot l) (feet foot ls) free))

  -- A clean-up that unlocks lets the panic go on.
  pub resumed {κ} :
      (A : Type κ) {C : Type 0} (h : Holding) (c : C) (r : Res S (Unit {0}))
      → Unlocks held h r
      → (s : S) × (held s ≡ h) × (drop_cell (resume_unwind {A = A} (beside c r)) ≡ panic s)
  resumed A h c (ok _ s) p = (s, p, refl)
  resumed A h c (panic s) p = absurd p
  resumed A h c hang p = absurd p
