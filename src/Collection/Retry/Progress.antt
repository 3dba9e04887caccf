-- ===== src/Collection/Retry/Progress.antt =====
-- What the proofs about the retrying loop ask of its locks, in a form that serves both for its
-- result, whatever the locks do, and for its termination.
use happylock.Base.{
  ℕ, ◌≡◌, Bool, true, false, none, some, List, [], ◌∷◌, All, refl, subst, ap, ◌∙◌, All-append_left,
  All-append_right,
}
use happylock.Exec.{M, Res, ok, panic, hang, and_then, on_unwind, resume_unwind}
use happylock.RawLock.{RawLock, Mode, raw_lock, raw_try_lock, raw_unlock}
use happylock.RawLock.Holding.{
  claim, AllAt, Distinct, claim-claim, AllAt-claim-Disjoint, Distinct-append_right,
  Distinct-append-Disjoint,
}
use happylock.RawLock.Contract.{Holding, feet}
use happylock.Collection.Utils.{unlock_all, poison_all, attempt_to_recover}

-- `Le s t`: a call led from `s` to `t`. `Lt s t`: a call led there that used up an attempt of
-- another thread to interfere. `Bad` holds of a call that panics or does not return.
pub record Progress (S : Type 0) : Type 1 where
  pub Le : S → S → Type 0
  pub Lt : S → S → Type 0
  pub Bad : Type 0
  pub le_refl : (s : S) → Le s s
  pub le_trans : (s t u : S) → Le s t → Le t u → Le s u
  pub lt_le : (s t u : S) → Lt s t → Le t u → Lt s u
  pub le_lt : (s t u : S) → Le s t → Lt t u → Lt s u

module _ {S : Type 0} (p : Progress S) (held : S → Holding) where
  abbrev pub Goes {ℓ} : {A : Type ℓ} → Holding → S → Res S A → Type 0
  Goes h t (ok _ s) = (held s ≡ h) × p.Le t s
  Goes h t (panic s) = p.Bad
  Goes h t hang = p.Bad

  abbrev pub TryGoes : Holding → Holding → S → Res S Bool → Type 0
  TryGoes h h' t (ok true s) = (held s ≡ h') × p.Le t s
  TryGoes h h' t (ok false s) = (held s ≡ h) × p.Lt t s
  TryGoes h h' t (panic s) = p.Bad
  TryGoes h h' t hang = p.Bad

  pub record Advances (m : Mode) (foot : List ℕ) (l : RawLock S) : Type 0 where
    pub locks :
        (s : S) → AllAt none foot (held s) → Goes (claim (some m) foot (held s)) s (raw_lock m l s)
    pub tries :
        (s : S)
        → AllAt none foot (held s)
        → TryGoes (held s) (claim (some m) foot (held s)) s (raw_try_lock m l s)
    pub unlocks :
        (s : S)
        → AllAt (some m) foot (held s)
        → Goes (claim none foot (held s)) s (raw_unlock m l s)

  pub Goes-from {ℓ} :
      {A : Type ℓ} (h : Holding) (t s : S) (r : Res S A) → p.Le t s → Goes h s r → Goes h t r
  Goes-from h t s (ok _ u) le e = (e.0, p.le_trans t s u le e.1)
  Goes-from h t s (panic u) le e = e
  Goes-from h t s hang le e = e

  Goes-then :
      (h h' : Holding) (t : S) (r : Res S (Unit {0})) (k : S → Res S (Unit {0}))
      → Goes h t r
      → ((s : S) → held s ≡ h → Goes h' s (k s))
      → Goes h' t (and_then r (λ _. k))
  Goes-then h h' t (ok _ s) k g q = Goes-from h' t s (k s) g.1 (q s g.0)
  Goes-then h h' t (panic s) k g q = g
  Goes-then h h' t hang k g q = g

  module _ (m : Mode) (foot : RawLock S → List ℕ) where
    abbrev pub Advance : List (RawLock S) → Type 0
    Advance ls = All (λ l. Advances m (foot l) l) ls

    unlock_all-Goes :
        (ls : List (RawLock S)) (s : S)
        → Advance ls
        → Distinct (feet foot ls)
        → AllAt (some m) (feet foot ls) (held s)
        → Goes (claim none (feet foot ls) (held s)) s (unlock_all m ls s)
    unfolding unlock_all
    unlock_all-Goes [] s laws d at = (refl, p.le_refl s)
    unlock_all-Goes (l ∷ ls) s laws d at =
        Goes-then (claim none (foot l) (held s)) _ s (raw_unlock m l s) (unlock_all m ls)
          (laws.0.unlocks s (All-append_left _ (foot l) (feet foot ls) at))
          (λ s' e.
            subst (λ h. Goes h s' (unlock_all m ls s'))
              (ap (claim none (feet foot ls)) e ∙ claim-claim none (foot l) (feet foot ls) (held s))
              (unlock_all-Goes ls s' laws.1 (Distinct-append_right (foot l) (feet foot ls) d) (
                rw e (
                  AllAt-claim-Disjoint (some m) none (foot l) (feet foot ls) (held s)
                    (Distinct-append-Disjoint (foot l) (feet foot ls) d)
                    (All-append_right _ (foot l) (feet foot ls) at)))))

    resumed_Bad :
        (h : Holding) (t : S) (r : Res S (Unit {0}))
        → p.Bad
        → Goes h t (resume_unwind {A = Unit {0}} r)
    resumed_Bad h t (ok _ s) b = b
    resumed_Bad h t (panic s) b = b
    resumed_Bad h t hang b = b

    caught-Goes :
        (h : Holding) (t : S) (r : Res S (Unit {0})) (g : M S (Unit {0}))
        → Goes h t r
        → Goes h t (on_unwind r g)
    caught-Goes h t (ok _ s) g q = q
    caught-Goes h t (panic s) g q = resumed_Bad h t (g s) q
    caught-Goes h t hang g q = q

    pub attempt_to_recover-Goes :
        (ls : List (RawLock S)) (s : S)
        → Advance ls
        → Distinct (feet foot ls)
        → AllAt (some m) (feet foot ls) (held s)
        → Goes (claim none (feet foot ls) (held s)) s (attempt_to_recover m ls s)
    unfolding attempt_to_recover
    attempt_to_recover-Goes ls s laws d at =
        caught-Goes (claim none (feet foot ls) (held s)) s (unlock_all m ls s) (poison_all ls)
          (unlock_all-Goes ls s laws d at)
