-- ===== src/Single/Peek.antt =====
-- A look at the data of a lock that is taken for it, if it is free.
use happylock.Base.{◌≡◌, Bool, true, false, none, some, List, ℕ}
use happylock.Exec.{M, Res, ok, panic, hang, ret, ◌>>◌, and_then, on_unwind, resume_unwind}
use happylock.RawLock.{Mode}
use happylock.RawLock.Holding.{claim, AllAt}
use happylock.RawLock.Contract.{Holding, TryLocks, Unlocks, Unlocks-claim}

module _ {ℓ} {S : Type 0} {R : Type ℓ} (held : S → Holding) where
  -- The thread holds `h`, also after a panic.
  abbrev pub Keeps : Holding → Res S R → Type 0
  Keeps h (ok _ s) = held s ≡ h
  Keeps h (panic s) = held s ≡ h
  Keeps h hang = Unit

  module _ (m : Mode) (foot : List ℕ) (h : Holding) (free : AllAt none foot h) where
    returned_Keeps :
        (r : R) (u : Res S (Unit {0})) → Unlocks held h u → Keeps h (and_then u (λ _. ret r))
    returned_Keeps r (ok _ s) e = e
    returned_Keeps r (panic s) e = absurd e
    returned_Keeps r hang e = absurd e

    panicked_Keeps :
        (k : R → M S R) (u : Res S (Unit {0}))
        → Unlocks held h u
        → Keeps h (and_then (resume_unwind u) k)
    panicked_Keeps k (ok _ s) e = e
    panicked_Keeps k (panic s) e = absurd e
    panicked_Keeps k hang e = absurd e

    -- A computation that runs while the lock is held, and then the unlocking.
    pub shown_Keeps :
        (unlock : M S (Unit {0})) (x : Res S R)
        → ((s : S)
            → AllAt (some m) foot (held s)
            → Unlocks held (claim none foot (held s)) (unlock s))
        → Keeps (claim (some m) foot h) x
        → Keeps h (and_then (on_unwind x unlock) (λ r. (do unlock; ret r)))
    shown_Keeps unlock (ok r s) law e =
        returned_Keeps r (unlock s) (Unlocks-claim held m foot h s _ free e (law s))
    shown_Keeps unlock (panic s) law e =
        panicked_Keeps _ (unlock s) (Unlocks-claim held m foot h s _ free e (law s))
    shown_Keeps unlock hang law e = tt

    -- The attempt to lock, and what is done after it.
    pub tried_Keeps :
        {V : Type 0} (pick : Bool → M S V) (k : V → M S R) (l : Res S Bool)
        → TryLocks held h (claim (some m) foot h) l
        → ((s : S) → held s ≡ claim (some m) foot h → Keeps h (and_then (pick true s) k))
        → ((s : S) → held s ≡ h → Keeps h (and_then (pick false s) k))
        → Keeps h (and_then (and_then l pick) k)
    tried_Keeps pick k (ok true s) e yes' no' = yes' s e
    tried_Keeps pick k (ok false s) e yes' no' = no' s e
    tried_Keeps pick k (panic s) e yes' no' = e
    tried_Keeps pick k hang e yes' no' = absurd e
