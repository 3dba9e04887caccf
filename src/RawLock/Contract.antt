-- ===== src/RawLock/Contract.antt =====
-- What the methods of a `RawLock` promise to the thread that calls them, for its own holding
-- `held`: the documentation of the trait in src/lockable.rs. `foot l` are the addresses that the
-- lock stands for: its own, or those of the locks of a collection.
use mathlib.Core.List.{append_assoc}
use happylock.Base.{
  ℕ, zero, suc, ◌≡◌, refl, sym, ap, ◌∙◌, subst, All-append_left, All-append_right, Bool, true,
  false, Option, none, some, List, [], ◌∷◌, ◌++◌, take,
}
use happylock.Exec.{Res, ok, panic, hang, and_then, on_unwind}
use happylock.RawLock.{RawLock, Mode, raw_lock, raw_try_lock, raw_unlock}
use happylock.RawLock.Holding.{
  claim, AllAt, claim-undo, AllAt-claim, claim-claim, AllAt-claim-Disjoint, Distinct,
  Distinct-append-Disjoint,
}

abbrev pub Holding : Type 0
Holding = ℕ → Option Mode

module _ {S : Type 0} (held : S → Holding) where
  -- `lock` returns with `h'` held, or panics with `h` held; it may also never return.
  abbrev pub Locks : Holding → Holding → Res S (Unit {0}) → Type 0
  Locks h h' (ok _ s) = held s ≡ h'
  Locks h h' (panic s) = held s ≡ h
  Locks h h' hang = Unit

  -- `try_lock` does not block: it holds `h'` if it says so, and `h` if it fails or panics.
  abbrev pub TryLocks : Holding → Holding → Res S Bool → Type 0
  TryLocks h h' (ok true s) = held s ≡ h'
  TryLocks h h' (ok false s) = held s ≡ h
  TryLocks h h' (panic s) = held s ≡ h
  TryLocks h h' hang = ⊥

  -- `unlock` returns, with `h'` held.
  abbrev pub Unlocks : Holding → Res S (Unit {0}) → Type 0
  Unlocks h' (ok _ s) = held s ≡ h'
  Unlocks h' (panic s) = ⊥
  Unlocks h' hang = ⊥

  pub record IsRawLock (m : Mode) (foot : List ℕ) (l : RawLock S) : Type 0 where
    pub locks :
        (s : S)
        → AllAt none foot (held s)
        → Locks (held s) (claim (some m) foot (held s)) (raw_lock m l s)
    pub tries :
        (s : S)
        → AllAt none foot (held s)
        → TryLocks (held s) (claim (some m) foot (held s)) (raw_try_lock m l s)
    pub unlocks :
        (s : S)
        → AllAt (some m) foot (held s)
        → Unlocks (claim none foot (held s)) (raw_unlock m l s)

module _ {S : Type 0} (foot : RawLock S → List ℕ) where
  -- The addresses of a list of locks.
  abbrev pub feet : List (RawLock S) → List ℕ
  feet [] = []
  feet (l ∷ ls) = foot l ++ feet ls

module _ {S : Type 0} (held : S → Holding) where
  pub Unlocks-and_then :
      (h h' : Holding) (r : Res S (Unit {0})) (k : S → Res S (Unit {0}))
      → Unlocks held h r
      → ((s : S) → held s ≡ h → Unlocks held h' (k s))
      → Unlocks held h' (and_then r (λ _. k))
  Unlocks-and_then h h' (ok _ s) k p q = q s p
  Unlocks-and_then h h' (panic s) k p q = absurd p
  Unlocks-and_then h h' hang k p q = absurd p

  -- What unlocks without a panic does not need the clean-up for one.
  pub Unlocks-on_unwind :
      (h : Holding) (r : Res S (Unit {0})) (k : S → Res S (Unit {0}))
      → Unlocks held h r
      → Unlocks held h (on_unwind r k)
  Unlocks-on_unwind h (ok _ s) k e = e
  Unlocks-on_unwind h (panic s) k e = absurd e
  Unlocks-on_unwind h hang k e = absurd e

module _ {S : Type 0} (foot : RawLock S → List ℕ) where
  pub feet-take :
      (j : ℕ) (ls : List (RawLock S))
      → (rest : List ℕ) × (feet foot ls ≡ feet foot (take j ls) ++ rest)
  feet-take zero ls = (feet foot ls, refl)
  feet-take (suc j) [] = ([], refl)
  feet-take (suc j) (l ∷ ls) =
      let (rest, e) = feet-take j ls in
      (rest, rw e (sym (append_assoc (foot l) (feet foot (take j ls)) rest)))

  pub feet-append : (xs ys : List (RawLock S)) → feet foot (xs ++ ys) ≡ feet foot xs ++ feet foot ys
  feet-append [] ys = refl
  feet-append (x ∷ xs) ys =
      rw (feet-append xs ys) (sym (append_assoc (foot x) (feet foot xs) (feet foot ys)))

module _ {S : Type 0} (held : S → Holding) (m : Mode) (foot : List ℕ) where
  -- What unlocking gives back after locking: what was held before.
  pub Unlocks-claim :
      (h : Holding) (s : S) (u : Res S (Unit {0}))
      → AllAt none foot h
      → held s ≡ claim (some m) foot h
      → (AllAt (some m) foot (held s) → Unlocks held (claim none foot (held s)) u)
      → Unlocks held h u
  Unlocks-claim h s u free e unlocks =
      subst (λ g. Unlocks held g u) (ap (claim none foot) e ∙ claim-undo none (some m) foot h free)
        (unlocks (rw e (AllAt-claim (some m) foot h)))

module _ {S : Type 0} (held : S → Holding) (m : Mode) where
  -- Unlocking one part after another, the parts being disjoint.
  pub Unlocks-append :
      (xs ys : List ℕ) (s : S) (r : Res S (Unit {0})) (k : S → Res S (Unit {0}))
      → Distinct (xs ++ ys)
      → AllAt (some m) (xs ++ ys) (held s)
      → (AllAt (some m) xs (held s) → Unlocks held (claim none xs (held s)) r)
      → ((s' : S) → AllAt (some m) ys (held s') → Unlocks held (claim none ys (held s')) (k s'))
      → Unlocks held (claim none (xs ++ ys) (held s)) (and_then r (λ _. k))
  Unlocks-append xs ys s r k d taken first then_ =
      Unlocks-and_then held (claim none xs (held s)) _ r k (first (All-append_left _ xs ys taken))
        (λ s' e.
          subst (λ h. Unlocks held h (k s'))
            (ap (claim none ys) e ∙ claim-claim none xs ys (held s))
            (then_ s' (
              rw e (
                AllAt-claim-Disjoint (some m) none xs ys (held s) (Distinct-append-Disjoint xs ys d)
                  (All-append_right _ xs ys taken)))))
