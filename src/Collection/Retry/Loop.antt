-- ===== src/Collection/Retry/Loop.antt =====
-- The retrying loop: what it has done when it returns, and that it returns.
use happylock.Base.{
  ℕ, zero, suc, ◌<◌, ◌≡◌, refl, Bool, true, false, none, some, List, [], ◌∷◌, length, get_elem?,
  arith,
}
use happylock.Exec.{Res, ok, panic, hang, and_then, on_unwind, resume_unwind, drop_cell, ret}
use happylock.RawLock.{RawLock, Mode, raw_lock, raw_try_lock, raw_unlock}
use happylock.RawLock.Holding.{claim, AllAt, Distinct}
use happylock.RawLock.Contract.{Holding, Locks, TryLocks, Unlocks, feet}
use happylock.Collection.Utils.Unlocking.{Obey}
use happylock.Collection.Retry.{
  Cells, Round, complete, again, round, retry_loop, clean_up, retry_lock,
}
use happylock.Collection.Retry.Progress.{Progress, Goes, TryGoes, Advance}
use happylock.Collection.Retry.Front.{Started}
use happylock.Collection.Retry.BackOff.{Ends}
use happylock.Collection.Retry.Rounds.{round-Ends}

get_some : {A : Type 0} (xs : List A) (i : ℕ) → i < length xs → (x : A) × (get_elem? xs i ≡ some x)
get_some [] i h = absurd (omega arith)
get_some (x ∷ xs) zero h = (x, refl)
get_some (x ∷ xs) (suc i) h = get_some xs i (omega arith)

-- How much fuel is enough, and what follows if it was not.
pub record Fuel {S : Type 0} (p : Progress S) : Type 1 where
  pub Enough : ℕ → S → Type 0
  pub Out : Type 0
  pub none_left : (s : S) → Enough 0 s → Out
  pub one_less : (n : ℕ) (s t : S) → Enough (suc n) s → p.Lt s t → Enough n t
  pub bad : p.Bad → Out

-- What holds of the whole call, whose clean-up goes on with the panic.
module _ {S : Type 0} (p : Progress S) (fuel : Fuel p) (held : S → Holding) (h : Holding) where
  abbrev pub CallEnds : Res S (Unit {0}) → Type 0
  CallEnds (ok _ s) = held s ≡ h
  CallEnds (panic s) = p.Bad
  CallEnds hang = fuel.Out

module _ {S : Type 0} (p : Progress S) (fuel : Fuel p) (held : S → Holding) (m : Mode)
    (foot : RawLock S → List ℕ) (locks : List (RawLock S)) (laws : Advance p held m foot locks)
    (d : Distinct (feet foot locks)) (h : Holding) (free : AllAt none (feet foot locks) h) where
  abbrev LoopEnds : Res (Cells × S) (Unit {0}) → Type 0
  LoopEnds (ok _ (c, s)) = held s ≡ claim (some m) (feet foot locks) h
  LoopEnds (panic s) = p.Bad
  LoopEnds hang = fuel.Out

  after_round :
      (n f : ℕ) (first : RawLock S) (st : Started p held m foot locks h f first) (t : S)
      (r : Res (Cells × S) Round)
      → fuel.Enough (suc n) t
      → Ends st t r
      → ((c : Cells) (s : S)
          → fuel.Enough n s
          → held s ≡ h
          → c.first_index < length locks
          → LoopEnds (retry_loop m locks n (c, s)))
      → LoopEnds (and_then r (λ o. elim o [ complete ↦ ret tt | again ↦ retry_loop m locks n ]))
  after_round n f first st t (ok complete (c, s)) enough e next = e.0
  after_round n f first st t (ok again (c, s)) enough e next =
      next c s (fuel.one_less n t s enough e.3) e.0 e.2
  after_round n f first st t (panic s) enough e next = e
  after_round n f first st t hang enough e next = fuel.bad e

  retry_loop-LoopEnds :
      (n : ℕ) (c : Cells) (s : S)
      → fuel.Enough n s
      → held s ≡ h
      → c.first_index < length locks
      → LoopEnds (retry_loop m locks n (c, s))
  unfolding retry_loop
  retry_loop-LoopEnds zero c s enough e lt = fuel.none_left s enough
  retry_loop-LoopEnds (suc n) c s enough e lt =
      let (first, at) = get_some locks c.first_index lt in
      let st : Started p held m foot locks h c.first_index first = record {
        laws = laws;
        d = d;
        free = free;
        at = at;
      } in
      after_round n c.first_index first st s (round m locks (c, s)) enough
        (round-Ends st s c refl e) (retry_loop-LoopEnds n)

  abbrev Called : Res S (Unit {0}) → Type 0
  Called = CallEnds p fuel held (claim (some m) (feet foot locks) h)

  cleaned :
      (r : Res (Cells × S) (Unit {0})) → p.Bad → Called (drop_cell (resume_unwind {A = Unit {0}} r))
  cleaned (ok _ s) b = b
  cleaned (panic s) b = b
  cleaned hang b = fuel.bad b

  called :
      (r : Res (Cells × S) (Unit {0}))
      → LoopEnds r
      → Called (drop_cell (on_unwind r (clean_up m locks)))
  called (ok _ (c, s)) e = e
  called (panic (c, s)) e = cleaned (clean_up m locks (c, s)) e
  called hang e = e

module _ {S : Type 0} (p : Progress S) (fuel : Fuel p) (held : S → Holding) (m : Mode)
    (foot : RawLock S → List ℕ) where
  pub retry_lock-CallEnds :
      (n : ℕ) (locks : List (RawLock S)) (s : S) (laws : Advance p held m foot locks)
      (d : Distinct (feet foot locks)) (free : AllAt none (feet foot locks) (held s))
      → fuel.Enough n s
      → CallEnds p fuel held (claim (some m) (feet foot locks) (held s)) (retry_lock m n locks s)
  unfolding retry_lock
  retry_lock-CallEnds n [] s laws d free enough = refl
  retry_lock-CallEnds n (l ∷ ls) s laws d free enough =
      called p fuel held m foot (l ∷ ls) laws d (held s) free _ (
        retry_loop-LoopEnds p fuel held m foot (l ∷ ls) laws d (held s) free n _ s enough refl
          (omega arith))

module _ {S : Type 0} where
  abbrev pub anything : Progress S
  anything = record {
    Le = λ s t. Unit;
    Lt = λ s t. Unit;
    Bad = Unit;
    le_refl = λ s. tt;
    le_trans = λ s t u a b. tt;
    lt_le = λ s t u a b. tt;
    le_lt = λ s t u a b. tt;
  }

  abbrev pub any_fuel : Fuel anything
  any_fuel = record {
    Enough = λ n s. Unit;
    Out = Unit;
    none_left = λ s e. tt;
    one_less = λ n s t e l. tt;
    bad = λ b. tt;
  }

module _ {S : Type 0} (held : S → Holding) (m : Mode) (foot : RawLock S → List ℕ) where
  Locks-Goes :
      (h h' : Holding) (t : S) (r : Res S (Unit {0}))
      → Locks held h h' r
      → Goes anything held h' t r
  Locks-Goes h h' t (ok _ s) e = (e, tt)
  Locks-Goes h h' t (panic s) e = tt
  Locks-Goes h h' t hang e = tt

  TryLocks-TryGoes :
      (h h' : Holding) (t : S) (r : Res S Bool)
      → TryLocks held h h' r
      → TryGoes anything held h h' t r
  TryLocks-TryGoes h h' t (ok true s) e = (e, tt)
  TryLocks-TryGoes h h' t (ok false s) e = (e, tt)
  TryLocks-TryGoes h h' t (panic s) e = tt
  TryLocks-TryGoes h h' t hang e = tt

  Unlocks-Goes :
      (h : Holding) (t : S) (r : Res S (Unit {0})) → Unlocks held h r → Goes anything held h t r
  Unlocks-Goes h t (ok _ s) e = (e, tt)
  Unlocks-Goes h t (panic s) e = tt
  Unlocks-Goes h t hang e = tt

  pub Obey-Advance : (ls : List (RawLock S)) → Obey held m foot ls → Advance anything held m foot ls
  Obey-Advance [] laws = tt
  Obey-Advance (l ∷ ls) laws = (
    record {
      locks = λ s free. Locks-Goes (held s) _ s (raw_lock m l s) (laws.0.locks s free);
      tries = λ s free. TryLocks-TryGoes (held s) _ s (raw_try_lock m l s) (laws.0.tries s free);
      unlocks = λ s taken. Unlocks-Goes _ s (raw_unlock m l s) (laws.0.unlocks s taken);
    },
    Obey-Advance ls laws.1,
  )
