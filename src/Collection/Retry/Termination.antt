-- ===== src/Collection/Retry/Termination.antt =====
-- `raw_write` and `raw_read` of src/collection/retry.rs, as calls: what they hold when they return,
-- and that they return when the other threads interfere a bounded number of times.
use happylock.Base.{ℕ, ◌<◌, ◌≤◌, ◌≡◌, none, some, List, arith}
use happylock.Exec.{Res, ok, panic, hang}
use happylock.RawLock.{RawLock, Mode}
use happylock.RawLock.Holding.{claim, AllAt, Distinct}
use happylock.RawLock.Contract.{Holding, feet}
use happylock.Collection.Utils.Unlocking.{Obey}
use happylock.Collection.Retry.{retry_lock}
use happylock.Collection.Retry.Progress.{Progress}
use happylock.Collection.Retry.Loop.{
  Fuel, CallEnds, anything, any_fuel, retry_lock-CallEnds, Obey-Advance,
}

-- A call that returns does so with `h` held; it may also panic or not return.
module _ {S : Type 0} (held : S → Holding) (h : Holding) where
  abbrev pub Holds : Res S (Unit {0}) → Type 0
  Holds (ok _ s) = held s ≡ h
  Holds (panic s) = Unit
  Holds hang = Unit

module _ {S : Type 0} (held : S → Holding) (m : Mode) (foot : RawLock S → List ℕ) where
  returned :
      (h : Holding) (r : Res S (Unit {0})) → CallEnds anything any_fuel held h r → Holds held h r
  returned h (ok _ s) e = e
  returned h (panic s) e = tt
  returned h hang e = tt

  -- However often the loop of `raw_write` or `raw_read` backs off and starts again, if it returns
  -- then the thread holds every lock of the collection in the mode asked for, and nothing else has
  -- changed in what it holds. The locks keep the contract of raw locks, their addresses are
  -- distinct, and the thread held none of them before.
  pub retry_lock-Holds :
      (n : ℕ) (locks : List (RawLock S)) (s : S)
      → Obey held m foot locks
      → Distinct (feet foot locks)
      → AllAt none (feet foot locks) (held s)
      → Holds held (claim (some m) (feet foot locks) (held s)) (retry_lock m n locks s)
  retry_lock-Holds n locks s laws d free = returned _ (retry_lock m n locks s) (
      retry_lock-CallEnds anything any_fuel held m foot n locks s
        (Obey-Advance held m foot locks laws) d free tt)

module _ {S : Type 0} (cost : S → ℕ) where
  -- Progress is measured by how often other threads can still be in the way.
  abbrev pub bounded : Progress S
  bounded = record {
    Le = λ s t. cost t ≤ cost s;
    Lt = λ s t. cost t < cost s;
    Bad = ⊥;
    le_refl = λ s. omega arith;
    le_trans = λ s t u a b. omega arith;
    lt_le = λ s t u a b. omega arith;
    le_lt = λ s t u a b. omega arith;
  }

  abbrev above_cost : Fuel bounded
  above_cost = record {
    Enough = λ n s. cost s < n;
    Out = ⊥;
    none_left = λ s e. absurd (omega arith);
    one_less = λ n s t e l. omega arith;
    bad = λ b. b;
  }
