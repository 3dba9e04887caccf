-- ===== src/Collection/Utils/Locking.antt =====
-- `ordered_write` and `ordered_read`: all the locks or, after a panic, none.
use happylock.Base.{
  ℕ, suc, ◌+◌, ◌≡◌, refl, none, some, List, [], ◌∷◌, take, All-append_left, ap, ◌∙◌, arith,
}
use happylock.Exec.{Res, ok, panic, hang, and_then, beside, drop_cell, on_unwind}
use happylock.RawLock.{RawLock, Mode, raw_lock}
use happylock.RawLock.Holding.{claim, AllAt, Distinct, claim-claim, Distinct-append_right}
use happylock.RawLock.Contract.{Holding, Locks, feet}
use happylock.Collection.Utils.{lock_all, recover_locked, attempt_to_recover, ordered_lock}
use happylock.Collection.Utils.Unlocking.{Obey, recover_prefix, rest-AllAt, resumed}

module _ {S : Type 0} (held : S → Holding) (m : Mode) (foot : RawLock S → List ℕ) where
  -- The loop from a count `n` on: it returns with all of `ls`, or panics with the prefix of it
  -- that the cell has counted.
  abbrev LocksFrom : ℕ → List (RawLock S) → Holding → Res (ℕ × S) (Unit {0}) → Type 0
  LocksFrom n ls h (ok _ (k, s)) = held s ≡ claim (some m) (feet foot ls) h
  LocksFrom n ls h (panic (k, s)) =
      (j : ℕ) × (k ≡ n + j) × (held s ≡ claim (some m) (feet foot (take j ls)) h)
  LocksFrom n ls h hang = Unit

  LocksFrom-cons :
      (n : ℕ) (l : RawLock S) (ls : List (RawLock S)) (h h1 : Holding) (r : Res (ℕ × S) (Unit {0}))
      → h1 ≡ claim (some m) (foot l) h
      → LocksFrom (n + 1) ls h1 r
      → LocksFrom n (l ∷ ls) h r
  LocksFrom-cons n l ls h h1 (ok _ (k, s)) e p =
      p ∙ ap (claim (some m) (feet foot ls)) e ∙ claim-claim (some m) (foot l) (feet foot ls) h
  LocksFrom-cons n l ls h h1 (panic (k, s)) e (j, count, p) = (
    suc j,
    omega arith,
    p
        ∙ ap (claim (some m) (feet foot (take j ls))) e
        ∙ claim-claim (some m) (foot l) (feet foot (take j ls)) h,
  )
  LocksFrom-cons n l ls h h1 hang e p = tt

  LocksFrom-step :
      (n : ℕ) (l : RawLock S) (ls : List (RawLock S)) (h : Holding) (r : Res S (Unit {0}))
      → Locks held h (claim (some m) (foot l) h) r
      → ((s : S)
          → held s ≡ claim (some m) (foot l) h
          → LocksFrom (n + 1) ls (held s) (lock_all m ls (n + 1, s)))
      → LocksFrom n (l ∷ ls) h (and_then (beside n r) (λ _ cs. lock_all m ls (cs.0 + 1, cs.1)))
  LocksFrom-step n l ls h (ok _ s) p q = LocksFrom-cons n l ls h (held s) _ p (q s p)
  LocksFrom-step n l ls h (panic s) p q = (0, omega arith, p)
  LocksFrom-step n l ls h hang p q = tt

  lock_all-LocksFrom :
      (ls : List (RawLock S)) (n : ℕ) (s : S)
      → Obey held m foot ls
      → Distinct (feet foot ls)
      → AllAt none (feet foot ls) (held s)
      → LocksFrom n ls (held s) (lock_all m ls (n, s))
  unfolding lock_all
  lock_all-LocksFrom [] n s laws d free = refl
  lock_all-LocksFrom (l ∷ ls) n s laws d free =
      LocksFrom-step n l ls (held s) (raw_lock m l s)
        (laws.0.locks s (All-append_left _ (foot l) (feet foot ls) free))
        (λ s' e.
          lock_all-LocksFrom ls (n + 1) s' laws.1 (Distinct-append_right (foot l) (feet foot ls) d)
            (rest-AllAt held m foot l ls (held s) (held s') d free e))

  finish-Locks :
      (ls : List (RawLock S)) (h : Holding) (r : Res (ℕ × S) (Unit {0}))
      → Obey held m foot ls
      → Distinct (feet foot ls)
      → AllAt none (feet foot ls) h
      → LocksFrom 0 ls h r
      → Locks held h
          (claim (some m) (feet foot ls) h)
          (drop_cell (on_unwind r (recover_locked m ls)))
  unfolding recover_locked
  finish-Locks ls h (ok _ (k, s)) laws d free p = p
  finish-Locks ls h (panic (k, s)) laws d free (j, count, p) =
      let counted : k ≡ j = omega arith in
      let (s', e, out) =
        resumed {0} held m foot (Unit {0}) h k (attempt_to_recover m (take k ls) s)
          (rw counted (recover_prefix held m foot j ls h s laws d free p)) in
      rw out e
  finish-Locks ls h hang laws d free p = tt

  -- Locks that obey their contract and stand for distinct addresses, none of which is held: the
  -- function returns with all of them held, or it panics with exactly what was held before.
  pub ordered_lock-Locks :
      (ls : List (RawLock S)) (s : S)
      → Obey held m foot ls
      → Distinct (feet foot ls)
      → AllAt none (feet foot ls) (held s)
      → Locks held (held s) (claim (some m) (feet foot ls) (held s)) (ordered_lock m ls s)
  unfolding ordered_lock
  ordered_lock-Locks ls s laws d free =
      finish-Locks ls (held s) (lock_all m ls (0, s)) laws d free
        (lock_all-LocksFrom ls 0 s laws d free)
