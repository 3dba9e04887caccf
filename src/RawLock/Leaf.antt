-- ===== src/RawLock/Leaf.antt =====
-- Facts about a lock with a flag that kills it, for mutexes and read-write locks.
use happylock.Base.{
  ℕ, ◌≡◌, ◌⊎◌, refl, inl, inr, Bool, true, false, arith, if◌then◌else◌, Bool-cases,
}
use happylock.Exec.{M, Res, ok, panic, hang, ret, throw, and_then, on_unwind, handle_unwind}
use happylock.Shared.{Shared, poison}
use happylock.RawLock.Contract.{Holding, Locks, TryLocks, Unlocks}

module _ {W : Type 0} (held : W → Holding) where
  abbrev pub mine : Shared W → Holding
  mine s = held s.world

  module _ (h h' : Holding) (a : ℕ) where
    pub killing-Locks :
        (r : Res (Shared W) (Unit {0}))
        → Locks mine h h' r
        → Locks mine h h' (on_unwind r (poison a))
    unfolding poison
    killing-Locks (ok _ s) p = p
    killing-Locks (panic s) p = p
    killing-Locks hang p = tt

    pub killing-TryLocks :
        (r : Res (Shared W) Bool)
        → TryLocks mine h h' r
        → TryLocks mine h h' (on_unwind r (poison a))
    unfolding poison
    killing-TryLocks (ok true s) p = p
    killing-TryLocks (ok false s) p = p
    killing-TryLocks (panic s) p = p
    killing-TryLocks hang p = p

    pub killing-Unlocks :
        (r : Res (Shared W) (Unit {0})) → Unlocks mine h r → Unlocks mine h (on_unwind r (poison a))
    killing-Unlocks (ok _ s) p = p
    killing-Unlocks (panic s) p = absurd p
    killing-Unlocks hang p = absurd p

  -- The test in front of the locking methods: a killed lock panics, and fails to be tried.
  pub guarded-Locks :
      (h' : Holding) (a : ℕ) (op : M (Shared W) (Unit {0})) (s : Shared W)
      → Locks mine (mine s) h' (op s)
      → (b : Bool) → Locks mine (mine s) h' ((if b then throw else handle_unwind op (poison a)) s)
  guarded-Locks h' a op s p true = refl
  guarded-Locks h' a op s p false = killing-Locks (mine s) h' a (op s) p

  pub guarded-TryLocks :
      (h' : Holding) (a : ℕ) (op : M (Shared W) Bool) (s : Shared W)
      → TryLocks mine (mine s) h' (op s)
      → (b : Bool)
      → TryLocks mine (mine s) h' ((if b then ret false else handle_unwind op (poison a)) s)
  guarded-TryLocks h' a op s p true = refl
  guarded-TryLocks h' a op s p false = killing-TryLocks (mine s) h' a (op s) p

module _ {W : Type 0} (a : ℕ) where
  -- A panic out of a guarded method leaves the flag set.
  pub on_unwind-kills {ℓ} :
      {A : Type ℓ} (r : Res (Shared W) A) (s' : Shared W)
      → on_unwind r (poison a) ≡ panic s'
      → s'.flags a ≡ true
  unfolding poison
  on_unwind-kills (ok x s) s' e = cc
  on_unwind-kills (panic s) s' e = ground arith
  on_unwind-kills hang s' e = cc

  pub guarded-kills {ℓ} :
      {A : Type ℓ} (early : M (Shared W) A) (op : M (Shared W) A) (s s' : Shared W)
      → (s.flags a ≡ true → early s ≡ panic s' → s'.flags a ≡ true)
      → (if s.flags a then early else handle_unwind op (poison a)) s ≡ panic s'
      → s'.flags a ≡ true
  guarded-kills early op s s' skip e = elim (Bool-cases (s.flags a)) [
    | inl killed ↦ skip killed (rw killed at e)
    | inr alive ↦ on_unwind-kills (op s) s' (rw alive at e)
  ]

  -- A call that is over, in that state.
  abbrev pub EndsAt : Res (Shared W) (Unit {0}) → Shared W → Type 0
  EndsAt r t = (r ≡ ok tt t) ⊎ (r ≡ panic t)

  forget-panic {ℓ} :
      {A : Type ℓ} (r : Res (Shared W) A) (t : Shared W)
      → and_then r (λ _. ret (tt {0})) ≡ panic t
      → r ≡ panic t
  forget-panic (ok x s) t e = cc
  forget-panic (panic s) t e = cc
  forget-panic hang t e = cc

  pub tried-kills :
      (op : M (Shared W) Bool) (s t : Shared W)
      → and_then
          ((if s.flags a then ret false else handle_unwind op (poison a)) s)
          (λ _. ret (tt {0}))
        ≡ panic t
      → t.flags a ≡ true
  tried-kills op s t e = guarded-kills (ret false) op s t (λ k p. cc) (forget-panic _ t e)

  -- Once the flag is set, the methods leave it set.
  pub refused-stays :
      (op : M (Shared W) (Unit {0})) (s t : Shared W)
      → s.flags a ≡ true
      → EndsAt ((if s.flags a then throw else handle_unwind op (poison a)) s) t
      → t.flags a ≡ true
  refused-stays op s t k h = ground arith

  pub failed-stays :
      (op : M (Shared W) Bool) (s t : Shared W)
      → s.flags a ≡ true
      → EndsAt
          (and_then
            ((if s.flags a then ret false else handle_unwind op (poison a)) s)
            (λ _. ret (tt {0})))
          t
      → t.flags a ≡ true
  failed-stays op s t k h = ground arith

  pub unlocked-stays :
      (r : Res (Shared W) (Unit {0})) (t : Shared W)
      → (r ≡ ok tt t → t.flags a ≡ true)
      → EndsAt (on_unwind r (poison a)) t
      → t.flags a ≡ true
  unfolding poison
  unlocked-stays r t keeps (inr e) = on_unwind-kills r t e
  unlocked-stays (ok x s) t keeps (inl e) = keeps e
  unlocked-stays (panic s) t keeps (inl e) = cc
  unlocked-stays hang t keeps (inl e) = cc
