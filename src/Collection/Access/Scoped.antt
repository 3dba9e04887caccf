-- ===== src/Collection/Access/Scoped.antt =====
-- A scoped call gives everything back, however it ends.
use happylock.Base.{◌≡◌, refl, Bool, true, false, none, some, List, ℕ, subst, if◌then◌else◌}
use happylock.Exec.{
  M, Res, ok, panic, hang, ret, ◌>>=◌, ◌>>◌, and_then, lift, beside, on_unwind, resume_unwind,
}
use happylock.Key.{KeyCell, Keyable, owned, borrowed, keyable_drop, with_key}
use happylock.RawLock.{RawLock, Mode, raw_lock, raw_try_lock, raw_unlock}
use happylock.RawLock.Holding.{claim, AllAt}
use happylock.RawLock.Contract.{Holding, Locks, TryLocks, Unlocks, IsRawLock, Unlocks-claim}
use happylock.Lockable.{Lockable}
use happylock.Collection.Access.{Result, protected, scoped, scoped_try}

-- Whether the cell is locked after the key was dropped: it is if that was a reference.
abbrev pub still_locked : Keyable → Bool
still_locked (owned key) = false
still_locked (borrowed key) = true

module _ {S : Type 0} (held : S → Holding) where
  -- However a computation ends, if it ends: the thread holds `h`, and its key cell is `b`.
  abbrev pub Ends {ℓ} : {R : Type ℓ} → Holding → Bool → Res (KeyCell × S) R → Type 0
  Ends h b (ok _ (cell, s)) = (held s ≡ h) × (cell.is_locked ≡ b)
  Ends h b (panic (cell, s)) = (held s ≡ h) × (cell.is_locked ≡ b)
  Ends h b hang = Unit

  -- The same of a `Result`: after `Err` the key is back, and the cell locked.
  abbrev pub TryEnds {ℓ} :
      {R : Type ℓ} → Holding → Bool → Res (KeyCell × S) (Result R Keyable) → Type 0
  TryEnds h b (ok (Result.ok _) (cell, s)) = (held s ≡ h) × (cell.is_locked ≡ b)
  TryEnds h b (ok (Result.err _) (cell, s)) = (held s ≡ h) × (cell.is_locked ≡ true)
  TryEnds h b (panic (cell, s)) = (held s ≡ h) × (cell.is_locked ≡ b)
  TryEnds h b hang = Unit

  module _ {ℓ} {G D : Type 0} {R : Type ℓ} (m : Mode) (foot : List ℕ) (raw : RawLock S)
      (data_ : Lockable S G D) (f : D → M (KeyCell × S) R) (law : IsRawLock held m foot raw)
      (steady : (cell : KeyCell) (s : S)
        → Ends (held s) cell.is_locked ((do d ← lift data_.access; f d) (cell, s))) where
    release :
        (h : Holding) (s : S)
        → AllAt none foot h
        → held s ≡ claim (some m) foot h
        → Unlocks held h (raw_unlock m raw s)
    release h s free e = Unlocks-claim held m foot h s (raw_unlock m raw s) free e (law.unlocks s)

    -- With the lock taken and the key alive: what a body that unlocks on a panic leaves behind,
    -- for a cell that reads `b` after a panic.
    abbrev Protects : Holding → Bool → Res (KeyCell × S) R → Type 0
    Protects h b (ok _ (cell, s)) = (held s ≡ claim (some m) foot h) × (cell.is_locked ≡ true)
    Protects h b (panic (cell, s)) = (held s ≡ h) × (cell.is_locked ≡ b)
    Protects h b hang = Unit

    resumed_Protects :
        (h : Holding) (cell : KeyCell) (u : Res S (Unit {0}))
        → cell.is_locked ≡ true
        → Unlocks held h u
        → Protects h true (resume_unwind (beside cell u))
    resumed_Protects h cell (ok _ s) k p = (p, k)
    resumed_Protects h cell (panic s) k p = absurd p
    resumed_Protects h cell hang k p = absurd p

    caught_Protects :
        (h : Holding) (r : Res (KeyCell × S) R)
        → AllAt none foot h
        → Ends (claim (some m) foot h) true r
        → Protects h true (on_unwind r (lift (raw_unlock m raw)))
    caught_Protects h (ok x (cell, s)) free p = p
    caught_Protects h (panic (cell, s)) free p =
        resumed_Protects h cell (raw_unlock m raw s) p.1 (release h s free p.0)
    caught_Protects h hang free p = tt

    protected-Protects :
        (h : Holding) (cell : KeyCell) (s : S)
        → AllAt none foot h
        → held s ≡ claim (some m) foot h
        → cell.is_locked ≡ true
        → Protects h true (protected m raw data_ f (cell, s))
    unfolding protected
    protected-Protects h cell s free e k =
        let body : M (KeyCell × S) R = (do d ← lift data_.access; f d) in
        caught_Protects h (body (cell, s)) free (
          subst (λ b. Ends (claim (some m) foot h) b (body (cell, s))) k
            (subst (λ g. Ends g cell.is_locked (body (cell, s))) e (steady cell s)))

    locked-Protects :
        (h : Holding) (cell : KeyCell) (r : Res S (Unit {0}))
        → AllAt none foot h
        → cell.is_locked ≡ true
        → Locks held h (claim (some m) foot h) r
        → Protects h true (and_then (beside cell r) (λ _. protected m raw data_ f))
    locked-Protects h cell (ok _ s) free k p = protected-Protects h cell s free p k
    locked-Protects h cell (panic s) free k p = (p, k)
    locked-Protects h cell hang free k p = tt

    with_key-Protects :
        (h : Holding) (key : Keyable) (r : Res (KeyCell × S) R)
        → Protects h true r
        → Protects h (still_locked key) (on_unwind r (keyable_drop key))
    unfolding keyable_drop
    with_key-Protects h key (ok x (cell, s)) p = p
    with_key-Protects h (owned k) (panic (cell, s)) p = (p.0, refl)
    with_key-Protects h (borrowed k) (panic (cell, s)) p = p
    with_key-Protects h key hang p = tt

    unlocked_Ends {μ} :
        {T : Type μ} (h : Holding) (b : Bool) (cell : KeyCell) (x : T) (u : Res S (Unit {0}))
        → cell.is_locked ≡ b
        → Unlocks held h u
        → Ends {R = T} h b (and_then (beside cell u) (λ _. ret x))
    unlocked_Ends h b cell x (ok _ s) k p = (p, k)
    unlocked_Ends h b cell x (panic s) k p = absurd p
    unlocked_Ends h b cell x hang k p = absurd p

    finish_Ends :
        (h : Holding) (key : Keyable) (r : Res (KeyCell × S) R)
        → AllAt none foot h
        → Protects h (still_locked key) r
        → Ends h
            (still_locked key)
            (and_then r (λ x. (do keyable_drop key; lift (raw_unlock m raw); ret x)))
    unfolding keyable_drop
    finish_Ends h (owned k) (ok x (cell, s)) free p =
        unlocked_Ends h false (record { is_locked = false }) x (raw_unlock m raw s) refl
          (release h s free p.0)
    finish_Ends h (borrowed k) (ok x (cell, s)) free p =
        unlocked_Ends h true cell x (raw_unlock m raw s) p.1 (release h s free p.0)
    finish_Ends h key (panic (cell, s)) free p = p
    finish_Ends h key hang free p = tt

    -- A lock that keeps its contract and is not held, a key that is alive, and a closure that
    -- leaves both as it finds them: a scoped call that returns or panics leaves the thread with
    -- exactly the locks that it held before, and with its key cell unlocked if the key was passed
    -- by value, locked if by reference.
    pub scoped-Ends :
        (key : Keyable) (cell : KeyCell) (s : S)
        → AllAt none foot (held s)
        → cell.is_locked ≡ true
        → Ends (held s) (still_locked key) (scoped m raw data_ key f (cell, s))
    unfolding scoped with_key
    scoped-Ends key cell s free k = finish_Ends (held s) key _ free (
        with_key-Protects (held s) key _
          (locked-Protects (held s) cell (raw_lock m raw s) free k (law.locks s free)))

    unlocked_TryEnds :
        (h : Holding) (b : Bool) (cell : KeyCell) (x : R) (u : Res S (Unit {0}))
        → cell.is_locked ≡ b
        → Unlocks held h u
        → TryEnds h b (and_then (beside cell u) (λ _. ret (Result.ok x)))
    unlocked_TryEnds h b cell x (ok _ s) k p = (p, k)
    unlocked_TryEnds h b cell x (panic s) k p = absurd p
    unlocked_TryEnds h b cell x hang k p = absurd p

    finish_TryEnds :
        (h : Holding) (key : Keyable) (r : Res (KeyCell × S) R)
        → AllAt none foot h
        → Protects h (still_locked key) r
        → TryEnds h
            (still_locked key)
            (and_then r (λ x. (do keyable_drop key; lift (raw_unlock m raw); ret (Result.ok x))))
    unfolding keyable_drop
    finish_TryEnds h (owned k) (ok x (cell, s)) free p =
        unlocked_TryEnds h false (record { is_locked = false }) x (raw_unlock m raw s) refl
          (release h s free p.0)
    finish_TryEnds h (borrowed k) (ok x (cell, s)) free p =
        unlocked_TryEnds h true cell x (raw_unlock m raw s) p.1 (release h s free p.0)
    finish_TryEnds h key (panic (cell, s)) free p = p
    finish_TryEnds h key hang free p = tt

    tried_TryEnds :
        (h : Holding) (key : Keyable) (cell : KeyCell) (t : Res S Bool)
        → AllAt none foot h
        → cell.is_locked ≡ true
        → TryLocks held h (claim (some m) foot h) t
        → TryEnds h (still_locked key) (
            and_then (on_unwind (beside cell t) (keyable_drop key)) (λ success.
              if success
              then (do
                r ← with_key key (protected m raw data_ f)
                keyable_drop key
                lift (raw_unlock m raw)
                ret (Result.ok r))
              else ret (Result.err key)))
    unfolding keyable_drop with_key
    tried_TryEnds h key cell (ok true s) free k p =
        finish_TryEnds h key _ free
          (with_key-Protects h key _ (protected-Protects h cell s free p k))
    tried_TryEnds h key cell (ok false s) free k p = (p, k)
    tried_TryEnds h (owned _) cell (panic s) free k p = (p, refl)
    tried_TryEnds h (borrowed _) cell (panic s) free k p = (p, k)
    tried_TryEnds h key cell hang free k p = absurd p

    -- The same of the scoped functions that try: after `Err` the caller has the key back, the cell
    -- is locked, and nothing more is held than before.
    pub scoped_try-TryEnds :
        (key : Keyable) (cell : KeyCell) (s : S)
        → AllAt none foot (held s)
        → cell.is_locked ≡ true
        → TryEnds (held s) (still_locked key) (scoped_try m raw data_ key f (cell, s))
    unfolding scoped_try with_key
    scoped_try-TryEnds key cell s free k =
        tried_TryEnds (held s) key cell (raw_try_lock m raw s) free k (law.tries s free)
