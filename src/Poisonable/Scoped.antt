-- ===== src/Poisonable/Scoped.antt =====
-- The scoped methods of src/poisonable/poisonable.rs give everything back.
use happylock.Base.{◌≡◌, refl, subst, Bool, true, false, none, some, List, ℕ, if◌then◌else◌}
use happylock.Exec.{
  M, Res, ok, panic, hang, ret, ◌>>=◌, ◌>>◌, and_then, lift, beside, on_unwind, resume_unwind,
}
use happylock.Key.{KeyCell, Keyable, owned, borrowed, keyable_drop, with_key}
use happylock.Shared.{Shared, store_flag, poison}
use happylock.RawLock.{Mode, raw_lock, raw_try_lock, raw_unlock}
use happylock.RawLock.Holding.{claim, AllAt}
use happylock.RawLock.Contract.{Holding, Locks, TryLocks, Unlocks, IsRawLock, Unlocks-claim}
use happylock.RawLock.Leaf.{mine}
use happylock.Collection.Access.{Result}
use happylock.Collection.Access.Scoped.{Ends, TryEnds, still_locked}
use happylock.Poisonable.{Poisonable, PoisonResult, poisonable_access}
use happylock.Poisonable.Methods.{
  poison_and_unlock, poisoning, poisonable_scoped, poisonable_scoped_try,
}

module _ {ℓ} {W G D : Type 0} {R : Type ℓ} (held : W → Holding) (m : Mode) (foot : List ℕ)
    (p : Poisonable W G D) (f : PoisonResult D → M (KeyCell × Shared W) R)
    (law : IsRawLock (mine held) m foot p.inner_lock)
    (steady : (cell : KeyCell) (s : Shared W)
      → Ends
          (mine held)
          (mine held s)
          cell.is_locked
          ((do d ← lift (poisonable_access p); f d) (cell, s))) where
  -- With the key alive: the lock is held, or it was given back before a panic.
  abbrev Kept : Holding → Res (KeyCell × Shared W) R → Type 0
  Kept h (ok _ (cell, s)) = (mine held s ≡ claim (some m) foot h) × (cell.is_locked ≡ true)
  Kept h (panic (cell, s)) = (mine held s ≡ h) × (cell.is_locked ≡ true)
  Kept h hang = Unit

  resumed_Kept :
      (h : Holding) (cell : KeyCell) (u : Res (Shared W) (Unit {0}))
      → cell.is_locked ≡ true
      → Unlocks (mine held) h u
      → Kept h (resume_unwind (beside cell u))
  resumed_Kept h cell (ok _ s) k e = (e, k)
  resumed_Kept h cell (panic s) k e = absurd e
  resumed_Kept h cell hang k e = absurd e

  caught_Kept :
      (h : Holding) (r : Res (KeyCell × Shared W) R)
      → AllAt none foot h
      → Ends (mine held) (claim (some m) foot h) true r
      → Kept h (on_unwind r (poison_and_unlock m p))
  unfolding poison_and_unlock poison
  caught_Kept h (ok x (cell, s)) free e = e
  caught_Kept h (panic (cell, s)) free e =
      let set : Shared W = record s { flags = store_flag p.poisoned true s.flags } in
      resumed_Kept h cell (raw_unlock m p.inner_lock set) e.1
        (Unlocks-claim (mine held) m foot h set _ free e.0 (law.unlocks set))
  caught_Kept h hang free e = tt

  poisoning-Kept :
      (h : Holding) (cell : KeyCell) (s : Shared W)
      → AllAt none foot h
      → mine held s ≡ claim (some m) foot h
      → cell.is_locked ≡ true
      → Kept h (poisoning m p f (cell, s))
  unfolding poisoning
  poisoning-Kept h cell s free e k =
      let body : M (KeyCell × Shared W) R = (do d ← lift (poisonable_access p); f d) in
      caught_Kept h (body (cell, s)) free (
        subst (λ b. Ends (mine held) (claim (some m) foot h) b (body (cell, s))) k
          (subst (λ g. Ends (mine held) g cell.is_locked (body (cell, s))) e (steady cell s)))

  unlocked_Ends :
      (h : Holding) (x : R) (cell : KeyCell) (u : Res (Shared W) (Unit {0}))
      → cell.is_locked ≡ true
      → Unlocks (mine held) h u
      → Ends (mine held) {R = R} h true (and_then (beside cell u) (λ _. ret x))
  unlocked_Ends h x cell (ok _ s) k e = (e, k)
  unlocked_Ends h x cell (panic s) k e = absurd e
  unlocked_Ends h x cell hang k e = absurd e

  released_Ends :
      (h : Holding) (r : Res (KeyCell × Shared W) R)
      → AllAt none foot h
      → Kept h r
      → Ends (mine held) h true (and_then r (λ x. (do lift (raw_unlock m p.inner_lock); ret x)))
  released_Ends h (ok x (cell, s)) free e =
      unlocked_Ends h x cell (raw_unlock m p.inner_lock s) e.1
        (Unlocks-claim (mine held) m foot h s _ free e.0 (law.unlocks s))
  released_Ends h (panic (cell, s)) free e = e
  released_Ends h hang free e = tt

  abbrev visit : M (KeyCell × Shared W) R
  visit = do r ← poisoning m p f; lift (raw_unlock m p.inner_lock); ret r

  locked_Ends :
      (h : Holding) (cell : KeyCell) (l : Res (Shared W) (Unit {0}))
      → AllAt none foot h
      → cell.is_locked ≡ true
      → Locks (mine held) h (claim (some m) foot h) l
      → Ends (mine held) h true (and_then (beside cell l) (λ _. visit))
  locked_Ends h cell (ok _ s) free k e = released_Ends h _ free (poisoning-Kept h cell s free e k)
  locked_Ends h cell (panic s) free k e = (e, k)
  locked_Ends h cell hang free k e = tt

  dropped_Ends :
      (h : Holding) (key : Keyable) (r : Res (KeyCell × Shared W) R)
      → Ends (mine held) h true r
      → Ends
          (mine held)
          h
          (still_locked key)
          (and_then (on_unwind r (keyable_drop key)) (λ x. (do keyable_drop key; ret x)))
  unfolding keyable_drop
  dropped_Ends h (owned _) (ok x (cell, s)) e = (e.0, refl)
  dropped_Ends h (borrowed _) (ok x (cell, s)) e = e
  dropped_Ends h (owned _) (panic (cell, s)) e = (e.0, refl)
  dropped_Ends h (borrowed _) (panic (cell, s)) e = e
  dropped_Ends h key hang e = tt

  dropped_TryEnds :
      (h : Holding) (key : Keyable) (r : Res (KeyCell × Shared W) R)
      → Ends (mine held) h true r
      → TryEnds (mine held) h (still_locked key) (
          and_then (on_unwind r (keyable_drop key)) (λ x. (do keyable_drop key; ret (Result.ok x))))
  unfolding keyable_drop
  dropped_TryEnds h (owned _) (ok x (cell, s)) e = (e.0, refl)
  dropped_TryEnds h (borrowed _) (ok x (cell, s)) e = e
  dropped_TryEnds h (owned _) (panic (cell, s)) e = (e.0, refl)
  dropped_TryEnds h (borrowed _) (panic (cell, s)) e = e
  dropped_TryEnds h key hang e = tt

  tried_TryEnds :
      (h : Holding) (key : Keyable) (cell : KeyCell) (l : Res (Shared W) Bool)
      → AllAt none foot h
      → cell.is_locked ≡ true
      → TryLocks (mine held) h (claim (some m) foot h) l
      → TryEnds (mine held) h (still_locked key) (
          and_then (on_unwind (beside cell l) (keyable_drop key)) (λ success.
            if success
            then (do r ← with_key key visit; keyable_drop key; ret (Result.ok r))
            else ret (Result.err key)))
  unfolding keyable_drop with_key
  tried_TryEnds h key cell (ok true s) free k e =
      dropped_TryEnds h key _ (released_Ends h _ free (poisoning-Kept h cell s free e k))
  tried_TryEnds h key cell (ok false s) free k e = (e, k)
  tried_TryEnds h (owned _) cell (panic s) free k e = (e, refl)
  tried_TryEnds h (borrowed _) cell (panic s) free k e = (e, k)
  tried_TryEnds h key cell hang free k e = absurd e

  -- A wrapped lock that keeps its contract and is not held, a key that is alive, and a closure
  -- that leaves both as it finds them: a scoped method of a `Poisonable` that returns or panics
  -- leaves the thread with the locks that it held before, and with its key cell unlocked if the
  -- key was passed by value, locked if by reference; the methods that try do too, and after `Err`
  -- the cell is locked.
  pub poisonable_scoped-Ends :
      (key : Keyable) (cell : KeyCell) (s : Shared W)
      → AllAt none foot (mine held s)
      → cell.is_locked ≡ true
      → Ends (mine held) (mine held s) (still_locked key) (poisonable_scoped m p key f (cell, s))
        × TryEnds
            (mine held)
            (mine held s)
            (still_locked key)
            (poisonable_scoped_try m p key f (cell, s))
  unfolding poisonable_scoped poisonable_scoped_try with_key
  poisonable_scoped-Ends key cell s free k = (
    dropped_Ends (mine held s) key _
        (locked_Ends (mine held s) cell (raw_lock m p.inner_lock s) free k (law.locks s free)),
    tried_TryEnds (mine held s) key cell (raw_try_lock m p.inner_lock s) free k (law.tries s free),
  )
