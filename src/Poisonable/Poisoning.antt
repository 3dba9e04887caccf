-- ===== src/Poisonable/Poisoning.antt =====
-- When a `Poisonable` is poisoned, and when it says so.
use happylock.Base.{◌≡◌, refl, Bool, true, false, ℕ, if◌then◌else◌, arith}
use happylock.Exec.{
  M, Res, ok, panic, hang, ret, ◌>>=◌, and_then, lift, beside, on_unwind, resume_unwind,
}
use happylock.Key.{
  KeyCell, ThreadKey, Keyable, owned, borrowed, keyable_drop, thread_key_drop, with_key,
}
use happylock.Shared.{Shared, is_poisoned, poison, store_flag}
use happylock.RawLock.{Mode, raw_lock, raw_try_lock, raw_unlock}
use happylock.Collection.Access.{Result}
use happylock.Poisonable.{
  Poisonable, PoisonGuard, PoisonResult, TryLockPoisonableResult, poisoned, would_block, report,
  poison_ref_drop, poisonable_access,
}
use happylock.Poisonable.Methods.{
  poisoning, poison_and_unlock, poisonable_scoped, poisonable_scoped_try, poisonable_guard_with,
  poisonable_lock, poisonable_try_lock, poison_guard_drop, or_would_block,
}

module _ {W : Type 0} (a : ℕ) where
  -- The flag at the address is set when a call is over, which it is.
  abbrev pub LeavesSet {ℓ} : {A : Type ℓ} → Res (Shared W) A → Type 0
  LeavesSet (ok _ s) = s.flags a ≡ true
  LeavesSet (panic s) = s.flags a ≡ true
  LeavesSet hang = ⊥

  -- A call that panics with the flag at the address set.
  abbrev pub Poisons {ℓ} : {A : Type ℓ} → Res (KeyCell × Shared W) A → Type 0
  Poisons (ok _ cs) = ⊥
  Poisons (panic (cell, s)) = s.flags a ≡ true
  Poisons hang = ⊥

  -- A call that ends, with the flag at the address set.
  abbrev pub LeavesPoisoned {ℓ} : {A : Type ℓ} → Res (KeyCell × Shared W) A → Type 0
  LeavesPoisoned (ok _ (cell, s)) = s.flags a ≡ true
  LeavesPoisoned (panic (cell, s)) = s.flags a ≡ true
  LeavesPoisoned hang = ⊥

  resumed_Poisons {ℓ} :
      (A : Type ℓ) (cell : KeyCell) (u : Res (Shared W) (Unit {0}))
      → LeavesSet u
      → Poisons {A = A} (resume_unwind (beside cell u))
  resumed_Poisons A cell (ok _ s) e = e
  resumed_Poisons A cell (panic s) e = e
  resumed_Poisons A cell hang e = absurd e

  keyed_Poisons {ℓ κ} :
      {A : Type ℓ} {B : Type κ} (key : Keyable) (r : Res (KeyCell × Shared W) A)
      (k : A → M (KeyCell × Shared W) B)
      → Poisons r
      → Poisons (and_then (on_unwind r (keyable_drop key)) k)
  unfolding keyable_drop
  keyed_Poisons key (ok x cs) k e = absurd e
  keyed_Poisons (owned _) (panic (cell, s)) k e = e
  keyed_Poisons (borrowed _) (panic (cell, s)) k e = e
  keyed_Poisons key hang k e = absurd e

  then_Poisons {ℓ κ} :
      {A : Type ℓ} {B : Type κ} (r : Res (KeyCell × Shared W) A) (k : A → M (KeyCell × Shared W) B)
      → Poisons r
      → Poisons (and_then r k)
  then_Poisons (ok x cs) k e = absurd e
  then_Poisons (panic (cell, s)) k e = e
  then_Poisons hang k e = absurd e

  dropped_LeavesPoisoned :
      (cell : KeyCell) (key : ThreadKey) (u : Res (Shared W) (Unit {0}))
      (k : M (KeyCell × Shared W) (Unit {0}))
      → ((cell : KeyCell) (s : Shared W) → s.flags a ≡ true → LeavesPoisoned (k (cell, s)))
      → LeavesSet u
      → LeavesPoisoned (and_then (on_unwind (beside cell u) (keyable_drop (owned key))) (λ _. k))
  unfolding keyable_drop
  dropped_LeavesPoisoned cell key (ok _ s) k on e = on cell s e
  dropped_LeavesPoisoned cell key (panic s) k on e = e
  dropped_LeavesPoisoned cell key hang k on e = absurd e

module _ {W G D : Type 0} (m : Mode) (p : Poisonable W G D) where
  module _ {ℓ} {R : Type ℓ} (f : PoisonResult D → M (KeyCell × Shared W) R)
      (keeps : (s : Shared W)
        → s.flags p.poisoned ≡ true
        → LeavesSet p.poisoned (raw_unlock m p.inner_lock s)) where
    caught_Poisons :
        (r : Res (KeyCell × Shared W) R) (cs : KeyCell × Shared W)
        → r ≡ panic cs
        → Poisons p.poisoned (on_unwind r (poison_and_unlock m p))
    unfolding poison_and_unlock poison
    caught_Poisons r (cell, s) e = rw e (
        resumed_Poisons p.poisoned R cell _
          (keeps (record s { flags = store_flag p.poisoned true s.flags }) (ground arith)))

    -- If the lock is taken and the closure panics, then so does the scoped method, and the flag of
    -- the `Poisonable` is set. The same of the methods that try. Unlocking ends and, where the
    -- flag was set before, leaves it set: no thread clears it meanwhile.
    pub poisonable_scoped-Poisons :
        (key : Keyable) (cell : KeyCell) (s t : Shared W) (cs : KeyCell × Shared W)
        → (do d ← lift (poisonable_access p); f d) (cell, t) ≡ panic cs
        → ((raw_lock m p.inner_lock s ≡ ok tt t)
            → Poisons p.poisoned (poisonable_scoped m p key f (cell, s)))
          × ((raw_try_lock m p.inner_lock s ≡ ok true t)
              → Poisons p.poisoned (poisonable_scoped_try m p key f (cell, s)))
    unfolding poisonable_scoped poisonable_scoped_try with_key poisoning
    poisonable_scoped-Poisons key cell s t cs e = (
      λ l.
          rw l (
            keyed_Poisons p.poisoned key _ _ (then_Poisons p.poisoned _ _ (caught_Poisons _ cs e))),
      λ l.
          rw l (
            keyed_Poisons p.poisoned key _ _ (then_Poisons p.poisoned _ _ (caught_Poisons _ cs e))),
    )

  -- What a call that takes the lock says: it comes with an error exactly if the flag is set.
  abbrev pub Says {ℓ} : {A : Type ℓ} → Res (KeyCell × Shared W) (PoisonResult A) → Type 0
  Says (ok (Result.ok g) (cell, s)) = s.flags p.poisoned ≡ false
  Says (ok (Result.err e) (cell, s)) = s.flags p.poisoned ≡ true
  Says (panic cs) = Unit
  Says hang = Unit

  -- What a call that tries says, after what trying the lock has come to: if that has taken the
  -- lock, there is a guard, with an error exactly if the flag is set; if it has failed, the caller
  -- has the key back and nothing has changed since; if it has not returned, neither does the call.
  abbrev pub TrySays :
      ThreadKey
      → KeyCell
      → Res (Shared W) Bool
      → Res (KeyCell × Shared W) (TryLockPoisonableResult G)
      → Type 0
  TrySays key cell (ok true t) (ok (Result.ok g) (cell', s)) = s.flags p.poisoned ≡ false
  TrySays key cell (ok true t) (ok (Result.err (poisoned e)) (cell', s)) = s.flags p.poisoned ≡ true
  TrySays key cell (ok true t) (ok (Result.err (would_block key')) cs) = ⊥
  TrySays key cell (ok true t) (panic cs) = Unit
  TrySays key cell (ok true t) hang = Unit
  TrySays key cell (ok false t) r = r ≡ ok (Result.err (would_block key)) (cell, t)
  TrySays key cell (panic t) (ok x cs) = ⊥
  TrySays key cell (panic t) (panic cs) = Unit
  TrySays key cell (panic t) hang = ⊥
  TrySays key cell hang r = r ≡ hang

  reported_Says :
      {A : Type 0} (b : Bool) (x : A) (cell : KeyCell) (s : Shared W)
      → s.flags p.poisoned ≡ b
      → Says (ok (report b x) (cell, s))
  reported_Says true x cell s e = e
  reported_Says false x cell s e = e

  guarded_Says :
      (key : ThreadKey) (r : Res (KeyCell × Shared W) G)
      → Says {A = PoisonGuard G} (
          and_then (on_unwind r (keyable_drop (owned key))) (λ g. (do
            b ← lift (is_poisoned p.poisoned)
            ret (
                report b (record { guard = record { guard = g; flag = p.poisoned }; key = key })))))
  unfolding keyable_drop is_poisoned
  guarded_Says key (ok g (cell, s)) = reported_Says (s.flags p.poisoned) _ cell s refl
  guarded_Says key (panic cs) = tt
  guarded_Says key hang = tt

  locked_Says :
      (key : ThreadKey) (r : Res (KeyCell × Shared W) (Unit {0}))
      → Says
          (and_then (on_unwind r (keyable_drop (owned key))) (λ _. poisonable_guard_with m p key))
  unfolding keyable_drop poisonable_guard_with with_key
  locked_Says key (ok _ (cell, s)) = guarded_Says key (lift p.inner.guard (cell, s))
  locked_Says key (panic cs) = tt
  locked_Says key hang = tt

  or_would_block-Says :
      (key : ThreadKey) (cell : KeyCell) (t : Shared W)
      (r : Res (KeyCell × Shared W) (PoisonResult (PoisonGuard G)))
      → Says r
      → TrySays key cell (ok true t) (and_then r (λ x. ret (or_would_block x)))
  or_would_block-Says key cell t (ok (Result.ok g) (cell', s)) e = e
  or_would_block-Says key cell t (ok (Result.err x) (cell', s)) e = e
  or_would_block-Says key cell t (panic cs) e = tt
  or_would_block-Says key cell t hang e = tt

  tried_Says :
      (key : ThreadKey) (cell : KeyCell) (r : Res (Shared W) Bool)
      → TrySays key cell r (
          and_then (on_unwind (beside cell r) (keyable_drop (owned key))) (λ success.
            if success
            then (do x ← poisonable_guard_with m p key; ret (or_would_block x))
            else ret (Result.err (would_block key))))
  unfolding keyable_drop poisonable_guard_with with_key
  tried_Says key cell (ok true t) =
      or_would_block-Says key cell t _ (guarded_Says key (lift p.inner.guard (cell, t)))
  tried_Says key cell (ok false t) = refl
  tried_Says key cell (panic t) = tt
  tried_Says key cell hang = refl

  -- Whenever `lock` or `read` returns, it does so with an error exactly if the `Poisonable` is
  -- poisoned in the state that it leaves. If trying the lock takes it and `try_lock` or `try_read`
  -- returns, then with a guard, in an error exactly if the `Poisonable` is poisoned in the state
  -- that it leaves. If trying fails, the call returns `WouldBlock` with the key, and has changed
  -- nothing since; if trying panics or does not return, so does the call.
  pub poisonable_lock-Says :
      (key : ThreadKey) (cell : KeyCell) (s : Shared W)
      → Says (poisonable_lock m p key (cell, s))
        × TrySays key cell (raw_try_lock m p.inner_lock s) (poisonable_try_lock m p key (cell, s))
  unfolding poisonable_lock poisonable_try_lock with_key
  poisonable_lock-Says key cell s = (
    locked_Says key (lift (raw_lock m p.inner_lock) (cell, s)),
    tried_Says key cell (raw_try_lock m p.inner_lock s),
  )

module _ {W G D : Type 0} (p : Poisonable W G D)
    (keeps : (panicking : Bool) (g : G) (s : Shared W)
      → s.flags p.poisoned ≡ true
      → LeavesSet p.poisoned (p.inner.drop_guard panicking g s)) where
  ref_drop-LeavesSet :
      (g : G) (s : Shared W)
      → LeavesSet p.poisoned (poison_ref_drop p true (record { guard = g; flag = p.poisoned }) s)
  unfolding poison_ref_drop poison
  ref_drop-LeavesSet g s =
      keeps true g (record s { flags = store_flag p.poisoned true s.flags }) (ground arith)

  thread_key_drop-LeavesPoisoned :
      (key : ThreadKey) (cell : KeyCell) (s : Shared W)
      → s.flags p.poisoned ≡ true
      → LeavesPoisoned p.poisoned (thread_key_drop key (cell, s))
  unfolding thread_key_drop
  thread_key_drop-LeavesPoisoned key cell s e = e

  -- If a guard of a `Poisonable` is dropped while its thread panics, the `Poisonable` is poisoned
  -- after that. The drop of the inner guard ends and, where the flag was set before, leaves it set.
  pub poison_guard_drop-LeavesPoisoned :
      (key : ThreadKey) (g : G) (cell : KeyCell) (s : Shared W)
      → LeavesPoisoned p.poisoned (
          poison_guard_drop p true
            (record { guard = record { guard = g; flag = p.poisoned }; key = key })
            (cell, s))
  unfolding poison_guard_drop with_key
  poison_guard_drop-LeavesPoisoned key g cell s =
      dropped_LeavesPoisoned p.poisoned cell key _ (thread_key_drop key)
        (thread_key_drop-LeavesPoisoned key) (ref_drop-LeavesSet g s)
