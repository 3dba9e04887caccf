-- ===== src/Collection/Retry/Leaks.antt =====
-- The clean-up of `raw_write` and `raw_read` of src/collection/retry.rs after a panic, in the two
-- situations where what it unlocks is not what the call has locked.
use happylock.Base.{
  ℕ, suc, ◌≡◌, refl, sym, ◌∙◌, ap, true, none, some, List, [], ◌∷◌, ◌++◌, subst, All-append_left,
  All-append_right,
}
use happylock.Exec.{Res, ok, panic, hang, resume_unwind, beside, drop_cell}
use happylock.RawLock.{RawLock, Mode, raw_lock, raw_try_lock, raw_unlock}
use happylock.RawLock.Holding.{
  claim, AllAt, AllAt-claim, claim-claim, Distinct, AllAt-claim-Disjoint, Distinct-append_right,
  Distinct-append-Disjoint,
}
use happylock.RawLock.Contract.{Holding, Locks, TryLocks, Unlocks, IsRawLock, feet}
use happylock.Collection.Retry.{retry_lock, retry_loop, round, try_others, index, clean_up}
use happylock.Collection.Utils.{attempt_to_recover, unlock_all}

resumed :
    {C S : Type 0} (c : C) (r : Res S (Unit {0}))
    → drop_cell (resume_unwind {A = Unit {0}} (beside c r)) ≡ resume_unwind r
resumed c (ok _ s) = refl
resumed c (panic s) = refl
resumed c hang = refl

module _ {S : Type 0} (held : S → Holding) (m : Mode) (foot : RawLock S → List ℕ) where
  -- When the blocking call on the first lock of the collection panics, as it does for a killed
  -- mutex, the call comes to what unlocking that lock comes to, with the panic going on after it,
  -- although the thread holds no lock of the collection when it unlocks that one. The first lock
  -- keeps the contract of raw locks, and the thread held no lock of the collection before.
  pub retry_lock-unlocks_unheld :
      (n : ℕ) (a : RawLock S) (ls : List (RawLock S)) (s s' : S)
      → IsRawLock held m (foot a) a
      → AllAt none (feet foot (a ∷ ls)) (held s)
      → raw_lock m a s ≡ panic s'
      → AllAt none (feet foot (a ∷ ls)) (held s')
        × (retry_lock m (suc n) (a ∷ ls) s ≡ resume_unwind (raw_unlock m a s'))
  unfolding retry_lock retry_loop round try_others index clean_up attempt_to_recover unlock_all
  retry_lock-unlocks_unheld n a ls s s' la free e =
      let same =
        subst (Locks held (held s) (claim (some m) (foot a) (held s))) e
          (la.locks s (All-append_left _ (foot a) (feet foot ls) free)) in
      (
        subst (AllAt none (feet foot (a ∷ ls))) (sym same) free,
        rw e (resumed _ (raw_unlock m a s')),
      )

  unlocked :
      (h : Holding) (r : Res S (Unit {0}))
      → Unlocks held h r
      → (s : S) × (r ≡ ok tt s) × (held s ≡ h)
  unlocked h (ok _ s) u = (s, refl, u)
  unlocked h (panic s) u = absurd u
  unlocked h hang u = absurd u

  -- What is held when the attempt at the third lock has panicked.
  two_taken :
      (a b c : RawLock S) (s s1 s2 s3 : S)
      → IsRawLock held m (foot a) a
      → IsRawLock held m (foot b) b
      → IsRawLock held m (foot c) c
      → Distinct (feet foot (a ∷ b ∷ c ∷ []))
      → AllAt none (feet foot (a ∷ b ∷ c ∷ [])) (held s)
      → raw_lock m a s ≡ ok tt s1
      → raw_try_lock m b s1 ≡ ok true s2
      → raw_try_lock m c s2 ≡ panic s3
      → held s3 ≡ claim (some m) (foot b) (claim (some m) (foot a) (held s))
  two_taken a b c s s1 s2 s3 la lb lc d free ea eb ec =
      let free_bc = All-append_right _ (foot a) (feet foot (b ∷ c ∷ [])) free in
      let apart_a = Distinct-append-Disjoint (foot a) (feet foot (b ∷ c ∷ [])) d in
      let d_bc = Distinct-append_right (foot a) (feet foot (b ∷ c ∷ [])) d in
      let apart_b = Distinct-append-Disjoint (foot b) (feet foot (c ∷ [])) d_bc in
      let at_s1 =
        subst (Locks held (held s) (claim (some m) (foot a) (held s))) ea
          (la.locks s (All-append_left _ (foot a) (feet foot (b ∷ c ∷ [])) free)) in
      let free_1 = subst (AllAt none (feet foot (b ∷ c ∷ []))) (sym at_s1) (
        AllAt-claim-Disjoint none (some m) (foot a) (feet foot (b ∷ c ∷ [])) (held s) apart_a
          free_bc) in
      let at_s2 =
        subst (TryLocks held (held s1) (claim (some m) (foot b) (held s1))) eb
          (lb.tries s1 (All-append_left _ (foot b) (feet foot (c ∷ [])) free_1)) in
      let free_2 = subst (AllAt none (feet foot (c ∷ []))) (sym at_s2) (
        AllAt-claim-Disjoint none (some m) (foot b) (feet foot (c ∷ [])) (held s1) apart_b
          (All-append_right _ (foot b) (feet foot (c ∷ [])) free_1)) in
      let at_s3 =
        subst (TryLocks held (held s2) (claim (some m) (foot c) (held s2))) ec
          (lc.tries s2 (All-append_left _ (foot c) [] free_2)) in
      at_s3 ∙ (at_s2 ∙ ap (claim (some m) (foot b)) at_s1)

  -- When the first two locks of a collection are taken and the attempt at the third panics, the
  -- call panics and the second lock stays locked. The three locks keep the contract of raw locks,
  -- their addresses are distinct, and the thread held none of them before.
  pub retry_lock-leaks :
      (n : ℕ) (a b c : RawLock S) (ls : List (RawLock S)) (s s1 s2 s3 : S)
      → IsRawLock held m (foot a) a
      → IsRawLock held m (foot b) b
      → IsRawLock held m (foot c) c
      → Distinct (feet foot (a ∷ b ∷ c ∷ []))
      → AllAt none (feet foot (a ∷ b ∷ c ∷ [])) (held s)
      → raw_lock m a s ≡ ok tt s1
      → raw_try_lock m b s1 ≡ ok true s2
      → raw_try_lock m c s2 ≡ panic s3
      → (s' : S) × (retry_lock m (suc n) (a ∷ b ∷ c ∷ ls) s ≡ panic s')
        × AllAt (some m) (foot b) (held s')
  unfolding retry_lock retry_loop round try_others index clean_up attempt_to_recover unlock_all
  retry_lock-leaks n a b c ls s s1 s2 s3 la lb lc d free ea eb ec =
      let at_s3 = two_taken a b c s s1 s2 s3 la lb lc d free ea eb ec in
      let apart =
        All-append_left _ (foot b) (feet foot (c ∷ []))
          (Distinct-append-Disjoint (foot a) (feet foot (b ∷ c ∷ [])) d) in
      let both =
        subst (AllAt (some m) (foot a ++ foot b))
          (sym (at_s3 ∙ claim-claim (some m) (foot a) (foot b) (held s)))
          (AllAt-claim (some m) (foot a ++ foot b) (held s)) in
      let a_held = All-append_left _ (foot a) (foot b) both in
      let b_held = All-append_right _ (foot a) (foot b) both in
      let (s', e, after) = unlocked _ (raw_unlock m a s3) (la.unlocks s3 a_held) in
      (
        s',
        rw ea (rw eb (rw ec (rw e refl))),
        subst (AllAt (some m) (foot b)) (sym after)
            (AllAt-claim-Disjoint (some m) none (foot a) (foot b) (held s3) apart b_held),
      )
