-- ===== src/Collection/Utils/Trying.antt =====
-- `ordered_try_write` and `ordered_try_read`: all the locks or none, on every outcome.
use happylock.Base.{
  ℕ, ◌+◌, ◌≡◌, refl, sym, Bool, true, false, none, some, List, [], ◌∷◌, ◌++◌, take, length,
  length-append, take-length-append, All-append_left, All-append_right, ap, ◌∙◌, subst, arith,
  if◌then◌else◌,
}
use mathlib.Core.List.{append_assoc, append-nil}
use happylock.Exec.{
  M, Res, ok, panic, hang, ret, ◌>>=◌, ◌>>◌, and_then, beside, lift, get_cell, set_cell, drop_cell,
  on_unwind,
}
use happylock.RawLock.{RawLock, Mode, raw_try_lock}
use happylock.RawLock.Holding.{
  claim, AllAt, Distinct, claim-claim, AllAt-claim-Disjoint, Distinct-append-Disjoint,
}
use happylock.RawLock.Contract.{Holding, TryLocks, Unlocks, feet, feet-append}
use happylock.Collection.Utils.{
  unlock_all, try_lock_all, recover_locked, attempt_to_recover, ordered_try_lock,
}
use happylock.Collection.Utils.Unlocking.{Obey, unlock_prefix, recover_prefix, resumed}

module _ {S : Type 0} (held : S → Holding) (m : Mode) (foot : RawLock S → List ℕ)
    (locks : List (RawLock S)) (undo : List (RawLock S) → M S (Unit {0}))
    (laws : Obey held m foot locks) (d : Distinct (feet foot locks)) (h : Holding)
    (free : AllAt none (feet foot locks) h)
    (undoes : (j : ℕ) (s : S)
      → held s ≡ claim (some m) (feet foot (take j locks)) h
      → Unlocks held h (undo (take j locks) s)) where
  -- What the loop leaves behind: on success all the locks, on failure none, and on a panic the
  -- prefix that the cell has counted.
  abbrev Tries : Res (ℕ × S) Bool → Type 0
  Tries (ok true (k, s)) = held s ≡ claim (some m) (feet foot locks) h
  Tries (ok false (k, s)) = held s ≡ h
  Tries (panic (k, s)) = held s ≡ claim (some m) (feet foot (take k locks)) h
  Tries hang = ⊥

  failed-Tries :
      (k : ℕ) (r : Res S (Unit {0}))
      → Unlocks held h r
      → Tries (and_then (beside k r) (λ _. ret false))
  failed-Tries k (ok _ s) p = p
  failed-Tries k (panic s) p = absurd p
  failed-Tries k hang p = absurd p

  take_front :
      (front rest : List (RawLock S)) (i : ℕ)
      → locks ≡ front ++ rest
      → i ≡ length front
      → take i locks ≡ front
  take_front front rest i e n = rw (e, n) (take-length-append front rest)

  -- While the locks in front are held, those from here on are free.
  front-AllAt :
      (front rest : List (RawLock S)) (g : Holding)
      → locks ≡ front ++ rest
      → g ≡ claim (some m) (feet foot front) h
      → AllAt none (feet foot rest) g
  front-AllAt front rest g e p =
      let split = ap (feet foot) e ∙ feet-append foot front rest in
      rw p (
        AllAt-claim-Disjoint none (some m) (feet foot front) (feet foot rest) h
          (Distinct-append-Disjoint (feet foot front) (feet foot rest) (subst Distinct split d))
          (All-append_right _ (feet foot front) (feet foot rest)
            (subst (λ f. AllAt none f h) split free)))

  front_claim :
      (front : List (RawLock S)) (l : RawLock S) (g : Holding)
      → g ≡ claim (some m) (feet foot front) h
      → claim (some m) (foot l) g ≡ claim (some m) (feet foot (front ++ l ∷ [])) h
  front_claim front l g p =
      rw (p, feet-append foot front (l ∷ []), append-nil (foot l))
        (claim-claim (some m) (feet foot front) (foot l) h)

  -- One attempt, and what the loop does with its outcome.
  try_step :
      (front ls : List (RawLock S)) (l : RawLock S) (i : ℕ) (g : Holding) (r : Res S Bool)
      → locks ≡ front ++ l ∷ ls
      → i ≡ length front
      → g ≡ claim (some m) (feet foot front) h
      → TryLocks held g (claim (some m) (foot l) g) r
      → ((s : S)
          → held s ≡ claim (some m) (feet foot (front ++ l ∷ [])) h
          → Tries (try_lock_all undo m locks (i + 1) ls (i + 1, s)))
      → Tries (
          and_then (beside i r) (λ success.
            if success
            then (do locked ← get_cell; set_cell (locked + 1); try_lock_all undo m locks (i + 1) ls)
            else (do lift (undo (take i locks)); ret false)))
  try_step front ls l i g (ok true s) e n p q next = next s (q ∙ front_claim front l g p)
  try_step front ls l i g (ok false s) e n p q next =
      failed-Tries i (undo (take i locks) s)
        (undoes i s (rw (take_front front (l ∷ ls) i e n) (q ∙ p)))
  try_step front ls l i g (panic s) e n p q next = rw (take_front front (l ∷ ls) i e n) (q ∙ p)
  try_step front ls l i g hang e n p q next = absurd q

  -- The first `i` locks are held, and their number is in the cell.
  try_lock_all-Tries :
      (rest front : List (RawLock S)) (i : ℕ) (s : S)
      → locks ≡ front ++ rest
      → i ≡ length front
      → held s ≡ claim (some m) (feet foot front) h
      → Tries (try_lock_all undo m locks i rest (i, s))
  unfolding try_lock_all
  try_lock_all-Tries [] front i s e n p = rw (ap (feet foot) (e ∙ append-nil front)) p
  try_lock_all-Tries (l ∷ ls) front i s e n p =
      let free_now = front-AllAt front (l ∷ ls) (held s) e p in
      try_step front ls l i (held s) (raw_try_lock m l s) e n p
        ((All-append_right _ front (l ∷ ls) (subst (Obey held m foot) e laws)).0.tries s
          (All-append_left _ (foot l) (feet foot ls) free_now))
        (λ s' q.
          try_lock_all-Tries ls (front ++ l ∷ []) (i + 1) s'
            (e ∙ sym (append_assoc front (l ∷ []) ls)) (omega (arith, length-append front (l ∷ [])))
            q)

  finish-TryLocks :
      (r : Res (ℕ × S) Bool)
      → Tries r
      → TryLocks held h
          (claim (some m) (feet foot locks) h)
          (drop_cell (on_unwind r (recover_locked m locks)))
  unfolding recover_locked
  finish-TryLocks (ok true (k, s)) p = p
  finish-TryLocks (ok false (k, s)) p = p
  finish-TryLocks (panic (k, s)) p =
      let (s', e, out) =
        resumed {0} held m foot Bool h k (attempt_to_recover m (take k locks) s)
          (recover_prefix held m foot k locks h s laws d free p) in
      rw out e
  finish-TryLocks hang p = absurd p

  pub try_all-TryLocks :
      (s : S)
      → held s ≡ h
      → TryLocks held h (claim (some m) (feet foot locks) h) (
          drop_cell (on_unwind (try_lock_all undo m locks 0 locks (0, s)) (recover_locked m locks)))
  try_all-TryLocks s e =
      finish-TryLocks (try_lock_all undo m locks 0 locks (0, s))
        (try_lock_all-Tries locks [] 0 s refl refl e)

module _ {S : Type 0} (held : S → Holding) (m : Mode) (foot : RawLock S → List ℕ) where
  -- Locks that obey their contract and stand for distinct addresses, none of which is held: the
  -- function does not block; if it says `true` all of them are held, and if it says `false` or
  -- panics exactly what was held before.
  pub ordered_try_lock-TryLocks :
      (ls : List (RawLock S)) (s : S)
      → Obey held m foot ls
      → Distinct (feet foot ls)
      → AllAt none (feet foot ls) (held s)
      → TryLocks held (held s) (claim (some m) (feet foot ls) (held s)) (ordered_try_lock m ls s)
  unfolding ordered_try_lock
  ordered_try_lock-TryLocks ls s laws d free =
      try_all-TryLocks held m foot ls (unlock_all m) laws d (held s) free
        (λ j s' p. unlock_prefix held m foot j ls (held s) s' laws d free p) s refl
