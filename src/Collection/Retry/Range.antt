-- ===== src/Collection/Retry/Range.antt =====
-- The retrying loop stays within the vector of its locks, whatever the locks do.
use happylock.Base.{
  ℕ, zero, suc, ◌+◌, ◌≤◌, ◌<◌, ◌≡◌, refl, Bool, true, false, List, [], ◌∷◌, take, length, arith,
  ◌==◌, leb, if◌then◌else◌, Bool-cases, inl, inr,
}
use happylock.Exec.{M, Res, ok, panic, hang, ret, ◌>>=◌, ◌>>◌, and_then, beside, get_cell, set_cell}
use happylock.RawLock.{RawLock, Mode, raw_lock, raw_try_lock, raw_unlock}
use happylock.Collection.Utils.{attempt_to_recover}
use happylock.Collection.Retry.{
  Cells, Round, complete, again, index, back_off, try_others, round, retry_loop,
}

-- `locks[first_index]` and `&locks[0..locked]` are within `n` locks.
abbrev pub InRange : ℕ → Cells → Type 0
InRange n c = (c.first_index < n) × (c.locked < n)

module _ {S : Type 0} (n : ℕ) where
  -- How a round ends: the cells are in range, and the next round starts with nothing counted.
  abbrev RoundInRange : Res (Cells × S) Round → Type 0
  RoundInRange (ok complete (c, s)) = InRange n c
  RoundInRange (ok again (c, s)) = (c.first_index < n) × (c.locked ≡ 0)
  RoundInRange (panic (c, s)) = InRange n c
  RoundInRange hang = Unit

  abbrev pub LoopInRange : Res (Cells × S) (Unit {0}) → Type 0
  LoopInRange (ok _ (c, s)) = InRange n c
  LoopInRange (panic (c, s)) = InRange n c
  LoopInRange hang = Unit

  abbrev forget : ℕ → M (Cells × S) Round
  forget i = (do
    cells ← get_cell
    set_cell (record cells { locked = 0 })
    cells ← get_cell
    set_cell (record cells { first_index = i })
    ret again)

  forget-RoundInRange :
      (c : Cells) (i : ℕ) (u : Res S (Unit {0}))
      → InRange n c
      → i < n
      → RoundInRange (and_then (beside c u) (λ _. forget i))
  forget-RoundInRange c i (ok _ s) within lt = (lt, refl)
  forget-RoundInRange c i (panic s) within lt = within
  forget-RoundInRange c i hang within lt = tt

  -- A call of a lock while the cells are in range.
  called :
      {A : Type 0} (c : Cells) (r : Res S A) (k : A → M (Cells × S) Round)
      → InRange n c
      → ((a : A) (s : S) → RoundInRange (k a (c, s)))
      → RoundInRange (and_then (beside c r) k)
  called c (ok a s) k within next = next a s
  called c (panic s) k within next = within
  called c hang k within next = tt

  module _ (m : Mode) (locks : List (RawLock S)) where
    back_off-RoundInRange :
        (i : ℕ) (c : Cells) (s : S) → InRange n c → i < n → RoundInRange (back_off m locks i (c, s))
    unfolding back_off
    back_off-RoundInRange i c s within lt =
        called c (attempt_to_recover m (take i locks) s) _ within (λ _ t.
          elim (Bool-cases (leb i c.first_index)) [
            | inl e ↦
                rw e
                  (forget-RoundInRange c i (index locks c.first_index (raw_unlock m) t) within lt)
            | inr e ↦ rw e (forget-RoundInRange c i (ok tt t) within lt)
          ])

    -- In front of index `i` at most `i` locks are counted, and fewer if the first is among them.
    abbrev Counted : ℕ → Cells → Type 0
    Counted i c = (c.first_index < n) × (c.locked ≤ i) × (c.first_index < i → c.locked < i)

    tried-RoundInRange :
        (ls : List (RawLock S)) (i : ℕ) (c : Cells) (r : Res S Bool)
        → Counted i c
        → i < n
        → (i == c.first_index) ≡ false
        → ((c' : Cells) (s : S)
            → Counted (i + 1) c'
            → RoundInRange (try_others m locks (i + 1) ls (c', s)))
        → RoundInRange (
            and_then (beside c r) (λ success.
              if success
              then (do
                cells ← get_cell
                set_cell (record cells { locked = cells.locked + 1 })
                try_others m locks (i + 1) ls)
              else back_off m locks i))
    tried-RoundInRange ls i c (ok true s) (first, most, fewer) lt other next =
        next (record c { locked = c.locked + 1 }) s (first, omega arith, λ below. ground arith)
    tried-RoundInRange ls i c (ok false s) (first, most, fewer) lt other next =
        back_off-RoundInRange i c s (first, omega arith) lt
    tried-RoundInRange ls i c (panic s) (first, most, fewer) lt other next = (first, omega arith)
    tried-RoundInRange ls i c hang counted lt other next = tt

    try_others-RoundInRange :
        (rest : List (RawLock S)) (i : ℕ) (c : Cells) (s : S)
        → i + length rest ≡ n
        → Counted i c
        → RoundInRange (try_others m locks i rest (c, s))
    unfolding try_others
    try_others-RoundInRange [] i c s e (first, most, fewer) =
        (first, let lt = fewer (omega arith) in omega arith)
    try_others-RoundInRange (l ∷ ls) i c s e (first, most, fewer) =
        elim (Bool-cases (i == c.first_index)) [
          | inl here ↦ rw here (
              try_others-RoundInRange ls (i + 1) c s (omega arith)
                (first, omega arith, λ lt. omega arith))
          | inr other ↦ rw other (
              tried-RoundInRange ls i c (raw_try_lock m l s) (first, most, fewer) (omega arith)
                other
                (λ c' t counted. try_others-RoundInRange ls (i + 1) c' t (omega arith) counted))
        ]

    round-RoundInRange :
        (c : Cells) (s : S)
        → length locks ≡ n
        → c.first_index < n
        → c.locked ≡ 0
        → RoundInRange (round m locks (c, s))
    unfolding round
    round-RoundInRange c s e first none_yet =
        called c (index locks c.first_index (raw_lock m) s) _ (first, omega arith)
          (λ _ t.
            try_others-RoundInRange locks 0 c t (omega arith)
              (first, omega arith, λ lt. absurd (omega arith)))

    looped :
        (r : Res (Cells × S) Round) (k : M (Cells × S) (Unit {0}))
        → RoundInRange r
        → ((c : Cells) (s : S) → c.first_index < n → c.locked ≡ 0 → LoopInRange (k (c, s)))
        → LoopInRange (and_then r (λ o. elim o [ complete ↦ ret tt | again ↦ k ]))
    looped (ok complete (c, s)) k within next = within
    looped (ok again (c, s)) k within next = next c s within.0 within.1
    looped (panic (c, s)) k within next = within
    looped hang k within next = tt

-- Whatever the locks do, panics and failures included: when the retrying loop over a vector of
-- locks that is not empty returns or unwinds, `first_index` is the index of a lock, and `locked` is
-- less than the number of locks. So the index and the slice that the clean-up takes are in range.
pub retry_loop-LoopInRange :
    {S : Type 0} (m : Mode) (locks : List (RawLock S)) (fuel : ℕ) (c : Cells) (s : S)
    → c.first_index < length locks
    → c.locked ≡ 0
    → LoopInRange (length locks) (retry_loop m locks fuel (c, s))
unfolding retry_loop
retry_loop-LoopInRange m locks zero c s first none_yet = tt
retry_loop-LoopInRange m locks (suc fuel) c s first none_yet =
    looped (length locks) m locks (round m locks (c, s)) (retry_loop m locks fuel)
      (round-RoundInRange (length locks) m locks c s refl first none_yet)
      (λ c' t first' none'. retry_loop-LoopInRange m locks fuel c' t first' none')
