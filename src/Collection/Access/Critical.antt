-- ===== src/Collection/Access/Critical.antt =====
-- A critical section by a closure, and one by a guard, on a single lock.
use happylock.Base.{◌≡◌, refl, sym, ap, ◌∙◌, false}
use happylock.Exec.{
  M, Res, ok, panic, hang, ret, ◌>>=◌, ◌>>◌, and_then, lift, beside, on_unwind, handle_unwind,
  resume_unwind,
}
use happylock.Key.{KeyCell, ThreadKey, owned, keyable_drop, thread_key_drop, with_key}

module _ {ℓ} {S : Type 0} {R : Type ℓ} (key : ThreadKey) (unlock : M S (Unit {0}))
    (f : M (KeyCell × S) R) where
  -- The drop of a guard: it unlocks, and then the key is dropped.
  abbrev pub guard_drop : M (KeyCell × S) (Unit {0})
  unfolding with_key thread_key_drop
  guard_drop = do with_key (owned key) (lift unlock); thread_key_drop key

  -- What comes behind the closure when it has a result, in either of the two ways.
  abbrev pub Same : Res (KeyCell × S) R → Type ℓ
  unfolding with_key thread_key_drop keyable_drop
  Same x =
      and_then (on_unwind (on_unwind x (lift unlock)) (keyable_drop (owned key)))
        (λ r. (do keyable_drop (owned key); lift unlock; ret r))
      ≡ and_then (on_unwind x guard_drop) (λ r. (do guard_drop; ret r))

  returned_same :
      (r : R) (cell : KeyCell) (u : Res S (Unit {0}))
      → and_then {A = Unit {0}} (beside (record { is_locked = false }) u) (λ _. ret r)
        ≡ and_then
            (and_then
              (on_unwind (beside cell u) (keyable_drop (owned key)))
              (λ _. thread_key_drop key))
            (λ _. ret r)
  unfolding thread_key_drop keyable_drop
  returned_same r cell (ok _ s) = refl
  returned_same r cell (panic s) = refl
  returned_same r cell hang = refl

  panicked_same :
      (k : R → M (KeyCell × S) R) (j : R → M (KeyCell × S) R) (cell : KeyCell)
      (u : Res S (Unit {0}))
      → and_then (on_unwind (resume_unwind (beside cell u)) (keyable_drop (owned key))) k
        ≡ and_then
            (resume_unwind (
              and_then
                (on_unwind (beside cell u) (keyable_drop (owned key)))
                (λ _. thread_key_drop key)))
            j
  unfolding thread_key_drop keyable_drop
  panicked_same k j cell (ok _ s) = refl
  panicked_same k j cell (panic s) = refl
  panicked_same k j cell hang = refl

  closure-Same : (x : Res (KeyCell × S) R) → Same x
  unfolding with_key thread_key_drop keyable_drop
  closure-Same (ok r (cell, s)) = returned_same r cell (unlock s)
  closure-Same (panic (cell, s)) = panicked_same _ _ cell (unlock s)
  closure-Same hang = refl

  -- `section` is what is done with the guard, which is the closure and then the drop of the guard.
  -- A body that locks, calls the closure, drops the key and unlocks is one that makes a guard,
  -- runs the same and drops the guard, also when the closure, or the lock, panics.
  pub critical_same :
      {Y : Type 0} (made : Y) (section : Y → M (KeyCell × S) R)
      → section made ≡ (do r ← handle_unwind f guard_drop; guard_drop; ret r)
      → (cell : KeyCell) (l : Res S (Unit {0}))
      → and_then
          (on_unwind
            (and_then (beside cell l) (λ _. handle_unwind f (lift unlock)))
            (keyable_drop (owned key)))
          (λ r. (do keyable_drop (owned key); lift unlock; ret r))
        ≡ and_then
            (and_then (on_unwind (beside cell l) (keyable_drop (owned key))) (λ _. ret made))
            section
  unfolding with_key thread_key_drop keyable_drop
  critical_same made section e cell (ok _ s) =
      closure-Same (f (cell, s)) ∙ sym (ap (λ (k : M (KeyCell × S) R). k (cell, s)) e)
  critical_same made section e cell (panic s) = refl
  critical_same made section e cell hang = refl
