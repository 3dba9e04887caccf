-- ===== src/Collection/Access/Single.antt =====
-- A single lock, which has guards of its own, beside the methods that the collections share.
use happylock.Base.{◌≡◌, refl, ap, Bool, true, false, if◌then◌else◌}
use happylock.Exec.{Res, ok, panic, hang, ret, and_then, lift, beside, on_unwind}
use happylock.Key.{KeyCell, ThreadKey, owned, keyable_drop, thread_key_drop}
use happylock.Collection.Access.{Result, LockGuard}

abbrev pub map_ok {ℓ κ μ} :
    {A : Type ℓ} {B : Type κ} {E : Type μ} → (A → B) → Result A E → Result B E
map_ok f (Result.ok a) = Result.ok (f a)
map_ok f (Result.err e) = Result.err e

-- `made` is the guard that the lock makes of the reference `x`, `as` what it is for a collection.
module _ {S X Y : Type 0} (x : X) (key : ThreadKey) (made : Y) (as_guard : Y → LockGuard X)
    (same : as_guard made ≡ record { guard = x; key = key }) where
  pub locked_same :
      (cell : KeyCell) (r : Res S (Unit {0}))
      → and_then
          (and_then (on_unwind (beside cell r) (keyable_drop (owned key))) (λ _. ret made))
          (λ g. ret (as_guard g))
        ≡ and_then
            (on_unwind (and_then (beside cell r) (λ _. lift (ret x))) (keyable_drop (owned key)))
            (λ g. ret (record { guard = g; key = key }))
  unfolding keyable_drop thread_key_drop
  locked_same cell (ok _ s) = ap (λ g. ok g (cell, s)) same
  locked_same cell (panic s) = refl
  locked_same cell hang = refl

  pub tried_same :
      (q : Res (KeyCell × S) Bool)
      → and_then {B = Result (LockGuard X) ThreadKey}
          (and_then q (λ success. if success then ret (Result.ok made) else ret (Result.err key)))
          (λ r. ret (map_ok as_guard r))
        ≡ and_then q (λ success.
          if success
          then ret (Result.ok (record { guard = x; key = key }))
          else ret (Result.err key))
  tried_same (ok true s) = ap (λ g. ok (Result.ok g) s) same
  tried_same (ok false s) = refl
  tried_same (panic s) = refl
  tried_same hang = refl
