-- ===== src/Threads/Liveness.antt =====
-- Threads that lock collections come to an end.
use happylock.Base.{
  ℕ, suc, ◌+◌, ◌≤◌, ◌<◌, ◌≡◌, refl, ap, List, [], ◌∷◌, ◌++◌, inl, inr, All, length, length-append,
  arith,
}
use happylock.Threads.{
  Thread, Move, acquire, release, change, Moves, Reach, after_move, IsIdle, Run, done, more,
}
use happylock.Threads.Progress.{Next, next, IsIdle-or_Next}

-- What there is left to do: two moves for a mutex that is asked for, one for one that is held.
abbrev pub work_of : Thread → ℕ
work_of t = length t.wants + length t.wants + length t.holds

abbrev pub work : List Thread → ℕ
work [] = 0
work (t ∷ ts) = work_of t + work ts

work-append : (xs ys : List Thread) → work (xs ++ ys) ≡ work xs + work ys
work-append [] ys = omega arith
work-append (t ∷ xs) ys = omega (arith, work-append xs ys)

Move-work : (ts : List Thread) (t u : Thread) → Move ts t u → suc (work_of u) ≡ work_of t
Move-work ts t u (acquire a ws e free made) = rw made (omega (arith, ap (length {0} {A = ℕ}) e))
Move-work ts t u (release a hs ks e f made) = rw made (
    omega (
      arith,
      ap (length {0} {A = ℕ}) e,
      ap (length {0} {A = ℕ}) f,
      length-append {0} hs (a ∷ ks),
      length-append {0} hs ks,
    ))

Moves-work : (ts us : List Thread) → Moves ts us → suc (work us) ≡ work ts
Moves-work ts us (change xs ys t u e f m) = omega (
  arith,
  ap work e,
  ap work f,
  work-append xs (t ∷ ys),
  work-append xs (u ∷ ys),
  Move-work ts t u m,
)

Run-work : (n : ℕ) (ts us : List Thread) → Run n ts us → n + work us ≡ work ts
Run-work _ ts us (done _) = omega arith
Run-work _ ts vs (more {n} {us} m run) = omega (arith, Moves-work ts us m, Run-work n us vs run)

Run-Reach : (n : ℕ) (ts us : List Thread) → Reach ts → Run n ts us → Reach us
Run-Reach _ ts us r (done _) = r
Run-Reach _ ts vs r (more {n} {us} m run) = Run-Reach n us vs (after_move r m) run

IsIdle-work : (ts : List Thread) → All IsIdle ts → work ts ≡ 0
IsIdle-work [] idle = refl
IsIdle-work (t ∷ ts) ((e, f), idle) =
    omega (arith, ap (length {0} {A = ℕ}) e, ap (length {0} {A = ℕ}) f, IsIdle-work ts idle)

Next-work : (ts : List Thread) → Next ts → 0 < work ts
Next-work ts (next us m) = omega (arith, Moves-work ts us m)

-- Of threads that lock collections of mutexes accepted by `try_new` of `RefLockCollection` or of
-- `BoxedLockCollection`, each holding nothing when it calls `lock`, none waits for ever: from a
-- state that can come about, without new calls of `lock`, at most `work ts` moves are possible;
-- after fewer moves than that, in whatever order, some thread can move; and after that many, each
-- thread has locked all that it asked for and has unlocked it again. A thread moves by locking the
-- next mutex when no thread holds it, or by unlocking one when it has all.
pub Run-finishes :
    (ts : List Thread) (n : ℕ) (us : List Thread)
    → Reach ts
    → Run n ts us
    → (n ≤ work ts) × (n < work ts → Next us) × (n ≡ work ts → All IsIdle us)
Run-finishes ts n us r run =
    let counted = Run-work n ts us run in
    elim (IsIdle-or_Next us (Run-Reach n ts us r run)) [
      | inl idle ↦ (omega arith, λ lt. absurd (omega (arith, IsIdle-work us idle)), λ e. idle)
      | inr on ↦ (omega arith, λ lt. on, λ e. absurd (omega (arith, Next-work us on)))
    ]
