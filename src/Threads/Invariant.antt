-- ===== src/Threads/Invariant.antt =====
-- What every thread keeps to: it holds only mutexes with smaller addresses than those that it still
-- asks for, and it asks for them in ascending order.
use happylock.Base.{
  ℕ, ◌<◌, sym, subst, List, [], ◌∷◌, ◌++◌, All, All-append, All-append_left, All-append_right,
  All-map,
}
use happylock.Threads.{
  Thread, Move, acquire, release, Start, start, Change, change, Reach, at_first, after_move,
  after_start, IsIdle,
}
use happylock.Threads.Plan.{Ascending, Planned-Ascending}

-- The same of the two lists.
abbrev pub Below : List ℕ → List ℕ → Type 0
Below hs ws = Ascending ws × All (λ h. All (λ w. h < w) ws) hs

abbrev pub IsOrdered : Thread → Type 0
IsOrdered t = Below t.holds t.wants

All-none : (hs : List ℕ) → All (λ h. All (λ w. h < w) []) hs
All-none [] = tt
All-none (h ∷ hs) = (tt, All-none hs)

Below-acquire : (a : ℕ) (hs ws : List ℕ) → Below hs (a ∷ ws) → Below (a ∷ hs) ws
Below-acquire a hs ws (asc, below) = (asc.1, (asc.0, All-map (λ h p. p.1) hs below))

Move-IsOrdered : (ts : List Thread) (t u : Thread) → Move ts t u → IsOrdered t → IsOrdered u
Move-IsOrdered ts t u (acquire a ws e free made) o =
    subst IsOrdered (sym made) (Below-acquire a t.holds ws (subst (Below t.holds) e o))
Move-IsOrdered ts t u (release a hs ks e f made) o =
    subst IsOrdered (sym made) (tt, All-none (hs ++ ks))

Start-IsOrdered : (t u : Thread) → Start t u → IsOrdered t → IsOrdered u
Start-IsOrdered t u (start ws e f plan made) o =
    subst IsOrdered (sym made) (Planned-Ascending ws plan, tt)

IsIdle-IsOrdered : (t : Thread) → IsIdle t → IsOrdered t
IsIdle-IsOrdered t (e, f) = subst (Below t.holds) (sym f) (tt, All-none t.holds)

module _ (P : Thread → Thread → Type 0) (Q : Thread → Type 0)
    (keep : (t u : Thread) → P t u → Q t → Q u) where
  Change-All : (ts us : List Thread) → Change P ts us → All Q ts → All Q us
  Change-All ts us (change xs ys t u e f p) all =
      let split = subst (All Q) e all in
      let rest = All-append_right Q xs (t ∷ ys) split in
      subst (All Q) (sym f)
        (All-append Q xs (u ∷ ys) (All-append_left Q xs (t ∷ ys) split) (keep t u p rest.0, rest.1))

pub Reach-IsOrdered : (ts : List Thread) → Reach ts → All IsOrdered ts
Reach-IsOrdered ts (at_first _ idle) = All-map IsIdle-IsOrdered ts idle
Reach-IsOrdered us (after_move {ts} r m) =
    Change-All (Move ts) IsOrdered (Move-IsOrdered ts) ts us m (Reach-IsOrdered ts r)
Reach-IsOrdered us (after_start {ts} r s) =
    Change-All Start IsOrdered Start-IsOrdered ts us s (Reach-IsOrdered ts r)
