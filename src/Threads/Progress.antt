-- ===== src/Threads/Progress.antt =====
-- Threads that lock collections do not block one another for ever.
use happylock.Base.{
  ℕ, zero, suc, ◌+◌, ◌≤◌, ◌<◌, ◌≡◌, refl, ap, subst, true, List, [], ◌∷◌, ◌++◌, ◌⊎◌, inl, inr, All,
  All-append_right, All-map, Bool-cases, arith,
}
use happylock.RawLock.Holding.{has, All-has_at}
use happylock.Threads.{Thread, Free, acquire, release, change, Moves, Reach, IsIdle}
use happylock.Threads.Invariant.{IsOrdered, Reach-IsOrdered}

-- Some thread can move.
pub data Next (ts : List Thread) : Type 0 where
  next : (us : List Thread) → Moves ts us → Next ts

-- A thread of the list that holds the address.
data Holder (a : ℕ) (ts : List Thread) : Type 0 where
  holder :
      (xs ys : List Thread) (t : Thread) → ts ≡ xs ++ t ∷ ys → has t.holds a ≡ true → Holder a ts

further : (a : ℕ) (t : Thread) (ts : List Thread) → Holder a ts → Holder a (t ∷ ts)
further a t ts (holder xs ys u e h) = holder (t ∷ xs) ys u (ap (◌∷◌ t) e) h

find-Holder : (a : ℕ) (ts : List Thread) → Free a ts ⊎ Holder a ts
find-Holder a [] = inl tt
find-Holder a (t ∷ ts) = elim (Bool-cases (has t.holds a)) [
  | inl h ↦ inr (holder [] ts t refl h)
  | inr h ↦ elim (find-Holder a ts) [ inl f ↦ inl (h, f) | inr w ↦ inr (further a t ts w) ]
]

All-at : (P : Thread → Type 0) (xs ys : List Thread) (t : Thread) → All P (xs ++ t ∷ ys) → P t
All-at P xs ys t p = (All-append_right P xs (t ∷ ys) p).0

list_cases : (xs : List ℕ) → (xs ≡ []) ⊎ ((a : ℕ) × (as_list : List ℕ) × (xs ≡ a ∷ as_list))
list_cases [] = inl refl
list_cases (x ∷ xs) = inr (x, xs, refl)

module _ (ts : List Thread) (xs ys : List Thread) (t : Thread) (at : ts ≡ xs ++ t ∷ ys) where
  -- A thread that has all it asked for and holds something can unlock.
  can_release : (a : ℕ) (hs : List ℕ) → t.wants ≡ [] → t.holds ≡ a ∷ hs → Next ts
  can_release a hs e f =
      next (xs ++ record { holds = hs; wants = [] } ∷ ys)
        (change xs ys t _ at refl (release a [] hs e f refl))

  can_acquire : (a : ℕ) (ws : List ℕ) → t.wants ≡ a ∷ ws → Free a ts → Next ts
  can_acquire a ws e free =
      next (xs ++ record { holds = a ∷ t.holds; wants = ws } ∷ ys)
        (change xs ys t _ at refl (acquire a ws e free refl))

  holds_something : (a : ℕ) → t.wants ≡ [] → has t.holds a ≡ true → Next ts
  holds_something a e h = elim (list_cases t.holds) [
    | inl f ↦ (let no_a : has [] a ≡ true = subst (λ l. has l a ≡ true) f h in absurd (cc))
    | inr (b, hs, f) ↦ can_release b hs e f
  ]

-- The wait for an address leads to a thread that waits for a larger one, and so to an end.
module _ (ts : List Thread) (ordered : All IsOrdered ts) (bound : ℕ)
    (bounded : All (λ t. All (λ w. w ≤ bound) t.wants) ts) where
  follow :
      (n : ℕ) (xs ys : List Thread) (t : Thread) (a : ℕ) (ws : List ℕ)
      → ts ≡ xs ++ t ∷ ys
      → t.wants ≡ a ∷ ws
      → bound < a + n
      → Next ts
  follow zero xs ys t a ws at e lt =
      let below = subst (All (λ w. w ≤ bound)) e (All-at _ xs ys t (subst (All _) at bounded)) in
      absurd (omega (arith, below.0))
  follow (suc n) xs ys t a ws at e lt = elim (find-Holder a ts) [
    | inl free ↦ can_acquire ts xs ys t at a ws e free
    | inr (holder xs' ys' u at' h) ↦ elim (list_cases u.wants) [
      | inl none_left ↦ holds_something ts xs' ys' u at' a none_left h
      | inr (b, bs, f) ↦
          (let o = All-at IsOrdered xs' ys' u (subst (All IsOrdered) at' ordered) in
            let above =
              subst (All (λ w. a < w)) f
                (All-has_at (λ h. All (λ w. h < w) u.wants) a u.holds h o.1) in
            follow n xs' ys' u b bs at' f (omega (arith, above.0)))
    ]
  ]

sum : List ℕ → ℕ
sum [] = 0
sum (x ∷ xs) = x + sum xs

-- Above everything that any thread asks for.
bound_of : List Thread → ℕ
unfolding sum
bound_of [] = 0
bound_of (t ∷ ts) = sum t.wants + bound_of ts

le_sum : (xs : List ℕ) → All (λ x. x ≤ sum xs) xs
unfolding sum
le_sum [] = tt
le_sum (x ∷ xs) = (omega arith, All-map (λ y h. omega arith) xs (le_sum xs))

le_bound_of : (ts : List Thread) → All (λ t. All (λ w. w ≤ bound_of ts) t.wants) ts
unfolding bound_of
le_bound_of [] = tt
le_bound_of (t ∷ ts) = (
  All-map (λ w h. omega arith) t.wants (le_sum t.wants),
  All-map (λ u p. All-map (λ w h. omega arith) u.wants p) ts (le_bound_of ts),
)

-- A thread that is not idle.
data Busy (ts : List Thread) : Type 0 where
  waiting :
      (xs ys : List Thread) (t : Thread) (a : ℕ) (ws : List ℕ)
      → ts ≡ xs ++ t ∷ ys
      → t.wants ≡ a ∷ ws
      → Busy ts
  full :
      (xs ys : List Thread) (t : Thread) (a : ℕ) (hs : List ℕ)
      → ts ≡ xs ++ t ∷ ys
      → t.wants ≡ []
      → t.holds ≡ a ∷ hs
      → Busy ts

Busy-further : (t : Thread) (ts : List Thread) → Busy ts → Busy (t ∷ ts)
Busy-further t ts (waiting xs ys u a ws at e) = waiting (t ∷ xs) ys u a ws (ap (◌∷◌ t) at) e
Busy-further t ts (full xs ys u a hs at e f) = full (t ∷ xs) ys u a hs (ap (◌∷◌ t) at) e f

find-Busy : (ts : List Thread) → All IsIdle ts ⊎ Busy ts
find-Busy [] = inl tt
find-Busy (t ∷ ts) = elim (list_cases t.wants) [
  | inr (a, ws, e) ↦ inr (waiting [] ts t a ws refl e)
  | inl e ↦ elim (list_cases t.holds) [
    | inr (a, hs, f) ↦ inr (full [] ts t a hs refl e f)
    | inl f ↦ elim (find-Busy ts) [
      | inl idle ↦ inl ((f, e), idle)
      | inr b ↦ inr (Busy-further t ts b)
    ]
  ]
]

Busy-Next : (ts : List Thread) → All IsOrdered ts → Busy ts → Next ts
Busy-Next ts ordered (waiting xs ys t a ws at e) =
    follow ts ordered (bound_of ts) (le_bound_of ts) (suc (bound_of ts)) xs ys t a ws at e
      (omega arith)
Busy-Next ts ordered (full xs ys t a hs at e f) = can_release ts xs ys t at a hs e f

pub IsIdle-or_Next : (ts : List Thread) → Reach ts → All IsIdle ts ⊎ Next ts
IsIdle-or_Next ts r = elim (find-Busy ts) [
  | inl idle ↦ inl idle
  | inr b ↦ inr (Busy-Next ts (Reach-IsOrdered ts r) b)
]
