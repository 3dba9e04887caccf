-- ===== src/RawLock/Holding.antt =====
-- What one thread holds: at each address nothing, a shared or an exclusive lock. Taking or
-- releasing a set of locks is `claim`; the laws are equations between holdings.
use happylock.Base.{
  ℕ, ◌≡◌, refl, Bool, true, false, ◌||◌, Option, List, [], ◌∷◌, ◌++◌, arith, fun_ext, ◌==◌,
  if◌then◌else◌, All, All-map, Bool-cases, inl, inr, subst, ◌∙◌,
}

abbrev pub has : List ℕ → ℕ → Bool
has [] a = false
has (x ∷ xs) a = a == x || has xs a

pub has-append : (xs ys : List ℕ) (a : ℕ) → has (xs ++ ys) a ≡ (has xs a || has ys a)
has-append [] ys a = refl
has-append (x ∷ xs) ys a = ground (arith, has-append xs ys a)

All-has_weaken :
    (x : ℕ) (xs ys : List ℕ) → All (λ y. has xs y ≡ true) ys → All (λ y. has (x ∷ xs) y ≡ true) ys
All-has_weaken x xs [] p = tt
All-has_weaken x xs (y ∷ ys) p = (ground arith, All-has_weaken x xs ys p.1)

pub All-has : (xs : List ℕ) → All (λ x. has xs x ≡ true) xs
All-has [] = tt
All-has (x ∷ xs) = (ground arith, All-has_weaken x xs xs (All-has xs))

-- No address stands twice in the list.
abbrev pub Distinct : List ℕ → Type 0
Distinct [] = Unit
Distinct (x ∷ xs) = (has xs x ≡ false) × Distinct xs

abbrev pub Disjoint : List ℕ → List ℕ → Type 0
Disjoint xs ys = All (λ y. has xs y ≡ false) ys

module _ {ℓ} {T : Type ℓ} where
  abbrev pub claim : Option T → List ℕ → (ℕ → Option T) → ℕ → Option T
  claim o xs h a = if has xs a then o else h a

  -- Every listed address has the state `o`.
  abbrev pub AllAt : Option T → List ℕ → (ℕ → Option T) → Type ℓ
  AllAt o xs h = All (λ a. h a ≡ o) xs

  pub claim-claim :
      (o : Option T) (xs ys : List ℕ) (h : ℕ → Option T)
      → claim o ys (claim o xs h) ≡ claim o (xs ++ ys) h
  claim-claim o xs ys h = fun_ext λ a. ground (arith, has-append xs ys a)

  AllAt-has :
      (o : Option T) (xs : List ℕ) (h : ℕ → Option T) (a : ℕ)
      → AllAt o xs h
      → has xs a ≡ true
      → h a ≡ o
  AllAt-has o [] h a p q = cc
  AllAt-has o (x ∷ xs) h a p q = ground (arith, AllAt-has o xs h a p.1)

  -- To release what was taken gives the first holding back.
  pub claim-undo :
      (o p : Option T) (xs : List ℕ) (h : ℕ → Option T)
      → AllAt o xs h
      → claim o xs (claim p xs h) ≡ h
  claim-undo o p xs h free = fun_ext λ a. ground (arith, AllAt-has o xs h a free)

  -- What is claimed elsewhere stays as it was.
  pub AllAt-claim-Disjoint :
      (o p : Option T) (xs ys : List ℕ) (h : ℕ → Option T)
      → Disjoint xs ys
      → AllAt o ys h
      → AllAt o ys (claim p xs h)
  AllAt-claim-Disjoint o p xs [] h d q = tt
  AllAt-claim-Disjoint o p xs (y ∷ ys) h d q =
      (rw d.0 q.0, AllAt-claim-Disjoint o p xs ys h d.1 q.1)

  pub AllAt-claim_of_has :
      (o : Option T) (xs ys : List ℕ) (h : ℕ → Option T)
      → All (λ y. has xs y ≡ true) ys
      → AllAt o ys (claim o xs h)
  AllAt-claim_of_has o xs [] h d = tt
  AllAt-claim_of_has o xs (y ∷ ys) h d = (rw d.0, AllAt-claim_of_has o xs ys h d.1)

  pub AllAt-claim : (o : Option T) (xs : List ℕ) (h : ℕ → Option T) → AllAt o xs (claim o xs h)
  AllAt-claim o xs h = AllAt-claim_of_has o xs xs h (All-has xs)

All-of {ℓ κ} : {A : Type ℓ} {P : A → Type κ} → ((a : A) → P a) → (xs : List A) → All P xs
All-of f [] = tt
All-of f (x ∷ xs) = (f x, All-of f xs)

pub Distinct-append_left : (xs ys : List ℕ) → Distinct (xs ++ ys) → Distinct xs
Distinct-append_left [] ys d = tt
Distinct-append_left (x ∷ xs) ys d =
    (ground (arith, has-append xs ys x), Distinct-append_left xs ys d.1)

pub Distinct-append_right : (xs ys : List ℕ) → Distinct (xs ++ ys) → Distinct ys
Distinct-append_right [] ys d = d
Distinct-append_right (x ∷ xs) ys d = Distinct-append_right xs ys d.1

has-cons_other : (x : ℕ) (xs ys : List ℕ) → has ys x ≡ false → Disjoint xs ys → Disjoint (x ∷ xs) ys
has-cons_other x xs [] h d = tt
has-cons_other x xs (y ∷ ys) h d = (ground arith, has-cons_other x xs ys (ground arith) d.1)

pub Distinct-append-Disjoint : (xs ys : List ℕ) → Distinct (xs ++ ys) → Disjoint xs ys
Distinct-append-Disjoint [] ys d = All-of (λ y. refl) ys
Distinct-append-Disjoint (x ∷ xs) ys d =
    has-cons_other x xs ys (ground (arith, has-append xs ys x)) (Distinct-append-Disjoint xs ys d.1)

pub All-has_at {κ} : (P : ℕ → Type κ) (a : ℕ) (xs : List ℕ) → has xs a ≡ true → All P xs → P a
All-has_at P a [] h p = absurd (cc)
All-has_at P a (x ∷ xs) h p = elim (Bool-cases (has xs a)) [
  | inl later ↦ All-has_at P a xs later p.1
  | inr other ↦ (let e : x ≡ a = ground arith in subst P e p.0)
]

-- A list of the same addresses.
abbrev pub SameHas : List ℕ → List ℕ → Type 0
SameHas xs ys = (a : ℕ) → has xs a ≡ has ys a

pub All-SameHas {κ} : (P : ℕ → Type κ) (xs ys : List ℕ) → SameHas xs ys → All P xs → All P ys
All-SameHas P xs ys same p = All-map (λ y h. All-has_at P y xs (same y ∙ h) p) ys (All-has ys)

pub claim-SameHas {ℓ} :
    {T : Type ℓ} (o : Option T) (xs ys : List ℕ) (h : ℕ → Option T)
    → SameHas xs ys
    → claim o xs h ≡ claim o ys h
claim-SameHas o xs ys h same = fun_ext λ a. rw (same a) refl
