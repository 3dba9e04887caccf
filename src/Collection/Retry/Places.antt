-- ===== src/Collection/Retry/Places.antt =====
-- Where the addresses of the lock at one index are, among those of the locks before another index.
use happylock.Base.{
  ℕ, zero, suc, ◌≤◌, ◌<◌, ◌≡◌, refl, true, false, some, List, [], ◌∷◌, ◌++◌, arith, All, take,
  get_elem?, subst, ◌≢◌, dec_lt,
}
use mathlib.Core.Option.{some-injective}
use happylock.RawLock.{RawLock}
use happylock.RawLock.Holding.{
  has, has-append, Disjoint, Distinct, Distinct-append-Disjoint, Distinct-append_right, All-has,
}
use happylock.RawLock.Contract.{feet}

-- Every element of `ys` is in `xs`.
abbrev pub Within : List ℕ → List ℕ → Type 0
Within xs ys = All (λ y. has xs y ≡ true) ys

Within-append_left : (xs zs ys : List ℕ) → Within xs ys → Within (xs ++ zs) ys
Within-append_left xs zs [] w = tt
Within-append_left xs zs (y ∷ ys) w =
    (ground (arith, has-append xs zs y), Within-append_left xs zs ys w.1)

pub Within-append_right : (xs zs ys : List ℕ) → Within zs ys → Within (xs ++ zs) ys
Within-append_right xs zs [] w = tt
Within-append_right xs zs (y ∷ ys) w =
    (ground (arith, has-append xs zs y), Within-append_right xs zs ys w.1)

pub Disjoint-append : (xs zs ys : List ℕ) → Disjoint xs ys → Disjoint zs ys → Disjoint (xs ++ zs) ys
Disjoint-append xs zs [] d e = tt
Disjoint-append xs zs (y ∷ ys) d e =
    (ground (arith, has-append xs zs y), Disjoint-append xs zs ys d.1 e.1)

has-false_of_Disjoint :
    (xs ys : List ℕ) (a : ℕ) → Disjoint xs ys → has xs a ≡ true → has ys a ≡ false
has-false_of_Disjoint xs [] a d h = refl
has-false_of_Disjoint xs (y ∷ ys) a d h = ground (arith, has-false_of_Disjoint xs ys a d.1 h)

has-false_left : (xs ys : List ℕ) (a : ℕ) → Disjoint xs ys → has ys a ≡ true → has xs a ≡ false
has-false_left xs [] a d h = cc
has-false_left xs (y ∷ ys) a d h = ground (arith, has-false_left xs ys a d.1)

Disjoint-part : (xs ys zs : List ℕ) → Disjoint xs ys → Within ys zs → Disjoint xs zs
Disjoint-part xs ys [] d w = tt
Disjoint-part xs ys (z ∷ zs) d w = (has-false_left xs ys z d w.0, Disjoint-part xs ys zs d w.1)

-- What lies within a part is disjoint from what that part is disjoint from.
pub Disjoint-Within : (xs ys zs : List ℕ) → Disjoint xs ys → Within xs zs → Disjoint ys zs
Disjoint-Within xs ys [] d w = tt
Disjoint-Within xs ys (z ∷ zs) d w =
    (has-false_of_Disjoint xs ys z d w.0, Disjoint-Within xs ys zs d w.1)

pub Disjoint-sym : (xs ys : List ℕ) → Disjoint xs ys → Disjoint ys xs
Disjoint-sym xs ys d = Disjoint-Within xs ys xs d (All-has xs)

nothing-Disjoint : (ys : List ℕ) → Disjoint [] ys
nothing-Disjoint [] = tt
nothing-Disjoint (y ∷ ys) = (refl, nothing-Disjoint ys)

module _ {S : Type 0} (foot : RawLock S → List ℕ) where
  self-Within : (x l : RawLock S) (rest : List ℕ) → x ≡ l → Within (foot x ++ rest) (foot l)
  self-Within x l rest e =
      subst (λ k. Within (foot x ++ rest) (foot k)) e
        (Within-append_left (foot x) rest (foot x) (All-has (foot x)))

  pub foot-Within-feet :
      (ls : List (RawLock S)) (f : ℕ) (l : RawLock S)
      → get_elem? ls f ≡ some l
      → Within (feet foot ls) (foot l)
  foot-Within-feet [] f l e = cc
  foot-Within-feet (x ∷ xs) zero l e = self-Within x l (feet foot xs) (some-injective _ _ e)
  foot-Within-feet (x ∷ xs) (suc f) l e =
      Within-append_right (foot x) (feet foot xs) (foot l) (foot-Within-feet xs f l e)

  -- The lock at an index before `i` is among the first `i`.
  pub foot-Within :
      (ls : List (RawLock S)) (f i : ℕ) (l : RawLock S)
      → get_elem? ls f ≡ some l
      → f < i
      → Within (feet foot (take i ls)) (foot l)
  foot-Within [] f i l e h = cc
  foot-Within (x ∷ xs) zero (suc i) l e h =
      self-Within x l (feet foot (take i xs)) (some-injective _ _ e)
  foot-Within (x ∷ xs) (suc f) (suc i) l e h =
      Within-append_right (foot x) (feet foot (take i xs)) (foot l)
        (foot-Within xs f i l e (omega arith))
  foot-Within (x ∷ xs) f zero l e h = absurd (omega arith)

  -- The lock at an index from `i` on is none of the first `i`.
  pub foot-Disjoint :
      (ls : List (RawLock S)) (f i : ℕ) (l : RawLock S)
      → Distinct (feet foot ls)
      → get_elem? ls f ≡ some l
      → i ≤ f
      → Disjoint (feet foot (take i ls)) (foot l)
  foot-Disjoint ls f zero l d e h = nothing-Disjoint (foot l)
  foot-Disjoint [] f (suc i) l d e h = cc
  foot-Disjoint (x ∷ xs) zero (suc i) l d e h = absurd (omega arith)
  foot-Disjoint (x ∷ xs) (suc f) (suc i) l d e h =
      Disjoint-append (foot x) (feet foot (take i xs)) (foot l)
        (Disjoint-part (foot x) (feet foot xs) (foot l)
          (Distinct-append-Disjoint (foot x) (feet foot xs) d) (foot-Within-feet xs f l e))
        (foot-Disjoint xs f i l (Distinct-append_right (foot x) (feet foot xs) d) e (omega arith))

  -- Locks at two indices have no address in common.
  pub others-Disjoint :
      (ls : List (RawLock S)) (f i : ℕ) (k l : RawLock S)
      → Distinct (feet foot ls)
      → get_elem? ls f ≡ some k
      → get_elem? ls i ≡ some l
      → f ≢ i
      → Disjoint (foot k) (foot l)
  others-Disjoint ls f i k l d p q ne = elim (dec_lt f i) [
    | yes before ↦ Disjoint-sym (foot l) (foot k) (
        Disjoint-Within (feet foot (take i ls)) (foot l) (foot k)
          (foot-Disjoint ls i i l d q (omega arith)) (foot-Within ls f i k p before))
    | no after ↦
        Disjoint-Within (feet foot (take f ls)) (foot k) (foot l)
          (foot-Disjoint ls f f k d p (omega arith)) (foot-Within ls i f l q (omega arith))
  ]
