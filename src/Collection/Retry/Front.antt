-- ===== src/Collection/Retry/Front.antt =====
-- Within a round of the retrying loop: the first lock, and the locks in front of an index.
use happylock.Base.{
  ℕ, zero, suc, ◌≡◌, ◌≢◌, refl, sym, Option, none, some, List, [], ◌∷◌, ◌++◌, take, length,
  get_elem?, take-length-append, All-append_left, All-append_right, subst, ap, ◌∙◌, arith, fun_ext,
}
use mathlib.Core.List.{append_assoc, append-nil}
use mathlib.Core.Option.{some-injective}
use happylock.RawLock.{RawLock, Mode}
use happylock.RawLock.Holding.{
  has-append, claim, AllAt, Distinct, Disjoint, claim-claim, claim-undo, AllAt-claim-Disjoint,
  Distinct-append_left,
}
use happylock.RawLock.Contract.{Holding, feet, feet-append}
use happylock.Collection.Retry.Places.{
  Within, Disjoint-append, Disjoint-sym, foot-Disjoint, others-Disjoint,
}
use happylock.Collection.Retry.Progress.{Progress, Advances, Advance}

module _ {ℓ} {T : Type ℓ} where
  absorb_at :
      (o : Option T) (xs ys : List ℕ) (h : ℕ → Option T) (a : ℕ)
      → Within ys xs
      → claim o (xs ++ ys) h a ≡ claim o ys h a
  absorb_at o [] ys h a w = refl
  absorb_at o (x ∷ xs) ys h a w = ground (arith, absorb_at o xs ys h a w.1)

  -- What lies within the rest is claimed with it.
  pub claim-absorb :
      (o : Option T) (xs ys : List ℕ) (h : ℕ → Option T)
      → Within ys xs
      → claim o (xs ++ ys) h ≡ claim o ys h
  claim-absorb o xs ys h w = fun_ext λ a. absorb_at o xs ys h a w

  claim-again :
      (o : Option T) (xs ys : List ℕ) (h : ℕ → Option T)
      → claim o (xs ++ (ys ++ xs)) h ≡ claim o (xs ++ ys) h
  claim-again o xs ys h =
      fun_ext
        λ a. ground (arith, has-append xs (ys ++ xs) a, has-append ys xs a, has-append xs ys a)

get_split :
    {S : Type 0} (front ls : List S) (l : S) → get_elem? (front ++ l ∷ ls) (length front) ≡ some l
get_split [] ls l = refl
get_split (x ∷ xs) ls l = get_split xs ls l

-- What is given where a round starts: locks that keep the contract, with distinct addresses that are
-- free in `h`, and the lock at the index that the round starts with.
pub record Started {S : Type 0} (p : Progress S) (held : S → Holding) (m : Mode)
    (foot : RawLock S → List ℕ) (locks : List (RawLock S)) (h : Holding) (f : ℕ) (first : RawLock S)
    : Type 1 where
  pub laws : Advance p held m foot locks
  pub d : Distinct (feet foot locks)
  pub free : AllAt none (feet foot locks) h
  pub at : get_elem? locks f ≡ some first

module _ {S : Type 0} {p : Progress S} {held : S → Holding} {m : Mode} {foot : RawLock S → List ℕ}
    {locks : List (RawLock S)} {h : Holding} {f : ℕ} {first : RawLock S}
    (st : Started p held m foot locks h f first) where
  pub take_front :
      (front rest : List (RawLock S)) (i : ℕ)
      → locks ≡ front ++ rest
      → i ≡ length front
      → take i locks ≡ front
  take_front front rest i e n = rw (e, n) (take-length-append front rest)

  pub get_rest :
      (front ls : List (RawLock S)) (l : RawLock S) (i : ℕ)
      → locks ≡ front ++ l ∷ ls
      → i ≡ length front
      → get_elem? locks i ≡ some l
  get_rest front ls l i e n = rw (e, n) (get_split front ls l)

  pub front-Distinct :
      (front rest : List (RawLock S)) → locks ≡ front ++ rest → Distinct (feet foot front)
  front-Distinct front rest e =
      Distinct-append_left (feet foot front) (feet foot rest)
        (subst Distinct (ap (feet foot) e ∙ feet-append foot front rest) st.d)

  pub front-free :
      (front rest : List (RawLock S)) → locks ≡ front ++ rest → AllAt none (feet foot front) h
  front-free front rest e =
      All-append_left _ (feet foot front) (feet foot rest)
        (subst (λ g. AllAt none g h) (ap (feet foot) e ∙ feet-append foot front rest) st.free)

  pub front-laws :
      (front rest : List (RawLock S)) → locks ≡ front ++ rest → Advance p held m foot front
  front-laws front rest e = All-append_left _ front rest (subst (Advance p held m foot) e st.laws)

  -- A lock that stands at some index is free in `h`, and keeps its contract.
  pub at-free :
      (ls : List (RawLock S)) (i : ℕ) (l : RawLock S)
      → AllAt none (feet foot ls) h
      → get_elem? ls i ≡ some l
      → AllAt none (foot l) h
  at-free [] i l a e = cc
  at-free (x ∷ xs) zero l a e =
      subst (λ k. AllAt none (foot k) h) (some-injective _ _ e)
        (All-append_left _ (foot x) (feet foot xs) a)
  at-free (x ∷ xs) (suc i) l a e = at-free xs i l (All-append_right _ (foot x) (feet foot xs) a) e

  pub at-law :
      (ls : List (RawLock S)) (i : ℕ) (l : RawLock S)
      → Advance p held m foot ls
      → get_elem? ls i ≡ some l
      → Advances p held m (foot l) l
  at-law [] i l a e = cc
  at-law (x ∷ xs) zero l a e = subst (λ k. Advances p held m (foot k) k) (some-injective _ _ e) a.0
  at-law (x ∷ xs) (suc i) l a e = at-law xs i l a.1 e

  -- The first lock of the round and those in front of the index are held.
  abbrev pub Holds : List (RawLock S) → S → Type 0
  Holds front s = held s ≡ claim (some m) (foot first ++ feet foot front) h

  -- A lock that is not the first one is free while the round holds those in front of it.
  pub next-free :
      (front ls : List (RawLock S)) (l : RawLock S) (i : ℕ) (s : S)
      → locks ≡ front ++ l ∷ ls
      → i ≡ length front
      → f ≢ i
      → Holds front s
      → AllAt none (foot l) (held s)
  next-free front ls l i s e n ne q =
      let here = get_rest front ls l i e n in
      rw q (
        AllAt-claim-Disjoint none (some m) (foot first ++ feet foot front) (foot l) h
          (Disjoint-append (foot first) (feet foot front) (foot l)
            (others-Disjoint foot locks f i first l st.d st.at here ne)
            (subst (λ k. Disjoint (feet foot k) (foot l)) (take_front front (l ∷ ls) i e n)
              (foot-Disjoint foot locks i i l st.d here (omega arith))))
          (at-free locks i l st.free here))

  pub next-Holds :
      (front : List (RawLock S)) (l : RawLock S) (s s' : S)
      → Holds front s
      → held s' ≡ claim (some m) (foot l) (held s)
      → Holds (front ++ l ∷ []) s'
  next-Holds front l s s' q e =
      e
      ∙ rw
          (
            q,
            feet-append foot front (l ∷ []),
            append-nil (foot l),
            ← append_assoc (foot first) (feet foot front) (foot l),
          )
          (claim-claim (some m) (foot first ++ feet foot front) (foot l) h)

  pub same-Holds :
      (front : List (RawLock S)) (l : RawLock S) (s : S)
      → l ≡ first
      → Holds front s
      → Holds (front ++ l ∷ []) s
  same-Holds front l s e q =
      rw (e, feet-append foot front (first ∷ []), append-nil (foot first))
        (q ∙ sym (claim-again (some m) (foot first) (feet foot front) h))

  pub is_first :
      (front ls : List (RawLock S)) (l : RawLock S) (i : ℕ)
      → locks ≡ front ++ l ∷ ls
      → i ≡ length front
      → i ≡ f
      → l ≡ first
  is_first front ls l i e n same =
      some-injective _ _ (sym (get_rest front ls l i e n) ∙ ap (get_elem? locks) same ∙ st.at)

  -- The first lock comes after those in front: their recovery leaves it alone.
  pub only_first :
      (front rest : List (RawLock S)) (s g : S)
      → locks ≡ front ++ rest
      → Disjoint (feet foot front) (foot first)
      → Holds front g
      → held s ≡ claim none (feet foot front) (held g)
      → held s ≡ claim (some m) (foot first) h
  only_first front rest s g e apart q r =
      let ff = feet foot front in
      r
      ∙ ap (claim none ff) (q ∙ sym (claim-claim (some m) (foot first) ff h))
      ∙ claim-undo none (some m) ff (claim (some m) (foot first) h) (
          AllAt-claim-Disjoint none (some m) (foot first) ff h (Disjoint-sym ff (foot first) apart)
            (front-free front rest e))

  -- The first lock is one of those in front: their recovery releases all.
  pub nothing_left :
      (front rest : List (RawLock S)) (s g : S)
      → locks ≡ front ++ rest
      → Within (feet foot front) (foot first)
      → Holds front g
      → held s ≡ claim none (feet foot front) (held g)
      → held s ≡ h
  nothing_left front rest s g e within q r =
      let ff = feet foot front in
      r
      ∙ ap (claim none ff) (q ∙ claim-absorb (some m) (foot first) ff h within)
      ∙ claim-undo none (some m) ff h (front-free front rest e)
