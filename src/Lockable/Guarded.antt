-- ===== src/Lockable/Guarded.antt =====
-- What the guards of src/lockable.rs promise: the drop of a guard unlocks what the guard stands for.
use happylock.Base.{ℕ, ◌≡◌, refl, sym, subst, Bool, none, some, List, [], ◌∷◌, ◌++◌, All}
use happylock.Exec.{ok}
use happylock.RawLock.{Mode}
use happylock.RawLock.Holding.{
  claim, AllAt, Distinct, Distinct-append_right, SameHas, All-SameHas, claim-SameHas,
}
use happylock.RawLock.Contract.{Holding, Unlocks, Unlocks-append, Unlocks-on_unwind}
use happylock.Lockable.{Lockable, many, pair}

module _ {S : Type 0} (held : S → Holding) (m : Mode) where
  -- Making a guard changes nothing; dropping it, in a panic or not, releases the addresses.
  pub record IsGuarded {G D : Type 0} (foot : List ℕ) (l : Lockable S G D) : Type 0 where
    pub made :
        (s : S)
        → (g : G) × (l.guard s ≡ ok g s)
          × ((panicking : Bool) (s' : S)
              → AllAt (some m) foot (held s')
              → Unlocks held (claim none foot (held s')) (l.drop_guard panicking g s'))

  module _ {G D : Type 0} (foot : Lockable S G D → List ℕ) where
    abbrev pub all_feet : List (Lockable S G D) → List ℕ
    all_feet [] = []
    all_feet (l ∷ ls) = foot l ++ all_feet ls

    -- An array, boxed slice or vector of values whose guards each release their own addresses:
    -- its guard is the array of their guards, and dropping it releases the addresses of all of
    -- them. The addresses are distinct.
    pub many-IsGuarded :
        (ls : List (Lockable S G D))
        → All (λ l. IsGuarded (foot l) l) ls
        → Distinct (all_feet ls)
        → IsGuarded (all_feet ls) (many ls)
    unfolding many
    many-IsGuarded [] laws d = record { made = λ s. ([], refl, λ b s' at. refl) }
    many-IsGuarded (l ∷ ls) laws d = record {
      made = λ s.
          let (g, eg, drops) = laws.0.made s in
          let rest = many-IsGuarded ls laws.1 (Distinct-append_right (foot l) (all_feet ls) d) in
          let (gs, egs, drops_rest) = rest.made s in
          (
            g ∷ gs,
            rw eg (rw egs refl),
            λ b s' at.
                Unlocks-append held m (foot l) (all_feet ls) s' _ ((many ls).drop_guard b gs) d at
                  (λ at'. Unlocks-on_unwind held _ (l.drop_guard b g s') _ (drops b s' at'))
                  (drops_rest b),
          );
    }

  -- What a guard stands for is a set of addresses: their order does not count.
  pub IsGuarded-SameHas :
      {G D : Type 0} (xs ys : List ℕ) (l : Lockable S G D)
      → SameHas xs ys
      → IsGuarded xs l
      → IsGuarded ys l
  IsGuarded-SameHas xs ys l same law = record {
    made = λ s.
        let (g, eg, drops) = law.made s in
        (
          g,
          eg,
          λ b s' taken.
              subst (λ h. Unlocks held h (l.drop_guard b g s'))
                (claim-SameHas none xs ys (held s') same)
                (drops b s' (All-SameHas _ ys xs (λ a. sym (same a)) taken)),
        );
  }

  -- A tuple of two values whose guards release their own addresses: dropping the tuple of their
  -- guards releases the addresses of both. The addresses are distinct.
  pub pair-IsGuarded :
      {G D G' D' : Type 0} (xs ys : List ℕ) (l : Lockable S G D) (k : Lockable S G' D')
      → IsGuarded xs l
      → IsGuarded ys k
      → Distinct (xs ++ ys)
      → IsGuarded (xs ++ ys) (pair l k)
  unfolding pair
  pair-IsGuarded xs ys l k law law' d = record {
    made = λ s.
        let (g, eg, drops) = law.made s in
        let (g', eg', drops') = law'.made s in
        (
          (g, g'),
          rw eg (rw eg' refl),
          λ b s' at.
              Unlocks-append held m xs ys s' _ (k.drop_guard b g') d at
                (λ at'. Unlocks-on_unwind held _ (l.drop_guard b g s') _ (drops b s' at'))
                (drops' b),
        );
  }
