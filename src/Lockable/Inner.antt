-- ===== src/Lockable/Inner.antt =====
-- The traits `LockableIntoInner` and `LockableGetMut` of src/lockable.rs, which reach the data of
-- locks that nobody else can reach, and their implementations there.
--
-- A lock is here the value that Rust moves or borrows mutably, with its data in it. Mutable
-- references are what can be seen through them, and the lock that writes through them leave.
use happylock.Base.{◌≡◌, refl, ap, List, [], ◌∷◌, map}

pub record Inner (L I : Type 0) : Type 0 where
  pub into_inner : L → I
  pub get_mut : L → I
  pub write_back : L → I → L  -- what is written through the references of `get_mut`

-- `impl LockableGetMut for &mut T`, where `into_inner` has none.
unfoldable pub get_mut_by_ref : {L I : Type 0} → Inner L I → L → I
get_mut_by_ref i l = i.get_mut l

module _ {L I : Type 0} (i : Inner L I) where
  -- The loops over an array, a `Box<[T]>` or a `Vec<T>`.
  into_inner_all : List L → List I
  into_inner_all [] = []
  into_inner_all (l ∷ ls) = i.into_inner l ∷ into_inner_all ls

  get_mut_all : List L → List I
  get_mut_all [] = []
  get_mut_all (l ∷ ls) = i.get_mut l ∷ get_mut_all ls

  -- There is one reference for each element.
  write_back_all : List L → List I → List L
  write_back_all [] vs = []
  write_back_all (l ∷ ls) [] = l ∷ ls
  write_back_all (l ∷ ls) (v ∷ vs) = i.write_back l v ∷ write_back_all ls vs

  -- `LockableIntoInner` and `LockableGetMut` for `[T; N]`, `Box<[T]>` and `Vec<T>`.
  unfoldable pub many_inner : Inner (List L) (List I)
  unfolding into_inner_all get_mut_all write_back_all
  many_inner = record {
    into_inner = into_inner_all;
    get_mut = get_mut_all;
    write_back = write_back_all;
  }

-- `tuple_impls!` at two components.
unfoldable pub pair_inner : {L I L' I' : Type 0} → Inner L I → Inner L' I' → Inner (L × L') (I × I')
pair_inner i j = record {
  into_inner = λ l. (i.into_inner l.0, j.into_inner l.1);
  get_mut = λ l. (i.get_mut l.0, j.get_mut l.1);
  write_back = λ l v. (i.write_back l.0 v.0, j.write_back l.1 v.1);
}

-- What Rust promises of references and moves: `get_mut` shows the data that `into_inner` moves
-- out, and `into_inner` moves out what was written last. `Fits l` are the data that fit into `l`.
pub record IsFaithful {L I : Type 0} (i : Inner L I) (Fits : L → I → Type 0) : Type 0 where
  pub seen : (l : L) → i.get_mut l ≡ i.into_inner l
  pub seen_fits : (l : L) → Fits l (i.get_mut l)
  pub written : (l : L) (v : I) → Fits l v → i.into_inner (i.write_back l v) ≡ v
  pub unchanged : (l : L) → i.write_back l (i.get_mut l) ≡ l

-- A single lock takes any data of its type.
abbrev pub Anything : {L I : Type 0} → L → I → Type 0
Anything l v = Unit

module _ {L I : Type 0} (Fits : L → I → Type 0) where
  -- As many data as there are locks, each fitting into its own.
  abbrev pub FitsAll : List L → List I → Type 0
  FitsAll [] [] = Unit
  FitsAll [] (v ∷ vs) = ⊥
  FitsAll (l ∷ ls) [] = ⊥
  FitsAll (l ∷ ls) (v ∷ vs) = Fits l v × FitsAll ls vs

module _ {L I : Type 0} (i : Inner L I) (Fits : L → I → Type 0) (law : IsFaithful i Fits) where
  -- An array of locks that show and give up their own data shows and gives up those of all, in
  -- order.
  pub many_inner-IsFaithful : IsFaithful (many_inner i) (FitsAll Fits)
  unfolding many_inner
  many_inner-IsFaithful = record {
    seen = seen;
    seen_fits = fits;
    written = written;
    unchanged = unchanged;
  }
    where
      seen : (ls : List L) → (many_inner i).get_mut ls ≡ (many_inner i).into_inner ls
      seen [] = refl
      seen (l ∷ ls) = rw (law.seen l) (ap (◌∷◌ (i.into_inner l)) (seen ls))

      fits : (ls : List L) → FitsAll Fits ls ((many_inner i).get_mut ls)
      fits [] = tt
      fits (l ∷ ls) = (law.seen_fits l, fits ls)

      written :
          (ls : List L) (vs : List I)
          → FitsAll Fits ls vs
          → (many_inner i).into_inner ((many_inner i).write_back ls vs) ≡ vs
      written [] [] f = refl
      written [] (v ∷ vs) f = absurd f
      written (l ∷ ls) [] f = absurd f
      written (l ∷ ls) (v ∷ vs) f = rw (law.written l v f.0) (ap (◌∷◌ v) (written ls vs f.1))

      unchanged : (ls : List L) → (many_inner i).write_back ls ((many_inner i).get_mut ls) ≡ ls
      unchanged [] = refl
      unchanged (l ∷ ls) = rw (law.unchanged l) (ap (◌∷◌ l) (unchanged ls))

module _ {L I : Type 0} (i : Inner L I) where
  -- Data that `make` makes locks of come out as they went in.
  pub many_inner-made :
      (make : I → L) (vs : List I)
      → ((v : I) → i.into_inner (make v) ≡ v)
      → (many_inner i).into_inner (map make vs) ≡ vs
  unfolding many_inner
  many_inner-made make [] back = refl
  many_inner-made make (v ∷ vs) back = rw (back v) (ap (◌∷◌ v) (many_inner-made make vs back))

-- A tuple of two such locks shows and gives up the data of both.
pub pair_inner-IsFaithful :
    {L I L' I' : Type 0} (i : Inner L I) (j : Inner L' I') (Fits : L → I → Type 0)
    (Fits' : L' → I' → Type 0)
    → IsFaithful i Fits
    → IsFaithful j Fits'
    → IsFaithful (pair_inner i j) (λ l v. Fits l.0 v.0 × Fits' l.1 v.1)
unfolding pair_inner
pair_inner-IsFaithful i j Fits Fits' law law' = record {
  seen = λ l. rw (law.seen l.0, law'.seen l.1) refl;
  seen_fits = λ l. (law.seen_fits l.0, law'.seen_fits l.1);
  written = λ l v f. rw (law.written l.0 v.0 f.0, law'.written l.1 v.1 f.1) refl;
  unchanged = λ l. rw (law.unchanged l.0, law'.unchanged l.1) refl;
}
