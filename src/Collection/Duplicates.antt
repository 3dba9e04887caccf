-- ===== src/Collection/Duplicates.antt =====
-- The checks for duplicates: `ordered_contains_duplicates` on the sorted locks, and the hash set of
-- `contains_duplicates`.
use happylock.Base.{
  ℕ, ◌≤◌, ◌<◌, ◌≡◌, refl, ◌↔◌, false, some, List, [], ◌∷◌, map, arith, All, Bool-cases, inl, inr,
  leb,
}
use happylock.RawLock.{RawLock}
use happylock.RawLock.Holding.{has, Distinct}
use happylock.Lockable.{Lockable}
use happylock.Collection.Sorted.{ref_new_unchecked, ref_try_new, boxed_new_unchecked, boxed_try_new}
use happylock.Collection.Retry.{contains_duplicates_from, retry_try_new}
use happylock.Collection.Utils.{
  insert_by_addr, sort_by_addr, get_locks, get_locks_unsorted, ordered_contains_duplicates,
}

-- An address that comes first must not come again, nor any later one have been seen.
fresh_tail :
    (seen : List ℕ) (a : ℕ) (xs : List ℕ)
    → All (λ x. has (a ∷ seen) x ≡ false) xs
      ↔ ((has xs a ≡ false) × All (λ x. has seen x ≡ false) xs)
fresh_tail seen a [] = (λ p. (refl, tt), λ p. tt)
fresh_tail seen a (x ∷ xs) =
    (ground (arith, fresh_tail seen a xs), ground (arith, fresh_tail seen a xs))

none_seen : (xs : List ℕ) → All (λ x. has [] x ≡ false) xs
none_seen [] = tt
none_seen (x ∷ xs) = (refl, none_seen xs)

module _ {S : Type 0} where
  abbrev pub addrs : List (RawLock S) → List ℕ
  addrs = map (λ l. l.addr)

  abbrev pub IsSorted : List (RawLock S) → Type 0
  IsSorted [] = Unit
  IsSorted (l ∷ []) = Unit
  IsSorted (l ∷ k ∷ ks) = (l.addr ≤ k.addr) × IsSorted (k ∷ ks)

  insert_by_addr-IsSorted :
      (l : RawLock S) (ks : List (RawLock S)) → IsSorted ks → IsSorted (insert_by_addr l ks)
  unfolding insert_by_addr
  insert_by_addr-IsSorted l [] p = tt
  insert_by_addr-IsSorted l (k ∷ []) p = ground arith
  insert_by_addr-IsSorted l (k ∷ j ∷ ks) p = ground (arith, insert_by_addr-IsSorted l (j ∷ ks) p.1)

  pub sort_by_addr-IsSorted : (ls : List (RawLock S)) → IsSorted (sort_by_addr ls)
  unfolding sort_by_addr
  sort_by_addr-IsSorted [] = tt
  sort_by_addr-IsSorted (l ∷ ls) =
      insert_by_addr-IsSorted l (sort_by_addr ls) (sort_by_addr-IsSorted ls)

  has-insert_by_addr :
      (l : RawLock S) (ks : List (RawLock S)) (a : ℕ)
      → has (addrs (insert_by_addr l ks)) a ≡ has (addrs (l ∷ ks)) a
  unfolding insert_by_addr
  has-insert_by_addr l [] a = refl
  has-insert_by_addr l (k ∷ ks) a = ground (arith, has-insert_by_addr l ks a)

  Distinct-insert_by_addr :
      (l : RawLock S) (ks : List (RawLock S))
      → Distinct (addrs (insert_by_addr l ks)) ↔ Distinct (addrs (l ∷ ks))
  unfolding insert_by_addr
  Distinct-insert_by_addr l [] = (λ d. d, λ d. d)
  Distinct-insert_by_addr l (k ∷ ks) = (
    ground (arith, has-insert_by_addr l ks k.addr, Distinct-insert_by_addr l ks),
    ground (arith, has-insert_by_addr l ks k.addr, Distinct-insert_by_addr l ks),
  )

  pub has-sort_by_addr :
      (ls : List (RawLock S)) (a : ℕ) → has (addrs (sort_by_addr ls)) a ≡ has (addrs ls) a
  unfolding sort_by_addr
  has-sort_by_addr [] a = refl
  has-sort_by_addr (l ∷ ls) a =
      ground (arith, has-insert_by_addr l (sort_by_addr ls) a, has-sort_by_addr ls a)

  pub Distinct-sort_by_addr :
      (ls : List (RawLock S)) → Distinct (addrs (sort_by_addr ls)) ↔ Distinct (addrs ls)
  unfolding sort_by_addr
  Distinct-sort_by_addr [] = (λ d. d, λ d. d)
  Distinct-sort_by_addr (l ∷ ls) = (
    ground (
      arith,
      Distinct-insert_by_addr l (sort_by_addr ls),
      has-sort_by_addr ls l.addr,
      Distinct-sort_by_addr ls,
    ),
    ground (
      arith,
      Distinct-insert_by_addr l (sort_by_addr ls),
      has-sort_by_addr ls l.addr,
      Distinct-sort_by_addr ls,
    ),
  )

  All-insert_by_addr {κ} :
      (P : RawLock S → Type κ) (l : RawLock S) (ks : List (RawLock S))
      → P l
      → All P ks
      → All P (insert_by_addr l ks)
  unfolding insert_by_addr
  All-insert_by_addr P l [] p q = (p, tt)
  All-insert_by_addr P l (k ∷ ks) p q = elim (Bool-cases (leb l.addr k.addr)) [
    | inl e ↦ rw e (p, q)
    | inr e ↦ rw e (q.0, All-insert_by_addr P l ks p q.1)
  ]

  pub All-sort_by_addr {κ} :
      (P : RawLock S → Type κ) (ls : List (RawLock S)) → All P ls → All P (sort_by_addr ls)
  unfolding sort_by_addr
  All-sort_by_addr P [] p = tt
  All-sort_by_addr P (l ∷ ls) p =
      All-insert_by_addr P l (sort_by_addr ls) p.0 (All-sort_by_addr P ls p.1)

  -- Below the head of a sorted list there is nothing.
  has_below :
      (k : RawLock S) (ks : List (RawLock S)) (a : ℕ)
      → IsSorted (k ∷ ks)
      → a < k.addr
      → has (addrs (k ∷ ks)) a ≡ false
  has_below k [] a p h = ground arith
  has_below k (j ∷ ks) a p h = ground (arith, has_below j ks a p.1)

  pub sorted_duplicates :
      (ls : List (RawLock S))
      → IsSorted ls
      → (ordered_contains_duplicates ls ≡ false) ↔ Distinct (addrs ls)
  unfolding ordered_contains_duplicates
  sorted_duplicates [] p = (λ e. tt, λ d. refl)
  sorted_duplicates (l ∷ []) p = (λ e. (refl, tt), λ d. refl)
  sorted_duplicates (l ∷ k ∷ ks) p = (
    ground (arith, has_below k ks l.addr p.1, sorted_duplicates (k ∷ ks) p.1),
    ground (arith, sorted_duplicates (k ∷ ks) p.1),
  )

  -- The hash set holds the addresses before; each further one must be new.
  contains_duplicates_from_lem :
      (seen : List ℕ) (ls : List (RawLock S))
      → (contains_duplicates_from seen ls ≡ false)
        ↔ (Distinct (addrs ls) × All (λ a. has seen a ≡ false) (addrs ls))
  unfolding contains_duplicates_from
  contains_duplicates_from_lem seen [] = (λ e. (tt, tt), λ d. refl)
  contains_duplicates_from_lem seen (l ∷ ls) =
      let rest = contains_duplicates_from_lem (l.addr ∷ seen) ls in
      (
        ground (arith, rest, fresh_tail seen l.addr (addrs ls)),
        ground (arith, rest, fresh_tail seen l.addr (addrs ls)),
      )

  pub try_new_iff :
      {G D : Type 0} (d : Lockable S G D)
      → ((ref_try_new d ≡ some (ref_new_unchecked d)) ↔ Distinct (addrs (get_locks_unsorted d)))
        × ((boxed_try_new d ≡ some (boxed_new_unchecked d))
            ↔ Distinct (addrs (get_locks_unsorted d)))
        × ((retry_try_new d ≡ some d) ↔ Distinct (addrs (get_locks_unsorted d)))
        × IsSorted (ref_new_unchecked d).locks
        × IsSorted (boxed_new_unchecked d).locks
  unfolding ref_try_new ref_new_unchecked boxed_try_new retry_try_new get_locks
  try_new_iff d =
      let locks = d.get_ptrs [] in
      let iff = sorted_duplicates (sort_by_addr locks) (sort_by_addr-IsSorted locks) in
      let same = Distinct-sort_by_addr locks in
      let hashed = contains_duplicates_from_lem [] locks in
      (
        (ground (arith, iff, same), ground (arith, iff, same)),
        (ground (arith, iff, same), ground (arith, iff, same)),
        (
          ground (arith, hashed, none_seen (addrs locks)),
          ground (arith, hashed, none_seen (addrs locks)),
        ),
        sort_by_addr-IsSorted locks,
        sort_by_addr-IsSorted locks,
      )
