-- ===== src/Parser/Ranges/Sorting.antt =====
-- Sorting keeps the ranges and orders them by their starts.
use protocompile.Prelude.{◌≡◌, ◌↔◌, true, false, List, [], ◌∷◌, inl, inr, arith, All, AllPairs}
use protocompile.Prelude.{Bool-cases, All-map}
use protocompile.Prelude.Int.{◌≤ℤ◌}
use protocompile.Parser.Ranges.{TagRange, less, insert_range, sort}

abbrev pub StartsBelow : TagRange → TagRange → Type 0
StartsBelow a b = a.start ≤ℤ b.start

less→StartsBelow : (a b : TagRange) → less a b ≡ true → StartsBelow a b
unfolding less
less→StartsBelow a b h = ground arith

not-less→StartsBelow : (a b : TagRange) → less a b ≡ false → StartsBelow b a
unfolding less
not-less→StartsBelow a b h = ground arith

All-insert :
    (P : TagRange → Type 0) (r : TagRange) (xs : List TagRange)
    → All P (insert_range r xs) ↔ (P r × All P xs)
unfolding insert_range
All-insert P r [] = (λ h. h, λ h. h)
All-insert P r (s ∷ rest) = elim (Bool-cases (less s r)) [
  | inl e ↦
      let (to, from) = All-insert P r rest in
      rw e (λ h. ((to h.1).0, (h.0, (to h.1).1)), λ h. (h.1.0, from (h.0, h.1.1)))
  | inr e ↦ rw e (λ h. h, λ h. h)
]

-- A statement about every range holds of the sorted ranges exactly when it holds of the ranges.
pub All-sort : (P : TagRange → Type 0) (xs : List TagRange) → All P (sort xs) ↔ All P xs
unfolding sort
All-sort P [] = (λ h. h, λ h. h)
All-sort P (r ∷ rest) =
    let (to, from) = All-insert P r (sort rest) in
    let (to', from') = All-sort P rest in
    (λ h. ((to h).0, to' (to h).1), λ h. from (h.0, from' h.1))

module _ (P : TagRange → TagRange → Type 0) (swap : (a b : TagRange) → P a b → P b a) where
  AllPairs-insert :
      (r : TagRange) (xs : List TagRange)
      → AllPairs P (insert_range r xs) ↔ (All (P r) xs × AllPairs P xs)
  unfolding insert_range
  AllPairs-insert r [] = (λ h. h, λ h. h)
  AllPairs-insert r (s ∷ rest) = elim (Bool-cases (less s r)) [
    | inl e ↦
        let (to, from) = AllPairs-insert r rest in
        let (one, all) = All-insert (P s) r rest in
        rw e (
          λ h. ((swap s r (one h.0).0, (to h.1).0), ((one h.0).1, (to h.1).1)),
          λ h. (all (swap r s h.0.0, h.1.0), from (h.0.1, h.1.1)),
        )
    | inr e ↦ rw e (λ h. h, λ h. h)
  ]

  -- The same for a symmetric statement about every two ranges.
  pub AllPairs-sort : (xs : List TagRange) → AllPairs P (sort xs) ↔ AllPairs P xs
  unfolding sort
  AllPairs-sort [] = (λ h. h, λ h. h)
  AllPairs-sort (r ∷ rest) =
      let (to, from) = AllPairs-insert r (sort rest) in
      let (to', from') = AllPairs-sort rest in
      let (all, all') = All-sort (P r) rest in
      (λ h. (all (to h).0, to' (to h).1), λ h. from (all' h.0, from' h.1))

StartsBelow-All :
    (a b : TagRange) (xs : List TagRange)
    → StartsBelow a b
    → All (StartsBelow b) xs
    → All (StartsBelow a) xs
StartsBelow-All a b xs h = All-map (λ x p. omega arith) xs

insert-IsSorted :
    (r : TagRange) (xs : List TagRange)
    → AllPairs StartsBelow xs
    → AllPairs StartsBelow (insert_range r xs)
unfolding insert_range
insert-IsSorted r [] h = (tt, tt)
insert-IsSorted r (s ∷ rest) h = elim (Bool-cases (less s r)) [
  | inl e ↦ rw e (
    (All-insert (StartsBelow s) r rest).1 (less→StartsBelow s r e, h.0),
    insert-IsSorted r rest h.1,
  )
  | inr e ↦
      let below : StartsBelow r s = not-less→StartsBelow s r e in
      rw e ((below, StartsBelow-All r s rest below h.0), h)
]

-- The sorted ranges start one after the other.
pub sort-IsSorted : (xs : List TagRange) → AllPairs StartsBelow (sort xs)
unfolding sort
sort-IsSorted [] = tt
sort-IsSorted (r ∷ rest) = insert-IsSorted r (sort rest) (sort-IsSorted rest)
