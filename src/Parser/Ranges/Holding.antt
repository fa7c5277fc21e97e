-- ===== src/Parser/Ranges/Holding.antt =====
-- The search for the range that holds a number: `sort.Search` for the first range that does not end
-- before it, then the test of the range's start.
use protocompile.Prelude.{
  ◌≡◌, refl, Bool, true, false, ◌↔◌, inl, inr, Option, none, some, List, [], ◌∷◌, arith, length,
  get_elem?, All, AllPairs, All-map, Bool-cases, if◌then◌else◌,
}
use protocompile.Prelude.Int.{ℤ, leb_ℤ, ◌≤ℤ◌}
use protocompile.Parser.Ranges.{TagRange, search_index}
use protocompile.Parser.Ranges.Sorting.{StartsBelow}
use protocompile.Parser.Ranges.Searching.{test_at, find_first, search_index-find_first, Carries}

-- The test of the start.
unfoldable pub if_starts : ℤ → Option TagRange → Option TagRange
if_starts tag none = none
if_starts tag (some r) = if leb_ℤ r.start tag then some r else none

module _ (t : TagRange → Bool) (tag : ℤ) where
  -- The linear search, followed by the test of the start.
  first_holding : List TagRange → Option TagRange
  first_holding [] = none
  first_holding (r ∷ xs) =
      let rest = first_holding xs in
      if t r then (if leb_ℤ r.start tag then some r else none) else rest

  if_starts-find_first : (xs : List TagRange) → if_starts tag (find_first t xs) ≡ first_holding xs
  unfolding first_holding if_starts
  if_starts-find_first [] = refl
  if_starts-find_first (r ∷ xs) = elim (Bool-cases (t r)) [
    | inl e ↦ rw e refl
    | inr e ↦ rw e (if_starts-find_first xs)
  ]

  -- The range starts at or below the number, and does not end before it.
  abbrev pub Holds : TagRange → Type 0
  Holds r = (r.start ≤ℤ tag) × (t r ≡ true)

  starts_above :
      (r : TagRange) (xs : List TagRange)
      → leb_ℤ r.start tag ≡ false
      → All (StartsBelow r) xs
      → All (λ s. ¬ Holds s) xs
  starts_above r xs e = All-map (λ s h p. absurd (above s h p)) xs
    where
      above : (s : TagRange) → StartsBelow r s → ¬ Holds s
      above s h p = let q = p.0 in ground arith

  first_holding-none :
      (xs : List TagRange)
      → AllPairs StartsBelow xs
      → (first_holding xs ≡ none) ↔ All (λ r. ¬ Holds r) xs
  unfolding first_holding
  first_holding-none [] s = (λ h. tt, λ h. refl)
  first_holding-none (r ∷ xs) s = elim (Bool-cases (t r)) [
    | inl e ↦ elim (Bool-cases (leb_ℤ r.start tag)) [
      | inl f ↦ rw (e, f) (λ h. cc, λ h. absurd (h.0 (ground arith, refl)))
      | inr f ↦
          rw (e, f) (λ h. ((λ p. let q = p.0 in ground arith), starts_above r xs f s.0), λ h. refl)
    ]
    | inr e ↦
        let (to, from) = first_holding-none xs s.1 in rw e (λ h. ((λ p. cc), to h), λ h. from h.1)
  ]

  -- On sorted ranges whose test carries on, the search finds nothing exactly if no range holds the
  -- number.
  pub search-none :
      (xs : List TagRange)
      → AllPairs (Carries t) xs
      → AllPairs StartsBelow xs
      → (if_starts tag (get_elem? xs (search_index (length xs) (test_at t xs))) ≡ none)
        ↔ All (λ r. ¬ Holds r) xs
  search-none xs c s =
      rw (search_index-find_first t xs c) (rw (if_starts-find_first xs) (first_holding-none xs s))
