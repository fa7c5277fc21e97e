-- ===== src/Parser/Ranges/Searching.antt =====
-- `sort.Search` finds the least index at which a monotone test holds.
use protocompile.Prelude.{ℕ, zero, suc, ◌+◌, ◌/◌, ◌≤◌, ◌<◌, ◌≡◌, Bool, true, false, inl, inr}
use protocompile.Prelude.{arith, Bool-cases, ltb, refl, Option, none, some, List, [], ◌∷◌, length}
use protocompile.Prelude.{get_elem?, All, AllPairs, if◌then◌else◌}
use protocompile.Parser.Ranges.{TagRange, search_loop, search_index}

abbrev pub IsMonotone : ℕ → (ℕ → Bool) → Type 0
IsMonotone n f = (i j : ℕ) → i ≤ j → j < n → f i ≡ true → f j ≡ true

-- `f` fails below `r`, and holds at `r` unless `r` is the end.
abbrev pub IsLeast : ℕ → (ℕ → Bool) → ℕ → Type 0
IsLeast n f r = (r ≤ n) × ((i : ℕ) → i < r → f i ≡ false) × ((r < n) → f r ≡ true)

false_below :
    (n : ℕ) (f : ℕ → Bool) → IsMonotone n f → (k m : ℕ) → k ≤ m → m < n → f m ≡ false → f k ≡ false
false_below n f mono k m km mn e = elim (Bool-cases (f k)) [
  | inl t ↦ cc (mono k m km mn t)
  | inr t ↦ t
]

search_loop-IsLeast :
    (fuel n : ℕ) (f : ℕ → Bool) (i j : ℕ)
    → IsMonotone n f
    → j ≤ i + fuel
    → i ≤ j
    → j ≤ n
    → ((k : ℕ) → k < i → f k ≡ false)
    → ((j < n) → f j ≡ true)
    → IsLeast n f (search_loop fuel f i j)
unfolding search_loop
search_loop-IsLeast zero n f i j mono enough ij jn low high =
    let e : i ≡ j = omega arith in (omega arith, low, λ h. rw e (high (omega arith)))
search_loop-IsLeast (suc fuel) n f i j mono enough ij jn low high = elim (Bool-cases (ltb i j)) [
  | inr stop ↦
      let e : i ≡ j = ground arith in rw stop (omega arith, low, λ h. rw e (high (omega arith)))
  | inl go ↦
      let lt : i < j = ground arith in
      rw go (elim (Bool-cases (f ((i + j) / 2))) [
        | inl yes' ↦ rw yes' (
            search_loop-IsLeast fuel n f i ((i + j) / 2) mono (omega arith) (omega arith)
              (omega arith) low (λ _. yes'))
        | inr no' ↦ rw no' (
            search_loop-IsLeast fuel n f ((i + j) / 2 + 1) j mono (omega arith) (omega arith) jn
              (λ k hk. false_below n f mono k ((i + j) / 2) (omega arith) (omega arith) no') high)
      ])
]

-- For a monotone test the index is the least one at which the test holds.
pub search_index-IsLeast : (n : ℕ) (f : ℕ → Bool) → IsMonotone n f → IsLeast n f (search_index n f)
unfolding search_index
search_index-IsLeast n f mono =
    search_loop-IsLeast n n f 0 n mono (omega arith) (omega arith) (omega arith)
      (λ k h. absurd (omega arith)) (λ h. absurd (omega arith))

-- The search over the indices of a list whose test goes from an element to all later ones.
module _ (t : TagRange → Bool) where
  abbrev pub test_at : List TagRange → ℕ → Bool
  test_at ranges i = elim (get_elem? ranges i) [ none ↦ false | some r ↦ t r ]

  abbrev pub find_first : List TagRange → Option TagRange
  find_first [] = none
  find_first (r ∷ rest) = if t r then some r else find_first rest

  abbrev pub Carries : TagRange → TagRange → Type 0
  Carries a b = t a ≡ true → t b ≡ true

  carry_to :
      (r : TagRange) (rest : List TagRange) (j : ℕ)
      → All (Carries r) rest
      → j < length rest
      → t r ≡ true
      → test_at rest j ≡ true
  carry_to r [] j c h e = absurd (omega arith)
  carry_to r (s ∷ rest) zero c h e = c.0 e
  carry_to r (s ∷ rest) (suc j) c h e = carry_to r rest j c.1 (omega arith) e

  test_at-IsMonotone :
      (ranges : List TagRange)
      → AllPairs Carries ranges
      → IsMonotone (length ranges) (test_at ranges)
  test_at-IsMonotone [] c i j ij jn e = absurd (omega arith)
  test_at-IsMonotone (r ∷ rest) c zero zero ij jn e = e
  test_at-IsMonotone (r ∷ rest) c zero (suc j) ij jn e = carry_to r rest j c.0 (omega arith) e
  test_at-IsMonotone (r ∷ rest) c (suc i) zero ij jn e = absurd (omega arith)
  test_at-IsMonotone (r ∷ rest) c (suc i) (suc j) ij jn e =
      test_at-IsMonotone rest c.1 i j (omega arith) (omega arith) e

  IsLeast-find_first :
      (ranges : List TagRange) (i : ℕ)
      → IsLeast (length ranges) (test_at ranges) i
      → get_elem? ranges i ≡ find_first ranges
  IsLeast-find_first [] i h = refl
  IsLeast-find_first (r ∷ rest) zero h = rw (h.2 (omega arith))
  IsLeast-find_first (r ∷ rest) (suc i) h = rw (h.1 0 (omega arith)) (
      IsLeast-find_first rest i
        (omega (arith, h.0), λ k hk. h.1 (suc k) (omega arith), λ lt. h.2 (omega arith)))

  -- The binary search finds the first element that passes the test.
  pub search_index-find_first :
      (ranges : List TagRange)
      → AllPairs Carries ranges
      → get_elem? ranges (search_index (length ranges) (test_at ranges)) ≡ find_first ranges
  search_index-find_first ranges c =
      IsLeast-find_first ranges _
        (search_index-IsLeast (length ranges) (test_at ranges) (test_at-IsMonotone ranges c))
