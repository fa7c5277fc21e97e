-- ===== src/Parser/Ranges.antt =====
-- parser/validate.go: `tagRange`, its order, and the library calls `sort.Sort` and `sort.Search`.
pub mod Sorting
pub mod Searching
pub mod Holding
use protocompile.Prelude.{
  ℕ, zero, suc, ◌+◌, ◌/◌, Bool, ◌&&◌, ◌||◌, List, [], ◌∷◌, ltb, if◌then◌else◌,
}
use protocompile.Prelude.{map}
use protocompile.Prelude.Int.{ℤ, ltb_ℤ, ◌==ℤ◌}
use protocompile.Source.{SourceSpan}
use protocompile.Descriptor.{RangeProto}

pub record TagRange : Type 0 where
  pub start : ℤ
  pub end : ℤ
  pub node : SourceSpan

-- `Less`, on the two elements.
unfoldable pub less : TagRange → TagRange → Bool
less a b = ltb_ℤ a.start b.start || (a.start ==ℤ b.start && ltb_ℤ a.end b.end)

insert_range : TagRange → List TagRange → List TagRange
insert_range r [] = r ∷ []
insert_range r (s ∷ rest) =
    let after = insert_range r rest in if less s r then s ∷ after else r ∷ s ∷ rest

-- What `sort.Sort` returns, up to the order of ranges with equal bounds.
unfoldable pub sort : List TagRange → List TagRange
unfolding insert_range less
sort [] = []
sort (r ∷ rest) = insert_range r (sort rest)

-- The slice that the code fills from the protos.
unfoldable pub tag_ranges : List RangeProto → List TagRange
tag_ranges = map (λ r. record { start = r.start; end = r.end; node = r.span })

-- The loop of `sort.Search`; a round leaves fewer indices between `i` and `j`.
search_loop : ℕ → (ℕ → Bool) → ℕ → ℕ → ℕ
search_loop zero f i j = i
search_loop (suc fuel) f i j =
    let h = (i + j) / 2 in
    let rest = search_loop fuel f (if f h then i else h + 1) (if f h then h else j) in
    if ltb i j then rest else i

-- `sort.Search`: the least index below `n` at which `f` holds, or `n`.
unfoldable pub search_index : ℕ → (ℕ → Bool) → ℕ
unfolding search_loop
search_index n f = search_loop n f 0 n
