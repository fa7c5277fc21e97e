-- ===== src/Parser/Messages/Ranges.antt =====
-- The overlap checks accept exactly the ranges that are disjoint.
use protocompile.Prelude.{
  ◌≡◌, refl, true, false, ◌||◌, ◌↔◌, ◌⊎◌, inl, inr, List, [], ◌∷◌, arith, All, AllPairs, Bool-cases,
  All-map,
}
use protocompile.Prelude.Int.{ℤ, ltb_ℤ, ◌≤ℤ◌, ◌<ℤ◌}
use protocompile.Diagnostic.{Scope, Message}
use protocompile.Reporter.Check.{Accepts, report_if, >>-Accepts, report_if-Accepts}
use protocompile.Parser.Ranges.{TagRange}
use protocompile.Parser.Ranges.Sorting.{StartsBelow}
use protocompile.Parser.Messages.{check_adjacent, check_pair, check_merge, starts_in}

-- A range with an exclusive end that holds a tag.
abbrev pub IsInhabited : TagRange → Type 0
IsInhabited r = r.start <ℤ r.end

-- No tag is in both ranges.
abbrev pub Disjoint : TagRange → TagRange → Type 0
Disjoint a b = (a.end ≤ℤ b.start) ⊎ (b.end ≤ℤ a.start)

pub Disjoint-swap : (a b : TagRange) → Disjoint a b → Disjoint b a
Disjoint-swap a b (inl h) = inr h
Disjoint-swap a b (inr h) = inl h

-- A range that ends before one starts is disjoint from all that start later.
Disjoint-after :
    (a b : TagRange) (xs : List TagRange)
    → a.end ≤ℤ b.start
    → All (StartsBelow b) xs
    → All (Disjoint a) xs
Disjoint-after a b xs h = All-map (λ x p. inl (omega arith)) xs

Disjoint-before :
    (a b : TagRange) (xs : List TagRange)
    → a.end ≤ℤ b.start
    → All (StartsBelow b) xs
    → All (λ x. Disjoint x a) xs
Disjoint-before a b xs h = All-map (λ x p. inr (omega arith)) xs

adjacent_to : (a b : TagRange) → ltb_ℤ b.start a.end ≡ false → a.end ≤ℤ b.start
adjacent_to a b h = ground arith

adjacent_from :
    (a b : TagRange) → StartsBelow a b → IsInhabited b → Disjoint a b → ltb_ℤ b.start a.end ≡ false
adjacent_from a b s i (inl h) = ground arith
adjacent_from a b s i (inr h) = absurd (omega arith)

-- On sorted ranges that hold a tag each, the adjacent pairs are enough.
pub check_adjacent-Accepts :
    (m : ℤ → ℤ → ℤ → ℤ → Message) (xs : List TagRange)
    → AllPairs StartsBelow xs
    → All IsInhabited xs
    → Accepts (check_adjacent m xs) ↔ AllPairs Disjoint xs
unfolding check_adjacent
check_adjacent-Accepts m [] s i = (λ h. tt, λ h. refl)
check_adjacent-Accepts m (a ∷ []) s i = (λ h. (tt, tt), λ h. refl)
check_adjacent-Accepts m (a ∷ b ∷ rest) s i =
    let warn = m a.start a.end b.start b.end in
    let (to, from) =
      >>-Accepts (report_if (ltb_ℤ b.start a.end) b.node warn) (check_adjacent m (b ∷ rest)) in
    let (one, one') = report_if-Accepts (ltb_ℤ b.start a.end) b.node warn in
    let (more, more') = check_adjacent-Accepts m (b ∷ rest) s.1 i.1 in
    (
      λ h.
          let le : a.end ≤ℤ b.start = adjacent_to a b (one (to h).0) in
          ((inl le, Disjoint-after a b rest le s.1.0), more (to h).1),
      λ h. from (one' (adjacent_from a b s.0.0 i.1.0 h.0.0), more' h.1),
    )

pair-Disjoint :
    (r e : TagRange)
    → (starts_in r e || starts_in e r) ≡ false
    → IsInhabited r
    → IsInhabited e
    → Disjoint r e
pair-Disjoint r e h i j = ground arith

Disjoint-pair :
    (r e : TagRange)
    → Disjoint r e
    → IsInhabited r
    → IsInhabited e
    → (starts_in r e || starts_in e r) ≡ false
Disjoint-pair r e (inl h) i j = ground arith
Disjoint-pair r e (inr h) i j = ground arith

pub check_pair-Accepts :
    (scope : Scope) (r e : TagRange)
    → IsInhabited r
    → IsInhabited e
    → Accepts (check_pair scope r e) ↔ Disjoint r e
unfolding check_pair
check_pair-Accepts scope r e i j =
    let (to, from) = report_if-Accepts (starts_in r e || starts_in e r) _ _ in
    (λ h. pair-Disjoint r e (to h) i j, λ h. from (Disjoint-pair r e h i j))

end_le_start : (r e : TagRange) → Disjoint r e → StartsBelow r e → IsInhabited e → r.end ≤ℤ e.start
end_le_start r e (inl h) s i = h
end_le_start r e (inr h) s i = absurd (omega arith)

-- Every range of the one list is disjoint from every range of the other.
abbrev pub DisjointFrom : List TagRange → List TagRange → Type 0
DisjointFrom rsvd exts = All (λ r. All (Disjoint r) exts) rsvd

DisjointFrom-cons :
    (rsvd exts : List TagRange) (e : TagRange)
    → All (λ r. Disjoint r e) rsvd
    → DisjointFrom rsvd exts
    → DisjointFrom rsvd (e ∷ exts)
DisjointFrom-cons [] exts e h k = tt
DisjointFrom-cons (r ∷ rsvd) exts e h k = ((h.0, k.0), DisjointFrom-cons rsvd exts e h.1 k.1)

DisjointFrom-tail :
    (rsvd exts : List TagRange) (e : TagRange)
    → DisjointFrom rsvd (e ∷ exts)
    → DisjointFrom rsvd exts
DisjointFrom-tail rsvd exts e = All-map (λ r h. h.1) rsvd

DisjointFrom-nil : (rsvd : List TagRange) → DisjointFrom rsvd []
DisjointFrom-nil [] = tt
DisjointFrom-nil (r ∷ rsvd) = (tt, DisjointFrom-nil rsvd)

lt→StartsBelow : (r e : TagRange) → ltb_ℤ r.start e.start ≡ true → StartsBelow r e
lt→StartsBelow r e h = ground arith

ge→StartsBelow : (r e : TagRange) → ltb_ℤ r.start e.start ≡ false → StartsBelow e r
ge→StartsBelow r e h = ground arith

-- On sorted ranges that hold a tag each, the merge loop accepts exactly the lists with no overlap
-- between them.
pub check_merge-Accepts :
    (scope : Scope) (rsvd exts : List TagRange)
    → AllPairs StartsBelow rsvd
    → AllPairs StartsBelow exts
    → All IsInhabited rsvd
    → All IsInhabited exts
    → Accepts (check_merge scope rsvd exts) ↔ DisjointFrom rsvd exts
unfolding check_merge
check_merge-Accepts scope [] exts s t i j = (λ h. tt, λ h. refl)
check_merge-Accepts scope (r ∷ rsvd) [] s t i j = (λ h. DisjointFrom-nil (r ∷ rsvd), λ h. refl)
check_merge-Accepts scope (r ∷ rsvd) (e ∷ exts) s t i j =
    let (one, one') = check_pair-Accepts scope r e i.0 j.0 in
    elim (Bool-cases (ltb_ℤ r.start e.start)) [
      | inl lt ↦
          let (to, from) = >>-Accepts (check_pair scope r e) (check_merge scope rsvd (e ∷ exts)) in
          let (more, more') = check_merge-Accepts scope rsvd (e ∷ exts) s.1 t i.1 j in
          rw lt (
            λ h.
                let d : Disjoint r e = one (to h).0 in
                let le : r.end ≤ℤ e.start = end_le_start r e d (lt→StartsBelow r e lt) j.0 in
                ((d, Disjoint-after r e exts le t.0), more (to h).1),
            λ h. from (one' h.0.0, more' h.1),
          )
      | inr ge ↦
          let (to, from) = >>-Accepts (check_pair scope r e) (check_merge scope (r ∷ rsvd) exts) in
          let (more, more') = check_merge-Accepts scope (r ∷ rsvd) exts s t.1 i j.1 in
          rw ge (
            λ h.
                let d : Disjoint r e = one (to h).0 in
                let le : e.end ≤ℤ r.start =
                  end_le_start e r (Disjoint-swap r e d) (ge→StartsBelow r e ge) i.0 in
                DisjointFrom-cons (r ∷ rsvd) exts e (d, Disjoint-before e r rsvd le s.0)
                  (more (to h).1),
            λ h. from (one' h.0.0, more' (DisjointFrom-tail (r ∷ rsvd) exts e h)),
          )
    ]
