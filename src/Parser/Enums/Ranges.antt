-- ===== src/Parser/Enums/Ranges.antt =====
-- The checks of an enum's reserved ranges, whose ends are inclusive.
use protocompile.Prelude.{
  ◌≡◌, ◌≢◌, refl, String, Bool, false, ◌↔◌, ◌⊎◌, inl, inr, Option, none, some, List, [], ◌∷◌, arith,
  All, AllPairs, All-map, AllPairs-zip,
}
use protocompile.Prelude.Int.{ℤ, leb_ℤ, ◌≤ℤ◌, ◌<ℤ◌}
use protocompile.Diagnostic.{Scope, reserved_overlap, value_reserved_name, value_in_reserved}
use protocompile.Descriptor.{EnumValueDescriptorProto}
use protocompile.Reporter.Check.{
  Check, Accepts, done, report, report_if, >>-Accepts, report_if-Accepts,
}
use protocompile.Parser.Ranges.{TagRange}
use protocompile.Parser.Ranges.Sorting.{StartsBelow}
use protocompile.Parser.Ranges.Holding.{if_starts, search-none}
use protocompile.Parser.Ranges.Searching.{Carries}
use protocompile.Parser.Messages.{has_name}
use protocompile.Parser.Messages.Fields.{has_name-false}
use protocompile.Parser.Enums.{check_adjacent, range_of_number, check_value}

-- A range that holds a number.
abbrev pub IsFilled : TagRange → Type 0
IsFilled r = r.start ≤ℤ r.end

-- No number is in both ranges.
abbrev pub Apart : TagRange → TagRange → Type 0
Apart a b = (a.end <ℤ b.start) ⊎ (b.end <ℤ a.start)

pub Apart-swap : (a b : TagRange) → Apart a b → Apart b a
Apart-swap a b (inl h) = inr h
Apart-swap a b (inr h) = inl h

Apart-first :
    (a b : TagRange) → StartsBelow a b → IsFilled b → Apart a b → leb_ℤ b.start a.end ≡ false
Apart-first a b s i (inl h) = ground arith
Apart-first a b s i (inr h) = absurd (omega arith)

first-Apart : (a b : TagRange) → leb_ℤ b.start a.end ≡ false → a.end <ℤ b.start
first-Apart a b h = ground arith

-- On sorted ranges that hold a number each, the adjacent pairs are enough.
pub check_adjacent-Apart :
    (scope : Scope) (xs : List TagRange)
    → AllPairs StartsBelow xs
    → All IsFilled xs
    → Accepts (check_adjacent scope xs) ↔ AllPairs Apart xs
unfolding check_adjacent
check_adjacent-Apart scope [] s i = (λ h. tt, λ h. refl)
check_adjacent-Apart scope (a ∷ []) s i = (λ h. (tt, tt), λ h. refl)
check_adjacent-Apart scope (a ∷ b ∷ rest) s i =
    let overlap = reserved_overlap scope a.start a.end b.start b.end in
    let (to, from) =
      >>-Accepts (report_if (leb_ℤ b.start a.end) b.node overlap)
        (check_adjacent scope (b ∷ rest)) in
    let (one, one') = report_if-Accepts (leb_ℤ b.start a.end) b.node overlap in
    let (more, more') = check_adjacent-Apart scope (b ∷ rest) s.1 i.1 in
    (
      λ h.
          let lt : a.end <ℤ b.start = first-Apart a b (one (to h).0) in
          ((inl lt, All-map (λ x p. inl (omega arith)) rest s.1.0), more (to h).1),
      λ h. from (one' (Apart-first a b s.0.0 i.1.0 h.0.0), more' h.1),
    )

-- The range, with inclusive end, holds the number.
abbrev pub InClosed : ℤ → TagRange → Type 0
InClosed number r = (r.start ≤ℤ number) × (number ≤ℤ r.end)

ends_carry_on :
    (number : ℤ) (a b : TagRange)
    → StartsBelow a b
    → Apart a b
    → IsFilled b
    → Carries (λ r. leb_ℤ number r.end) a b
ends_carry_on number a b s (inl h) i = λ e. ground arith
ends_carry_on number a b s (inr h) i = absurd (omega arith)

range_of_number-none :
    (xs : List TagRange) (number : ℤ)
    → AllPairs StartsBelow xs
    → AllPairs Apart xs
    → All IsFilled xs
    → (range_of_number xs number ≡ none) ↔ All (λ r. ¬ InClosed number r) xs
unfolding range_of_number if_starts
range_of_number-none xs number s d i =
    let test : TagRange → Bool = λ r. leb_ℤ number r.end in
    let (to, from) = search-none test number xs (AllPairs-zip (ends_carry_on number) xs s d i) s in
    (
      λ h. All-map (λ r p q. p (q.0, ground arith)) xs (to h),
      λ h. from (All-map (λ r p q. p (q.0, ground arith)) xs h),
    )

report_found_range :
    (scope : Scope) (ev : EnumValueDescriptorProto) (o : Option TagRange)
    → Accepts (elim o as (λ _. Check (Unit {0})) [
      | none ↦ done
      | some r ↦ report ev.number_span (value_in_reserved scope ev.name ev.number r.start r.end)
    ])
      ↔ (o ≡ none)
report_found_range scope ev none = (λ h. refl, λ h. refl)
report_found_range scope ev (some r) = (λ h. cc, λ h. cc)

-- The value's name and number are not reserved.
abbrev pub ValueIsFree : List String → List TagRange → EnumValueDescriptorProto → Type 0
ValueIsFree names rsvd ev = All (λ n. n ≢ ev.name) names × All (λ r. ¬ InClosed ev.number r) rsvd

pub check_value-Accepts :
    (scope : Scope) (names : List String) (rsvd : List TagRange) (ev : EnumValueDescriptorProto)
    → AllPairs StartsBelow rsvd
    → AllPairs Apart rsvd
    → All IsFilled rsvd
    → Accepts (check_value scope names rsvd ev) ↔ ValueIsFree names rsvd ev
unfolding check_value
check_value-Accepts scope names rsvd ev s d i =
    let (to, from) =
      >>-Accepts {A = Unit {0}} {B = Unit {0}}
        (report_if (has_name names ev.name) ev.name_span (value_reserved_name scope ev.name)) _ in
    let (p, p') =
      report_if-Accepts (has_name names ev.name) ev.name_span (value_reserved_name scope ev.name) in
    let (n, n') = has_name-false names ev.name in
    let (q, q') = report_found_range scope ev (range_of_number rsvd ev.number) in
    let (r, r') = range_of_number-none rsvd ev.number s d i in
    (λ h. (n (p (to h).0), r (q (to h).1)), λ h. from (p' (n' h.0), q' (r' h.1)))
