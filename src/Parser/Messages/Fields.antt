-- ===== src/Parser/Messages/Fields.antt =====
-- The loop over the fields accepts exactly the fields with allowed names and distinct, free tags.
use protocompile.Prelude.{
  ◌≡◌, ◌≢◌, refl, String, Bool, true, false, not, ◌↔◌, inl, inr, Option, none, some, List, [], ◌∷◌,
  arith, All, AllPairs, Bool-cases, All-map, AllPairs-zip, str_eq, eq_iff,
}
use protocompile.Prelude.Int.{ℤ, ltb_ℤ, ◌≤ℤ◌, ◌<ℤ◌, ◌==ℤ◌, ==ℤ_iff}
use protocompile.Source.{SourceSpan}
use protocompile.Diagnostic.{Scope, Message, same_tag, tag_in_reserved, tag_in_extension}
use protocompile.Diagnostic.{field_reserved_name}
use protocompile.Descriptor.{FieldDescriptorProto, get_number}
use protocompile.Reporter.Check.{Check, Accepts, report_if, >>-Accepts, report_if-Accepts, ◌>>◌}
use protocompile.Parser.Ranges.{TagRange}
use protocompile.Parser.Ranges.Sorting.{StartsBelow}
use protocompile.Parser.Ranges.Holding.{if_starts, search-none}
use protocompile.Parser.Ranges.Searching.{Carries}
use protocompile.Parser.Messages.{has_name, name_of_tag, range_of_tag, report_range}
use protocompile.Parser.Messages.{check_field, check_fields}
use protocompile.Parser.Messages.Ranges.{IsInhabited, Disjoint}

pub has_name-false :
    (names : List String) (name : String)
    → (has_name names name ≡ false) ↔ All (λ n. n ≢ name) names
unfolding has_name
has_name-false [] name = (λ h. tt, λ h. refl)
has_name-false (n ∷ names) name = elim (Bool-cases (str_eq n name)) [
  | inl e ↦ rw e (λ h. cc, λ h. absurd (h.0 ((eq_iff n name).0 e)))
  | inr e ↦
      let (to, from) = has_name-false names name in
      rw e (λ h. ((λ p. cc ((eq_iff n name).1 p)), to h), λ h. from h.1)
]

-- The map from tags to names holds no entry for the tag.
abbrev pub IsFree : List (ℤ × String) → ℤ → Type 0
IsFree tags tag = All (λ p. p.0 ≢ tag) tags

abbrev pub IsNamed : List (ℤ × String) → Type 0
IsNamed = All (λ p. p.1 ≢ "")

pub name_of_tag-IsFree :
    (tags : List (ℤ × String)) (tag : ℤ)
    → IsNamed tags
    → (not (str_eq (name_of_tag tags tag) "") ≡ false) ↔ IsFree tags tag
unfolding name_of_tag
name_of_tag-IsFree [] tag h = (λ e. tt, λ e. refl)
name_of_tag-IsFree ((t, name) ∷ tags) tag h = elim (Bool-cases (t ==ℤ tag)) [
  | inl e ↦ rw e (
    λ p. absurd (h.0 ((eq_iff name "").0 (not-false _ p))),
    λ p. absurd (p.0 ((==ℤ_iff t tag).0 e)),
  )
  | inr e ↦
      let (to, from) = name_of_tag-IsFree tags tag h.1 in
      rw e (λ p. ((λ q. cc ((==ℤ_iff t tag).1 q)), to p), λ p. from p.1)
]
  where
    not-false : (b : Bool) → not b ≡ false → b ≡ true
    not-false true p = refl
    not-false false p = cc

-- The range, with exclusive end, holds the tag.
abbrev pub InRange : ℤ → TagRange → Type 0
InRange tag r = (r.start ≤ℤ tag) × (tag <ℤ r.end)

ends_carry :
    (tag : ℤ) (a b : TagRange)
    → StartsBelow a b
    → Disjoint a b
    → IsInhabited b
    → Carries (λ r. ltb_ℤ tag r.end) a b
ends_carry tag a b s (inl h) i = λ e. ground arith
ends_carry tag a b s (inr h) i = absurd (omega arith)

-- A range search that finds nothing: no range holds the tag.
range_of_tag-none :
    (xs : List TagRange) (tag : ℤ)
    → AllPairs StartsBelow xs
    → AllPairs Disjoint xs
    → All IsInhabited xs
    → (range_of_tag xs tag ≡ none) ↔ All (λ r. ¬ InRange tag r) xs
unfolding range_of_tag if_starts
range_of_tag-none xs tag s d i =
    let test : TagRange → Bool = λ r. ltb_ℤ tag r.end in
    let (to, from) = search-none test tag xs (AllPairs-zip (ends_carry tag) xs s d i) s in
    (
      λ h. All-map (λ r p q. p (q.0, ground arith)) xs (to h),
      λ h. from (All-map (λ r p q. p (q.0, ground arith)) xs h),
    )

report_range-Accepts :
    (span : SourceSpan) (m : ℤ → ℤ → Message) (o : Option TagRange)
    → Accepts (report_range span m o) ↔ (o ≡ none)
unfolding report_range
report_range-Accepts span m none = (λ h. refl, λ h. refl)
report_range-Accepts span m (some r) = (λ h. cc, λ h. cc)

-- What one field needs, apart from the other fields.
abbrev pub FieldIsFree : List String → List TagRange → List TagRange → FieldDescriptorProto → Type 0
FieldIsFree rsvd_names rsvd exts fld =
    All (λ n. n ≢ fld.name) rsvd_names
    × All (λ r. ¬ InRange (get_number fld.number) r) rsvd
    × All (λ r. ¬ InRange (get_number fld.number) r) exts

-- The two tags differ.
abbrev pub DistinctTags : FieldDescriptorProto → FieldDescriptorProto → Type 0
DistinctTags a b = get_number a.number ≢ get_number b.number

-- Sorted, disjoint ranges that hold a tag each.
abbrev pub IsOrdered : List TagRange → Type 0
IsOrdered xs = AllPairs StartsBelow xs × AllPairs Disjoint xs × All IsInhabited xs

module _ (scope : Scope) (names : List String) (rsvd exts : List TagRange)
    (rsvd_ordered : IsOrdered rsvd) (exts_ordered : IsOrdered exts) where
  abbrev FieldIsFine : List (ℤ × String) → FieldDescriptorProto → Type 0
  FieldIsFine tags fld = FieldIsFree names rsvd exts fld × IsFree tags (get_number fld.number)

  check_field-Accepts :
      (tags : List (ℤ × String)) (fld : FieldDescriptorProto)
      → IsNamed tags
      → Accepts (check_field scope names rsvd exts tags fld) ↔ FieldIsFine tags fld
  unfolding check_field
  check_field-Accepts tags fld named =
      let tag = get_number fld.number in
      let existing = name_of_tag tags tag in
      let a : Check (Unit {0}) =
        report_if (has_name names fld.name) fld.node.name_span
          (field_reserved_name scope fld.name) in
      let b : Check (Unit {0}) =
        report_if (not (str_eq existing "")) fld.node.tag_span
          (same_tag scope existing fld.name tag) in
      let c =
        report_range fld.node.tag_span (tag_in_reserved scope fld.name tag)
          (range_of_tag rsvd tag) in
      let d =
        report_range fld.node.tag_span (tag_in_extension scope fld.name tag)
          (range_of_tag exts tag) in
      let (abc_d, abc_d') = >>-Accepts (a >> b >> c) d in
      let (ab_c, ab_c') = >>-Accepts (a >> b) c in
      let (a_b, a_b') = >>-Accepts a b in
      let (p, p') = report_if-Accepts (has_name names fld.name) _ _ in
      let (q, q') = report_if-Accepts (not (str_eq existing "")) _ _ in
      let (r, r') = report_range-Accepts fld.node.tag_span _ (range_of_tag rsvd tag) in
      let (s, s') = report_range-Accepts fld.node.tag_span _ (range_of_tag exts tag) in
      let (n, n') = has_name-false names fld.name in
      let (t, t') = name_of_tag-IsFree tags tag named in
      let (u, u') = range_of_tag-none rsvd tag rsvd_ordered.0 rsvd_ordered.1 rsvd_ordered.2 in
      let (v, v') = range_of_tag-none exts tag exts_ordered.0 exts_ordered.1 exts_ordered.2 in
      (
        λ h.
            let abc = (abc_d h).0 in
            let ab = (ab_c abc).0 in
            ((n (p (a_b ab).0), u (r (ab_c abc).1), v (s (abc_d h).1)), t (q (a_b ab).1)),
        λ h. abc_d' (ab_c' (a_b' (p' (n' h.0.0), q' (t' h.1)), r' (u' h.0.1)), s' (v' h.0.2)),
      )

  add_tag :
      (tags : List (ℤ × String)) (fld : FieldDescriptorProto) (flds : List FieldDescriptorProto)
      → All (FieldIsFine ((get_number fld.number, fld.name) ∷ tags)) flds
        ↔ (All (DistinctTags fld) flds × All (FieldIsFine tags) flds)
  add_tag tags fld [] = (λ h. (tt, tt), λ h. tt)
  add_tag tags fld (g ∷ flds) =
      let (to, from) = add_tag tags fld flds in
      (
        λ h. ((h.0.1.0, (to h.1).0), ((h.0.0, h.0.1.1), (to h.1).1)),
        λ h. ((h.1.0.0, (h.0.0, h.1.0.1)), from (h.0.1, h.1.1)),
      )

  -- The loop over the fields, from any tags that are already taken.
  pub check_fields-Accepts :
      (tags : List (ℤ × String)) (flds : List FieldDescriptorProto)
      → IsNamed tags
      → All (λ f. f.name ≢ "") flds
      → Accepts (check_fields scope names rsvd exts tags flds)
        ↔ (All (FieldIsFine tags) flds × AllPairs DistinctTags flds)
  unfolding check_fields
  check_fields-Accepts tags [] named h = (λ e. (tt, tt), λ e. refl)
  check_fields-Accepts tags (fld ∷ flds) named h =
      let tags' : List (ℤ × String) = (get_number fld.number, fld.name) ∷ tags in
      let (to, from) =
        >>-Accepts (check_field scope names rsvd exts tags fld)
          (check_fields scope names rsvd exts tags' flds) in
      let (one, one') = check_field-Accepts tags fld named in
      let (more, more') = check_fields-Accepts tags' flds (h.0, named) h.1 in
      let (split, join) = add_tag tags fld flds in
      (
        λ e.
            let rest = more (to e).1 in
            ((one (to e).0, (split rest.0).1), ((split rest.0).0, rest.1)),
        λ e. from (one' e.0.0, more' (join (e.1.0, e.0.1), e.1.1)),
      )
