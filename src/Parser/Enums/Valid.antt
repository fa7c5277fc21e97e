-- ===== src/Parser/Enums/Valid.antt =====
-- `validateEnum` accepts exactly the enums that keep the language's rules.
use protocompile.Prelude.{
  ◌≡◌, ◌≢◌, refl, String, Bool, true, false, not, ◌↔◌, none, List, [], ◌∷◌, All, AllPairs, All-map,
}
use protocompile.Diagnostic.{Scope, enum, Syntax, proto3, reserved_name_invalid}
use protocompile.Descriptor.{EnumDescriptorProto, EnumValueDescriptorProto}
use protocompile.Reporter.Check.{
  pure, Accepts, report_if, for_each, >>-Accepts, report_if-Accepts, for_each-Accepts, ◌>>◌,
}
use protocompile.Options.{find_option, find_option_with}
use protocompile.Options.Find.{NoneMatch, find_from-NoneMatch}
use protocompile.Parser.Ranges.{TagRange, sort, tag_ranges}
use protocompile.Parser.Ranges.Sorting.{All-sort, AllPairs-sort, sort-IsSorted}
use protocompile.Parser.Names.{is_identifier, find_reserved_name_node, validate_no_features}
use protocompile.Parser.Names.Found.{FeaturesAllowed, validate_no_features-Accepts}
use protocompile.Parser.Enums.{
  check_adjacent, read_allow_alias, check_aliases, check_alias_used, check_value, check_not_empty,
  check_first_value, check_reserved_names, validate_enum,
}
use protocompile.Parser.Enums.Ranges.{
  IsFilled, Apart, Apart-swap, check_adjacent-Apart, InClosed, ValueIsFree, check_value-Accepts,
}
use protocompile.Parser.Enums.Values.{
  DistinctNumbers, check_aliases-Accepts, FirstIsZero, check_first_value-Accepts,
}

-- The rules for an enum without the option `allow_alias`.
pub record IsValidEnum (syntax : Syntax) (ed : EnumDescriptorProto) : Type 0 where
  pub has_value : ed.value ≢ []
  pub features : FeaturesAllowed syntax ed.options
  pub first_zero : syntax ≡ proto3 → FirstIsZero ed.value
  pub numbers_distinct : AllPairs DistinctNumbers ed.value
  pub reserved_apart : AllPairs Apart (tag_ranges ed.reserved_range)
  pub names_valid : All (λ n. is_identifier n ≡ true) ed.reserved_name
  pub values_free : All (ValueIsFree ed.reserved_name (tag_ranges ed.reserved_range)) ed.value

-- What the parser gives: no range is empty, and every value has a name.
pub record IsParsedEnum (ed : EnumDescriptorProto) : Type 0 where
  pub ranges_filled : All IsFilled (tag_ranges ed.reserved_range)
  pub values_named : All (λ ev. ev.name ≢ "") ed.value

check_not_empty-Accepts :
    (scope : Scope) (ed : EnumDescriptorProto)
    → Accepts (check_not_empty scope ed) ↔ (ed.value ≢ [])
unfolding check_not_empty
check_not_empty-Accepts scope ed = go ed.value refl
  where
    go :
        (evs : List EnumValueDescriptorProto)
        → ed.value ≡ evs
        → Accepts (check_not_empty scope ed) ↔ (ed.value ≢ [])
    go [] e = rw e (λ h. cc, λ h. absurd (h refl))
    go (ev ∷ evs) e = rw e (λ h p. cc, λ h. refl)

not_is_true : (b : Bool) → (not b ≡ false) ↔ (b ≡ true)
not_is_true true = (λ h. refl, λ h. refl)
not_is_true false = (λ h. cc, λ h. cc)

check_reserved_names-identifiers :
    (scope : Scope) (ed : EnumDescriptorProto)
    → Accepts (check_reserved_names scope ed) ↔ All (λ n. is_identifier n ≡ true) ed.reserved_name
unfolding check_reserved_names
check_reserved_names-identifiers scope ed =
    let (to, from) = for_each-Accepts ed.reserved_name (λ n.
      report_if (not (is_identifier n)) (find_reserved_name_node ed.span ed.decls n)
        (reserved_name_invalid scope n)) in
    (
      λ h.
          All-map (λ n e. (not_is_true _).0 ((report_if-Accepts _ _ _).0 e)) ed.reserved_name
            (to h),
      λ h.
          from
            (All-map (λ n e. (report_if-Accepts _ _ _).1 ((not_is_true _).1 e)) ed.reserved_name h),
    )

-- The search for the option finds nothing.
find_option-none :
    (scope : Scope) (ed : EnumDescriptorProto)
    → NoneMatch "allow_alias" true ed.options
    → find_option scope ed.options "allow_alias" ≡ pure none
unfolding find_option find_option_with
find_option-none scope ed h = find_from-NoneMatch scope "allow_alias" true false 0 none ed.options h

-- The checks that are left without the option, which accept together.
abbrev EnumParts : Syntax → String → EnumDescriptorProto → Type 0
EnumParts syntax name ed =
    let scope = enum name in
    let rsvd = sort (tag_ranges ed.reserved_range) in
    Accepts (check_not_empty scope ed)
    × Accepts (validate_no_features syntax scope ed.options ed.span)
    × Accepts (check_first_value syntax scope ed.value)
    × Accepts (check_aliases scope false false [] ed.value)
    × Accepts (check_adjacent scope rsvd)
    × Accepts (check_reserved_names scope ed)
    × Accepts (for_each ed.value (check_value scope ed.reserved_name rsvd))

validate_enum-EnumParts :
    (syntax : Syntax) (name : String) (ed : EnumDescriptorProto)
    → NoneMatch "allow_alias" true ed.options
    → Accepts (validate_enum syntax name ed) ↔ EnumParts syntax name ed
unfolding validate_enum read_allow_alias check_alias_used
validate_enum-EnumParts syntax name ed none' =
    let scope = enum name in
    let rsvd = sort (tag_ranges ed.reserved_range) in
    let c1 = check_not_empty scope ed in
    let c2 = validate_no_features syntax scope ed.options ed.span in
    let c3 = check_first_value syntax scope ed.value in
    let c4 = check_aliases scope false false [] ed.value in
    let c5 = check_adjacent scope rsvd in
    let c6 = check_reserved_names scope ed in
    let c7 = for_each ed.value (check_value scope ed.reserved_name rsvd) in
    let e6 = >>-Accepts c6 c7 in
    let e5 = >>-Accepts c5 (c6 >> c7) in
    let e4 = >>-Accepts c4 (c5 >> (c6 >> c7)) in
    let e3 = >>-Accepts c3 (c4 >> (c5 >> (c6 >> c7))) in
    let e2 = >>-Accepts c2 (c3 >> (c4 >> (c5 >> (c6 >> c7)))) in
    let e1 = >>-Accepts c1 (c2 >> (c3 >> (c4 >> (c5 >> (c6 >> c7))))) in
    rw (find_option-none scope ed none') (
      λ h.
          let h2 = (e1.0 h).1 in
          let h3 = (e2.0 h2).1 in
          let h4 = (e3.0 h3).1 in
          let h5 = (e4.0 h4).1 in
          let h6 = (e5.0 h5).1 in
          (
            (e1.0 h).0,
            (e2.0 h2).0,
            (e3.0 h3).0,
            (e4.0 h4).0,
            (e5.0 h5).0,
            (e6.0 h6).0,
            (e6.0 h6).1,
          ),
      λ p. e1.1 (p.0, e2.1 (p.1, e3.1 (p.2, e4.1 (p.3, e5.1 (p.4, e6.1 (p.5, p.6)))))),
    )

values_sorted :
    (names : List String) (rsvd : List TagRange) (evs : List EnumValueDescriptorProto)
    → All (ValueIsFree names (sort rsvd)) evs ↔ All (ValueIsFree names rsvd) evs
values_sorted names rsvd evs = (
  λ h. All-map (λ ev p. (p.0, (All-sort (λ r. ¬ InClosed ev.number r) rsvd).0 p.1)) evs h,
  λ h. All-map (λ ev p. (p.0, (All-sort (λ r. ¬ InClosed ev.number r) rsvd).1 p.1)) evs h,
)

new_to_empty : (evs : List EnumValueDescriptorProto) → All (λ ev. Unit {0}) evs
new_to_empty [] = tt
new_to_empty (ev ∷ evs) = (tt, new_to_empty evs)

-- For an enum as the parser gives it, without the option `allow_alias`, `validateEnum` reports
-- nothing exactly when the enum keeps the rules: it has a value, features only in editions, zero
-- for the first value in proto3, no two values of one number, reserved ranges all disjoint,
-- reserved names identifiers, and no value with a reserved name or number.
pub validate_enum-Accepts :
    (syntax : Syntax) (name : String) (ed : EnumDescriptorProto)
    → IsParsedEnum ed
    → NoneMatch "allow_alias" true ed.options
    → Accepts (validate_enum syntax name ed) ↔ IsValidEnum syntax ed
validate_enum-Accepts syntax name ed parsed none' =
    let scope = enum name in
    let rs = tag_ranges ed.reserved_range in
    let ri = (All-sort IsFilled rs).1 parsed.ranges_filled in
    let rs_sorted = sort-IsSorted rs in
    let (ps, ps') = validate_enum-EnumParts syntax name ed none' in
    let (ne, ne') = check_not_empty-Accepts scope ed in
    let (nf, nf') = validate_no_features-Accepts syntax scope ed.options ed.span in
    let (fz, fz') = check_first_value-Accepts syntax scope ed.value in
    let (al, al') = check_aliases-Accepts scope false [] ed.value tt parsed.values_named in
    let (ad, ad') = check_adjacent-Apart scope (sort rs) rs_sorted ri in
    let (ap', ap'') = AllPairs-sort Apart Apart-swap rs in
    let (rn, rn') = check_reserved_names-identifiers scope ed in
    let (fe, fe') = for_each-Accepts ed.value (check_value scope ed.reserved_name (sort rs)) in
    let (vs, vs') = values_sorted ed.reserved_name rs ed.value in
    let value = λ (ev : EnumValueDescriptorProto) (d : AllPairs Apart (sort rs)).
      check_value-Accepts scope ed.reserved_name (sort rs) ev rs_sorted d ri in
    (
      λ h.
          let p = ps h in
          let d = ad p.4 in
          record {
            has_value = ne p.0;
            features = nf p.1;
            first_zero = fz p.2;
            numbers_distinct = (al p.3).1;
            reserved_apart = ap' d;
            names_valid = rn p.5;
            values_free = vs (All-map (λ ev q. (value ev d).0 q) ed.value (fe p.6));
          },
      λ v.
          let d = ap'' v.reserved_apart in
          ps' (
            ne' v.has_value,
            nf' v.features,
            fz' v.first_zero,
            al' (new_to_empty ed.value, v.numbers_distinct),
            ad' d,
            rn' v.names_valid,
            fe' (All-map (λ ev q. (value ev d).1 q) ed.value (vs' v.values_free)),
          ),
    )
