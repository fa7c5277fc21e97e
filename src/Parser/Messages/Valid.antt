-- ===== src/Parser/Messages/Valid.antt =====
-- `validateMessage` accepts exactly the messages that keep the language's rules.
use protocompile.Prelude.{
  ◌≡◌, ◌≢◌, refl, String, Bool, true, false, not, ◌↔◌, List, [], ◌∷◌, All, AllPairs, All-map,
}
use protocompile.Diagnostic.{
  Scope, message, Syntax, proto2, proto3, editions, unknown, reserved_overlap, extension_overlap,
  map_entry_explicit, reserved_name_invalid,
}
use protocompile.Descriptor.{RangeProto, MessageBody, FieldDescriptorProto}
use protocompile.Reporter.Check.{
  Accepts, report_if, for_each, >>-Accepts, >>=->>-Accepts, report_if-Accepts, for_each-Accepts,
  ◌>>=◌, ◌>>◌,
}
use protocompile.Options.{find_option}
use protocompile.Options.Find.{NoneMatch}
use protocompile.Parser.Ranges.{TagRange, sort, tag_ranges}
use protocompile.Parser.Ranges.Sorting.{All-sort, AllPairs-sort, sort-IsSorted}
use protocompile.Parser.Names.{
  is_identifier, find_reserved_name_node, is_proto3, report_found, validate_no_features,
}
use protocompile.Parser.Names.Found.{
  FeaturesAllowed, find_option-Accepts, validate_no_features-Accepts,
}
use protocompile.Parser.Messages.{
  check_adjacent, check_merge, check_reserved_names, check_fields, check_proto3_ranges,
  validate_message,
}
use protocompile.Parser.Messages.Ranges.{
  IsInhabited, Disjoint, Disjoint-swap, DisjointFrom, check_adjacent-Accepts, check_merge-Accepts,
}
use protocompile.Parser.Messages.Fields.{FieldIsFree, DistinctTags, check_fields-Accepts}

-- The rules, on the ranges and fields in the order of the source.
pub record IsValidMessage (syntax : Syntax) (md : MessageBody) : Type 0 where
  pub proto3_ranges : syntax ≡ proto3 → md.extension_range ≡ []
  pub no_map_entry : NoneMatch "map_entry" true md.options
  pub features : FeaturesAllowed syntax md.options
  pub range_features : All (λ r. FeaturesAllowed syntax r.options) md.extension_range
  pub reserved_disjoint : AllPairs Disjoint (tag_ranges md.reserved_range)
  pub extensions_disjoint : AllPairs Disjoint (tag_ranges md.extension_range)
  pub no_overlap : DisjointFrom (tag_ranges md.reserved_range) (tag_ranges md.extension_range)
  pub names_valid : All (λ n. is_identifier n ≡ true) md.reserved_name
  pub fields_free :
      All
        (FieldIsFree md.reserved_name
          (tag_ranges md.reserved_range)
          (tag_ranges md.extension_range))
        md.field
  pub tags_distinct : AllPairs DistinctTags md.field

-- What the parser gives: no range is empty, and every field has a name.
pub record IsParsedMessage (md : MessageBody) : Type 0 where
  pub reserved_inhabited : All IsInhabited (tag_ranges md.reserved_range)
  pub extensions_inhabited : All IsInhabited (tag_ranges md.extension_range)
  pub fields_named : All (λ f. f.name ≢ "") md.field

check_proto3_ranges-Accepts :
    (syntax : Syntax) (scope : Scope) (ranges : List RangeProto)
    → Accepts (check_proto3_ranges syntax scope ranges) ↔ (syntax ≡ proto3 → ranges ≡ [])
unfolding check_proto3_ranges is_proto3
check_proto3_ranges-Accepts syntax scope [] = (λ h e. refl, λ h. refl)
check_proto3_ranges-Accepts proto3 scope (r ∷ rest) = (λ h. cc, λ h. cc (h refl))
check_proto3_ranges-Accepts proto2 scope (r ∷ rest) = (λ h e. cc, λ h. refl)
check_proto3_ranges-Accepts editions scope (r ∷ rest) = (λ h e. cc, λ h. refl)
check_proto3_ranges-Accepts unknown scope (r ∷ rest) = (λ h e. cc, λ h. refl)

not-false : (b : Bool) → (not b ≡ false) ↔ (b ≡ true)
not-false true = (λ h. refl, λ h. refl)
not-false false = (λ h. cc, λ h. cc)

check_reserved_names-Accepts :
    (scope : Scope) (md : MessageBody)
    → Accepts (check_reserved_names scope md) ↔ All (λ n. is_identifier n ≡ true) md.reserved_name
unfolding check_reserved_names
check_reserved_names-Accepts scope md =
    let (to, from) = for_each-Accepts md.reserved_name (λ n.
      report_if (not (is_identifier n)) (find_reserved_name_node md.span md.decls n)
        (reserved_name_invalid scope n)) in
    (
      λ h. All-map (λ n e. (not-false _).0 ((report_if-Accepts _ _ _).0 e)) md.reserved_name (to h),
      λ h.
          from
            (All-map (λ n e. (report_if-Accepts _ _ _).1 ((not-false _).1 e)) md.reserved_name h),
    )

-- Between the ranges in source order and the sorted ranges.
DisjointFrom-sort :
    (rsvd exts : List TagRange) → DisjointFrom (sort rsvd) (sort exts) ↔ DisjointFrom rsvd exts
DisjointFrom-sort rsvd exts =
    let (to, from) = All-sort (λ r. All (Disjoint r) (sort exts)) rsvd in
    (
      λ h. All-map (λ r p. (All-sort (Disjoint r) exts).0 p) rsvd (to h),
      λ h. from (All-map (λ r p. (All-sort (Disjoint r) exts).1 p) rsvd h),
    )

module _ (names : List String) (rsvd exts : List TagRange) where
  fields_sorted :
      (flds : List FieldDescriptorProto)
      → All (λ f. FieldIsFree names (sort rsvd) (sort exts) f × Unit {0}) flds
        ↔ All (FieldIsFree names rsvd exts) flds
  fields_sorted [] = (λ h. tt, λ h. tt)
  fields_sorted (f ∷ flds) =
      let (to, from) = fields_sorted flds in
      (
        λ h. ((h.0.0.0, (All-sort _ rsvd).0 h.0.0.1, (All-sort _ exts).0 h.0.0.2), to h.1),
        λ h. (((h.0.0, (All-sort _ rsvd).1 h.0.1, (All-sort _ exts).1 h.0.2), tt), from h.1),
      )

-- The sequence of checks of `validateMessage`, taken apart: on its parts it accepts together.
abbrev Parts : Syntax → String → MessageBody → Type 0
Parts syntax name md =
    let scope = message name in
    let rsvd = sort (tag_ranges md.reserved_range) in
    let exts = sort (tag_ranges md.extension_range) in
    Accepts (check_proto3_ranges syntax scope md.extension_range)
    × Accepts (
        find_option scope md.options "map_entry"
        >>= report_found md.options md.span (map_entry_explicit scope))
    × Accepts (validate_no_features syntax scope md.options md.span)
    × Accepts (check_adjacent (reserved_overlap scope) rsvd)
    × Accepts
        (for_each md.extension_range (λ r. validate_no_features syntax scope r.options r.span))
    × Accepts (check_adjacent (extension_overlap scope) exts)
    × Accepts (check_merge scope rsvd exts)
    × Accepts (check_reserved_names scope md)
    × Accepts (check_fields scope md.reserved_name rsvd exts [] md.field)

validate_message-Parts :
    (syntax : Syntax) (name : String) (md : MessageBody)
    → Accepts (validate_message syntax name md) ↔ Parts syntax name md
unfolding validate_message
validate_message-Parts syntax name md =
    let scope = message name in
    let rsvd = sort (tag_ranges md.reserved_range) in
    let exts = sort (tag_ranges md.extension_range) in
    let c1 = check_proto3_ranges syntax scope md.extension_range in
    let c2 = find_option scope md.options "map_entry" in
    let f2 = report_found md.options md.span (map_entry_explicit scope) in
    let c3 = validate_no_features syntax scope md.options md.span in
    let c4 = check_adjacent (reserved_overlap scope) rsvd in
    let c5 =
      for_each md.extension_range (λ r. validate_no_features syntax scope r.options r.span) in
    let c6 = check_adjacent (extension_overlap scope) exts in
    let c7 = check_merge scope rsvd exts in
    let c8 = check_reserved_names scope md in
    let c9 = check_fields scope md.reserved_name rsvd exts [] md.field in
    let e8 = >>-Accepts c8 c9 in
    let e7 = >>-Accepts c7 (c8 >> c9) in
    let e6 = >>-Accepts c6 (c7 >> (c8 >> c9)) in
    let e5 = >>-Accepts c5 (c6 >> (c7 >> (c8 >> c9))) in
    let e4 = >>-Accepts c4 (c5 >> (c6 >> (c7 >> (c8 >> c9)))) in
    let e3 = >>-Accepts c3 (c4 >> (c5 >> (c6 >> (c7 >> (c8 >> c9))))) in
    let e2 = >>=->>-Accepts c2 f2 (c3 >> (c4 >> (c5 >> (c6 >> (c7 >> (c8 >> c9)))))) in
    let e1 =
      >>-Accepts c1 (c2 >>= λ i. f2 i >> (c3 >> (c4 >> (c5 >> (c6 >> (c7 >> (c8 >> c9))))))) in
    (
      λ h.
          let h2 = (e1.0 h).1 in
          let h3 = (e2.0 h2).1 in
          let h4 = (e3.0 h3).1 in
          let h5 = (e4.0 h4).1 in
          let h6 = (e5.0 h5).1 in
          let h7 = (e6.0 h6).1 in
          let h8 = (e7.0 h7).1 in
          (
            (e1.0 h).0,
            (e2.0 h2).0,
            (e3.0 h3).0,
            (e4.0 h4).0,
            (e5.0 h5).0,
            (e6.0 h6).0,
            (e7.0 h7).0,
            (e8.0 h8).0,
            (e8.0 h8).1,
          ),
      λ p. e1.1 (
        p.0,
        e2.1 (p.1, e3.1 (p.2, e4.1 (p.3, e5.1 (p.4, e6.1 (p.5, e7.1 (p.6, e8.1 (p.7, p.8))))))),
      ),
    )

-- For a message as the parser gives it, `validateMessage` reports nothing exactly when the message
-- keeps the rules: no extension ranges in proto3, no explicit `map_entry`, features only in
-- editions, reserved and extension ranges all disjoint, reserved names identifiers, and the fields'
-- names and tags not reserved, not in extension ranges, and the tags distinct.
pub validate_message-Accepts :
    (syntax : Syntax) (name : String) (md : MessageBody)
    → IsParsedMessage md
    → Accepts (validate_message syntax name md) ↔ IsValidMessage syntax md
validate_message-Accepts syntax name md parsed =
    let scope = message name in
    let rs = tag_ranges md.reserved_range in
    let es = tag_ranges md.extension_range in
    let ri = (All-sort IsInhabited rs).1 parsed.reserved_inhabited in
    let ei = (All-sort IsInhabited es).1 parsed.extensions_inhabited in
    let rs_sorted = sort-IsSorted rs in
    let es_sorted = sort-IsSorted es in
    let (ps, ps') = validate_message-Parts syntax name md in
    let (r3, r3') = check_proto3_ranges-Accepts syntax scope md.extension_range in
    let (me, me') = find_option-Accepts scope md.options "map_entry" md.span _ in
    let (nf, nf') = validate_no_features-Accepts syntax scope md.options md.span in
    let (ra, ra') = check_adjacent-Accepts (reserved_overlap scope) (sort rs) rs_sorted ri in
    let (ea, ea') = check_adjacent-Accepts (extension_overlap scope) (sort es) es_sorted ei in
    let (fe, fe') =
      for_each-Accepts md.extension_range
        (λ r. validate_no_features syntax scope r.options r.span) in
    let (mg, mg') = check_merge-Accepts scope (sort rs) (sort es) rs_sorted es_sorted ri ei in
    let (dm, dm') = DisjointFrom-sort rs es in
    let (rn, rn') = check_reserved_names-Accepts scope md in
    let (rp, rp') = AllPairs-sort Disjoint Disjoint-swap rs in
    let (ep, ep') = AllPairs-sort Disjoint Disjoint-swap es in
    let (fs, fs') = fields_sorted md.reserved_name rs es md.field in
    let fields = λ (rd : AllPairs Disjoint (sort rs)) (ed : AllPairs Disjoint (sort es)).
      check_fields-Accepts scope md.reserved_name (sort rs) (sort es) (rs_sorted, rd, ri)
        (es_sorted, ed, ei) [] md.field tt parsed.fields_named in
    (
      λ h.
          let p = ps h in
          let f = (fields (ra p.3) (ea p.5)).0 p.8 in
          record {
            proto3_ranges = r3 p.0;
            no_map_entry = me p.1;
            features = nf p.2;
            range_features =
                All-map (λ r e. (validate_no_features-Accepts syntax scope r.options r.span).0 e)
                  md.extension_range (fe p.4);
            reserved_disjoint = rp (ra p.3);
            extensions_disjoint = ep (ea p.5);
            no_overlap = dm (mg p.6);
            names_valid = rn p.7;
            fields_free = fs f.0;
            tags_distinct = f.1;
          },
      λ v. ps' (
        r3' v.proto3_ranges,
        me' v.no_map_entry,
        nf' v.features,
        ra' (rp' v.reserved_disjoint),
        fe' (
            All-map (λ r e. (validate_no_features-Accepts syntax scope r.options r.span).1 e)
              md.extension_range v.range_features),
        ea' (ep' v.extensions_disjoint),
        mg' (dm' v.no_overlap),
        rn' v.names_valid,
        (fields (rp' v.reserved_disjoint) (ep' v.extensions_disjoint)).1
            (fs' v.fields_free, v.tags_distinct),
      ),
    )
