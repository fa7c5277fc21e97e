-- ===== src/Parser/Messages.antt =====
-- parser/validate.go: `validateMessage`, a definition for each of its parts.
pub mod Ranges
pub mod Fields
pub mod Valid
use protocompile.Prelude.{ℕ, zero, suc, String, Bool, true, false, not, ◌&&◌, ◌||◌, Option, none}
use protocompile.Prelude.{some, List, [], ◌∷◌, ltb, if◌then◌else◌, str_eq, length, get_elem?}
use protocompile.Prelude.Int.{ℤ, ltb_ℤ, leb_ℤ, ◌==ℤ◌}
use protocompile.Source.{SourceSpan}
use protocompile.Diagnostic.{
  Scope, message, Syntax, Message, extension_ranges_proto3, map_entry_explicit, reserved_overlap,
  extension_overlap, extension_reserved_overlap, reserved_name_invalid, field_reserved_name,
  same_tag, tag_in_reserved, tag_in_extension,
}
use protocompile.Descriptor.{FieldDescriptorProto, RangeProto, MessageBody, get_number}
use protocompile.Reporter.Check.{Check, done, report, report_if, for_each, ◌>>=◌, ◌>>◌}
use protocompile.Options.{find_option}
use protocompile.Parser.Ranges.{TagRange, sort, tag_ranges, search_index}
use protocompile.Parser.Names.{
  is_identifier, find_reserved_name_node, is_proto3, report_found, validate_no_features,
}

-- An adjacent pair is reported if the second range starts before the first ends.
unfoldable pub check_adjacent : (ℤ → ℤ → ℤ → ℤ → Message) → List TagRange → Check (Unit {0})
check_adjacent m [] = done
check_adjacent m (a ∷ []) = done
check_adjacent m (a ∷ b ∷ rest) =
    report_if (ltb_ℤ b.start a.end) b.node (m a.start a.end b.start b.end)
    >> check_adjacent m (b ∷ rest)

-- The condition of the merge loop, in its two halves.
abbrev pub starts_in : TagRange → TagRange → Bool
starts_in a b = leb_ℤ b.start a.start && ltb_ℤ a.start b.end

unfoldable pub check_pair : Scope → TagRange → TagRange → Check (Unit {0})
check_pair scope r e =
    report_if (starts_in r e || starts_in e r) (if starts_in r e then r.node else e.node)
      (extension_reserved_overlap scope e.start e.end r.start r.end)

-- The loop over `rsvd` and `exts`, both sorted, which drops the range that starts first.
unfoldable pub check_merge : Scope → List TagRange → List TagRange → Check (Unit {0})
unfolding check_pair
check_merge scope [] exts = done
check_merge scope (r ∷ rsvd) [] = done
check_merge scope (r ∷ rsvd) (e ∷ exts) =
    let next_rsvd = check_merge scope rsvd (e ∷ exts) in
    let next_exts = check_merge scope (r ∷ rsvd) exts in
    check_pair scope r e >> (if ltb_ℤ r.start e.start then next_rsvd else next_exts)

-- The first loop over the reserved names.
unfoldable pub check_reserved_names : Scope → MessageBody → Check (Unit {0})
unfolding for_each
check_reserved_names scope md = for_each md.reserved_name λ n.
    report_if (not (is_identifier n)) (find_reserved_name_node md.span md.decls n)
      (reserved_name_invalid scope n)

-- The set `rsvdNames`.
unfoldable pub has_name : List String → String → Bool
has_name [] name = false
has_name (n ∷ names) name = str_eq n name || has_name names name

-- The map `fieldTags`: the last name written for a tag, or the empty string.
unfoldable pub name_of_tag : List (ℤ × String) → ℤ → String
name_of_tag [] tag = ""
name_of_tag ((t, name) ∷ tags) tag = if t ==ℤ tag then name else name_of_tag tags tag

-- The range that the search finds, if it begins at or below the tag.
unfoldable pub range_of_tag : List TagRange → ℤ → Option TagRange
unfolding search_index
range_of_tag ranges tag =
    let i =
      search_index (length ranges)
        (λ i. elim (get_elem? ranges i) [ none ↦ false | some r ↦ ltb_ℤ tag r.end ]) in
    elim (get_elem? ranges i) [ none ↦ none | some r ↦ if leb_ℤ r.start tag then some r else none ]

unfoldable pub report_range : SourceSpan → (ℤ → ℤ → Message) → Option TagRange → Check (Unit {0})
report_range span m none = done
report_range span m (some r) = report span (m r.start r.end)

-- The reports for one field.
unfoldable pub check_field :
    Scope
    → List String
    → List TagRange
    → List TagRange
    → List (ℤ × String)
    → FieldDescriptorProto
    → Check (Unit {0})
unfolding has_name name_of_tag range_of_tag report_range
check_field scope rsvd_names rsvd exts field_tags fld =
    let tag = get_number fld.number in
    let existing = name_of_tag field_tags tag in
    report_if (has_name rsvd_names fld.name) fld.node.name_span (field_reserved_name scope fld.name)
    >> report_if (not (str_eq existing "")) fld.node.tag_span (same_tag scope existing fld.name tag)
    >> report_range fld.node.tag_span (tag_in_reserved scope fld.name tag) (range_of_tag rsvd tag)
    >> report_range fld.node.tag_span (tag_in_extension scope fld.name tag) (range_of_tag exts tag)

-- The loop over the fields.
unfoldable pub check_fields :
    Scope
    → List String
    → List TagRange
    → List TagRange
    → List (ℤ × String)
    → List FieldDescriptorProto
    → Check (Unit {0})
unfolding check_field
check_fields scope rsvd_names rsvd exts field_tags [] = done
check_fields scope rsvd_names rsvd exts field_tags (fld ∷ flds) =
    check_field scope rsvd_names rsvd exts field_tags fld
    >> check_fields scope rsvd_names rsvd exts ((get_number fld.number, fld.name) ∷ field_tags) flds

-- The first extension range of a proto3 message is reported.
unfoldable pub check_proto3_ranges : Syntax → Scope → List RangeProto → Check (Unit {0})
check_proto3_ranges syntax scope [] = done
check_proto3_ranges syntax scope (r ∷ rest) =
    report_if (is_proto3 syntax) r.span (extension_ranges_proto3 scope)

-- `validateMessage`
unfoldable pub validate_message : Syntax → String → MessageBody → Check (Unit {0})
unfolding check_adjacent check_merge check_reserved_names check_fields check_proto3_ranges
validate_message syntax name md = do
  let scope = message name
  check_proto3_ranges syntax scope md.extension_range
  index ← find_option scope md.options "map_entry"
  report_found md.options md.span (map_entry_explicit scope) index
  validate_no_features syntax scope md.options md.span
  let rsvd = sort (tag_ranges md.reserved_range)
  check_adjacent (reserved_overlap scope) rsvd
  for_each md.extension_range (λ r. validate_no_features syntax scope r.options r.span)
  let exts = sort (tag_ranges md.extension_range)
  check_adjacent (extension_overlap scope) exts
  check_merge scope rsvd exts
  check_reserved_names scope md
  check_fields scope md.reserved_name rsvd exts [] md.field
