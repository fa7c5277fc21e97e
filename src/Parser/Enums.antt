-- ===== src/Parser/Enums.antt =====
-- parser/validate.go: `validateEnum`, a definition for each of its parts.
pub mod Ranges
pub mod Values
pub mod Valid
use protocompile.Prelude.{
  ℕ, String, Bool, true, false, not, ◌&&◌, ◌||◌, Option, none, some, List, [],
}
use protocompile.Prelude.{◌∷◌, if◌then◌else◌, str_eq, length, get_elem?}
use protocompile.Prelude.Int.{ℤ, pos, leb_ℤ, ◌==ℤ◌}
use protocompile.Source.{SourceSpan}
use protocompile.Diagnostic.{
  Scope, enum, Syntax, enum_empty, allow_alias_not_bool, first_enum_value_not_zero, same_number,
  allow_alias_unused, reserved_overlap, reserved_name_invalid, value_reserved_name,
  value_in_reserved,
}
use protocompile.Descriptor.{UninterpretedOption, EnumValueDescriptorProto, EnumDescriptorProto}
use protocompile.Reporter.Check.{Check, pure, done, report, report_if, for_each, ◌>>=◌, ◌>>◌}
use protocompile.Options.{find_option}
use protocompile.Parser.Ranges.{TagRange, sort, tag_ranges, search_index}
use protocompile.Parser.Names.{
  is_identifier, find_reserved_name_node, is_proto3, validate_no_features,
}
use protocompile.Parser.Messages.{has_name, name_of_tag}

-- The ends of an enum's ranges are inclusive.
unfoldable pub check_adjacent : Scope → List TagRange → Check (Unit {0})
check_adjacent scope [] = done
check_adjacent scope (a ∷ []) = done
check_adjacent scope (a ∷ b ∷ rest) =
    report_if (leb_ℤ b.start a.end) b.node (reserved_overlap scope a.start a.end b.start b.end)
    >> check_adjacent scope (b ∷ rest)

-- The value of `allowAlias`, with the option's value span; `none` for an option that is not there
-- or is given twice.
unfoldable pub read_allow_alias :
    Scope → List UninterpretedOption → Option ℕ → Check (Bool × Option SourceSpan)
read_allow_alias scope opts none = pure (false, none)
read_allow_alias scope opts (some index) = elim (get_elem? opts index) [
  | none ↦ pure (false, none)
  | some opt ↦ elim opt.identifier_value [
    | none ↦ report opt.value_span (allow_alias_not_bool scope) >> pure (false, some opt.value_span)
    | some v ↦
        if str_eq v "true"
        then pure (true, some opt.value_span)
        else if str_eq v "false"
        then pure (false, some opt.value_span)
        else report opt.value_span (allow_alias_not_bool scope) >> pure (false, some opt.value_span)
  ]
]

-- The loop that looks for aliases; its value is `hasAlias`.
unfoldable pub check_aliases :
    Scope → Bool → Bool → List (ℤ × String) → List EnumValueDescriptorProto → Check Bool
check_aliases scope allow_alias has_alias vals [] = pure has_alias
check_aliases scope allow_alias has_alias vals (ev ∷ evs) =
    let existing = name_of_tag vals ev.number in
    let dup = not (str_eq existing "") in
    report_if (dup && not allow_alias) ev.number_span (same_number scope existing ev.name ev.number)
    >> check_aliases scope allow_alias (has_alias || (dup && allow_alias))
        ((ev.number, ev.name) ∷ vals) evs

unfoldable pub check_alias_used : Scope → Bool → Bool → Option SourceSpan → Check (Unit {0})
check_alias_used scope allow_alias has_alias none = done
check_alias_used scope allow_alias has_alias (some span) =
    report_if (allow_alias && not has_alias) span (allow_alias_unused scope)

-- The range that the search finds, if it begins at or below the number.
unfoldable pub range_of_number : List TagRange → ℤ → Option TagRange
unfolding search_index
range_of_number ranges number =
    let i =
      search_index (length ranges)
        (λ i. elim (get_elem? ranges i) [ none ↦ false | some r ↦ leb_ℤ number r.end ]) in
    elim (get_elem? ranges i) [
      | none ↦ none
      | some r ↦ if leb_ℤ r.start number then some r else none
    ]

-- The reports for one value in the last loop.
unfoldable pub check_value :
    Scope → List String → List TagRange → EnumValueDescriptorProto → Check (Unit {0})
unfolding has_name range_of_number
check_value scope rsvd_names rsvd ev =
    report_if (has_name rsvd_names ev.name) ev.name_span (value_reserved_name scope ev.name)
    >> elim (range_of_number rsvd ev.number) [
      | none ↦ done
      | some r ↦ report ev.number_span (value_in_reserved scope ev.name ev.number r.start r.end)
    ]

-- `len(ed.Value) == 0`, and the first value of a proto3 enum.
unfoldable pub check_not_empty : Scope → EnumDescriptorProto → Check (Unit {0})
check_not_empty scope ed = elim ed.value [
  | [] ↦ report ed.span (enum_empty scope)
  | ev ∷ evs ↦ done
]

unfoldable pub check_first_value : Syntax → Scope → List EnumValueDescriptorProto → Check (Unit {0})
check_first_value syntax scope [] = done
check_first_value syntax scope (ev ∷ evs) =
    report_if (is_proto3 syntax && not (ev.number ==ℤ pos 0)) ev.number_span
      (first_enum_value_not_zero scope)

unfoldable pub check_reserved_names : Scope → EnumDescriptorProto → Check (Unit {0})
unfolding for_each
check_reserved_names scope ed = for_each ed.reserved_name λ n.
    report_if (not (is_identifier n)) (find_reserved_name_node ed.span ed.decls n)
      (reserved_name_invalid scope n)

-- `validateEnum`
unfoldable pub validate_enum : Syntax → String → EnumDescriptorProto → Check (Unit {0})
unfolding check_adjacent read_allow_alias check_aliases check_alias_used check_value check_not_empty
    check_first_value check_reserved_names for_each
validate_enum syntax name ed = do
  let scope = enum name
  check_not_empty scope ed
  validate_no_features syntax scope ed.options ed.span
  index ← find_option scope ed.options "allow_alias"
  (allow_alias, opt_span) ← read_allow_alias scope ed.options index
  check_first_value syntax scope ed.value
  has_alias ← check_aliases scope allow_alias false [] ed.value
  check_alias_used scope allow_alias has_alias opt_span
  let rsvd = sort (tag_ranges ed.reserved_range)
  check_adjacent scope rsvd
  check_reserved_names scope ed
  for_each ed.value (check_value scope ed.reserved_name rsvd)
