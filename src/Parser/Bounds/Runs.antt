-- ===== src/Parser/Bounds/Runs.antt =====
-- Runs of the bounds of literals and ranges.
use protocompile.Prelude.{◌^◌, ◌-◌, ◌≡◌, refl, false, some, [], ◌∷◌, All, arith}
use protocompile.Prelude.Int.{pos, negsuc}
use protocompile.Source.{sample_span}
use protocompile.Reporter.Check.{Accepts}
use protocompile.Parser.Bounds.{
  uint_literal, negative_int_literal, as_int64, as_int32, end_value_as_int32, RangeNode,
  EnumValueNode, as_enum_value, get_range_bounds, as_message_reserved_range, as_extension_ranges,
}
use protocompile.Parser.Bounds.Literals.{as_int64-negative, as_enum_value_wraps}
use protocompile.Parser.Bounds.Inhabited.{
  HoldsTags, as_message_reserved_range-HoldsTags, as_extension_ranges-HoldsTags,
}

as_int64-negative_example : as_int64 (negative_int_literal 7 (sample_span 1 1)) ≡ some (negsuc 6)
as_int64-negative_example = as_int64-negative 6 (sample_span 1 1) (omega arith)

-- `A = -18446744073709551615;`
abbrev huge_value : EnumValueNode
huge_value = record {
  name = "A";
  number = negative_int_literal (2 ^ 64 - 1) (sample_span 3 7);
  options = [];
  name_span = sample_span 3 3;
}

as_enum_value_wraps_example :
    Accepts (as_enum_value huge_value)
    × ((as_enum_value huge_value).value.number ≡ pos (2 ^ 64 - (2 ^ 64 - 1)))
as_enum_value_wraps_example =
    as_enum_value_wraps huge_value (2 ^ 64 - 1) (sample_span 3 7) refl (omega arith) (omega arith)

-- `5 to 9`
abbrev five_to_nine : RangeNode
five_to_nine = record {
  start_val = uint_literal 5 (sample_span 2 12);
  end_val = some (uint_literal 9 (sample_span 2 17));
  max = false;
  span = sample_span 2 12;
}

five_to_nine-Accepts : Accepts (as_message_reserved_range five_to_nine (pos 536870911))
unfolding as_message_reserved_range get_range_bounds end_value_as_int32 as_int32 as_int64
five_to_nine-Accepts = refl

as_message_reserved_range-HoldsTags_example :
    HoldsTags 536870911 (as_message_reserved_range five_to_nine (pos 536870911)).value
as_message_reserved_range-HoldsTags_example =
    as_message_reserved_range-HoldsTags five_to_nine 536870911 (omega arith) (omega arith)
      five_to_nine-Accepts

two_ranges-Accepts :
    Accepts (as_extension_ranges (five_to_nine ∷ five_to_nine ∷ []) [] (pos 536870911))
unfolding as_extension_ranges get_range_bounds end_value_as_int32 as_int32 as_int64
two_ranges-Accepts = refl

as_extension_ranges-HoldsTags_example :
    All
      (HoldsTags 536870911)
      (as_extension_ranges (five_to_nine ∷ five_to_nine ∷ []) [] (pos 536870911)).value
as_extension_ranges-HoldsTags_example =
    as_extension_ranges-HoldsTags (five_to_nine ∷ five_to_nine ∷ []) [] 536870911 (omega arith)
      (omega arith) two_ranges-Accepts
