-- ===== src/Parser/Bounds.antt =====
-- parser/result.go: the bounds of ranges, enum values and tags, over the integer literals of
-- ast/values.go and the ranges of ast/ranges.go. The error that `HandleErrorf` returns is dropped
-- here, and the code goes on; a handler ignores what follows an error, so this is a `Check` too.
pub mod Literals
pub mod Inhabited
mod Runs
use protocompile.Prelude.{
  ℕ, zero, suc, ◌+◌, ◌-◌, ◌^◌, String, Bool, true, false, not, ◌&&◌, ◌||◌, Option, none, some, List,
  [], ◌∷◌, ◌==◌, ltb, leb, if◌then◌else◌, str_eq, get_elem?,
}
use protocompile.Prelude.Int.{ℤ, pos, negsuc, ltb_ℤ, ◌==ℤ◌}
use protocompile.Source.{SourceSpan}
use protocompile.Diagnostic.{
  Scope, range_start_out_of_bounds, range_end_out_of_bounds, range_invalid, value_out_of_bounds,
  tag_not_positive, tag_too_high, tag_disallowed, message_set_not_bool,
}
use protocompile.Descriptor.{UninterpretedOption, RangeProto, EnumValueDescriptorProto, MessageBody}
use protocompile.Reporter.{Error, errorf}
use protocompile.Reporter.Check.{Check, pure, done, report, report_if, ◌>>=◌, ◌>>◌}
use protocompile.Options.{find_option}

-- `IntValueNode`: an unsigned literal, or a negative one with its unsigned part; both parts are
-- uint64.
pub data IntValueNode : Type 0 where
  uint_literal : ℕ → SourceSpan → IntValueNode
  negative_int_literal : ℕ → SourceSpan → IntValueNode

unfoldable pub node_span : IntValueNode → SourceSpan
node_span (uint_literal val span) = span
node_span (negative_int_literal uint span) = span

-- The conversion `int64(v)` of a uint64.
unfoldable pub to_int64 : ℕ → ℤ
to_int64 v = if ltb v (2 ^ 63) then pos v else negsuc (2 ^ 64 - v - 1)

-- `-x` on an int64: the least number is its own negation.
unfoldable pub negate_int64 : ℤ → ℤ
negate_int64 (pos zero) = pos 0
negate_int64 (pos (suc n)) = negsuc n
negate_int64 (negsuc n) = if suc n == 2 ^ 63 then negsuc n else pos (suc n)

-- `Value`, as a number; `Val` of a negative literal is computed by `NewNegativeIntLiteralNode`.
unfoldable pub node_value : IntValueNode → ℤ
unfolding to_int64 negate_int64
node_value (uint_literal val span) = pos val
node_value (negative_int_literal uint span) = negate_int64 (to_int64 uint)

-- `AsInt64`
unfoldable pub as_int64 : IntValueNode → Option ℤ
unfolding node_value
as_int64 (uint_literal val span) = if ltb (2 ^ 63 - 1) val then none else some (pos val)
as_int64 (negative_int_literal uint span) = some (node_value (negative_int_literal uint span))

-- `AsInt32`, with its second result.
unfoldable pub as_int32 : IntValueNode → ℤ → ℤ → ℤ × Bool
unfolding as_int64
as_int32 n min_val max_val = elim (as_int64 n) [
  | none ↦ (pos 0, false)
  | some i ↦ if ltb_ℤ i min_val || ltb_ℤ max_val i then (pos 0, false) else (i, true)
]

-- `RangeNode`; `max` tells whether the range ends in the keyword `max`.
pub record RangeNode : Type 0 where
  pub start_val : IntValueNode
  pub end_val : Option IntValueNode
  pub max : Bool
  pub span : SourceSpan

-- `EndValueAsInt32`; `StartValueAsInt32` is `as_int32` of the start.
unfoldable pub end_value_as_int32 : RangeNode → ℤ → ℤ → ℤ × Bool
unfolding as_int32
end_value_as_int32 rng min_val max_val = if rng.max then (max_val, true) else elim rng.end_val [
  | none ↦ as_int32 rng.start_val min_val max_val
  | some n ↦ as_int32 n min_val max_val
]

-- The report of an end that is out of range.
unfoldable pub report_end : Option IntValueNode → ℤ → ℤ → Check (Unit {0})
unfolding node_value node_span
report_end none min_val max_val = done
report_end (some n) min_val max_val =
    report (node_span n) (range_end_out_of_bounds (node_value n) min_val max_val)

-- `getRangeBounds`
unfoldable pub get_range_bounds : RangeNode → ℤ → ℤ → Check (ℤ × ℤ)
unfolding as_int32 end_value_as_int32 report_end node_value node_span
get_range_bounds rng min_val max_val =
    let (start, start_ok) = as_int32 rng.start_val min_val max_val in
    let (end, end_ok) = end_value_as_int32 rng min_val max_val in
    report_if (not start_ok) (node_span rng.start_val)
      (range_start_out_of_bounds (node_value rng.start_val) min_val max_val)
    >> (if end_ok then done else report_end rng.end_val min_val max_val)
    >> report_if (start_ok && end_ok && ltb_ℤ end start) (node_span rng.start_val)
        (range_invalid start end)
    >> pure (start, end)

-- `end + 1` on an int32.
unfoldable pub next_int32 : ℤ → ℤ
next_int32 (pos n) = if suc n == 2 ^ 31 then negsuc (2 ^ 31 - 1) else pos (suc n)
next_int32 (negsuc zero) = pos 0
next_int32 (negsuc (suc n)) = negsuc n

-- `asMessageReservedRange`
unfoldable pub as_message_reserved_range : RangeNode → ℤ → Check RangeProto
unfolding get_range_bounds next_int32
as_message_reserved_range rng max_tag = get_range_bounds rng (pos 1) max_tag >>= λ b.
    pure (record { start = b.0; end = next_int32 b.1; options = []; span = rng.span })

-- `asExtensionRanges`, with the options of the node.
unfoldable pub as_extension_ranges :
    List RangeNode → List UninterpretedOption → ℤ → Check (List RangeProto)
unfolding get_range_bounds next_int32
as_extension_ranges [] opts max_tag = pure []
as_extension_ranges (rng ∷ ranges) opts max_tag = get_range_bounds rng (pos 1) max_tag >>= λ b.
    as_extension_ranges ranges opts max_tag >>= λ ers.
    pure (record { start = b.0; end = next_int32 b.1; options = opts; span = rng.span } ∷ ers)

-- `asEnumReservedRange`
unfoldable pub as_enum_reserved_range : RangeNode → Check RangeProto
unfolding get_range_bounds
as_enum_reserved_range rng = get_range_bounds rng (negsuc (2 ^ 31 - 1)) (pos (2 ^ 31 - 1)) >>= λ b.
    pure (record { start = b.0; end = b.1; options = []; span = rng.span })

-- `EnumValueNode`
pub record EnumValueNode : Type 0 where
  pub name : String
  pub number : IntValueNode
  pub options : List UninterpretedOption
  pub name_span : SourceSpan

-- `asEnumValue`
unfoldable pub as_enum_value : EnumValueNode → Check EnumValueDescriptorProto
unfolding as_int32 node_value node_span
as_enum_value ev =
    let (num, ok) = as_int32 ev.number (negsuc (2 ^ 31 - 1)) (pos (2 ^ 31 - 1)) in
    report_if (not ok) (node_span ev.number) (value_out_of_bounds (node_value ev.number))
    >> pure (record {
      name = ev.name;
      number = num;
      options = ev.options;
      name_span = ev.name_span;
      number_span = node_span ev.number;
    })

-- `checkTag`; `max_tag` is positive.
unfoldable pub check_tag : SourceSpan → ℕ → ℕ → Option Error
unfolding errorf
check_tag span v max_tag =
    if ltb v 1
    then some (errorf span (tag_not_positive (pos v)))
    else if ltb max_tag v
    then some (errorf span (tag_too_high (pos v) (pos max_tag)))
    else if leb 19000 v && leb v 19999
    then some (errorf span (tag_disallowed (pos v)))
    else none

-- `isMessageSetWireFormat`: the option, if its value is true.
unfoldable pub is_message_set_wire_format : Scope → MessageBody → Check (Option UninterpretedOption)
unfolding find_option
is_message_set_wire_format scope md =
    find_option scope md.options "message_set_wire_format" >>= λ index. elim index [
      | none ↦ pure none
      | some i ↦ elim (get_elem? md.options i) [
        | none ↦ pure none
        | some opt ↦ elim opt.identifier_value [
          | none ↦ report opt.value_span (message_set_not_bool scope) >> pure none
          | some v ↦
              if str_eq v "true"
              then pure (some opt)
              else if str_eq v "false"
              then pure none
              else report opt.value_span (message_set_not_bool scope) >> pure none
        ]
      ]
    ]
