-- ===== src/Parser/Fields.antt =====
-- parser/validate.go: `validateField` and `fillInMissingLabels`.
pub mod Valid
use protocompile.Prelude.{String, Bool, true, false, not, ◌&&◌, Option, none, some}
use protocompile.Prelude.{if◌then◌else◌, str_eq, map}
use protocompile.Diagnostic.{
  Scope, field, extension, Syntax, proto2, proto3, editions, unknown, Message, missing_tag,
  group_not_allowed, required_not_allowed, optional_not_allowed, packed_not_allowed,
  default_not_allowed, no_label, extension_required,
}
use protocompile.Descriptor.{
  Label, optional, required, repeated, FieldType, group_type, other_type, FieldDescriptorProto,
  get_extendee, DescriptorProto, descriptor_proto, DescriptorProtos, nil, cons, FileDescriptorProto,
}
use protocompile.Reporter.Check.{Check, report, report_if, ◌>>=◌, ◌>>◌}
use protocompile.Options.{find_option}
use protocompile.Parser.Names.{report_found, validate_no_features}

-- `fld.Label != nil && fld.GetLabel() == …`
unfoldable pub is_required : Option Label → Bool
is_required (some required) = true
is_required (some optional) = false
is_required (some repeated) = false
is_required none = false

unfoldable pub is_optional : Option Label → Bool
is_optional (some optional) = true
is_optional (some required) = false
is_optional (some repeated) = false
is_optional none = false

unfoldable pub is_nil {ℓ} : {A : Type ℓ} → Option A → Bool
is_nil none = true
is_nil (some a) = false

unfoldable pub field_scope : FieldDescriptorProto → String → Scope
unfolding is_nil
field_scope fld name = if is_nil fld.extendee then field name else extension name

-- Groups, or required labels, outside proto2.
unfoldable pub check_group : Scope → FieldDescriptorProto → FieldType → Check (Unit {0})
unfolding is_required
check_group scope fld group_type = report fld.node.group_keyword_span (group_not_allowed scope)
check_group scope fld other_type =
    report_if (is_required fld.label) fld.node.label_span (required_not_allowed scope)

-- `FindOption` and the report at the option's name.
unfoldable pub check_no_option : Scope → FieldDescriptorProto → String → Message → Check (Unit {0})
check_no_option scope fld name m = do
  index ← find_option scope fld.options name
  report_found fld.options fld.node.span m index

-- The branches of the `if syntax != protoreflect.Proto2`.
unfoldable pub check_syntax : Syntax → Scope → FieldDescriptorProto → Check (Unit {0})
unfolding check_group is_optional check_no_option is_nil is_required
check_syntax editions scope fld = do
  check_group scope fld fld.type
  report_if (is_optional fld.label) fld.node.label_span (optional_not_allowed scope)
  check_no_option scope fld "packed" (packed_not_allowed scope)
check_syntax proto3 scope fld = do
  check_group scope fld fld.type
  check_no_option scope fld "default" (default_not_allowed scope)
check_syntax proto2 scope fld = do
  report_if (is_nil fld.label && is_nil fld.oneof_index) fld.node.name_span (no_label scope)
  report_if (not (str_eq (get_extendee fld.extendee) "") && is_required fld.label)
      fld.node.label_span (extension_required scope)
check_syntax unknown scope fld = check_group scope fld fld.type

-- `validateField`
unfoldable pub validate_field : Syntax → String → FieldDescriptorProto → Check (Unit {0})
unfolding check_syntax field_scope is_nil
validate_field syntax name fld = do
  let scope = field_scope fld name
  report_if (is_nil fld.number) fld.node.span (missing_tag scope)
  check_syntax syntax scope fld
  validate_no_features syntax scope fld.options fld.node.span

-- `fillInMissingLabel`
unfoldable pub fill_in_missing_label : FieldDescriptorProto → FieldDescriptorProto
fill_in_missing_label fld = record fld {
  label = elim fld.label [ none ↦ some optional | some l ↦ some l ];
}

unfoldable mutual
  -- `fillInMissingLabelsInMsg`
  pub fill_in_missing_labels_in_msg : DescriptorProto → DescriptorProto
  fill_in_missing_labels_in_msg (descriptor_proto md nested) =
      descriptor_proto
        (record md {
          field = map fill_in_missing_label md.field;
          extension = map fill_in_missing_label md.extension;
        })
        (fill_in_missing_labels_in_msgs nested)

  pub fill_in_missing_labels_in_msgs : DescriptorProtos → DescriptorProtos
  fill_in_missing_labels_in_msgs nil = nil
  fill_in_missing_labels_in_msgs (cons msg msgs) =
      cons (fill_in_missing_labels_in_msg msg) (fill_in_missing_labels_in_msgs msgs)

-- `fillInMissingLabels`
unfoldable pub fill_in_missing_labels : FileDescriptorProto → FileDescriptorProto
unfolding fill_in_missing_labels_in_msgs fill_in_missing_label
fill_in_missing_labels fd = record fd {
  message_type = fill_in_missing_labels_in_msgs fd.message_type;
  extension = map fill_in_missing_label fd.extension;
}
