-- ===== src/Parser/Runs.antt =====
-- Runs of the checks on one message.
use protocompile.Prelude.{Option}
use protocompile.Prelude.{◌≡◌, refl, ◌↔◌, none, some, [], ◌∷◌, arith}
use protocompile.Prelude.{true, false}
use protocompile.Prelude.Int.{pos}
use protocompile.Source.{sample_span}
use protocompile.Diagnostic.{message, proto2}
use protocompile.Descriptor.{
  UninterpretedOption, FieldDescriptorProto, MessageBody, optional, other_type,
}
use protocompile.Reporter.Check.{Accepts}
use protocompile.Options.{find_option_with}
use protocompile.Options.Find.{NoneMatch, find_option_with-none}
use protocompile.Parser.Ranges.{TagRange, tag_ranges}
use protocompile.Descriptor.{EnumDescriptorProto}
use protocompile.Diagnostic.{proto3}
use protocompile.Options.{skips}
use protocompile.Parser.Enums.{validate_enum}
use protocompile.Parser.Enums.Valid.{IsValidEnum, IsParsedEnum, validate_enum-Accepts}
use protocompile.Prelude.{ℕ, suc}
use protocompile.Reporter.{Handler, root, error, reporter_error, error_of}
use protocompile.Reporter.Check.{run, done, ◌>>◌, >>-Accepts}
use protocompile.Walk.{descriptor_protos}
use protocompile.Walk.Visits.{EachDescriptor, descriptor_protos-EachDescriptor}
use protocompile.Descriptor.{FileDescriptorProto, descriptor_proto, nil, cons}
use protocompile.Descriptor.{import_node, message_node, group_node, no_decls, decl, FileNode}
use protocompile.Parser.Imports.{validate_imports, validate_export_local}
use protocompile.Parser.Imports.Valid.{
  ImportsValid, validate_imports-Accepts, VisibilityValid, validate_export_local-Accepts,
}
use protocompile.Parser.Basic.{validate_basic, validate_element}
use protocompile.Parser.Basic.Valid.{IsValidFile, error-validate_basic}
use protocompile.Parser.Fields.{validate_field}
use protocompile.Parser.Fields.Valid.{IsValidField, validate_field-Accepts}
use protocompile.Parser.Messages.{validate_message, check_merge}
use protocompile.Parser.Messages.Ranges.{DisjointFrom, check_merge-Accepts}
use protocompile.Parser.Messages.Valid.{IsValidMessage, IsParsedMessage, validate_message-Accepts}

abbrev an_option : UninterpretedOption
an_option = record {
  head_part = record { name_part = "deprecated"; is_extension = false };
  more_parts = [];
  identifier_value = some "true";
  name_span = sample_span 2 10;
  value_span = sample_span 2 23;
}

abbrev a_field : FieldDescriptorProto
a_field = record {
  name = "id";
  number = some (pos 1);
  label = some optional;
  type = other_type;
  extendee = none;
  oneof_index = none;
  options = [];
  node = record {
    span = sample_span 3 3;
    name_span = sample_span 3 18;
    tag_span = sample_span 3 23;
    label_span = sample_span 3 3;
    group_keyword_span = sample_span 3 3;
  };
}

abbrev a_message : MessageBody
a_message = record {
  name = "User";
  field = a_field ∷ [];
  extension = [];
  enum_type = [];
  oneof_decl = [];
  extension_range =
      record { start = pos 100; end = pos 200; options = []; span = sample_span 5 14 } ∷ [];
  reserved_range =
      record { start = pos 5; end = pos 8; options = []; span = sample_span 4 12 }
      ∷ record { start = pos 2; end = pos 3; options = []; span = sample_span 4 20 }
      ∷ [];
  reserved_name = "old_id" ∷ [];
  options = an_option ∷ [];
  span = sample_span 1 1;
  decls = [];
}

a_message-IsParsedMessage : IsParsedMessage a_message
unfolding tag_ranges
a_message-IsParsedMessage = record {
  reserved_inhabited = (omega arith, (omega arith, tt));
  extensions_inhabited = (omega arith, tt);
  fields_named = ((λ e. cc), tt);
}

validate_message-Accepts_example :
    Accepts (validate_message proto2 "shop.User" a_message) ↔ IsValidMessage proto2 a_message
validate_message-Accepts_example =
    validate_message-Accepts proto2 "shop.User" a_message a_message-IsParsedMessage

abbrev low_range : TagRange
low_range = record { start = pos 2; end = pos 5; node = sample_span 4 12 }

abbrev high_range : TagRange
high_range = record { start = pos 9; end = pos 12; node = sample_span 4 20 }

check_merge-Accepts_example :
    Accepts (check_merge (message "shop.User") (low_range ∷ []) (high_range ∷ []))
    ↔ DisjointFrom (low_range ∷ []) (high_range ∷ [])
check_merge-Accepts_example =
    check_merge-Accepts (message "shop.User") (low_range ∷ []) (high_range ∷ []) (tt, tt) (tt, tt)
      (omega arith, tt) (omega arith, tt)

find_option_with-none_example :
    (Accepts (find_option_with (message "shop.User") (an_option ∷ []) "map_entry" true false)
      × ((find_option_with (message "shop.User") (an_option ∷ []) "map_entry" true false).value
          ≡ none))
    ↔ NoneMatch "map_entry" true (an_option ∷ [])
find_option_with-none_example =
    find_option_with-none (message "shop.User") (an_option ∷ []) "map_entry" true false

abbrev an_enum : EnumDescriptorProto
an_enum = record {
  name = "Role";
  value =
      record {
        name = "USER";
        number = pos 0;
        options = [];
        name_span = sample_span 2 3;
        number_span = sample_span 2 10;
      }
      ∷ record {
        name = "ADMIN";
        number = pos 1;
        options = [];
        name_span = sample_span 3 3;
        number_span = sample_span 3 11;
      }
      ∷ [];
  options = an_option ∷ [];
  reserved_range =
      record { start = pos 5; end = pos 5; options = []; span = sample_span 4 12 } ∷ [];
  reserved_name = "GUEST" ∷ [];
  span = sample_span 1 1;
  decls = [];
}

an_enum-IsParsedEnum : IsParsedEnum an_enum
unfolding tag_ranges
an_enum-IsParsedEnum = record {
  ranges_filled = (omega arith, tt);
  values_named = ((λ e. cc), ((λ e. cc), tt));
}

an_enum-NoneMatch : NoneMatch "allow_alias" true an_enum.options
unfolding skips
an_enum-NoneMatch = (refl, tt)

validate_enum-Accepts_example :
    Accepts (validate_enum proto3 "shop.Role" an_enum) ↔ IsValidEnum proto3 an_enum
validate_enum-Accepts_example =
    validate_enum-Accepts proto3 "shop.Role" an_enum an_enum-IsParsedEnum an_enum-NoneMatch

validate_field-Accepts_example :
    Accepts (validate_field proto3 "shop.User.id" a_field) ↔ IsValidField proto3 a_field
validate_field-Accepts_example = validate_field-Accepts proto3 "shop.User.id" a_field

abbrev a_proto : FileDescriptorProto
a_proto = record {
  package_name = "shop";
  syntax = "proto2";
  options = an_option ∷ [];
  message_type = cons (descriptor_proto a_message nil) nil;
  enum_type = an_enum ∷ [];
  extension = [];
  service = [];
  ast = none;
}

abbrev a_handler : Handler ℕ
a_handler = root (record { error = λ sp c n. (none, suc n); warning = λ sp c n. n }) 0 false none

a_handler-none : error a_handler ≡ none
unfolding error reporter_error error_of
a_handler-none = refl

error-validate_basic_example :
    (error (run a_handler (validate_basic a_proto).reports).1 ≡ none) ↔ IsValidFile a_proto
error-validate_basic_example = error-validate_basic a_handler a_proto a_handler-none

descriptor_protos-EachDescriptor_example :
    Accepts (descriptor_protos done (λ a b. a >> b) (validate_element proto2) a_proto)
    ↔ EachDescriptor (λ name el. Accepts (validate_element proto2 name el)) a_proto
descriptor_protos-EachDescriptor_example =
    descriptor_protos-EachDescriptor done (λ a b. a >> b) (validate_element proto2) (λ c. Accepts c)
      refl (λ a b. >>-Accepts a b) a_proto

-- `import "b.proto"; local message M {}`
abbrev an_ast : Option FileNode
an_ast = some (record {
  edition = some "2023";
  decls = decl (import_node "b.proto" none (sample_span 2 1)) (
      decl (message_node (some (record { val = "local"; span = sample_span 3 1 })) no_decls)
        no_decls);
})

-- `message M { optional group G = 1 { local message N {} } }` in an edition that has no such keyword.
abbrev group_ast : Option FileNode
group_ast = some (record {
  edition = none;
  decls =
      decl
        (message_node none (
          decl
            (group_node (
              decl
                (message_node (some (record { val = "local"; span = sample_span 1 36 })) no_decls)
                no_decls))
            no_decls))
        no_decls;
})

group_ast-accepted : Accepts (validate_export_local group_ast)
unfolding validate_export_local
group_ast-accepted = refl

validate_imports-Accepts_example : Accepts (validate_imports an_ast) ↔ ImportsValid an_ast
validate_imports-Accepts_example = validate_imports-Accepts an_ast

validate_export_local-Accepts_example :
    Accepts (validate_export_local an_ast) ↔ VisibilityValid an_ast
validate_export_local-Accepts_example = validate_export_local-Accepts an_ast
