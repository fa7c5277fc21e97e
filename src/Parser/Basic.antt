-- ===== src/Parser/Basic.antt =====
-- parser/validate.go: `validateBasic`, the checks of a whole file.
pub mod Valid
use protocompile.Prelude.{String, if◌then◌else◌, str_eq, ◌||◌}
use protocompile.Source.{SourceSpan}
use protocompile.Diagnostic.{file_options, oneof, enum_value, service, method}
use protocompile.Diagnostic.{Syntax, proto2, proto3, editions, unknown}
use protocompile.Descriptor.{descriptor_proto, FileDescriptorProto}
use protocompile.Reporter.Check.{Check, done, ◌>>◌}
use protocompile.Walk.{Element, descriptor_protos}
use protocompile.Parser.Names.{validate_no_features}
use protocompile.Parser.Imports.{validate_imports, validate_export_local}
use protocompile.Parser.Messages.{validate_message}
use protocompile.Parser.Enums.{validate_enum}
use protocompile.Parser.Fields.{validate_field}

-- The `switch` on the file's syntax; any other text leaves the zero value.
unfoldable pub syntax_of : String → Syntax
syntax_of s =
    if str_eq s "" || str_eq s "proto2"
    then proto2
    else if str_eq s "proto3"
    then proto3
    else if str_eq s "editions"
    then editions
    else unknown

-- A place for the node of an option list that holds no option; no report uses it.
abbrev no_span : SourceSpan
no_span = record {
  start = record { filename = ""; line = 0; col = 0; offset = 0 };
  end = record { filename = ""; line = 0; col = 0; offset = 0 };
}

-- The function that `validateBasic` passes to the walk.
unfoldable pub validate_element : Syntax → String → Element → Check (Unit {0})
validate_element syntax name (Element.message (descriptor_proto md nested)) =
    validate_message syntax name md
validate_element syntax name (Element.field fld) = validate_field syntax name fld
validate_element syntax name (Element.oneof oo) =
    validate_no_features syntax (oneof name) oo.options no_span
validate_element syntax name (Element.enum en) = validate_enum syntax name en
validate_element syntax name (Element.enum_value v) =
    validate_no_features syntax (enum_value name) v.options no_span
validate_element syntax name (Element.service svc) =
    validate_no_features syntax (service name) svc.options no_span
validate_element syntax name (Element.method mtd) =
    validate_no_features syntax (method name) mtd.options no_span

-- `validateBasic`
unfoldable pub validate_basic : FileDescriptorProto → Check (Unit {0})
unfolding validate_element syntax_of descriptor_protos
validate_basic fd = do
  let syntax = syntax_of fd.syntax
  validate_imports fd.ast
  validate_export_local fd.ast
  validate_no_features syntax file_options fd.options no_span
  descriptor_protos done (λ a b. a >> b) (validate_element syntax) fd
