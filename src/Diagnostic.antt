-- ===== src/Diagnostic.antt =====
-- The messages that the modelled code passes to `HandleErrorf`, a constructor for each format
-- string, with the format's arguments as fields.
use protocompile.Prelude.{String}
use protocompile.Prelude.Int.{ℤ}
use protocompile.Source.{SourcePos}

-- The `scope` prefix of validation messages.
pub data Scope : Type 0 where
  file_options : Scope
  message enum field extension oneof enum_value service method : String → Scope

-- `unknown` is the zero value, which is none of the three.
pub data Syntax : Type 0 where
  proto2 proto3 editions unknown : Syntax

pub data Message : Type 0 where
  -- internal/options.go
  option_more_than_once : Scope → String → Message
  -- parser/validate.go
  import_option_edition : Message
  already_imported : String → SourcePos → Message
  visibility_edition : String → Message
  features_need_editions : Scope → Syntax → Message
  extension_ranges_proto3 : Scope → Message
  map_entry_explicit : Scope → Message
  reserved_overlap : Scope → ℤ → ℤ → ℤ → ℤ → Message
  extension_overlap : Scope → ℤ → ℤ → ℤ → ℤ → Message
  extension_reserved_overlap : Scope → ℤ → ℤ → ℤ → ℤ → Message
  reserved_name_invalid : Scope → String → Message
  field_reserved_name : Scope → String → Message
  same_tag : Scope → String → String → ℤ → Message
  tag_in_reserved : Scope → String → ℤ → ℤ → ℤ → Message
  tag_in_extension : Scope → String → ℤ → ℤ → ℤ → Message
  enum_empty : Scope → Message
  allow_alias_not_bool : Scope → Message
  first_enum_value_not_zero : Scope → Message
  same_number : Scope → String → String → ℤ → Message
  allow_alias_unused : Scope → Message
  value_reserved_name : Scope → String → Message
  value_in_reserved : Scope → String → ℤ → ℤ → ℤ → Message
  missing_tag : Scope → Message
  group_not_allowed : Scope → Message
  required_not_allowed : Scope → Message
  optional_not_allowed : Scope → Message
  packed_not_allowed : Scope → Message
  default_not_allowed : Scope → Message
  no_label : Scope → Message
  extension_required : Scope → Message
  -- parser/result.go
  range_start_out_of_bounds range_end_out_of_bounds : ℤ → ℤ → ℤ → Message
  range_invalid : ℤ → ℤ → Message
  value_out_of_bounds : ℤ → Message
  tag_not_positive : ℤ → Message
  tag_too_high : ℤ → ℤ → Message
  tag_disallowed : ℤ → Message
  message_set_not_bool : Scope → Message
  -- linker/symbols.go
  symbol_defined : String → String → SourcePos → String → Message
  extendee_mismatch : String → String → Message
  missing_package : String → Message
  extension_defined : ℤ → String → SourcePos → Message
  declaration_defined : String → String → ℤ → SourcePos → Message
