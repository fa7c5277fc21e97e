-- ===== src/Walk/Tag.antt =====
-- internal/tags/generated.go: the field numbers that source paths are made of.
use protocompile.Prelude.{ℕ}

abbrev pub file_message_type : ℕ
file_message_type = 4

abbrev pub file_enum_type : ℕ
file_enum_type = 5

abbrev pub file_service : ℕ
file_service = 6

abbrev pub file_extension : ℕ
file_extension = 7

abbrev pub message_field : ℕ
message_field = 2

abbrev pub message_nested_type : ℕ
message_nested_type = 3

abbrev pub message_enum_type : ℕ
message_enum_type = 4

abbrev pub message_extension : ℕ
message_extension = 6

abbrev pub message_oneof_decl : ℕ
message_oneof_decl = 8

abbrev pub enum_value : ℕ
enum_value = 2

abbrev pub service_method : ℕ
service_method = 2
