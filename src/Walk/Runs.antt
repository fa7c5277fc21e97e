-- ===== src/Walk/Runs.antt =====
-- A walk of a small file.
use protocompile.Prelude.{◌≡◌, none, some, [], ◌∷◌, ◌++◌, All}
use protocompile.Source.{sample_span}
use protocompile.Descriptor.{MessageBody, descriptor_proto, nil, cons, FileDescriptorProto}
use protocompile.Walk.{descriptor_protos_with_path}
use protocompile.Walk.Paths.{resolve, note, resolve-walk_file}

abbrev empty_message : MessageBody
empty_message = record {
  name = "Inner";
  field = [];
  extension = [];
  enum_type = [];
  oneof_decl = record { name = "kind"; options = [] } ∷ [];
  extension_range = [];
  reserved_range = [];
  reserved_name = [];
  options = [];
  span = sample_span 1 1;
  decls = [];
}

abbrev small_file : FileDescriptorProto
small_file = record {
  package_name = "shop";
  syntax = "proto3";
  options = [];
  message_type =
      cons (descriptor_proto empty_message (cons (descriptor_proto empty_message nil) nil)) nil;
  enum_type = [];
  extension = [];
  service =
      record { name = "Search"; method = record { name = "Find"; options = [] } ∷ []; options = [] }
      ∷ [];
  ast = none;
}

resolve-walk_file_example :
    All
      (λ v. resolve small_file v.1 ≡ some v.2)
      (descriptor_protos_with_path [] ◌++◌ note small_file)
resolve-walk_file_example = resolve-walk_file small_file
