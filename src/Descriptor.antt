-- ===== src/Descriptor.antt =====
-- The descriptor protos that the parser builds, with the fields that the modelled code reads.
-- `result` maps each proto to its AST node; here a proto carries the spans of that node.
-- The AST itself is modelled where the code reads it: file declarations and reserved names.
use protocompile.Prelude.{String, Bool, Option, none, some, List}
use protocompile.Prelude.Int.{ℤ, pos}
use protocompile.Source.{SourceSpan}

pub record NamePart : Type 0 where
  pub name_part : String
  pub is_extension : Bool

-- The parser gives every option at least one name part, `head_part`.
pub record UninterpretedOption : Type 0 where
  pub head_part : NamePart
  pub more_parts : List NamePart
  pub identifier_value : Option String
  pub name_span : SourceSpan
  pub value_span : SourceSpan

pub data Label : Type 0 where
  optional required repeated : Label

pub data FieldType : Type 0 where
  group_type other_type : FieldType

pub record FieldNode : Type 0 where
  pub span : SourceSpan
  pub name_span : SourceSpan
  pub tag_span : SourceSpan
  pub label_span : SourceSpan
  pub group_keyword_span : SourceSpan

pub record FieldDescriptorProto : Type 0 where
  pub name : String
  pub number : Option ℤ
  pub label : Option Label
  pub type : FieldType
  pub extendee : Option String
  pub oneof_index : Option ℤ
  pub options : List UninterpretedOption
  pub node : FieldNode

-- `GetNumber` and `GetExtendee`, which return the zero value for nil.
abbrev pub get_number : Option ℤ → ℤ
get_number none = pos 0
get_number (some n) = n

abbrev pub get_extendee : Option String → String
get_extendee none = ""
get_extendee (some s) = s

-- A reserved range or an extension range, with its options (none for a reserved range).
pub record RangeProto : Type 0 where
  pub start : ℤ
  pub end : ℤ
  pub options : List UninterpretedOption
  pub span : SourceSpan

-- A declaration in the body of a message or an enum: a `ReservedNode` with its names, or another.
pub data BodyDecl : Type 0 where
  reserved_node : List (String × SourceSpan) → BodyDecl
  other_decl : BodyDecl

pub record EnumValueDescriptorProto : Type 0 where
  pub name : String
  pub number : ℤ
  pub options : List UninterpretedOption
  pub name_span : SourceSpan
  pub number_span : SourceSpan

pub record EnumDescriptorProto : Type 0 where
  pub name : String
  pub value : List EnumValueDescriptorProto
  pub options : List UninterpretedOption
  pub reserved_range : List RangeProto
  pub reserved_name : List String
  pub span : SourceSpan
  pub decls : List BodyDecl

pub record OneofDescriptorProto : Type 0 where
  pub name : String
  pub options : List UninterpretedOption

-- A message without its nested messages.
pub record MessageBody : Type 0 where
  pub name : String
  pub field : List FieldDescriptorProto
  pub extension : List FieldDescriptorProto
  pub enum_type : List EnumDescriptorProto
  pub oneof_decl : List OneofDescriptorProto
  pub extension_range : List RangeProto
  pub reserved_range : List RangeProto
  pub reserved_name : List String
  pub options : List UninterpretedOption
  pub span : SourceSpan
  pub decls : List BodyDecl

mutual
  pub data DescriptorProto : Type 0 where
    descriptor_proto : MessageBody → DescriptorProtos → DescriptorProto

  -- The field `NestedType`, and the file's `MessageType`.
  pub data DescriptorProtos : Type 0 where
    nil : DescriptorProtos
    cons : DescriptorProto → DescriptorProtos → DescriptorProtos

pub record MethodDescriptorProto : Type 0 where
  pub name : String
  pub options : List UninterpretedOption

pub record ServiceDescriptorProto : Type 0 where
  pub name : String
  pub method : List MethodDescriptorProto
  pub options : List UninterpretedOption

-- A keyword token of the AST.
pub record KeywordNode : Type 0 where
  pub val : String
  pub span : SourceSpan

mutual
  -- A declaration in a file, in the body of a message or of a group, in a oneof or in an extend.
  pub data DeclNode : Type 0 where
    import_node : String → Option KeywordNode → SourceSpan → DeclNode
    message_node : Option KeywordNode → DeclNodes → DeclNode
    enum_node : Option KeywordNode → DeclNode
    group_node : DeclNodes → DeclNode
    oneof_node : DeclNodes → DeclNode
    extend_node : DeclNodes → DeclNode
    other_node : DeclNode

  pub data DeclNodes : Type 0 where
    no_decls : DeclNodes
    decl : DeclNode → DeclNodes → DeclNodes

-- `ast.FileNode`: the value of the edition declaration, if there is one, and the declarations.
pub record FileNode : Type 0 where
  pub edition : Option String
  pub decls : DeclNodes

-- The file's proto; `ast` is nil for a result without AST.
pub record FileDescriptorProto : Type 0 where
  pub package_name : String
  pub syntax : String
  pub options : List UninterpretedOption
  pub message_type : DescriptorProtos
  pub enum_type : List EnumDescriptorProto
  pub extension : List FieldDescriptorProto
  pub service : List ServiceDescriptorProto
  pub ast : Option FileNode
