-- ===== src/Walk.antt =====
-- walk/walk.go: the traversal of descriptor protos, with names, source paths, and an optional
-- function for the exit.
pub mod Tag
pub mod Paths
pub mod Visits
mod Runs
use Prim.Native.String.{◌++◌ as ◌<>◌}
use protocompile.Prelude.{
  ℕ, zero, suc, ◌+◌, String, Bool, true, false, Option, none, some, List, [], ◌∷◌, ◌++◌,
}
use protocompile.Prelude.{if◌then◌else◌, str_eq}
use protocompile.Descriptor.{
  FieldDescriptorProto, EnumValueDescriptorProto, EnumDescriptorProto, OneofDescriptorProto,
  DescriptorProto, descriptor_proto, DescriptorProtos, nil, cons, MethodDescriptorProto,
  ServiceDescriptorProto, FileDescriptorProto,
}

-- The descriptor protos that the functions are called with.
pub data Element : Type 0 where
  message : DescriptorProto → Element
  field : FieldDescriptorProto → Element
  oneof : OneofDescriptorProto → Element
  enum : EnumDescriptorProto → Element
  enum_value : EnumValueDescriptorProto → Element
  service : ServiceDescriptorProto → Element
  method : MethodDescriptorProto → Element

-- A `protoreflect.SourcePath`.
abbrev pub SourcePath : Type 0
SourcePath = List ℕ

-- The type of `enter` and `exit`. `C` is what a call does and returns: `seq a b` is `a`, then `b`
-- unless `a` returned an error, and `skip` is the call that does nothing.
abbrev pub Visitor : Type 0 → Type 0
Visitor C = String → SourcePath → Element → C

-- `protoWalker`
module _ {C : Type 0} (skip : C) (seq : C → C → C) (use_path : Bool) (enter : Visitor C)
    (exit : Option (Visitor C)) where
  unfoldable pub leave : Visitor C
  leave name path element = elim exit [ none ↦ skip | some f ↦ f name path element ]

  -- The path of the `i`-th element of a field of the descriptor at `path`.
  unfoldable pub extend : SourcePath → ℕ → ℕ → SourcePath
  extend path tag i = if use_path then path ++ (tag ∷ i ∷ []) else []

  unfoldable pub visit : Visitor C
  unfolding leave
  visit name path element = seq (enter name path element) (leave name path element)

  -- A `for i, x := range xs`.
  unfoldable pub walk_each {ℓ} : {A : Type ℓ} → (ℕ → A → C) → ℕ → List A → C
  walk_each f i [] = skip
  walk_each f i (x ∷ xs) = seq (f i x) (walk_each f (suc i) xs)

  -- `walkEnumDescriptorProto`
  unfoldable pub walk_enum : String → SourcePath → EnumDescriptorProto → C
  unfolding leave extend visit walk_each
  walk_enum prefix path en =
      let fqn = prefix <> en.name in
      seq (enter fqn path (enum en)) (
        seq
          (walk_each (λ i v. visit (prefix <> v.name) (extend path Tag.enum_value i) (enum_value v))
            0 en.value)
          (leave fqn path (enum en)))

  unfoldable pub walk_fields : String → SourcePath → ℕ → List FieldDescriptorProto → C
  unfolding extend visit walk_each
  walk_fields prefix path tag flds =
      walk_each (λ i fld. visit (prefix <> fld.name) (extend path tag i) (field fld)) 0 flds

  unfoldable mutual
    -- `walkDescriptorProto`
    pub walk_message : String → SourcePath → DescriptorProto → C
    walk_message outer path (descriptor_proto md nested) =
        let fqn = outer <> md.name in
        let prefix = fqn <> "." in
        seq (enter fqn path (message (descriptor_proto md nested))) (
          seq (walk_fields prefix path Tag.message_field md.field) (
            seq
              (walk_each
                (λ i oo.
                  visit (prefix <> oo.name) (extend path Tag.message_oneof_decl i) (oneof oo))
                0 md.oneof_decl)
              (seq (walk_messages prefix path Tag.message_nested_type 0 nested) (
                seq
                  (walk_each (λ i en. walk_enum prefix (extend path Tag.message_enum_type i) en) 0
                    md.enum_type)
                  (seq (walk_fields prefix path Tag.message_extension md.extension)
                    (leave fqn path (message (descriptor_proto md nested))))))))

    pub walk_messages : String → SourcePath → ℕ → ℕ → DescriptorProtos → C
    walk_messages prefix path tag i nil = skip
    walk_messages prefix path tag i (cons msg msgs) =
        seq (walk_message prefix (extend path tag i) msg)
          (walk_messages prefix path tag (suc i) msgs)

  unfoldable pub walk_service : String → SourcePath → ServiceDescriptorProto → C
  unfolding leave extend visit walk_each
  walk_service prefix path svc =
      let fqn = prefix <> svc.name in
      seq (enter fqn path (service svc)) (
        seq
          (walk_each
            (λ i mtd.
              visit (fqn <> ("." <> mtd.name)) (extend path Tag.service_method i) (method mtd))
            0 svc.method)
          (leave fqn path (service svc)))

  -- `walkDescriptorProtos`
  unfoldable pub walk_file : FileDescriptorProto → C
  unfolding walk_enum walk_fields walk_messages walk_service walk_each extend
  walk_file file =
      let prefix = if str_eq file.package_name "" then "" else file.package_name <> "." in
      seq (walk_messages prefix [] Tag.file_message_type 0 file.message_type) (
        seq
          (walk_each (λ i en. walk_enum prefix (extend [] Tag.file_enum_type i) en) 0
            file.enum_type)
          (seq (walk_fields prefix [] Tag.file_extension file.extension) (
            walk_each (λ i svc. walk_service prefix (extend [] Tag.file_service i) svc) 0
              file.service)))

-- `DescriptorProtosEnterAndExit`, for functions that take no path.
unfoldable pub descriptor_protos_enter_and_exit :
    {C : Type 0}
    → C
    → (C → C → C)
    → (String → Element → C)
    → Option (String → Element → C)
    → FileDescriptorProto
    → C
unfolding walk_file
descriptor_protos_enter_and_exit skip seq enter exit =
    walk_file skip seq false (λ name path el. enter name el)
      (elim exit [ none ↦ none | some f ↦ some (λ name path el. f name el) ])

-- `DescriptorProtos`
unfoldable pub descriptor_protos :
    {C : Type 0} → C → (C → C → C) → (String → Element → C) → FileDescriptorProto → C
unfolding descriptor_protos_enter_and_exit
descriptor_protos skip seq fn = descriptor_protos_enter_and_exit skip seq fn none

-- `DescriptorProtosWithPath`
unfoldable pub descriptor_protos_with_path :
    {C : Type 0} → C → (C → C → C) → Visitor C → FileDescriptorProto → C
unfolding walk_file
descriptor_protos_with_path skip seq fn = walk_file skip seq true fn none
