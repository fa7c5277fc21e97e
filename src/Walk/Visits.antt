-- ===== src/Walk/Visits.antt =====
-- walk/walk.go: the walk against the descriptors of a file, each with the full name that it has by
-- the scopes around it.
use Prim.Native.String.{◌++◌ as ◌<>◌}
use text.Mathlib.TextLemmas.{append_assoc, nil-append}
use protocompile.Prelude.{
  ℕ, suc, ◌≡◌, ◌↔◌, refl, sym, subst, ap, ◌∙◌, String, false, Option, none, some, List, [], ◌∷◌,
  All, Bool-cases, inl, inr, if◌then◌else◌, str_eq,
}
use protocompile.Descriptor.{
  FieldDescriptorProto, EnumDescriptorProto, DescriptorProto, descriptor_proto, DescriptorProtos,
  nil, cons, ServiceDescriptorProto, FileDescriptorProto,
}
use protocompile.Walk.{
  Element, message, field, oneof, enum, enum_value, service, method, SourcePath, Visitor, visit,
  walk_each, walk_enum, walk_fields, walk_message, walk_messages, walk_service, leave, extend,
  walk_file, descriptor_protos, descriptor_protos_enter_and_exit,
}
use protocompile.Walk.Tag

-- A name in a scope: after the full name of the scope and a dot, or alone outside every scope.
abbrev pub qualify : Option String → String → String
qualify none name = name
qualify (some scope) name = (scope <> ".") <> name

-- The scope of a file: its package, if it has one.
abbrev pub scope_of : String → Option String
scope_of package_name = if str_eq package_name "" then none else some package_name

module _ (P : String → Element → Type 0) where
  -- A property holds of every descriptor in a scope under its full name. A message is the scope of
  -- what it contains, a service that of its methods; the values of an enum are in the scope of the
  -- enum.
  abbrev pub EachField : Option String → List FieldDescriptorProto → Type 0
  EachField scope flds = All (λ fld. P (qualify scope fld.name) (field fld)) flds

  abbrev pub EachEnum : Option String → EnumDescriptorProto → Type 0
  EachEnum scope en =
      P (qualify scope en.name) (enum en)
      × All (λ v. P (qualify scope v.name) (enum_value v)) en.value

  abbrev pub EachService : Option String → ServiceDescriptorProto → Type 0
  EachService scope svc =
      P (qualify scope svc.name) (service svc)
      × All (λ mtd. P (qualify (some (qualify scope svc.name)) mtd.name) (method mtd)) svc.method

  unfoldable mutual
    pub EachMessage : Option String → DescriptorProto → Type 0
    EachMessage outer (descriptor_proto md nested) =
        let scope = some (qualify outer md.name) in
        P (qualify outer md.name) (message (descriptor_proto md nested))
        × (EachField scope md.field
            × (All (λ oo. P (qualify scope oo.name) (oneof oo)) md.oneof_decl
                × (EachMessages scope nested
                    × (All (λ en. EachEnum scope en) md.enum_type × EachField scope md.extension))))

    pub EachMessages : Option String → DescriptorProtos → Type 0
    EachMessages scope nil = Unit
    EachMessages scope (cons msg msgs) = EachMessage scope msg × EachMessages scope msgs

  unfoldable pub EachDescriptor : FileDescriptorProto → Type 0
  unfolding EachMessages
  EachDescriptor file =
      let scope = scope_of file.package_name in
      EachMessages scope file.message_type
      × (All (λ en. EachEnum scope en) file.enum_type
          × (EachField scope file.extension × All (λ svc. EachService scope svc) file.service))

module _ {C : Type 0} (skip : C) (seq : C → C → C) (fn : String → Element → C) (Q : C → Type 0)
    (skips : Q skip) (splits : (a b : C) → Q (seq a b) ↔ (Q a × Q b)) where
  abbrev OfCall : String → Element → Type 0
  OfCall name el = Q (fn name el)

  seq_iff : {A B : Type 0} (a b : C) → Q a ↔ A → Q b ↔ B → Q (seq a b) ↔ (A × B)
  seq_iff a b f g =
      let (to, from) = splits a b in
      (λ h. (f.0 (to h).0, g.0 (to h).1), λ h. from (f.1 h.0, g.1 h.1))

  last_iff : {A : Type 0} (a : C) → Q a ↔ A → Q (seq a skip) ↔ A
  last_iff a f = let (to, from) = splits a skip in (λ h. f.0 (to h).0, λ h. from (f.1 h, skips))

  call_iff : (name name' : String) (el : Element) → name ≡ name' → OfCall name el ↔ OfCall name' el
  call_iff name name' el e = (subst (λ n. OfCall n el) e, subst (λ n. OfCall n el) (sym e))

  abbrev on_visit : Visitor C
  on_visit name path el = fn name el

  visit_iff :
      (name name' : String) (path : SourcePath) (el : Element)
      → name ≡ name'
      → Q (visit skip seq false on_visit none name path el) ↔ OfCall name' el
  unfolding visit leave
  visit_iff name name' path el e = last_iff (fn name el) (call_iff name name' el e)

  walk_each_iff :
      {A : Type 0} (f : ℕ → A → C) (T : A → Type 0)
      → ((i : ℕ) (x : A) → Q (f i x) ↔ T x)
      → (i : ℕ) (xs : List A) → Q (walk_each skip seq false on_visit none f i xs) ↔ All T xs
  unfolding walk_each
  walk_each_iff f T h i [] = (λ q. tt, λ t. skips)
  walk_each_iff f T h i (x ∷ xs) = seq_iff (f i x) _ (h i x) (walk_each_iff f T h (suc i) xs)

  -- What the walk puts before a name gives the name in the scope.
  abbrev Prefixes : String → Option String → Type 0
  Prefixes prefix scope = (n : String) → prefix <> n ≡ qualify scope n

  Prefixes-nested :
      (prefix : String) (scope : Option String) (name : String)
      → Prefixes prefix scope
      → Prefixes ((prefix <> name) <> ".") (some (qualify scope name))
  Prefixes-nested prefix scope name same n = ap (λ s. (s <> ".") <> n) (same name)

  module _ (prefix : String) (scope : Option String) (same : Prefixes prefix scope) where
    walk_enum_iff :
        (path : SourcePath) (en : EnumDescriptorProto)
        → Q (walk_enum skip seq false on_visit none prefix path en) ↔ EachEnum OfCall scope en
    unfolding walk_enum leave extend
    walk_enum_iff path en = seq_iff _ _ (call_iff _ _ (enum en) (same en.name)) (
        last_iff _
          (walk_each_iff _ _ (λ i v. visit_iff _ _ [] (enum_value v) (same v.name)) 0 en.value))

    walk_service_iff :
        (path : SourcePath) (svc : ServiceDescriptorProto)
        → Q (walk_service skip seq false on_visit none prefix path svc)
          ↔ EachService OfCall scope svc
    unfolding walk_service leave extend
    walk_service_iff path svc =
        let named : (n : String)
            → (prefix <> svc.name) <> ("." <> n) ≡ (qualify scope svc.name <> ".") <> n =
          λ n.
            sym (append_assoc (prefix <> svc.name) "." n)
            ∙ ap (λ s. (s <> ".") <> n) (same svc.name) in
        seq_iff _ _ (call_iff _ _ (service svc) (same svc.name)) (
          last_iff _ (
            walk_each_iff _ _ (λ i mtd. visit_iff _ _ [] (method mtd) (named mtd.name)) 0
              svc.method))

    walk_fields_iff :
        (path : SourcePath) (tag : ℕ) (flds : List FieldDescriptorProto)
        → Q (walk_fields skip seq false on_visit none prefix path tag flds)
          ↔ EachField OfCall scope flds
    unfolding walk_fields extend
    walk_fields_iff path tag flds =
        walk_each_iff _ _ (λ i fld. visit_iff _ _ [] (field fld) (same fld.name)) 0 flds

  mutual
    unfolding walk_message leave extend EachMessage

    walk_message_iff :
        (prefix : String) (scope : Option String)
        → Prefixes prefix scope
        → (path : SourcePath) (msg : DescriptorProto)
        → Q (walk_message skip seq false on_visit none prefix path msg)
          ↔ EachMessage OfCall scope msg
    walk_message_iff outer scope same path (descriptor_proto md nested) =
        let inner = Prefixes-nested outer scope md.name same in
        let p = (outer <> md.name) <> "." in
        let s = some (qualify scope md.name) in
        seq_iff _ _ (call_iff _ _ (message (descriptor_proto md nested)) (same md.name)) (
          seq_iff _ _ (walk_fields_iff p s inner path _ md.field) (
            seq_iff _ _
              (walk_each_iff _ _ (λ i oo. visit_iff _ _ [] (oneof oo) (inner oo.name)) 0
                md.oneof_decl)
              (seq_iff _ _ (walk_messages_iff p s inner path _ 0 nested) (
                seq_iff _ _
                  (walk_each_iff _ _ (λ i en. walk_enum_iff p s inner [] en) 0 md.enum_type)
                  (last_iff _ (walk_fields_iff p s inner path _ md.extension))))))

    walk_messages_iff :
        (prefix : String) (scope : Option String)
        → Prefixes prefix scope
        → (path : SourcePath) (tag i : ℕ) (msgs : DescriptorProtos)
        → Q (walk_messages skip seq false on_visit none prefix path tag i msgs)
          ↔ EachMessages OfCall scope msgs
    walk_messages_iff prefix scope same path tag i nil = (λ q. tt, λ t. skips)
    walk_messages_iff prefix scope same path tag i (cons msg msgs) =
        seq_iff _ _ (walk_message_iff prefix scope same [] msg)
          (walk_messages_iff prefix scope same path tag (suc i) msgs)

  Prefixes-file :
      (pkg : String) → Prefixes (if str_eq pkg "" then "" else pkg <> ".") (scope_of pkg)
  Prefixes-file pkg n = elim (Bool-cases (str_eq pkg "")) [
    | inl e ↦ rw e (nil-append n)
    | inr e ↦ rw e refl
  ]

  -- If a property of what is done splits over sequences and holds of doing nothing, then it holds of
  -- the walk exactly when it holds of a call for each descriptor of the file, under the full name
  -- that the descriptor has by the package, the messages and the services around it.
  pub descriptor_protos-EachDescriptor :
      (file : FileDescriptorProto)
      → Q (descriptor_protos skip seq fn file) ↔ EachDescriptor (λ name el. Q (fn name el)) file
  unfolding descriptor_protos descriptor_protos_enter_and_exit walk_file extend EachDescriptor
  descriptor_protos-EachDescriptor file =
      let same = Prefixes-file file.package_name in
      seq_iff _ _ (walk_messages_iff _ _ same [] Tag.file_message_type 0 file.message_type) (
        seq_iff _ _ (walk_each_iff _ _ (λ i en. walk_enum_iff _ _ same [] en) 0 file.enum_type) (
          seq_iff _ _ (walk_fields_iff _ _ same [] Tag.file_extension file.extension)
            (walk_each_iff _ _ (λ i svc. walk_service_iff _ _ same [] svc) 0 file.service)))
