-- ===== src/Walk/Paths.antt =====
-- The source paths that the walk hands out lead to the descriptors that it visits.
use mathlib.Core.List.{append_assoc, append-nil}
use mathlib.Core.Option
use protocompile.Prelude.{
  ℕ, zero, suc, ◌+◌, ◌≡◌, refl, sym, ap, ◌∙◌, String, true, Option, none, some, List, [], ◌∷◌, ◌++◌,
  arith, All, get_elem?, ◌==◌, if◌then◌else◌, All-map,
}
use protocompile.Descriptor.{
  EnumDescriptorProto, DescriptorProto, descriptor_proto, DescriptorProtos, nil, cons,
  ServiceDescriptorProto, FileDescriptorProto,
}
use protocompile.Walk.{
  Element, message, field, oneof, enum, enum_value, service, method, SourcePath, Visitor, visit,
  walk_each, walk_enum, walk_fields, walk_message, walk_messages, walk_service, leave, extend,
  descriptor_protos_with_path,
}
use protocompile.Walk.Tag

abbrev pub Visit : Type 0
Visit = String × SourcePath × Element

-- The call that notes what it is given.
abbrev pub note : Visitor (List Visit)
note name path element = (name, path, element) ∷ []

-- The descriptor at a path that begins in an enum.
resolve_enum : EnumDescriptorProto → SourcePath → Option Element
resolve_enum en [] = some (enum en)
resolve_enum en (t ∷ []) = none
resolve_enum en (t ∷ i ∷ []) =
    if t == Tag.enum_value then Option.map enum_value (get_elem? en.value i) else none
resolve_enum en (t ∷ i ∷ u ∷ rest) = none

resolve_service : ServiceDescriptorProto → SourcePath → Option Element
resolve_service svc [] = some (service svc)
resolve_service svc (t ∷ []) = none
resolve_service svc (t ∷ i ∷ []) =
    if t == Tag.service_method then Option.map method (get_elem? svc.method i) else none
resolve_service svc (t ∷ i ∷ u ∷ rest) = none

-- An element of a list that has no parts.
resolve_leaf : {A : Type 0} → (A → Element) → List A → ℕ → SourcePath → Option Element
resolve_leaf f xs i [] = Option.map f (get_elem? xs i)
resolve_leaf f xs i (t ∷ rest) = none

resolve_in :
    {A : Type 0} → (A → SourcePath → Option Element) → Option A → SourcePath → Option Element
resolve_in f none rest = none
resolve_in f (some x) rest = f x rest

mutual
  -- The descriptor at a path that begins in a message.
  pub resolve_message : DescriptorProto → SourcePath → Option Element
  resolve_message (descriptor_proto md nested) [] = some (message (descriptor_proto md nested))
  resolve_message (descriptor_proto md nested) (t ∷ []) = none
  resolve_message (descriptor_proto md nested) (t ∷ i ∷ rest) =
      let inner = resolve_messages nested i rest in
      if t == Tag.message_field
      then resolve_leaf field md.field i rest
      else if t == Tag.message_oneof_decl
      then resolve_leaf oneof md.oneof_decl i rest
      else if t == Tag.message_nested_type
      then inner
      else if t == Tag.message_enum_type
      then resolve_in resolve_enum (get_elem? md.enum_type i) rest
      else if t == Tag.message_extension
      then resolve_leaf field md.extension i rest
      else none

  pub resolve_messages : DescriptorProtos → ℕ → SourcePath → Option Element
  resolve_messages nil i rest = none
  resolve_messages (cons msg msgs) zero rest = resolve_message msg rest
  resolve_messages (cons msg msgs) (suc i) rest = resolve_messages msgs i rest

-- The descriptor at a path of a file.
pub resolve : FileDescriptorProto → SourcePath → Option Element
unfolding resolve_message resolve_leaf resolve_in resolve_enum resolve_service
resolve file [] = none
resolve file (t ∷ []) = none
resolve file (t ∷ i ∷ rest) =
    if t == Tag.file_message_type
    then resolve_messages file.message_type i rest
    else if t == Tag.file_enum_type
    then resolve_in resolve_enum (get_elem? file.enum_type i) rest
    else if t == Tag.file_extension
    then resolve_leaf field file.extension i rest
    else if t == Tag.file_service
    then resolve_in resolve_service (get_elem? file.service i) rest
    else none

-- Below `path`, the visit's path leads to its element by `r`.
abbrev LeadsBy : SourcePath → (SourcePath → Option Element) → Visit → Type 0
LeadsBy path r v = (rest : SourcePath) × (v.1 ≡ path ++ rest) × (r rest ≡ some v.2)

All-append : (P : Visit → Type 0) (xs ys : List Visit) → All P xs → All P ys → All P (xs ++ ys)
All-append P [] ys h k = k
All-append P (x ∷ xs) ys h k = (h.0, All-append P xs ys h.1 k)

abbrev each : {A : Type 0} → (ℕ → A → List Visit) → ℕ → List A → List Visit
each = walk_each [] ◌++◌ true note none

All-each :
    {A : Type 0} (P : Visit → Type 0) (f : ℕ → A → List Visit) (k : ℕ) (xs : List A)
    → ((i j : ℕ) (x : A) → j ≡ k + i → get_elem? xs i ≡ some x → All P (f j x))
    → All P (each f k xs)
unfolding walk_each
All-each P f k [] h = tt
All-each P f k (x ∷ xs) h =
    All-append P (f k x) _ (h 0 k x (omega arith) refl)
      (All-each P f (suc k) xs (λ i j y e g. h (suc i) j y (omega arith) g))

-- Lists of elements with no parts, each visited at its index.
leaves :
    {A : Type 0} (name : A → String) (con : A → Element) (path : SourcePath) (tag : ℕ)
    (r : SourcePath → Option Element) (xs : List A)
    → ((i : ℕ) (x : A) → get_elem? xs i ≡ some x → r (tag ∷ i ∷ []) ≡ some (con x))
    → All
        (LeadsBy path r)
        (each (λ i x. visit [] ◌++◌ true note none (name x) (path ++ (tag ∷ i ∷ [])) (con x)) 0 xs)
unfolding visit
leaves name con path tag r xs h =
    All-each (LeadsBy path r) _ 0 xs
      λ i j x e g. let e' : j ≡ i = omega arith in ((tag ∷ j ∷ [], refl, h j x (rw e' g)), tt)

-- What lies below the element at an index lies below the list's owner.
lift_leads :
    (path : SourcePath) (tag i : ℕ) (r r' : SourcePath → Option Element)
    → ((rest : SourcePath) → r (tag ∷ i ∷ rest) ≡ r' rest)
    → (vs : List Visit) → All (LeadsBy (path ++ (tag ∷ i ∷ [])) r') vs
    → All (LeadsBy path r) vs
lift_leads path tag i r r' h vs =
    All-map (λ v w. (tag ∷ i ∷ w.0, w.1 ∙ append_assoc path (tag ∷ i ∷ []) w.0, h w.0 ∙ w.2)) vs

enum_leads :
    (prefix : String) (path : SourcePath) (en : EnumDescriptorProto)
    → All (LeadsBy path (resolve_enum en)) (walk_enum [] ◌++◌ true note none prefix path en)
unfolding walk_enum resolve_enum
enum_leads prefix path en = (
  ([], sym (append-nil path), refl),
  All-append _ _ []
      (leaves _ enum_value path Tag.enum_value (resolve_enum en) en.value
        (λ i x g. ap (Option.map enum_value) g))
      tt,
)

service_leads :
    (prefix : String) (path : SourcePath) (svc : ServiceDescriptorProto)
    → All (LeadsBy path (resolve_service svc)) (walk_service [] ◌++◌ true note none prefix path svc)
unfolding walk_service resolve_service
service_leads prefix path svc = (
  ([], sym (append-nil path), refl),
  All-append _ _ []
      (leaves _ method path Tag.service_method (resolve_service svc) svc.method
        (λ i x g. ap (Option.map method) g))
      tt,
)

-- Lists of enums or services, whose elements have parts.
branches :
    {A : Type 0} (f : SourcePath → A → List Visit) (r : A → SourcePath → Option Element)
    → ((path : SourcePath) (x : A) → All (LeadsBy path (r x)) (f path x))
    → (path : SourcePath) (tag : ℕ) (outer : SourcePath → Option Element) (xs : List A)
    → ((i : ℕ) (x : A)
        → get_elem? xs i ≡ some x
        → (rest : SourcePath) → outer (tag ∷ i ∷ rest) ≡ r x rest)
    → All (LeadsBy path outer) (each (λ i x. f (path ++ (tag ∷ i ∷ [])) x) 0 xs)
branches f r lead path tag outer xs h = All-each (LeadsBy path outer) _ 0 xs λ i j x e g.
    let e' : j ≡ i = omega arith in
    lift_leads path tag j outer (r x) (h j x (rw e' g)) _ (lead (path ++ (tag ∷ j ∷ [])) x)

-- The same for the nested messages from index `k` on.
abbrev LeadsFrom : SourcePath → ℕ → ℕ → DescriptorProtos → Visit → Type 0
LeadsFrom path tag k msgs v =
    (i : ℕ) × (rest : SourcePath) × (v.1 ≡ path ++ (tag ∷ (k + i) ∷ rest))
    × (resolve_messages msgs i rest ≡ some v.2)

mutual
  unfolding walk_message walk_fields leave extend resolve_message resolve_leaf resolve_in

  message_leads :
      (prefix : String) (path : SourcePath) (msg : DescriptorProto)
      → All
          (LeadsBy path (resolve_message msg))
          (walk_message [] ◌++◌ true note none prefix path msg)
  message_leads prefix path (descriptor_proto md nested) =
      let r = resolve_message (descriptor_proto md nested) in
      (
        ([], sym (append-nil path), refl),
        All-append (LeadsBy path r) _ _
            (leaves _ field path Tag.message_field r md.field (λ i x g. ap (Option.map field) g))
            (All-append (LeadsBy path r) _ _
              (leaves _ oneof path Tag.message_oneof_decl r md.oneof_decl
                (λ i x g. ap (Option.map oneof) g))
              (All-append (LeadsBy path r) _ _
                (All-map
                  (λ v w. (
                    Tag.message_nested_type ∷ w.0 ∷ w.1,
                    w.2 ∙ ap (λ (j : ℕ). path ++ (Tag.message_nested_type ∷ j ∷ w.1)) (omega arith),
                    w.3,
                  ))
                  _ (messages_lead _ path Tag.message_nested_type 0 nested))
                (All-append (LeadsBy path r) _ _
                  (branches (walk_enum [] ◌++◌ true note none _) resolve_enum (enum_leads _) path
                    Tag.message_enum_type r md.enum_type
                    (λ i x g rest. ap (λ o. resolve_in resolve_enum o rest) g))
                  (All-append (LeadsBy path r) _ []
                    (leaves _ field path Tag.message_extension r md.extension
                      (λ i x g. ap (Option.map field) g))
                    tt)))),
      )

  messages_lead :
      (prefix : String) (path : SourcePath) (tag k : ℕ) (msgs : DescriptorProtos)
      → All
          (LeadsFrom path tag k msgs)
          (walk_messages [] ◌++◌ true note none prefix path tag k msgs)
  messages_lead prefix path tag k nil = tt
  messages_lead prefix path tag k (cons msg msgs) =
      All-append (LeadsFrom path tag k (cons msg msgs)) _ _
        (All-map
          (λ v w. (
            0,
            w.0,
            w.1
                ∙ append_assoc path (tag ∷ k ∷ []) w.0
                ∙ ap (λ (j : ℕ). path ++ (tag ∷ j ∷ w.0)) (omega arith),
            w.2,
          ))
          _ (message_leads prefix (path ++ (tag ∷ k ∷ [])) msg))
        (All-map
          (λ v w. (suc w.0, w.1, w.2 ∙ ap (λ (j : ℕ). path ++ (tag ∷ j ∷ w.1)) (omega arith), w.3))
          _ (messages_lead prefix path tag (suc k) msgs))

-- With paths, every descriptor that the walk of a file visits stands at the path that it is
-- visited with: the path's field numbers and indices, followed from the file, lead to it.
pub resolve-walk_file :
    (file : FileDescriptorProto)
    → All (λ v. resolve file v.1 ≡ some v.2) (descriptor_protos_with_path [] ◌++◌ note file)
unfolding descriptor_protos_with_path resolve
resolve-walk_file file =
    let at_root = λ (v : Visit) (w : LeadsBy [] (resolve file) v). ap (resolve file) w.1 ∙ w.2 in
    All-map at_root _ (
      All-append (LeadsBy [] (resolve file)) _ _
        (All-map
          (λ v w. (
            Tag.file_message_type ∷ w.0 ∷ w.1,
            w.2 ∙ ap (λ (j : ℕ). Tag.file_message_type ∷ j ∷ w.1) (omega arith),
            w.3,
          ))
          _ (messages_lead _ [] Tag.file_message_type 0 file.message_type))
        (All-append (LeadsBy [] (resolve file)) _ _
          (branches (walk_enum [] ◌++◌ true note none _) resolve_enum (enum_leads _) []
            Tag.file_enum_type (resolve file) file.enum_type
            (λ i x g rest. ap (λ o. resolve_in resolve_enum o rest) g))
          (All-append (LeadsBy [] (resolve file)) _ _
            (leaves _ field [] Tag.file_extension (resolve file) file.extension
              (λ i x g. ap (Option.map field) g))
            (branches (walk_service [] ◌++◌ true note none _) resolve_service (service_leads _) []
              Tag.file_service (resolve file) file.service
              (λ i x g rest. ap (λ o. resolve_in resolve_service o rest) g)))))
