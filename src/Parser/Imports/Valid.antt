-- ===== src/Parser/Imports/Valid.antt =====
-- `validateImports` and `validateExportLocal` accept exactly the files that keep the rules.
use protocompile.Prelude.{
  ◌≡◌, ◌≢◌, refl, ◌↔◌, String, Bool, false, not, ◌&&◌, Option, none, some, List, [], ◌∷◌, ◌++◌, All,
  AllPairs, Bool-cases, Option-cases, inl, inr, str_eq, eq_iff,
}
use protocompile.Source.{SourcePos}
use protocompile.Descriptor.{
  KeywordNode, DeclNode, import_node, message_node, enum_node, group_node, oneof_node, extend_node,
  other_node, DeclNodes, no_decls, decl, FileNode,
}
use protocompile.Reporter.Check.{Accepts, >>-Accepts, append-eq-nil}
use protocompile.Parser.Imports.{
  is_2024, is_option_modifier, find_import, validate_import_decls, validate_imports,
  validate_export_local_node, validate_export_local_nodes, validate_export_local,
}

-- An import of a file, as it is declared.
pub record ImportDecl : Type 0 where
  pub name : String
  pub modifier : Option KeywordNode

-- The imports among the declarations.
abbrev pub imports_of : DeclNodes → List ImportDecl
imports_of no_decls = []
imports_of (decl (import_node name modifier info) decls) =
    record { name = name; modifier = modifier } ∷ imports_of decls
imports_of (decl (message_node v body) decls) = imports_of decls
imports_of (decl (enum_node v) decls) = imports_of decls
imports_of (decl (group_node body) decls) = imports_of decls
imports_of (decl (oneof_node body) decls) = imports_of decls
imports_of (decl (extend_node body) decls) = imports_of decls
imports_of (decl other_node decls) = imports_of decls

-- `import option` needs edition 2024.
abbrev pub ModifierAllowed : Bool → ImportDecl → Type 0
ModifierAllowed supports i = (is_option_modifier i.modifier && not supports) ≡ false

abbrev pub DifferentFiles : ImportDecl → ImportDecl → Type 0
DifferentFiles a b = a.name ≢ b.name

-- The file is not imported yet.
abbrev IsFresh : List (String × SourcePos) → ImportDecl → Type 0
IsFresh imports i = find_import imports i.name ≡ none

IsFresh-cons :
    (name : String) (p : SourcePos) (imports : List (String × SourcePos)) (i : ImportDecl)
    → IsFresh ((name, p) ∷ imports) i ↔ ((name ≢ i.name) × IsFresh imports i)
unfolding find_import
IsFresh-cons name p imports i = elim (Bool-cases (str_eq name i.name)) [
  | inl e ↦ rw e (λ h. cc, λ h. absurd (h.0 ((eq_iff name i.name).0 e)))
  | inr e ↦ rw e (λ h. ((λ q. cc ((eq_iff name i.name).1 q)), h), λ h. h.1)
]

add_import :
    (name : String) (p : SourcePos) (imports : List (String × SourcePos)) (is : List ImportDecl)
    → All (IsFresh ((name, p) ∷ imports)) is
      ↔ (All (λ i. name ≢ i.name) is × All (IsFresh imports) is)
add_import name p imports [] = (λ h. (tt, tt), λ h. tt)
add_import name p imports (i ∷ is) =
    let (to, from) = add_import name p imports is in
    let (one, one') = IsFresh-cons name p imports i in
    (
      λ h. (((one h.0).0, (to h.1).0), ((one h.0).1, (to h.1).1)),
      λ h. (one' (h.0.0, h.1.0), from (h.0.1, h.1.1)),
    )

abbrev DeclsValid : Bool → List (String × SourcePos) → List ImportDecl → Type 0
DeclsValid supports imports is =
    All (ModifierAllowed supports) is × All (IsFresh imports) is × AllPairs DifferentFiles is

validate_import_decls-Accepts :
    (supports : Bool) (imports : List (String × SourcePos)) (decls : DeclNodes)
    → Accepts (validate_import_decls supports imports decls)
      ↔ DeclsValid supports imports (imports_of decls)
unfolding validate_import_decls
validate_import_decls-Accepts supports imports no_decls = (λ h. (tt, tt, tt), λ h. refl)
validate_import_decls-Accepts supports imports (decl (import_node name modifier info) decls) =
    let (more, more') =
      validate_import_decls-Accepts supports ((name, info.start) ∷ imports) decls in
    let (split, join) = add_import name info.start imports (imports_of decls) in
    elim (Bool-cases (is_option_modifier modifier && not supports)) [
      | inl bad ↦ rw bad (λ h. cc, λ h. cc)
      | inr ok ↦ elim (Option-cases (find_import imports name)) [
        | inr (p, e) ↦ rw (ok, e) (λ h. cc, λ h. cc)
        | inl e ↦
            rw (ok, e)
              (
                λ h. let d = more h in ((refl, d.0), (refl, (split d.1).1), ((split d.1).0, d.2)),
                λ v. more' (v.0.1, join (v.2.0, v.1.1), v.2.1),
              )
      ]
    ]
validate_import_decls-Accepts supports imports (decl (message_node v body) decls) =
    validate_import_decls-Accepts supports imports decls
validate_import_decls-Accepts supports imports (decl (enum_node v) decls) =
    validate_import_decls-Accepts supports imports decls
validate_import_decls-Accepts supports imports (decl (group_node body) decls) =
    validate_import_decls-Accepts supports imports decls
validate_import_decls-Accepts supports imports (decl (oneof_node body) decls) =
    validate_import_decls-Accepts supports imports decls
validate_import_decls-Accepts supports imports (decl (extend_node body) decls) =
    validate_import_decls-Accepts supports imports decls
validate_import_decls-Accepts supports imports (decl other_node decls) =
    validate_import_decls-Accepts supports imports decls

all-IsFresh : (is : List ImportDecl) → All (IsFresh []) is
unfolding find_import
all-IsFresh [] = tt
all-IsFresh (i ∷ is) = (refl, all-IsFresh is)

-- The rules on imports, for a result that may have no AST.
abbrev pub ImportsValid : Option FileNode → Type 0
ImportsValid none = Unit
ImportsValid (some file) =
    All (ModifierAllowed (is_2024 file)) (imports_of file.decls)
    × AllPairs DifferentFiles (imports_of file.decls)

-- `validateImports` reports nothing exactly when the result has no AST, or the file imports no file
-- twice and has no `import option` unless its edition is 2024.
pub validate_imports-Accepts :
    (ast : Option FileNode) → Accepts (validate_imports ast) ↔ ImportsValid ast
unfolding validate_imports
validate_imports-Accepts none = (λ h. tt, λ h. refl)
validate_imports-Accepts (some file) =
    let (to, from) = validate_import_decls-Accepts (is_2024 file) [] file.decls in
    (λ h. ((to h).0, (to h).2), λ v. from (v.0, all-IsFresh (imports_of file.decls), v.1))

unfoldable mutual
  -- The visibility keywords of the messages and enums that stand in the file or in messages only.
  -- Those inside a group, a oneof or an extend are not among them.
  visibilities_of : DeclNode → List KeywordNode
  visibilities_of (import_node name modifier info) = []
  visibilities_of (message_node none body) = visibilities_in body
  visibilities_of (message_node (some k) body) = k ∷ visibilities_in body
  visibilities_of (enum_node none) = []
  visibilities_of (enum_node (some k)) = k ∷ []
  visibilities_of (group_node body) = []
  visibilities_of (oneof_node body) = []
  visibilities_of (extend_node body) = []
  visibilities_of other_node = []

  pub visibilities_in : DeclNodes → List KeywordNode
  visibilities_in no_decls = []
  visibilities_in (decl node decls) = visibilities_of node ++ visibilities_in decls

mutual
  unfolding validate_export_local_nodes visibilities_in

  node_silent :
      (node : DeclNode) → Accepts (validate_export_local_node node) ↔ (visibilities_of node ≡ [])
  node_silent (import_node name modifier info) = (λ h. refl, λ h. refl)
  node_silent (message_node none body) = nodes_silent body
  node_silent (message_node (some k) body) = (λ h. cc, λ h. cc)
  node_silent (enum_node none) = (λ h. refl, λ h. refl)
  node_silent (enum_node (some k)) = (λ h. cc, λ h. cc)
  node_silent (group_node body) = (λ h. refl, λ h. refl)
  node_silent (oneof_node body) = (λ h. refl, λ h. refl)
  node_silent (extend_node body) = (λ h. refl, λ h. refl)
  node_silent other_node = (λ h. refl, λ h. refl)

  nodes_silent :
      (decls : DeclNodes)
      → Accepts (validate_export_local_nodes decls) ↔ (visibilities_in decls ≡ [])
  nodes_silent no_decls = (λ h. refl, λ h. refl)
  nodes_silent (decl node decls) =
      let (to, from) =
        >>-Accepts (validate_export_local_node node) (validate_export_local_nodes decls) in
      let (one, one') = node_silent node in
      let (more, more') = nodes_silent decls in
      let (split, join) = append-eq-nil (visibilities_of node) (visibilities_in decls) in
      (λ h. join (one (to h).0, more (to h).1), λ h. from (one' (split h).0, more' (split h).1))

-- The rule on visibility keywords that the code keeps: outside edition 2024 there are none, but
-- for those inside a group, a oneof or an extend.
abbrev pub VisibilityValid : Option FileNode → Type 0
VisibilityValid none = Unit
VisibilityValid (some file) = is_2024 file ≡ false → visibilities_in file.decls ≡ []

-- `validateExportLocal` reports nothing exactly when the result has no AST, the file's edition is
-- 2024, or no message or enum that stands in the file, or at any depth in messages only, has a
-- visibility keyword; messages and enums inside a group, a oneof or an extend may have one.
pub validate_export_local-Accepts :
    (ast : Option FileNode) → Accepts (validate_export_local ast) ↔ VisibilityValid ast
unfolding validate_export_local
validate_export_local-Accepts none = (λ h. tt, λ h. refl)
validate_export_local-Accepts (some file) = elim (Bool-cases (is_2024 file)) [
  | inl e ↦ rw e (λ h p. cc, λ h. refl)
  | inr e ↦ let (to, from) = nodes_silent file.decls in rw e (λ h p. to h, λ h. from (h refl))
]
