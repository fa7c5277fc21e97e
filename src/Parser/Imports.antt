-- ===== src/Parser/Imports.antt =====
-- parser/validate.go: `validateImports` and `validateExportLocal`.
pub mod Valid
use protocompile.Prelude.{String, Bool, false, not, ◌&&◌, Option, none, some, List, [], ◌∷◌}
use protocompile.Prelude.{if◌then◌else◌, str_eq}
use protocompile.Source.{SourcePos, SourceSpan}
use protocompile.Diagnostic.{import_option_edition, already_imported, visibility_edition}
use protocompile.Descriptor.{
  KeywordNode, DeclNode, import_node, message_node, enum_node, group_node, oneof_node, extend_node,
  other_node,
}
use protocompile.Descriptor.{DeclNodes, no_decls, decl, FileNode}
use protocompile.Reporter.Check.{Check, done, report, ◌>>◌}

-- `fileNode.Edition != nil && … == "2024"`
unfoldable pub is_2024 : FileNode → Bool
is_2024 file = elim file.edition [ none ↦ false | some e ↦ str_eq e "2024" ]

-- `imp.Modifier != nil && imp.Modifier.Val == "option"`
unfoldable pub is_option_modifier : Option KeywordNode → Bool
is_option_modifier none = false
is_option_modifier (some k) = str_eq k.val "option"

unfoldable pub modifier_span : Option KeywordNode → SourceSpan → SourceSpan
modifier_span none default = default
modifier_span (some k) default = k.span

-- The map `imports`.
unfoldable pub find_import : List (String × SourcePos) → String → Option SourcePos
find_import [] name = none
find_import ((n, pos) ∷ imports) name = if str_eq n name then some pos else find_import imports name

-- The loop of `validateImports`; both reports end it.
unfoldable pub validate_import_decls :
    Bool → List (String × SourcePos) → DeclNodes → Check (Unit {0})
unfolding is_option_modifier modifier_span find_import
validate_import_decls supports imports no_decls = done
validate_import_decls supports imports (decl (import_node name modifier info) decls) =
    let rest = validate_import_decls supports ((name, info.start) ∷ imports) decls in
    if is_option_modifier modifier && not supports
    then report (modifier_span modifier info) import_option_edition
    else elim (find_import imports name) [
      | some prev ↦ report info (already_imported name prev)
      | none ↦ rest
    ]
validate_import_decls supports imports (decl (message_node v body) decls) =
    validate_import_decls supports imports decls
validate_import_decls supports imports (decl (enum_node v) decls) =
    validate_import_decls supports imports decls
validate_import_decls supports imports (decl (group_node body) decls) =
    validate_import_decls supports imports decls
validate_import_decls supports imports (decl (oneof_node body) decls) =
    validate_import_decls supports imports decls
validate_import_decls supports imports (decl (extend_node body) decls) =
    validate_import_decls supports imports decls
validate_import_decls supports imports (decl other_node decls) =
    validate_import_decls supports imports decls

-- `validateImports`
unfoldable pub validate_imports : Option FileNode → Check (Unit {0})
unfolding validate_import_decls is_2024
validate_imports none = done
validate_imports (some file) = validate_import_decls (is_2024 file) [] file.decls

unfoldable mutual
  -- `validateExportLocalNode`; what a group, a oneof or an extend contains is not looked at.
  pub validate_export_local_node : DeclNode → Check (Unit {0})
  validate_export_local_node (message_node (some k) body) = report k.span (visibility_edition k.val)
  validate_export_local_node (message_node none body) = validate_export_local_nodes body
  validate_export_local_node (enum_node (some k)) = report k.span (visibility_edition k.val)
  validate_export_local_node (enum_node none) = done
  validate_export_local_node (import_node name modifier info) = done
  validate_export_local_node (group_node body) = done
  validate_export_local_node (oneof_node body) = done
  validate_export_local_node (extend_node body) = done
  validate_export_local_node other_node = done

  -- `validateExportLocalInMessageBody`, and the loop of `validateExportLocal`.
  pub validate_export_local_nodes : DeclNodes → Check (Unit {0})
  validate_export_local_nodes no_decls = done
  validate_export_local_nodes (decl node decls) =
      validate_export_local_node node >> validate_export_local_nodes decls

-- `validateExportLocal`
unfoldable pub validate_export_local : Option FileNode → Check (Unit {0})
unfolding validate_export_local_nodes is_2024
validate_export_local none = done
validate_export_local (some file) =
    if is_2024 file then done else validate_export_local_nodes file.decls
