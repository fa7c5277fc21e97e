-- ===== src/Linker/Symbols/Extensions.antt =====
-- linker/symbols.go: extension numbers, extension declarations, and the two lookups.
pub mod Unique
use Prim.Native.String.{◌++◌ as ◌<>◌}
use text.Mathlib.Text.{starts_with}
use protocompile.Prelude.{
  ℕ, String, Bool, true, false, not, ◌&&◌, Option, none, some, List, [], ◌∷◌,
}
use protocompile.Prelude.{if◌then◌else◌, str_eq}
use protocompile.Prelude.Int.{ℤ, ◌==ℤ◌}
use protocompile.Source.{SourceSpan}
use protocompile.Diagnostic.{
  Message, extendee_mismatch, missing_package, extension_defined, declaration_defined,
}
use protocompile.Reporter.{Error, Handler, handle_errorf}
use protocompile.Linker.Symbols.{ExtDecl, ExtNumber, PackageSymbols, Symbols, find, find_ext, put}
use protocompile.Linker.Symbols.Names.{Outcome, get_package}

module _ {R : Type 0} where
  -- A report, after which the operation returns what the handler returned.
  unfoldable pub refuse : Symbols → Handler R → SourceSpan → Message → Outcome R (Unit {0})
  refuse s h span m =
      let (e, h') = handle_errorf h span m in
      record { value = tt; error = e; table = s; handler = h' }

  -- `packageSymbols.addExtension` on the node at `pkg`.
  unfoldable pub add_number :
      Symbols → String → String → ℤ → SourceSpan → Handler R → Outcome R (Unit {0})
  unfolding refuse
  add_number s pkg extendee tag span h =
      let node = s.packages pkg in
      let number : ExtNumber = record { extendee = extendee; tag = tag } in
      elim (find_ext node.exts number) [
        | some existing ↦ refuse s h span (extension_defined tag extendee existing.start)
        | none ↦ record {
          value = tt;
          error = none;
          table = put s pkg (record node { exts = (number, span) ∷ node.exts });
          handler = h;
        }
      ]

  -- `AddExtension`
  unfoldable pub add_extension :
      Symbols → String → String → ℤ → SourceSpan → Handler R → Outcome R (Unit {0})
  unfolding add_number refuse
  add_extension s pkg extendee tag span h =
      if not (str_eq pkg "") && not (starts_with extendee (pkg <> "."))
      then refuse s h span (extendee_mismatch extendee pkg)
      else elim (get_package s pkg true) [
        | none ↦ refuse s h span (missing_package pkg)
        | some node ↦ add_number s node extendee tag span h
      ]

  -- `AddExtensionDeclaration`
  unfoldable pub add_extension_declaration :
      Symbols → String → String → ℤ → SourceSpan → Handler R → Outcome R (Unit {0})
  unfolding refuse
  add_extension_declaration s extension extendee tag span h = elim (find s.ext_decls extension) [
    | some existing ↦
        if str_eq existing.extendee extendee && existing.tag ==ℤ tag
        then record { value = tt; error = none; table = s; handler = h }
        else refuse s h span
            (declaration_defined extension existing.extendee existing.tag existing.span.start)
    | none ↦ record {
      value = tt;
      error = none;
      table = record s {
        ext_decls =
            (extension, record { span = span; extendee = extendee; tag = tag }) ∷ s.ext_decls;
      };
      handler = h;
    }
  ]

-- The node that the lookups read: `getPackage` never returns nil with `exact` false.
unfoldable pub nearest : Symbols → String → PackageSymbols
nearest s name = elim (get_package s name false) [ none ↦ s.packages "" | some p ↦ s.packages p ]

-- `Lookup`
unfoldable pub lookup : Symbols → String → Option SourceSpan
unfolding nearest
lookup s name = elim (find (nearest s name).symbols name) [ none ↦ none | some e ↦ some e.span ]

-- `LookupExtension`
unfoldable pub lookup_extension : Symbols → String → ℤ → Option SourceSpan
unfolding nearest
lookup_extension s message tag =
    find_ext (nearest s message).exts (record { extendee = message; tag = tag })
