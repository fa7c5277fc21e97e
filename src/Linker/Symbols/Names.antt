-- ===== src/Linker/Symbols/Names.antt =====
-- linker/symbols.go: `nameEnumerator`, and the walks of the trie along a package name.
use Prim.Native.Char.{code}
use Prim.Native.String.{◌++◌ as ◌<>◌}
use protocompile.Prelude.{String, Bool, true, false, Option, none, some, List, [], ◌∷◌, ◌==◌, ◌||◌}
use protocompile.Prelude.{if◌then◌else◌, str_eq}
use protocompile.Source.{SourceSpan}
use protocompile.Diagnostic.{Message, symbol_defined}
use protocompile.Reporter.{Error, Handler, handle_errorf}
use protocompile.Linker.Symbols.{
  SymbolEntry, PackageSymbols, Symbols, no_symbols, find, has, put, pos_less,
}

-- The names that `nameEnumerator` returns in turn, `seen` being what stands before `start`.
unfoldable pub names_from : String → String → List String
names_from seen String.[] = seen ∷ []
names_from seen (String.◌∷◌ c rest) =
    let more = names_from (seen <> String.◌∷◌ c String.[]) rest in
    if code c == b'.' then seen ∷ more else more

unfoldable pub enumerate : String → List String
unfolding names_from
enumerate name = names_from "" name

-- The text of `reportSymbolCollision` after the position.
unfoldable pub collision_suffix : Bool → String
collision_suffix true =
    "; protobuf uses C++ scoping rules for enum values, so they exist in the scope enclosing the enum"
collision_suffix false = ""

unfoldable pub package_text : Bool → String
package_text true = " as a package"
package_text false = ""

-- `reportSymbolCollision`: the later of the two places is reported, with the earlier in the text.
unfoldable pub collision_report : SourceSpan → String → Bool → SymbolEntry → SourceSpan × Message
unfolding pos_less collision_suffix package_text
collision_report span fqn addition_is_enum_val existing =
    let swap = pos_less span.start existing.span.start in
    let orig = if swap then span else existing.span in
    let conflict = if swap then existing.span else span in
    (
      conflict,
      symbol_defined fqn (package_text existing.is_package) orig.start
          (collision_suffix (addition_is_enum_val || existing.is_enum_value)),
    )

-- What an operation returns and leaves behind: a value, the returned error, the table and the handler.
pub record Outcome (R A : Type 0) : Type 0 where
  pub value : A
  pub error : Option Error
  pub table : Symbols
  pub handler : Handler R

module _ {R : Type 0} where
  -- The branch of `importPackage` for a name that is in `symbols`.
  existing_package :
      Symbols → String → SourceSpan → String → SymbolEntry → Handler R → Outcome R (Option String)
  unfolding collision_report
  existing_package s cur pkg_span pkg existing h =
      let (span, m) = collision_report pkg_span pkg false existing in
      let (e, h') = handle_errorf h span m in
      if existing.is_package
      then record {
        value = if has (s.packages cur).children pkg then some pkg else none;
        error = none;
        table = s;
        handler = h;
      }
      else record { value = none; error = e; table = s; handler = h' }

  -- `importPackage` on the node at `cur`; the returned pointer is the child's name, nil `none`.
  unfoldable pub import_package :
      Symbols → String → SourceSpan → String → Handler R → Outcome R (Option String)
  unfolding existing_package
  import_package s cur pkg_span pkg h = elim (find (s.packages cur).symbols pkg) [
    | some existing ↦ existing_package s cur pkg_span pkg existing h
    | none ↦
        let entry : SymbolEntry = record {
          span = pkg_span;
          is_enum_value = false;
          is_package = true;
        } in
        let node = s.packages cur in
        let node' : PackageSymbols = record node {
          symbols = (pkg, entry) ∷ node.symbols;
          children = pkg ∷ node.children;
        } in
        record {
          value = some pkg;
          error = none;
          table = put (put s pkg no_symbols) cur node';
          handler = h;
        }
  ]

  -- The loop of `importPackages`, from the node at `cur`.
  unfoldable pub import_names :
      Symbols → String → SourceSpan → List String → Handler R → Outcome R (Option String)
  import_names s cur pkg_span [] h = record {
    value = some cur;
    error = none;
    table = s;
    handler = h;
  }
  import_names s cur pkg_span (p ∷ names) h =
      let o = import_package s cur pkg_span p h in
      elim o.error [
        | some e ↦ record { value = none; error = some e; table = o.table; handler = o.handler }
        | none ↦ elim o.value [
          | none ↦ record { value = none; error = none; table = o.table; handler = o.handler }
          | some child ↦ import_names o.table child pkg_span names o.handler
        ]
      ]

  -- `importPackages`
  unfoldable pub import_packages :
      Symbols → SourceSpan → String → Handler R → Outcome R (Option String)
  unfolding import_names enumerate
  import_packages s pkg_span pkg h =
      if str_eq pkg ""
      then record { value = some ""; error = none; table = s; handler = h }
      else import_names s "" pkg_span (enumerate pkg) h

-- The loop of `getPackage`.
unfoldable pub get_names : Symbols → String → List String → Bool → Option String
get_names s cur [] exact = some cur
get_names s cur (p ∷ names) exact =
    let next = get_names s p names exact in
    if has (s.packages cur).children p then next else if exact then none else some cur

-- `getPackage`
unfoldable pub get_package : Symbols → String → Bool → Option String
unfolding get_names enumerate
get_package s pkg exact = if str_eq pkg "" then some "" else get_names s "" (enumerate pkg) exact
