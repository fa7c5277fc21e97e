-- ===== src/Linker/Symbols/Import.antt =====
-- linker/symbols.go: `Import`, and the two passes that check a file's symbols and commit them.
pub mod Atomic
use protocompile.Prelude.{ℕ, String, Bool, true, false, Option, none, some, List, [], ◌∷◌, ◌++◌}
use protocompile.Prelude.{if◌then◌else◌, str_eq}
use protocompile.Prelude.Int.{ℤ}
use protocompile.Source.{SourceSpan}
use protocompile.Reporter.{Error, Handler, error}
use protocompile.Reporter.Check.{Report, run}
use protocompile.Linker.Symbols.{SymbolEntry, PackageSymbols, Symbols, find, has_file, put}
use protocompile.Linker.Symbols.Names.{Outcome, collision_report, import_packages}
use protocompile.Linker.Symbols.Extensions.{add_extension}

-- A descriptor of a file, with the span that `sourceSpanFor` or `nameSpan` gives.
pub record Decl : Type 0 where
  pub full_name : String
  pub span : SourceSpan
  pub is_enum_value : Bool

-- An extension: the package and the name of its extendee, its number, and the number's span.
pub record Extension : Type 0 where
  pub extendee_package : String
  pub extendee : String
  pub number : ℤ
  pub span : SourceSpan

-- A file descriptor, its descriptors and extensions in the order of `walk.Descriptors`.
-- `has_source` tells a `result` with source from any other file.
pub record FileSymbols : Type 0 where
  pub id : ℕ
  pub package_name : String
  pub package_span : SourceSpan
  pub has_source : Bool
  pub decls : List Decl
  pub extensions : List Extension

mutual
  -- A file with its imports.
  pub data File : Type 0 where
    file : FileSymbols → Files → File

  pub data Files : Type 0 where
    no_files : Files
    more_files : File → Files → Files

abbrev pub entry_of : Decl → SymbolEntry
entry_of d = record { span = d.span; is_enum_value = d.is_enum_value; is_package = false }

-- A report if the name is among the symbols.
unfoldable pub collisions_with : List (String × SymbolEntry) → Decl → List Report
collisions_with symbols d = elim (find symbols d.full_name) [
  | none ↦ []
  | some existing ↦ collision_report d.span d.full_name d.is_enum_value existing ∷ []
]

-- `checkFileLocked`
unfoldable pub check_file : List (String × SymbolEntry) → List Decl → List Report
unfolding collisions_with
check_file symbols [] = []
check_file symbols (d ∷ decls) = collisions_with symbols d ++ check_file symbols decls

-- `checkResultLocked`; `result_syms` holds the names of the file so far.
unfoldable pub check_result :
    List (String × SymbolEntry) → List (String × SymbolEntry) → List Decl → List Report
unfolding collisions_with
check_result symbols result_syms [] = []
check_result symbols result_syms (d ∷ decls) =
    collisions_with symbols d
    ++ (collisions_with result_syms d
        ++ check_result symbols ((d.full_name, entry_of d) ∷ result_syms) decls)

-- The writes of `commitFileLocked` to `symbols`.
unfoldable pub commit_decls : List (String × SymbolEntry) → List Decl → List (String × SymbolEntry)
commit_decls symbols [] = symbols
commit_decls symbols (d ∷ decls) = commit_decls ((d.full_name, entry_of d) ∷ symbols) decls

-- `commitFileLocked`
unfoldable pub commit_file : PackageSymbols → FileSymbols → PackageSymbols
unfolding commit_decls
commit_file node f = record node {
  symbols = commit_decls node.symbols f.decls;
  files = f.id ∷ node.files;
}

module _ {R : Type 0} where
  -- After the first pass: nothing is written if a call returned an error or `handler.Error` is not nil.
  unfoldable pub commit_checked :
      Symbols → String → FileSymbols → Option Error × Handler R → Outcome R Bool
  unfolding commit_file
  commit_checked s pkg f (some e, h) = record {
    value = false;
    error = some e;
    table = s;
    handler = h;
  }
  commit_checked s pkg f (none, h) = elim (error h) [
    | some e ↦ record { value = false; error = some e; table = s; handler = h }
    | none ↦ record {
      value = true;
      error = none;
      table = put s pkg (commit_file (s.packages pkg) f);
      handler = h;
    }
  ]

  -- `packageSymbols.importFile` and `packageSymbols.importResult`
  unfoldable pub import_symbols : Symbols → String → FileSymbols → Handler R → Outcome R Bool
  unfolding check_file check_result
  import_symbols s pkg f h =
      let node = s.packages pkg in
      let reports =
        if f.has_source
        then check_result node.symbols [] f.decls
        else check_file node.symbols f.decls in
      if has_file node.files f.id
      then record { value = false; error = none; table = s; handler = h }
      else commit_checked s pkg f (run h reports)

  -- The second walk, which adds the extensions until one is refused.
  unfoldable pub add_extensions : Symbols → List Extension → Handler R → Outcome R (Unit {0})
  add_extensions s [] h = record { value = tt; error = none; table = s; handler = h }
  add_extensions s (x ∷ xs) h =
      let o = add_extension s x.extendee_package x.extendee x.number x.span h in
      elim o.error [ some e ↦ o | none ↦ add_extensions o.table xs o.handler ]

  -- `importFileWithExtensions` and `importResultWithExtensions`
  unfoldable pub import_with_extensions :
      Symbols → String → FileSymbols → Handler R → Outcome R (Unit {0})
  unfolding import_symbols add_extensions
  import_with_extensions s pkg f h =
      let o = import_symbols s pkg f h in
      if o.value
      then add_extensions o.table f.extensions o.handler
      else record { value = tt; error = o.error; table = o.table; handler = o.handler }

  -- `Symbols.importResult`, which takes a `result` and always calls `packageSymbols.importResult`:
  -- the names are checked against each other too, with or without source.
  unfoldable pub import_result : Symbols → FileSymbols → Handler R → Outcome R (Unit {0})
  unfolding import_symbols
  import_result s f h =
      let o = import_packages s f.package_span f.package_name h in
      elim o.value [
        | none ↦ record { value = tt; error = o.error; table = o.table; handler = o.handler }
        | some pkg ↦
            let r = import_symbols o.table pkg (record f { has_source = true }) o.handler in
            record { value = tt; error = r.error; table = r.table; handler = r.handler }
      ]

  -- The end of `Import`, once the imports are in.
  import_after : FileSymbols → String → Outcome R (Unit {0}) → Outcome R (Unit {0})
  unfolding import_with_extensions
  import_after f pkg o = elim o.error [
    | some e ↦ o
    | none ↦ import_with_extensions o.table pkg f o.handler
  ]

  unfoldable mutual
    unfolding import_after

    -- `Import`, for a table that is not nil.
    pub import_file : File → Symbols → Handler R → Outcome R (Unit {0})
    import_file (file f imports) s h =
        let o = import_packages s f.package_span f.package_name h in
        let pkgs = import_files imports o.table o.handler in
        elim o.value [
          | none ↦ record { value = tt; error = o.error; table = o.table; handler = o.handler }
          | some pkg ↦
              if has_file (o.table.packages pkg).files f.id
              then record { value = tt; error = none; table = o.table; handler = o.handler }
              else import_after f pkg pkgs
        ]

    -- The loop over the imports.
    pub import_files : Files → Symbols → Handler R → Outcome R (Unit {0})
    import_files no_files s h = record { value = tt; error = none; table = s; handler = h }
    import_files (more_files f fs) s h =
        let o = import_file f s h in
        elim o.error [ some e ↦ o | none ↦ import_files fs o.table o.handler ]
