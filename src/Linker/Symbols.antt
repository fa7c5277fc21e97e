-- ===== src/Linker/Symbols.antt =====
-- linker/symbols.go: the table of symbols, packages and extension numbers. The packages form a trie
-- in which a node is reached by its full name, so a pointer to a `packageSymbols` is that name.
-- Locks are left out: an operation that holds one is a single step.
pub mod Names
pub mod Collisions
pub mod Import
pub mod Extensions
use protocompile.Prelude.{
  ℕ, String, Bool, true, false, ◌||◌, ◌&&◌, Option, none, some, List, [], ◌∷◌,
}
use protocompile.Prelude.{if◌then◌else◌, str_eq, ltb, ◌==◌}
use protocompile.Prelude.Int.{ℤ, ◌==ℤ◌}
use protocompile.Source.{SourcePos, SourceSpan}

-- `symbolEntry`
pub record SymbolEntry : Type 0 where
  pub span : SourceSpan
  pub is_enum_value : Bool
  pub is_package : Bool

-- `extDecl`
pub record ExtDecl : Type 0 where
  pub span : SourceSpan
  pub extendee : String
  pub tag : ℤ

-- `extNumber`
pub record ExtNumber : Type 0 where
  pub extendee : String
  pub tag : ℤ

-- `packageSymbols`: the keys of `children`, the ids of `files`, and the maps `symbols` and `exts`.
pub record PackageSymbols : Type 0 where
  pub children : List String
  pub files : List ℕ
  pub symbols : List (String × SymbolEntry)
  pub exts : List (ExtNumber × SourceSpan)

abbrev pub no_symbols : PackageSymbols
no_symbols = record { children = []; files = []; symbols = []; exts = [] }

-- `Symbols`: the node at each package name, `""` for the root `pkgTrie`, and `extDecls`.
pub record Symbols : Type 0 where
  pub packages : String → PackageSymbols
  pub ext_decls : List (String × ExtDecl)

abbrev pub no_packages : Symbols
no_packages = record { packages = λ name. no_symbols; ext_decls = [] }

-- A map's lookup by name.
unfoldable pub find {ℓ} : {V : Type ℓ} → List (String × V) → String → Option V
find [] name = none
find ((n, v) ∷ rest) name = if str_eq n name then some v else find rest name

unfoldable pub has : List String → String → Bool
has [] name = false
has (n ∷ names) name = str_eq n name || has names name

unfoldable pub has_file : List ℕ → ℕ → Bool
has_file [] id = false
has_file (f ∷ files) id = f == id || has_file files id

unfoldable pub same_number : ExtNumber → ExtNumber → Bool
same_number a b = str_eq a.extendee b.extendee && a.tag ==ℤ b.tag

unfoldable pub find_ext : List (ExtNumber × SourceSpan) → ExtNumber → Option SourceSpan
unfolding same_number
find_ext [] n = none
find_ext ((m, span) ∷ rest) n = if same_number m n then some span else find_ext rest n

-- A write through the pointer to the node at `name`.
unfoldable pub put : Symbols → String → PackageSymbols → Symbols
put s name node = record s {
  packages = λ other. if str_eq name other then node else s.packages other;
}

-- `posLess`
unfoldable pub pos_less : SourcePos → SourcePos → Bool
pos_less a b =
    if str_eq a.filename b.filename
    then (if a.line == b.line then ltb a.col b.col else ltb a.line b.line)
    else false
