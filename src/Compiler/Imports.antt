-- ===== src/Compiler/Imports.antt =====
-- compiler.go: a file is linked after its imports.
pub mod Stay
pub mod Steps
pub mod Order
use protocompile.Prelude.{◌≡◌, ◌⊎◌, Bool, true, false, some, List, String}
use protocompile.Compiler.{
  Callees, parsed, Phase, Task, starting, resolving, checking, releasing, waiting, unblocking,
  reacquiring, linking, finished, Results, ready,
}
use protocompile.Compiler.Wait.{In}

-- What each phase means for the imports `deps` of a file.
abbrev pub HasImports : Results → Task → Phase → List String → Type 0
HasImports m r starting deps = Unit
HasImports m r resolving deps = Unit
HasImports m r (checking todo stack) deps = r.dependency ≡ deps
HasImports m r releasing deps = r.dependency ≡ deps
HasImports m r (waiting todo implied) deps =
    (d : String) → In d deps → In d todo ⊎ (ready m d ≡ some true)
HasImports m r unblocking deps = (d : String) → In d deps → ready m d ≡ some true
HasImports m r reacquiring deps = (d : String) → In d deps → ready m d ≡ some true
HasImports m r linking deps = (d : String) → In d deps → ready m d ≡ some true
HasImports m r (finished true held) deps = (d : String) → In d deps → ready m d ≡ some true
HasImports m r (finished false held) deps = Unit

abbrev pub Imported : Callees → Results → String → Task → Phase → Type 0
Imported c m x r p = (deps : List String) → c.find x ≡ parsed deps → HasImports m r p deps

pub record AfterImports (c : Callees) (m : Results) : Type 0 where
  pub imported : (x : String) (r : Task) → m x ≡ some r → Imported c m x r r.phase
