-- ===== src/Compiler/Ends.antt =====
-- compiler.go: how many steps the tasks of a compilation still have.
pub mod Turns
pub mod Total
use protocompile.Prelude.{
  ◌≡◌, ℕ, suc, ◌+◌, ◌-◌, ◌*◌, ◌≤◌, Bool, true, false, Option, none, some, List, [], ◌∷◌, String,
  length, All,
}
use protocompile.Compiler.{
  Callees, parsed, Phase, Task, Call, enter, loop, starting, resolving, checking, releasing,
  waiting, unblocking, reacquiring, linking, finished, Results, descriptor_proto_path,
}
use protocompile.Compiler.Wait.{In}
use protocompile.Compiler.Permits.Count.{Once}

-- The files of a compilation: a list that has the imports of its files, each file once, and at most
-- `imports` imports for each.
pub record Closed (c : Callees) (files : List String) (imports : ℕ) : Type 0 where
  pub once : Once files
  pub descriptor : In descriptor_proto_path files
  pub found :
      (x : String) (deps : List String)
      → c.find x ≡ parsed deps
      → In x files
      → (d : String) → In d deps
      → In d files
  pub few :
      (x : String) (deps : List String)
      → c.find x ≡ parsed deps
      → In x files
      → suc (length deps) ≤ imports

unfoldable pub stack_weight : List Call → ℕ
stack_weight [] = 0
stack_weight (enter x path ∷ stack) = 1 + stack_weight stack
stack_weight (loop path deps ∷ stack) = 1 + 2 * length deps + stack_weight stack

-- The steps left, at most: `most` is the number of imports of a file, `all` that of the files, and
-- `left` that of the results that the task has not checked.
module _ (most all : ℕ) where
  unfoldable pub phase_weight : ℕ → Phase → ℕ
  unfolding stack_weight
  phase_weight left (finished ok true) = 2
  phase_weight left (finished ok false) = 1
  phase_weight left linking = 3
  phase_weight left reacquiring = 4
  phase_weight left unblocking = 5
  phase_weight left (waiting todo true) = length todo + 7
  phase_weight left (waiting todo false) = length todo + 6
  phase_weight left releasing = most + 10
  phase_weight left (checking todo stack) =
      most + 20 + 2 * length todo + stack_weight stack + left * (2 * most + 3)
  phase_weight left resolving = most + 21 + 2 * most + all * (2 * most + 3)
  phase_weight left starting = most + 22 + 2 * most + all * (2 * most + 3)

  unfoldable pub weight : Option Task → ℕ
  unfolding phase_weight
  weight none = most + 23 + 2 * most + all * (2 * most + 3)
  weight (some r) = phase_weight (all - length r.checked) r.phase

-- The names that a task has met are files of the compilation.
abbrev pub CallIn : List String → Call → Type 0
CallIn files (enter x path) = In x files
CallIn files (loop path deps) = Unit

abbrev pub PhaseIn : List String → Phase → Type 0
PhaseIn files (checking todo stack) =
    ((d : String) → In d todo → In d files) × All (CallIn files) stack
PhaseIn files p = Unit

pub record TaskIn (files : List String) (most : ℕ) (r : Task) (p : Phase) : Type 0 where
  pub phase_in : PhaseIn files p
  pub checked_once : Once r.checked
  pub checked_in : (v : String) → In v r.checked → In v files
  pub blocked_few : length r.blocked_on ≤ most
  pub dependency_few : length r.dependency ≤ most

pub record AllIn (files : List String) (most : ℕ) (m : Results) : Type 0 where
  pub created_in : (x : String) (r : Task) → m x ≡ some r → In x files
  pub task_in : (x : String) (r : Task) → m x ≡ some r → TaskIn files most r r.phase
