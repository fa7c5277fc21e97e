-- ===== src/Compiler/Wait.antt =====
-- compiler.go: what tasks know of one another when they wait, for `checkForDependencyCycle`.
pub mod Mono
pub mod Calls
pub mod Store
pub mod Steps
pub mod Advance
pub mod Circle
pub mod Deadlock
use protocompile.Prelude.{
  ◌≡◌, ◌≢◌, ◌⊎◌, ℕ, ◌<◌, Bool, true, Option, some, List, [], ◌∷◌, String, All, Option-cases,
}
use protocompile.Compiler.{
  Callees, Phase, Task, Call, enter, loop, checking, releasing, waiting, Results, blocked,
  descriptor_proto_path, wants_descriptor_proto, SearchResult, parsed, Semaphore, State,
}

abbrev pub In : String → List String → Type 0
In a [] = ⊥
In a (x ∷ xs) = (x ≡ a) ⊎ In a xs

abbrev pub Created : Results → String → Type 0
Created m x = (r : Task) × (m x ≡ some r)

-- A dependency that the calls on the stack will still look at.
abbrev pub Pending : String → List Call → Type 0
Pending w [] = ⊥
Pending w (enter x path ∷ stack) = (x ≡ w) ⊎ Pending w stack
Pending w (loop path deps ∷ stack) = In w deps ⊎ Pending w stack

-- The task that checks stands in the path of each call, and calls itself on no result of its own.
abbrev pub CallOf : Results → String → Call → Type 0
CallOf m x (enter v path) = (v ≢ x) × Created m v × In x path
CallOf m x (loop path deps) = In x path

-- Tasks are blocked one after the other: `stamp` numbers them, and `now` is the next number.
module _ (m : Results) (stamp : String → ℕ) where
  -- `w` is not blocked, or was blocked after `x`.
  abbrev pub Newer : String → String → Type 0
  Newer x w = (b : String) → In b (blocked m w) → stamp x < stamp w

  abbrev pub Covered : String → Task → List Call → String → Type 0
  Covered x r stack w = In w r.checked ⊎ (Pending w stack ⊎ Newer x w)

  -- A task that has not looked at `todo` and at the calls of the stack. What older tasks that it has
  -- checked are blocked on, and what it has imported, it has checked, will check, or is newer.
  pub record Checking (wants : Bool) (x : String) (r : Task) (todo : List String)
      (stack : List Call) : Type 0 where
    pub own : (d : String) → In d r.blocked_on → In d todo ⊎ Covered x r stack d
    pub seen :
        (v w : String)
        → In v r.checked
        → In w (blocked m v)
        → stamp v < stamp x
        → Covered x r stack w
    pub apart : (v : String) → In v r.checked → v ≢ x
    pub calls : All (CallOf m x) stack
    pub imports : (d : String) → In d r.dependency → In d r.blocked_on
    pub made : (d : String) → In d r.dependency → In d todo ⊎ Created m d
    pub implied : wants ≡ true → In descriptor_proto_path r.blocked_on

  -- What a task knows at each phase.
  abbrev pub Knows : (String → List String → Bool) → String → Task → Phase → Type 0
  Knows wants x r (checking todo stack) = Checking (wants x r.dependency) x r todo stack
  Knows wants x r releasing =
      Checking (wants x r.dependency) x r [] []
      × (wants x r.dependency ≡ true → Created m descriptor_proto_path)
  Knows wants x r (waiting todo implied) =
      Checking (wants x r.dependency) x r [] []
      × ((d : String) → In d todo → In d r.blocked_on × Created m d)
      × (implied ≡ true → In descriptor_proto_path r.blocked_on × Created m descriptor_proto_path)
  Knows wants x r p = Unit

-- The invariant of the results. The tasks that are blocked have different stamps.
pub record Ordered (wants : String → List String → Bool) (m : Results) : Type 0 where
  pub stamp : String → ℕ
  pub now : ℕ
  pub knows : (x : String) (r : Task) → m x ≡ some r → Knows m stamp wants x r r.phase
  pub past : (x : String) → stamp x < now
  pub distinct :
      (x y a b : String) → In a (blocked m x) → In b (blocked m y) → stamp x ≡ stamp y → x ≡ y
  pub unblocked : (a : String) → ¬ (In a (blocked m descriptor_proto_path))
