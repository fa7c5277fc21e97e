-- ===== src/Compiler/Runs.antt =====
-- Runs of compiler.go's tasks at concrete files, under a semaphore with two permits.
mod Ends
use protocompile.Prelude.{
  ◌≡◌, refl, sym, subst, ◌≢◌, ◌*◌, ◌⊎◌, inl, inr, ◌-◌, ◌≤◌, ◌<◌, ℕ, suc, true, false, Option, none,
  some, List, [], ◌∷◌, ◌++◌, String, str_eq, eq_iff, if◌then◌else◌, length, arith, Bool-cases,
  Option-cases, zero,
}
use protocompile.Compiler.{
  Semaphore, Callees, failure, parsed, World, ready, advance, begin, descriptor_proto_path, run,
  Reach, here, later,
}
use protocompile.Compiler.Wait.Advance.{ImportsNothing}
use protocompile.Compiler.Wait.Deadlock.{Unready, Stuck, Unready-progress}
use protocompile.Compiler.Permits.{holding}
use protocompile.Compiler.Permits.Bound.{length-le-par}
use protocompile.Compiler.Imports.Stay.{ready_stays}
use protocompile.Compiler.Imports.Order.{ready_imports, Circular, Circular_unready}

-- The permits that are free.
data Free : Type 0 where
  two : Free
  one : Free
  full : Free

abbrev take_one : Free → Option Free
take_one two = some one
take_one one = some full
take_one full = none

abbrev give_one : Free → Free
give_one two = two
give_one one = two
give_one full = one

abbrev taken : Free → ℕ
taken two = 0
taken one = 1
taken full = 2

held-take : (p q : Free) → take_one p ≡ some q → taken q ≡ suc (taken p)
held-take two q h = ground arith
held-take one q h = ground arith
held-take full q h = cc

held-give : (p : Free) → taken (give_one p) ≡ taken p - 1
held-give two = refl
held-give one = refl
held-give full = refl

taken-le : (p : Free) → taken p ≤ 2
taken-le two = omega arith
taken-le one = omega arith
taken-le full = omega arith

room : (p : Free) → taken p < 2 → (q : Free) × (take_one p ≡ some q)
room two h = (one, refl)
room one h = (full, refl)
room full h = absurd (omega arith)

abbrev two_permits : Semaphore
two_permits = record {
  Permits = Free;
  permits = two;
  acquire = take_one;
  release = give_one;
  par = 2;
  held = taken;
  held_first = refl;
  held-acquire = held-take;
  held-release = held-give;
  within = taken-le;
  has_room = room;
  par_pos = omega arith;
}

-- Tasks take their turns in a given order; a task that is blocked loses its turn.
drive : (c : Callees) → List String → World two_permits c → World two_permits c
unfolding advance
drive c [] w = w
drive c (t ∷ ts) w = elim (advance two_permits c t w) [
  | none ↦ drive c ts w
  | some u ↦ drive c ts u
]

drive-Reach :
    (c : Callees) {files : List String} (ts : List String) (w : World two_permits c)
    → Reach two_permits c files w
    → Reach two_permits c files (drive c ts w)
unfolding drive
drive-Reach c [] w h = h
drive-Reach c (t ∷ ts) w h = elim (Option-cases (advance two_permits c t w)) [
  | inl e ↦ rw (e, drive) (drive-Reach c ts w h)
  | inr (u, e) ↦ rw (e, drive) (drive-Reach c ts u (later h (run t e)))
]

-- `a` imports `b`, `x` and `y` import each other, and descriptor.proto is the standard one.
abbrev files : Callees
files = record {
  find = λ f.
      if str_eq f "a"
      then parsed ("b" ∷ [])
      else if str_eq f "b"
      then parsed []
      else if str_eq f "x"
      then parsed ("y" ∷ [])
      else if str_eq f "y"
      then parsed ("x" ∷ [])
      else failure;
  link = λ f. true;
  overrides = false;
}

files-ImportsNothing : ImportsNothing files
files-ImportsNothing deps e = cc

abbrev rounds : ℕ → List String → List String
rounds zero ts = []
rounds (suc n) ts = ts ++ rounds n ts

-- Both tasks of the cycle after each took one step at a time, four times.
cycle : World two_permits files
unfolding drive begin
cycle = drive files (rounds 4 ("x" ∷ "y" ∷ [])) (begin two_permits files ("x" ∷ "y" ∷ []))

cycle-Reach : Reach two_permits files ("x" ∷ "y" ∷ []) cycle
unfolding cycle
cycle-Reach =
    drive-Reach files (rounds 4 ("x" ∷ "y" ∷ [])) (begin two_permits files ("x" ∷ "y" ∷ [])) here

Unready-progress_example : ¬ (Stuck two_permits files cycle)
unfolding cycle ready
Unready-progress_example =
    Unready-progress two_permits files files-ImportsNothing cycle-Reach "x" ((_, refl), refl)

length-le-par_example : length {A = String} ("x" ∷ "y" ∷ []) ≤ 2
unfolding cycle holding
length-le-par_example =
    length-le-par two_permits files cycle-Reach ("x" ∷ "y" ∷ [])
      ((λ i. elim i [ inl e ↦ ground (arith, eq_iff "y" "x") | inr j ↦ j ]), ((λ i. i), tt))
      (refl, (refl, tt))

-- A whole compilation of `a`.
compiled : World two_permits files
unfolding drive begin
compiled = drive files (rounds 20 ("a" ∷ "b" ∷ [])) (begin two_permits files ("a" ∷ []))

compiled-Reach : Reach two_permits files ("a" ∷ []) compiled
unfolding compiled
compiled-Reach =
    drive-Reach files (rounds 20 ("a" ∷ "b" ∷ [])) (begin two_permits files ("a" ∷ [])) here

ready_imports_example : ready compiled.results "b" ≡ some true
unfolding compiled ready
ready_imports_example =
    ready_imports two_permits files compiled-Reach "a" ("b" ∷ []) refl refl "b" (inl refl)

-- One more step after the cycle was found by both.
Circular_files : Circular files (λ f. (f ≡ "x") ⊎ (f ≡ "y"))
Circular_files f (inl e) = (
  "y" ∷ [],
  subst (λ y. files.find y ≡ parsed ("y" ∷ [])) (sym e) refl,
  ("y", inl refl, inr refl),
)
Circular_files f (inr e) = (
  "x" ∷ [],
  subst (λ y. files.find y ≡ parsed ("x" ∷ [])) (sym e) refl,
  ("x", inl refl, inl refl),
)

Circular_unready_example : ready cycle.results "x" ≢ some true
Circular_unready_example =
    Circular_unready two_permits files (λ f. (f ≡ "x") ⊎ (f ≡ "y")) Circular_files cycle-Reach "x"
      (inl refl)

-- `b` is ready, and `a` goes on.
halfway : World two_permits files
unfolding drive begin
halfway =
    drive files (rounds 8 ("a" ∷ []) ++ rounds 8 ("b" ∷ [])) (begin two_permits files ("a" ∷ []))

resumed : World two_permits files
unfolding drive halfway
resumed = drive files ("a" ∷ []) halfway

ready_stays_example : ready resumed.results "b" ≡ some true
unfolding resumed halfway ready
ready_stays_example = ready_stays two_permits files halfway resumed (run "a" refl) "b" true refl

-- With a descriptor.proto of one's own that imports another file, the premise of `Unready-progress`
-- fails: `compile` makes no check for the implicit import, and two files wait for each other.
abbrev own_descriptor : Callees
own_descriptor = record {
  find = λ f.
      if str_eq f descriptor_proto_path
      then parsed ("f" ∷ [])
      else if str_eq f "f"
      then parsed []
      else failure;
  link = λ f. true;
  overrides = true;
}

locked : World two_permits own_descriptor
unfolding drive begin
locked =
    drive own_descriptor (rounds 8 (descriptor_proto_path ∷ []) ++ rounds 8 ("f" ∷ []))
      (begin two_permits own_descriptor (descriptor_proto_path ∷ []))

locked-Reach : Reach two_permits own_descriptor (descriptor_proto_path ∷ []) locked
unfolding locked
locked-Reach =
    drive-Reach own_descriptor (rounds 8 (descriptor_proto_path ∷ []) ++ rounds 8 ("f" ∷ []))
      (begin two_permits own_descriptor (descriptor_proto_path ∷ [])) here

locked-Unready : Unready locked.results "f"
unfolding locked ready
locked-Unready = ((_, refl), refl)

locked-Stuck : Stuck two_permits own_descriptor locked
unfolding locked advance
locked-Stuck t = elim (Bool-cases (str_eq descriptor_proto_path t)) [
  | inl e ↦
      subst (λ y. advance two_permits own_descriptor y locked ≡ none)
        ((eq_iff descriptor_proto_path t).0 e) refl
  | inr e ↦ elim (Bool-cases (str_eq "f" t)) [
    | inl f ↦
        subst (λ y. advance two_permits own_descriptor y locked ≡ none) ((eq_iff "f" t).0 f) refl
    | inr f ↦ rw (e, f, locked, drive, advance) refl
  ]
]
