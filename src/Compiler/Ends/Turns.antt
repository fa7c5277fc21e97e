-- ===== src/Compiler/Ends/Turns.antt =====
-- compiler.go: each turn leaves its task with fewer steps.
use protocompile.Prelude.{
  ◌≡◌, refl, subst, ap, ℕ, suc, ◌+◌, ◌-◌, ◌*◌, ◌≤◌, ◌<◌, Bool, true, false, none, some, List, [],
  ◌∷◌, ◌++◌, String, length, arith, inl, inr, ◌⊎◌, Option-cases,
}
use protocompile.Compiler.{
  descriptor_proto_path, compile, Callees, Phase, Task, enter, loop, starting, resolving, checking,
  releasing, waiting, unblocking, reacquiring, linking, finished, Results, blocked, contains,
  outcome,
}
use protocompile.Compiler.Turn.{
  Turn, acquires, gives_up, is_linked, needs_nothing, blocks, compiles, knows, marks, leaves, skips,
  calls, has_checked, releases, has, has_implied, unblocks, clears, reacquires, links, returns,
}
use protocompile.Compiler.Wait.{In}
use protocompile.Compiler.Wait.Calls.{contains_not-In, blocked-none}
use protocompile.Compiler.Wait.Store.{blocked-some}
use protocompile.Compiler.Permits.Count.{length-le-members}
use protocompile.Compiler.Ends.{Closed, stack_weight, phase_weight, weight, PhaseIn, TaskIn, AllIn}

module _ (c : Callees) (files : List String) (most : ℕ) (closed : Closed c files most) (m : Results)
    (a : AllIn files most m) (t : String) (r : Task) (e : m t ≡ some r) where
  old : TaskIn files most r r.phase
  old = a.task_in t r e

  -- A phase that keeps what the task has.
  rephase : (p : Phase) → PhaseIn files p → TaskIn files most (record r { phase = p }) p
  rephase p h = record {
    phase_in = h;
    checked_once = old.checked_once;
    checked_in = old.checked_in;
    blocked_few = old.blocked_few;
    dependency_few = old.dependency_few;
  }

  before : {p : Phase} → r.phase ≡ p → PhaseIn files p
  before f = subst (PhaseIn files) f old.phase_in

  pub turn-TaskIn : {n : Results} {r' : Task} → Turn c t m r n r' → TaskIn files most r' r'.phase
  turn-TaskIn (acquires f) = rephase resolving tt
  turn-TaskIn (gives_up held f) = rephase (finished false held) tt
  turn-TaskIn (is_linked f g) = rephase (finished true true) tt
  turn-TaskIn (needs_nothing f g) = rephase linking tt
  turn-TaskIn (blocks deps imports f g l) =
      let few = closed.few t deps g (a.created_in t r e) in
      record {
        phase_in = (closed.found t deps g (a.created_in t r e), tt);
        checked_once = tt;
        checked_in = λ v i. absurd i;
        blocked_few = omega (arith, l, few);
        dependency_few = omega (arith, few);
      }
  turn-TaskIn (compiles d todo f) =
      let h = before f in
      rephase (checking todo (enter d (t ∷ d ∷ []) ∷ []))
        ((λ x i. h.0 x (inr i)), (h.0 d (inl refl), tt))
  turn-TaskIn (knows x path todo stack f) =
      let h = before f in rephase (checking todo stack) (h.0, h.1.1)
  turn-TaskIn (marks x path todo stack f g) =
      let h = before f in
      record {
        phase_in = (h.0, (tt, h.1.1));
        checked_once = (contains_not-In r.checked x g, old.checked_once);
        checked_in =
            λ v i. elim i [ inl k ↦ subst (λ y. In y files) k h.1.0 | inr j ↦ old.checked_in v j ];
        blocked_few = old.blocked_few;
        dependency_few = old.dependency_few;
      }
  turn-TaskIn (leaves path todo stack f) =
      let h = before f in rephase (checking todo stack) (h.0, h.1.1)
  turn-TaskIn (skips d path deps todo stack f) =
      let h = before f in rephase (checking todo (loop path deps ∷ stack)) (h.0, (tt, h.1.1))
  turn-TaskIn (calls d path deps todo stack f (v, g)) =
      let h = before f in
      rephase (checking todo (enter d (path ++ (d ∷ [])) ∷ loop path deps ∷ stack))
        (h.0, (a.created_in d v g, (tt, h.1.1)))
  turn-TaskIn (has_checked n f g) = rephase releasing tt
  turn-TaskIn (releases implied f) = rephase (waiting r.dependency implied) tt
  turn-TaskIn (has d todo implied f g) = rephase (waiting todo implied) tt
  turn-TaskIn (has_implied f) = rephase (waiting [] false) tt
  turn-TaskIn (unblocks f) = rephase unblocking tt
  turn-TaskIn (clears f) = record {
    phase_in = tt;
    checked_once = old.checked_once;
    checked_in = old.checked_in;
    blocked_few = omega arith;
    dependency_few = old.dependency_few;
  }
  turn-TaskIn (reacquires f) = rephase linking tt
  turn-TaskIn (links ok f) = rephase (finished ok true) tt
  turn-TaskIn (returns ok f) = rephase (finished ok false) tt

  length-blocked : (x : String) → length (blocked m x) ≤ most
  length-blocked x = elim (Option-cases (m x)) [
    | inl g ↦ rw (blocked-none m x g) (omega arith)
    | inr (q, g) ↦ rw (blocked-some m x q g) (a.task_in x q g).blocked_few
  ]

  -- The task's weight, at the phase that it has.
  abbrev now : Phase → ℕ
  now p = phase_weight most (length files) (length files - length r.checked) p

  at : {p : Phase} → r.phase ≡ p → now r.phase ≡ now p
  at f = ap now f

  finished-lt : (p : Phase) (held : Bool) → outcome p ≡ none → now (finished false held) < now p
  unfolding phase_weight outcome
  finished-lt (finished ok held') held h = cc
  finished-lt linking true h = omega arith
  finished-lt linking false h = omega arith
  finished-lt reacquiring true h = omega arith
  finished-lt reacquiring false h = omega arith
  finished-lt unblocking true h = omega arith
  finished-lt unblocking false h = omega arith
  finished-lt (waiting todo true) true h = omega arith
  finished-lt (waiting todo true) false h = omega arith
  finished-lt (waiting todo false) true h = omega arith
  finished-lt (waiting todo false) false h = omega arith
  finished-lt releasing true h = omega arith
  finished-lt releasing false h = omega arith
  finished-lt (checking todo stack) true h = omega arith
  finished-lt (checking todo stack) false h = omega arith
  finished-lt resolving true h = omega arith
  finished-lt resolving false h = omega arith
  finished-lt starting true h = omega arith
  finished-lt starting false h = omega arith

  -- A result that is marked was not among those checked.
  unchecked :
      (x : String)
      → In x files
      → contains r.checked x ≡ false
      → suc (length r.checked) ≤ length files
  unchecked x i g =
      length-le-members (x ∷ r.checked) files (contains_not-In r.checked x g, old.checked_once)
        (λ v j. elim j [ inl k ↦ subst (λ y. In y files) k i | inr l ↦ old.checked_in v l ])

  one_less :
      (x : String)
      → In x files
      → contains r.checked x ≡ false
      → (length files - length r.checked) * (2 * most + 3)
        ≡ (length files - suc (length r.checked)) * (2 * most + 3) + (2 * most + 3)
  one_less x i g =
      let h = unchecked x i g in
      let k : length files - length r.checked ≡ suc (length files - suc (length r.checked)) =
        omega arith in
      rw k (product (length files - suc (length r.checked)) (2 * most + 3))
    where
      product : (a b : ℕ) → suc a * b ≡ a * b + b
      product a b = grind arith

  pub turn-lt :
      {n : Results} {r' : Task}
      → Turn c t m r n r'
      → weight most (length files) (some r') < weight most (length files) (some r)
  unfolding weight phase_weight stack_weight
  turn-lt (acquires f) = omega (arith, at f)
  turn-lt (gives_up held f) = finished-lt r.phase held f
  turn-lt (is_linked f g) = omega (arith, at f)
  turn-lt (needs_nothing f g) = omega (arith, at f)
  turn-lt (blocks deps imports f g l) =
      let all_left : length files - 0 ≡ length files = omega arith in
      omega (
        arith,
        at f,
        closed.few t deps g (a.created_in t r e),
        ap (λ (k : ℕ). k * (2 * most + 3)) all_left,
      )
  turn-lt (compiles d todo f) = omega (arith, at f)
  turn-lt (knows x path todo stack f) = omega (arith, at f)
  turn-lt (marks x path todo stack f g) =
      omega (arith, at f, one_less x (before f).1.0 g, length-blocked x)
  turn-lt (leaves path todo stack f) = omega (arith, at f)
  turn-lt (skips d path deps todo stack f) = omega (arith, at f)
  turn-lt (calls d path deps todo stack f g) = omega (arith, at f)
  turn-lt (has_checked n f g) = omega (arith, at f)
  turn-lt (releases true f) = omega (arith, at f, old.dependency_few)
  turn-lt (releases false f) = omega (arith, at f, old.dependency_few)
  turn-lt (has d todo true f g) = omega (arith, at f)
  turn-lt (has d todo false f g) = omega (arith, at f)
  turn-lt (has_implied f) = omega (arith, at f)
  turn-lt (unblocks f) = omega (arith, at f)
  turn-lt (clears f) = omega (arith, at f)
  turn-lt (reacquires f) = omega (arith, at f)
  turn-lt (links true f) = omega (arith, at f)
  turn-lt (links false f) = omega (arith, at f)
  turn-lt (returns true f) = omega (arith, at f)
  turn-lt (returns false f) = omega (arith, at f)

  -- A result that a turn makes is that of a file of the compilation.
  pub base-In :
      {n : Results} {r' : Task}
      → Turn c t m r n r'
      → (n ≡ m) ⊎ ((d : String) × (n ≡ compile d m) × In d files)
  base-In (compiles d todo f) = inr (d, refl, (before f).0 d (inl refl))
  base-In (has_checked n f (inl g)) = inl g
  base-In (has_checked n f (inr g)) = inr (descriptor_proto_path, g, closed.descriptor)
  base-In (acquires f) = inl refl
  base-In (gives_up held f) = inl refl
  base-In (is_linked f g) = inl refl
  base-In (needs_nothing f g) = inl refl
  base-In (blocks deps imports f g l) = inl refl
  base-In (knows x path todo stack f) = inl refl
  base-In (marks x path todo stack f g) = inl refl
  base-In (leaves path todo stack f) = inl refl
  base-In (skips d path deps todo stack f) = inl refl
  base-In (calls d path deps todo stack f g) = inl refl
  base-In (releases implied f) = inl refl
  base-In (has d todo implied f g) = inl refl
  base-In (has_implied f) = inl refl
  base-In (unblocks f) = inl refl
  base-In (clears f) = inl refl
  base-In (reacquires f) = inl refl
  base-In (links ok f) = inl refl
  base-In (returns ok f) = inl refl
