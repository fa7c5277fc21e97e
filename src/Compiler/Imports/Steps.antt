-- ===== src/Compiler/Imports/Steps.antt =====
-- compiler.go: the turns of the tasks keep what their phases mean for the imports.
use protocompile.Prelude.{
  ◌≡◌, sym, subst, ◌∙◌, ◌⊎◌, inl, inr, true, false, some, List, [], ◌∷◌, String,
}
use protocompile.Compiler.{
  Semaphore, Callees, parsed, Phase, Task, starting, resolving, checking, releasing, waiting,
  unblocking, reacquiring, linking, finished, Results, compile, no_results, new_task, ready, World,
  compile_all, begin, Step, Reach, here, later,
}
use protocompile.Compiler.Turn.{
  Turn, acquires, gives_up, is_linked, needs_nothing, blocks, compiles, knows, marks, leaves, skips,
  calls, has_checked, releases, has, has_implied, unblocks, clears, reacquires, links, returns,
}
use protocompile.Compiler.Turn.Steps.{Step_turns, OneTurn}
use protocompile.Compiler.Imports.{HasImports, Imported, AfterImports}
use protocompile.Compiler.Imports.Stay.{base_cases, turn_stays}
use protocompile.Compiler.Wait.{In}
use protocompile.Compiler.Wait.Store.{put-some, compile_cases}

pub parsed_eq : {a b : List String} → parsed a ≡ parsed b → a ≡ b
parsed_eq h = cc

module _ (c : Callees) (t : String) (m : Results) (r : Task) (old : Imported c m t r r.phase) where
  known : {p : Phase} → r.phase ≡ p → Imported c m t r p
  known f = subst (Imported c m t r) f old

  turn-Imported : {n : Results} {r' : Task} → Turn c t m r n r' → Imported c m t r' r'.phase
  turn-Imported (acquires f) deps k = tt
  turn-Imported (gives_up held f) deps k = tt
  turn-Imported (is_linked f g) deps k = cc
  turn-Imported (needs_nothing f g) deps k =
      λ d i. absurd (subst (λ l. In d l) (sym (parsed_eq (sym g ∙ k))) i)
  turn-Imported (blocks deps' imports f g l) deps k = parsed_eq (sym g ∙ k)
  turn-Imported (compiles d todo f) deps k = known f deps k
  turn-Imported (knows x path todo stack f) deps k = known f deps k
  turn-Imported (marks x path todo stack f g) deps k = known f deps k
  turn-Imported (leaves path todo stack f) deps k = known f deps k
  turn-Imported (skips d path deps' todo stack f) deps k = known f deps k
  turn-Imported (calls d path deps' todo stack f g) deps k = known f deps k
  turn-Imported (has_checked n f g) deps k = known f deps k
  turn-Imported (releases implied f) deps k =
      λ d i. inl (subst (λ l. In d l) (sym (known f deps k)) i)
  turn-Imported (has d todo implied f g) deps k = λ a i. elim (known f deps k a i) [
    | inl (inl e) ↦ inr (subst (λ y. ready m y ≡ some true) e g)
    | inl (inr j) ↦ inl j
    | inr h ↦ inr h
  ]
  turn-Imported (has_implied f) deps k = known f deps k
  turn-Imported (unblocks f) deps k =
      λ d i. elim (known f deps k d i) [ inl j ↦ absurd j | inr h ↦ h ]
  turn-Imported (clears f) deps k = known f deps k
  turn-Imported (reacquires f) deps k = known f deps k
  turn-Imported (links true f) deps k = known f deps k
  turn-Imported (links false f) deps k = tt
  turn-Imported (returns true f) deps k = known f deps k
  turn-Imported (returns false f) deps k = tt

-- Results that stay ready.
abbrev Stays : Results → Results → Type 0
Stays m m' = (x : String) → ready m x ≡ some true → ready m' x ≡ some true

HasImports-mono :
    (m m' : Results) (r : Task) (p : Phase) (deps : List String)
    → Stays m m'
    → HasImports m r p deps
    → HasImports m' r p deps
HasImports-mono m m' r starting deps g h = tt
HasImports-mono m m' r resolving deps g h = tt
HasImports-mono m m' r (checking todo stack) deps g h = h
HasImports-mono m m' r releasing deps g h = h
HasImports-mono m m' r (waiting todo implied) deps g h =
    λ d i. elim (h d i) [ inl j ↦ inl j | inr e ↦ inr (g d e) ]
HasImports-mono m m' r unblocking deps g h = λ d i. g d (h d i)
HasImports-mono m m' r reacquiring deps g h = λ d i. g d (h d i)
HasImports-mono m m' r linking deps g h = λ d i. g d (h d i)
HasImports-mono m m' r (finished true held) deps g h = λ d i. g d (h d i)
HasImports-mono m m' r (finished false held) deps g h = tt

-- The results with a new task.
base-Imported :
    {c : Callees} (m : Results) (d x : String) (q : Task)
    → AfterImports c m
    → compile d m x ≡ some q
    → Imported c m x q q.phase
base-Imported {c} m d x q a e = elim (compile_cases d m) [
  | inl f ↦ a.imported x q (subst (λ (n : Results). n x ≡ some q) f e)
  | inr (g, f) ↦ elim (put-some d new_task m x q (subst (λ (n : Results). n x ≡ some q) f e)) [
    | inl (h, k) ↦ subst (λ (y : Task). Imported c m x y y.phase) k (λ deps l. tt)
    | inr (h, k) ↦ a.imported x q k
  ]
]

module _ (s : Semaphore) (c : Callees) where
  turn-AfterImports :
      (w u : World s c) → OneTurn s c w u → AfterImports c w.results → AfterImports c u.results
  turn-AfterImports w u (t, r, e, (n, r', k, eq)) a = record {
    imported = λ x q f deps l.
        HasImports-mono w.results u.results q q.phase deps
          (λ y h. turn_stays s c w u (t, r, e, (n, r', k, eq)) y true h)
          (before x q (put-some t r' n x q (subst (λ (m : Results). m x ≡ some q) eq f)) deps l);
  }
    where
      before :
          (x : String) (q : Task)
          → ((t ≡ x) × (r' ≡ q)) ⊎ ((¬ (t ≡ x)) × (n x ≡ some q))
          → Imported c w.results x q q.phase
      before x q (inl (f, g)) =
          subst (λ y. Imported c w.results y q q.phase) f
            (subst (λ (y : Task). Imported c w.results t y y.phase) g
              (turn-Imported c t w.results r (a.imported t r e) k))
      before x q (inr (f, g)) = elim (base_cases k) [
        | inl h ↦ a.imported x q (subst (λ (m : Results). m x ≡ some q) h g)
        | inr (d, h) ↦ base-Imported w.results d x q a (subst (λ (m : Results). m x ≡ some q) h g)
      ]

  Step-AfterImports :
      {w u : World s c} → Step s c w u → AfterImports c w.results → AfterImports c u.results
  Step-AfterImports {w} {u} st a = elim (Step_turns s c st) [
    | inl k ↦ turn-AfterImports w u k a
    | inr e ↦ subst (AfterImports c) (sym e) a
  ]

  compile_all-AfterImports :
      (files : List String) (m : Results)
      → ((x : String) (r : Task) → m x ≡ some r → r ≡ new_task)
      → (x : String) (r : Task) → compile_all files m x ≡ some r
      → r ≡ new_task
  unfolding compile_all
  compile_all-AfterImports [] m h x r e = h x r e
  compile_all-AfterImports (f ∷ files) m h x r e =
      compile_all-AfterImports files (compile f m) fresh x r e
    where
      fresh : (y : String) (q : Task) → compile f m y ≡ some q → q ≡ new_task
      fresh y q g = elim (compile_cases f m) [
        | inl k ↦ h y q (subst (λ (n : Results). n y ≡ some q) k g)
        | inr (l, k) ↦
            elim (put-some f new_task m y q (subst (λ (n : Results). n y ≡ some q) k g)) [
              | inl (a, b) ↦ sym b
              | inr (a, b) ↦ h y q b
            ]
      ]

  pub Reach-AfterImports :
      {files : List String} {w : World s c} → Reach s c files w → AfterImports c w.results
  unfolding begin
  Reach-AfterImports {files} here = record {
    imported = λ x r e.
        subst (λ (y : Task). Imported c (compile_all files no_results) x y y.phase)
          (sym (compile_all-AfterImports files no_results (λ y q h. cc) x r e)) (λ deps k. tt);
  }
  Reach-AfterImports (later h st) = Step-AfterImports st (Reach-AfterImports h)
