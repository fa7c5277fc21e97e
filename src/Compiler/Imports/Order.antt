-- ===== src/Compiler/Imports/Order.antt =====
-- compiler.go: what a file's result says of the files that it imports.
use protocompile.Prelude.{
  ◌≡◌, sym, subst, ap, ◌∙◌, ◌≢◌, ◌⊎◌, inl, inr, Bool, true, false, some, List, [], ◌∷◌, String,
  str_eq, eq_iff, Bool-cases, Option-cases,
}
use protocompile.Compiler.{
  Semaphore, Callees, linked, parsed, Phase, Task, starting, resolving, checking, releasing,
  waiting, unblocking, reacquiring, linking, finished, Results, put, compile, no_results, ready,
  outcome, World, compile_all, begin, Reach, here, later,
}
use protocompile.Compiler.Turn.{
  Turn, acquires, gives_up, is_linked, needs_nothing, blocks, compiles, knows, marks, leaves, skips,
  calls, has_checked, releases, has, has_implied, unblocks, clears, reacquires, links, returns,
}
use protocompile.Compiler.Turn.Steps.{Step_turns, OneTurn}
use protocompile.Compiler.Imports.{HasImports, AfterImports}
use protocompile.Compiler.Imports.Stay.{
  base_cases, ready-put_self, ready-put_other, ready-some, ready-compile',
}
use protocompile.Compiler.Imports.Steps.{Reach-AfterImports}
use protocompile.Compiler.Wait.{In}

has_imports :
    (m : Results) (r : Task) (p : Phase) (deps : List String)
    → outcome p ≡ some true
    → HasImports m r p deps
    → (d : String) → In d deps
    → ready m d ≡ some true
unfolding outcome
has_imports m r (finished true held) deps e h = h
has_imports m r (finished false held) deps e h = cc
has_imports m r starting deps e h = cc
has_imports m r resolving deps e h = cc
has_imports m r (checking todo stack) deps e h = cc
has_imports m r releasing deps e h = cc
has_imports m r (waiting todo implied) deps e h = cc
has_imports m r unblocking deps e h = cc
has_imports m r reacquiring deps e h = cc
has_imports m r linking deps e h = cc

ready_task :
    (m : Results) (x : String) (ok : Bool)
    → ready m x ≡ some ok
    → (r : Task) × (m x ≡ some r) × (outcome r.phase ≡ some ok)
unfolding ready
ready_task m x ok h = elim (Option-cases (m x)) [
  | inl e ↦ cc (rw (e, ready) at h)
  | inr (r, e) ↦ (r, e, rw (e, ready) at h)
]

-- Whenever a file that was parsed has compiled, each file that it imports has compiled.
pub ready_imports :
    (s : Semaphore) (c : Callees) {files : List String} {w : World s c}
    → Reach s c files w
    → (x : String) (deps : List String) → c.find x ≡ parsed deps
    → ready w.results x ≡ some true
    → (d : String) → In d deps
    → ready w.results d ≡ some true
ready_imports s c {w} h x deps f e =
    let (r, g, k) = ready_task w.results x true e in
    has_imports w.results r r.phase deps k ((Reach-AfterImports s c h).imported x r g deps f)

-- How a result gets ready without an error.
completes :
    {c : Callees} {t : String} {m : Results} {r : Task} {n : Results} {r' : Task}
    → Turn c t m r n r'
    → outcome r'.phase ≡ some true
    → (outcome r.phase ≡ some true) ⊎ ((r.phase ≡ linking) ⊎ (c.find t ≡ linked))
unfolding outcome
completes (is_linked f g) e = inr (inr g)
completes (links ok f) e = inr (inl f)
completes (returns ok f) e = inl (ap outcome f ∙ e)
completes (acquires f) e = cc
completes (gives_up held f) e = cc
completes (needs_nothing f g) e = cc
completes (blocks deps' imports f g l) e = cc
completes (compiles d todo f) e = cc
completes (knows x path todo stack f) e = cc
completes (marks x path todo stack f g) e = cc
completes (leaves path todo stack f) e = cc
completes (skips d path deps' todo stack f) e = cc
completes (calls d path deps' todo stack f g) e = cc
completes (has_checked n f g) e = cc
completes (releases implied f) e = cc
completes (has d todo implied f g) e = cc
completes (has_implied f) e = cc
completes (unblocks f) e = cc
completes (clears f) e = cc
completes (reacquires f) e = cc

ready-compile_all :
    (files : List String) (m : Results) (x : String) (ok : Bool)
    → ready (compile_all files m) x ≡ some ok
    → ready m x ≡ some ok
unfolding compile_all
ready-compile_all [] m x ok h = h
ready-compile_all (f ∷ files) m x ok h =
    ready-compile' f m x ok (ready-compile_all files (compile f m) x ok h)

-- Each file of the set was parsed and imports a file of the set.
abbrev pub Circular : Callees → (String → Type 0) → Type 0
Circular c P =
    (x : String)
    → P x
    → (deps : List String) × (c.find x ≡ parsed deps) × ((d : String) × In d deps × P d)

module _ (s : Semaphore) (c : Callees) (P : String → Type 0) (circular : Circular c P) where
  -- No file of the set was the first to compile.
  turn_circular :
      (w u : World s c)
      → AfterImports c w.results
      → ((x : String) → P x → ready w.results x ≢ some true)
      → OneTurn s c w u
      → (x : String) → P x
      → ready u.results x ≢ some true
  turn_circular w u a before (t, r, e, (n, r', k, eq)) x px h = elim (Bool-cases (str_eq t x)) [
    | inl f ↦
        let same = (eq_iff t x).0 f in
        let pt = subst P (sym same) px in
        let now = subst (λ (m : Results). ready m x ≡ some true) eq h in
        elim (completes k (
          sym (ready-put_self t r' n)
          ∙ subst (λ y. ready (put t r' n) y ≡ some true) (sym same) now)) [
            | inl g ↦ before t pt (ready-some w.results t r e ∙ g)
            | inr (inl g) ↦
                let (deps, found, (d, i, pd)) = circular t pt in
                before d pd (
                  subst (λ (p : Phase). HasImports w.results r p deps) g
                    (a.imported t r e deps found) d i)
            | inr (inr g) ↦ let (deps, found, q) = circular t pt in cc
          ]
    | inr f ↦
        let then_ready =
          sym (ready-put_other t r' n x f) ∙ subst (λ (m : Results). ready m x ≡ some true) eq h in
        elim (base_cases k) [
          | inl g ↦ before x px (subst (λ (m : Results). ready m x ≡ some true) g then_ready)
          | inr (d, g) ↦ before x px (
              ready-compile' d w.results x true
                (subst (λ (m : Results). ready m x ≡ some true) g then_ready))
        ]
  ]

  -- A file that is part of a cycle of imports, or imports such a file, never compiles: in no reachable
  -- state is a file of the set ready without an error, if each file of the set is parsed and imports a
  -- file of the set.
  pub Circular_unready :
      {files : List String} {w : World s c}
      → Reach s c files w
      → (x : String) → P x
      → ready w.results x ≢ some true
  unfolding begin ready
  Circular_unready {files} here x px h = cc (ready-compile_all files no_results x true h)
  Circular_unready (later {w} {u} h st) x px e = elim (Step_turns s c st) [
    | inl k ↦ turn_circular w u (Reach-AfterImports s c h) (Circular_unready h) k x px e
    | inr g ↦ Circular_unready h x px (subst (λ (m : Results). ready m x ≡ some true) g e)
  ]
