-- ===== src/Compiler/Imports/Stay.antt =====
-- compiler.go: a result that is ready keeps its outcome.
use protocompile.Prelude.{
  ◌≡◌, sym, subst, ap, ◌∙◌, ◌⊎◌, inl, inr, Bool, false, none, some, String, str_eq, eq_iff,
  Bool-cases, refl,
}
use protocompile.Compiler.{
  Semaphore, Callees, Task, new_task, Results, put, compile, ready, outcome, World, Step,
}
use protocompile.Compiler.Turn.{
  Turn, acquires, gives_up, is_linked, needs_nothing, blocks, compiles, knows, marks, leaves, skips,
  calls, has_checked, releases, has, has_implied, unblocks, clears, reacquires, links, returns,
}
use protocompile.Compiler.Turn.Steps.{Step_turns, OneTurn}
use protocompile.Compiler.Wait.Store.{str_eq_self, compile_cases}

module _ {c : Callees} {t : String} {m : Results} {r : Task} where
  outcome_stays :
      {n : Results} {r' : Task} {ok : Bool}
      → Turn c t m r n r'
      → outcome r.phase ≡ some ok
      → outcome r'.phase ≡ some ok
  unfolding outcome
  outcome_stays (acquires f) h = cc (sym (ap outcome f) ∙ h)
  outcome_stays (gives_up held f) h = cc
  outcome_stays (is_linked f g) h = cc (sym (ap outcome f) ∙ h)
  outcome_stays (needs_nothing f g) h = cc (sym (ap outcome f) ∙ h)
  outcome_stays (blocks deps imports f g l) h = cc (sym (ap outcome f) ∙ h)
  outcome_stays (compiles d todo f) h = cc (sym (ap outcome f) ∙ h)
  outcome_stays (knows x path todo stack f) h = cc (sym (ap outcome f) ∙ h)
  outcome_stays (marks x path todo stack f g) h = cc (sym (ap outcome f) ∙ h)
  outcome_stays (leaves path todo stack f) h = cc (sym (ap outcome f) ∙ h)
  outcome_stays (skips d path deps todo stack f) h = cc (sym (ap outcome f) ∙ h)
  outcome_stays (calls d path deps todo stack f g) h = cc (sym (ap outcome f) ∙ h)
  outcome_stays (has_checked n f g) h = cc (sym (ap outcome f) ∙ h)
  outcome_stays (releases implied f) h = cc (sym (ap outcome f) ∙ h)
  outcome_stays (has d todo implied f g) h = cc (sym (ap outcome f) ∙ h)
  outcome_stays (has_implied f) h = cc (sym (ap outcome f) ∙ h)
  outcome_stays (unblocks f) h = cc (sym (ap outcome f) ∙ h)
  outcome_stays (clears f) h = cc (sym (ap outcome f) ∙ h)
  outcome_stays (reacquires f) h = cc (sym (ap outcome f) ∙ h)
  outcome_stays (links ok f) h = cc (sym (ap outcome f) ∙ h)
  outcome_stays (returns ok f) h = sym (ap outcome f) ∙ h

  -- A turn makes at most one result.
  pub base_cases :
      {n : Results} {r' : Task} → Turn c t m r n r' → (n ≡ m) ⊎ ((d : String) × (n ≡ compile d m))
  base_cases (compiles d todo f) = inr (d, refl)
  base_cases (has_checked n f (inl e)) = inl e
  base_cases (has_checked n f (inr e)) = inr (_, e)
  base_cases (acquires f) = inl refl
  base_cases (gives_up held f) = inl refl
  base_cases (is_linked f g) = inl refl
  base_cases (needs_nothing f g) = inl refl
  base_cases (blocks deps imports f g l) = inl refl
  base_cases (knows x path todo stack f) = inl refl
  base_cases (marks x path todo stack f g) = inl refl
  base_cases (leaves path todo stack f) = inl refl
  base_cases (skips d path deps todo stack f) = inl refl
  base_cases (calls d path deps todo stack f g) = inl refl
  base_cases (releases implied f) = inl refl
  base_cases (has d todo implied f g) = inl refl
  base_cases (has_implied f) = inl refl
  base_cases (unblocks f) = inl refl
  base_cases (clears f) = inl refl
  base_cases (reacquires f) = inl refl
  base_cases (links ok f) = inl refl
  base_cases (returns ok f) = inl refl

pub ready-some : (m : Results) (x : String) (r : Task) → m x ≡ some r → ready m x ≡ outcome r.phase
unfolding ready
ready-some m x r e = rw (e, ready)

ready-none : (m : Results) (x : String) → m x ≡ none → ready m x ≡ none
unfolding ready
ready-none m x e = rw (e, ready)

pub ready-put_other :
    (t : String) (r : Task) (m : Results) (x : String)
    → str_eq t x ≡ false
    → ready (put t r m) x ≡ ready m x
unfolding ready
ready-put_other t r m x e = rw (e, ready)

pub ready-put_self : (t : String) (r : Task) (m : Results) → ready (put t r m) t ≡ outcome r.phase
ready-put_self t r m = ready-some (put t r m) t r (rw (str_eq_self t))

ready-compile :
    (d : String) (m : Results) (x : String) (ok : Bool)
    → ready m x ≡ some ok
    → ready (compile d m) x ≡ some ok
ready-compile d m x ok h = elim (compile_cases d m) [
  | inl e ↦ subst (λ (n : Results). ready n x ≡ some ok) (sym e) h
  | inr (g, e) ↦ elim (Bool-cases (str_eq d x)) [
    | inl f ↦ cc (ready-none m d g, h, (eq_iff d x).0 f)
    | inr f ↦ subst (λ (n : Results). ready n x ≡ some ok) (sym e) (ready-put_other d _ m x f ∙ h)
  ]
]

-- A new task is not ready.
pub ready-compile' :
    (d : String) (m : Results) (x : String) (ok : Bool)
    → ready (compile d m) x ≡ some ok
    → ready m x ≡ some ok
unfolding outcome
ready-compile' d m x ok h = elim (compile_cases d m) [
  | inl e ↦ subst (λ (n : Results). ready n x ≡ some ok) e h
  | inr (g, e) ↦
      let k = subst (λ (n : Results). ready n x ≡ some ok) e h in
      elim (Bool-cases (str_eq d x)) [
        | inl f ↦ cc (
          ready-put_self d new_task m,
          subst (λ y. ready (put d new_task m) y ≡ some ok) (sym ((eq_iff d x).0 f)) k,
        )
        | inr f ↦ sym (ready-put_other d new_task m x f) ∙ k
      ]
]

module _ (s : Semaphore) (c : Callees) (w u : World s c) where
  pub turn_stays :
      OneTurn s c w u
      → (x : String) (ok : Bool) → ready w.results x ≡ some ok
      → ready u.results x ≡ some ok
  turn_stays (t, r, e, (n, r', k, eq)) x ok h =
      subst (λ (m : Results). ready m x ≡ some ok) (sym eq)
        (elim (Bool-cases (str_eq t x)) [
          | inl f ↦
              let same = (eq_iff t x).0 f in
              subst (λ y. ready (put t r' n) y ≡ some ok) same
                (ready-put_self t r' n
                  ∙ outcome_stays k (
                      sym (ready-some w.results t r e)
                      ∙ subst (λ y. ready w.results y ≡ some ok) (sym same) h))
          | inr f ↦ ready-put_other t r' n x f ∙ elim (base_cases k) [
            | inl g ↦ subst (λ (m : Results). ready m x ≡ some ok) (sym g) h
            | inr (d, g) ↦
                subst (λ (m : Results). ready m x ≡ some ok) (sym g)
                  (ready-compile d w.results x ok h)
          ]
        ])

  -- In each step of a task, and when the caller cancels, a result that is ready stays ready with the
  -- same outcome.
  pub ready_stays :
      Step s c w u
      → (x : String) (ok : Bool) → ready w.results x ≡ some ok
      → ready u.results x ≡ some ok
  ready_stays st x ok h = elim (Step_turns s c st) [
    | inl k ↦ turn_stays k x ok h
    | inr e ↦ subst (λ (m : Results). ready m x ≡ some ok) (sym e) h
  ]
