-- ===== src/Compiler/Ends/Total.antt =====
-- compiler.go: a compilation ends.
use protocompile.Prelude.{
  ◌≡◌, refl, sym, subst, ℕ, suc, ◌+◌, ◌*◌, ◌≤◌, ◌<◌, some, List, [], ◌∷◌, String, str_eq, eq_iff,
  length, arith, inl, inr, Bool-cases,
}
use protocompile.Compiler.{
  Semaphore, Callees, Task, Results, World, starting, new_task, put, compile, compile_all,
  no_results, begin, run, end, cancel, Reach, here, later,
}
use protocompile.Compiler.Turn.Steps.{OneTurn, advance_turns, stop_turns}
use protocompile.Compiler.Wait.{In}
use protocompile.Compiler.Wait.Store.{put-some, put_self, compile_cases}
use protocompile.Compiler.Ends.{Closed, phase_weight, weight, TaskIn, AllIn}
use protocompile.Compiler.Ends.Turns.{turn-TaskIn, turn-lt, base-In}

module _ (c : Callees) (files : List String) (most : ℕ) (closed : Closed c files most) where
  -- The steps of a task that is not made yet.
  abbrev pub whole : ℕ
  whole = most + 23 + 2 * most + length files * (2 * most + 3)

  abbrev weight_at : Results → String → ℕ
  weight_at m x = weight most (length files) (m x)

  total : Results → List String → ℕ
  total m [] = 0
  total m (x ∷ xs) = weight_at m x + total m xs

  abbrev Lighter : Results → Results → Type 0
  Lighter m' m = (x : String) → weight_at m' x ≤ weight_at m x

  total-le : (m m' : Results) (xs : List String) → Lighter m' m → total m' xs ≤ total m xs
  unfolding total
  total-le m m' [] h = omega arith
  total-le m m' (x ∷ xs) h = omega (arith, h x, total-le m m' xs h)

  total-lt :
      (m m' : Results) (t : String) (xs : List String)
      → Lighter m' m
      → weight_at m' t < weight_at m t
      → In t xs
      → total m' xs < total m xs
  unfolding total
  total-lt m m' t [] h l i = elim i [ ]
  total-lt m m' t (x ∷ xs) h l (inl e) =
      let k = subst (λ y. weight_at m' y < weight_at m y) (sym e) l in
      omega (arith, k, total-le m m' xs h)
  total-lt m m' t (x ∷ xs) h l (inr i) = omega (arith, h x, total-lt m m' t xs h l i)

  same-Lighter : (m : Results) → Lighter m m
  same-Lighter m x = omega arith

  put-Lighter :
      (t : String) (r : Task) (b m : Results)
      → Lighter b m
      → weight most (length files) (some r) ≤ weight_at m t
      → Lighter (put t r b) m
  put-Lighter t r b m g h x = elim (Bool-cases (str_eq t x)) [
    | inl e ↦
        subst (λ y. weight_at (put t r b) y ≤ weight_at m y) ((eq_iff t x).0 e)
          (rw (put_self t r b) h)
    | inr e ↦ rw e (g x)
  ]

  compile-Lighter : (d : String) (m : Results) → Lighter (compile d m) m
  unfolding weight phase_weight
  compile-Lighter d m = elim (compile_cases d m) [
    | inl e ↦ subst (λ (n : Results). Lighter n m) (sym e) (λ x. omega arith)
    | inr (g, e) ↦
        subst (λ (n : Results). Lighter n m) (sym e)
          (put-Lighter d new_task m m (same-Lighter m) (rw g (omega arith)))
  ]

  compile-AllIn :
      (d : String) (m : Results) → In d files → AllIn files most m → AllIn files most (compile d m)
  compile-AllIn d m i a = elim (compile_cases d m) [
    | inl e ↦ subst (AllIn files most) (sym e) a
    | inr (g, e) ↦ subst (AllIn files most) (sym e) (record {
      created_in = λ x q h. elim (put-some d new_task m x q h) [
        | inl (f, k) ↦ subst (λ y. In y files) f i
        | inr (f, k) ↦ a.created_in x q k
      ];
      task_in = λ x q h. elim (put-some d new_task m x q h) [
        | inl (f, k) ↦ subst (λ (y : Task). TaskIn files most y y.phase) k fresh
        | inr (f, k) ↦ a.task_in x q k
      ];
    })
  ]
    where
      fresh : TaskIn files most new_task starting
      fresh = record {
        phase_in = tt;
        checked_once = tt;
        checked_in = λ v j. absurd j;
        blocked_few = omega arith;
        dependency_few = omega arith;
      }

  put-AllIn :
      (t : String) (r' : Task) (n : Results)
      → In t files
      → TaskIn files most r' r'.phase
      → AllIn files most n
      → AllIn files most (put t r' n)
  put-AllIn t r' n i k a = record {
    created_in = λ x q h. elim (put-some t r' n x q h) [
      | inl (f, g) ↦ subst (λ y. In y files) f i
      | inr (f, g) ↦ a.created_in x q g
    ];
    task_in = λ x q h. elim (put-some t r' n x q h) [
      | inl (f, g) ↦ subst (λ (y : Task). TaskIn files most y y.phase) g k
      | inr (f, g) ↦ a.task_in x q g
    ];
  }

  module _ (s : Semaphore) where
    -- The bound on the steps that are left after some were taken.
    abbrev Bound : ℕ → World s c → Type 0
    Bound n w = AllIn files most w.results × (n + total w.results files ≤ length files * whole)

    turn-Bound : (n : ℕ) (w u : World s c) → OneTurn s c w u → Bound n w → Bound (suc n) u
    turn-Bound n w u (t, r, e, (b, r', k, eq)) (a, h) =
        let i = a.created_in t r e in
        let inside = turn-TaskIn c files most closed w.results a t r e k in
        let less : weight most (length files) (some r') < weight_at w.results t =
          rw e (turn-lt c files most closed w.results a t r e k) in
        let base : AllIn files most b × Lighter b w.results =
          elim (base-In c files most closed w.results a t r e k) [
            | inl f ↦
                subst (λ (m : Results). AllIn files most m × Lighter m w.results) (sym f)
                  (a, same-Lighter w.results)
            | inr (d, f, j) ↦
                subst (λ (m : Results). AllIn files most m × Lighter m w.results) (sym f)
                  (compile-AllIn d w.results j a, compile-Lighter d w.results)
          ] in
        let goal : AllIn files most (put t r' b)
            × (total (put t r' b) files < total w.results files) =
          (
            put-AllIn t r' b i inside base.0,
            total-lt w.results (put t r' b) t files
                (put-Lighter t r' b w.results base.1 (omega (arith, less)))
                (rw (put_self t r' b) less) i,
          ) in
        let done =
          subst (λ (m : Results). AllIn files most m × (total m files < total w.results files))
            (sym eq) goal in
        (done.0, omega (arith, done.1, h))

    -- The steps of tasks that a compilation has taken.
    unfoldable pub steps : {files' : List String} {w : World s c} → Reach s c files' w → ℕ
    steps here = 0
    steps (later h (run t e)) = suc (steps h)
    steps (later h (end t e)) = suc (steps h)
    steps (later h cancel) = steps h

    compile_all-AllIn :
        (fs : List String) (m : Results)
        → ((x : String) → In x fs → In x files)
        → AllIn files most m
        → AllIn files most (compile_all fs m) × Lighter (compile_all fs m) m
    unfolding compile_all
    compile_all-AllIn [] m i a = (a, same-Lighter m)
    compile_all-AllIn (f ∷ fs) m i a =
        let (b, l) =
          compile_all-AllIn fs (compile f m) (λ x j. i x (inr j))
            (compile-AllIn f m (i f (inl refl)) a) in
        (b, λ x. omega (arith, l x, compile-Lighter f m x))

    total-no_results : (xs : List String) → total no_results xs ≡ length xs * whole
    unfolding total weight
    total-no_results [] = omega arith
    total-no_results (x ∷ xs) = grind (arith, total-no_results xs)

    no_results-AllIn : AllIn files most no_results
    no_results-AllIn = record { created_in = λ x r e. cc; task_in = λ x r e. cc }

    module _ (asked : List String) (inside : (x : String) → In x asked → In x files) where
      Reach-Bound : {w : World s c} (h : Reach s c asked w) → Bound (steps h) w
      unfolding steps begin
      Reach-Bound here =
          let (a, l) = compile_all-AllIn asked no_results inside no_results-AllIn in
          (
            a,
            omega (
              arith,
              total-no_results files,
              total-le no_results (compile_all asked no_results) files l,
            ),
          )
      Reach-Bound (later {w} {u} h (run t e)) =
          turn-Bound (steps h) w u (advance_turns s c t w e) (Reach-Bound h)
      Reach-Bound (later {w} {u} h (end t e)) =
          turn-Bound (steps h) w u (stop_turns s c t w e) (Reach-Bound h)
      Reach-Bound (later h cancel) = Reach-Bound h

      -- Where `files` lists each file once, descriptor.proto and the files asked for among them, and
      -- has all that its files import, each of them fewer than `most`, no interleaving of the tasks
      -- takes more than `length files * whole` steps of tasks; `whole` is computed from the length of
      -- `files` and `most`.
      pub steps-le : {w : World s c} (h : Reach s c asked w) → steps h ≤ length files * whole
      steps-le h = omega (arith, (Reach-Bound h).1)
