-- ===== src/Compiler/Permits/Bound.antt =====
-- compiler.go: at no time do more tasks run than the semaphore has permits.
use protocompile.Prelude.{
  ◌≡◌, refl, sym, subst, ◌∙◌, inl, inr, ℕ, ◌≤◌, Bool, true, false, some, List, [], ◌∷◌, String, All,
  length, arith, Bool-cases, Option-cases, ap,
}
use protocompile.Compiler.{
  Semaphore, Callees, Phase, Task, starting, resolving, checking, releasing, waiting, unblocking,
  reacquiring, linking, finished, World, Results, compile, no_results, ready, descriptor_proto_path,
  wants_descriptor_proto, set_phase, await, run_phase, advance, stop_phase, stop, compile_all,
  begin, Step, run, end, cancel, Reach, here, later,
}
use protocompile.Compiler.Permits.{holds, holding}
use protocompile.Compiler.Permits.Count.{Once, Count, Count-same, length-le-Count}
use protocompile.Compiler.Permits.Steps.{
  some_eq, compile_same, Held, same_phase, acquire_then-Held, give_back-Held, resolve-Held,
  check_step-Held,
}

module _ (s : Semaphore) (c : Callees) where
  module _ (t : String) (r : Task) (w : World s c) (k : Held s c w) (e : w.results t ≡ some r) where
    -- A phase without a permit follows another.
    idle : (p : Phase) → holds r.phase ≡ false → holds p ≡ false → Held s c (set_phase s c t r p w)
    unfolding set_phase
    idle p h g = same_phase s c t r w k e (record r { phase = p }) (g ∙ sym h)

    await-Held :
        (todo : List String) (implied : Bool) {u : World s c}
        → holds r.phase ≡ false
        → await s c t r todo implied w ≡ some u
        → Held s c u
    unfolding await holds
    await-Held [] false {u} f h = subst (Held s c) (some_eq h) (idle unblocking f refl)
    await-Held [] true {u} f h = elim (Option-cases (ready w.results descriptor_proto_path)) [
      | inl g ↦ cc (rw (g, await) at h)
      | inr (ok, g) ↦
          subst (Held s c) (some_eq (rw (g, await) at h)) (idle (waiting [] false) f refl)
    ]
    await-Held (d ∷ todo) implied {u} f h = elim (Option-cases (ready w.results d)) [
      | inl g ↦ cc (rw (g, await) at h)
      | inr (true, g) ↦
          subst (Held s c) (some_eq (rw (g, await) at h)) (idle (waiting todo implied) f refl)
      | inr (false, g) ↦
          subst (Held s c) (some_eq (rw (g, await) at h)) (idle (finished false false) f refl)
    ]

    run_phase-Held :
        (p : Phase) {u : World s c} → r.phase ≡ p → run_phase s c t r p w ≡ some u → Held s c u
    unfolding run_phase holds set_phase
    run_phase-Held starting f h = acquire_then-Held s c t r w k e resolving (ap holds f) refl h
    run_phase-Held resolving f h =
        subst (Held s c) (some_eq h) (resolve-Held s c t r w k e (c.find t) (ap holds f))
    run_phase-Held (checking todo stack) f h =
        subst (Held s c) (some_eq h) (check_step-Held s c t r w k e todo stack (ap holds f))
    run_phase-Held releasing f h = subst (Held s c) (some_eq h) (
        give_back-Held s c t r w k e
          (waiting r.dependency (wants_descriptor_proto s c t r.dependency)) (ap holds f) refl)
    run_phase-Held (waiting todo implied) f h = await-Held todo implied (ap holds f) h
    run_phase-Held unblocking f h = subst (Held s c) (some_eq h) (
        same_phase s c t r w k e (record r { blocked_on = []; phase = reacquiring })
          (sym (ap holds f)))
    run_phase-Held reacquiring f h = acquire_then-Held s c t r w k e linking (ap holds f) refl h
    run_phase-Held linking f h = subst (Held s c) (some_eq h) (
        same_phase s c t r w k e (record r { phase = finished (c.link t) true }) (sym (ap holds f)))
    run_phase-Held (finished ok true) f h =
        subst (Held s c) (some_eq h)
          (give_back-Held s c t r w k e (finished ok false) (ap holds f) refl)
    run_phase-Held (finished ok false) f h = cc

    stop_phase-Held :
        (p : Phase) {u : World s c} → r.phase ≡ p → stop_phase s c t r p w ≡ some u → Held s c u
    unfolding stop_phase holds
    stop_phase-Held starting f h =
        subst (Held s c) (some_eq h) (idle (finished false false) (ap holds f) refl)
    stop_phase-Held (waiting todo implied) f h =
        subst (Held s c) (some_eq h) (idle (finished false false) (ap holds f) refl)
    stop_phase-Held reacquiring f h =
        subst (Held s c) (some_eq h) (idle (finished false false) (ap holds f) refl)
    stop_phase-Held resolving f h = cc
    stop_phase-Held (checking todo stack) f h = cc
    stop_phase-Held releasing f h = cc
    stop_phase-Held unblocking f h = cc
    stop_phase-Held linking f h = cc
    stop_phase-Held (finished ok held) f h = cc

  no_results-Held : Count (holding no_results) 0
  unfolding holding
  no_results-Held = record {
    names = [];
    once = tt;
    size = refl;
    sound = λ x i. absurd i;
    complete = λ x e. cc;
  }

  compile_all-Held :
      (files : List String) (m : Results) (n : ℕ)
      → Count (holding m) n
      → Count (holding (compile_all files m)) n
  unfolding compile_all
  compile_all-Held [] m n k = k
  compile_all-Held (f ∷ files) m n k =
      compile_all-Held files (compile f m) n (Count-same k (compile_same f m))

  Step-Held : {w u : World s c} → Step s c w u → Held s c w → Held s c u
  unfolding advance stop
  Step-Held {w} {u} (run t h) k = elim (Option-cases (w.results t)) [
    | inl g ↦ cc (rw (g, advance) at h)
    | inr (r, g) ↦ run_phase-Held t r w k g r.phase refl (rw (g, advance) at h)
  ]
  Step-Held {w} {u} (end t h) k = elim (Bool-cases w.cancelled) [
    | inl b ↦ elim (Option-cases (w.results t)) [
      | inl g ↦ cc (rw (b, g, stop) at h)
      | inr (r, g) ↦ stop_phase-Held t r w k g r.phase refl (rw (b, g, stop) at h)
    ]
    | inr b ↦ cc (rw (b, stop) at h)
  ]
  Step-Held cancel k = k

  pub Reach-Held : {files : List String} {w : World s c} → Reach s c files w → Held s c w
  unfolding begin
  Reach-Held {files} here =
      subst (Count (holding (compile_all files no_results))) (sym s.held_first)
        (compile_all-Held files no_results 0 no_results-Held)
  Reach-Held (later h st) = Step-Held st (Reach-Held h)

-- In every interleaving of the tasks, different tasks that hold a permit at the same time are at
-- most as many as the semaphore has permits.
pub length-le-par :
    (s : Semaphore) (c : Callees) {files : List String} {w : World s c}
    → Reach s c files w
    → (xs : List String) → Once xs
    → All (λ x. holding w.results x ≡ true) xs
    → length xs ≤ s.par
length-le-par s c {w} h xs u k =
    omega (arith, s.within w.permits, length-le-Count xs (Reach-Held s c h) u k)
