-- ===== src/Compiler/Wait/Advance.antt =====
-- compiler.go: every step of the tasks keeps the results in order, if descriptor.proto imports
-- nothing.
use protocompile.Prelude.{
  ◌≡◌, refl, sym, subst, ◌⊎◌, inl, inr, Bool, true, false, some, List, [], ◌∷◌, ◌++◌, String, arith,
  Bool-cases, Option-cases,
}
use protocompile.Compiler.{
  Semaphore, Callees, SearchResult, failure, linked, parsed, Phase, Task, starting, resolving,
  checking, releasing, waiting, unblocking, reacquiring, linking, finished, World, Results, compile,
  no_results, ready, descriptor_proto_path, wants_descriptor_proto, set_phase, give_back,
  acquire_then, resolve, await, run_phase, advance, stop_phase, stop, compile_all, begin, Step, run,
  end, cancel, Reach, here, later,
}
use protocompile.Compiler.Wait.{In, Knows, Ordered}
use protocompile.Compiler.Wait.Calls.{In-append_left, In-append_last, Checking-phase}
use protocompile.Compiler.Wait.Store.{Ordered-put, Ordered-compile}
use protocompile.Compiler.Wait.Steps.{Ordered-phase, Good, check_step-Ordered, block-Ordered}

-- What the resolver has for descriptor.proto imports nothing, as Google's does.
abbrev pub ImportsNothing : Callees → Type 0
ImportsNothing c = (deps : List String) → c.find descriptor_proto_path ≡ parsed deps → deps ≡ []

some_eq {ℓ} : {A : Type ℓ} {a b : A} → some a ≡ some b → a ≡ b
some_eq h = cc

append-In : (x p : String) (xs : List String) → In x (xs ++ (p ∷ [])) → In x xs ⊎ (x ≡ p)
append-In x p [] (inl e) = inr (sym e)
append-In x p [] (inr i) = elim i [ ]
append-In x p (y ∷ xs) (inl e) = inl (inl e)
append-In x p (y ∷ xs) (inr i) = elim (append-In x p xs i) [ inl j ↦ inl (inr j) | inr e ↦ inr e ]

module _ (s : Semaphore) (c : Callees) (quiet : ImportsNothing c) where
  -- descriptor.proto does not want itself.
  not_wanted : (deps : List String) → wants_descriptor_proto s c descriptor_proto_path deps ≡ false
  unfolding wants_descriptor_proto
  not_wanted deps = ground arith

  module _ (t : String) (r : Task) (w : World s c) (o : Good s c w) (e : w.results t ≡ some r) where
    resolve-Ordered : (f : SearchResult) → c.find t ≡ f → Good s c (resolve s c t r f w)
    unfolding resolve set_phase
    resolve-Ordered failure g = Ordered-phase o t r e (finished false true) tt
    resolve-Ordered linked g = Ordered-phase o t r e (finished true true) tt
    resolve-Ordered (parsed deps) g = elim (Bool-cases (wants_descriptor_proto s c t deps)) [
      | inl h ↦ rw h (
          block-Ordered s c t r w o e deps (deps ++ (descriptor_proto_path ∷ []))
            (λ a i. append-In a descriptor_proto_path deps i)
            (λ a i. In-append_left a deps (descriptor_proto_path ∷ []) i)
            (λ k. In-append_last descriptor_proto_path deps) (λ k. absurd (clash deps h k)))
      | inr h ↦ rw h (
          block-Ordered s c t r w o e deps deps (λ a i. inl i) (λ a i. i)
            (λ k. absurd (clashes h k)) (λ k. quiet deps (subst (λ y. c.find y ≡ parsed deps) k g)))
    ]
      where
        clash :
            (l : List String)
            → wants_descriptor_proto s c t l ≡ true
            → t ≡ descriptor_proto_path
            → ⊥
        clash l h k = cc (not_wanted l, h, k)

        clashes : {b : Bool} → b ≡ false → b ≡ true → ⊥
        clashes h k = cc

    await-Ordered :
        (todo : List String) (implied : Bool) {u : World s c}
        → r.phase ≡ waiting todo implied
        → await s c t r todo implied w ≡ some u
        → Good s c u
    unfolding await set_phase
    await-Ordered [] false {u} f h =
        subst (Good s c) (some_eq h) (Ordered-phase o t r e unblocking tt)
    await-Ordered [] true {u} f h = elim (Option-cases (ready w.results descriptor_proto_path)) [
      | inl g ↦ cc (rw (g, await) at h)
      | inr (ok, g) ↦ subst (Good s c) (some_eq (rw (g, await) at h)) (
          Ordered-phase o t r e (waiting [] false) (
            let k =
              subst (Knows w.results o.stamp (wants_descriptor_proto s c) t r) f (o.knows t r e) in
            (Checking-phase (waiting [] false) k.0, λ d i. absurd i, λ b. cc)))
    ]
    await-Ordered (d ∷ todo) implied {u} f h = elim (Option-cases (ready w.results d)) [
      | inl g ↦ cc (rw (g, await) at h)
      | inr (true, g) ↦ subst (Good s c) (some_eq (rw (g, await) at h)) (
          Ordered-phase o t r e (waiting todo implied) (
            let k =
              subst (Knows w.results o.stamp (wants_descriptor_proto s c) t r) f (o.knows t r e) in
            (Checking-phase (waiting todo implied) k.0, λ a i. k.1 a (inr i), k.2)))
      | inr (false, g) ↦
          subst (Good s c) (some_eq (rw (g, await) at h))
            (Ordered-phase o t r e (finished false false) tt)
    ]

    -- A wait for a permit.
    acquire_then-Ordered :
        (p : Phase) {u : World s c}
        → Knows w.results o.stamp (wants_descriptor_proto s c) t (record r { phase = p }) p
        → acquire_then s c t r p w ≡ some u
        → Good s c u
    unfolding acquire_then
    acquire_then-Ordered p {u} k h = elim (Option-cases (s.acquire w.permits)) [
      | inl g ↦ cc (rw (g, acquire_then) at h)
      | inr (q, g) ↦
          subst (Good s c) (some_eq (rw (g, acquire_then) at h)) (Ordered-phase o t r e p k)
    ]

    run_phase-Ordered :
        (p : Phase) {u : World s c} → r.phase ≡ p → run_phase s c t r p w ≡ some u → Good s c u
    unfolding run_phase give_back set_phase
    run_phase-Ordered starting f h = acquire_then-Ordered resolving tt h
    run_phase-Ordered resolving f h = subst (Good s c) (some_eq h) (resolve-Ordered (c.find t) refl)
    run_phase-Ordered (checking todo stack) f h =
        subst (Good s c) (some_eq h) (check_step-Ordered s c t r w o e todo stack f)
    run_phase-Ordered releasing f h =
        let p = waiting r.dependency (wants_descriptor_proto s c t r.dependency) in
        let k =
          subst (Knows w.results o.stamp (wants_descriptor_proto s c) t r) f (o.knows t r e) in
        subst (Good s c) (some_eq h) (
          Ordered-phase o t r e p (
            Checking-phase p k.0,
            λ d i. (k.0.imports d i, elim (k.0.made d i) [ inl j ↦ absurd j | inr j ↦ j ]),
            λ b. (k.0.implied b, k.1 b),
          ))
    run_phase-Ordered (waiting todo implied) f h = await-Ordered todo implied f h
    run_phase-Ordered unblocking f h =
        subst (Good s c) (some_eq h)
          (Ordered-put o t (record r { blocked_on = []; phase = reacquiring }) (λ a i. absurd i) tt)
    run_phase-Ordered reacquiring f h = acquire_then-Ordered linking tt h
    run_phase-Ordered linking f h =
        subst (Good s c) (some_eq h) (Ordered-phase o t r e (finished (c.link t) true) tt)
    run_phase-Ordered (finished ok true) f h =
        subst (Good s c) (some_eq h) (Ordered-phase o t r e (finished ok false) tt)
    run_phase-Ordered (finished ok false) f h = cc

    stop_phase-Ordered : (p : Phase) {u : World s c} → stop_phase s c t r p w ≡ some u → Good s c u
    unfolding stop_phase set_phase
    stop_phase-Ordered p {u} h = go p h
      where
        over : Good s c (set_phase s c t r (finished false false) w)
        over = Ordered-phase o t r e (finished false false) tt

        go : (p : Phase) → stop_phase s c t r p w ≡ some u → Good s c u
        go starting h = subst (Good s c) (some_eq h) over
        go resolving h = cc
        go (checking todo stack) h = cc
        go releasing h = cc
        go (waiting todo implied) h = subst (Good s c) (some_eq h) over
        go unblocking h = cc
        go reacquiring h = subst (Good s c) (some_eq h) over
        go linking h = cc
        go (finished ok held) h = cc

  advance-Ordered :
      (t : String) (w : World s c) {u : World s c}
      → Good s c w
      → advance s c t w ≡ some u
      → Good s c u
  unfolding advance
  advance-Ordered t w {u} o h = elim (Option-cases (w.results t)) [
    | inl g ↦ cc (rw (g, advance) at h)
    | inr (r, g) ↦ run_phase-Ordered t r w o g r.phase refl (rw (g, advance) at h)
  ]

  stop-Ordered :
      (t : String) (w : World s c) {u : World s c} → Good s c w → stop s c t w ≡ some u → Good s c u
  unfolding stop
  stop-Ordered t w {u} o h = elim (Bool-cases w.cancelled) [
    | inl b ↦ elim (Option-cases (w.results t)) [
      | inl g ↦ cc (rw (b, g, stop) at h)
      | inr (r, g) ↦ stop_phase-Ordered t r w o g r.phase (rw (b, g, stop) at h)
    ]
    | inr b ↦ cc (rw (b, stop) at h)
  ]

  pub Step-Ordered : {w u : World s c} → Step s c w u → Good s c w → Good s c u
  Step-Ordered {w} (run t h) o = advance-Ordered t w o h
  Step-Ordered {w} (end t h) o = stop-Ordered t w o h
  Step-Ordered cancel o = o

  no_results-Ordered : Ordered (wants_descriptor_proto s c) no_results
  no_results-Ordered = record {
    stamp = λ x. 0;
    now = 1;
    knows = λ x r e. cc;
    past = λ x. omega arith;
    distinct = λ x y a b i j e. absurd i;
    unblocked = λ a i. i;
  }

  compile_all-Ordered :
      (files : List String) (m : Results)
      → Ordered (wants_descriptor_proto s c) m
      → Ordered (wants_descriptor_proto s c) (compile_all files m)
  unfolding compile_all
  compile_all-Ordered [] m o = o
  compile_all-Ordered (f ∷ files) m o =
      compile_all-Ordered files (compile f m) (Ordered-compile o f)

  pub Reach-Ordered : {files : List String} {w : World s c} → Reach s c files w → Good s c w
  unfolding begin
  Reach-Ordered {files} here = compile_all-Ordered files no_results no_results-Ordered
  Reach-Ordered (later h st) = Step-Ordered st (Reach-Ordered h)
