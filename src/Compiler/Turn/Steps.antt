-- ===== src/Compiler/Turn/Steps.antt =====
-- compiler.go: every step of a compilation is a turn of a task, or leaves the results alone.
use protocompile.Prelude.{
  ◌≡◌, refl, subst, ◌⊎◌, inl, inr, Bool, true, false, some, List, [], ◌∷◌, String, Bool-cases,
  Option-cases,
}
use protocompile.Compiler.{
  Semaphore, Callees, Phase, Task, starting, resolving, checking, releasing, waiting, unblocking,
  reacquiring, linking, finished, World, ready, outcome, descriptor_proto_path,
  wants_descriptor_proto, set_phase, give_back, acquire_then, await, run_phase, advance, stop_phase,
  stop, Step, run, end, cancel,
}
use protocompile.Compiler.Permits.Steps.{some_eq}
use protocompile.Compiler.Turn.{
  acquires, has, has_implied, unblocks, clears, reacquires, links, releases, returns, Turn,
}
use protocompile.Compiler.Turn.Cases.{Turned, Next, failed, resolve_turns, check_step_turns}

module _ (s : Semaphore) (c : Callees) where
  module _ (t : String) (r : Task) (w : World s c) where
    await_turns :
        (todo : List String) (implied : Bool) {u : World s c}
        → r.phase ≡ waiting todo implied
        → await s c t r todo implied w ≡ some u
        → Next s c t r w u
    unfolding await set_phase outcome
    await_turns [] false f h = subst (Next s c t r w) (some_eq h) (w.results, _, unblocks f, refl)
    await_turns [] true {u} f h = elim (Option-cases (ready w.results descriptor_proto_path)) [
      | inl g ↦ cc (rw (g, await) at h)
      | inr (ok, g) ↦
          subst (Next s c t r w) (some_eq (rw (g, await) at h)) (w.results, _, has_implied f, refl)
    ]
    await_turns (d ∷ todo) implied {u} f h = elim (Option-cases (ready w.results d)) [
      | inl g ↦ cc (rw (g, await) at h)
      | inr (true, g) ↦
          subst (Next s c t r w) (some_eq (rw (g, await) at h))
            (w.results, _, has d todo implied f g, refl)
      | inr (false, g) ↦
          subst (Next s c t r w) (some_eq (rw (g, await) at h)) (failed s c t r w false f refl)
    ]

    acquire_then_turns :
        (p : Phase) {u : World s c}
        → Turn c t w.results r w.results (record r { phase = p })
        → acquire_then s c t r p w ≡ some u
        → Next s c t r w u
    unfolding acquire_then
    acquire_then_turns p {u} k h = elim (Option-cases (s.acquire w.permits)) [
      | inl g ↦ cc (rw (g, acquire_then) at h)
      | inr (q, g) ↦
          subst (Next s c t r w) (some_eq (rw (g, acquire_then) at h)) (w.results, _, k, refl)
    ]

    run_phase_turns :
        (p : Phase) {u : World s c}
        → r.phase ≡ p
        → run_phase s c t r p w ≡ some u
        → Next s c t r w u
    unfolding run_phase give_back set_phase
    run_phase_turns starting f h = acquire_then_turns resolving (acquires f) h
    run_phase_turns resolving f h =
        subst (Next s c t r w) (some_eq h) (resolve_turns s c t r w (c.find t) f refl)
    run_phase_turns (checking todo stack) f h =
        subst (Next s c t r w) (some_eq h) (check_step_turns s c t r w todo stack f)
    run_phase_turns releasing f h =
        subst (Next s c t r w) (some_eq h)
          (w.results, _, releases (wants_descriptor_proto s c t r.dependency) f, refl)
    run_phase_turns (waiting todo implied) f h = await_turns todo implied f h
    run_phase_turns unblocking f h =
        subst (Next s c t r w) (some_eq h) (w.results, _, clears f, refl)
    run_phase_turns reacquiring f h = acquire_then_turns linking (reacquires f) h
    run_phase_turns linking f h =
        subst (Next s c t r w) (some_eq h) (w.results, _, links (c.link t) f, refl)
    run_phase_turns (finished ok true) f h =
        subst (Next s c t r w) (some_eq h) (w.results, _, returns ok f, refl)
    run_phase_turns (finished ok false) f h = cc

    stop_phase_turns :
        (p : Phase) {u : World s c}
        → r.phase ≡ p
        → stop_phase s c t r p w ≡ some u
        → Next s c t r w u
    unfolding stop_phase outcome
    stop_phase_turns starting f h =
        subst (Next s c t r w) (some_eq h) (failed s c t r w false f refl)
    stop_phase_turns (waiting todo implied) f h =
        subst (Next s c t r w) (some_eq h) (failed s c t r w false f refl)
    stop_phase_turns reacquiring f h =
        subst (Next s c t r w) (some_eq h) (failed s c t r w false f refl)
    stop_phase_turns resolving f h = cc
    stop_phase_turns (checking todo stack) f h = cc
    stop_phase_turns releasing f h = cc
    stop_phase_turns unblocking f h = cc
    stop_phase_turns linking f h = cc
    stop_phase_turns (finished ok held) f h = cc

  -- A task whose result is in the map takes a turn.
  abbrev pub OneTurn : World s c → World s c → Type 0
  OneTurn w u =
      (t : String) × (r : Task) × (w.results t ≡ some r) × Turned c t w.results r u.results

  pub advance_turns :
      (t : String) (w : World s c) {u : World s c} → advance s c t w ≡ some u → OneTurn w u
  unfolding advance
  advance_turns t w {u} h = elim (Option-cases (w.results t)) [
    | inl g ↦ cc (rw (g, advance) at h)
    | inr (r, g) ↦ (t, r, g, run_phase_turns t r w r.phase refl (rw (g, advance) at h))
  ]

  pub stop_turns :
      (t : String) (w : World s c) {u : World s c} → stop s c t w ≡ some u → OneTurn w u
  unfolding stop
  stop_turns t w {u} h = elim (Bool-cases w.cancelled) [
    | inl b ↦ elim (Option-cases (w.results t)) [
      | inl g ↦ cc (rw (b, g, stop) at h)
      | inr (r, g) ↦ (t, r, g, stop_phase_turns t r w r.phase refl (rw (b, g, stop) at h))
    ]
    | inr b ↦ cc (rw (b, stop) at h)
  ]

  pub Step_turns : {w u : World s c} → Step s c w u → OneTurn w u ⊎ (u.results ≡ w.results)
  Step_turns {w} (run t h) = inl (advance_turns t w h)
  Step_turns {w} (end t h) = inl (stop_turns t w h)
  Step_turns cancel = inr refl
