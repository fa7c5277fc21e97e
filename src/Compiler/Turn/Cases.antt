-- ===== src/Compiler/Turn/Cases.antt =====
-- compiler.go: every step is one of the turns.
use protocompile.Prelude.{
  ◌≡◌, refl, ap, ◌∙◌, inl, inr, Bool, true, false, none, List, [], ◌∷◌, ◌++◌, String, str_eq,
  length-append, arith, Bool-cases, Option-cases,
}
use protocompile.Compiler.{
  Semaphore, Callees, SearchResult, failure, linked, parsed, Phase, Task, Call, enter, loop,
  resolving, checking, releasing, linking, finished, World, Results, put, compile, contains,
  outcome, descriptor_proto_path, wants_descriptor_proto, set_phase, block, resolve, next_import,
  check_step,
}
use protocompile.Compiler.Turn.{
  Turn, gives_up, is_linked, needs_nothing, blocks, compiles, knows, marks, leaves, skips, calls,
  has_checked,
}

-- The results of a world after a turn of `t`.
abbrev pub Turned : Callees → String → Results → Task → Results → Type 0
Turned c t m r u = (n : Results) × (r' : Task) × Turn c t m r n r' × (u ≡ put t r' n)

module _ (s : Semaphore) (c : Callees) (t : String) (r : Task) (w : World s c) where
  abbrev pub Next : World s c → Type 0
  Next u = Turned c t w.results r u.results

  pub open_phase : {p : Phase} → r.phase ≡ p → outcome p ≡ none → outcome r.phase ≡ none
  open_phase f h = ap outcome f ∙ h

  -- The task fails.
  pub failed :
      (held : Bool) {p : Phase}
      → r.phase ≡ p
      → outcome p ≡ none
      → Next (set_phase s c t r (finished false held) w)
  unfolding set_phase
  failed held f h =
      (w.results, record r { phase = finished false held }, gives_up held (open_phase f h), refl)

  pub resolve_turns :
      (f : SearchResult) → r.phase ≡ resolving → c.find t ≡ f → Next (resolve s c t r f w)
  unfolding resolve block set_phase outcome
  resolve_turns failure f h = failed true f refl
  resolve_turns linked f h =
      (w.results, record r { phase = finished true true }, is_linked f h, refl)
  resolve_turns (parsed deps) f h = elim (Bool-cases (wants_descriptor_proto s c t deps)) [
    | inl g ↦ rw g (wanted deps h)
    | inr g ↦ rw g (plain deps h)
  ]
    where
      plain : (deps : List String) → c.find t ≡ parsed deps → Next (block s c t r deps deps w)
      plain [] h = (w.results, record r { phase = linking }, needs_nothing f h, refl)
      plain (d ∷ deps) h = (w.results, _, blocks (d ∷ deps) (d ∷ deps) f h (omega arith), refl)

      wanted :
          (deps : List String)
          → c.find t ≡ parsed deps
          → Next (block s c t r deps (deps ++ (descriptor_proto_path ∷ [])) w)
      wanted [] h = (w.results, _, blocks [] (descriptor_proto_path ∷ []) f h (omega arith), refl)
      wanted (d ∷ deps) h = (
        w.results,
        _,
        blocks (d ∷ deps) (d ∷ (deps ++ (descriptor_proto_path ∷ []))) f h
            (omega (arith, length-append deps (descriptor_proto_path ∷ []))),
        refl,
      )

  next_import_turns :
      (todo : List String) → r.phase ≡ checking todo [] → Next (next_import s c t r todo w)
  unfolding next_import set_phase outcome
  next_import_turns [] f = elim (Bool-cases (wants_descriptor_proto s c t r.dependency)) [
    | inl g ↦
        let n = compile descriptor_proto_path w.results in
        (n, record r { phase = releasing }, has_checked n f (inr refl), rw g)
    | inr g ↦ (w.results, record r { phase = releasing }, has_checked w.results f (inl refl), rw g)
  ]
  next_import_turns (d ∷ todo) f = elim (Bool-cases (str_eq t d)) [
    | inl g ↦ rw g (failed true f refl)
    | inr g ↦ rw g (compile d w.results, _, compiles d todo f, refl)
  ]

  pub check_step_turns :
      (todo : List String) (stack : List Call)
      → r.phase ≡ checking todo stack
      → Next (check_step s c t r todo stack w)
  unfolding check_step set_phase outcome
  check_step_turns todo [] f = next_import_turns todo f
  check_step_turns todo (enter x path ∷ stack) f = elim (Bool-cases (contains r.checked x)) [
    | inl g ↦ rw g (w.results, _, knows x path todo stack f, refl)
    | inr g ↦ rw g (w.results, _, marks x path todo stack f g, refl)
  ]
  check_step_turns todo (loop path [] ∷ stack) f = (w.results, _, leaves path todo stack f, refl)
  check_step_turns todo (loop path (d ∷ deps) ∷ stack) f = elim (Bool-cases (contains path d)) [
    | inl g ↦ rw g (failed true f refl)
    | inr g ↦ elim (Option-cases (w.results d)) [
      | inl h ↦ rw (g, h) (w.results, _, skips d path deps todo stack f, refl)
      | inr (v, h) ↦ rw (g, h) (w.results, _, calls d path deps todo stack f (v, h), refl)
    ]
  ]
