-- ===== src/Compiler/Permits/Steps.antt =====
-- compiler.go: each step of a task takes or gives back the permit that its phase says.
use protocompile.Prelude.{
  ◌≡◌, sym, subst, ap, ◌∙◌, ◌≢◌, inl, inr, true, false, none, some, List, [], ◌∷◌, ◌++◌, String,
  str_eq, eq_iff, if◌then◌else◌, arith, Bool-cases, Option-cases,
}
use protocompile.Compiler.{
  Semaphore, Callees, SearchResult, failure, linked, parsed, Phase, Task, Call, enter, loop,
  checking, releasing, linking, finished, World, Results, put, compile, contains, new_task,
  descriptor_proto_path, wants_descriptor_proto, set_phase, give_back, acquire_then, block, resolve,
  next_import, check_step, blocked,
}
use protocompile.Compiler.Permits.{holds, holding}
use protocompile.Compiler.Permits.Count.{Count, Count-same, Count-more, Count-fewer}
use protocompile.Compiler.Wait.Store.{put_self, compile_cases, compile_keeps}

pub some_eq {ℓ} : {A : Type ℓ} {a b : A} → some a ≡ some b → a ≡ b
some_eq h = cc

holding-some : (m : Results) (x : String) (r : Task) → m x ≡ some r → holding m x ≡ holds r.phase
unfolding holding
holding-some m x r e = rw (e, holding)

holding-put_self : (t : String) (r : Task) (m : Results) → holding (put t r m) t ≡ holds r.phase
holding-put_self t r m = holding-some (put t r m) t r (put_self t r m)

holding-put :
    (t : String) (r : Task) (m : Results) (x : String) → t ≢ x → holding (put t r m) x ≡ holding m x
unfolding holding
holding-put t r m x n = elim (Bool-cases (str_eq t x)) [
  | inl e ↦ absurd (n ((eq_iff t x).0 e))
  | inr e ↦ rw (e, holding)
]

-- An entry is written whose task holds a permit if the entry's task did.
put_same :
    (t : String) (r : Task) (m : Results)
    → holds r.phase ≡ holding m t
    → (x : String) → holding (put t r m) x ≡ holding m x
put_same t r m h x = elim (Bool-cases (str_eq t x)) [
  | inl e ↦
      subst (λ y. holding (put t r m) y ≡ holding m y) ((eq_iff t x).0 e)
        (holding-put_self t r m ∙ h)
  | inr e ↦ holding-put t r m x (λ f. ground (arith, eq_iff t x))
]

holding-none : (m : Results) (x : String) → m x ≡ none → holding m x ≡ false
unfolding holding
holding-none m x e = rw (e, holding)

pub compile_same : (d : String) (m : Results) (x : String) → holding (compile d m) x ≡ holding m x
unfolding holds
compile_same d m x = elim (compile_cases d m) [
  | inl e ↦ ap (λ (n : Results). holding n x) e
  | inr (g, e) ↦
      ap (λ (n : Results). holding n x) e ∙ put_same d new_task m (sym (holding-none m d g)) x
]

module _ (s : Semaphore) (c : Callees) where
  abbrev pub Held : World s c → Type 0
  Held w = Count (holding w.results) (s.held w.permits)

  module _ (t : String) (r : Task) (w : World s c) (k : Held w) (e : w.results t ≡ some r) where
    pub same_phase :
        (q : Task)
        → holds q.phase ≡ holds r.phase
        → Count (holding (put t q w.results)) (s.held w.permits)
    same_phase q h = Count-same k (put_same t q w.results (h ∙ sym (holding-some w.results t r e)))

    -- The same after the result of another file was made.
    same_after :
        (d : String) (q : Task)
        → holds q.phase ≡ holds r.phase
        → Count (holding (put t q (compile d w.results))) (s.held w.permits)
    same_after d q h =
        let e' = compile_keeps d w.results t r e in
        Count-same (Count-same k (compile_same d w.results))
          (put_same t q (compile d w.results) (h ∙ sym (holding-some (compile d w.results) t r e')))

    pub acquire_then-Held :
        (p : Phase) {u : World s c}
        → holds r.phase ≡ false
        → holds p ≡ true
        → acquire_then s c t r p w ≡ some u
        → Held u
    unfolding acquire_then
    acquire_then-Held p {u} idle busy h = elim (Option-cases (s.acquire w.permits)) [
      | inl g ↦ cc (rw (g, acquire_then) at h)
      | inr (q, g) ↦
          let r' = record r { phase = p } in
          subst Held (some_eq (rw (g, acquire_then) at h)) (
            subst (Count (holding (put t r' w.results))) (sym (s.held-acquire w.permits q g)) (
              Count-more k t (λ x n. holding-put t r' w.results x n)
                (holding-some w.results t r e ∙ idle) (holding-put_self t r' w.results ∙ busy)))
    ]

    pub give_back-Held :
        (p : Phase) → holds r.phase ≡ true → holds p ≡ false → Held (give_back s c t r p w)
    unfolding give_back
    give_back-Held p busy idle =
        let r' = record r { phase = p } in
        subst (Count (holding (put t r' w.results))) (sym (s.held-release w.permits)) (
          Count-fewer k t (λ x n. holding-put t r' w.results x n)
            (holding-some w.results t r e ∙ busy) (holding-put_self t r' w.results ∙ idle))

    block-Held :
        (deps imports : List String) → holds r.phase ≡ true → Held (block s c t r deps imports w)
    unfolding block set_phase holds
    block-Held deps [] h = same_phase (record r { phase = linking }) (sym h)
    block-Held deps (i ∷ imports) h =
        same_phase
          (record {
            blocked_on = i ∷ imports;
            dependency = deps;
            checked = [];
            phase = checking deps [];
          })
          (sym h)

    pub resolve-Held : (f : SearchResult) → holds r.phase ≡ true → Held (resolve s c t r f w)
    unfolding resolve set_phase holds
    resolve-Held failure h = same_phase (record r { phase = finished false true }) (sym h)
    resolve-Held linked h = same_phase (record r { phase = finished true true }) (sym h)
    resolve-Held (parsed deps) h =
        block-Held deps
          (if wants_descriptor_proto s c t deps then deps ++ (descriptor_proto_path ∷ []) else deps)
          h

    next_import-Held :
        (todo : List String) → holds r.phase ≡ true → Held (next_import s c t r todo w)
    unfolding next_import set_phase holds
    next_import-Held [] h = elim (Bool-cases (wants_descriptor_proto s c t r.dependency)) [
      | inl g ↦ rw g (same_after descriptor_proto_path (record r { phase = releasing }) (sym h))
      | inr g ↦ rw g (same_phase (record r { phase = releasing }) (sym h))
    ]
    next_import-Held (d ∷ todo) h = elim (Bool-cases (str_eq t d)) [
      | inl g ↦ rw g (same_phase (record r { phase = finished false true }) (sym h))
      | inr g ↦
          rw g
            (same_after d (record r { phase = checking todo (enter d (t ∷ d ∷ []) ∷ []) }) (sym h))
    ]

    pub check_step-Held :
        (todo : List String) (stack : List Call)
        → holds r.phase ≡ true
        → Held (check_step s c t r todo stack w)
    unfolding check_step set_phase holds
    check_step-Held todo [] h = next_import-Held todo h
    check_step-Held todo (enter x path ∷ stack) h = elim (Bool-cases (contains r.checked x)) [
      | inl g ↦ rw g (same_phase (record r { phase = checking todo stack }) (sym h))
      | inr g ↦ rw g (
          same_phase
            (record r {
              checked = x ∷ r.checked;
              phase = checking todo (loop path (blocked w.results x) ∷ stack);
            })
            (sym h))
    ]
    check_step-Held todo (loop path [] ∷ stack) h =
        same_phase (record r { phase = checking todo stack }) (sym h)
    check_step-Held todo (loop path (d ∷ deps) ∷ stack) h = elim (Bool-cases (contains path d)) [
      | inl g ↦ rw g (same_phase (record r { phase = finished false true }) (sym h))
      | inr g ↦ elim (Option-cases (w.results d)) [
        | inl a ↦
            rw (g, a)
              (same_phase (record r { phase = checking todo (loop path deps ∷ stack) }) (sym h))
        | inr (v, a) ↦
            rw (g, a)
              (same_phase
                (record r {
                  phase = checking todo (enter d (path ++ (d ∷ [])) ∷ loop path deps ∷ stack);
                })
                (sym h))
      ]
    ]
