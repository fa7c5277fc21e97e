-- ===== src/Compiler/Wait/Steps.antt =====
-- compiler.go: the steps of a task keep the results in order.
use protocompile.Prelude.{
  ◌≡◌, sym, subst, ◌≢◌, ◌⊎◌, inl, inr, Bool, true, false, some, List, [], ◌∷◌, ◌++◌, String, str_eq,
  arith, Bool-cases, Option-cases,
}
use protocompile.Compiler.{
  Semaphore, Callees, Phase, Task, Call, enter, loop, checking, releasing, linking, finished, World,
  Results, put, blocked, contains, descriptor_proto_path, wants_descriptor_proto, set_phase, block,
  next_import, check_step,
}
use protocompile.Compiler.Wait.{In, Checking, Knows, Ordered}
use protocompile.Compiler.Wait.Calls.{
  contains-In, enter_again, enter_first, loop_done, loop_skip, loop_call, import_call,
  Checking-phase,
}
use protocompile.Compiler.Wait.Store.{
  str_eq-false, blocked-some, blocked-put, Created-compile_self, compile_keeps, Ordered-put,
  Ordered-block, Ordered-compile,
}

-- A task's phase changes, and nothing that it is blocked on is added.
module _ {wants : String → List String → Bool} {m : Results} (o : Ordered wants m) (t : String)
    (r : Task) (e : m t ≡ some r) where
  pub Ordered-phase :
      (p : Phase)
      → Knows m o.stamp wants t (record r { phase = p }) p
      → Ordered wants (put t (record r { phase = p }) m)
  Ordered-phase p k =
      Ordered-put o t (record r { phase = p })
        (λ a i. subst (λ l. In a l) (sym (blocked-some m t r e)) i) k

  pub checking_known :
      (todo : List String) (stack : List Call)
      → r.phase ≡ checking todo stack
      → Checking m o.stamp (wants t r.dependency) t r todo stack
  checking_known todo stack f = subst (Knows m o.stamp wants t r) f (o.knows t r e)

abbrev pub Good : (s : Semaphore) (c : Callees) → World s c → Type 0
Good s c u = Ordered (wants_descriptor_proto s c) u.results

module _ (s : Semaphore) (c : Callees) (t : String) (r : Task) (w : World s c) where
  next_import-Ordered :
      Good s c w
      → w.results t ≡ some r
      → (todo : List String) → r.phase ≡ checking todo []
      → Good s c (next_import s c t r todo w)
  unfolding next_import set_phase
  next_import-Ordered o e [] f = elim (Bool-cases (wants_descriptor_proto s c t r.dependency)) [
    | inl g ↦
        let o' = Ordered-compile o descriptor_proto_path in
        let e' = compile_keeps descriptor_proto_path w.results t r e in
        rw g (
          Ordered-phase o' t r e' releasing (
            Checking-phase releasing (checking_known o' t r e' [] [] f),
            λ h. Created-compile_self descriptor_proto_path w.results,
          ))
    | inr g ↦ rw g (
        Ordered-phase o t r e releasing
          (Checking-phase releasing (checking_known o t r e [] [] f), λ h. absurd (ground arith)))
  ]
  next_import-Ordered o e (d ∷ todo) f = elim (Bool-cases (str_eq t d)) [
    | inl g ↦ rw g (Ordered-phase o t r e (finished false true) tt)
    | inr g ↦
        let o' = Ordered-compile o d in
        let e' = compile_keeps d w.results t r e in
        let p = checking todo (enter d (t ∷ d ∷ []) ∷ []) in
        rw g (
          Ordered-phase o' t r e' p (
            Checking-phase p (
              import_call d (Created-compile_self d w.results) (str_eq-false t d g)
                (checking_known o' t r e' (d ∷ todo) [] f))))
  ]

  pub check_step-Ordered :
      Good s c w
      → w.results t ≡ some r
      → (todo : List String) (stack : List Call) → r.phase ≡ checking todo stack
      → Good s c (check_step s c t r todo stack w)
  unfolding check_step set_phase
  check_step-Ordered o e todo [] f = next_import-Ordered o e todo f
  check_step-Ordered o e todo (enter x path ∷ stack) f =
      let k = checking_known o t r e todo (enter x path ∷ stack) f in
      elim (Bool-cases (contains r.checked x)) [
        | inl g ↦
            let p = checking todo stack in
            rw g (
              Ordered-phase o t r e p
                (Checking-phase p (enter_again x path stack (contains-In r.checked x g) k)))
        | inr g ↦
            let p = checking todo (loop path (blocked w.results x) ∷ stack) in
            rw g (
              Ordered-put o t (record r { checked = x ∷ r.checked; phase = p })
                (λ a i. subst (λ l. In a l) (sym (blocked-some w.results t r e)) i)
                (Checking-phase p (enter_first x path stack k)))
      ]
  check_step-Ordered o e todo (loop path [] ∷ stack) f =
      let p = checking todo stack in
      Ordered-phase o t r e p (
        Checking-phase p
          (loop_done path stack (checking_known o t r e todo (loop path [] ∷ stack) f)))
  check_step-Ordered o e todo (loop path (d ∷ deps) ∷ stack) f =
      let k = checking_known o t r e todo (loop path (d ∷ deps) ∷ stack) f in
      elim (Bool-cases (contains path d)) [
        | inl g ↦ rw g (Ordered-phase o t r e (finished false true) tt)
        | inr g ↦ elim (Option-cases (w.results d)) [
          | inl h ↦
              let p = checking todo (loop path deps ∷ stack) in
              rw (g, h)
                (Ordered-phase o t r e p (Checking-phase p (loop_skip d path deps stack h k)))
          | inr (v, h) ↦
              let p = checking todo (enter d (path ++ (d ∷ [])) ∷ loop path deps ∷ stack) in
              rw (g, h)
                (Ordered-phase o t r e p
                  (Checking-phase p (loop_call d path deps stack (v, h) g k)))
        ]
      ]

  pub block-Ordered :
      Good s c w
      → w.results t ≡ some r
      → (deps imports : List String)
      → ((a : String) → In a imports → In a deps ⊎ (a ≡ descriptor_proto_path))
      → ((a : String) → In a deps → In a imports)
      → (wants_descriptor_proto s c t deps ≡ true → In descriptor_proto_path imports)
      → (t ≡ descriptor_proto_path → imports ≡ [])
      → Good s c (block s c t r deps imports w)
  unfolding block set_phase
  block-Ordered o e deps [] known all implied quiet = Ordered-phase o t r e linking tt
  block-Ordered o e deps (i ∷ imports) known all implied quiet =
      Ordered-block o t r' other (record {
        own = λ a j. elim (known a j) [
          | inl h ↦ inl h
          | inr h ↦ inr (inr (inr (λ b l. absurd (free b (subst (λ y. In b (blocked m' y)) h l)))))
        ];
        seen = λ v w' j. absurd j;
        apart = λ v j. absurd j;
        calls = tt;
        imports = all;
        made = λ d j. inl j;
        implied = implied;
      })
    where
      r' : Task
      r' = record {
        blocked_on = i ∷ imports;
        dependency = deps;
        checked = [];
        phase = checking deps [];
      }

      m' : Results
      m' = put t r' w.results

      other : t ≢ descriptor_proto_path
      other h = ground (arith, quiet h)

      free : (b : String) → ¬ (In b (blocked m' descriptor_proto_path))
      free b l = elim (blocked-put t r' w.results descriptor_proto_path b l) [
        | inl (h, j) ↦ other h
        | inr (h, j) ↦ o.unblocked b j
      ]
