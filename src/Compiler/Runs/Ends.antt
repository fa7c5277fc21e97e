-- ===== src/Compiler/Runs/Ends.antt =====
-- The end of a run of compiler.go's tasks at concrete files.
use protocompile.Prelude.{
  ◌≡◌, refl, sym, subst, ◌⊎◌, inl, inr, ◌*◌, ◌≤◌, List, [], ◌∷◌, String, eq_iff, length, arith,
}
use protocompile.Compiler.{parsed, descriptor_proto_path}
use protocompile.Compiler.Ends.{Closed}
use protocompile.Compiler.Ends.Total.{steps, whole, steps-le}
use protocompile.Compiler.Imports.Steps.{parsed_eq}
use protocompile.Compiler.Permits.Count.{Once}
use protocompile.Compiler.Wait.{In}
use protocompile.Compiler.Runs.{files, two_permits, compiled-Reach}

-- The files of the compilation of `a`.
abbrev universe : List String
universe = "a" ∷ "b" ∷ descriptor_proto_path ∷ []

universe-Once : Once universe
universe-Once = (
  (λ i. elim i [
    | inl e ↦ ground (arith, eq_iff "b" "a")
    | inr j ↦ elim j [ inl e ↦ ground (arith, eq_iff descriptor_proto_path "a") | inr k ↦ k ]
  ]),
  (
    (λ i. elim i [ inl e ↦ ground (arith, eq_iff descriptor_proto_path "b") | inr j ↦ j ]),
    ((λ i. i), tt),
  ),
)

-- What a file of the compilation imports.
universe_imports :
    (x : String) (deps : List String)
    → files.find x ≡ parsed deps
    → In x universe
    → (deps ≡ "b" ∷ []) ⊎ (deps ≡ [])
universe_imports x deps f (inl e) =
    inl (sym (parsed_eq (subst (λ y. files.find y ≡ parsed deps) (sym e) f)))
universe_imports x deps f (inr (inl e)) =
    inr (sym (parsed_eq (subst (λ y. files.find y ≡ parsed deps) (sym e) f)))
universe_imports x deps f (inr (inr (inl e))) =
    let g : files.find descriptor_proto_path ≡ parsed deps =
      subst (λ y. files.find y ≡ parsed deps) (sym e) f in
    cc
universe_imports x deps f (inr (inr (inr i))) = elim i [ ]

universe-Closed : Closed files universe 2
universe-Closed = record {
  once = universe-Once;
  descriptor = inr (inr (inl refl));
  found = λ x deps f i d j. elim (universe_imports x deps f i) [
    | inl e ↦ elim (subst (λ l. In d l) e j) [ inl k ↦ inr (inl k) | inr k ↦ absurd k ]
    | inr e ↦ absurd (subst (λ l. In d l) e j)
  ];
  few = λ x deps f i. elim (universe_imports x deps f i) [
    | inl e ↦ rw e (omega arith)
    | inr e ↦ rw e (omega arith)
  ];
}

asked-In : (x : String) → In x ("a" ∷ []) → In x universe
asked-In x (inl e) = inl e
asked-In x (inr i) = elim i [ ]

steps-le_example :
    steps files universe 2 universe-Closed two_permits compiled-Reach
    ≤ length universe * whole files universe 2 universe-Closed
steps-le_example =
    steps-le files universe 2 universe-Closed two_permits ("a" ∷ []) asked-In compiled-Reach
