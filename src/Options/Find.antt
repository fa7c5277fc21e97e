-- ===== src/Options/Find.antt =====
-- What the search for an option finds.
use protocompile.Prelude.{ℕ, ◌+◌, ◌≡◌, refl, String, Bool, true, false, ◌↔◌}
use protocompile.Prelude.{Option, none, some, List, [], ◌∷◌, inl, inr, Bool-cases, All}
use protocompile.Diagnostic.{Scope}
use protocompile.Descriptor.{UninterpretedOption}
use protocompile.Reporter.Check.{Accepts, pure}
use protocompile.Options.{skips, find_from, find_option_with}

-- Every option is passed over.
abbrev pub NoneMatch : String → Bool → List UninterpretedOption → Type 0
NoneMatch name exact = All (λ opt. skips name exact opt ≡ true)

module _ (scope : Scope) (name : String) (exact : Bool) where
  pub find_from-NoneMatch :
      (first : Bool) (i : ℕ) (found : Option ℕ) (opts : List UninterpretedOption)
      → NoneMatch name exact opts
      → find_from scope name exact first i found opts ≡ pure found
  unfolding find_from
  find_from-NoneMatch first i found [] h = refl
  find_from-NoneMatch first i found (opt ∷ opts) h =
      rw h.0 (find_from-NoneMatch first (i + 1) found opts h.1)

  -- Once an option is found, a search that reports nothing keeps it.
  find_from-found :
      (i j : ℕ) (opts : List UninterpretedOption)
      → Accepts (find_from scope name exact false i (some j) opts)
      → (find_from scope name exact false i (some j) opts).value ≡ some j
  unfolding find_from
  find_from-found i j [] = λ h. refl
  find_from-found i j (opt ∷ opts) = elim (Bool-cases (skips name exact opt)) [
    | inl e ↦ rw e (find_from-found (i + 1) j opts)
    | inr e ↦ rw e (λ h. cc)
  ]

  NoneMatch-find_from :
      (first : Bool) (i : ℕ) (opts : List UninterpretedOption)
      → Accepts (find_from scope name exact first i none opts)
      → (find_from scope name exact first i none opts).value ≡ none
      → NoneMatch name exact opts
  unfolding find_from
  NoneMatch-find_from first i [] = λ h e. tt
  NoneMatch-find_from true i (opt ∷ opts) = elim (Bool-cases (skips name exact opt)) [
    | inl e ↦ rw e (λ h v. (refl, NoneMatch-find_from true (i + 1) opts h v))
    | inr e ↦ rw e (λ h v. cc)
  ]
  NoneMatch-find_from false i (opt ∷ opts) = elim (Bool-cases (skips name exact opt)) [
    | inl e ↦ rw e (λ h v. (refl, NoneMatch-find_from false (i + 1) opts h v))
    | inr e ↦ rw e (λ h v. cc (find_from-found (i + 1) i opts h))
  ]

-- `findOption` reports nothing and returns -1 exactly when every option is passed over.
pub find_option_with-none :
    (scope : Scope) (opts : List UninterpretedOption) (name : String) (exact first : Bool)
    → (Accepts (find_option_with scope opts name exact first)
        × ((find_option_with scope opts name exact first).value ≡ none))
      ↔ NoneMatch name exact opts
unfolding find_option_with
find_option_with-none scope opts name exact first = (
  λ h. NoneMatch-find_from scope name exact first 0 opts h.0 h.1,
  λ h. rw (find_from-NoneMatch scope name exact first 0 none opts h) (refl, refl),
)
