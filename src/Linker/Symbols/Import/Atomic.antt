-- ===== src/Linker/Symbols/Import/Atomic.antt =====
-- An import changes the table for all of a file's symbols or for none.
use protocompile.Prelude.{
  ◌≡◌, ◌≢◌, refl, sym, ◌∙◌, String, true, Option, none, some, List, [], ◌∷◌, ◌++◌, arith, All,
  AllPairs, All-map, Bool-cases, Option-cases, inl, inr, str_eq, eq_iff, if◌then◌else◌,
}
use mathlib.Core.Path.{subst}
use protocompile.Reporter.{Error, Handler, error}
use protocompile.Reporter.Check.{Report, run, append-eq-nil}
use protocompile.Reporter.Abort.{run_marks}
use protocompile.Linker.Symbols.{SymbolEntry, Symbols, find, has_file, put}
use protocompile.Linker.Symbols.Import.{
  Decl, FileSymbols, entry_of, collisions_with, check_file, check_result, commit_decls, commit_file,
  commit_checked, import_symbols,
}

-- The reports of the first pass.
abbrev pub first_pass : Symbols → String → FileSymbols → List Report
first_pass s pkg f =
    if f.has_source
    then check_result (s.packages pkg).symbols [] f.decls
    else check_file (s.packages pkg).symbols f.decls

module _ {R : Type 0} where
  commit_checked_done :
      (s : Symbols) (pkg : String) (f : FileSymbols) (r : Option Error × Handler R)
      → (commit_checked s pkg f r).value ≡ true
      → (error r.1 ≡ none)
        × ((commit_checked s pkg f r).table ≡ put s pkg (commit_file (s.packages pkg) f))
  unfolding commit_checked
  commit_checked_done s pkg f (some e, h) = λ v. cc
  commit_checked_done s pkg f (none, h) = elim (Option-cases (error h)) [
    | inl e ↦ rw (e, commit_checked) (λ v. (refl, refl))
    | inr (x, e) ↦ rw (e, commit_checked) (λ v. cc)
  ]

  run-nil : (h : Handler R) (reports : List Report) → error (run h reports).1 ≡ none → reports ≡ []
  run-nil h [] e = refl
  run-nil h ((sp, m) ∷ rest) e = absurd (run_marks h sp m rest e)

  import_symbols_done :
      (s : Symbols) (pkg : String) (f : FileSymbols) (h : Handler R)
      → (import_symbols s pkg f h).value ≡ true
      → (first_pass s pkg f ≡ [])
        × ((import_symbols s pkg f h).table ≡ put s pkg (commit_file (s.packages pkg) f))
  unfolding import_symbols
  import_symbols_done s pkg f h = elim (Bool-cases (has_file (s.packages pkg).files f.id)) [
    | inl e ↦ rw e (λ v. cc)
    | inr e ↦ rw e (λ v.
        let (none', table) = commit_checked_done s pkg f (run h (first_pass s pkg f)) v in
        (run-nil h (first_pass s pkg f) none', table))
  ]

-- No declaration's name is among the symbols.
abbrev pub AreNew : List (String × SymbolEntry) → List Decl → Type 0
AreNew symbols = All (λ d. find symbols d.full_name ≡ none)

abbrev pub DifferentNames : Decl → Decl → Type 0
DifferentNames a b = a.full_name ≢ b.full_name

collisions_with-nil :
    (symbols : List (String × SymbolEntry)) (d : Decl)
    → collisions_with symbols d ≡ []
    → find symbols d.full_name ≡ none
unfolding collisions_with
collisions_with-nil symbols d = elim (Option-cases (find symbols d.full_name)) [
  | inl e ↦ rw e (λ h. refl)
  | inr (x, e) ↦ rw e (λ h. cc)
]

check_file-nil :
    (symbols : List (String × SymbolEntry)) (decls : List Decl)
    → check_file symbols decls ≡ []
    → AreNew symbols decls
unfolding check_file
check_file-nil symbols [] h = tt
check_file-nil symbols (d ∷ decls) h =
    let (one, rest) = (append-eq-nil (collisions_with symbols d) (check_file symbols decls)).0 h in
    (collisions_with-nil symbols d one, check_file-nil symbols decls rest)

-- What is new to a longer list is new to its tail, and differs from its head.
AreNew-cons :
    (d : Decl) (symbols : List (String × SymbolEntry)) (decls : List Decl)
    → AreNew ((d.full_name, entry_of d) ∷ symbols) decls
    → All (DifferentNames d) decls × AreNew symbols decls
unfolding find
AreNew-cons d symbols [] h = (tt, tt)
AreNew-cons d symbols (g ∷ decls) h =
    let (differ, new) = AreNew-cons d symbols decls h.1 in
    elim (Bool-cases (str_eq d.full_name g.full_name)) [
      | inl e ↦ cc (rw e at h.0)
      | inr e ↦ (((λ p. cc ((eq_iff d.full_name g.full_name).1 p)), differ), ((rw e at h.0), new))
    ]

check_result-nil :
    (symbols result_syms : List (String × SymbolEntry)) (decls : List Decl)
    → check_result symbols result_syms decls ≡ []
    → AreNew symbols decls × AreNew result_syms decls × AllPairs DifferentNames decls
unfolding check_result
check_result-nil symbols result_syms [] h = (tt, tt, tt)
check_result-nil symbols result_syms (d ∷ decls) h =
    let result_syms' = (d.full_name, entry_of d) ∷ result_syms in
    let rest = check_result symbols result_syms' decls in
    let (one, more) =
      (append-eq-nil (collisions_with symbols d) (collisions_with result_syms d ++ rest)).0 h in
    let (two, three) = (append-eq-nil (collisions_with result_syms d) rest).0 more in
    let (new, new', pairs) = check_result-nil symbols result_syms' decls three in
    let (differ, old) = AreNew-cons d result_syms decls new' in
    (
      (collisions_with-nil symbols d one, new),
      (collisions_with-nil result_syms d two, old),
      (differ, pairs),
    )

-- A name that no declaration has is found as before.
commit_decls-other :
    (symbols : List (String × SymbolEntry)) (decls : List Decl) (name : String)
    → All (λ d. d.full_name ≢ name) decls
    → find (commit_decls symbols decls) name ≡ find symbols name
unfolding commit_decls
commit_decls-other symbols [] name h = refl
commit_decls-other symbols (d ∷ decls) name h =
    commit_decls-other ((d.full_name, entry_of d) ∷ symbols) decls name h.1 ∙ skip
  where
    skip : find ((d.full_name, entry_of d) ∷ symbols) name ≡ find symbols name
    skip = unfold find in ground (arith, eq_iff d.full_name name, h.0)

-- Of declarations with different names each is found afterwards.
commit_decls-each :
    (symbols : List (String × SymbolEntry)) (decls : List Decl)
    → AllPairs DifferentNames decls
    → All (λ d. find (commit_decls symbols decls) d.full_name ≡ some (entry_of d)) decls
unfolding commit_decls
commit_decls-each symbols [] h = tt
commit_decls-each symbols (d ∷ decls) h = (
  commit_decls-other ((d.full_name, entry_of d) ∷ symbols) decls d.full_name
        (All-map (λ g p q. p (sym q)) decls h.0)
      ∙ here,
  commit_decls-each ((d.full_name, entry_of d) ∷ symbols) decls h.1,
)
  where
    here : find ((d.full_name, entry_of d) ∷ symbols) d.full_name ≡ some (entry_of d)
    here = unfold find in ground (arith, eq_iff d.full_name d.full_name)

commit_file-finds :
    (s : Symbols) (pkg : String) (f : FileSymbols)
    → AllPairs DifferentNames f.decls
    → All
        (λ d.
          find ((put s pkg (commit_file (s.packages pkg) f)).packages pkg).symbols d.full_name
          ≡ some (entry_of d))
        f.decls
unfolding put commit_file
commit_file-finds s pkg f h =
    rw ((eq_iff pkg pkg).1 refl) (commit_decls-each (s.packages pkg).symbols f.decls h)

module _ {R : Type 0} (s : Symbols) (pkg : String) (f : FileSymbols) (h : Handler R) where
  -- The package's symbols after the import.
  abbrev pub symbols_after : List (String × SymbolEntry)
  symbols_after = ((import_symbols s pkg f h).table.packages pkg).symbols

  -- An import of a result with source that happens found none of the file's names among the
  -- package's symbols, the names are all different, and afterwards each is found with its entry.
  pub import_symbols_new :
      (import_symbols s pkg f h).value ≡ true
      → f.has_source ≡ true
      → AreNew (s.packages pkg).symbols f.decls
        × AllPairs DifferentNames f.decls
        × All (λ d. find symbols_after d.full_name ≡ some (entry_of d)) f.decls
  import_symbols_new v src =
      let (none', table) = import_symbols_done s pkg f h v in
      let (new, _, pairs) =
        check_result-nil (s.packages pkg).symbols [] f.decls (rw src at none') in
      (
        new,
        pairs,
        subst
            (λ (t : Symbols).
              All (λ d. find (t.packages pkg).symbols d.full_name ≡ some (entry_of d)) f.decls)
            (sym table) (commit_file-finds s pkg f pairs),
      )
