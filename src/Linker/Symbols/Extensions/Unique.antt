-- ===== src/Linker/Symbols/Extensions/Unique.antt =====
-- linker/symbols.go: what one call of `addExtension` or of `AddExtensionDeclaration` accepts, and what
-- it leaves in the table.
use protocompile.Prelude.{
  ◌≡◌, ◌≢◌, ◌⊎◌, refl, String, true, false, ◌&&◌, Option, none, some, List, ◌∷◌, arith, Bool-cases,
  Option-cases, inl, inr, str_eq, eq_iff,
}
use protocompile.Prelude.Int.{ℤ, ◌==ℤ◌, ==ℤ_iff}
use protocompile.Source.{SourceSpan}
use protocompile.Reporter.{Handler, error}
use protocompile.Reporter.Abort.{errorf_marks}
use protocompile.Linker.Symbols.{ExtDecl, ExtNumber, Symbols, find, find_ext, same_number, put}
use protocompile.Linker.Symbols.Extensions.{refuse, add_number, add_extension_declaration}

same_number_self : (n : ExtNumber) → same_number n n ≡ true
unfolding same_number
same_number_self n = ground (arith, eq_iff n.extendee n.extendee, (==ℤ_iff n.tag n.tag).1 refl)

-- The span that the node at `pkg` keeps for an extension number.
abbrev pub kept : String → String → ℤ → Symbols → Option SourceSpan
kept pkg extendee tag t = find_ext (t.packages pkg).exts (record { extendee = extendee; tag = tag })

kept_new :
    (s : Symbols) (pkg extendee : String) (tag : ℤ) (span : SourceSpan)
    → kept pkg extendee tag (
        put s pkg (record (s.packages pkg) {
          exts = (record { extendee = extendee; tag = tag }, span) ∷ (s.packages pkg).exts;
        }))
      ≡ some span
unfolding put find_ext
kept_new s pkg extendee tag span =
    rw ((eq_iff pkg pkg).1 refl)
      (rw (same_number_self (record { extendee = extendee; tag = tag })) refl)

module _ {R : Type 0} (s : Symbols) (pkg extendee : String) (tag : ℤ) where
  -- An extension number that the node does not have is added with its span and no error; one that
  -- it has is refused: the table stays, and the handler's `Error` is not nil.
  pub add_number_lem :
      (span : SourceSpan) (h : Handler R)
      → ((kept pkg extendee tag s ≡ none)
          × ((add_number s pkg extendee tag span h).error ≡ none)
          × (kept pkg extendee tag (add_number s pkg extendee tag span h).table ≡ some span))
        ⊎ ((kept pkg extendee tag s ≢ none)
            × ((add_number s pkg extendee tag span h).table ≡ s)
            × (error (add_number s pkg extendee tag span h).handler ≢ none))
  unfolding add_number refuse
  add_number_lem span h = elim (Option-cases (kept pkg extendee tag s)) [
    | inl e ↦
        inl (e, rw (e, add_number) refl, rw (e, add_number) (kept_new s pkg extendee tag span))
    | inr (x, e) ↦
        inr ((λ p. cc), rw (e, add_number) refl, rw (e, add_number) (errorf_marks h span _))
  ]

-- What the table holds for a declared extension.
abbrev pub declared : Symbols → String → Option ExtDecl
declared s extension = find s.ext_decls extension

-- The declaration is of the given extendee and tag.
abbrev pub Declares : String → ℤ → Option ExtDecl → Type 0
Declares extendee tag none = ⊥
Declares extendee tag (some d) = (d.extendee ≡ extendee) × (d.tag ≡ tag)

find_self :
    (name : String) (d : ExtDecl) (rest : List (String × ExtDecl))
    → find ((name, d) ∷ rest) name ≡ some d
unfolding find
find_self name d rest = rw ((eq_iff name name).1 refl)

same_decl : (a b : String) (m n : ℤ) → (str_eq a b && m ==ℤ n) ≡ true → (a ≡ b) × (m ≡ n)
same_decl a b m n h = elim (Bool-cases (str_eq a b)) [
  | inl e ↦ ((eq_iff a b).0 e, (==ℤ_iff m n).0 (rw e at h))
  | inr e ↦ cc (rw e at h)
]

differs : (a b : String) (m n : ℤ) → (str_eq a b && m ==ℤ n) ≡ false → ¬ ((a ≡ b) × (m ≡ n))
differs a b m n h p = cc (rw ((eq_iff a b).1 p.0, (==ℤ_iff m n).1 p.1) at h)

module _ {R : Type 0} (s : Symbols) (extension extendee : String) (tag : ℤ) where
  -- A declaration is accepted, without an error, exactly when the extension is not declared or is
  -- declared with the same extendee and tag, and then the table declares it so; any other is
  -- refused: the table stays, and the handler's `Error` is not nil.
  pub add_extension_declaration_lem :
      (span : SourceSpan) (h : Handler R)
      → (((declared s extension ≡ none) ⊎ Declares extendee tag (declared s extension))
          × ((add_extension_declaration s extension extendee tag span h).error ≡ none)
          × Declares extendee tag (
              declared (add_extension_declaration s extension extendee tag span h).table extension))
        ⊎ ((declared s extension ≢ none)
            × (¬ Declares extendee tag (declared s extension))
            × ((add_extension_declaration s extension extendee tag span h).table ≡ s)
            × (error (add_extension_declaration s extension extendee tag span h).handler ≢ none))
  unfolding add_extension_declaration refuse
  add_extension_declaration_lem span h = elim (Option-cases (declared s extension)) [
    | inl e ↦ inl (
      inl e,
      rw (e, add_extension_declaration) refl,
      rw (e, add_extension_declaration) (rw (find_self extension _ s.ext_decls) (refl, refl)),
    )
    | inr (d, e) ↦ elim (Bool-cases (str_eq d.extendee extendee && d.tag ==ℤ tag)) [
      | inl same ↦
          let fits : (d.extendee ≡ extendee) × (d.tag ≡ tag) =
            same_decl d.extendee extendee d.tag tag same in
          inl (
            inr (rw e fits),
            rw (e, add_extension_declaration) (rw same refl),
            rw (e, add_extension_declaration) (rw same (rw e fits)),
          )
      | inr other ↦ inr (
        (λ p. cc),
        rw e (λ p. differs d.extendee extendee d.tag tag other p),
        rw (e, add_extension_declaration) (rw other refl),
        rw (e, add_extension_declaration) (rw other (errorf_marks h span _)),
      )
    ]
  ]
