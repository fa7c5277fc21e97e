-- ===== src/Linker/Symbols/Collisions.antt =====
-- linker/symbols.go: which of the two places `reportSymbolCollision` reports.
use protocompile.Prelude.{
  ◌≡◌, ◌≢◌, ◌⊎◌, ◌<◌, ◌≤◌, ◌||◌, ◌==◌, ==_iff, refl, String, Bool, true, false, arith, Bool-cases,
  inl, inr, eq_iff, str_eq,
}
use protocompile.Source.{SourcePos, SourceSpan}
use protocompile.Diagnostic.{Message, symbol_defined}
use protocompile.Linker.Symbols.{SymbolEntry, pos_less}
use protocompile.Linker.Symbols.Names.{collision_report, collision_suffix, package_text}

-- The first place stands before the second in one file: on an earlier line, or on the same line in
-- an earlier column.
pub record IsBefore (a b : SourcePos) : Type 0 where
  pub one_file : a.filename ≡ b.filename
  pub earlier : (a.line < b.line) ⊎ ((a.line ≡ b.line) × (a.col < b.col))

-- The two places are in different files, or the second does not stand before the first.
abbrev pub NotBefore : SourcePos → SourcePos → Type 0
NotBefore a b =
    (a.filename ≢ b.filename) ⊎ (b.line < a.line) ⊎ ((a.line ≡ b.line) × (b.col ≤ a.col))

pos_less-IsBefore : (a b : SourcePos) → pos_less a b ≡ true → IsBefore a b
unfolding pos_less
pos_less-IsBefore a b h = elim (Bool-cases (str_eq a.filename b.filename)) [
  | inl e ↦ elim (Bool-cases (a.line == b.line)) [
    | inl f ↦ record { one_file = (eq_iff _ _).0 e; earlier = inr ((==_iff _ _).0 f, ground arith) }
    | inr f ↦ record { one_file = (eq_iff _ _).0 e; earlier = inl (ground arith) }
  ]
  | inr e ↦ absurd (ground arith)
]

pos_less-NotBefore : (a b : SourcePos) → pos_less a b ≡ false → NotBefore a b
unfolding pos_less
pos_less-NotBefore a b h = elim (Bool-cases (str_eq a.filename b.filename)) [
  | inl e ↦ elim (Bool-cases (a.line == b.line)) [
    | inl f ↦ inr (inr ((==_iff _ _).0 f, ground arith))
    | inr f ↦ inr (inl (ground arith))
  ]
  | inr e ↦ inl (λ q. cc ((eq_iff a.filename b.filename).1 q))
]

-- The report for a name at one place that names the other, where one of the two is the existing
-- symbol's.
abbrev pub said_of : SourcePos → String → Bool → SymbolEntry → Message
said_of other fqn is_value existing =
    symbol_defined fqn (package_text existing.is_package) other
      (collision_suffix (is_value || existing.is_enum_value))

-- If the addition stands before the existing symbol in one file, the existing symbol is reported and
-- the addition is named in the message. If it does not, or the two are in different files, the addition
-- is reported and the existing symbol is named in the message.
pub collision_report-later :
    (span : SourceSpan) (fqn : String) (is_value : Bool) (existing : SymbolEntry)
    → (IsBefore span.start existing.span.start
        × (collision_report span fqn is_value existing
            ≡ (existing.span, said_of span.start fqn is_value existing)))
      ⊎ (NotBefore span.start existing.span.start
          × (collision_report span fqn is_value existing
              ≡ (span, said_of existing.span.start fqn is_value existing)))
unfolding collision_report
collision_report-later span fqn is_value existing =
    elim (Bool-cases (pos_less span.start existing.span.start)) [
      | inl e ↦ inl (pos_less-IsBefore span.start existing.span.start e, rw e refl)
      | inr e ↦ inr (pos_less-NotBefore span.start existing.span.start e, rw e refl)
    ]
