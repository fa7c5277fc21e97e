-- ===== src/Reporter/Check.antt =====
-- Code that reports through a handler and goes on unless the handler returns an error:
-- `if err := handler.HandleErrorf(span, …); err != nil { return err }`.
-- A `Check` is the sequence of those calls and the value computed besides; `run` makes the calls,
-- and stops at the first that returns an error.
use protocompile.Prelude.{Bool, true, false, ◌≡◌, refl, Option, none, some, List, [], ◌∷◌, ◌++◌}
use protocompile.Prelude.{◌↔◌, All, if◌then◌else◌}
use protocompile.Source.{SourceSpan}
use protocompile.Diagnostic.{Message}
use protocompile.Reporter.{Error, Handler, handle_errorf}

abbrev pub Report : Type 0
Report = SourceSpan × Message

pub record Check {ℓ} (A : Type ℓ) : Type ℓ where
  pub reports : List Report
  pub value : A

module _ {ℓ} {A : Type ℓ} where
  abbrev pub pure : A → Check A
  pure a = record { reports = []; value = a }

infixl 5 ◌>>=◌ ◌>>◌
abbrev pub ◌>>=◌ {ℓ κ} : {A : Type ℓ} {B : Type κ} → Check A → (A → Check B) → Check B
m >>= f = record { reports = m.reports ++ (f m.value).reports; value = (f m.value).value }

abbrev pub ◌>>◌ {ℓ κ} : {A : Type ℓ} {B : Type κ} → Check A → Check B → Check B
m >> n = record { reports = m.reports ++ n.reports; value = n.value }

abbrev pub done : Check (Unit {0})
done = pure tt

abbrev pub report : SourceSpan → Message → Check (Unit {0})
report span m = record { reports = (span, m) ∷ []; value = tt }

abbrev pub report_if : Bool → SourceSpan → Message → Check (Unit {0})
report_if b span m = if b then report span m else done

unfoldable pub for_each {ℓ} : {A : Type ℓ} → List A → (A → Check (Unit {0})) → Check (Unit {0})
for_each [] f = done
for_each (x ∷ xs) f = f x >> for_each xs f

-- The calls of `HandleErrorf` on a handler, up to the first that returns an error.
unfoldable pub run : {R : Type 0} → Handler R → List Report → Option Error × Handler R
run h [] = (none, h)
run h ((span, m) ∷ rest) =
    let (e, h') = handle_errorf h span m in elim e [ some e' ↦ (some e', h') | none ↦ run h' rest ]

-- Nothing is reported.
abbrev pub Accepts {ℓ} : {A : Type ℓ} → Check A → Type 0
Accepts m = m.reports ≡ []

pub append-eq-nil {ℓ} : {A : Type ℓ} (xs ys : List A) → (xs ++ ys ≡ []) ↔ ((xs ≡ []) × (ys ≡ []))
append-eq-nil [] ys = (λ h. (refl, h), λ h. h.1)
append-eq-nil (x ∷ xs) ys = (λ h. cc, λ h. cc)

pub >>-Accepts {ℓ κ} :
    {A : Type ℓ} {B : Type κ} (m : Check A) (n : Check B)
    → Accepts (m >> n) ↔ (Accepts m × Accepts n)
>>-Accepts m n = append-eq-nil m.reports n.reports

-- A value that only the next check uses.
pub >>=->>-Accepts {ℓ κ ν} :
    {A : Type ℓ} {B : Type κ} {C : Type ν} (m : Check A) (f : A → Check B) (n : Check C)
    → Accepts (m >>= λ a. f a >> n) ↔ (Accepts (m >>= f) × Accepts n)
>>=->>-Accepts m f n =
    let (to, from) = append-eq-nil m.reports ((f m.value).reports ++ n.reports) in
    let (to', from') = append-eq-nil (f m.value).reports n.reports in
    let (to'', from'') = append-eq-nil m.reports (f m.value).reports in
    (
      λ h. (from'' ((to h).0, (to' (to h).1).0), (to' (to h).1).1),
      λ h. from ((to'' h.0).0, from' ((to'' h.0).1, h.1)),
    )

pub report_if-Accepts :
    (b : Bool) (span : SourceSpan) (m : Message) → Accepts (report_if b span m) ↔ (b ≡ false)
report_if-Accepts true span m = (λ h. cc, λ h. cc)
report_if-Accepts false span m = (λ h. refl, λ h. refl)

pub for_each-Accepts {ℓ} :
    {A : Type ℓ} (xs : List A) (f : A → Check (Unit {0}))
    → Accepts (for_each xs f) ↔ All (λ x. Accepts (f x)) xs
unfolding for_each
for_each-Accepts [] f = (λ h. tt, λ h. refl)
for_each-Accepts (x ∷ xs) f =
    let (to, from) = append-eq-nil (f x).reports (for_each xs f).reports in
    let (to', from') = for_each-Accepts xs f in
    (λ h. ((to h).0, to' (to h).1), λ h. from (h.0, from' h.1))
