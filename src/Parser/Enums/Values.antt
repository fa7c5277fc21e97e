-- ===== src/Parser/Enums/Values.antt =====
-- The checks of an enum's numbers: the first value, and aliases where they are not allowed.
use protocompile.Prelude.{
  ◌≡◌, ◌≢◌, refl, String, Bool, true, false, not, ◌&&◌, ◌||◌, ◌↔◌, List, [], ◌∷◌, All, AllPairs,
  str_eq, Bool-cases, inl, inr,
}
use protocompile.Prelude.Int.{ℤ, pos, ◌==ℤ◌, ==ℤ_iff}
use protocompile.Diagnostic.{Scope, Syntax, proto2, proto3, editions, unknown}
use protocompile.Descriptor.{EnumValueDescriptorProto}
use protocompile.Reporter.Check.{Accepts, report_if, >>-Accepts, report_if-Accepts}
use protocompile.Parser.Messages.{name_of_tag}
use protocompile.Parser.Messages.Fields.{IsFree, IsNamed, name_of_tag-IsFree}
use protocompile.Parser.Names.{is_proto3}
use protocompile.Parser.Enums.{check_aliases, check_first_value}

abbrev pub DistinctNumbers : EnumValueDescriptorProto → EnumValueDescriptorProto → Type 0
DistinctNumbers a b = a.number ≢ b.number

-- The number is not in the map.
abbrev IsNew : List (ℤ × String) → EnumValueDescriptorProto → Type 0
IsNew vals ev = IsFree vals ev.number

add_number :
    (vals : List (ℤ × String)) (ev : EnumValueDescriptorProto) (evs : List EnumValueDescriptorProto)
    → All (IsNew ((ev.number, ev.name) ∷ vals)) evs
      ↔ (All (DistinctNumbers ev) evs × All (IsNew vals) evs)
add_number vals ev [] = (λ h. (tt, tt), λ h. tt)
add_number vals ev (g ∷ evs) =
    let (to, from) = add_number vals ev evs in
    (λ h. ((h.0.0, (to h.1).0), (h.0.1, (to h.1).1)), λ h. ((h.0.0, h.1.0), from (h.0.1, h.1.1)))

and_true : (b : Bool) → ((b && true) ≡ false) ↔ (b ≡ false)
and_true true = (λ h. h, λ h. h)
and_true false = (λ h. h, λ h. h)

-- Without aliases, from any numbers that are already taken.
pub check_aliases-Accepts :
    (scope : Scope) (has_alias : Bool) (vals : List (ℤ × String))
    (evs : List EnumValueDescriptorProto)
    → IsNamed vals
    → All (λ ev. ev.name ≢ "") evs
    → Accepts (check_aliases scope false has_alias vals evs)
      ↔ (All (IsNew vals) evs × AllPairs DistinctNumbers evs)
unfolding check_aliases
check_aliases-Accepts scope has_alias vals [] named h = (λ e. (tt, tt), λ e. refl)
check_aliases-Accepts scope has_alias vals (ev ∷ evs) named h =
    let dup = not (str_eq (name_of_tag vals ev.number) "") in
    let (to, from) =
      >>-Accepts {A = Unit {0}} (report_if (dup && true) ev.number_span _) (
        check_aliases scope false (has_alias || (dup && false)) ((ev.number, ev.name) ∷ vals)
          evs) in
    let (p, p') = report_if-Accepts (dup && true) ev.number_span _ in
    let (a, a') = and_true dup in
    let (n, n') = name_of_tag-IsFree vals ev.number named in
    let (more, more') =
      check_aliases-Accepts scope (has_alias || (dup && false)) ((ev.number, ev.name) ∷ vals) evs
        (h.0, named) h.1 in
    let (split, join) = add_number vals ev evs in
    (
      λ e.
          let rest = more (to e).1 in
          ((n (a (p (to e).0)), (split rest.0).1), ((split rest.0).0, rest.1)),
      λ e. from (p' (a' (n' e.0.0)), more' (join (e.1.0, e.0.1), e.1.1)),
    )

-- The first value, if there is one, is zero.
abbrev pub FirstIsZero : List EnumValueDescriptorProto → Type 0
FirstIsZero [] = Unit
FirstIsZero (ev ∷ evs) = ev.number ≡ pos 0

pub check_first_value-Accepts :
    (syntax : Syntax) (scope : Scope) (evs : List EnumValueDescriptorProto)
    → Accepts (check_first_value syntax scope evs) ↔ (syntax ≡ proto3 → FirstIsZero evs)
unfolding check_first_value is_proto3
check_first_value-Accepts syntax scope [] = (λ h e. tt, λ h. refl)
check_first_value-Accepts proto3 scope (ev ∷ evs) = elim (Bool-cases (ev.number ==ℤ pos 0)) [
  | inl e ↦ rw e (λ h p. (==ℤ_iff ev.number (pos 0)).0 e, λ h. refl)
  | inr e ↦ rw e (λ h. cc, λ h. cc ((==ℤ_iff ev.number (pos 0)).1 (h refl)))
]
check_first_value-Accepts proto2 scope (ev ∷ evs) = (λ h e. cc, λ h. refl)
check_first_value-Accepts editions scope (ev ∷ evs) = (λ h e. cc, λ h. refl)
check_first_value-Accepts unknown scope (ev ∷ evs) = (λ h e. cc, λ h. refl)
