-- ===== src/Parser/Fields/Valid.antt =====
-- `validateField` accepts exactly the fields that keep the rules of their syntax.
use protocompile.Prelude.{
  ◌≡◌, ◌≢◌, refl, ◌↔◌, String, true, false, not, ◌&&◌, Option, none, some, Bool-cases, inl, inr,
  str_eq, eq_iff,
}
use protocompile.Diagnostic.{
  Scope, Syntax, proto2, proto3, editions, unknown, no_label, extension_required,
  optional_not_allowed, required_not_allowed, packed_not_allowed, default_not_allowed, missing_tag,
}
use protocompile.Descriptor.{
  Label, optional, required, repeated, FieldType, group_type, other_type, FieldDescriptorProto,
  get_extendee,
}
use protocompile.Reporter.Check.{Accepts, report_if, >>-Accepts, report_if-Accepts, ◌>>◌}
use protocompile.Options.Find.{NoneMatch}
use protocompile.Parser.Names.{validate_no_features}
use protocompile.Parser.Names.Found.{
  FeaturesAllowed, find_option-Accepts, validate_no_features-Accepts,
}
use protocompile.Parser.Fields.{
  is_required, is_optional, is_nil, field_scope, check_group, check_no_option, check_syntax,
  validate_field,
}

-- No group, and no required label.
abbrev IsModern : FieldDescriptorProto → Type 0
IsModern fld = (fld.type ≡ other_type) × (fld.label ≢ some required)

-- The rules of each syntax. In proto2 only a field of a oneof has no label, and an extension is
-- not required.
abbrev pub FieldRules : Syntax → FieldDescriptorProto → Type 0
FieldRules proto2 fld =
    (¬ ((fld.label ≡ none) × (fld.oneof_index ≡ none)))
    × (¬ ((get_extendee fld.extendee ≢ "") × (fld.label ≡ some required)))
FieldRules proto3 fld = IsModern fld × NoneMatch "default" true fld.options
FieldRules editions fld =
    IsModern fld × (fld.label ≢ some optional) × NoneMatch "packed" true fld.options
FieldRules unknown fld = IsModern fld

pub record IsValidField (syntax : Syntax) (fld : FieldDescriptorProto) : Type 0 where
  pub has_number : fld.number ≢ none
  pub rules : FieldRules syntax fld
  pub features : FeaturesAllowed syntax fld.options

is_required-false : (l : Option Label) → (is_required l ≡ false) ↔ (l ≢ some required)
unfolding is_required
is_required-false none = (λ h p. cc, λ h. refl)
is_required-false (some optional) = (λ h p. cc, λ h. refl)
is_required-false (some required) = (λ h. cc, λ h. absurd (h refl))
is_required-false (some repeated) = (λ h p. cc, λ h. refl)

is_optional-false : (l : Option Label) → (is_optional l ≡ false) ↔ (l ≢ some optional)
unfolding is_optional
is_optional-false none = (λ h p. cc, λ h. refl)
is_optional-false (some optional) = (λ h. cc, λ h. absurd (h refl))
is_optional-false (some required) = (λ h p. cc, λ h. refl)
is_optional-false (some repeated) = (λ h p. cc, λ h. refl)

is_nil-false : {A : Type 0} (o : Option A) → (is_nil o ≡ false) ↔ (o ≢ none)
unfolding is_nil
is_nil-false none = (λ h. cc, λ h. absurd (h refl))
is_nil-false (some a) = (λ h p. cc, λ h. refl)

both_nil :
    {A B : Type 0} (a : Option A) (b : Option B)
    → ((is_nil a && is_nil b) ≡ false) ↔ ¬ ((a ≡ none) × (b ≡ none))
unfolding is_nil
both_nil none none = (λ h. cc, λ h. absurd (h (refl, refl)))
both_nil none (some b) = (λ h p. cc, λ h. refl)
both_nil (some a) b = (λ h p. cc, λ h. refl)

required_extension :
    (extendee : String) (l : Option Label)
    → ((not (str_eq extendee "") && is_required l) ≡ false)
      ↔ ¬ ((extendee ≢ "") × (l ≡ some required))
required_extension extendee l = elim (Bool-cases (str_eq extendee "")) [
  | inl e ↦ rw e (λ h p. absurd (p.0 ((eq_iff extendee "").0 e)), λ h. refl)
  | inr e ↦
      let (to, from) = is_required-false l in
      rw e (λ h p. to h p.1, λ h. from (λ q. h ((λ p. cc ((eq_iff extendee "").1 p)), q)))
]

check_group-Accepts :
    (scope : Scope) (fld : FieldDescriptorProto) (t : FieldType)
    → Accepts (check_group scope fld t) ↔ ((t ≡ other_type) × (fld.label ≢ some required))
unfolding check_group
check_group-Accepts scope fld group_type = (λ h. cc, λ h. cc)
check_group-Accepts scope fld other_type =
    let (to, from) =
      report_if-Accepts (is_required fld.label) fld.node.label_span (required_not_allowed scope) in
    let (to', from') = is_required-false fld.label in
    (λ h. (refl, to' (to h)), λ h. from (from' h.1))

check_syntax-Accepts :
    (syntax : Syntax) (scope : Scope) (fld : FieldDescriptorProto)
    → Accepts (check_syntax syntax scope fld) ↔ FieldRules syntax fld
unfolding check_syntax check_no_option
check_syntax-Accepts proto2 scope fld =
    let no_labels = is_nil fld.label && is_nil fld.oneof_index in
    let extends = not (str_eq (get_extendee fld.extendee) "") && is_required fld.label in
    let a = report_if no_labels fld.node.name_span (no_label scope) in
    let b = report_if extends fld.node.label_span (extension_required scope) in
    let (ab, ab') = >>-Accepts a b in
    let (p, p') = report_if-Accepts no_labels fld.node.name_span (no_label scope) in
    let (q, q') = report_if-Accepts extends fld.node.label_span (extension_required scope) in
    let (n, n') = both_nil fld.label fld.oneof_index in
    let (r, r') = required_extension (get_extendee fld.extendee) fld.label in
    (λ h. (n (p (ab h).0), r (q (ab h).1)), λ h. ab' (p' (n' h.0), q' (r' h.1)))
check_syntax-Accepts proto3 scope fld =
    let a = check_group scope fld fld.type in
    let b = check_no_option scope fld "default" (default_not_allowed scope) in
    let (ab, ab') = >>-Accepts a b in
    let (p, p') = check_group-Accepts scope fld fld.type in
    let (q, q') =
      find_option-Accepts scope fld.options "default" fld.node.span (default_not_allowed scope) in
    (λ h. (p (ab h).0, q (ab h).1), λ h. ab' (p' h.0, q' h.1))
check_syntax-Accepts editions scope fld =
    let a = check_group scope fld fld.type in
    let b = report_if (is_optional fld.label) fld.node.label_span (optional_not_allowed scope) in
    let c = check_no_option scope fld "packed" (packed_not_allowed scope) in
    let (abc, abc') = >>-Accepts a (b >> c) in
    let (bc, bc') = >>-Accepts b c in
    let (p, p') = check_group-Accepts scope fld fld.type in
    let (q, q') =
      report_if-Accepts (is_optional fld.label) fld.node.label_span (optional_not_allowed scope) in
    let (o, o') = is_optional-false fld.label in
    let (r, r') =
      find_option-Accepts scope fld.options "packed" fld.node.span (packed_not_allowed scope) in
    (
      λ h. let rest = bc (abc h).1 in (p (abc h).0, o (q rest.0), r rest.1),
      λ h. abc' (p' h.0, bc' (q' (o' h.1), r' h.2)),
    )
check_syntax-Accepts unknown scope fld = check_group-Accepts scope fld fld.type

-- `validateField` reports nothing exactly when the field has a number, keeps the rules of the
-- syntax on groups, labels and the options `default` and `packed`, and has features only in
-- editions.
pub validate_field-Accepts :
    (syntax : Syntax) (name : String) (fld : FieldDescriptorProto)
    → Accepts (validate_field syntax name fld) ↔ IsValidField syntax fld
unfolding validate_field
validate_field-Accepts syntax name fld =
    let scope = field_scope fld name in
    let a = report_if (is_nil fld.number) fld.node.span (missing_tag scope) in
    let b = check_syntax syntax scope fld in
    let c = validate_no_features syntax scope fld.options fld.node.span in
    let (abc, abc') = >>-Accepts a (b >> c) in
    let (bc, bc') = >>-Accepts b c in
    let (p, p') = report_if-Accepts (is_nil fld.number) fld.node.span (missing_tag scope) in
    let (n, n') = is_nil-false fld.number in
    let (q, q') = check_syntax-Accepts syntax scope fld in
    let (r, r') = validate_no_features-Accepts syntax scope fld.options fld.node.span in
    (
      λ h.
          let rest = bc (abc h).1 in
          record { has_number = n (p (abc h).0); rules = q rest.0; features = r rest.1 },
      λ v. abc' (p' (n' v.has_number), bc' (q' v.rules, r' v.features)),
    )
