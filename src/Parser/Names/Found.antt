-- ===== src/Parser/Names/Found.antt =====
-- The checks that an option is absent.
use protocompile.Prelude.{ℕ, ◌≡◌, refl, String, Bool, true, false, ◌↔◌, Option, none, some}
use protocompile.Prelude.{List}
use protocompile.Source.{SourceSpan}
use protocompile.Diagnostic.{Scope, Message, Syntax, proto2, proto3, editions, unknown}
use protocompile.Descriptor.{UninterpretedOption}
use protocompile.Reporter.Check.{Accepts, ◌>>=◌, append-eq-nil}
use protocompile.Options.{find_option, find_first_option, find_option_with}
use protocompile.Options.Find.{NoneMatch, find_option_with-none}
use protocompile.Parser.Names.{report_found, validate_no_features}

report_found-Accepts :
    (opts : List UninterpretedOption) (span : SourceSpan) (m : Message) (o : Option ℕ)
    → Accepts (report_found opts span m o) ↔ (o ≡ none)
unfolding report_found
report_found-Accepts opts span m none = (λ h. refl, λ h. refl)
report_found-Accepts opts span m (some i) = (λ h. cc, λ h. cc)

found_check :
    (scope : Scope) (opts : List UninterpretedOption) (name : String) (exact first : Bool)
    (span : SourceSpan) (m : Message)
    → Accepts (find_option_with scope opts name exact first >>= report_found opts span m)
      ↔ NoneMatch name exact opts
found_check scope opts name exact first span m =
    let found = find_option_with scope opts name exact first in
    let (to, from) = append-eq-nil found.reports (report_found opts span m found.value).reports in
    let (to', from') = report_found-Accepts opts span m found.value in
    let (to'', from'') = find_option_with-none scope opts name exact first in
    (λ h. to'' ((to h).0, to' (to h).1), λ h. from ((from'' h).0, from' (from'' h).1))

-- Looking an option up and reporting it if it is there accepts exactly the lists without it.
pub find_option-Accepts :
    (scope : Scope) (opts : List UninterpretedOption) (name : String) (span : SourceSpan)
    (m : Message)
    → Accepts (find_option scope opts name >>= report_found opts span m) ↔ NoneMatch name true opts
unfolding find_option
find_option-Accepts scope opts name span m = found_check scope opts name true false span m

-- Outside editions no option's first name part may be `features`.
abbrev pub FeaturesAllowed : Syntax → List UninterpretedOption → Type 0
FeaturesAllowed editions opts = Unit
FeaturesAllowed proto2 opts = NoneMatch "features" false opts
FeaturesAllowed proto3 opts = NoneMatch "features" false opts
FeaturesAllowed unknown opts = NoneMatch "features" false opts

-- `validateNoFeatures` reports nothing exactly when the syntax allows the options' features.
pub validate_no_features-Accepts :
    (syntax : Syntax) (scope : Scope) (opts : List UninterpretedOption) (span : SourceSpan)
    → Accepts (validate_no_features syntax scope opts span) ↔ FeaturesAllowed syntax opts
unfolding validate_no_features find_first_option
validate_no_features-Accepts editions scope opts span = (λ h. tt, λ h. refl)
validate_no_features-Accepts proto2 scope opts span =
    found_check scope opts "features" false true span _
validate_no_features-Accepts proto3 scope opts span =
    found_check scope opts "features" false true span _
validate_no_features-Accepts unknown scope opts span =
    found_check scope opts "features" false true span _
