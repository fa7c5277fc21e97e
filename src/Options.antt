-- ===== src/Options.antt =====
-- internal/options.go: the search for an option by name, and its removal.
pub mod Find
use protocompile.Prelude.{
  ℕ, zero, suc, ◌-◌, ◌+◌, String, Bool, true, false, not, ◌&&◌, ◌||◌, Option,
}
use protocompile.Prelude.{
  none, some, List, [], ◌∷◌, ◌++◌, ◌==◌, if◌then◌else◌, str_eq, length, take, drop,
}
use protocompile.Diagnostic.{Scope, option_more_than_once}
use protocompile.Descriptor.{UninterpretedOption}
use protocompile.Reporter.Check.{Check, pure, report, ◌>>◌}

-- `len(opt.Name) != 1`
abbrev pub has_more_parts : UninterpretedOption → Bool
has_more_parts opt = elim opt.more_parts [ [] ↦ false | x ∷ xs ↦ true ]

-- The option is passed over by the two `continue`s.
unfoldable pub skips : String → Bool → UninterpretedOption → Bool
skips name exact opt =
    exact && has_more_parts opt
    || (opt.head_part.is_extension || not (str_eq opt.head_part.name_part name))

-- The loop of `findOption`, from index `i` on; the index -1 is `none`.
unfoldable pub find_from :
    Scope → String → Bool → Bool → ℕ → Option ℕ → List UninterpretedOption → Check (Option ℕ)
find_from scope name exact first i found [] = pure found
find_from scope name exact first i found (opt ∷ opts) =
    let rest = find_from scope name exact first (i + 1) found opts in
    let rest_found = find_from scope name exact first (i + 1) (some i) opts in
    if skips name exact opt then rest else if first then pure (some i) else elim found [
      | some j ↦ report opt.name_span (option_more_than_once scope name) >> pure none
      | none ↦ rest_found
    ]

-- `findOption`
unfoldable pub find_option_with :
    Scope → List UninterpretedOption → String → Bool → Bool → Check (Option ℕ)
unfolding find_from
find_option_with scope opts name exact first = find_from scope name exact first 0 none opts

-- `FindFirstOption`
unfoldable pub find_first_option : Scope → List UninterpretedOption → String → Check (Option ℕ)
unfolding find_option_with
find_first_option scope opts name = find_option_with scope opts name false true

-- `FindOption`
unfoldable pub find_option : Scope → List UninterpretedOption → String → Check (Option ℕ)
unfolding find_option_with
find_option scope opts name = find_option_with scope opts name true false

-- `RemoveOption`; an index out of range, where Go panics, is not given.
unfoldable pub remove_option : List UninterpretedOption → ℕ → List UninterpretedOption
remove_option uo index =
    if index == 0
    then drop 1 uo
    else if index + 1 == length uo
    then take (length uo - 1) uo
    else take index uo ++ drop (index + 1) uo
