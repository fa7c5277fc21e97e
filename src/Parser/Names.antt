-- ===== src/Parser/Names.antt =====
-- parser/validate.go: identifiers, the nodes of reserved names, and features outside editions.
use Prim.Native.Char.{code}
pub mod Found
use protocompile.Prelude.{
  ℕ, String, Bool, true, false, not, ◌&&◌, ◌||◌, Option, none, some, List, [],
}
use protocompile.Prelude.{◌∷◌, leb, ◌==◌, if◌then◌else◌, str_eq, get_elem?}
use protocompile.Source.{SourceSpan}
use protocompile.Diagnostic.{
  Scope, Syntax, proto2, proto3, editions, unknown, features_need_editions, Message,
}
use protocompile.Descriptor.{UninterpretedOption, BodyDecl, reserved_node, other_decl}
use protocompile.Reporter.Check.{Check, done, report, ◌>>=◌}
use protocompile.Options.{find_first_option}

abbrev pub is_digit : ℕ → Bool
is_digit r = leb b'0' r && leb r b'9'

-- The cases of the `switch`.
abbrev pub is_word : ℕ → Bool
is_word r = is_digit r || (leb b'a' r && leb r b'z' || (leb b'A' r && leb r b'Z' || r == b'_'))

unfoldable pub all_word : String → Bool
all_word String.[] = true
all_word (String.◌∷◌ r rest) = is_word (code r) && all_word rest

-- `isIdentifier`
unfoldable pub is_identifier : String → Bool
unfolding all_word
is_identifier String.[] = false
is_identifier (String.◌∷◌ r rest) =
    if is_digit (code r) then false else is_word (code r) && all_word rest

-- The inner loop of `findReservedNameNode`.
unfoldable pub find_name : List (String × SourceSpan) → String → Option SourceSpan
find_name [] name = none
find_name ((n, node) ∷ rest) name = if str_eq n name then some node else find_name rest name

-- `findReservedNameNode`
unfoldable pub find_reserved_name_node : SourceSpan → List BodyDecl → String → SourceSpan
unfolding find_name
find_reserved_name_node parent [] name = parent
find_reserved_name_node parent (other_decl ∷ decls) name = find_reserved_name_node parent decls name
find_reserved_name_node parent (reserved_node names ∷ decls) name =
    let rest = find_reserved_name_node parent decls name in
    elim (find_name names name) [ some node ↦ node | none ↦ rest ]

-- The name span of `opts[index]`; an index that `FindOption` returns is in range.
unfoldable pub option_name_span : List UninterpretedOption → ℕ → SourceSpan → SourceSpan
option_name_span opts index default = elim (get_elem? opts index) [
  | none ↦ default
  | some opt ↦ opt.name_span
]

unfoldable pub is_editions : Syntax → Bool
is_editions editions = true
is_editions proto2 = false
is_editions proto3 = false
is_editions unknown = false

unfoldable pub is_proto3 : Syntax → Bool
is_proto3 proto3 = true
is_proto3 proto2 = false
is_proto3 editions = false
is_proto3 unknown = false

-- What the code does with the result of `FindOption`: a report at the option's name.
unfoldable pub report_found :
    List UninterpretedOption → SourceSpan → Message → Option ℕ → Check (Unit {0})
unfolding option_name_span
report_found opts default m none = done
report_found opts default m (some index) = report (option_name_span opts index default) m

-- `validateNoFeatures`
unfoldable pub validate_no_features :
    Syntax → Scope → List UninterpretedOption → SourceSpan → Check (Unit {0})
unfolding is_editions find_first_option report_found
validate_no_features syntax scope opts default = if is_editions syntax then done else do
  index ← find_first_option scope opts "features"
  report_found opts default (features_need_editions scope syntax) index
