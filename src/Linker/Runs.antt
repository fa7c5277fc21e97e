-- ===== src/Linker/Runs.antt =====
-- Runs of the symbol table.
use protocompile.Prelude.{
  ℕ, suc, ◌≡◌, ◌≢◌, ◌⊎◌, refl, true, false, none, some, [], ◌∷◌, All, AllPairs,
}
use protocompile.Prelude.Int.{pos}
use protocompile.Source.{sample_span}
use protocompile.Reporter.{
  Handler, root, handle_error, handle_errorf, error, error_of, reporter_error,
}
use protocompile.Reporter.Check.{run}
use protocompile.Linker.Symbols.{SymbolEntry, no_packages, find, has_file}
use protocompile.Linker.Symbols.Names.{Outcome, collision_report}
use protocompile.Linker.Symbols.Collisions.{collision_report-later, IsBefore, NotBefore, said_of}
use protocompile.Linker.Symbols.Import.{
  FileSymbols, import_symbols, check_result, collisions_with, commit_checked, entry_of,
}
use protocompile.Linker.Symbols.Import.Atomic.{
  import_symbols_new, AreNew, DifferentNames, symbols_after,
}
use protocompile.Linker.Symbols.Extensions.{add_number, add_extension_declaration}
use protocompile.Linker.Symbols.Extensions.Unique.{
  add_number_lem, add_extension_declaration_lem, kept, declared, Declares,
}

abbrev quiet : Handler ℕ
quiet = root (record { error = λ sp c n. (none, suc n); warning = λ sp c n. n }) 0 false none

-- A file with one message and one enum value.
abbrev a_file : FileSymbols
a_file = record {
  id = 1;
  package_name = "";
  package_span = sample_span 1 9;
  has_source = true;
  decls =
      record { full_name = "User"; span = sample_span 3 9; is_enum_value = false }
      ∷ record { full_name = "ADMIN"; span = sample_span 5 3; is_enum_value = true }
      ∷ [];
  extensions = [];
}

a_file-imported : (import_symbols no_packages "" a_file quiet).value ≡ true
unfolding import_symbols has_file check_result collisions_with find commit_checked run error
    reporter_error error_of
a_file-imported = refl

import_symbols_new_example :
    AreNew [] a_file.decls
    × AllPairs DifferentNames a_file.decls
    × All
        (λ d. find (symbols_after no_packages "" a_file quiet) d.full_name ≡ some (entry_of d))
        a_file.decls
import_symbols_new_example = import_symbols_new no_packages "" a_file quiet a_file-imported refl

-- A file whose two messages have one name.
abbrev bad_file : FileSymbols
bad_file = record a_file {
  decls =
      record { full_name = "User"; span = sample_span 3 9; is_enum_value = false }
      ∷ record { full_name = "User"; span = sample_span 7 9; is_enum_value = false }
      ∷ [];
}

bad_file-refused : (import_symbols no_packages "" bad_file quiet).value ≡ false
unfolding import_symbols has_file check_result collisions_with find commit_checked run error
    reporter_error error_of handle_errorf handle_error
bad_file-refused = refl

abbrev an_entry : SymbolEntry
an_entry = record { span = sample_span 4 1; is_enum_value = false; is_package = false }

collision_report-later_example :
    (IsBefore (sample_span 2 1).start an_entry.span.start
      × (collision_report (sample_span 2 1) "User" false an_entry
          ≡ (an_entry.span, said_of (sample_span 2 1).start "User" false an_entry)))
    ⊎ (NotBefore (sample_span 2 1).start an_entry.span.start
        × (collision_report (sample_span 2 1) "User" false an_entry
            ≡ (sample_span 2 1, said_of an_entry.span.start "User" false an_entry)))
collision_report-later_example = collision_report-later (sample_span 2 1) "User" false an_entry

add_number_lem_example :
    ((kept "" "User" (pos 100) no_packages ≡ none)
      × ((add_number no_packages "" "User" (pos 100) (sample_span 2 1) quiet).error ≡ none)
      × (kept "" "User"
            (pos 100)
            (add_number no_packages "" "User" (pos 100) (sample_span 2 1) quiet).table
          ≡ some (sample_span 2 1)))
    ⊎ ((kept "" "User" (pos 100) no_packages ≢ none)
        × ((add_number no_packages "" "User" (pos 100) (sample_span 2 1) quiet).table ≡ no_packages)
        × (error (add_number no_packages "" "User" (pos 100) (sample_span 2 1) quiet).handler
            ≢ none))
add_number_lem_example = add_number_lem no_packages "" "User" (pos 100) (sample_span 2 1) quiet

abbrev declared_now : Outcome ℕ (Unit {0})
unfolding add_extension_declaration
declared_now =
    add_extension_declaration no_packages "shop.ext" "shop.User" (pos 100) (sample_span 2 1) quiet

add_extension_declaration_lem_example :
    (((declared no_packages "shop.ext" ≡ none)
        ⊎ Declares "shop.User" (pos 100) (declared no_packages "shop.ext"))
      × (declared_now.error ≡ none)
      × Declares "shop.User" (pos 100) (declared declared_now.table "shop.ext"))
    ⊎ ((declared no_packages "shop.ext" ≢ none)
        × (¬ Declares "shop.User" (pos 100) (declared no_packages "shop.ext"))
        × (declared_now.table ≡ no_packages)
        × (error declared_now.handler ≢ none))
unfolding declared_now
add_extension_declaration_lem_example =
    add_extension_declaration_lem no_packages "shop.ext" "shop.User" (pos 100) (sample_span 2 1)
      quiet
