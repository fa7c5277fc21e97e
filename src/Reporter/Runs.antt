-- ===== src/Reporter/Runs.antt =====
-- Concrete runs of handlers.
use protocompile.Prelude.{ℕ, suc, ◌≡◌, refl, ◌↔◌, List, [], ◌∷◌, none, some, false}
use protocompile.Source.{sample_span}
use protocompile.Diagnostic.{import_option_edition}
use protocompile.Reporter.{
  Error, with_pos, wrapping, foreign, text, error_at, Reporter, Handler, root,
}
use protocompile.Reporter.{new_handler, sub_handler, handle_error, handle_errorf, error}
use protocompile.Reporter.{reporter_error, error_of, reporter_state}
use protocompile.Reporter.Check.{Report, run}
use protocompile.Reporter.Abort.{handle_error_sticky, error-run, run-child, run-never_aborts, seen}

-- A reporter that counts the errors and never aborts.
abbrev counting : Reporter ℕ
counting = record { error = λ sp c n. (none, suc n); warning = λ sp c n. n }

abbrev two_reports : List Report
two_reports =
    (sample_span 1 2, import_option_edition) ∷ (sample_span 3 4, import_option_edition) ∷ []

abbrev stopping : Handler ℕ
unfolding new_handler
stopping = new_handler none 0

abbrev an_error : Error
an_error = with_pos (sample_span 1 2) (text import_option_edition)

handle_error_sticky_example :
    ((handle_error (handle_error (new_handler {R = ℕ} none 0) an_error).1 an_error).0
      ≡ some an_error)
    × (reporter_state
          (handle_error (handle_error (new_handler {R = ℕ} none 0) an_error).1 an_error).1
        ≡ reporter_state (handle_error (new_handler {R = ℕ} none 0) an_error).1)
unfolding handle_error new_handler
handle_error_sticky_example =
    handle_error_sticky (new_handler none 0) an_error an_error an_error refl

error-run_example :
    (error (run (sub_handler (root counting 0 false none)) two_reports).1 ≡ none)
    ↔ (two_reports ≡ [])
unfolding error sub_handler reporter_error error_of
error-run_example = error-run (sub_handler (root counting 0 false none)) two_reports refl

run-never_aborts_example :
    ((run (root counting 0 false none) two_reports).0 ≡ none)
    × (reporter_state (run (root counting 0 false none) two_reports).1
        ≡ seen counting 0 two_reports)
run-never_aborts_example = run-never_aborts counting 0 false two_reports (λ sp c t. refl)

run-child_example :
    ((run (sub_handler (root counting 0 false none)) two_reports).0
      ≡ (run (root counting 0 false none) two_reports).0)
    × (reporter_state (run (sub_handler (root counting 0 false none)) two_reports).1
        ≡ reporter_state (run (root counting 0 false none) two_reports).1)
unfolding sub_handler
run-child_example = run-child (root counting 0 false none) false none two_reports

count_two : reporter_state (run (root counting 0 false none) two_reports).1 ≡ 2
unfolding run handle_errorf
count_two = refl

-- An error that wraps one with a position gets the new position in place of both.
error_at_wrapping :
    error_at (sample_span 5 6) (wrapping (foreign 0) (sample_span 1 2) (text import_option_edition))
    ≡ with_pos (sample_span 5 6) (text import_option_edition)
unfolding error_at
error_at_wrapping = refl
