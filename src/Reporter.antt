-- ===== src/Reporter.antt =====
-- reporter/reporter.go and reporter/errors.go: errors with positions, the reporter that a program
-- supplies, and the handler that passes errors to it until it aborts.
pub mod Check
pub mod Abort
mod Runs
use protocompile.Prelude.{ℕ, Bool, true, false, Option, none, some, ◌||◌}
use protocompile.Prelude.{◌≡◌}
use protocompile.Source.{SourceSpan}
use protocompile.Diagnostic.{Message}

-- What an error says, without a position. `foreign` stands for errors of other packages.
pub data Cause : Type 0 where
  text : Message → Cause
  invalid_source : Cause
  foreign : ℕ → Cause

-- `with_pos` is an `ErrorWithPos` (`errorWithSpan`). `plain` is a non-nil `error` with none in its
-- chain. `wrapping` says something and wraps the rest of its chain, in which the first
-- `ErrorWithPos`, the one that `errors.As` finds, has the position and the cause.
pub data Error : Type 0 where
  with_pos : SourceSpan → Cause → Error
  plain : Cause → Error
  wrapping : Cause → SourceSpan → Cause → Error

-- `reporter.Error`: a position that the error already has is replaced, with what wraps it.
unfoldable pub error_at : SourceSpan → Error → Error
error_at span (with_pos _ underlying) = with_pos span underlying
error_at span (plain underlying) = with_pos span underlying
error_at span (wrapping c pos underlying) = with_pos span underlying

-- `reporter.Errorf`
unfoldable pub errorf : SourceSpan → Message → Error
unfolding error_at
errorf span m = error_at span (plain (text m))

-- The type test `err.(ErrorWithPos)`.
unfoldable pub is_with_pos : Error → Bool
is_with_pos (with_pos _ _) = true
is_with_pos (plain _) = false
is_with_pos (wrapping _ _ _) = false

-- The choice that `Error` makes on the two fields.
unfoldable pub error_of : Bool → Option Error → Option Error
error_of true none = some (plain invalid_source)
error_of false none = none
error_of _ (some e) = some e

-- The interface `Reporter`. Its methods may change the state `R` of the calling program.
pub record Reporter (R : Type 0) : Type 0 where
  pub error : SourceSpan → Cause → R → Option Error × R
  pub warning : SourceSpan → Cause → R → R

module _ {R : Type 0} where
  -- `NewReporter` with the methods of `reporterFuncs`; either function may be nil.
  unfoldable pub new_reporter :
      Option (SourceSpan → Cause → R → Option Error × R)
      → Option (SourceSpan → Cause → R → R)
      → Reporter R
  new_reporter errs warnings = record {
    error = λ span c s. elim errs [ none ↦ (some (with_pos span c), s) | some f ↦ f span c s ];
    warning = λ span c s. elim warnings [ none ↦ s | some f ↦ f span c s ];
  }

-- `Handler`: `root` has the reporter, the reporter's state and the fields `errsReported` and `err`;
-- `child` has its parent and the same two fields.
pub data Handler (R : Type 0) : Type 0 where
  root : Reporter R → R → Bool → Option Error → Handler R
  child : Handler R → Bool → Option Error → Handler R

module _ {R : Type 0} where
  -- The choice of the reporter by `NewHandler`.
  or_default : Option (Reporter R) → Reporter R
  unfolding new_reporter
  or_default none = new_reporter none none
  or_default (some rep) = rep

  -- `NewHandler`
  unfoldable pub new_handler : Option (Reporter R) → R → Handler R
  unfolding or_default
  new_handler rep s = root (or_default rep) s false none

  -- `SubHandler`
  unfoldable pub sub_handler : Handler R → Handler R
  sub_handler h = child h false none

  -- `HandleError`: the returned error, nil as `none`, and the handler after the call.
  unfoldable pub handle_error : Handler R → Error → Option Error × Handler R
  unfolding is_with_pos
  handle_error (child parent reported e) err =
      let (e', parent') = handle_error parent err in
      (e', child parent' (is_with_pos err || reported) e')
  handle_error (root rep s reported (some e)) err = (some e, root rep s reported (some e))
  handle_error (root rep s reported none) (with_pos span c) =
      let (e', s') = rep.error span c s in (e', root rep s' true e')
  handle_error (root rep s reported none) (plain c) =
      (some (plain c), root rep s reported (some (plain c)))
  handle_error (root rep s reported none) (wrapping c pos u) =
      (some (wrapping c pos u), root rep s reported (some (wrapping c pos u)))

  -- `HandleErrorWithPos`
  unfoldable pub handle_error_with_pos : Handler R → SourceSpan → Error → Option Error × Handler R
  unfolding handle_error error_at
  handle_error_with_pos h span err = handle_error h (error_at span err)

  -- `HandleErrorf`
  unfoldable pub handle_errorf : Handler R → SourceSpan → Message → Option Error × Handler R
  unfolding handle_error errorf
  handle_errorf h span m = handle_error h (errorf span m)

  -- `HandleWarning`
  unfoldable pub handle_warning : Handler R → SourceSpan → Cause → Handler R
  handle_warning (child parent reported e) span c = child (handle_warning parent span c) reported e
  handle_warning (root rep s reported e) span c = root rep (rep.warning span c s) reported e

  -- `HandleWarningWithPos`, on the cause that `reporter.Error` keeps of its argument.
  unfoldable pub handle_warning_with_pos : Handler R → SourceSpan → Error → Handler R
  unfolding handle_warning
  handle_warning_with_pos h span (with_pos _ c) = handle_warning h span c
  handle_warning_with_pos h span (plain c) = handle_warning h span c
  handle_warning_with_pos h span (wrapping c pos u) = handle_warning h span u

  -- `HandleWarningf`
  unfoldable pub handle_warningf : Handler R → SourceSpan → Message → Handler R
  unfolding handle_warning
  handle_warningf h span m = handle_warning h span (text m)

  -- The field `errsReported`.
  abbrev pub errs_reported : Handler R → Bool
  errs_reported (root _ _ reported _) = reported
  errs_reported (child _ reported _) = reported

  -- `ReporterError`, the field `err`.
  unfoldable pub reporter_error : Handler R → Option Error
  reporter_error (root _ _ _ e) = e
  reporter_error (child _ _ e) = e

  -- `Error`
  unfoldable pub error : Handler R → Option Error
  unfolding reporter_error error_of
  error h = error_of (errs_reported h) (reporter_error h)

  -- The reporter's state, of the root.
  abbrev pub reporter_state : Handler R → R
  reporter_state (root _ s _ _) = s
  reporter_state (child parent _ _) = reporter_state parent
