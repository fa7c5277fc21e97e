-- ===== src/Reporter/Abort.antt =====
-- When a handler aborts, what it passes to the reporter, and what `Error` says afterwards.
use protocompile.Prelude.{Bool, true, ◌≡◌, ◌≢◌, refl, Option, none, some, List, [], ◌∷◌, ◌↔◌}
use protocompile.Prelude.{arith, inl, inr, Option-cases}
use protocompile.Source.{SourceSpan}
use protocompile.Diagnostic.{Message}
use protocompile.Reporter.{
  Cause, text, Error, with_pos, plain, wrapping, Reporter, Handler, root, child,
}
use protocompile.Reporter.{handle_error, handle_errorf, errorf, error, error_of, reporter_error}
use protocompile.Reporter.{reporter_state, sub_handler, new_handler, new_reporter}
use protocompile.Reporter.Check.{Report, run}

module _ {R : Type 0} where
  -- The returned error is the one that the handler keeps.
  pub reporter_error-handle_error :
      (h : Handler R) (err : Error) → reporter_error (handle_error h err).1 ≡ (handle_error h err).0
  unfolding handle_error reporter_error
  reporter_error-handle_error (child p b e) err = refl
  reporter_error-handle_error (root rep s b (some e)) err = refl
  reporter_error-handle_error (root rep s b none) (with_pos sp c) = refl
  reporter_error-handle_error (root rep s b none) (plain c) = refl
  reporter_error-handle_error (root rep s b none) (wrapping c pos u) = refl

  -- Once `HandleError` has returned an error, each later call on the same handler returns that
  -- error, whatever it is given, and the reporter is not called: its state stays.
  pub handle_error_sticky :
      (h : Handler R) (first second e : Error)
      → (handle_error h first).0 ≡ some e
      → ((handle_error (handle_error h first).1 second).0 ≡ some e)
        × (reporter_state (handle_error (handle_error h first).1 second).1
            ≡ reporter_state (handle_error h first).1)
  unfolding handle_error
  handle_error_sticky (child p b e') first second e h = handle_error_sticky p first second e h
  handle_error_sticky (root rep s b (some e')) first second e h = (h, refl)
  handle_error_sticky (root rep s b none) (with_pos sp c) second e h = rw h (refl, refl)
  handle_error_sticky (root rep s b none) (plain c) second e h = (h, refl)
  handle_error_sticky (root rep s b none) (wrapping c pos u) second e h = (h, refl)

  -- After an error with a position the handler's `Error` is not nil.
  pub errorf_marks :
      (h : Handler R) (sp : SourceSpan) (m : Message) → error (handle_errorf h sp m).1 ≢ none
  unfolding handle_errorf errorf handle_error error error_of reporter_error
  errorf_marks (child p b e) sp m h = ground arith
  errorf_marks (root rep s b (some e)) sp m h = ground arith
  errorf_marks (root rep s b none) sp m h = ground arith

  -- The reports of a check that is not empty leave a mark on the handler.
  pub run_marks :
      (h : Handler R) (sp : SourceSpan) (m : Message) (rest : List Report)
      → error (run h ((sp, m) ∷ rest)).1 ≢ none
  unfolding run
  run_marks h sp m [] = elim (Option-cases (handle_errorf h sp m).0) [
    | inl e ↦ rw (e, run) (errorf_marks h sp m)
    | inr (x, e) ↦ rw (e, run) (errorf_marks h sp m)
  ]
  run_marks h sp m ((sp', m') ∷ rest) = elim (Option-cases (handle_errorf h sp m).0) [
    | inl e ↦ rw (e, run) (run_marks (handle_errorf h sp m).1 sp' m' rest)
    | inr (x, e) ↦ rw (e, run) (errorf_marks h sp m)
  ]

  -- On a handler whose `Error` is nil, such as a new handler or a new child of any handler, `Error`
  -- is nil after a sequence of `HandleErrorf` calls exactly when the sequence is empty.
  pub error-run :
      (h : Handler R) (reports : List Report)
      → error h ≡ none
      → (error (run h reports).1 ≡ none) ↔ (reports ≡ [])
  unfolding run
  error-run h [] e = (λ _. refl, λ _. e)
  error-run h ((sp, m) ∷ rest) e = (λ f. absurd (run_marks h sp m rest f), λ f. cc)

  -- A new child starts with no error, whatever its parent has handled.
  pub error-sub_handler : (h : Handler R) → error (sub_handler h) ≡ none
  unfolding error sub_handler reporter_error error_of
  error-sub_handler h = refl

  -- A sequence of calls on a child returns what it returns on the parent, and leaves the reporter
  -- in the same state.
  pub run-child :
      (parent : Handler R) (b : Bool) (e : Option Error) (reports : List Report)
      → ((run (child parent b e) reports).0 ≡ (run parent reports).0)
        × (reporter_state (run (child parent b e) reports).1
            ≡ reporter_state (run parent reports).1)
  unfolding run handle_errorf handle_error errorf
  run-child parent b e [] = (refl, refl)
  run-child parent b e ((sp, m) ∷ rest) =
      elim (Option-cases (handle_error parent (with_pos sp (text m))).0) [
        | inl f ↦
            rw (f, run, f) (run-child (handle_error parent (with_pos sp (text m))).1 true none rest)
        | inr (x, f) ↦ rw (f, run, f) (refl, refl)
      ]

  -- With no reporter the first error is returned, and the others are not looked at.
  pub run-default :
      (s : R) (sp : SourceSpan) (m : Message) (rest : List Report)
      → (run (new_handler none s) ((sp, m) ∷ rest)).0 ≡ some (with_pos sp (text m))
  unfolding run new_handler handle_errorf errorf handle_error new_reporter
  run-default s sp m rest = refl

  -- What a reporter has seen after it was called with every report in turn.
  abbrev pub seen : Reporter R → R → List Report → R
  seen rep s [] = s
  seen rep s ((sp, m) ∷ rest) = seen rep (rep.error sp (text m) s).1 rest

  -- On a root that has not aborted, a reporter that never returns an error is called once for each
  -- report, in order, and no call returns an error.
  pub run-never_aborts :
      (rep : Reporter R) (s : R) (b : Bool) (reports : List Report)
      → ((sp : SourceSpan) (c : Cause) (t : R) → (rep.error sp c t).0 ≡ none)
      → ((run (root rep s b none) reports).0 ≡ none)
        × (reporter_state (run (root rep s b none) reports).1 ≡ seen rep s reports)
  unfolding run handle_errorf errorf handle_error
  run-never_aborts rep s b [] h = (refl, refl)
  run-never_aborts rep s b ((sp, m) ∷ rest) h =
      rw (h sp (text m) s, run, handle_errorf, handle_error, h sp (text m) s)
        (run-never_aborts rep (rep.error sp (text m) s).1 true rest h)
