-- ===== src/Compiler/Turn.antt =====
-- compiler.go: how a step of a task changes its own result and the map of results.
pub mod Cases
pub mod Steps
use protocompile.Prelude.{
  ◌≡◌, ◌⊎◌, ◌≤◌, suc, Bool, true, false, Option, none, some, List, [], ◌∷◌, ◌++◌, String, length,
}
use protocompile.Compiler.{
  Callees, linked, parsed, Phase, Task, Call, enter, loop, starting, resolving, checking, releasing,
  waiting, unblocking, reacquiring, linking, finished, Results, compile, blocked, contains, ready,
  outcome, descriptor_proto_path,
}
use protocompile.Compiler.Wait.{Created}

-- The task `t` with `r` goes on, and leaves other results as in the first index, its own as in the
-- second.
pub data Turn (c : Callees) (t : String) (m : Results) (r : Task) : Results → Task → Type 0 where
  acquires : r.phase ≡ starting → Turn c t m r m (record r { phase = resolving })
  gives_up :
      (held : Bool)
      → outcome r.phase ≡ none
      → Turn c t m r m (record r { phase = finished false held })
  is_linked :
      r.phase ≡ resolving
      → c.find t ≡ linked
      → Turn c t m r m (record r { phase = finished true true })
  needs_nothing :
      r.phase ≡ resolving → c.find t ≡ parsed [] → Turn c t m r m (record r { phase = linking })
  blocks :
      (deps imports : List String)
      → r.phase ≡ resolving
      → c.find t ≡ parsed deps
      → length imports ≤ suc (length deps)
      → Turn c t m r m (record {
        blocked_on = imports;
        dependency = deps;
        checked = [];
        phase = checking deps [];
      })
  compiles :
      (d : String) (todo : List String)
      → r.phase ≡ checking (d ∷ todo) []
      → Turn c t m r (compile d m) (record r { phase = checking todo (enter d (t ∷ d ∷ []) ∷ []) })
  knows :
      (x : String) (path todo : List String) (stack : List Call)
      → r.phase ≡ checking todo (enter x path ∷ stack)
      → Turn c t m r m (record r { phase = checking todo stack })
  marks :
      (x : String) (path todo : List String) (stack : List Call)
      → r.phase ≡ checking todo (enter x path ∷ stack)
      → contains r.checked x ≡ false
      → Turn c t m r m (record r {
        checked = x ∷ r.checked;
        phase = checking todo (loop path (blocked m x) ∷ stack);
      })
  leaves :
      (path todo : List String) (stack : List Call)
      → r.phase ≡ checking todo (loop path [] ∷ stack)
      → Turn c t m r m (record r { phase = checking todo stack })
  skips :
      (d : String) (path deps todo : List String) (stack : List Call)
      → r.phase ≡ checking todo (loop path (d ∷ deps) ∷ stack)
      → Turn c t m r m (record r { phase = checking todo (loop path deps ∷ stack) })
  calls :
      (d : String) (path deps todo : List String) (stack : List Call)
      → r.phase ≡ checking todo (loop path (d ∷ deps) ∷ stack)
      → Created m d
      → Turn c t m r m
          (record r { phase = checking todo (enter d (path ++ (d ∷ [])) ∷ loop path deps ∷ stack) })
  has_checked :
      (n : Results)
      → r.phase ≡ checking [] []
      → (n ≡ m) ⊎ (n ≡ compile descriptor_proto_path m)
      → Turn c t m r n (record r { phase = releasing })
  releases :
      (implied : Bool)
      → r.phase ≡ releasing
      → Turn c t m r m (record r { phase = waiting r.dependency implied })
  has :
      (d : String) (todo : List String) (implied : Bool)
      → r.phase ≡ waiting (d ∷ todo) implied
      → ready m d ≡ some true
      → Turn c t m r m (record r { phase = waiting todo implied })
  has_implied : r.phase ≡ waiting [] true → Turn c t m r m (record r { phase = waiting [] false })
  unblocks : r.phase ≡ waiting [] false → Turn c t m r m (record r { phase = unblocking })
  clears : r.phase ≡ unblocking → Turn c t m r m (record r { blocked_on = []; phase = reacquiring })
  reacquires : r.phase ≡ reacquiring → Turn c t m r m (record r { phase = linking })
  links : (ok : Bool) → r.phase ≡ linking → Turn c t m r m (record r { phase = finished ok true })
  returns :
      (ok : Bool)
      → r.phase ≡ finished ok true
      → Turn c t m r m (record r { phase = finished ok false })
