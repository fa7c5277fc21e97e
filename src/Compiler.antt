-- ===== src/Compiler.antt =====
-- compiler.go: the tasks that compile the files, and how they wait for one another.
--
-- A task is a goroutine, and `Phase` is where it stands: `advance` takes it to the next point at
-- which it reads or writes what it shares with others, and has no result where it is blocked.
-- `Result.ready` is closed in the phase `finished`.
pub mod Wait
pub mod Permits
pub mod Turn
pub mod Imports
pub mod Ends
mod Runs
use protocompile.Prelude.{
  ◌≡◌, ◌-◌, ℕ, suc, ◌<◌, ◌≤◌, Bool, true, false, not, ◌&&◌, ◌||◌, Option, none, some, List, [], ◌∷◌,
  ◌++◌, String, str_eq, if◌then◌else◌,
}

-- golang.org/x/sync/semaphore as the executor uses it: `permits` is `NewWeighted(par)`, and
-- `acquire` is an `Acquire` of weight 1, with no result where that would wait.
pub record Semaphore : Type 1 where
  pub Permits : Type 0
  pub permits : Permits
  pub acquire : Permits → Option Permits
  pub release : Permits → Permits
  pub par : ℕ
  pub held : Permits → ℕ
  pub held_first : held permits ≡ 0
  pub held-acquire : (p q : Permits) → acquire p ≡ some q → held q ≡ suc (held p)
  pub held-release : (p : Permits) → held (release p) ≡ held p - 1
  pub within : (p : Permits) → held p ≤ par
  pub has_room : (p : Permits) → held p < par → (q : Permits) × (acquire p ≡ some q)
  pub par_pos : 0 < par

-- What the resolver has for a path: an error, a file that needs no linking, or a file to link, with
-- the imports of its descriptor proto.
pub data SearchResult : Type 0 where
  failure : SearchResult
  linked : SearchResult
  parsed : List String → SearchResult

-- What the code called by a task decides: the resolver and the parser, `link`, and
-- `hasOverrideDescriptorProto`.
pub record Callees : Type 0 where
  pub find : String → SearchResult
  pub link : String → Bool
  pub overrides : Bool

-- The stack of `checkForDependencyCycle`: a call that is about to look up its result, or one in its
-- loop, with the sequence and the dependencies left.
pub data Call : Type 0 where
  enter : String → List String → Call
  loop : List String → List String → Call

pub data Phase : Type 0 where
  starting : Phase
  resolving : Phase
  checking : List String → List Call → Phase
  releasing : Phase
  waiting : List String → Bool → Phase
  unblocking : Phase
  reacquiring : Phase
  linking : Phase
  -- Whether it completed, and whether its permit is still to be released.
  finished : Bool → Bool → Phase

-- `result` with the locals of its task: the imports of the file and the map `checked`.
pub record Task : Type 0 where
  pub blocked_on : List String
  pub dependency : List String
  pub checked : List String
  pub phase : Phase

abbrev pub new_task : Task
new_task = record { blocked_on = []; dependency = []; checked = []; phase = Phase.starting }

abbrev pub Results : Type 0
Results = String → Option Task

abbrev pub put : String → Task → Results → Results
put t r m x = if str_eq t x then some r else m x

abbrev pub no_results : Results
no_results x = none

-- `compileLocked`: the result of a file is made once.
unfoldable pub compile : String → Results → Results
compile file m = elim (m file) [ none ↦ put file new_task m | some r ↦ m ]

-- The results that `Compile` makes for the files that are asked for.
unfoldable pub compile_all : List String → Results → Results
unfolding compile
compile_all [] m = m
compile_all (f ∷ files) m = compile_all files (compile f m)

abbrev pub blocked : Results → String → List String
blocked m x = elim (m x) [ none ↦ [] | some r ↦ r.blocked_on ]

-- Whether a result is ready, and without an error.
unfoldable pub outcome : Phase → Option Bool
outcome (finished ok held) = some ok
outcome p = none

unfoldable pub ready : Results → String → Option Bool
unfolding outcome
ready m x = elim (m x) [ none ↦ none | some r ↦ outcome r.phase ]

unfoldable pub contains : List String → String → Bool
contains [] x = false
contains (y ∷ ys) x = str_eq y x || contains ys x

abbrev pub descriptor_proto_path : String
descriptor_proto_path = "google/protobuf/descriptor.proto"

pub record State (P : Type 0) : Type 0 where
  pub results : Results
  pub permits : P
  pub cancelled : Bool

module _ (s : Semaphore) (c : Callees) where
  abbrev pub World : Type 0
  World = State s.Permits

  -- `wantsDescriptorProto`, for a file and its imports.
  unfoldable pub wants_descriptor_proto : String → List String → Bool
  unfolding contains
  wants_descriptor_proto name deps =
      c.overrides
      && (not (str_eq name descriptor_proto_path) && not (contains deps descriptor_proto_path))

  unfoldable pub set_phase : String → Task → Phase → World → World
  set_phase t r p w = record w { results = put t (record r { phase = p }) w.results }

  -- `Release` by the deferred `t.release()`.
  unfoldable pub give_back : String → Task → Phase → World → World
  give_back t r p w = record w {
    results = put t (record r { phase = p }) w.results;
    permits = s.release w.permits;
  }

  unfoldable pub acquire_then : String → Task → Phase → World → Option World
  acquire_then t r p w = elim (s.acquire w.permits) [
    | none ↦ none
    | some q ↦ some (record w { results = put t (record r { phase = p }) w.results; permits = q })
  ]

  unfoldable pub block : String → Task → List String → List String → World → World
  unfolding set_phase
  block t r deps [] w = set_phase t r linking w
  block t r deps (i ∷ imports) w = record w {
    results =
        put t
          (record {
            blocked_on = i ∷ imports;
            dependency = deps;
            checked = [];
            phase = checking deps [];
          })
          w.results;
  }

  -- `doCompile` and `asFile`, to where the file has set what it is blocked on.
  unfoldable pub resolve : String → Task → SearchResult → World → World
  unfolding set_phase block wants_descriptor_proto
  resolve t r failure w = set_phase t r (finished false true) w
  resolve t r linked w = set_phase t r (finished true true) w
  resolve t r (parsed deps) w =
      block t r deps
        (if wants_descriptor_proto t deps then deps ++ (descriptor_proto_path ∷ []) else deps) w

  -- The loop over the imports: the next one is compiled, unless it is the file itself.
  unfoldable pub next_import : String → Task → List String → World → World
  unfolding set_phase compile wants_descriptor_proto
  next_import t r [] w = record w {
    results =
        put t (record r { phase = releasing })
          (if wants_descriptor_proto t r.dependency
            then compile descriptor_proto_path w.results
            else w.results);
  }
  next_import t r (d ∷ todo) w =
      if str_eq t d then set_phase t r (finished false true) w else record w {
        results =
            put t (record r { phase = checking todo (enter d (t ∷ d ∷ []) ∷ []) })
              (compile d w.results);
      }

  -- One step of `checkForDependencyCycle`, or else of the loop over the imports.
  unfoldable pub check_step : String → Task → List String → List Call → World → World
  unfolding set_phase next_import contains
  check_step t r todo [] w = next_import t r todo w
  check_step t r todo (enter x path ∷ stack) w =
      if contains r.checked x
      then set_phase t r (checking todo stack) w
      else set_phase t (record r { checked = x ∷ r.checked })
          (checking todo (loop path (blocked w.results x) ∷ stack)) w
  check_step t r todo (loop path [] ∷ stack) w = set_phase t r (checking todo stack) w
  check_step t r todo (loop path (d ∷ deps) ∷ stack) w =
      if contains path d then set_phase t r (finished false true) w else elim (w.results d) [
        | none ↦ set_phase t r (checking todo (loop path deps ∷ stack)) w
        | some v ↦
            set_phase t r (checking todo (enter d (path ++ (d ∷ [])) ∷ loop path deps ∷ stack)) w
      ]

  -- The waits for the imports in turn, then for descriptor.proto, whose failure is ignored.
  unfoldable pub await : String → Task → List String → Bool → World → Option World
  unfolding set_phase ready
  await t r [] false w = some (set_phase t r unblocking w)
  await t r [] true w = elim (ready w.results descriptor_proto_path) [
    | none ↦ none
    | some ok ↦ some (set_phase t r (waiting [] false) w)
  ]
  await t r (d ∷ todo) implied w = elim (ready w.results d) [
    | none ↦ none
    | some ok ↦ some (set_phase t r (if ok then waiting todo implied else finished false false) w)
  ]

  unfoldable pub run_phase : String → Task → Phase → World → Option World
  unfolding set_phase give_back acquire_then resolve check_step await wants_descriptor_proto
  run_phase t r starting w = acquire_then t r resolving w
  run_phase t r resolving w = some (resolve t r (c.find t) w)
  run_phase t r (checking todo stack) w = some (check_step t r todo stack w)
  run_phase t r releasing w =
      some (give_back t r (waiting r.dependency (wants_descriptor_proto t r.dependency)) w)
  run_phase t r (waiting todo implied) w = await t r todo implied w
  run_phase t r unblocking w = some (set_phase t (record r { blocked_on = [] }) reacquiring w)
  run_phase t r reacquiring w = acquire_then t r linking w
  run_phase t r linking w = some (set_phase t r (finished (c.link t) true) w)
  run_phase t r (finished ok true) w = some (give_back t r (finished ok false) w)
  run_phase t r (finished ok false) w = none

  unfoldable pub advance : String → World → Option World
  unfolding run_phase
  advance t w = elim (w.results t) [ none ↦ none | some r ↦ run_phase t r r.phase w ]

  -- `ctx.Done()` where a task waits: for a permit, or for a result.
  unfoldable pub stop_phase : String → Task → Phase → World → Option World
  unfolding set_phase
  stop_phase t r starting w = some (set_phase t r (finished false false) w)
  stop_phase t r (waiting todo implied) w = some (set_phase t r (finished false false) w)
  stop_phase t r reacquiring w = some (set_phase t r (finished false false) w)
  stop_phase t r p w = none

  unfoldable pub stop : String → World → Option World
  unfolding stop_phase
  stop t w =
      if w.cancelled
      then elim (w.results t) [ none ↦ none | some r ↦ stop_phase t r r.phase w ]
      else none

  unfoldable pub begin : List String → World
  unfolding compile_all
  begin files = record {
    results = compile_all files no_results;
    permits = s.permits;
    cancelled = false;
  }

  -- The tasks in any interleaving; the caller may cancel at any time.
  pub data Step (w : World) : World → Type 0 where
    run : (t : String) {u : World} → advance t w ≡ some u → Step w u
    end : (t : String) {u : World} → stop t w ≡ some u → Step w u
    cancel : Step w (record w { cancelled = true })

  pub data Reach (files : List String) : World → Type 0 where
    here : Reach files (begin files)
    later : {w u : World} → Reach files w → Step w u → Reach files u
