-- ===== src/Compiler/Wait/Mono.antt =====
-- compiler.go: what a task knows stays true as other tasks go on.
use protocompile.Prelude.{◌≡◌, ◌⊎◌, inl, inr, ℕ, ◌<◌, Bool, List, [], ◌∷◌, String, All, arith}
use protocompile.Compiler.{
  Phase, Task, Call, enter, loop, checking, releasing, waiting, starting, resolving, unblocking,
  reacquiring, linking, finished, Results, blocked, descriptor_proto_path,
}
use protocompile.Compiler.Wait.{In, Created, CallOf, Newer, Covered, Checking, Knows}

-- From `m` to `m'` nothing is deleted, and the stamp of `x` stays; a task that is blocked on more
-- has a newer stamp.
pub record Grows (m : Results) (stamp : String → ℕ) (m' : Results) (stamp' : String → ℕ)
    (x : String) : Type 0 where
  pub same : stamp' x ≡ stamp x
  pub created : (y : String) → Created m y → Created m' y
  pub blocks :
      (y a : String)
      → In a (blocked m' y)
      → (In a (blocked m y) × (stamp' y ≡ stamp y)) ⊎ (stamp x < stamp' y)

module _ {m : Results} {stamp : String → ℕ} {m' : Results} {stamp' : String → ℕ} {x : String}
    (g : Grows m stamp m' stamp' x) where
  open g use {same, created, blocks}

  Newer-mono : (w : String) → Newer m stamp x w → Newer m' stamp' x w
  Newer-mono w n b i = elim (blocks w b i) [
    | inl (i', e) ↦ omega (arith, n b i', e, same)
    | inr l ↦ omega (arith, l, same)
  ]

  Covered-mono :
      (r : Task) (stack : List Call) (w : String)
      → Covered m stamp x r stack w
      → Covered m' stamp' x r stack w
  Covered-mono r stack w (inl i) = inl i
  Covered-mono r stack w (inr (inl p)) = inr (inl p)
  Covered-mono r stack w (inr (inr n)) = inr (inr (Newer-mono w n))

  CallOf-mono : (k : Call) → CallOf m x k → CallOf m' x k
  CallOf-mono (enter v path) h = (h.0, created v h.1, h.2)
  CallOf-mono (loop path deps) h = h

  calls_mono : (stack : List Call) → All (CallOf m x) stack → All (CallOf m' x) stack
  calls_mono [] h = tt
  calls_mono (k ∷ stack) h = (CallOf-mono k h.0, calls_mono stack h.1)

  pub Checking-mono :
      {wants : Bool} {r : Task} {todo : List String} {stack : List Call}
      → Checking m stamp wants x r todo stack
      → Checking m' stamp' wants x r todo stack
  Checking-mono {r} {stack} k = record {
    own = λ d i. elim (k.own d i) [ inl j ↦ inl j | inr h ↦ inr (Covered-mono r stack d h) ];
    seen = λ v w i j l. elim (blocks v w j) [
      | inl (j', e) ↦ Covered-mono r stack w (k.seen v w i j' (omega (arith, l, e, same)))
      | inr l' ↦ absurd (omega (arith, l, l', same))
    ];
    apart = k.apart;
    calls = calls_mono stack k.calls;
    imports = k.imports;
    made = λ d i. elim (k.made d i) [ inl j ↦ inl j | inr h ↦ inr (created d h) ];
    implied = k.implied;
  }

  pub Knows-mono :
      (wants : String → List String → Bool) (r : Task) (p : Phase)
      → Knows m stamp wants x r p
      → Knows m' stamp' wants x r p
  Knows-mono wants r (checking todo stack) h = Checking-mono h
  Knows-mono wants r releasing h = (Checking-mono h.0, λ e. created descriptor_proto_path (h.1 e))
  Knows-mono wants r (waiting todo implied) h = (
    Checking-mono h.0,
    λ d i. ((h.1 d i).0, created d (h.1 d i).1),
    λ e. ((h.2 e).0, created descriptor_proto_path (h.2 e).1),
  )
  Knows-mono wants r starting h = tt
  Knows-mono wants r resolving h = tt
  Knows-mono wants r unblocking h = tt
  Knows-mono wants r reacquiring h = tt
  Knows-mono wants r linking h = tt
  Knows-mono wants r (finished ok held) h = tt
