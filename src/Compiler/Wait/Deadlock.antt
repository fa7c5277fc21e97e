-- ===== src/Compiler/Wait/Deadlock.antt =====
-- compiler.go: where descriptor.proto imports nothing, some task can go on until all are finished.
use protocompile.Prelude.{
  ◌≡◌, refl, sym, subst, ◌≢◌, ◌⊎◌, inl, inr, Bool, true, false, none, some, List, [], ◌∷◌, String,
  arith, Option-cases, length,
}
use protocompile.Compiler.{
  Semaphore, Callees, Phase, Task, starting, resolving, checking, releasing, waiting, unblocking,
  reacquiring, linking, finished, World, Results, blocked, ready, outcome, descriptor_proto_path,
  wants_descriptor_proto, acquire_then, await, run_phase, advance, Reach,
}
use protocompile.Compiler.Wait.{In, Created, Knows, Ordered}
use protocompile.Compiler.Wait.Circle.{Closed, no-Circle}
use protocompile.Compiler.Wait.Advance.{ImportsNothing, Reach-Ordered}
use protocompile.Compiler.Wait.Store.{blocked-some}
use protocompile.Compiler.Permits.{holds, holding}
use protocompile.Compiler.Permits.Count.{Count}
use protocompile.Compiler.Permits.Bound.{Reach-Held}

-- A file was asked for, and its result is not ready.
abbrev pub Unready : Results → String → Type 0
Unready m x = Created m x × (ready m x ≡ none)

-- No task can go on.
abbrev pub Stuck : (s : Semaphore) (c : Callees) → World s c → Type 0
Stuck s c w = (t : String) → advance s c t w ≡ none

module _ (s : Semaphore) (c : Callees) (w : World s c) where
  holds_goes : (t : String) (r : Task) (p : Phase) → holds p ≡ true → run_phase s c t r p w ≢ none
  unfolding holds run_phase
  holds_goes t r resolving h e = cc
  holds_goes t r (checking todo stack) h e = cc
  holds_goes t r releasing h e = cc
  holds_goes t r linking h e = cc
  holds_goes t r (finished ok true) h e = cc
  holds_goes t r (finished ok false) h e = cc
  holds_goes t r starting h e = cc
  holds_goes t r (waiting todo implied) h e = cc
  holds_goes t r unblocking h e = cc
  holds_goes t r reacquiring h e = cc

  module _ (stuck : Stuck s c w) where
    stuck_phase :
        (t : String) (r : Task) → w.results t ≡ some r → run_phase s c t r r.phase w ≡ none
    unfolding advance
    stuck_phase t r e = rw (e, advance) at (stuck t)

    no_holder : (t : String) → holding w.results t ≢ true
    unfolding holding
    no_holder t h = elim (Option-cases (w.results t)) [
      | inl e ↦ cc (rw (e, holding) at h)
      | inr (r, e) ↦ holds_goes t r r.phase (rw (e, holding) at h) (stuck_phase t r e)
    ]

    -- All permits are free.
    free :
        Count (holding w.results) (s.held w.permits)
        → (q : s.Permits) × (s.acquire w.permits ≡ some q)
    free k = s.has_room w.permits (omega (arith, k.size, s.par_pos, empty k.names k.sound))
      where
        empty :
            (names : List String)
            → ((x : String) → In x names → holding w.results x ≡ true)
            → length names ≡ 0
        empty [] f = refl
        empty (x ∷ names) f = absurd (no_holder x (f x (inl refl)))

  -- What a task that cannot go on waits for.
  await-none :
      (t : String) (r : Task) (todo : List String) (implied : Bool)
      → await s c t r todo implied w ≡ none
      → (d : String) × (ready w.results d ≡ none)
        × (In d todo ⊎ ((implied ≡ true) × (descriptor_proto_path ≡ d)))
  unfolding await
  await-none t r [] false h = cc
  await-none t r [] true h = elim (Option-cases (ready w.results descriptor_proto_path)) [
    | inl g ↦ (descriptor_proto_path, g, inr (refl, refl))
    | inr (ok, g) ↦ cc (rw (g, await) at h)
  ]
  await-none t r (d ∷ todo) implied h = elim (Option-cases (ready w.results d)) [
    | inl g ↦ (d, g, inl (inl refl))
    | inr (ok, g) ↦ cc (rw (g, await) at h)
  ]

  acquire_none :
      (t : String) (r : Task) (p : Phase) (q : s.Permits)
      → s.acquire w.permits ≡ some q
      → acquire_then s c t r p w ≢ none
  unfolding acquire_then
  acquire_none t r p q e h = cc (rw (e, acquire_then) at h)

  module _ (o : Ordered (wants_descriptor_proto s c) w.results) (stuck : Stuck s c w)
      (q : s.Permits) (room : s.acquire w.permits ≡ some q) where
    -- The task waits for another, in the way that the invariant says.
    Waits : String → Type 0
    Waits x = Closed o x × ((y : String) × Unready w.results y × In y (blocked w.results x))

    waiting-Waits :
        (x : String) (r : Task) (todo : List String) (implied : Bool)
        → w.results x ≡ some r
        → Knows w.results o.stamp (wants_descriptor_proto s c) x r (waiting todo implied)
        → await s c x r todo implied w ≡ none
        → Waits x
    unfolding Waits
    waiting-Waits x r todo implied e k h =
        let (d, late, where_from) = await-none x r todo implied h in
        let same = blocked-some w.results x r e in
        let at : In d r.blocked_on × Created w.results d = elim where_from [
          | inl i ↦ k.1 d i
          | inr (b, f) ↦ subst (λ y. In y r.blocked_on × Created w.results y) f (k.2 b)
        ] in
        (
          (
            r,
            (λ a i. elim (k.0.own a (subst (λ l. In a l) same i)) [ inl j ↦ absurd j | inr g ↦ g ]),
            k.0.seen,
            k.0.apart,
          ),
          (d, (at.1, late), subst (λ l. In d l) (sym same) at.0),
        )

    phase-Waits :
        (x : String) (r : Task) (p : Phase)
        → w.results x ≡ some r
        → Knows w.results o.stamp (wants_descriptor_proto s c) x r p
        → run_phase s c x r p w ≡ none
        → outcome p ≡ none
        → Waits x
    unfolding run_phase outcome
    phase-Waits x r starting e k h g = absurd (acquire_none x r resolving q room h)
    phase-Waits x r reacquiring e k h g = absurd (acquire_none x r linking q room h)
    phase-Waits x r (waiting todo implied) e k h g = waiting-Waits x r todo implied e k h
    phase-Waits x r resolving e k h g = cc
    phase-Waits x r (checking todo stack) e k h g = cc
    phase-Waits x r releasing e k h g = cc
    phase-Waits x r unblocking e k h g = cc
    phase-Waits x r linking e k h g = cc
    phase-Waits x r (finished ok held) e k h g = cc

    Unready-Waits : (x : String) → Unready w.results x → Waits x
    unfolding ready
    Unready-Waits x ((r, e), late) =
        phase-Waits x r r.phase e (o.knows x r e) (stuck_phase stuck x r e) (rw (e, ready) at late)

    nothing-Unready : (x : String) → ¬ (Unready w.results x)
    unfolding Waits
    nothing-Unready =
        no-Circle o o.now (Unready w.results) (λ x u. (Unready-Waits x u).0)
          (λ x u. (o.past x, (Unready-Waits x u).1))

-- Where descriptor.proto imports nothing, no interleaving of the tasks leads to a deadlock: as long
-- as a result is not ready, some task can go on. A file may import itself or be part of a cycle of
-- imports.
pub Unready-progress :
    (s : Semaphore) (c : Callees) {files : List String} {w : World s c}
    → ImportsNothing c
    → Reach s c files w
    → (x : String) → Unready w.results x
    → ¬ (Stuck s c w)
Unready-progress s c {w} quiet h x u stuck =
    let (q, room) = free s c w stuck (Reach-Held s c h) in
    nothing-Unready s c w (Reach-Ordered s c quiet h) stuck q room x u
