-- ===== src/Compiler/Wait/Circle.antt =====
-- compiler.go: no set of blocked tasks closes a circle, since its newest member would have seen it.
use protocompile.Prelude.{
  sym, ◌∙◌, ◌≢◌, inl, inr, ℕ, zero, suc, ◌<◌, Bool, List, [], String, arith, Bool-cases, ==_iff,
  ◌==◌,
}
use protocompile.Compiler.{Task, Results, blocked}
use protocompile.Compiler.Wait.{In, Ordered, Covered}

-- A task of a set each of whose members is blocked on another knows the members that it checked.
-- The newest member would have checked a smaller such set.
module _ {wants : String → List String → Bool} {m : Results} (o : Ordered wants m) where
  open o use {stamp, distinct}

  abbrev pub Circle : (String → Type 0) → ℕ → Type 0
  Circle P n = (x : String) → P x → (stamp x < n) × ((y : String) × P y × In y (blocked m x))

  -- What a task has checked, when nothing is left on its stack.
  abbrev pub Closed : String → Type 0
  Closed x =
      (r : Task) × ((d : String) → In d (blocked m x) → Covered m stamp x r [] d)
      × ((v w : String)
          → In v r.checked
          → In w (blocked m v)
          → stamp v < stamp x
          → Covered m stamp x r [] w)
      × ((v : String) → In v r.checked → v ≢ x)

  newest :
      (n : ℕ) (P : String → Type 0)
      → ((x : String) → P x → Closed x)
      → Circle P (suc n)
      → ((Q : String → Type 0)
          → ((x : String) → Q x → Closed x)
          → Circle Q n
          → (x : String) → ¬ (Q x))
      → (z : String) → P z
      → stamp z ≢ n
  newest n P closed circle smaller z pz e =
      let (r, own, seen, apart) = closed z pz in
      let Q : String → Type 0 = λ v. P v × In v r.checked in
      let member : (y : String) → P y → Covered m stamp z r [] y → Q y = λ y py h. elim h [
        | inl i ↦ (py, i)
        | inr (inl p) ↦ absurd p
        | inr (inr newer) ↦
            let (lt, (b, pb, j)) = circle y py in absurd (omega (arith, newer b j, lt, e))
      ] in
      let older : Circle Q n = λ v q.
        let (lt, (y, py, j)) = circle v q.0 in
        let (lz, (d, pd, k)) = circle z pz in
        let less : stamp v < n = elim (Bool-cases (stamp v == n)) [
          | inl f ↦ absurd (apart v q.1 (distinct v z y d j k ((==_iff _ _).0 f ∙ sym e)))
          | inr f ↦ ground arith
        ] in
        (less, (y, member y py (seen v y q.1 j (omega (arith, less, e))), j)) in
      let (lt, (y, py, j)) = circle z pz in
      smaller Q (λ v q. closed v q.0) older y (member y py (own y j))

  pub no-Circle :
      (n : ℕ) (P : String → Type 0)
      → ((x : String) → P x → Closed x)
      → Circle P n
      → (x : String) → ¬ (P x)
  no-Circle zero P closed circle x p = absurd (omega (arith, (circle x p).0))
  no-Circle (suc n) P closed circle x p =
      no-Circle n P closed
        (λ z pz. (
          elim (Bool-cases (stamp z == n)) [
            | inl f ↦ absurd (newest n P closed circle (no-Circle n) z pz ((==_iff _ _).0 f))
            | inr f ↦ ground (arith, (circle z pz).0)
          ],
          (circle z pz).1,
        ))
        x p
