-- ===== src/Ext/Queue/Ops.antt =====
-- internal/ext/slicesx/queue.go: a queue is a list with two ends.
use protocompile.Prelude.{
  ◌≡◌, refl, sym, subst, ap, ◌∙◌, inl, ℕ, ◌+◌, ◌^◌, ◌≤◌, Option, none, some, List, [], ◌∷◌, ◌++◌,
  length, arith,
}
use protocompile.Ext.Queue.{
  front, back, Queue, values, new_queue, reserve, push_front, push_back, pop_front, pop_back, clear,
}
use protocompile.Ext.Queue.Pops.{
  head?, tail, last?, init, pop_front_lem, front-pop_front, back-pop_back, pop_back_lem,
}
use protocompile.Ext.Queue.Ring.{
  IsRing, PowerOr0, reserve_lem, push_back_lem, push_front_lem, length-pop_front, length-pop_back,
  new_queue_lem,
}

-- The operations, and what each one does to a list.
pub data Op (E : Type 0) : Type 0 where
  push_front_op : List E → Op E
  push_back_op : List E → Op E
  pop_front_op : Op E
  pop_back_op : Op E
  front_op : Op E
  back_op : Op E
  reserve_op : ℕ → Op E
  clear_op : Op E

unfoldable pub spec : {E : Type 0} → Op E → List E → Option E × List E
spec (push_front_op v) xs = (none, v ++ xs)
spec (push_back_op v) xs = (none, xs ++ v)
spec pop_front_op xs = (head? xs, tail xs)
spec pop_back_op xs = (last? xs, init xs)
spec front_op xs = (head? xs, xs)
spec back_op xs = (last? xs, xs)
spec (reserve_op n) xs = (none, xs)
spec clear_op xs = (none, [])

-- The power of two for the elements asked for is an int.
abbrev pub Fits : {E : Type 0} → Op E → List E → Type 0
Fits (push_front_op v) xs = length xs + length v + 1 ≤ 2 ^ 62
Fits (push_back_op v) xs = length xs + length v + 1 ≤ 2 ^ 62
Fits pop_front_op xs = Unit
Fits pop_back_op xs = Unit
Fits front_op xs = Unit
Fits back_op xs = Unit
Fits (reserve_op n) xs = length xs + n + 1 ≤ 2 ^ 62
Fits clear_op xs = Unit

abbrev pub AllFit : {E : Type 0} → List (Op E) → List E → Type 0
AllFit [] xs = Unit {0}
AllFit (op ∷ ops) xs = Fits op xs × AllFit ops (spec op xs).1

unfoldable pub run_spec : {E : Type 0} → List (Op E) → List E → List (Option E) × List E
run_spec [] xs = ([], xs)
run_spec (op ∷ ops) xs =
    let (out, xs') = spec op xs in let (outs, xs'') = run_spec ops xs' in (out ∷ outs, xs'')

module _ {E : Type 0} (z : E) where
  -- An operation, `none` for a panic.
  unfoldable pub apply : Op E → Queue E → Option (Option E × Queue E)
  unfolding push_front push_back pop_front pop_back front back reserve
  apply (push_front_op v) r = elim (push_front z v r) [ none ↦ none | some r' ↦ some (none, r') ]
  apply (push_back_op v) r = elim (push_back z v r) [ none ↦ none | some r' ↦ some (none, r') ]
  apply pop_front_op r = some (pop_front z r)
  apply pop_back_op r = some (pop_back z r)
  apply front_op r = some (front r, r)
  apply back_op r = some (back r, r)
  apply (reserve_op n) r = elim (reserve z n r) [ none ↦ none | some r' ↦ some (none, r') ]
  apply clear_op r = some (none, clear r)

  -- What a run returns, with the results of the operations that are still to come.
  with_outs : Option E → Option (List (Option E) × Queue E) → Option (List (Option E) × Queue E)
  with_outs out none = none
  with_outs out (some (outs, r)) = some (out ∷ outs, r)

  unfoldable pub run_ops : List (Op E) → Queue E → Option (List (Option E) × Queue E)
  unfolding apply with_outs
  run_ops [] r = some ([], r)
  run_ops (op ∷ ops) r = elim (apply op r) [
    | none ↦ none
    | some (out, r') ↦ with_outs out (run_ops ops r')
  ]

  -- The operation does not panic, gives what it gives on the elements, and leaves a queue with the
  -- elements that it leaves there.
  abbrev Refines : Op E → Queue E → Type 0
  Refines op r =
      (r' : Queue E) × ((apply op r ≡ some ((spec op (values r)).0, r'))
        × (IsRing r' × (values r' ≡ (spec op (values r)).1)))

  apply-Refines : (op : Op E) (r : Queue E) → IsRing r → Fits op (values r) → Refines op r
  unfolding apply spec values
  apply-Refines (push_front_op v) r ok h =
      let (r', (e, done)) = push_front_lem z v r ok h in (r', (rw (apply, e) refl, done))
  apply-Refines (push_back_op v) r ok h =
      let (r', (e, done)) = push_back_lem z v r ok h in (r', (rw (apply, e) refl, done))
  apply-Refines pop_front_op r ok h =
      let (valid, out, rest) = pop_front_lem z r ok.valid in
      (
        (pop_front z r).1,
        (
          ap (λ (x : Option E). some (x, (pop_front z r).1)) out,
          (
            record { valid = valid; power = subst PowerOr0 (sym (length-pop_front z r)) ok.power },
            rest,
          ),
        ),
      )
  apply-Refines pop_back_op r ok h =
      let (valid, out, rest) = pop_back_lem z r ok.valid in
      (
        (pop_back z r).1,
        (
          ap (λ (x : Option E). some (x, (pop_back z r).1)) out,
          (
            record { valid = valid; power = subst PowerOr0 (sym (length-pop_back z r)) ok.power },
            rest,
          ),
        ),
      )
  apply-Refines front_op r ok h =
      let e = front-pop_front z r ok.valid ∙ (pop_front_lem z r ok.valid).1 in
      (r, (ap (λ (x : Option E). some (x, r)) e, (ok, refl)))
  apply-Refines back_op r ok h =
      let e = back-pop_back z r ok.valid ∙ (pop_back_lem z r ok.valid).1 in
      (r, (ap (λ (x : Option E). some (x, r)) e, (ok, refl)))
  apply-Refines (reserve_op n) r ok h =
      let (r', (e, (ring, (kept, room)))) = reserve_lem z n r ok h in
      (r', (rw (apply, e) refl, (ring, kept)))
  apply-Refines clear_op r ok h = (
    clear r,
    (
      refl,
      (
        record {
          valid = record { start_in = omega arith; end_in = omega arith };
          power = inl refl;
        },
        refl,
      ),
    ),
  )

  -- The run does not panic, gives what it gives on a list, and leaves a queue with the elements that
  -- it leaves there.
  abbrev pub RunRefines : List (Op E) → Queue E → List E → Type 0
  RunRefines ops r xs =
      (r' : Queue E) × ((run_ops ops r ≡ some ((run_spec ops xs).0, r'))
        × (IsRing r' × (values r' ≡ (run_spec ops xs).1)))

  run_ops-RunRefines :
      (ops : List (Op E)) (r : Queue E) (xs : List E)
      → IsRing r
      → values r ≡ xs
      → AllFit ops xs
      → RunRefines ops r xs
  unfolding run_ops run_spec with_outs
  run_ops-RunRefines [] r xs ok e h = (r, (refl, (ok, e)))
  run_ops-RunRefines (op ∷ ops) r xs ok e h =
      let (r', (one, (ring, rest))) = apply-Refines op r ok (subst (Fits op) (sym e) h.0) in
      let same = rest ∙ ap (λ (l : List E). (spec op l).1) e in
      let (r'', (more, left)) = run_ops-RunRefines ops r' (spec op xs).1 ring same h.1 in
      let out = one ∙ ap (λ (l : List E). some ((spec op l).0, r')) e in
      (r'', (rw (run_ops, out, more) refl, left))

  -- A new queue refines an empty list: as long as the numbers of slots asked for are at most
  -- `2 ^ 62`, no call panics, every sequence of pushes, pops, reads of the ends, reserves and clears
  -- gives the results that it gives on a list, and leaves the queue with the elements of that list,
  -- both ends in its buffer and the buffer's length 0 or a power of two.
  pub run_ops_refines :
      (n : ℕ) (ops : List (Op E))
      → n + 1 ≤ 2 ^ 62
      → AllFit ops []
      → (q : Queue E) × ((new_queue z n ≡ some q) × RunRefines ops q [])
  run_ops_refines n ops h fit =
      let (q, (made, (ring, nil))) = new_queue_lem z n h in
      (q, (made, run_ops-RunRefines ops q [] ring nil fit))
