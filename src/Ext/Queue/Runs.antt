-- ===== src/Ext/Queue/Runs.antt =====
-- internal/ext/slicesx/queue.go at concrete operations.
use protocompile.Prelude.{◌≡◌, refl, ℕ, List, [], ◌∷◌, arith, length, some, none, ◌^◌}
use protocompile.Ext.Queue.{Queue, new_queue, values}
use protocompile.Ext.Queue.Ops.{
  Op, push_front_op, push_back_op, pop_front_op, pop_back_op, reserve_op, spec, AllFit, RunRefines,
  run_ops, run_ops_refines,
}

-- Both kinds of push wrap around the end of the buffer of four slots, which then grows.
abbrev ops : List (Op ℕ)
ops =
    push_back_op (1 ∷ 2 ∷ [])
    ∷ pop_front_op
    ∷ push_back_op (3 ∷ 4 ∷ [])
    ∷ pop_front_op
    ∷ push_front_op (5 ∷ [])
    ∷ pop_back_op
    ∷ push_front_op (6 ∷ 7 ∷ 8 ∷ [])
    ∷ reserve_op 9
    ∷ []

ops_fit : AllFit ops []
unfolding spec
ops_fit = omega arith

run_ops_refines_example : (q : Queue ℕ) × ((new_queue 0 3 ≡ some q) × RunRefines 0 ops q [])
run_ops_refines_example = run_ops_refines 0 3 ops (omega arith) ops_fit

-- The queue after the operations.
abbrev after : Queue ℕ → List ℕ × ℕ
after r = (values r, length r.buf)

ops-values :
    elim (new_queue 0 3) [
      | none ↦ none
      | some q ↦ elim (run_ops 0 ops q) [ none ↦ none | some (outs, r) ↦ some (after r) ]
    ]
    ≡ some (6 ∷ 7 ∷ 8 ∷ 5 ∷ 3 ∷ [], 16)
unfolding run_ops new_queue values
ops-values = refl

-- A capacity of `2 ^ 62` asks for `2 ^ 63` slots, which is no int.
new_queue-panics : new_queue {E = ℕ} 0 (2 ^ 62) ≡ none
unfolding new_queue
new_queue-panics = refl
