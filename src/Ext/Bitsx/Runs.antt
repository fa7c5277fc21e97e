-- ===== src/Ext/Bitsx/Runs.antt =====
-- internal/ext/bitsx/bitsx.go at concrete numbers.
use protocompile.Prelude.{◌≡◌, arith, ◌-◌, ◌^◌}
use protocompile.Prelude.Int.{pos, negsuc}
use protocompile.Ext.Bitsx.{IsInt, max_int, min_int, add_saturate}
use protocompile.Ext.Bitsx.Saturate.{minus, add_saturate-capped, add_saturate_mixed}

add_saturate-capped_example : add_saturate (pos (2 ^ 63 - 2)) (pos 9) ≡ max_int
add_saturate-capped_example = add_saturate-capped (pos (2 ^ 63 - 2)) 9 (omega arith) (omega arith)

-- 5 + -1
add_saturate_mixed_example : IsInt (minus 5 0) × (add_saturate (pos 5) (negsuc 0) ≡ min_int)
add_saturate_mixed_example = add_saturate_mixed 5 0 (omega arith) (omega arith)
