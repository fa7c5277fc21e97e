-- ===== src/Ext/Bitsx.antt =====
-- internal/ext/bitsx/bitsx.go: `AddOverflow` and `AddSaturate`, with `int` of 64 bits.
pub mod Saturate
mod Runs
use protocompile.Prelude.{ℕ, ◌+◌, ◌-◌, ◌%◌, ◌^◌, ◌<◌, Bool, true, false, ltb, if◌then◌else◌}
use protocompile.Prelude.Int.{ℤ, pos, negsuc, ltb_ℤ}

-- The numbers of an int.
abbrev pub IsInt : ℤ → Type 0
IsInt (pos n) = n < 2 ^ 63
IsInt (negsuc n) = n < 2 ^ 63

abbrev pub max_int : ℤ
max_int = pos (2 ^ 63 - 1)

abbrev pub min_int : ℤ
min_int = negsuc (2 ^ 63 - 1)

-- The bit pattern of an int, and the int of a bit pattern.
unfoldable pub to_bits : ℤ → ℕ
to_bits (pos n) = n
to_bits (negsuc n) = 2 ^ 64 - n - 1

unfoldable pub from_bits : ℕ → ℤ
from_bits v = if ltb v (2 ^ 63) then pos v else negsuc (2 ^ 64 - v - 1)

-- `x + y`
unfoldable pub add_int : ℤ → ℤ → ℤ
unfolding to_bits from_bits
add_int x y = from_bits ((to_bits x + to_bits y) % 2 ^ 64)

unfoldable pub add_overflow : ℤ → ℤ → ℤ × Bool
unfolding add_int
add_overflow x y = (add_int x y, ltb_ℤ (add_int x y) x)

unfoldable pub add_saturate : ℤ → ℤ → ℤ
unfolding add_overflow
add_saturate x y =
    let (z, of) = add_overflow x y in
    if of then (if ltb_ℤ z (pos 0) then max_int else min_int) else z
