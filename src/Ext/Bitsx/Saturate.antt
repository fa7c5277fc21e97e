-- ===== src/Ext/Bitsx/Saturate.antt =====
-- internal/ext/bitsx/bitsx.go: what `AddSaturate` returns for each sign of its second argument.
use protocompile.Prelude.{
  ◌≡◌, inl, inr, ℕ, ◌+◌, ◌-◌, ◌%◌, ◌^◌, ◌<◌, ◌≤◌, ltb, leb, if◌then◌else◌, arith, Bool-cases,
}
use protocompile.Prelude.Int.{ℤ, pos, negsuc}
use protocompile.Ext.Bitsx.{IsInt, max_int, min_int, to_bits, from_bits, add_int, add_saturate}

-- `m - n - 1`
abbrev pub minus : ℕ → ℕ → ℤ
minus m n = if leb m n then negsuc (n - m) else pos (m - n - 1)

minus-IsInt : (m n : ℕ) → m < 2 ^ 63 → n < 2 ^ 63 → IsInt (minus m n)
minus-IsInt m n h k = elim (Bool-cases (leb m n)) [
  | inl e ↦ rw e (omega arith)
  | inr e ↦ rw e (omega arith)
]

from_bits_nonneg : (v : ℕ) → v < 2 ^ 63 → from_bits v ≡ pos v
unfolding from_bits
from_bits_nonneg v h = ground arith

from_bits_neg : (n : ℕ) → n < 2 ^ 63 → from_bits (2 ^ 64 - n - 1) ≡ negsuc n
unfolding from_bits
from_bits_neg n h = ground arith

add_int_nonneg :
    (m n : ℕ) → m < 2 ^ 63 → n < 2 ^ 63 → m + n < 2 ^ 63 → add_int (pos m) (pos n) ≡ pos (m + n)
unfolding add_int to_bits
add_int_nonneg m n h k l =
    let e : (m + n) % 2 ^ 64 ≡ m + n = omega arith in rw e (from_bits_nonneg (m + n) l)

add_int_over :
    (m n : ℕ)
    → m < 2 ^ 63
    → n < 2 ^ 63
    → 2 ^ 63 ≤ m + n
    → add_int (pos m) (pos n) ≡ negsuc (2 ^ 64 - (m + n) - 1)
unfolding add_int to_bits
add_int_over m n h k l =
    let e : (m + n) % 2 ^ 64 ≡ 2 ^ 64 - (2 ^ 64 - (m + n) - 1) - 1 = omega arith in
    rw e (from_bits_neg (2 ^ 64 - (m + n) - 1) (omega arith))

add_int_mixed : (m n : ℕ) → m < 2 ^ 63 → n < 2 ^ 63 → add_int (pos m) (negsuc n) ≡ minus m n
unfolding add_int to_bits
add_int_mixed m n h k = elim (Bool-cases (leb m n)) [
  | inl f ↦
      let e : (m + (2 ^ 64 - n - 1)) % 2 ^ 64 ≡ 2 ^ 64 - (n - m) - 1 = ground arith in
      rw (e, f) (from_bits_neg (n - m) (omega arith))
  | inr f ↦
      let e : (m + (2 ^ 64 - n - 1)) % 2 ^ 64 ≡ m - n - 1 = ground arith in
      rw (e, f) (from_bits_nonneg (m - n - 1) (omega arith))
]

add_int_mixed' : (m n : ℕ) → m < 2 ^ 63 → n < 2 ^ 63 → add_int (negsuc n) (pos m) ≡ minus m n
unfolding add_int to_bits
add_int_mixed' m n h k = elim (Bool-cases (leb m n)) [
  | inl f ↦
      let e : (2 ^ 64 - n - 1 + m) % 2 ^ 64 ≡ 2 ^ 64 - (n - m) - 1 = ground arith in
      rw (e, f) (from_bits_neg (n - m) (omega arith))
  | inr f ↦
      let e : (2 ^ 64 - n - 1 + m) % 2 ^ 64 ≡ m - n - 1 = ground arith in
      rw (e, f) (from_bits_nonneg (m - n - 1) (omega arith))
]

-- The sum of a number and a number that is not negative, with the greatest int for a sum above it.
abbrev pub capped : ℤ → ℕ → ℤ
capped (pos m) n = if ltb (m + n) (2 ^ 63) then pos (m + n) else max_int
capped (negsuc m) n = minus n m

-- For ints of which the second is not negative, AddSaturate returns the sum, or the greatest int if
-- the sum is greater.
pub add_saturate-capped :
    (x : ℤ) (n : ℕ) → IsInt x → n < 2 ^ 63 → add_saturate x (pos n) ≡ capped x n
unfolding add_saturate
add_saturate-capped (pos m) n h k = elim (Bool-cases (ltb (m + n) (2 ^ 63))) [
  | inl e ↦ rw (add_int_nonneg m n h k (ground arith)) (ground arith)
  | inr e ↦ rw (add_int_over m n h k (ground arith)) (ground arith)
]
add_saturate-capped (negsuc m) n h k = rw (add_int_mixed' n m k h) (ground arith)

-- For ints of which the first is not negative and the second is negative, the sum is an int, but
-- AddSaturate returns the greatest int if the sum is negative, and the least int if it is not.
pub add_saturate_mixed :
    (m n : ℕ)
    → m < 2 ^ 63
    → n < 2 ^ 63
    → IsInt (minus m n) × (add_saturate (pos m) (negsuc n) ≡ (if leb m n then max_int else min_int))
unfolding add_saturate
add_saturate_mixed m n h k = (minus-IsInt m n h k, rw (add_int_mixed m n h k) (ground arith))
