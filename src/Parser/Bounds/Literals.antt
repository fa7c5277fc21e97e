-- ===== src/Parser/Bounds/Literals.antt =====
-- What the integer literals of ast/values.go are read as.
use protocompile.Prelude.{
  ◌||◌, ℕ, suc, ◌+◌, ◌-◌, ◌^◌, ◌≤◌, ◌<◌, ◌≡◌, refl, some, arith, ◌==◌, ltb, Bool-cases, inl, inr,
  false, true, ap,
}
use protocompile.Prelude.Int.{ℤ, pos, negsuc, ltb_ℤ}
use protocompile.Reporter.Check.{Accepts}
use protocompile.Source.{SourceSpan}
use protocompile.Parser.Bounds.{
  IntValueNode, negative_int_literal, as_int64, as_int32, to_int64, negate_int64, node_value,
  EnumValueNode, as_enum_value,
}

-- A negative literal is read as its number if that fits an int64.
pub as_int64-negative :
    (n : ℕ) (span : SourceSpan)
    → suc n ≤ 2 ^ 63
    → as_int64 (negative_int_literal (suc n) span) ≡ some (negsuc n)
unfolding as_int64 to_int64 negate_int64 node_value
as_int64-negative n span h = elim (Bool-cases (ltb (suc n) (2 ^ 63))) [
  | inl e ↦ rw e refl
  | inr e ↦
      let m : 2 ^ 64 - suc n - 1 ≡ n = ground arith in
      let same : (suc n == 2 ^ 63) ≡ true = ground arith in rw (e, m, same) refl
]

-- A negative literal beyond an int64 is read as a positive number: the magnitude is subtracted
-- from 2 ^ 64.
pub as_int64_wraps :
    (n : ℕ) (span : SourceSpan)
    → 2 ^ 63 < n
    → n < 2 ^ 64
    → as_int64 (negative_int_literal n span) ≡ some (pos (2 ^ 64 - n))
unfolding as_int64 to_int64 negate_int64 node_value
as_int64_wraps n span lo hi =
    let e : ltb n (2 ^ 63) ≡ false = ground arith in
    let m : suc (2 ^ 64 - n - 1) ≡ 2 ^ 64 - n = omega arith in
    let other : (suc (2 ^ 64 - n - 1) == 2 ^ 63) ≡ false = ground arith in
    rw (e, other) (ap (λ k. some (pos k)) m)

as_int32_fits :
    (n : IntValueNode) (lo hi i : ℤ)
    → as_int64 n ≡ some i
    → (ltb_ℤ i lo || ltb_ℤ hi i) ≡ false
    → as_int32 n lo hi ≡ (i, true)
unfolding as_int32
as_int32_fits n lo hi i e f = rw (e, as_int32, f) refl

as_int32_wraps :
    (n : ℕ) (span : SourceSpan)
    → 2 ^ 64 < n + 2 ^ 31
    → n < 2 ^ 64
    → as_int32 (negative_int_literal n span) (negsuc (2 ^ 31 - 1)) (pos (2 ^ 31 - 1))
      ≡ (pos (2 ^ 64 - n), true)
as_int32_wraps n span lo hi =
    as_int32_fits (negative_int_literal n span) _ _ (pos (2 ^ 64 - n))
      (as_int64_wraps n span (omega arith) hi) (ground arith)

-- An enum value whose number is written as a minus sign and an n below 2 ^ 64, but less than
-- 2 ^ 31 below it, is made without a report, and its number is the positive 2 ^ 64 - n.
pub as_enum_value_wraps :
    (ev : EnumValueNode) (n : ℕ) (span : SourceSpan)
    → ev.number ≡ negative_int_literal n span
    → 2 ^ 64 < n + 2 ^ 31
    → n < 2 ^ 64
    → Accepts (as_enum_value ev) × ((as_enum_value ev).value.number ≡ pos (2 ^ 64 - n))
unfolding as_enum_value
as_enum_value_wraps ev n span e lo hi = rw (e, as_int32_wraps n span lo hi) (refl, refl)
