-- ===== src/Intern/Char6/Bits.antt =====
-- The bit operations of the codec as arithmetic, and the two tables as inverse to each other.
use Prim.Native.Nat.{bit_and, bit_or, min, max, digits, bitwise, bit_and-bitwise, bit_or-bitwise}
use protocompile.Prelude.{
  ℕ, zero, suc, ◌+◌, ◌*◌, ◌/◌, ◌%◌, ◌≤◌, ◌<◌, ◌≡◌, refl, ◌∙◌, sym, Bool, true, false, ◌&&◌, ◌||◌,
  arith, ◌==◌, ==_iff, ltb, if◌then◌else◌, Bool-cases, inl, inr,
}
use protocompile.Intern.Char6.{char6_to_byte, byte_to_char6}

-- An operation digit by digit does not depend on the count of digits, if that is large enough.
module _ (z : ℕ → ℕ) (f : ℕ → ℕ → ℕ) where
  count_free : (n m a b : ℕ) → a ≤ n → a ≤ m → digits z f n a b ≡ digits z f m a b
  count_free n m zero b p q = no_digits n b ∙ sym (no_digits m b)
    where
      no_digits : (k c : ℕ) → digits z f k zero c ≡ z c
      no_digits zero c = refl
      no_digits (suc k) c = refl
  count_free zero m (suc a) b p q = absurd (omega arith)
  count_free (suc n) zero (suc a) b p q = absurd (omega arith)
  count_free (suc n) (suc m) (suc a) b p q =
      omega (arith, count_free n m (suc a / 2) (b / 2) (omega arith) (omega arith))

  -- The lowest digit, where `z` is the operation with no digits on the left.
  lowest_digit :
      ((b : ℕ) → z b ≡ z (b / 2) * 2 + f 0 (b % 2))
      → (a b : ℕ) → bitwise z f a b ≡ bitwise z f (a / 2) (b / 2) * 2 + f (a % 2) (b % 2)
  lowest_digit h zero b = h b
  lowest_digit h (suc a) b =
      omega (arith, count_free a (suc a / 2) (suc a / 2) (b / 2) (omega arith) (omega arith))

and_step : (a b : ℕ) → bit_and a b ≡ bit_and (a / 2) (b / 2) * 2 + min (a % 2) (b % 2)
and_step a b = omega (
  arith,
  bit_and-bitwise a b,
  bit_and-bitwise (a / 2) (b / 2),
  lowest_digit (λ c. zero) min (λ c. omega arith) a b,
)

or_step : (a b : ℕ) → bit_or a b ≡ bit_or (a / 2) (b / 2) * 2 + max (a % 2) (b % 2)
or_step a b = omega (
  arith,
  bit_or-bitwise a b,
  bit_or-bitwise (a / 2) (b / 2),
  lowest_digit (λ c. c) max (λ c. omega arith) a b,
)

and_zero : (n a : ℕ) → a ≤ n → bit_and a 0 ≡ 0
and_zero n zero h = refl
and_zero zero (suc a) h = absurd (omega arith)
and_zero (suc n) (suc a) h = omega (arith, and_step (suc a) 0, and_zero n (suc a / 2) (omega arith))

or_zero : (n a : ℕ) → a ≤ n → bit_or a 0 ≡ a
or_zero n zero h = refl
or_zero zero (suc a) h = absurd (omega arith)
or_zero (suc n) (suc a) h = omega (arith, or_step (suc a) 0, or_zero n (suc a / 2) (omega arith))

and_one : (a : ℕ) → bit_and a 1 ≡ a % 2
and_one a = omega (arith, and_step a 1, and_zero (a / 2) (a / 2) (omega arith))

and_seven : (a : ℕ) → bit_and a 7 ≡ a % 8
and_seven a = omega (arith, and_step a 7, and_step (a / 2) 3, and_one (a / 2 / 2))

-- `id & 077` is the lowest six bits.
pub bit_and-sextet : (a : ℕ) → bit_and a 0x3f ≡ a % 64
bit_and-sextet a =
    omega (
      arith,
      and_step a 63,
      and_step (a / 2) 31,
      and_step (a / 2 / 2) 15,
      and_seven (a / 2 / 2 / 2),
    )

or_eight : (w s : ℕ) → s < 8 → bit_or (w * 8) s ≡ w * 8 + s
or_eight w s h = omega (
  arith,
  or_step (w * 8) s,
  or_step (w * 8 / 2) (s / 2),
  or_step (w * 8 / 2 / 2) (s / 2 / 2),
  or_low,
)
  where
    or_low : bit_or (w * 8 / 2 / 2 / 2) (s / 2 / 2 / 2) ≡ w
    or_low =
        let e : w * 8 / 2 / 2 / 2 ≡ w = omega arith in
        let e' : s / 2 / 2 / 2 ≡ 0 = omega arith in rw (e, e') (or_zero w w (omega arith))

-- Six low bits that are zero: the or is a sum.
pub bit_or-sextet : (w s : ℕ) → s < 64 → bit_or (w * 64) s ≡ w * 64 + s
bit_or-sextet w s h = omega (
  arith,
  or_step (w * 64) s,
  or_step (w * 64 / 2) (s / 2),
  or_step (w * 64 / 2 / 2) (s / 2 / 2),
  or_rest,
)
  where
    or_rest : bit_or (w * 64 / 2 / 2 / 2) (s / 2 / 2 / 2) ≡ w * 8 + s / 8
    or_rest =
        let e : w * 64 / 2 / 2 / 2 ≡ w * 8 = omega arith in
        let e' : s / 2 / 2 / 2 ≡ s / 8 = omega arith in
        rw (e, e') (or_eight w (s / 8) (omega arith))

-- The test passes at `count` numbers from `first` on.
passes_from : (ℕ → Bool) → (count first : ℕ) → Bool
passes_from test zero first = true
passes_from test (suc count) first =
    let later = passes_from test count (first + 1) in if test first then later else false

passes_from-at :
    (test : ℕ → Bool) (count first b : ℕ)
    → first ≤ b
    → b < first + count
    → passes_from test count first ≡ true
    → test b ≡ true
unfolding passes_from
passes_from-at test zero first b lo hi = absurd (omega arith)
passes_from-at test (suc count) first b lo hi = elim (Bool-cases (first == b)) [
  | inl e ↦ let here : first ≡ b = (==_iff first b).0 e in rw here (ground arith)
  | inr e ↦ elim (Bool-cases (test first)) [
    | inl t ↦ rw t (passes_from-at test count (first + 1) b (ground arith) (omega arith))
    | inr t ↦ rw t (λ h. cc)
  ]
]

abbrev tables_agree : ℕ → Bool
tables_agree b =
    byte_to_char6 b == 0xff || (ltb (byte_to_char6 b) 64 && char6_to_byte (byte_to_char6 b) == b)

tables_check : passes_from tables_agree 256 0 ≡ true
unfolding passes_from byte_to_char6 char6_to_byte
tables_check = refl

-- A byte of the alphabet goes to a number below 64, which goes back to the byte.
pub char6_to_byte-byte_to_char6 :
    (b : ℕ)
    → b < 256
    → (byte_to_char6 b == 0xff) ≡ false
    → (byte_to_char6 b < 64) × (char6_to_byte (byte_to_char6 b) ≡ b)
char6_to_byte-byte_to_char6 b h e =
    let agree = passes_from-at tables_agree 256 0 b (omega arith) h tables_check in ground arith
