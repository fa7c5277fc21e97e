-- ===== src/Ext/Queue/Powers.antt =====
-- internal/ext/bitsx/bitsx.go: the power of two for a buffer is long enough.
use protocompile.Prelude.{
  ◌≡◌, subst, sym, refl, inl, inr, ℕ, zero, suc, ◌+◌, ◌-◌, ◌%◌, ◌/◌, ◌^◌, ◌≤◌, ◌<◌, Bool, true,
  ◌==◌, ◌&&◌, arith, Bool-cases, ==_iff, some, none, ltb, if◌then◌else◌,
}
use native.Mathlib.Nat.{pow-suc, pow-le-pow_right}
use protocompile.Ext.Queue.{
  bit_len, ones_count, is_power_of_two, next_power_of_two, make_power_of_two, buffer_length,
}

abbrev shifted : ℕ → ℕ
shifted l = ((2 ^ 64 - 1) / 2 ^ (64 - l) + 1) % 2 ^ 64

-- The shift by `64 - l` leaves a power of two for `l`, and for each smaller length.
shifts_up_to : ℕ → Bool
shifts_up_to zero = true
shifts_up_to (suc l) = shifted (suc l) == 2 ^ suc l && shifts_up_to l

every_shift : shifts_up_to 63 ≡ true
unfolding shifts_up_to
every_shift = refl

shift_of : (top l : ℕ) → l ≤ top → shifts_up_to top ≡ true → shifted l ≡ 2 ^ l
unfolding shifts_up_to
shift_of zero zero h e = refl
shift_of zero (suc l) h e = absurd (omega arith)
shift_of (suc top) l h e = elim (Bool-cases (l == suc top)) [
  | inl same ↦
      let here : (shifted (suc top) == 2 ^ suc top) ≡ true = ground arith in
      subst (λ k. shifted k ≡ 2 ^ k) (sym ((==_iff l (suc top)).0 same)) ((==_iff _ _).0 here)
  | inr less ↦ shift_of top l (ground arith) (ground arith)
]

shifted_lem : (l : ℕ) → l < 64 → shifted l ≡ 2 ^ l
shifted_lem l h = shift_of 63 l (omega arith) every_shift

bit_len-lt : (bits n : ℕ) → n < 2 ^ bits → n < 2 ^ bit_len bits n
unfolding bit_len
bit_len-lt zero n h = h
bit_len-lt (suc bits) n h = elim (Bool-cases (n == 0)) [
  | inl e ↦ rw e (ground arith)
  | inr e ↦
      let half : n / 2 < 2 ^ bits = omega (arith, pow-suc 2 bits) in
      rw e (omega (arith, pow-suc 2 (bit_len bits (n / 2)), bit_len-lt bits (n / 2) half))
]

bit_len-le : (bits n k : ℕ) → n < 2 ^ k → bit_len bits n ≤ k
unfolding bit_len
bit_len-le zero n k h = omega arith
bit_len-le (suc bits) n zero h = let e : (n == 0) ≡ true = ground arith in rw e (omega arith)
bit_len-le (suc bits) n (suc k) h = elim (Bool-cases (n == 0)) [
  | inl e ↦ rw e (omega arith)
  | inr e ↦ rw e (omega (arith, bit_len-le bits (n / 2) k (omega (arith, pow-suc 2 k))))
]

pub make_power_of_two-le : (n : ℕ) → n < 2 ^ 63 → n ≤ make_power_of_two n
unfolding make_power_of_two next_power_of_two
make_power_of_two-le n h =
    let e = shifted_lem (bit_len 64 n) (omega (arith, bit_len-le 64 n 63 h)) in
    ground (arith, e, bit_len-lt 64 n (omega arith))

-- A power of two.
abbrev pub IsPower : ℕ → Type 0
IsPower n = (k : ℕ) × (n ≡ 2 ^ k)

ones_count-zero : (bits n : ℕ) → n < 2 ^ bits → ones_count bits n ≡ 0 → n ≡ 0
unfolding ones_count
ones_count-zero zero n h e = omega arith
ones_count-zero (suc bits) n h e =
    omega (arith, e, ones_count-zero bits (n / 2) (omega (arith, pow-suc 2 bits)) (omega arith))

ones_count-IsPower : (bits n : ℕ) → n < 2 ^ bits → ones_count bits n ≡ 1 → IsPower n
unfolding ones_count
ones_count-IsPower zero n h e = absurd (omega arith)
ones_count-IsPower (suc bits) n h e =
    let small : n / 2 < 2 ^ bits = omega (arith, pow-suc 2 bits) in
    elim (Bool-cases (n % 2 == 0)) [
      | inl f ↦
          let even : n % 2 ≡ 0 = ground arith in
          let (k, g) = ones_count-IsPower bits (n / 2) small (omega (arith, e, even)) in
          (suc k, omega (arith, g, even, pow-suc 2 k))
      | inr f ↦
          let odd : n % 2 ≡ 1 = ground arith in
          let none : n / 2 ≡ 0 = ones_count-zero bits (n / 2) small (omega (arith, e, odd)) in
          (0, omega (arith, none, odd))
    ]

pub make_power_of_two-IsPower : (n : ℕ) → n < 2 ^ 63 → IsPower (make_power_of_two n)
unfolding make_power_of_two next_power_of_two is_power_of_two
make_power_of_two-IsPower n h = elim (Bool-cases (is_power_of_two n)) [
  | inl e ↦ rw e (ones_count-IsPower 64 n (omega arith) ((==_iff (ones_count 64 n) 1).0 e))
  | inr e ↦ rw e (bit_len 64 n, shifted_lem (bit_len 64 n) (omega (arith, bit_len-le 64 n 63 h)))
]

below-some : (m : ℕ) → m < 2 ^ 63 → (if ltb m (2 ^ 63) then some m else none) ≡ some m
below-some m h = let e : ltb m (2 ^ 63) ≡ true = ground arith in rw e refl

is_power_of_two-62 : is_power_of_two (2 ^ 62) ≡ true
unfolding is_power_of_two
is_power_of_two-62 = refl

-- Up to `2 ^ 62` the power of two is an int, and a buffer can have it as its length.
pub buffer_length_lem : (n : ℕ) → n ≤ 2 ^ 62 → buffer_length n ≡ some (make_power_of_two n)
unfolding buffer_length make_power_of_two next_power_of_two
buffer_length_lem n h = elim (Bool-cases (is_power_of_two n)) [
  | inl e ↦ rw e (below-some n (omega (arith, h)))
  | inr e ↦ elim (Bool-cases (n == 2 ^ 62)) [
    | inl f ↦
        let top : is_power_of_two n ≡ true =
          subst (λ k. is_power_of_two k ≡ true) (sym ((==_iff n (2 ^ 62)).0 f))
            is_power_of_two-62 in
        cc
    | inr f ↦
        let small = bit_len-le 64 n 62 (ground arith) in
        let power : shifted (bit_len 64 n) ≡ 2 ^ bit_len 64 n =
          shifted_lem (bit_len 64 n) (omega (arith, small)) in
        let low : 2 ^ bit_len 64 n ≤ 2 ^ 62 = pow-le-pow_right (omega arith) small in
        rw (e, power) (below-some (2 ^ bit_len 64 n) (omega (arith, low)))
  ]
]
