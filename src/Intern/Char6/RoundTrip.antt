-- ===== src/Intern/Char6/RoundTrip.antt =====
-- What `encodeChar6` encodes, `decodeChar6` decodes.
use Prim.Native.Nat.{bit_and}
use protocompile.Prelude.{
  ℕ, zero, suc, ◌+◌, ◌-◌, ◌*◌, ◌%◌, ◌^◌, ◌≤◌, ◌<◌, ◌≡◌, refl, ◌∙◌, ap, false, some, List, [], ◌∷◌,
  ◌++◌, arith, ◌==◌, ltb, length, replicate, All, Bool-cases, Option-cases, inl, inr,
}
use protocompile.Intern.Char6.{
  max_inlined, char6_to_byte, byte_to_char6, shift_in, encode_bytes, ends_in_dot, encode_char6,
  shift_out, decode_bytes, cut_dots, decode_char6,
}
use protocompile.Intern.Char6.Bits.{bit_and-sextet, bit_or-sextet, char6_to_byte-byte_to_char6}

abbrev pub IsByte : ℕ → Type 0
IsByte b = b < 256

shift_in_eq : (u s : ℕ) → s < 64 → shift_in u s ≡ u * 64 % 2 ^ 32 + s
shift_in_eq u s h =
    let e : u * 2 ^ 6 % 2 ^ 32 ≡ (u % 2 ^ 26) * 64 = omega arith in
    rw e (bit_or-sextet (u % 2 ^ 26) s h)

-- After `k` rounds the bits above the lowest 6 * k are ones.
abbrev IsFilled : ℕ → ℕ → Type 0
IsFilled k u = (2 ^ 32 ≤ u + 64 ^ k) × (u < 2 ^ 32)

shift_in-IsFilled :
    (k u s : ℕ) → k ≤ 4 → s < 64 → IsFilled k u → IsFilled (suc k) (u * 64 % 2 ^ 32 + s)
shift_in-IsFilled zero u s hk h i = omega arith
shift_in-IsFilled (suc zero) u s hk h i = omega arith
shift_in-IsFilled (suc (suc zero)) u s hk h i = omega arith
shift_in-IsFilled (suc (suc (suc zero))) u s hk h i = omega arith
shift_in-IsFilled (suc (suc (suc (suc zero)))) u s hk h i = omega arith
shift_in-IsFilled (suc (suc (suc (suc (suc k))))) u s hk h i = absurd (omega arith)

-- The lowest sextet of the new value, and the old value above it.
shift_out_in :
    (u s : ℕ)
    → s < 64
    → 2 ^ 32 ≤ u + 2 ^ 25
    → u < 2 ^ 32
    → (bit_and (u * 64 % 2 ^ 32 + s) 0x3f ≡ s) × (shift_out (u * 64 % 2 ^ 32 + s) ≡ u)
unfolding shift_out
shift_out_in u s h lo hi = (rw bit_and-sextet (omega arith), ground arith)

top-decode : (j : ℕ) → decode_bytes j (2 ^ 32 - 1) ≡ replicate j b'.'
unfolding decode_bytes
top-decode zero = refl
top-decode (suc j) = ap (λ l. b'.' ∷ l) (top-decode j)

-- One round of the encoding loop that succeeds.
encode_round :
    (b : ℕ) (data' : List ℕ) (v : ℕ)
    → b < 256
    → encode_bytes (b ∷ data') ≡ some v
    → (u : ℕ) × (encode_bytes data' ≡ some u)
      × (byte_to_char6 b < 64)
      × (char6_to_byte (byte_to_char6 b) ≡ b)
      × (v ≡ shift_in u (byte_to_char6 b))
unfolding encode_bytes
encode_round b data' v hb = elim (Option-cases (encode_bytes data')) [
  | inl e ↦ rw (e, encode_bytes) (λ h. cc)
  | inr (u, e) ↦ elim (Bool-cases (byte_to_char6 b == 0xff)) [
    | inl bad ↦ rw (e, encode_bytes, bad) (λ h. cc)
    | inr ok ↦
        let (lt, back) = char6_to_byte-byte_to_char6 b hb ok in
        rw (e, encode_bytes, ok) (λ h. (u, refl, lt, back, cc))
  ]
]

wide : (k u : ℕ) → k ≤ 4 → IsFilled k u → 2 ^ 32 ≤ u + 2 ^ 25
wide zero u h i = omega arith
wide (suc zero) u h i = omega arith
wide (suc (suc zero)) u h i = omega arith
wide (suc (suc (suc zero))) u h i = omega arith
wide (suc (suc (suc (suc zero)))) u h i = omega arith
wide (suc (suc (suc (suc (suc k))))) u h i = absurd (omega arith)

-- One round of the decoding loop on a value that has taken a byte in.
rounds :
    (b : ℕ) (data' : List ℕ) (u v : ℕ)
    → v ≡ u * 64 % 2 ^ 32 + byte_to_char6 b
    → bit_and (u * 64 % 2 ^ 32 + byte_to_char6 b) 0x3f ≡ byte_to_char6 b
    → shift_out (u * 64 % 2 ^ 32 + byte_to_char6 b) ≡ u
    → char6_to_byte (byte_to_char6 b) ≡ b
    → ((n j : ℕ) → n ≡ length data' + j → decode_bytes n u ≡ data' ++ replicate j b'.')
    → (n j : ℕ) → n ≡ suc (length data') + j
    → decode_bytes n v ≡ b ∷ (data' ++ replicate j b'.')
unfolding decode_bytes
rounds b data' u v new low high back ih zero j h = absurd (omega arith)
rounds b data' u v new low high back ih (suc n) j h =
    rw (new, decode_bytes) (rw (low, high, back) (ap (λ l. b ∷ l) (ih n j (omega arith))))

top_value : (v : ℕ) → encode_bytes [] ≡ some v → v ≡ 2 ^ 32 - 1
unfolding encode_bytes
top_value v e = cc

encode_bytes_lem :
    (data' : List ℕ) (v : ℕ)
    → All IsByte data'
    → length data' ≤ 5
    → encode_bytes data' ≡ some v
    → IsFilled (length data') v
      × ((n j : ℕ) → n ≡ length data' + j → decode_bytes n v ≡ data' ++ replicate j b'.')
encode_bytes_lem [] v bs len e =
    let e' : v ≡ 2 ^ 32 - 1 = top_value v e in
    (omega arith, λ n j h. let h' : n ≡ j = omega arith in rw (e', h') (top-decode j))
encode_bytes_lem (b ∷ data') v bs len e =
    let (u, rest, lt, back, new) = encode_round b data' v bs.0 e in
    let (filled, decoded) = encode_bytes_lem data' u bs.1 (omega arith) rest in
    let new' : v ≡ u * 64 % 2 ^ 32 + byte_to_char6 b = new ∙ shift_in_eq u _ lt in
    let filled' : IsFilled (suc (length data')) v =
      rw new' (shift_in-IsFilled (length data') u _ (omega arith) lt filled) in
    let (low, high) =
      shift_out_in u (byte_to_char6 b) lt (wide (length data') u (omega arith) filled) filled.1 in
    (filled', rounds b data' u v new' low high back decoded)

cut_dots-replicate : (j : ℕ) → cut_dots (replicate j b'.') ≡ []
unfolding cut_dots
cut_dots-replicate zero = refl
cut_dots-replicate (suc j) = rw (cut_dots-replicate j) refl

cut_dots-append :
    (b : ℕ) (data' : List ℕ) (j : ℕ)
    → ends_in_dot (b ∷ data') ≡ false
    → cut_dots (b ∷ (data' ++ replicate j b'.')) ≡ b ∷ data'
unfolding cut_dots ends_in_dot
cut_dots-append b [] j h = rw (cut_dots, cut_dots-replicate j, h) refl
cut_dots-append b (c ∷ data') j h = rw (cut_dots, cut_dots-append c data' j h) refl

-- The encoding of a string that is not empty comes out of the loop.
encode_char6_loop :
    (b : ℕ) (data' : List ℕ) (id : ℕ)
    → encode_char6 (b ∷ data') ≡ some id
    → (length (b ∷ data') ≤ 5)
      × (ends_in_dot (b ∷ data') ≡ false)
      × (encode_bytes (b ∷ data') ≡ some id)
unfolding encode_char6
encode_char6_loop b data' id = elim (Bool-cases (ltb 5 (length (b ∷ data')))) [
  | inl long ↦ rw long (λ h. cc)
  | inr fits ↦ elim (Bool-cases (ends_in_dot (b ∷ data'))) [
    | inl dot ↦ rw (fits, dot) (λ h. cc)
    | inr ok ↦ rw (fits, ok) (λ h. (ground arith, refl, h))
  ]
]

filled_bounds : (k u : ℕ) → k ≤ 5 → IsFilled k u → (2 ^ 31 ≤ u) × (u < 2 ^ 32)
filled_bounds zero u h i = omega arith
filled_bounds (suc zero) u h i = omega arith
filled_bounds (suc (suc zero)) u h i = omega arith
filled_bounds (suc (suc (suc zero))) u h i = omega arith
filled_bounds (suc (suc (suc (suc zero)))) u h i = omega arith
filled_bounds (suc (suc (suc (suc (suc zero))))) u h i = omega arith
filled_bounds (suc (suc (suc (suc (suc (suc k)))))) u h i = absurd (omega arith)

-- The encoding of a string that is not empty is a negative number, so it is never the ID of a
-- string in a table.
pub encode_char6-negative :
    (b : ℕ) (data' : List ℕ) (id : ℕ)
    → All IsByte (b ∷ data')
    → encode_char6 (b ∷ data') ≡ some id
    → (2 ^ 31 ≤ id) × (id < 2 ^ 32)
encode_char6-negative b data' id bs e =
    let (len, dot, loop) = encode_char6_loop b data' id e in
    filled_bounds (length (b ∷ data')) id len (encode_bytes_lem (b ∷ data') id bs len loop).0

pub empty_id : (id : ℕ) → encode_char6 [] ≡ some id → id ≡ 0
unfolding encode_char6
empty_id id e = cc

decode_nonzero : (id : ℕ) → 2 ^ 31 ≤ id → decode_char6 id ≡ cut_dots (decode_bytes max_inlined id)
unfolding decode_char6
decode_nonzero id h = let z : (id == 0) ≡ false = ground arith in rw z refl

-- Decoding what a string was encoded to gives the string back.
pub decode_char6-encode_char6 :
    (data' : List ℕ) (id : ℕ)
    → All IsByte data'
    → encode_char6 data' ≡ some id
    → decode_char6 id ≡ data'
decode_char6-encode_char6 [] id bs e = rw (empty_id id e) (unfold decode_char6 in refl)
decode_char6-encode_char6 (b ∷ data') id bs e =
    let (len, dot, loop) = encode_char6_loop b data' id e in
    let (filled, decoded) = encode_bytes_lem (b ∷ data') id bs len loop in
    decode_nonzero id (encode_char6-negative b data' id bs e).0
    ∙ ap cut_dots (decoded 5 (5 - length (b ∷ data')) (omega arith))
    ∙ cut_dots-append b data' (5 - length (b ∷ data')) dot
