-- ===== src/Intern/Char6.antt =====
-- internal/intern/char6.go: strings of at most five characters inside an `ID`. An `ID` is an int32,
-- here its bit pattern, a number below 2 ^ 32. A string is the list of its bytes.
pub mod Bits
pub mod RoundTrip
mod Runs
use Prim.Native.Nat.{bit_and, bit_or}
use Prim.Native.Char.{code}
use protocompile.Prelude.{
  ℕ, zero, suc, ◌+◌, ◌-◌, ◌*◌, ◌/◌, ◌%◌, ◌^◌, String, Bool, true, false, ◌||◌, ◌&&◌, Option, none,
  some, List, [], ◌∷◌, ◌++◌, ◌==◌, leb, ltb, if◌then◌else◌, length, get_elem?,
}

-- `maxInlined`, which is 32 / 6.
abbrev pub max_inlined : ℕ
max_inlined = 5

abbrev codes : String → List ℕ
codes String.[] = []
codes (String.◌∷◌ c s) = code c ∷ codes s

-- `char6ToByte`
abbrev pub alphabet : List ℕ
alphabet = codes "0123456789abcdefghijklmnopqrstuvwxyzABCDEFGHIJKLMNOPQRSTUVWXYZ_."

-- `char6ToByte[sextet]`; the index is below 64.
unfoldable pub char6_to_byte : ℕ → ℕ
char6_to_byte sextet = elim (get_elem? alphabet sextet) [ none ↦ 0 | some b ↦ b ]

-- The last index that the loop over `char6ToByte` writes for the byte, counting from `i`.
unfoldable pub index_of : List ℕ → ℕ → ℕ → ℕ
index_of [] i b = 0xff
index_of (x ∷ xs) i b =
    let later = index_of xs (suc i) b in if later == 0xff && x == b then i else later

-- `byteToChar6[b]`
unfoldable pub byte_to_char6 : ℕ → ℕ
unfolding index_of
byte_to_char6 b = index_of alphabet 0 b

-- `value <<= 6; value |= ID(sextet)`
abbrev pub shift_in : ℕ → ℕ → ℕ
shift_in value sextet = bit_or (value * 2 ^ 6 % 2 ^ 32) sextet

-- The loop of `encodeOutlined`, which runs from the last byte to the first.
unfoldable pub encode_bytes : List ℕ → Option ℕ
encode_bytes [] = some (2 ^ 32 - 1)
encode_bytes (b ∷ data') = elim (encode_bytes data') [
  | none ↦ none
  | some value ↦ if byte_to_char6 b == 0xff then none else some (shift_in value (byte_to_char6 b))
]

-- `strings.HasSuffix(data, ".")`
unfoldable pub ends_in_dot : List ℕ → Bool
ends_in_dot [] = false
ends_in_dot (b ∷ []) = b == b'.'
ends_in_dot (b ∷ c ∷ rest) = ends_in_dot (c ∷ rest)

-- `encodeChar6`
unfoldable pub encode_char6 : List ℕ → Option ℕ
unfolding encode_bytes ends_in_dot
encode_char6 [] = some 0
encode_char6 (b ∷ data') =
    if ltb max_inlined (length (b ∷ data')) || ends_in_dot (b ∷ data')
    then none
    else encode_bytes (b ∷ data')

-- `id >>= 6` on a signed number: the sign bit is copied.
unfoldable pub shift_out : ℕ → ℕ
shift_out id = if leb (2 ^ 31) id then id / 2 ^ 6 + 63 * 2 ^ 26 else id / 2 ^ 6

-- The bytes that the loop of `decodeChar6` writes to `buf`.
unfoldable pub decode_bytes : ℕ → ℕ → List ℕ
unfolding char6_to_byte shift_out
decode_bytes zero id = []
decode_bytes (suc n) id = char6_to_byte (bit_and id 0x3f) ∷ decode_bytes n (shift_out id)

-- `buf[:n]` for the `n` of the last loop: a maximal suffix of dots is cut.
unfoldable pub cut_dots : List ℕ → List ℕ
cut_dots [] = []
cut_dots (b ∷ rest) = elim (cut_dots rest) [
  | [] ↦ if b == b'.' then [] else b ∷ []
  | c ∷ cs ↦ b ∷ c ∷ cs
]

-- `decodeChar6`
unfoldable pub decode_char6 : ℕ → List ℕ
unfolding decode_bytes cut_dots
decode_char6 id = if id == 0 then [] else cut_dots (decode_bytes max_inlined id)
