-- ===== src/Intern/Char6/Runs.antt =====
-- Runs of the six-bit code.
use protocompile.Prelude.{ℕ, ◌≡◌, refl, arith, All, List, [], ◌∷◌, some}
use protocompile.Intern.Char6.{encode_char6, decode_char6, encode_bytes, ends_in_dot}
use protocompile.Intern.Char6.{byte_to_char6, index_of}
use protocompile.Intern.Char6.RoundTrip.{IsByte, decode_char6-encode_char6}

-- `int32`
abbrev type_name : List ℕ
type_name = b'i' ∷ b'n' ∷ b't' ∷ b'3' ∷ b'2' ∷ []

type_name-bytes : All IsByte type_name
type_name-bytes = (omega arith, (omega arith, (omega arith, (omega arith, (omega arith, tt)))))

type_name-encoded : encode_char6 type_name ≡ some 3255686610
unfolding encode_char6 encode_bytes ends_in_dot byte_to_char6 index_of
type_name-encoded = refl

decode_char6-encode_char6_example : decode_char6 3255686610 ≡ type_name
decode_char6-encode_char6_example =
    decode_char6-encode_char6 type_name 3255686610 type_name-bytes type_name-encoded
