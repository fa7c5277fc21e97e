-- ===== src/Intern/Table/Runs.antt =====
-- Runs of the interning table.
use protocompile.Prelude.{ℕ, ◌*◌, ◌+◌, ◌%◌, ◌^◌, ◌≡◌, refl, arith, All, some, [], ◌∷◌}
use protocompile.Intern.Table.{
  Bytes, Table, empty_table, intern, value, load, loaded_id, query, intern_slow, insert_new,
  append_log, spins,
}
use protocompile.Intern.Char6.{encode_char6}
use protocompile.Intern.Char6.RoundTrip.{IsByte}
use protocompile.Intern.Table.Steps.{IsValid}
use protocompile.Intern.Table.Laws.{
  intern-IsValid, value-intern, intern-keeps_value, intern-again, intern-injective,
}
use protocompile.Intern.Table.Total.{intern_total, HasRoom, IsCovered}

-- `.proto3` and `descriptor.proto`, cut short; both are too long to be inlined.
abbrev first_name : Bytes
first_name = b'p' ∷ b'r' ∷ b'o' ∷ b't' ∷ b'o' ∷ b'3' ∷ []

abbrev second_name : Bytes
second_name = b'o' ∷ b'n' ∷ b'e' ∷ b'o' ∷ b'f' ∷ b's' ∷ []

first_name-bytes : All IsByte first_name
first_name-bytes =
    (omega arith, (omega arith, (omega arith, (omega arith, (omega arith, (omega arith, tt))))))

empty_table-IsValid : IsValid empty_table
empty_table-IsValid = record { stands = tt; fits = omega arith }

-- A growth of slices.
abbrev doubled : ℕ → ℕ
doubled n = 2 * n + 2

abbrev one_name : Table
one_name = record { index = (first_name, some 1) ∷ []; log = first_name ∷ []; cap = 2 }

one_name_value : (intern doubled empty_table first_name).0 ≡ some 1
unfolding intern query intern_slow insert_new append_log load loaded_id encode_char6
one_name_value = refl

one_name_again : (intern doubled (intern doubled empty_table first_name).1 first_name).0 ≡ some 1
unfolding intern query intern_slow insert_new append_log load loaded_id encode_char6
one_name_again = refl

intern-IsValid_example : IsValid (intern doubled empty_table first_name).1
intern-IsValid_example = intern-IsValid doubled empty_table first_name empty_table-IsValid

value-intern_example : value (intern doubled empty_table first_name).1 1 ≡ some first_name
value-intern_example =
    value-intern doubled empty_table first_name 1 empty_table-IsValid first_name-bytes
      one_name_value

intern-keeps_value_example : value (intern doubled one_name second_name).1 1 ≡ some first_name
intern-keeps_value_example =
    intern-keeps_value doubled one_name second_name first_name 1 (unfold value in refl)

intern-again_example :
    (intern doubled (intern doubled empty_table first_name).1 first_name).0 ≡ some 1
intern-again_example = intern-again doubled empty_table first_name 1 one_name_value

intern-injective_example : first_name ≡ first_name
intern-injective_example =
    intern-injective doubled empty_table first_name first_name 1 empty_table-IsValid
      first_name-bytes first_name-bytes one_name_value one_name_again

one_name-HasRoom : HasRoom one_name
one_name-HasRoom = record { counter = omega arith; covered = omega arith; capacity = omega arith }

intern_total_example :
    ((id : ℕ) × ((intern doubled one_name second_name).0 ≡ some id))
    × IsCovered (intern doubled one_name second_name).1
intern_total_example =
    intern_total doubled one_name second_name one_name-HasRoom (omega arith) (omega arith)
      (unfold load in λ e. cc)

-- A capacity that grows past the greatest int32 is stored as a negative number, and an append after
-- that does not return.
wrapped_log-spins :
    append_log doubled (doubled (2 ^ 30) % 2 ^ 32) (first_name ∷ []) second_name ≡ spins
unfolding append_log
wrapped_log-spins = refl
