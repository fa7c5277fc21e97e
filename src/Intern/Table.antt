-- ===== src/Intern/Table.antt =====
-- internal/intern/intern.go and the log of internal/ext/syncx/log.go, used by one goroutine:
-- the loops that wait for other goroutines end at once, but for the one on a capacity that has
-- wrapped. The statistics are left out.
pub mod Laws
pub mod Steps
pub mod Total
mod Runs
use protocompile.Prelude.{
  ℕ, zero, suc, ◌+◌, ◌-◌, ◌%◌, ◌^◌, Bool, true, false, ◌&&◌, ◌||◌, Option, none, some, List, [],
  ◌∷◌, ◌++◌, ◌==◌, leb, ltb, if◌then◌else◌, length, get_elem?,
}
use protocompile.Intern.Char6.{encode_char6, decode_char6}

-- A string, as its bytes.
abbrev pub Bytes : Type 0
Bytes = List ℕ

unfoldable pub same : Bytes → Bytes → Bool
same [] [] = true
same [] (b ∷ t) = false
same (a ∷ s) [] = false
same (a ∷ s) (b ∷ t) = a == b && same s t

-- What a call of `Append` does: `ErrLogExhausted`, or the index, the values and the capacity after
-- it; `spins` if it never returns.
pub data Appended : Type 0 where
  exhausted : Appended
  spins : Appended
  appended_at : ℕ → List Bytes → ℕ → Appended

-- `Append` of the log: `next` counts the values, and is an int32 that must not overflow. `grow` gives
-- the capacity of the slice that Go's `append` makes of a full slice of a length. The capacity is
-- stored as an int32, here its bit pattern: one from `2 ^ 31` on is negative, and the loop that waits
-- for the capacity does not end.
unfoldable pub append_log : (ℕ → ℕ) → ℕ → List Bytes → Bytes → Appended
append_log grow cap log v =
    let i = length log in
    if ltb (i + 1) (2 ^ 31)
    then if leb (2 ^ 31) cap || ltb cap i
      then spins
      else if ltb i cap
      then appended_at i (log ++ (v ∷ [])) cap
      else appended_at i (log ++ (v ∷ [])) (grow cap % 2 ^ 32)
    else exhausted

-- `Table`. The index maps a string to its ID, or to nil (`none`) once the log was exhausted for it.
-- `cap` is the capacity of the log.
pub record Table : Type 0 where
  pub index : List (Bytes × Option ℕ)
  pub log : List Bytes
  pub cap : ℕ

abbrev pub empty_table : Table
empty_table = record { index = []; log = []; cap = 0 }

unfoldable pub load : List (Bytes × Option ℕ) → Bytes → Option (Option ℕ)
unfolding same
load [] s = none
load ((t, p) ∷ rest) s = if same t s then some p else load rest s

-- What `Query` makes of the index's answer.
unfoldable pub loaded_id : Option (Option ℕ) → Option ℕ
loaded_id none = none
loaded_id (some none) = none
loaded_id (some (some id)) = if id == 0 then none else some id

-- `Query`
unfoldable pub query : Table → Bytes → Option ℕ
unfolding load loaded_id
query t s = elim (encode_char6 s) [ some id ↦ some id | none ↦ loaded_id (load t.index s) ]

-- The end of `internSlow`, for a string that is not in the index. The result is `none` for the panic,
-- and for a call that never returns.
unfoldable pub insert_new : (ℕ → ℕ) → Table → Bytes → Option ℕ × Table
unfolding append_log
insert_new grow t s = elim (append_log grow t.cap t.log s) [
  | exhausted ↦ (none, record t { index = (s, none) ∷ t.index })
  | spins ↦ (none, t)
  | appended_at i log' cap' ↦
      (some (i + 1), record { index = (s, some (i + 1)) ∷ t.index; log = log'; cap = cap' })
]

-- `internSlow`
unfoldable pub intern_slow : (ℕ → ℕ) → Table → Bytes → Option ℕ × Table
unfolding load insert_new
intern_slow grow t s = elim (load t.index s) [
  | some none ↦ (none, t)
  | some (some id) ↦ (some id, t)
  | none ↦ insert_new grow t s
]

-- `Intern`
unfoldable pub intern : (ℕ → ℕ) → Table → Bytes → Option ℕ × Table
unfolding query intern_slow
intern grow t s = elim (query t s) [ some id ↦ (some id, t) | none ↦ intern_slow grow t s ]

-- `Value`; the test `id <= 0` on the bit pattern of an int32. `none` is the log's panic.
unfoldable pub value : Table → ℕ → Option Bytes
value t id = if id == 0 || leb (2 ^ 31) id then some (decode_char6 id) else get_elem? t.log (id - 1)
