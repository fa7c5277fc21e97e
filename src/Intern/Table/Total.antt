-- ===== src/Intern/Table/Total.antt =====
-- internal/intern/intern.go: as long as the log's capacity is an int32, `Intern` returns.
use protocompile.Prelude.{
  ℕ, ◌+◌, ◌^◌, ◌<◌, ◌≤◌, ◌≡◌, ◌≢◌, refl, Option, some, none, [], ◌∷◌, arith, length, length-append,
  inl, inr,
}
use protocompile.Intern.Table.{Bytes, Table, load, intern}
use protocompile.Intern.Table.Steps.{
  Interned, inlined, found, was_full, is_full, stuck, appended, intern-Interned,
}

-- The counter has room for one more value, and the capacity is an int32 that covers the log.
pub record HasRoom (t : Table) : Type 0 where
  pub counter : length t.log + 1 < 2 ^ 31
  pub covered : length t.log ≤ t.cap
  pub capacity : t.cap < 2 ^ 31

-- The capacity is an int32 that covers the log.
abbrev pub IsCovered : Table → Type 0
IsCovered t = (length t.log ≤ t.cap) × (t.cap < 2 ^ 31)

Interned-total :
    (grow : ℕ → ℕ) (t : Table) (s : Bytes) (r : Option ℕ) (u : Table)
    → Interned grow t s r u
    → HasRoom t
    → t.cap < grow t.cap
    → grow t.cap < 2 ^ 31
    → load t.index s ≢ some none
    → ((id : ℕ) × (r ≡ some id)) × IsCovered u
Interned-total grow t s r u (inlined {id} e) room up fits n =
    ((id, refl), (room.covered, room.capacity))
Interned-total grow t s r u (found {id} e) room up fits n =
    ((id, refl), (room.covered, room.capacity))
Interned-total grow t s r u (was_full e) room up fits n = absurd (n e)
Interned-total grow t s r u (is_full e) room up fits n = absurd (ground (arith, room.counter))
Interned-total grow t s r u (stuck e) room up fits n =
    absurd (ground (arith, room.covered, room.capacity))
Interned-total grow t s r u (appended (inl g) e) room up fits n =
    let len = length-append t.log (s ∷ []) in
    ((length t.log + 1, refl), (omega (arith, len, g.0, g.1), omega (arith, g.1, room.capacity)))
Interned-total grow t s r u (appended (inr g) e) room up fits n =
    let len = length-append t.log (s ∷ []) in
    (
      (length t.log + 1, refl),
      (omega (arith, len, g, up, fits, room.covered), omega (arith, g, fits)),
    )

-- While the counter has room, the capacity is an int32 that covers the log, and the capacity that it
-- would grow to is greater and an int32 too, `Intern` returns an ID for every string that was not
-- refused before, and the capacity again is an int32 that covers the log.
pub intern_total :
    (grow : ℕ → ℕ) (t : Table) (s : Bytes)
    → HasRoom t
    → t.cap < grow t.cap
    → grow t.cap < 2 ^ 31
    → load t.index s ≢ some none
    → ((id : ℕ) × ((intern grow t s).0 ≡ some id)) × IsCovered (intern grow t s).1
intern_total grow t s room up fits n =
    Interned-total grow t s (intern grow t s).0 (intern grow t s).1 (intern-Interned grow t s) room
      up fits n
