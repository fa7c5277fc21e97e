-- ===== src/Ext/Queue/Ring.antt =====
-- internal/ext/slicesx/queue.go: the queue after a push, a pop or a reserve.
use protocompile.Prelude.{
  ◌≡◌, refl, sym, subst, ap, ◌∙◌, ◌⊎◌, inl, inr, ℕ, ◌+◌, ◌-◌, ◌^◌, ◌≤◌, ◌<◌, List, [], ◌++◌, ◌==◌,
  leb, length, some, replicate, if◌then◌else◌, length-set, length-replicate, arith, Bool-cases,
}
use protocompile.Ext.Queue.{
  Queue, len, cap, values, make_power_of_two, new_queue, resize, reserve, place_front, place_back,
  push_front, push_back, pop_front, pop_back,
}
use protocompile.Ext.Queue.Slices.{length-copy}
use protocompile.Ext.Queue.Values.{IsValid, length-values}
use protocompile.Ext.Queue.Places.{place_back_lem}
use protocompile.Ext.Queue.Fronts.{place_front_lem}
use protocompile.Ext.Queue.Room.{resize_lem, length-resize}
use protocompile.Ext.Queue.Powers.{
  IsPower, buffer_length_lem, make_power_of_two-le, make_power_of_two-IsPower,
}

-- The ends are in the buffer, whose length is a power of two, or 0.
pub record IsRing {E : Type 0} (r : Queue E) : Type 0 where
  pub valid : IsValid r
  pub power : (length r.buf ≡ 0) ⊎ IsPower (length r.buf)

abbrev pub PowerOr0 : ℕ → Type 0
PowerOr0 n = (n ≡ 0) ⊎ IsPower n

module _ {E : Type 0} (z : E) where
  -- The queue after `Reserve`, where the buffer can be made.
  reserved : ℕ → Queue E → Queue E
  reserved n r =
      if leb (len r + n) (cap r) then r else resize z (make_power_of_two (len r + n + 1)) r

  reserve-reserved :
      (n : ℕ) (r : Queue E) → len r + n + 1 ≤ 2 ^ 62 → reserve z n r ≡ some (reserved n r)
  unfolding reserve reserved
  reserve-reserved n r h = elim (Bool-cases (leb (len r + n) (cap r))) [
    | inl e ↦ rw e refl
    | inr e ↦ rw (e, buffer_length_lem (len r + n + 1) h) refl
  ]

  -- There is room for `n` elements more, and the elements stay.
  reserved_lem :
      (n : ℕ) (r : Queue E)
      → IsRing r
      → length (values r) + n + 1 ≤ 2 ^ 62
      → IsRing (reserved n r)
        × (values (reserved n r) ≡ values r)
        × (len (reserved n r) + n ≤ length (reserved n r).buf - 1)
  unfolding reserved cap
  reserved_lem n r ok h = elim (Bool-cases (leb (len r + n) (cap r))) [
    | inl e ↦ rw e (ok, (refl), ground (arith))
    | inr e ↦
        let size = length-values r ok.valid in
        let m = make_power_of_two (len r + n + 1) in
        let small : len r + n + 1 < 2 ^ 63 = omega (arith, size, h) in
        let long = make_power_of_two-le (len r + n + 1) small in
        let fits : len r ≤ m - 1 = omega (arith, long) in
        let same = length-resize z m r ok.valid fits in
        let (valid, kept) = resize_lem z m r ok.valid fits in
        let count : len (resize z m r) ≡ len r =
          sym (length-values (resize z m r) valid) ∙ (ap (λ (l : List E). length l) kept ∙ size) in
        rw e (
          record {
            valid = valid;
            power = inr (subst IsPower (sym same) (make_power_of_two-IsPower _ small));
          },
          kept,
          omega (arith, long, same, count),
        )
  ]

  -- `Reserve` does not panic, makes room for `n` elements more, and keeps the elements.
  pub reserve_lem :
      (n : ℕ) (r : Queue E)
      → IsRing r
      → length (values r) + n + 1 ≤ 2 ^ 62
      → (r' : Queue E) × ((reserve z n r ≡ some r')
          × (IsRing r' × ((values r' ≡ values r) × (len r' + n ≤ length r'.buf - 1))))
  reserve_lem n r ok h =
      let (ring, kept, room) = reserved_lem n r ok h in
      let count = length-values r ok.valid in
      (reserved n r, (reserve-reserved n r (omega (arith, count, h)), (ring, (kept, room))))

  length-place_back : (v : List E) (r : Queue E) → length (place_back v r).buf ≡ length r.buf
  unfolding place_back
  length-place_back v r = grind (arith, length-copy)

  length-place_front : (v : List E) (r : Queue E) → length (place_front v r).buf ≡ length r.buf
  unfolding place_front
  length-place_front v r = grind (arith, length-copy)

  pub push_back_lem :
      (v : List E) (r : Queue E)
      → IsRing r
      → length (values r) + length v + 1 ≤ 2 ^ 62
      → (r' : Queue E) × ((push_back z v r ≡ some r') × (IsRing r' × (values r' ≡ values r ++ v)))
  unfolding push_back
  push_back_lem v r ok h =
      let (q, (made, (ring, (kept, room)))) = reserve_lem (length v) r ok h in
      let (valid, result) = place_back_lem v q ring.valid room in
      (
        place_back v q,
        (
          rw (push_back, made) refl,
          (
            record {
              valid = valid;
              power = subst PowerOr0 (sym (length-place_back v q)) ring.power;
            },
            result ∙ ap (λ (l : List E). l ++ v) kept,
          ),
        ),
      )

  pub push_front_lem :
      (v : List E) (r : Queue E)
      → IsRing r
      → length (values r) + length v + 1 ≤ 2 ^ 62
      → (r' : Queue E) × ((push_front z v r ≡ some r') × (IsRing r' × (values r' ≡ v ++ values r)))
  unfolding push_front
  push_front_lem v r ok h =
      let (q, (made, (ring, (kept, room)))) = reserve_lem (length v) r ok h in
      let (valid, result) = place_front_lem v q ring.valid room in
      (
        place_front v q,
        (
          rw (push_front, made) refl,
          (
            record {
              valid = valid;
              power = subst PowerOr0 (sym (length-place_front v q)) ring.power;
            },
            result ∙ ap (λ (l : List E). v ++ l) kept,
          ),
        ),
      )

  pub length-pop_front : (r : Queue E) → length (pop_front z r).1.buf ≡ length r.buf
  unfolding pop_front
  length-pop_front r = grind (arith, length-set)

  pub length-pop_back : (r : Queue E) → length (pop_back z r).1.buf ≡ length r.buf
  unfolding pop_back
  length-pop_back r = grind (arith, length-set)

  -- The new queue, where its buffer can be made.
  fresh : ℕ → Queue E
  fresh n =
      if n == 0
      then record { buf = []; start = 0; end = 0 }
      else record { buf = replicate (make_power_of_two (n + 1)) z; start = 0; end = 0 }

  fresh-IsRing : (n : ℕ) → n + 1 ≤ 2 ^ 62 → IsRing (fresh n) × (values (fresh n) ≡ [])
  unfolding fresh values
  fresh-IsRing n h = elim (Bool-cases (n == 0)) [
    | inl e ↦ rw e (
      record { valid = record { start_in = omega arith; end_in = omega arith }; power = inl refl },
      refl,
    )
    | inr e ↦ rw e (
      record {
        valid = record { start_in = omega arith; end_in = omega arith };
        power = inr (
            subst IsPower (sym (length-replicate (make_power_of_two (n + 1)) z))
              (make_power_of_two-IsPower (n + 1) (omega (arith, h))));
      },
      refl,
    )
  ]

  -- `NewQueue` does not panic, and returns a queue without elements.
  pub new_queue_lem :
      (n : ℕ)
      → n + 1 ≤ 2 ^ 62
      → (q : Queue E) × ((new_queue z n ≡ some q) × (IsRing q × (values q ≡ [])))
  unfolding new_queue fresh
  new_queue_lem n h = (
    fresh n,
    (
      elim (Bool-cases (n == 0)) [
        | inl e ↦ rw e refl
        | inr e ↦ rw (e, buffer_length_lem (n + 1) h) refl
      ],
      fresh-IsRing n h,
    ),
  )
