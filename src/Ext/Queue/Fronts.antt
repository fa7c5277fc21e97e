-- ===== src/Ext/Queue/Fronts.antt =====
-- internal/ext/slicesx/queue.go: a push puts its elements at the front, once there is room.
use protocompile.Prelude.{
  ◌≡◌, inl, inr, ℕ, ◌+◌, ◌-◌, ◌≤◌, ◌<◌, true, false, List, ◌++◌, ◌==◌, ltb, length, get_elem?, drop,
  length-drop, arith, Bool-cases,
}
use protocompile.Ext.Queue.{Queue, len, values, mask, copy, copied, place_front}
use protocompile.Ext.Queue.Slices.{
  get_elem?-append, get_elem?-drop, get_elem?-copy, length-copy, get_elem?-injective,
}
use protocompile.Ext.Queue.Values.{IsValid, mask_small, mask_wraps, place, get_elem?-values}

module _ {E : Type 0} (v : List E) (r : Queue E) (ok : IsValid r)
    (room : len r + length v ≤ length r.buf - 1) where
  -- The elements fit below the start.
  below : Queue E
  below = record r { start = r.start - length v; buf = copy r.buf (r.start - length v) v }

  mask_below :
      length v ≤ r.start
      → mask (r.start + length r.buf - length v) (length r.buf) ≡ r.start - length v
  unfolding len
  mask_below h = elim (Bool-cases (length r.buf == 0)) [
    | inl e ↦
        let x : r.start + length r.buf - length v ≡ r.start - length v = ground (arith) in
        rw x (mask_small (r.start - length v) (length r.buf) (ground (arith, ok.start_in)))
    | inr e ↦
        let k =
          mask_wraps (r.start + length r.buf - length v) (length r.buf) (omega arith)
            (ground (arith, ok.start_in)) in
        omega (arith, k)
  ]

  place_front-below : length v ≤ r.start → place_front v r ≡ below
  unfolding place_front below
  place_front-below h =
      let f : ltb r.start (length v) ≡ false = ground arith in rw (mask_below h, f)

  below-IsValid : length v ≤ r.start → IsValid below
  unfolding below
  below-IsValid h = record {
    start_in = omega (arith, length-copy r.buf (r.start - length v) v, ok.start_in);
    end_in = omega (arith, length-copy r.buf (r.start - length v) v, ok.end_in);
  }

  -- The element at a place among the new ones, among the old ones, and beyond.
  below_new :
      (h : length v ≤ r.start) (i : ℕ)
      → ltb i (length v) ≡ true
      → get_elem? (values below) i ≡ get_elem? (v ++ values r) i
  unfolding below len
  below_new h i f =
      let k = place below (below-IsValid h) i in
      ground (
        arith,
        get_elem?-values below (below-IsValid h) i,
        get_elem?-append v (values r) i,
        ok.start_in,
        ok.end_in,
        length-copy r.buf (r.start - length v) v,
        get_elem?-copy r.buf (r.start - length v) v k,
      )

  below_old :
      (h : length v ≤ r.start) (i : ℕ)
      → ltb i (length v) ≡ false
      → ltb (i - length v) (len r) ≡ true
      → get_elem? (values below) i ≡ get_elem? (v ++ values r) i
  unfolding below len
  below_old h i f g =
      let k = place below (below-IsValid h) i in
      ground (
        arith,
        get_elem?-values below (below-IsValid h) i,
        get_elem?-append v (values r) i,
        get_elem?-values r ok (i - length v),
        ok.start_in,
        ok.end_in,
        length-copy r.buf (r.start - length v) v,
        get_elem?-copy r.buf (r.start - length v) v k,
      )

  below_beyond :
      (h : length v ≤ r.start) (i : ℕ)
      → ltb i (length v) ≡ false
      → ltb (i - length v) (len r) ≡ false
      → get_elem? (values below) i ≡ get_elem? (v ++ values r) i
  unfolding below len
  below_beyond h i f g = ground (
    arith,
    get_elem?-values below (below-IsValid h) i,
    get_elem?-append v (values r) i,
    get_elem?-values r ok (i - length v),
    ok.start_in,
    ok.end_in,
    length-copy r.buf (r.start - length v) v,
  )

  values-below : length v ≤ r.start → values below ≡ v ++ values r
  values-below h = get_elem?-injective (values below) (v ++ values r) λ i.
      elim (Bool-cases (ltb i (length v))) [
        | inl f ↦ below_new h i f
        | inr f ↦ elim (Bool-cases (ltb (i - length v) (len r))) [
          | inl g ↦ below_old h i f g
          | inr g ↦ below_beyond h i f g
        ]
      ]

  -- The elements start before the end of the buffer, and go on at its beginning.
  top : ℕ
  top = r.start + length r.buf - length v

  over : Queue E
  unfolding top
  over = record r { start = top; buf = copy (copy r.buf top v) 0 (drop (length r.buf - top) v) }

  place_front-over : r.start < length v → place_front v r ≡ over
  unfolding place_front over top copied
  place_front-over h =
      let x : mask (r.start + length r.buf - length v) (length r.buf)
          ≡ r.start + length r.buf - length v =
        mask_small (r.start + length r.buf - length v) (length r.buf) (omega (arith, room)) in
      let f : ltb r.start (length v) ≡ true = ground arith in
      let g : copied r.buf (r.start + length r.buf - length v) v
          ≡ length r.buf - (r.start + length r.buf - length v) =
        ground arith in
      rw (x, f, g)

  over-IsValid : r.start < length v → IsValid over
  unfolding over top
  over-IsValid h = record {
    start_in = omega (
      arith,
      room,
      length-copy (copy r.buf top v) 0 (drop (length r.buf - top) v),
      length-copy r.buf top v,
      ok.start_in,
    );
    end_in = omega (
      arith,
      length-copy (copy r.buf top v) 0 (drop (length r.buf - top) v),
      length-copy r.buf top v,
      ok.end_in,
    );
  }

  -- The element at a place among the new ones, among the old ones, and beyond.
  over_new :
      (h : r.start < length v) (i : ℕ)
      → ltb i (length v) ≡ true
      → get_elem? (values over) i ≡ get_elem? (v ++ values r) i
  unfolding over top len
  over_new h i f =
      let k = place over (over-IsValid h) i in
      ground (
        arith,
        get_elem?-values over (over-IsValid h) i,
        get_elem?-append v (values r) i,
        ok.start_in,
        ok.end_in,
        length-copy (copy r.buf top v) 0 (drop (length r.buf - top) v),
        length-copy r.buf top v,
        get_elem?-copy (copy r.buf top v) 0 (drop (length r.buf - top) v) k,
        get_elem?-copy r.buf top v k,
        length-drop (length r.buf - top) v,
        get_elem?-drop (length r.buf - top) v (k - 0),
      )

  over_old :
      (h : r.start < length v) (i : ℕ)
      → ltb i (length v) ≡ false
      → ltb (i - length v) (len r) ≡ true
      → get_elem? (values over) i ≡ get_elem? (v ++ values r) i
  unfolding over top len
  over_old h i f g =
      let k = place over (over-IsValid h) i in
      ground (
        arith,
        get_elem?-values over (over-IsValid h) i,
        get_elem?-append v (values r) i,
        get_elem?-values r ok (i - length v),
        ok.start_in,
        ok.end_in,
        length-copy (copy r.buf top v) 0 (drop (length r.buf - top) v),
        length-copy r.buf top v,
        get_elem?-copy (copy r.buf top v) 0 (drop (length r.buf - top) v) k,
        get_elem?-copy r.buf top v k,
        length-drop (length r.buf - top) v,
        get_elem?-drop (length r.buf - top) v (k - 0),
      )

  over_beyond :
      (h : r.start < length v) (i : ℕ)
      → ltb i (length v) ≡ false
      → ltb (i - length v) (len r) ≡ false
      → get_elem? (values over) i ≡ get_elem? (v ++ values r) i
  unfolding over top len
  over_beyond h i f g = ground (
    arith,
    get_elem?-values over (over-IsValid h) i,
    get_elem?-append v (values r) i,
    get_elem?-values r ok (i - length v),
    ok.start_in,
    ok.end_in,
    length-copy (copy r.buf top v) 0 (drop (length r.buf - top) v),
    length-copy r.buf top v,
  )

  values-over : r.start < length v → values over ≡ v ++ values r
  values-over h = get_elem?-injective (values over) (v ++ values r) λ i.
      elim (Bool-cases (ltb i (length v))) [
        | inl f ↦ over_new h i f
        | inr f ↦ elim (Bool-cases (ltb (i - length v) (len r))) [
          | inl g ↦ over_old h i f g
          | inr g ↦ over_beyond h i f g
        ]
      ]

  -- Both cases.
  pub place_front_lem : IsValid (place_front v r) × (values (place_front v r) ≡ v ++ values r)
  place_front_lem = elim (Bool-cases (ltb r.start (length v))) [
    | inl e ↦
        let h : r.start < length v = ground arith in
        rw (place_front-over h) (over-IsValid h, values-over h)
    | inr e ↦
        let h : length v ≤ r.start = ground arith in
        rw (place_front-below h) (below-IsValid h, values-below h)
  ]
