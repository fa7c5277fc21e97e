-- ===== src/Ext/Queue/Places.antt =====
-- internal/ext/slicesx/queue.go: a push puts its elements at one end, once there is room.
use protocompile.Prelude.{
  ◌≡◌, inl, inr, ◌+◌, ◌-◌, ◌≤◌, ◌<◌, true, false, List, ◌++◌, leb, ltb, length, drop, length-drop,
  arith, Bool-cases,
}
use protocompile.Ext.Queue.{Queue, len, values, mask, copy, copied, place_back}
use protocompile.Ext.Queue.Slices.{
  get_elem?-ge, get_elem?-append, get_elem?-drop, get_elem?-copy, length-copy, get_elem?-injective,
}
use protocompile.Ext.Queue.Values.{
  IsValid, mask_small, mask_wraps, place, get_elem?-values, length-values,
}

module _ {E : Type 0} (v : List E) (r : Queue E) (ok : IsValid r)
    (room : len r + length v ≤ length r.buf - 1) where
  -- The elements end before the buffer does.
  straight : Queue E
  straight = record r { end = r.end + length v; buf = copy r.buf r.end v }

  place_back-straight : r.end + length v ≤ length r.buf - 1 → place_back v r ≡ straight
  unfolding place_back straight
  place_back-straight h =
      let e = mask_small (r.end + length v) (length r.buf) h in
      let f : ltb (r.end + length v) (r.end + length v) ≡ false = ground arith in rw (e, f)

  straight-IsValid : r.end + length v ≤ length r.buf - 1 → IsValid straight
  unfolding straight
  straight-IsValid h = record {
    start_in = omega (arith, length-copy r.buf r.end v, ok.start_in);
    end_in = omega (arith, length-copy r.buf r.end v);
  }

  values-straight : (h : r.end + length v ≤ length r.buf - 1) → values straight ≡ values r ++ v
  unfolding straight len
  values-straight h = get_elem?-injective (values straight) (values r ++ v) λ i.
      elim (Bool-cases (ltb i (len straight))) [
        | inl e ↦ ground (
          arith,
          get_elem?-values straight (straight-IsValid h) i,
          get_elem?-append (values r) v i,
          get_elem?-values r ok i,
          length-values r ok,
          length-copy r.buf r.end v,
          ok.start_in,
          ok.end_in,
          get_elem?-copy r.buf r.end v (place straight (straight-IsValid h) i),
        )
        | inr e ↦ ground (
          arith,
          get_elem?-values straight (straight-IsValid h) i,
          get_elem?-append (values r) v i,
          length-values r ok,
          length-copy r.buf r.end v,
          ok.start_in,
          ok.end_in,
          get_elem?-ge v (i - len r),
        )
      ]

  -- The elements wrap around the end of the buffer.
  around : Queue E
  around = record r {
    end = r.end + length v - length r.buf;
    buf = copy (copy r.buf r.end v) 0 (drop (length r.buf - r.end) v);
  }

  place_back-around : 0 < length r.buf → length r.buf ≤ r.end + length v → place_back v r ≡ around
  unfolding place_back around copied len
  place_back-around pos h =
      let e : mask (r.end + length v) (length r.buf) ≡ r.end + length v - length r.buf =
        mask_wraps (r.end + length v) (length r.buf) h (ground (arith, ok.start_in, ok.end_in)) in
      let f : ltb (r.end + length v - length r.buf) (r.end + length v) ≡ true = ground arith in
      let g : copied r.buf r.end v ≡ length r.buf - r.end = ground arith in rw (e, f, g)

  around-IsValid : 0 < length r.buf → length r.buf ≤ r.end + length v → IsValid around
  unfolding around len
  around-IsValid pos h = record {
    start_in = omega (
      arith,
      length-copy (copy r.buf r.end v) 0 (drop (length r.buf - r.end) v),
      length-copy r.buf r.end v,
      ok.start_in,
    );
    end_in = ground (
      arith,
      length-copy (copy r.buf r.end v) 0 (drop (length r.buf - r.end) v),
      length-copy r.buf r.end v,
      ok.start_in,
      ok.end_in,
    );
  }

  values-around :
      (pos : 0 < length r.buf) (h : length r.buf ≤ r.end + length v) → values around ≡ values r ++ v
  unfolding around len
  values-around pos h = get_elem?-injective (values around) (values r ++ v) λ i.
      elim (Bool-cases (ltb i (len around))) [
        | inl e ↦
            let k = place around (around-IsValid pos h) i in
            ground (
              arith,
              get_elem?-values around (around-IsValid pos h) i,
              get_elem?-append (values r) v i,
              get_elem?-values r ok i,
              length-values r ok,
              length-copy (copy r.buf r.end v) 0 (drop (length r.buf - r.end) v),
              length-copy r.buf r.end v,
              ok.start_in,
              ok.end_in,
              get_elem?-copy (copy r.buf r.end v) 0 (drop (length r.buf - r.end) v) k,
              get_elem?-copy r.buf r.end v k,
              length-drop (length r.buf - r.end) v,
              get_elem?-drop (length r.buf - r.end) v (k - 0),
            )
        | inr e ↦ ground (
          arith,
          get_elem?-values around (around-IsValid pos h) i,
          get_elem?-append (values r) v i,
          length-values r ok,
          length-copy (copy r.buf r.end v) 0 (drop (length r.buf - r.end) v),
          length-copy r.buf r.end v,
          ok.start_in,
          ok.end_in,
          get_elem?-ge v (i - len r),
        )
      ]

  -- Both cases.
  pub place_back_lem : IsValid (place_back v r) × (values (place_back v r) ≡ values r ++ v)
  place_back_lem = elim (Bool-cases (leb (r.end + length v) (length r.buf - 1))) [
    | inl e ↦
        let h : r.end + length v ≤ length r.buf - 1 = ground arith in
        rw (place_back-straight h) (straight-IsValid h, values-straight h)
    | inr e ↦
        let pos : 0 < length r.buf = ground (arith, ok.end_in) in
        let h : length r.buf ≤ r.end + length v = ground arith in
        rw (place_back-around pos h) (around-IsValid pos h, values-around pos h)
  ]
