-- ===== src/Ext/Queue/Room.antt =====
-- internal/ext/slicesx/queue.go: a queue is given another buffer with room for more.
use protocompile.Prelude.{
  ◌≡◌, inl, inr, ℕ, ◌+◌, ◌-◌, ◌≤◌, ◌<◌, true, false, ltb, length, take, drop, length-drop,
  length-take, arith, Bool-cases, replicate, length-replicate,
}
use protocompile.Ext.Queue.{Queue, len, values, copy, copied, resize}
use protocompile.Ext.Queue.Slices.{
  get_elem?-drop, get_elem?-take, get_elem?-copy, length-copy, get_elem?-injective,
}
use protocompile.Ext.Queue.Values.{IsValid, place, get_elem?-values}

module _ {E : Type 0} (z : E) where
  -- The elements moved to the start of a buffer of `m` slots, in one piece and in two.
  moved : ℕ → Queue E → Queue E
  moved m r = record {
    buf = copy (replicate m z) 0 (take (r.end - r.start) (drop r.start r.buf));
    start = 0;
    end = r.end - r.start;
  }

  joined : ℕ → Queue E → Queue E
  joined m r = record {
    buf =
        copy (copy (replicate m z) 0 (drop r.start r.buf)) (length r.buf - r.start)
          (take r.end r.buf);
    start = 0;
    end = length r.buf - r.start + r.end;
  }

  module _ (m : ℕ) (r : Queue E) (ok : IsValid r) (fits : len r ≤ m - 1) where
    resize-moved : r.start ≤ r.end → resize z m r ≡ moved m r
    unfolding resize moved copied len
    resize-moved h =
        let f : ltb r.end r.start ≡ false = ground arith in
        let g : copied (replicate m z) 0 (take (r.end - r.start) (drop r.start r.buf))
            ≡ r.end - r.start =
          ground (
            arith,
            length-replicate m z,
            length-take (r.end - r.start) (drop r.start r.buf),
            length-drop r.start r.buf,
            ok.end_in,
            ok.start_in,
          ) in
        rw (f, g)

    moved-IsValid : r.start ≤ r.end → IsValid (moved m r)
    unfolding moved len
    moved-IsValid h = record {
      start_in = omega arith;
      end_in = ground (
        arith,
        length-copy (replicate m z) 0 (take (r.end - r.start) (drop r.start r.buf)),
        length-replicate m z,
      );
    }

    values-moved : (h : r.start ≤ r.end) → values (moved m r) ≡ values r
    unfolding moved len
    values-moved h = get_elem?-injective (values (moved m r)) (values r) λ i.
        let k = place (moved m r) (moved-IsValid h) i in
        ground (
          arith,
          get_elem?-values (moved m r) (moved-IsValid h) i,
          get_elem?-values r ok i,
          length-copy (replicate m z) 0 (take (r.end - r.start) (drop r.start r.buf)),
          length-replicate m z,
          ok.start_in,
          ok.end_in,
          get_elem?-copy (replicate m z) 0 (take (r.end - r.start) (drop r.start r.buf)) k,
          length-take (r.end - r.start) (drop r.start r.buf),
          length-drop r.start r.buf,
          get_elem?-take (r.end - r.start) (drop r.start r.buf) (k - 0),
          get_elem?-drop r.start r.buf (k - 0),
        )

    resize-joined : r.end < r.start → resize z m r ≡ joined m r
    unfolding resize joined copied len
    resize-joined h =
        let f : ltb r.end r.start ≡ true = ground arith in
        let g : copied (replicate m z) 0 (drop r.start r.buf) ≡ length r.buf - r.start =
          ground (arith, length-replicate m z, length-drop r.start r.buf, ok.start_in) in
        let k : copied (copy (replicate m z) 0 (drop r.start r.buf)) (length r.buf - r.start)
              (take r.end r.buf)
            ≡ r.end =
          ground (
            arith,
            length-replicate m z,
            length-copy (replicate m z) 0 (drop r.start r.buf),
            length-take r.end r.buf,
            ok.start_in,
            ok.end_in,
          ) in
        rw (f, g, k)

    joined-IsValid : r.end < r.start → IsValid (joined m r)
    unfolding joined len
    joined-IsValid h = record {
      start_in = omega arith;
      end_in = ground (
        arith,
        length-copy (copy (replicate m z) 0 (drop r.start r.buf)) (length r.buf - r.start)
            (take r.end r.buf),
        length-copy (replicate m z) 0 (drop r.start r.buf),
        length-replicate m z,
      );
    }

    values-joined : (h : r.end < r.start) → values (joined m r) ≡ values r
    unfolding joined len
    values-joined h = get_elem?-injective (values (joined m r)) (values r) λ i.
        let k = place (joined m r) (joined-IsValid h) i in
        ground (
          arith,
          get_elem?-values (joined m r) (joined-IsValid h) i,
          get_elem?-values r ok i,
          length-copy (copy (replicate m z) 0 (drop r.start r.buf)) (length r.buf - r.start)
              (take r.end r.buf),
          length-copy (replicate m z) 0 (drop r.start r.buf),
          length-replicate m z,
          ok.start_in,
          ok.end_in,
          get_elem?-copy (copy (replicate m z) 0 (drop r.start r.buf)) (length r.buf - r.start)
              (take r.end r.buf) k,
          get_elem?-copy (replicate m z) 0 (drop r.start r.buf) k,
          length-drop r.start r.buf,
          length-take r.end r.buf,
          get_elem?-drop r.start r.buf (k - 0),
          get_elem?-take r.end r.buf (k - (length r.buf - r.start)),
        )

    pub length-resize : length (resize z m r).buf ≡ m
    unfolding joined moved
    length-resize = elim (Bool-cases (ltb r.end r.start)) [
      | inl e ↦ rw (resize-joined (ground arith)) length_joined
      | inr e ↦ rw (resize-moved (ground arith)) length_moved
    ]
      where
        length_joined : length (joined m r).buf ≡ m
        length_joined = omega (
          arith,
          length-copy (copy (replicate m z) 0 (drop r.start r.buf)) (length r.buf - r.start)
              (take r.end r.buf),
          length-copy (replicate m z) 0 (drop r.start r.buf),
          length-replicate m z,
        )

        length_moved : length (moved m r).buf ≡ m
        length_moved = omega (
          arith,
          length-copy (replicate m z) 0 (take (r.end - r.start) (drop r.start r.buf)),
          length-replicate m z,
        )

    -- The elements stay.
    pub resize_lem : IsValid (resize z m r) × (values (resize z m r) ≡ values r)
    resize_lem = elim (Bool-cases (ltb r.end r.start)) [
      | inl e ↦
          let h : r.end < r.start = ground arith in
          rw (resize-joined h) (joined-IsValid h, values-joined h)
      | inr e ↦
          let h : r.start ≤ r.end = ground arith in
          rw (resize-moved h) (moved-IsValid h, values-moved h)
    ]
