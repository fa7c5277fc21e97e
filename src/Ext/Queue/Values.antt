-- ===== src/Ext/Queue/Values.antt =====
-- internal/ext/slicesx/queue.go: where the elements of a queue stand in its buffer.
use protocompile.Prelude.{
  ◌≡◌, inl, inr, ℕ, ◌+◌, ◌-◌, ◌≤◌, ◌<◌, none, leb, ltb, if◌then◌else◌, length, get_elem?, take,
  drop, length-drop, length-take, length-append, arith, Bool-cases,
}
use native.Mathlib.Nat.{mod-eq_of_lt}
use protocompile.Ext.Queue.{Queue, len, values, mask}
use protocompile.Ext.Queue.Slices.{get_elem?-append, get_elem?-take, get_elem?-drop}

-- Both ends are positions in the buffer, or 0 for an empty one.
pub record IsValid {E : Type 0} (r : Queue E) : Type 0 where
  pub start_in : r.start ≤ length r.buf - 1
  pub end_in : r.end ≤ length r.buf - 1

pub mask_small : (x n : ℕ) → x ≤ n - 1 → mask x n ≡ x
unfolding mask
mask_small x n h = grind (arith, mod-eq_of_lt)

pub mask_wraps : (x n : ℕ) → n ≤ x → x < n + n → mask x n ≡ x - n
unfolding mask
mask_wraps x n h k = grind arith

module _ {E : Type 0} (r : Queue E) (v : IsValid r) where
  -- The position of an element, counted from the front.
  abbrev pub place : ℕ → ℕ
  place i = if ltb (r.start + i) (length r.buf) then r.start + i else r.start + i - length r.buf

  pub len-lt : len r ≤ length r.buf - 1
  unfolding len
  len-lt = ground (arith, v.start_in, v.end_in)

  pub get_elem?-values :
      (i : ℕ) → get_elem? (values r) i ≡ (if ltb i (len r) then get_elem? r.buf (place i) else none)
  unfolding values len
  get_elem?-values i = elim (Bool-cases (leb r.start r.end)) [
    | inl e ↦ rw e (
        ground (
          arith,
          v.start_in,
          v.end_in,
          get_elem?-take (r.end - r.start) (drop r.start r.buf) i,
          get_elem?-drop r.start r.buf i,
        ))
    | inr e ↦ rw e (
        ground (
          arith,
          v.start_in,
          v.end_in,
          get_elem?-append (drop r.start r.buf) (take r.end r.buf) i,
          length-drop r.start r.buf,
          get_elem?-drop r.start r.buf i,
          get_elem?-take r.end r.buf (i - length (drop r.start r.buf)),
        ))
  ]

  pub length-values : length (values r) ≡ len r
  unfolding values len
  length-values = elim (Bool-cases (leb r.start r.end)) [
    | inl e ↦ rw e (
        ground (
          arith,
          v.start_in,
          v.end_in,
          length-take (r.end - r.start) (drop r.start r.buf),
          length-drop r.start r.buf,
        ))
    | inr e ↦ rw e (
        ground (
          arith,
          v.start_in,
          v.end_in,
          length-append (drop r.start r.buf) (take r.end r.buf),
          length-drop r.start r.buf,
          length-take r.end r.buf,
        ))
  ]
