-- ===== src/Ext/Queue/Pops.antt =====
-- internal/ext/slicesx/queue.go: a pop takes the element at one end.
use protocompile.Prelude.{
  ◌≡◌, inl, inr, ℕ, suc, ◌+◌, ◌-◌, ◌<◌, false, Option, none, List, [], ◌==◌, ltb, if◌then◌else◌,
  length, get_elem?, set, length-set, take, drop, arith, Bool-cases,
}
use protocompile.Ext.Queue.{Queue, front, back, len, values, mask, pop_front, pop_back}
use protocompile.Ext.Queue.Slices.{
  get_elem?-drop, get_elem?-take, get_elem?-set, get_elem?-injective,
}
use protocompile.Ext.Queue.Values.{
  IsValid, mask_small, mask_wraps, place, get_elem?-values, length-values,
}

-- The first and the last element of a list, and the others.
abbrev pub head? : {E : Type 0} → List E → Option E
head? xs = get_elem? xs 0

abbrev pub tail : {E : Type 0} → List E → List E
tail xs = drop 1 xs

abbrev pub last? : {E : Type 0} → List E → Option E
last? xs = if length xs == 0 then none else get_elem? xs (length xs - 1)

abbrev pub init : {E : Type 0} → List E → List E
init xs = take (length xs - 1) xs

module _ {E : Type 0} (z : E) (r : Queue E) (ok : IsValid r) where
  values_nil : r.start ≡ r.end → values r ≡ []
  unfolding len
  values_nil h = get_elem?-injective (values r) [] λ i. ground (arith, get_elem?-values r ok i)

  len_pos : (r.start == r.end) ≡ false → 0 < len r
  unfolding len
  len_pos h = ground (arith, ok.start_in, ok.end_in)

  -- The queue with another start, once the element there was taken.
  after_front : ℕ → Queue E
  after_front s = record r { buf = set r.buf r.start z; start = s }

  -- `s` is the position after the start.
  abbrev Next : ℕ → Type 0
  Next s = s ≡ (if ltb (r.start + 1) (length r.buf) then r.start + 1 else 0)

  after_front-IsValid : (s : ℕ) → Next s → IsValid (after_front s)
  unfolding after_front
  after_front-IsValid s h = record {
    start_in = ground (arith, length-set r.buf r.start z);
    end_in = omega (arith, length-set r.buf r.start z, ok.end_in);
  }

  values-after_front : (s : ℕ) → Next s → (0 < len r) → values (after_front s) ≡ tail (values r)
  unfolding after_front len
  values-after_front s h pos = get_elem?-injective (values (after_front s)) (tail (values r)) λ i.
      let k = place (after_front s) (after_front-IsValid s h) i in
      ground (
        arith,
        get_elem?-values (after_front s) (after_front-IsValid s h) i,
        get_elem?-drop 1 (values r) i,
        get_elem?-values r ok (suc i),
        ok.start_in,
        ok.end_in,
        length-set r.buf r.start z,
        get_elem?-set r.buf r.start z k,
      )

  mask-Next : 0 < length r.buf → Next (mask (r.start + 1) (length r.buf))
  mask-Next h = elim (Bool-cases (ltb (r.start + 1) (length r.buf))) [
    | inl e ↦ rw e (mask_small (r.start + 1) (length r.buf) (ground arith))
    | inr e ↦
        let k =
          mask_wraps (r.start + 1) (length r.buf) (ground arith) (ground (arith, ok.start_in)) in
        rw e (omega (arith, k, ok.start_in))
  ]

  -- PopFront returns the first element, and the others stay.
  pub pop_front_lem :
      IsValid (pop_front z r).1
      × ((pop_front z r).0 ≡ head? (values r))
      × (values (pop_front z r).1 ≡ tail (values r))
  unfolding pop_front after_front
  pop_front_lem = elim (Bool-cases (r.start == r.end)) [
    | inl e ↦ let nil = values_nil (ground arith) in rw e (ok, (rw nil), (rw nil))
    | inr e ↦
        let pos : 0 < length r.buf = ground (arith, ok.start_in, ok.end_in) in
        let some_in = len_pos e in
        let s = mask (r.start + 1) (length r.buf) in
        rw e (
          after_front-IsValid s (mask-Next pos),
          (ground (arith, get_elem?-values r ok 0, ok.start_in)),
          values-after_front s (mask-Next pos) some_in,
        )
  ]

  after_back : ℕ → Queue E
  after_back e = record r { buf = set r.buf e z; end = e }

  -- `e` is the position before the end.
  abbrev Previous : ℕ → Type 0
  Previous e = e ≡ (if r.end == 0 then length r.buf - 1 else r.end - 1)

  after_back-IsValid : (e : ℕ) → Previous e → IsValid (after_back e)
  unfolding after_back
  after_back-IsValid e h = record {
    start_in = omega (arith, length-set r.buf e z, ok.start_in);
    end_in = ground (arith, length-set r.buf e z, ok.end_in);
  }

  values-after_back : (e : ℕ) → Previous e → (0 < len r) → values (after_back e) ≡ init (values r)
  unfolding after_back len
  values-after_back e h pos = get_elem?-injective (values (after_back e)) (init (values r)) λ i.
      let k = place (after_back e) (after_back-IsValid e h) i in
      ground (
        arith,
        get_elem?-values (after_back e) (after_back-IsValid e h) i,
        get_elem?-take (length (values r) - 1) (values r) i,
        length-values r ok,
        get_elem?-values r ok i,
        ok.start_in,
        ok.end_in,
        length-set r.buf e z,
        get_elem?-set r.buf e z k,
      )

  mask-Previous : 0 < length r.buf → Previous (mask (r.end + length r.buf - 1) (length r.buf))
  mask-Previous h = elim (Bool-cases (r.end == 0)) [
    | inl e ↦
        let k = mask_small (r.end + length r.buf - 1) (length r.buf) (ground arith) in
        rw e (ground (arith, k))
    | inr e ↦
        let k =
          mask_wraps (r.end + length r.buf - 1) (length r.buf) (ground arith)
            (ground (arith, ok.end_in)) in
        rw e (ground (arith, k))
  ]

  last_read : (e : ℕ) → Previous e → 0 < len r → get_elem? r.buf e ≡ last? (values r)
  unfolding len
  last_read e h pos = ground (
    arith,
    get_elem?-values r ok (length (values r) - 1),
    length-values r ok,
    ok.start_in,
    ok.end_in,
  )

  -- PopBack returns the last element, and the others stay.
  pub pop_back_lem :
      IsValid (pop_back z r).1
      × ((pop_back z r).0 ≡ last? (values r))
      × (values (pop_back z r).1 ≡ init (values r))
  unfolding pop_back after_back
  pop_back_lem = elim (Bool-cases (r.start == r.end)) [
    | inl e ↦ let nil = values_nil (ground arith) in rw e (ok, (rw nil), (rw nil))
    | inr e ↦
        let pos : 0 < length r.buf = ground (arith, ok.start_in, ok.end_in) in
        let some_in = len_pos e in
        let s = mask (r.end + length r.buf - 1) (length r.buf) in
        rw e (
          after_back-IsValid s (mask-Previous pos),
          last_read s (mask-Previous pos) some_in,
          values-after_back s (mask-Previous pos) some_in,
        )
  ]

  -- Front and Back read what the pops return.
  pub front-pop_front : front r ≡ (pop_front z r).0
  unfolding front pop_front
  front-pop_front = elim (Bool-cases (r.start == r.end)) [ inl e ↦ rw e | inr e ↦ rw e ]

  pub back-pop_back : back r ≡ (pop_back z r).0
  unfolding back pop_back
  back-pop_back = elim (Bool-cases (r.start == r.end)) [ inl e ↦ rw e | inr e ↦ rw e ]
