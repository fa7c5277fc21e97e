-- ===== src/Parser/Bounds/Inhabited.antt =====
-- Ranges whose bounds are not reported hold a tag, as the validation of messages needs them.
use protocompile.Prelude.{
  ℕ, suc, ◌-◌, ◌^◌, ◌≤◌, ◌<◌, ◌≡◌, refl, Bool, true, false, not, ◌&&◌, ◌||◌, arith, ◌==◌,
  if◌then◌else◌, Bool-cases, Option-cases, inl, inr, List, [], ◌∷◌, ◌++◌, All,
}
use protocompile.Prelude.Int.{ℤ, pos, negsuc, ltb_ℤ, ◌≤ℤ◌, ◌<ℤ◌}
use protocompile.Diagnostic.{range_start_out_of_bounds, range_invalid}
use protocompile.Descriptor.{UninterpretedOption, RangeProto}
use protocompile.Reporter.Check.{
  Check, Accepts, done, report_if, >>-Accepts, report_if-Accepts, append-eq-nil, ◌>>◌,
}
use protocompile.Parser.Bounds.{
  IntValueNode, node_span, node_value, as_int64, as_int32, RangeNode, end_value_as_int32,
  report_end, get_range_bounds, next_int32, as_message_reserved_range, as_extension_ranges,
}

abbrev IsBetween : ℤ → ℤ → ℤ → Type 0
IsBetween lo hi v = (lo ≤ℤ v) × (v ≤ℤ hi)

as_int32-IsBetween :
    (n : IntValueNode) (lo hi : ℤ)
    → (as_int32 n lo hi).1 ≡ true
    → IsBetween lo hi (as_int32 n lo hi).0
unfolding as_int32
as_int32-IsBetween n lo hi = elim (Option-cases (as_int64 n)) [
  | inl e ↦ rw (e, as_int32) (λ h. cc)
  | inr (i, e) ↦ elim (Bool-cases (ltb_ℤ i lo || ltb_ℤ hi i)) [
    | inl out ↦ rw (e, as_int32, out) (λ h. cc)
    | inr fits ↦ rw (e, as_int32, fits) (λ h. (ground arith, ground arith))
  ]
]

end_value-IsBetween :
    (rng : RangeNode) (lo hi : ℤ)
    → lo ≤ℤ hi
    → (end_value_as_int32 rng lo hi).1 ≡ true
    → IsBetween lo hi (end_value_as_int32 rng lo hi).0
unfolding end_value_as_int32
end_value-IsBetween rng lo hi le = elim (Bool-cases rng.max) [
  | inl m ↦ rw m (λ h. (le, omega arith))
  | inr m ↦ elim (Option-cases rng.end_val) [
    | inl e ↦ rw (m, e) (as_int32-IsBetween rng.start_val lo hi)
    | inr (n, e) ↦ rw (m, e) (as_int32-IsBetween n lo hi)
  ]
]

-- An end that is out of range is reported, or it is the start.
end_value_known :
    (rng : RangeNode) (lo hi : ℤ)
    → (as_int32 rng.start_val lo hi).1 ≡ true
    → Accepts (if (end_value_as_int32 rng lo hi).1 then done else report_end rng.end_val lo hi)
    → (end_value_as_int32 rng lo hi).1 ≡ true
unfolding end_value_as_int32 report_end
end_value_known rng lo hi s = elim (Bool-cases rng.max) [
  | inl m ↦ rw m (λ h. refl)
  | inr m ↦ elim (Option-cases rng.end_val) [
    | inl e ↦ rw (m, e) (λ h. s)
    | inr (n, e) ↦ elim (Bool-cases (as_int32 n lo hi).1) [
      | inl ok ↦ rw (m, e) (λ h. ok)
      | inr bad ↦ rw (m, e) (rw bad (λ h. cc))
    ]
  ]
]

-- Bounds that are not reported are in range and in order.
pub get_range_bounds-Accepts :
    (rng : RangeNode) (lo hi : ℤ)
    → lo ≤ℤ hi
    → Accepts (get_range_bounds rng lo hi)
    → (lo ≤ℤ (get_range_bounds rng lo hi).value.0)
      × ((get_range_bounds rng lo hi).value.0 ≤ℤ (get_range_bounds rng lo hi).value.1)
      × ((get_range_bounds rng lo hi).value.1 ≤ℤ hi)
unfolding get_range_bounds
get_range_bounds-Accepts rng lo hi le h =
    let (start, start_ok) = as_int32 rng.start_val lo hi in
    let (end, end_ok) = end_value_as_int32 rng lo hi in
    let a : Check (Unit {0}) =
      report_if (not start_ok) (node_span rng.start_val)
        (range_start_out_of_bounds (node_value rng.start_val) lo hi) in
    let b : Check (Unit {0}) = if end_ok then done else report_end rng.end_val lo hi in
    let c : Check (Unit {0}) =
      report_if (start_ok && end_ok && ltb_ℤ end start) (node_span rng.start_val)
        (range_invalid start end) in
    let abc : Accepts (a >> b >> c) = ((append-eq-nil (a >> b >> c).reports []).0 h).0 in
    let (ab, ordered) = (>>-Accepts (a >> b) c).0 abc in
    let (known, rest) = (>>-Accepts a b).0 ab in
    let s : start_ok ≡ true = not_false start_ok ((report_if-Accepts (not start_ok) _ _).0 known) in
    let e : end_ok ≡ true = end_value_known rng lo hi s rest in
    let o : (start_ok && end_ok && ltb_ℤ end start) ≡ false =
      (report_if-Accepts (start_ok && end_ok && ltb_ℤ end start) _ _).0 ordered in
    let start_in = as_int32-IsBetween rng.start_val lo hi s in
    let end_in = end_value-IsBetween rng lo hi le e in
    (start_in.0, in_order start end start_ok end_ok s e o, end_in.1)
  where
    not_false : (t : Bool) → not t ≡ false → t ≡ true
    not_false true p = refl
    not_false false p = cc

    in_order : (x y : ℤ) (p q : Bool) → p ≡ true → q ≡ true → (p && q && ltb_ℤ y x) ≡ false → x ≤ℤ y
    in_order x y true true u v o' = ground arith
    in_order x y true false u v o' = cc
    in_order x y false q u v o' = cc

next_int32_bound :
    (b : ℤ) (m : ℕ)
    → pos 1 ≤ℤ b
    → b ≤ℤ pos m
    → m < 2 ^ 31 - 1
    → (b <ℤ next_int32 b) × (next_int32 b ≤ℤ pos (suc m))
unfolding next_int32
next_int32_bound (pos n) m lo hi h =
    let e : (suc n == 2 ^ 31) ≡ false = ground arith in rw e (omega arith, omega arith)
next_int32_bound (negsuc n) m lo hi h = absurd (omega arith)

-- The range holds a tag, and all its tags are from 1 to the greatest tag.
abbrev pub HoldsTags : ℕ → RangeProto → Type 0
HoldsTags max_tag r = (pos 1 ≤ℤ r.start) × (r.start <ℤ r.end) × (r.end ≤ℤ pos (suc max_tag))

bounds-HoldsTags :
    (max_tag : ℕ) (start end : ℤ) (opts : List UninterpretedOption) (rng : RangeNode)
    → max_tag < 2 ^ 31 - 1
    → (pos 1 ≤ℤ start) × (start ≤ℤ end) × (end ≤ℤ pos max_tag)
    → HoldsTags max_tag
        (record { start = start; end = next_int32 end; options = opts; span = rng.span })
bounds-HoldsTags max_tag start end opts rng m b =
    let next = next_int32_bound end max_tag (omega arith) b.2 m in (b.0, omega arith, next.1)

-- A reserved range of a message that is made without a report holds a tag, and its tags are from 1
-- to the greatest tag, which is below the greatest int32.
pub as_message_reserved_range-HoldsTags :
    (rng : RangeNode) (max_tag : ℕ)
    → 1 ≤ max_tag
    → max_tag < 2 ^ 31 - 1
    → Accepts (as_message_reserved_range rng (pos max_tag))
    → HoldsTags max_tag (as_message_reserved_range rng (pos max_tag)).value
unfolding as_message_reserved_range
as_message_reserved_range-HoldsTags rng max_tag lo hi h =
    let accepted =
      ((append-eq-nil (get_range_bounds rng (pos 1) (pos max_tag)).reports []).0 h).0 in
    bounds-HoldsTags max_tag _ _ [] rng hi
      (get_range_bounds-Accepts rng (pos 1) (pos max_tag) (omega arith) accepted)

-- If none of the extension ranges of one declaration is reported, each holds a tag, and its tags are from 1 to the greatest tag, which is below the greatest int32.
pub as_extension_ranges-HoldsTags :
    (ranges : List RangeNode) (opts : List UninterpretedOption) (max_tag : ℕ)
    → 1 ≤ max_tag
    → max_tag < 2 ^ 31 - 1
    → Accepts (as_extension_ranges ranges opts (pos max_tag))
    → All (HoldsTags max_tag) (as_extension_ranges ranges opts (pos max_tag)).value
unfolding as_extension_ranges
as_extension_ranges-HoldsTags [] opts max_tag lo hi h = tt
as_extension_ranges-HoldsTags (rng ∷ ranges) opts max_tag lo hi h =
    let bounds = get_range_bounds rng (pos 1) (pos max_tag) in
    let later = as_extension_ranges ranges opts (pos max_tag) in
    let (one, last) = (append-eq-nil bounds.reports (later.reports ++ [])).0 h in
    let (more, _) = (append-eq-nil later.reports []).0 last in
    (
      bounds-HoldsTags max_tag _ _ opts rng hi
          (get_range_bounds-Accepts rng (pos 1) (pos max_tag) (omega arith) one),
      as_extension_ranges-HoldsTags ranges opts max_tag lo hi more,
    )
