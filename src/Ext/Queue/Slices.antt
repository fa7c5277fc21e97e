-- ===== src/Ext/Queue/Slices.antt =====
-- internal/ext/slicesx/queue.go: the elements of slices that are copied, cut and joined.
use protocompile.Prelude.{
  ◌≡◌, refl, ap, ℕ, zero, suc, ◌+◌, ◌-◌, ◌≤◌, ◌<◌, none, some, List, [], ◌∷◌, ◌++◌, ◌==◌, leb, ltb,
  if◌then◌else◌, length, get_elem?, set, take, drop, arith,
}
use protocompile.Ext.Queue.{copy}

module _ {E : Type 0} where
  pub get_elem?-ge : (xs : List E) (i : ℕ) → length xs ≤ i → get_elem? xs i ≡ none
  get_elem?-ge [] i h = refl
  get_elem?-ge (x ∷ xs) zero h = absurd (omega arith)
  get_elem?-ge (x ∷ xs) (suc i) h = get_elem?-ge xs i (omega arith)

  pub get_elem?-append :
      (xs ys : List E) (i : ℕ)
      → get_elem? (xs ++ ys) i
        ≡ (if ltb i (length xs) then get_elem? xs i else get_elem? ys (i - length xs))
  get_elem?-append [] ys i = ground arith
  get_elem?-append (x ∷ xs) ys zero = ground arith
  get_elem?-append (x ∷ xs) ys (suc i) = ground (arith, get_elem?-append xs ys i)

  pub get_elem?-take :
      (n : ℕ) (xs : List E) (i : ℕ)
      → get_elem? (take n xs) i ≡ (if ltb i n then get_elem? xs i else none)
  get_elem?-take zero xs i = ground arith
  get_elem?-take (suc n) [] i = ground arith
  get_elem?-take (suc n) (x ∷ xs) zero = ground arith
  get_elem?-take (suc n) (x ∷ xs) (suc i) = ground (arith, get_elem?-take n xs i)

  pub get_elem?-drop :
      (n : ℕ) (xs : List E) (i : ℕ) → get_elem? (drop n xs) i ≡ get_elem? xs (n + i)
  get_elem?-drop zero xs i = ground arith
  get_elem?-drop (suc n) [] i = refl
  get_elem?-drop (suc n) (x ∷ xs) i = ground (arith, get_elem?-drop n xs i)

  pub get_elem?-set :
      (xs : List E) (k : ℕ) (v : E) (i : ℕ)
      → k < length xs
      → get_elem? (set xs k v) i ≡ (if i == k then some v else get_elem? xs i)
  get_elem?-set [] k v i h = absurd (omega arith)
  get_elem?-set (x ∷ xs) zero v zero h = ground arith
  get_elem?-set (x ∷ xs) zero v (suc i) h = ground arith
  get_elem?-set (x ∷ xs) (suc k) v zero h = ground arith
  get_elem?-set (x ∷ xs) (suc k) v (suc i) h = ground (arith, get_elem?-set xs k v i (omega arith))

  pub length-copy : (dst : List E) (a : ℕ) (src : List E) → length (copy dst a src) ≡ length dst
  unfolding copy
  length-copy [] a src = refl
  length-copy (x ∷ dst) a [] = refl
  length-copy (x ∷ dst) zero (y ∷ src) = ap suc (length-copy dst zero src)
  length-copy (x ∷ dst) (suc a) (y ∷ src) = ap suc (length-copy dst a (y ∷ src))

  -- The elements from `a` on are those of the source, as far as both go.
  pub get_elem?-copy :
      (dst : List E) (a : ℕ) (src : List E) (i : ℕ)
      → i < length dst
      → get_elem? (copy dst a src) i ≡ (
          if leb a i
          then (if ltb (i - a) (length src) then get_elem? src (i - a) else get_elem? dst i)
          else get_elem? dst i)
  unfolding copy
  get_elem?-copy [] a src i h = absurd (omega arith)
  get_elem?-copy (x ∷ dst) a [] i h = ground arith
  get_elem?-copy (x ∷ dst) zero (y ∷ src) zero h = ground arith
  get_elem?-copy (x ∷ dst) zero (y ∷ src) (suc i) h =
      ground (arith, get_elem?-copy dst zero src i (omega arith))
  get_elem?-copy (x ∷ dst) (suc a) (y ∷ src) zero h = ground arith
  get_elem?-copy (x ∷ dst) (suc a) (y ∷ src) (suc i) h =
      ground (arith, get_elem?-copy dst a (y ∷ src) i (omega arith))

  -- Lists with the same elements are the same.
  pub get_elem?-injective : (xs ys : List E) → ((i : ℕ) → get_elem? xs i ≡ get_elem? ys i) → xs ≡ ys
  get_elem?-injective [] [] h = refl
  get_elem?-injective [] (y ∷ ys) h = cc (h 0)
  get_elem?-injective (x ∷ xs) [] h = cc (h 0)
  get_elem?-injective (x ∷ xs) (y ∷ ys) h =
      ground (arith, h 0, get_elem?-injective xs ys (λ i. h (suc i)))
