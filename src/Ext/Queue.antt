-- ===== src/Ext/Queue.antt =====
-- internal/ext/slicesx/queue.go: a double-ended queue in a ring buffer, and the power of two that
-- internal/ext/bitsx/bitsx.go gives for its length.
--
-- `zero_value` is the value that Go fills a new slice with. A position is masked with the length of
-- the buffer less one, a power of two, and so is taken modulo the length.
pub mod Slices
pub mod Values
pub mod Places
pub mod Fronts
pub mod Room
pub mod Powers
pub mod Pops
pub mod Ring
pub mod Ops
mod Runs
use protocompile.Prelude.{
  ℕ, zero, suc, ◌+◌, ◌-◌, ◌%◌, ◌/◌, ◌^◌, Bool, Option, none, some, List, [], ◌∷◌, ◌++◌, ◌==◌, leb,
  ltb, if◌then◌else◌, length, get_elem?, set, take, drop, replicate, ◌||◌,
}

-- `math/bits`: the length of a number in bits, and the ones in it.
unfoldable pub bit_len : ℕ → ℕ → ℕ
bit_len zero n = 0
bit_len (suc bits) n = if n == 0 then 0 else suc (bit_len bits (n / 2))

unfoldable pub ones_count : ℕ → ℕ → ℕ
ones_count zero n = 0
ones_count (suc bits) n = n % 2 + ones_count bits (n / 2)

unfoldable pub is_power_of_two : ℕ → Bool
unfolding ones_count
is_power_of_two n = ones_count 64 n == 1

unfoldable pub next_power_of_two : ℕ → ℕ
unfolding bit_len
next_power_of_two n = ((2 ^ 64 - 1) / 2 ^ (64 - bit_len 64 n) + 1) % 2 ^ 64

unfoldable pub make_power_of_two : ℕ → ℕ
unfolding is_power_of_two next_power_of_two
make_power_of_two n = if is_power_of_two n then n else next_power_of_two n

pub record Queue (E : Type 0) : Type 0 where
  pub buf : List E
  pub start : ℕ
  pub end : ℕ

-- `copy(dst[a:], src)`, and the number of the elements that it copies.
unfoldable pub copy : {E : Type 0} → List E → ℕ → List E → List E
copy [] a src = []
copy (x ∷ dst) a [] = x ∷ dst
copy (x ∷ dst) zero (y ∷ src) = y ∷ copy dst zero src
copy (x ∷ dst) (suc a) (y ∷ src) = x ∷ copy dst a (y ∷ src)

unfoldable pub copied : {E : Type 0} → List E → ℕ → List E → ℕ
copied dst a src = if ltb (length dst - a) (length src) then length dst - a else length src

-- `x & (n - 1)`, which is `x` for an empty buffer.
unfoldable pub mask : ℕ → ℕ → ℕ
mask x n = if n == 0 then x else x % n

module _ {E : Type 0} where
  unfoldable pub len : Queue E → ℕ
  len r = if ltb r.end r.start then length r.buf - r.start + r.end else r.end - r.start

  unfoldable pub cap : Queue E → ℕ
  cap r = if length r.buf == 0 then 0 else length r.buf - 1

  unfoldable pub values : Queue E → List E
  values r =
      if leb r.start r.end
      then take (r.end - r.start) (drop r.start r.buf)
      else drop r.start r.buf ++ take r.end r.buf

  unfoldable pub front : Queue E → Option E
  front r = if r.start == r.end then none else get_elem? r.buf r.start

  unfoldable pub back : Queue E → Option E
  unfolding mask
  back r =
      if r.start == r.end
      then none
      else get_elem? r.buf (mask (r.end + length r.buf - 1) (length r.buf))

  abbrev pub clear : Queue E → Queue E
  clear r = record { buf = []; start = 0; end = 0 }

  -- The pushes, once there is room. The front one starts below 0 if it wraps around.
  unfoldable pub place_front : List E → Queue E → Queue E
  unfolding mask copy copied
  place_front v r =
      let n = length r.buf in
      let start = mask (r.start + n - length v) n in
      record r {
        start = start;
        buf =
            if ltb r.start (length v)
            then copy (copy r.buf start v) 0 (drop (copied r.buf start v) v)
            else copy r.buf start v;
      }

  unfoldable pub place_back : List E → Queue E → Queue E
  unfolding mask copy copied
  place_back v r =
      let n = length r.buf in
      let end = mask (r.end + length v) n in
      record r {
        end = end;
        buf =
            if ltb end (r.end + length v)
            then copy (copy r.buf r.end v) 0 (drop (copied r.buf r.end v) v)
            else copy r.buf r.end v;
      }

-- `int(bitsx.MakePowerOfTwo(uint(n)))` as the length of a buffer. From `2 ^ 63` on the int is
-- negative, and `make` panics: `none`, here and in the operations that grow the buffer.
unfoldable pub buffer_length : ℕ → Option ℕ
unfolding make_power_of_two
buffer_length n = let size = make_power_of_two n in if ltb size (2 ^ 63) then some size else none

module _ {E : Type 0} (zero_value : E) where
  unfoldable pub new_queue : ℕ → Option (Queue E)
  unfolding buffer_length
  new_queue capacity =
      if capacity == 0
      then some (record { buf = []; start = 0; end = 0 })
      else elim (buffer_length (capacity + 1)) [
        | none ↦ none
        | some n ↦ some (record { buf = replicate n zero_value; start = 0; end = 0 })
      ]

  unfoldable pub resize : ℕ → Queue E → Queue E
  unfolding copy copied
  resize n r =
      let made = replicate n zero_value in
      if ltb r.end r.start
      then (let first = copied made 0 (drop r.start r.buf) in
          let buf = copy made 0 (drop r.start r.buf) in
          record {
            buf = copy buf first (take r.end r.buf);
            start = 0;
            end = first + copied buf first (take r.end r.buf);
          })
      else record {
        buf = copy made 0 (take (r.end - r.start) (drop r.start r.buf));
        start = 0;
        end = copied made 0 (take (r.end - r.start) (drop r.start r.buf));
      }

  unfoldable pub reserve : ℕ → Queue E → Option (Queue E)
  unfolding len cap resize buffer_length
  reserve n r =
      if leb (len r + n) (cap r)
      then some r
      else elim (buffer_length (len r + n + 1)) [ none ↦ none | some m ↦ some (resize m r) ]

  unfoldable pub push_front : List E → Queue E → Option (Queue E)
  unfolding reserve place_front
  push_front v r = elim (reserve (length v) r) [ none ↦ none | some r' ↦ some (place_front v r') ]

  unfoldable pub push_back : List E → Queue E → Option (Queue E)
  unfolding reserve place_back
  push_back v r = elim (reserve (length v) r) [ none ↦ none | some r' ↦ some (place_back v r') ]

  -- `Take` reads an element and sets it to the zero value.
  unfoldable pub pop_front : Queue E → Option E × Queue E
  unfolding mask
  pop_front r = if r.start == r.end then (none, r) else (
    get_elem? r.buf r.start,
    record r { buf = set r.buf r.start zero_value; start = mask (r.start + 1) (length r.buf) },
  )

  unfoldable pub pop_back : Queue E → Option E × Queue E
  unfolding mask
  pop_back r =
      if r.start == r.end
      then (none, r)
      else (let end = mask (r.end + length r.buf - 1) (length r.buf) in
          (get_elem? r.buf end, record r { buf = set r.buf end zero_value; end = end }))
