-- ===== src/Intern/Table/Steps.antt =====
-- The ways in which a call of `Intern` can end, and what the index says of a string.
use protocompile.Prelude.{
  ℕ, zero, suc, ◌+◌, ◌-◌, ◌^◌, ◌≤◌, ◌<◌, ◌≡◌, ◌⊎◌, ◌%◌, ◌↔◌, refl, true, false, Option, none, some,
  List, [], ◌∷◌, ◌++◌, arith, ◌||◌, ◌==◌, leb, ltb, length, get_elem?, All, Bool-cases,
  Option-cases, inl, inr,
}
use protocompile.Intern.Char6.{encode_char6}
use protocompile.Intern.Table.{
  Bytes, same, append_log, Table, load, loaded_id, query, insert_new, intern_slow, intern, value,
}

pub same_iff : (s t : Bytes) → (same s t ≡ true) ↔ (s ≡ t)
unfolding same
same_iff [] [] = (λ h. refl, λ h. refl)
same_iff [] (b ∷ t) = (λ h. cc, λ h. cc)
same_iff (a ∷ s) [] = (λ h. cc, λ h. cc)
same_iff (a ∷ s) (b ∷ t) =
    (λ h. ground (arith, (same_iff s t).0), λ h. ground (arith, (same_iff s t).1))

-- What the index says of a string: its ID stands for it in the log.
abbrev pub Stands : List Bytes → Bytes → Option ℕ → Type 0
Stands log s none = Unit
Stands log s (some id) = (1 ≤ id) × (id < 2 ^ 31) × (get_elem? log (id - 1) ≡ some s)

-- The index agrees with the log, and the log has not more values than IDs.
pub record IsValid (t : Table) : Type 0 where
  pub stands : All (λ e. Stands t.log e.0 e.1) t.index
  pub fits : length t.log < 2 ^ 31

pub get_elem?-append_left :
    (xs ys : List Bytes) (i : ℕ) (x : Bytes)
    → get_elem? xs i ≡ some x
    → get_elem? (xs ++ ys) i ≡ some x
get_elem?-append_left [] ys i x h = cc
get_elem?-append_left (y ∷ xs) ys zero x h = h
get_elem?-append_left (y ∷ xs) ys (suc i) x h = get_elem?-append_left xs ys i x h

pub get_elem?-last : (xs : List Bytes) (x : Bytes) → get_elem? (xs ++ (x ∷ [])) (length xs) ≡ some x
get_elem?-last [] x = refl
get_elem?-last (y ∷ xs) x = get_elem?-last xs x

pub load-Stands :
    (index : List (Bytes × Option ℕ)) (log : List Bytes) (s : Bytes) (id : ℕ)
    → All (λ e. Stands log e.0 e.1) index
    → load index s ≡ some (some id)
    → Stands log s (some id)
unfolding load
load-Stands [] log s id h = λ e. cc
load-Stands ((t, p) ∷ rest) log s id h = elim (Bool-cases (same t s)) [
  | inl b ↦ rw b (λ e. found t s p id ((same_iff t s).0 b) h.0 e)
  | inr b ↦ rw b (load-Stands rest log s id h.1)
]
  where
    found :
        (t' s' : Bytes) (p' : Option ℕ) (id' : ℕ)
        → t' ≡ s'
        → Stands log t' p'
        → some p' ≡ some (some id')
        → Stands log s' (some id')
    found t' s' none id' q k e' = cc
    found t' s' (some n) id' q k e' = let m : n ≡ id' = cc in rw (← m, ← q) k

pub Stands→value : (u : Table) (s : Bytes) (id : ℕ) → Stands u.log s (some id) → value u id ≡ some s
unfolding value
Stands→value u s id h =
    let z : (id == 0) ≡ false = ground arith in
    let p : leb (2 ^ 31) id ≡ false = ground arith in rw (z, p) h.2

-- The capacity after an append: it stays while it is above the number of values, or grows.
abbrev pub Grown : (ℕ → ℕ) → Table → ℕ → Type 0
Grown grow t c = ((length t.log < t.cap) × (c ≡ t.cap)) ⊎ (c ≡ grow t.cap % 2 ^ 32)

-- How a call of `intern` can end: its result and the table that it leaves.
pub data Interned (grow : ℕ → ℕ) (t : Table) (s : Bytes) : Option ℕ → Table → Type 0 where
  inlined : {id : ℕ} → encode_char6 s ≡ some id → Interned grow t s (some id) t
  found : {id : ℕ} → load t.index s ≡ some (some id) → Interned grow t s (some id) t
  was_full : load t.index s ≡ some none → Interned grow t s none t
  is_full :
      ltb (length t.log + 1) (2 ^ 31) ≡ false
      → Interned grow t s none (record t { index = (s, none) ∷ t.index })
  stuck : (leb (2 ^ 31) t.cap || ltb t.cap (length t.log)) ≡ true → Interned grow t s none t
  appended :
      {c : ℕ}
      → Grown grow t c
      → ltb (length t.log + 1) (2 ^ 31) ≡ true
      → Interned grow t s (some (length t.log + 1)) (record {
        index = (s, some (length t.log + 1)) ∷ t.index;
        log = t.log ++ (s ∷ []);
        cap = c;
      })

module _ (grow : ℕ → ℕ) where
  insert_new-Interned :
      (t : Table) (s : Bytes) → Interned grow t s (insert_new grow t s).0 (insert_new grow t s).1
  unfolding insert_new append_log
  insert_new-Interned t s = elim (Bool-cases (ltb (length t.log + 1) (2 ^ 31))) [
    | inr e ↦ rw (e, insert_new, append_log) (is_full e)
    | inl e ↦ elim (Bool-cases (leb (2 ^ 31) t.cap || ltb t.cap (length t.log))) [
      | inl f ↦ rw (e, f, insert_new, append_log) (stuck f)
      | inr f ↦ elim (Bool-cases (ltb (length t.log) t.cap)) [
        | inl g ↦ rw (e, f, g, insert_new, append_log) (appended (inl (ground arith, refl)) e)
        | inr g ↦ rw (e, f, g, insert_new, append_log) (appended (inr refl) e)
      ]
    ]
  ]

  intern_slow-Interned :
      (t : Table) (s : Bytes) → Interned grow t s (intern_slow grow t s).0 (intern_slow grow t s).1
  unfolding intern_slow
  intern_slow-Interned t s = elim (Option-cases (load t.index s)) [
    | inl e ↦ rw (e, intern_slow) (insert_new-Interned t s)
    | inr (none, e) ↦ rw (e, intern_slow) (was_full e)
    | inr (some id, e) ↦ rw (e, intern_slow) (found e)
  ]

loaded_id-some : (p : Option (Option ℕ)) (id : ℕ) → loaded_id p ≡ some id → p ≡ some (some id)
unfolding loaded_id
loaded_id-some none id = λ h. cc
loaded_id-some (some none) id = λ h. cc
loaded_id-some (some (some n)) id = elim (Bool-cases (n == 0)) [
  | inl e ↦ rw e (λ h. cc)
  | inr e ↦ rw e (λ h. cc)
]

pub intern-Interned :
    (grow : ℕ → ℕ) (t : Table) (s : Bytes)
    → Interned grow t s (intern grow t s).0 (intern grow t s).1
unfolding intern query
intern-Interned grow t s = elim (Option-cases (encode_char6 s)) [
  | inr (id, e) ↦ rw (e, query, intern) (inlined e)
  | inl e ↦ elim (Option-cases (loaded_id (load t.index s))) [
    | inl f ↦ rw (e, f, query, intern) (intern_slow-Interned grow t s)
    | inr (id, f) ↦ rw (e, f, query, intern) (found (loaded_id-some (load t.index s) id f))
  ]
]
