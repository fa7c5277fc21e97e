-- ===== src/Intern/Table/Laws.antt =====
-- An ID stands for the string that it was given out for, for good.
use protocompile.Prelude.{
  ℕ, ◌^◌, ◌+◌, ◌-◌, ◌^◌, ◌≡◌, refl, sym, ap, ◌∙◌, true, false, ◌||◌, Option, none, some, List, [],
  ◌∷◌, ◌++◌, arith, ◌==◌, leb, ltb, length, length-append, All, All-map, Bool-cases, Option-cases,
  inl, inr,
}
use protocompile.Intern.Char6.{encode_char6, decode_char6}
use protocompile.Intern.Char6.RoundTrip.{
  IsByte, decode_char6-encode_char6, empty_id, encode_char6-negative,
}
use protocompile.Intern.Table.{
  Bytes, same, Table, load, loaded_id, query, intern_slow, intern, value,
}
use protocompile.Intern.Table.Steps.{
  same_iff, Stands, IsValid, get_elem?-append_left, get_elem?-last, load-Stands, Stands→value,
  Interned, inlined, found, was_full, is_full, stuck, appended, intern-Interned,
}

Stands-append :
    (log : List Bytes) (v s : Bytes) (p : Option ℕ) → Stands log s p → Stands (log ++ (v ∷ [])) s p
Stands-append log v s none h = tt
Stands-append log v s (some id) h = (h.0, h.1, get_elem?-append_left log (v ∷ []) (id - 1) s h.2)

appended-Stands :
    (log : List Bytes) (s : Bytes)
    → ltb (length log + 1) (2 ^ 31) ≡ true
    → Stands (log ++ (s ∷ [])) s (some (length log + 1))
appended-Stands log s h =
    let same_place : length log + 1 - 1 ≡ length log = omega arith in
    (omega arith, ground arith, rw same_place (get_elem?-last log s))

Interned-IsValid :
    (grow : ℕ → ℕ) (t : Table) (s : Bytes) (r : Option ℕ) (u : Table)
    → Interned grow t s r u
    → IsValid t
    → IsValid u
Interned-IsValid grow t s r u (inlined e) v = v
Interned-IsValid grow t s r u (found e) v = v
Interned-IsValid grow t s r u (was_full e) v = v
Interned-IsValid grow t s r u (is_full e) v = record { stands = (tt, v.stands); fits = v.fits }
Interned-IsValid grow t s r u (stuck e) v = v
Interned-IsValid grow t s r u (appended g e) v = record {
  stands = (
    appended-Stands t.log s e,
    All-map (λ q h. Stands-append t.log s q.0 q.1 h) t.index v.stands,
  );
  fits = let len = length-append t.log (s ∷ []) in ground arith;
}

inlined_value :
    (t : Table) (s : Bytes) (id : ℕ) → All IsByte s → encode_char6 s ≡ some id → value t id ≡ some s
unfolding value
inlined_value t [] id bs e = rw (empty_id id e) (unfold decode_char6 in refl)
inlined_value t (b ∷ s) id bs e =
    let neg = encode_char6-negative b s id bs e in
    let p : leb (2 ^ 31) id ≡ true = ground arith in
    let z : (id == 0) ≡ false = ground arith in
    rw (z, p, decode_char6-encode_char6 (b ∷ s) id bs e) refl

Interned-value :
    (grow : ℕ → ℕ) (t : Table) (s : Bytes) (r : Option ℕ) (u : Table) (id : ℕ)
    → Interned grow t s r u
    → IsValid t
    → All IsByte s
    → r ≡ some id
    → value u id ≡ some s
Interned-value grow t s r u id (inlined e) v bs h = inlined_value t s id bs (e ∙ h)
Interned-value grow t s r u id (found e) v bs h =
    Stands→value t s id (load-Stands t.index t.log s id v.stands (e ∙ ap some h))
Interned-value grow t s r u id (was_full e) v bs h = cc
Interned-value grow t s r u id (is_full e) v bs h = cc
Interned-value grow t s r u id (stuck e) v bs h = cc
Interned-value grow t s r u id (appended g e) v bs h =
    let m : length t.log + 1 ≡ id = cc in Stands→value u s id (rw (← m) (appended-Stands t.log s e))

-- Interning keeps the table valid.
pub intern-IsValid :
    (grow : ℕ → ℕ) (t : Table) (s : Bytes) → IsValid t → IsValid (intern grow t s).1
intern-IsValid grow t s v =
    Interned-IsValid grow t s (intern grow t s).0 (intern grow t s).1 (intern-Interned grow t s) v

-- In a valid table, the ID that `Intern` gives a string is the ID whose value is the string.
pub value-intern :
    (grow : ℕ → ℕ) (t : Table) (s : Bytes) (id : ℕ)
    → IsValid t
    → All IsByte s
    → (intern grow t s).0 ≡ some id
    → value (intern grow t s).1 id ≡ some s
value-intern grow t s id v bs h =
    Interned-value grow t s (intern grow t s).0 (intern grow t s).1 id (intern-Interned grow t s) v
      bs h

value-append :
    (t : Table) (index : List (Bytes × Option ℕ)) (c : ℕ) (s x : Bytes) (id : ℕ)
    → value t id ≡ some x
    → value (record { index = index; log = t.log ++ (s ∷ []); cap = c }) id ≡ some x
unfolding value
value-append t index c s x id = elim (Bool-cases (id == 0 || leb (2 ^ 31) id)) [
  | inl e ↦ rw e (λ h. h)
  | inr e ↦ rw e (get_elem?-append_left t.log (s ∷ []) (id - 1) x)
]

Interned-keeps :
    (grow : ℕ → ℕ) (t : Table) (s : Bytes) (r : Option ℕ) (u : Table) (id : ℕ) (x : Bytes)
    → Interned grow t s r u
    → value t id ≡ some x
    → value u id ≡ some x
unfolding value
Interned-keeps grow t s r u id x (inlined e) h = h
Interned-keeps grow t s r u id x (found e) h = h
Interned-keeps grow t s r u id x (was_full e) h = h
Interned-keeps grow t s r u id x (is_full e) h = h
Interned-keeps grow t s r u id x (stuck e) h = h
Interned-keeps grow t s r u id x (appended g e) h = value-append t u.index u.cap s x id h

-- Whatever is interned later, an ID keeps the value that it has.
pub intern-keeps_value :
    (grow : ℕ → ℕ) (t : Table) (s x : Bytes) (id : ℕ)
    → value t id ≡ some x
    → value (intern grow t s).1 id ≡ some x
intern-keeps_value grow t s x id h =
    Interned-keeps grow t s (intern grow t s).0 (intern grow t s).1 id x (intern-Interned grow t s)
      h

same_refl : (s : Bytes) → same s s ≡ true
same_refl s = (same_iff s s).1 refl

load-new : (t : Table) (s : Bytes) (p : Option ℕ) → load ((s, p) ∷ t.index) s ≡ some p
unfolding load
load-new t s p = rw (same_refl s) refl

intern-encoded :
    (grow : ℕ → ℕ) (t : Table) (s : Bytes) (id : ℕ)
    → encode_char6 s ≡ some id
    → (intern grow t s).0 ≡ some id
unfolding intern query
intern-encoded grow t s id e = rw (e, query, intern) refl

intern_slow-loaded :
    (grow : ℕ → ℕ) (t : Table) (s : Bytes) (id : ℕ)
    → load t.index s ≡ some (some id)
    → (intern_slow grow t s).0 ≡ some id
unfolding intern_slow
intern_slow-loaded grow t s id e = rw (e, intern_slow) refl

intern-loaded :
    (grow : ℕ → ℕ) (t : Table) (s : Bytes) (id : ℕ)
    → encode_char6 s ≡ none
    → load t.index s ≡ some (some id)
    → (intern grow t s).0 ≡ some id
unfolding intern query loaded_id
intern-loaded grow t s id e l = elim (Bool-cases (id == 0)) [
  | inl z ↦ rw (e, l, z, loaded_id, query, intern) (intern_slow-loaded grow t s id l)
  | inr z ↦ rw (e, l, z, loaded_id, query, intern) refl
]

Interned-again :
    (grow : ℕ → ℕ) (t : Table) (s : Bytes) (r : Option ℕ) (u : Table) (id : ℕ)
    → Interned grow t s r u
    → encode_char6 s ≡ none
    → r ≡ some id
    → (intern grow u s).0 ≡ some id
Interned-again grow t s r u id (inlined e) n h = cc
Interned-again grow t s r u id (found e) n h = intern-loaded grow t s id n (e ∙ ap some h)
Interned-again grow t s r u id (was_full e) n h = cc
Interned-again grow t s r u id (is_full e) n h = cc
Interned-again grow t s r u id (stuck e) n h = cc
Interned-again grow t s r u id (appended g e) n h =
    intern-loaded grow u s id n (load-new t s (some (length t.log + 1)) ∙ ap some h)

-- Interning a string again gives the same ID.
pub intern-again :
    (grow : ℕ → ℕ) (t : Table) (s : Bytes) (id : ℕ)
    → (intern grow t s).0 ≡ some id
    → (intern grow (intern grow t s).1 s).0 ≡ some id
intern-again grow t s id h = elim (Option-cases (encode_char6 s)) [
  | inl e ↦
      Interned-again grow t s (intern grow t s).0 (intern grow t s).1 id (intern-Interned grow t s)
        e h
  | inr (n, e) ↦
      let same_id : n ≡ id = cc (sym (intern-encoded grow t s n e) ∙ h) in
      intern-encoded grow (intern grow t s).1 s id (e ∙ ap some same_id)
]

-- Different strings have different IDs: if a string and, right after it, another get the same ID
-- from a valid table, they are the same string.
pub intern-injective :
    (grow : ℕ → ℕ) (t : Table) (s s' : Bytes) (id : ℕ)
    → IsValid t
    → All IsByte s
    → All IsByte s'
    → (intern grow t s).0 ≡ some id
    → (intern grow (intern grow t s).1 s').0 ≡ some id
    → s ≡ s'
intern-injective grow t s s' id v bs bs' h h' =
    let first =
      intern-keeps_value grow (intern grow t s).1 s' s id (value-intern grow t s id v bs h) in
    let second = value-intern grow (intern grow t s).1 s' id (intern-IsValid grow t s v) bs' h' in
    cc
