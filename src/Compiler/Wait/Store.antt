-- ===== src/Compiler/Wait/Store.antt =====
-- compiler.go: the map of results, and how the tasks' knowledge fares when one entry is written.
use protocompile.Prelude.{
  ◌≡◌, refl, sym, subst, ◌∙◌, ◌≢◌, ◌⊎◌, inl, inr, ℕ, suc, Bool, true, false, none, some, List, [],
  String, str_eq, eq_iff, if◌then◌else◌, arith, Bool-cases, Option-cases,
}
use protocompile.Compiler.{Task, Results, put, compile, blocked, new_task, descriptor_proto_path}
use protocompile.Compiler.Wait.{In, Created, Knows, Ordered}
use protocompile.Compiler.Wait.Mono.{Grows, Knows-mono}

pub str_eq_self : (x : String) → str_eq x x ≡ true
str_eq_self x = (eq_iff x x).1 refl

pub str_eq-false : (x y : String) → str_eq x y ≡ false → x ≢ y
str_eq-false x y h e = ground (arith, eq_iff x y)

pub put_self : (t : String) (r : Task) (m : Results) → put t r m t ≡ some r
put_self t r m = rw (str_eq_self t)

pub put-some :
    (t : String) (r : Task) (m : Results) (x : String) (q : Task)
    → put t r m x ≡ some q
    → ((t ≡ x) × (r ≡ q)) ⊎ ((t ≢ x) × (m x ≡ some q))
put-some t r m x q h = elim (Bool-cases (str_eq t x)) [
  | inl e ↦ inl ((eq_iff t x).0 e, ground arith)
  | inr e ↦ inr (str_eq-false t x e, ground arith)
]

pub blocked-some : (m : Results) (x : String) (r : Task) → m x ≡ some r → blocked m x ≡ r.blocked_on
blocked-some m x r e = rw (e, blocked)

pub blocked-put :
    (t : String) (r : Task) (m : Results) (x a : String)
    → In a (blocked (put t r m) x)
    → ((t ≡ x) × In a r.blocked_on) ⊎ ((t ≢ x) × In a (blocked m x))
blocked-put t r m x a i = elim (Bool-cases (str_eq t x)) [
  | inl e ↦ inl (
    (eq_iff t x).0 e,
    subst (λ b. In a (elim (if b then some r else m x) [ none ↦ [] | some q ↦ q.blocked_on ])) e i,
  )
  | inr e ↦ inr (
    str_eq-false t x e,
    subst (λ b. In a (elim (if b then some r else m x) [ none ↦ [] | some q ↦ q.blocked_on ])) e i,
  )
]

pub Created-put :
    (t : String) (r : Task) (m : Results) (y : String) → Created m y → Created (put t r m) y
Created-put t r m y c = elim (Bool-cases (str_eq t y)) [
  | inl e ↦ (r, rw e)
  | inr e ↦ (c.0, rw e c.1)
]

pub Created-compile_self : (d : String) (m : Results) → Created (compile d m) d
unfolding compile
Created-compile_self d m = elim (Option-cases (m d)) [
  | inl e ↦ (new_task, rw (e, compile) (put_self d new_task m))
  | inr (r, e) ↦ (r, rw (e, compile) e)
]

pub compile_cases :
    (d : String) (m : Results)
    → (compile d m ≡ m) ⊎ ((m d ≡ none) × (compile d m ≡ put d new_task m))
unfolding compile
compile_cases d m = elim (Option-cases (m d)) [
  | inl e ↦ inr (e, rw (e, compile))
  | inr (r, e) ↦ inl (rw (e, compile))
]

pub compile_keeps :
    (d : String) (m : Results) (t : String) (r : Task) → m t ≡ some r → compile d m t ≡ some r
compile_keeps d m t r e = elim (compile_cases d m) [
  | inl f ↦ subst (λ (n : Results). n t ≡ some r) (sym f) e
  | inr (g, f) ↦ subst (λ (n : Results). n t ≡ some r) (sym f) (ground (arith, eq_iff d t))
]

module _ {wants : String → List String → Bool} {m : Results} (o : Ordered wants m) where
  open o use {stamp, now, knows, past, distinct, unblocked}

  -- An entry is written that is blocked on no more than the entry was.
  pub Ordered-put :
      (t : String) (r : Task)
      → ((a : String) → In a r.blocked_on → In a (blocked m t))
      → Knows m stamp wants t r r.phase
      → Ordered wants (put t r m)
  Ordered-put t r less k = record {
    stamp = stamp;
    now = now;
    knows = λ x q e. elim (put-some t r m x q e) [
      | inl (f, g) ↦ Knows-mono (grows x) wants q q.phase (
          subst (λ y. Knows m stamp wants y q q.phase) f
            (subst (λ y. Knows m stamp wants t y y.phase) g k))
      | inr (f, g) ↦ Knows-mono (grows x) wants q q.phase (knows x q g)
    ];
    past = past;
    distinct = λ x y a b i j e. distinct x y a b (fewer x a i) (fewer y b j) e;
    unblocked = λ a i. unblocked a (fewer descriptor_proto_path a i);
  }
    where
      fewer : (x a : String) → In a (blocked (put t r m) x) → In a (blocked m x)
      fewer x a i = elim (blocked-put t r m x a i) [
        | inl (e, j) ↦ subst (λ y. In a (blocked m y)) e (less a j)
        | inr (e, j) ↦ j
      ]

      grows : (x : String) → Grows m stamp (put t r m) stamp x
      grows x = record {
        same = refl;
        created = Created-put t r m;
        blocks = λ y a i. inl (fewer y a i, refl);
      }

  -- A task is blocked, and has the next stamp.
  abbrev next_stamp : String → String → ℕ
  next_stamp t x = if str_eq t x then now else stamp x

  pub Ordered-block :
      (t : String) (r : Task)
      → t ≢ descriptor_proto_path
      → Knows (put t r m) (next_stamp t) wants t r r.phase
      → Ordered wants (put t r m)
  Ordered-block t r other k = record {
    stamp = next_stamp t;
    now = suc now;
    knows = λ x q e. elim (put-some t r m x q e) [
      | inl (f, g) ↦
          subst (λ y. Knows (put t r m) (next_stamp t) wants y q q.phase) f
            (subst (λ y. Knows (put t r m) (next_stamp t) wants t y y.phase) g k)
      | inr (f, g) ↦ Knows-mono (grows x f) wants q q.phase (knows x q g)
    ];
    past = λ x. ground (arith, past x);
    distinct = λ x y a b i j e. apart x y a b (blocked-put t r m x a i) (blocked-put t r m y b j) e;
    unblocked = λ a i. elim (blocked-put t r m descriptor_proto_path a i) [
      | inl (e, j) ↦ other e
      | inr (e, j) ↦ unblocked a j
    ];
  }
    where
      old : (x : String) → t ≢ x → next_stamp t x ≡ stamp x
      old x f = ground (arith, eq_iff t x)

      new : (x : String) → t ≡ x → next_stamp t x ≡ now
      new x f = rw ((eq_iff t x).1 f)

      grows : (x : String) → t ≢ x → Grows m stamp (put t r m) (next_stamp t) x
      grows x f = record {
        same = old x f;
        created = Created-put t r m;
        blocks = λ y a i. elim (blocked-put t r m y a i) [
          | inl (e, j) ↦ inr (omega (arith, new y e, past x))
          | inr (e, j) ↦ inl (j, old y e)
        ];
      }

      apart :
          (x y a b : String)
          → ((t ≡ x) × In a r.blocked_on) ⊎ ((t ≢ x) × In a (blocked m x))
          → ((t ≡ y) × In b r.blocked_on) ⊎ ((t ≢ y) × In b (blocked m y))
          → next_stamp t x ≡ next_stamp t y
          → x ≡ y
      apart x y a b (inl (f, i)) (inl (g, j)) e = sym f ∙ g
      apart x y a b (inl (f, i)) (inr (g, j)) e =
          absurd (omega (arith, new x f, old y g, past y, e))
      apart x y a b (inr (f, i)) (inl (g, j)) e =
          absurd (omega (arith, old x f, new y g, past x, e))
      apart x y a b (inr (f, i)) (inr (g, j)) e =
          distinct x y a b i j (sym (old x f) ∙ (e ∙ old y g))

  pub Ordered-compile : (d : String) → Ordered wants (compile d m)
  Ordered-compile d = elim (compile_cases d m) [
    | inl e ↦ subst (Ordered wants) (sym e) o
    | inr (e, f) ↦ subst (Ordered wants) (sym f) (Ordered-put d new_task (λ a i. absurd i) tt)
  ]
