-- ===== src/Compiler/Permits/Count.antt =====
-- compiler.go: as many tasks hold a permit as the semaphore has given out.
use protocompile.Prelude.{
  ◌≡◌, refl, sym, subst, ◌∙◌, ◌≢◌, ◌⊎◌, inl, inr, ℕ, suc, ◌-◌, ◌≤◌, Bool, true, false, List, [],
  ◌∷◌, String, str_eq, eq_iff, if◌then◌else◌, length, arith, Bool-cases, All,
}
use protocompile.Compiler.Wait.{In}

abbrev pub Once : List String → Type 0
Once [] = Unit {0}
Once (x ∷ xs) = (¬ (In x xs)) × Once xs

-- The first occurrence is removed.
remove : String → List String → List String
remove x [] = []
remove x (y ∷ ys) = if str_eq y x then ys else y ∷ remove x ys

remove-In : (x z : String) (ys : List String) → In z (remove x ys) → In z ys
unfolding remove
remove-In x z [] i = i
remove-In x z (y ∷ ys) i = elim (Bool-cases (str_eq y x)) [
  | inl e ↦ inr (rw e at i)
  | inr e ↦
      let j : In z (y ∷ remove x ys) = rw e at i in
      elim j [ inl f ↦ inl f | inr k ↦ inr (remove-In x z ys k) ]
]

remove_self : (x : String) (ys : List String) → Once ys → ¬ (In x (remove x ys))
unfolding remove
remove_self x [] u i = i
remove_self x (y ∷ ys) u i = elim (Bool-cases (str_eq y x)) [
  | inl e ↦ u.0 (subst (λ z. In z ys) (sym ((eq_iff y x).0 e)) (rw e at i))
  | inr e ↦
      let j : In x (y ∷ remove x ys) = rw e at i in
      elim j [ inl f ↦ ground (arith, eq_iff y x) | inr k ↦ remove_self x ys u.1 k ]
]

remove_other : (x z : String) (ys : List String) → x ≢ z → In z ys → In z (remove x ys)
unfolding remove
remove_other x z [] n i = i
remove_other x z (y ∷ ys) n i = elim (Bool-cases (str_eq y x)) [
  | inl e ↦ rw e (elim i [ inl f ↦ absurd (n (sym ((eq_iff y x).0 e) ∙ f)) | inr j ↦ j ])
  | inr e ↦ rw e (elim i [ inl f ↦ inl f | inr j ↦ inr (remove_other x z ys n j) ])
]

remove-Once : (x : String) (ys : List String) → Once ys → Once (remove x ys)
unfolding remove
remove-Once x [] u = tt
remove-Once x (y ∷ ys) u = elim (Bool-cases (str_eq y x)) [
  | inl e ↦ rw e u.1
  | inr e ↦ rw e (λ i. u.0 (remove-In x y ys i), remove-Once x ys u.1)
]

length-remove : (x : String) (ys : List String) → In x ys → suc (length (remove x ys)) ≡ length ys
unfolding remove
length-remove x [] i = elim i [ ]
length-remove x (y ∷ ys) i = elim (Bool-cases (str_eq y x)) [
  | inl e ↦ rw e
  | inr e ↦
      rw e (elim i [
        | inl f ↦ ground (arith, eq_iff y x)
        | inr j ↦ omega (arith, length-remove x ys j)
      ])
]

-- Different members of a list are no more than the list has.
pub length-le-members :
    (xs ys : List String) → Once xs → ((x : String) → In x xs → In x ys) → length xs ≤ length ys
length-le-members [] ys u f = omega arith
length-le-members (x ∷ xs) ys u f = omega (
  arith,
  length-remove x ys (f x (inl refl)),
  length-le-members xs (remove x ys) u.1
      (λ z i. remove_other x z ys (λ e. u.0 (subst (λ y. In y xs) (sym e) i)) (f z (inr i))),
)

-- `n` names satisfy the test.
pub record Count (test : String → Bool) (n : ℕ) : Type 0 where
  pub names : List String
  pub once : Once names
  pub size : length names ≡ n
  pub sound : (x : String) → In x names → test x ≡ true
  pub complete : (x : String) → test x ≡ true → In x names

module _ {test test' : String → Bool} {n : ℕ} (k : Count test n) where
  open k use {names, once, size, sound, complete}

  pub Count-same : ((x : String) → test' x ≡ test x) → Count test' n
  Count-same same = record {
    names = names;
    once = once;
    size = size;
    sound = λ x i. same x ∙ sound x i;
    complete = λ x e. complete x (sym (same x) ∙ e);
  }

  module _ (t : String) (same : (x : String) → t ≢ x → test' x ≡ test x) where
    pub Count-more : test t ≡ false → test' t ≡ true → Count test' (suc n)
    Count-more before after = record {
      names = t ∷ names;
      once = (λ i. cc (sound t i), once);
      size = omega (arith, size);
      sound = λ x i. new x i (Bool-cases (str_eq t x));
      complete = λ x e. elim (Bool-cases (str_eq t x)) [
        | inl f ↦ inl ((eq_iff t x).0 f)
        | inr f ↦ inr (complete x (sym (same x (apart x f)) ∙ e))
      ];
    }
      where
        apart : (x : String) → str_eq t x ≡ false → t ≢ x
        apart x f e = ground (arith, eq_iff t x)

        new :
            (x : String)
            → In x (t ∷ names)
            → (str_eq t x ≡ true) ⊎ (str_eq t x ≡ false)
            → test' x ≡ true
        new x i (inl f) = subst (λ y. test' y ≡ true) ((eq_iff t x).0 f) after
        new x (inl e) (inr f) = absurd (apart x f e)
        new x (inr i) (inr f) = same x (apart x f) ∙ sound x i

    pub Count-fewer : test t ≡ true → test' t ≡ false → Count test' (n - 1)
    Count-fewer before after = record {
      names = remove t names;
      once = remove-Once t names once;
      size = omega (arith, size, length-remove t names (complete t before));
      sound = λ x i. same x (away x i) ∙ sound x (remove-In t x names i);
      complete = λ x e.
          remove_other t x names (λ f. cc (subst (λ y. test' y ≡ true) (sym f) e))
            (complete x (sym (same x (λ f. cc (subst (λ y. test' y ≡ true) (sym f) e))) ∙ e));
    }
      where
        away : (x : String) → In x (remove t names) → t ≢ x
        away x i e = remove_self t names once (subst (λ y. In y (remove t names)) (sym e) i)

-- Different names that satisfy the test are at most `n`.
pub length-le-Count :
    {test : String → Bool} {n : ℕ} (xs : List String)
    → Count test n
    → Once xs
    → All (λ x. test x ≡ true) xs
    → length xs ≤ n
length-le-Count {test} {n} xs k u h =
    omega (arith, k.size, length-le-members xs k.names u (λ x i. k.complete x (All-In xs h x i)))
  where
    All-In :
        (ys : List String) → All (λ x. test x ≡ true) ys → (x : String) → In x ys → test x ≡ true
    All-In [] g x i = elim i [ ]
    All-In (y ∷ ys) g x (inl e) = subst (λ z. test z ≡ true) e g.0
    All-In (y ∷ ys) g x (inr i) = All-In ys g.1 x i
