-- ===== src/Compiler/Wait/Calls.antt =====
-- compiler.go: what `checkForDependencyCycle` and the loop over the imports add to what a task knows.
use protocompile.Prelude.{
  ◌≡◌, refl, subst, ◌≢◌, inl, inr, ℕ, Bool, true, false, none, List, [], ◌∷◌, ◌++◌, String, str_eq,
  eq_iff, All, sym, arith, Bool-cases,
}
use protocompile.Compiler.{Phase, Task, Call, enter, loop, Results, blocked, contains}
use protocompile.Compiler.Wait.{In, Created, Pending, CallOf, Newer, Covered, Checking}

pub contains-In : (xs : List String) (x : String) → contains xs x ≡ true → In x xs
unfolding contains
contains-In [] x h = cc
contains-In (y ∷ ys) x h = elim (Bool-cases (str_eq y x)) [
  | inl e ↦ inl ((eq_iff y x).0 e)
  | inr e ↦ inr (contains-In ys x (rw e at h))
]

pub contains_not-In : (xs : List String) (x : String) → contains xs x ≡ false → ¬ (In x xs)
unfolding contains
contains_not-In [] x h i = i
contains_not-In (y ∷ ys) x h (inl e) = ground (arith, eq_iff y x)
contains_not-In (y ∷ ys) x h (inr i) = contains_not-In ys x (ground (arith)) i

pub In-append_left : (x : String) (xs ys : List String) → In x xs → In x (xs ++ ys)
In-append_left x [] ys i = elim i [ ]
In-append_left x (y ∷ xs) ys (inl e) = inl e
In-append_left x (y ∷ xs) ys (inr i) = inr (In-append_left x xs ys i)

pub In-append_last : (x : String) (xs : List String) → In x (xs ++ (x ∷ []))
In-append_last x [] = inl refl
In-append_last x (y ∷ xs) = inr (In-append_last x xs)

pub blocked-none : (m : Results) (d : String) → m d ≡ none → blocked m d ≡ []
blocked-none m d e = rw (e, blocked)

module _ (m : Results) {stamp : String → ℕ} {x : String} where
  Covered-map :
      (r : Task) (stack stack' : List Call)
      → ((w : String) → Pending w stack → Covered m stamp x r stack' w)
      → (w : String) → Covered m stamp x r stack w
      → Covered m stamp x r stack' w
  Covered-map r stack stack' f w (inl i) = inl i
  Covered-map r stack stack' f w (inr (inl p)) = f w p
  Covered-map r stack stack' f w (inr (inr n)) = inr (inr n)

module _ {m : Results} {stamp : String → ℕ} {wants : Bool} {x : String} {r : Task}
    {todo : List String} where
  -- Another stack that covers what the first one had pending.
  Checking-map :
      (stack stack' : List Call)
      → ((w : String) → Pending w stack → Covered m stamp x r stack' w)
      → All (CallOf m x) stack'
      → Checking m stamp wants x r todo stack
      → Checking m stamp wants x r todo stack'
  Checking-map stack stack' f a k = record {
    own = λ d i. elim (k.own d i) [
      | inl j ↦ inl j
      | inr h ↦ inr (Covered-map m r stack stack' f d h)
    ];
    seen = λ v w i j l. Covered-map m r stack stack' f w (k.seen v w i j l);
    apart = k.apart;
    calls = a;
    imports = k.imports;
    made = k.made;
    implied = k.implied;
  }

  -- The result was checked before.
  pub enter_again :
      (v : String) (path : List String) (stack : List Call)
      → In v r.checked
      → Checking m stamp wants x r todo (enter v path ∷ stack)
      → Checking m stamp wants x r todo stack
  enter_again v path stack i k =
      Checking-map (enter v path ∷ stack) stack
        (λ w p. elim p [ inl e ↦ inl (subst (λ y. In y r.checked) e i) | inr q ↦ inr (inl q) ])
        k.calls.1 k

  pub loop_done :
      (path : List String) (stack : List Call)
      → Checking m stamp wants x r todo (loop path [] ∷ stack)
      → Checking m stamp wants x r todo stack
  loop_done path stack k =
      Checking-map (loop path [] ∷ stack) stack
        (λ w p. elim p [ inl e ↦ absurd e | inr q ↦ inr (inl q) ]) k.calls.1 k

  -- No task was made for the dependency: should one be, it will be newer.
  pub loop_skip :
      (d : String) (path deps : List String) (stack : List Call)
      → m d ≡ none
      → Checking m stamp wants x r todo (loop path (d ∷ deps) ∷ stack)
      → Checking m stamp wants x r todo (loop path deps ∷ stack)
  loop_skip d path deps stack e k =
      Checking-map (loop path (d ∷ deps) ∷ stack) (loop path deps ∷ stack) cover k.calls k
    where
      idle : (b : String) → ¬ (In b (blocked m d))
      idle b = subst (λ l. ¬ (In b l)) (sym (blocked-none m d e)) (λ i. i)

      cover :
          (w : String)
          → Pending w (loop path (d ∷ deps) ∷ stack)
          → Covered m stamp x r (loop path deps ∷ stack) w
      cover w (inl (inl f)) =
          inr (inr (subst (λ y. Newer m stamp x y) f (λ b i. absurd (idle b i))))
      cover w (inl (inr i)) = inr (inl (inl i))
      cover w (inr q) = inr (inl (inr q))

  pub loop_call :
      (d : String) (path deps : List String) (stack : List Call)
      → Created m d
      → contains path d ≡ false
      → Checking m stamp wants x r todo (loop path (d ∷ deps) ∷ stack)
      → Checking m stamp wants x r todo (enter d (path ++ (d ∷ [])) ∷ loop path deps ∷ stack)
  loop_call d path deps stack c e k =
      Checking-map (loop path (d ∷ deps) ∷ stack)
        (enter d (path ++ (d ∷ [])) ∷ loop path deps ∷ stack) cover
        ((other, c, In-append_left x path (d ∷ []) k.calls.0), k.calls) k
    where
      other : d ≢ x
      other f = contains_not-In path d e (subst (λ y. In y path) (sym f) k.calls.0)

      cover :
          (w : String)
          → Pending w (loop path (d ∷ deps) ∷ stack)
          → Covered m stamp x r (enter d (path ++ (d ∷ [])) ∷ loop path deps ∷ stack) w
      cover w (inl (inl f)) = inr (inl (inl f))
      cover w (inl (inr i)) = inr (inl (inr (inl i)))
      cover w (inr q) = inr (inl (inr (inr q)))

  -- The result is marked, and what it is blocked on is read.
  pub enter_first :
      (v : String) (path : List String) (stack : List Call)
      → Checking m stamp wants x r todo (enter v path ∷ stack)
      → Checking m stamp wants x
          (record r { checked = v ∷ r.checked })
          todo
          (loop path (blocked m v) ∷ stack)
  enter_first v path stack k = record {
    own = λ d i. elim (k.own d i) [ inl j ↦ inl j | inr h ↦ inr (cover d h) ];
    seen = λ u w i j l. elim i [
      | inl e ↦ inr (inl (inl (subst (λ y. In w (blocked m y)) (sym e) j)))
      | inr i' ↦ cover w (k.seen u w i' j l)
    ];
    apart = λ u i. elim i [ inl e ↦ subst (λ y. y ≢ x) e k.calls.0.0 | inr i' ↦ k.apart u i' ];
    calls = (k.calls.0.2, k.calls.1);
    imports = k.imports;
    made = k.made;
    implied = k.implied;
  }
    where
      r' : Task
      r' = record r { checked = v ∷ r.checked }

      cover :
          (w : String)
          → Covered m stamp x r (enter v path ∷ stack) w
          → Covered m stamp x r' (loop path (blocked m v) ∷ stack) w
      cover w (inl i) = inl (inr i)
      cover w (inr (inl (inl e))) = inl (inl e)
      cover w (inr (inl (inr p))) = inr (inl (inr p))
      cover w (inr (inr n)) = inr (inr n)

module _ {m : Results} {stamp : String → ℕ} {wants : Bool} {x : String} {r : Task}
    {todo : List String} where
  -- The next import, whose result was made.
  pub import_call :
      (d : String)
      → Created m d
      → x ≢ d
      → Checking m stamp wants x r (d ∷ todo) []
      → Checking m stamp wants x r todo (enter d (x ∷ d ∷ []) ∷ [])
  import_call d c other k = record {
    own = λ a i. elim (k.own a i) [
      | inl (inl e) ↦ inr (inr (inl (inl e)))
      | inl (inr j) ↦ inl j
      | inr h ↦ inr (cover a h)
    ];
    seen = λ v w i j l. cover w (k.seen v w i j l);
    apart = k.apart;
    calls = ((λ e. other (sym e), c, inl refl), tt);
    imports = k.imports;
    made = λ a i. elim (k.made a i) [
      | inl (inl e) ↦ inr (subst (λ y. Created m y) e c)
      | inl (inr j) ↦ inl j
      | inr h ↦ inr h
    ];
    implied = k.implied;
  }
    where
      cover :
          (w : String)
          → Covered m stamp x r [] w
          → Covered m stamp x r (enter d (x ∷ d ∷ []) ∷ []) w
      cover w (inl i) = inl i
      cover w (inr (inl p)) = absurd p
      cover w (inr (inr n)) = inr (inr n)

  -- The phase is no part of what the task knows.
  pub Checking-phase :
      (p : Phase) {stack : List Call}
      → Checking m stamp wants x r todo stack
      → Checking m stamp wants x (record r { phase = p }) todo stack
  Checking-phase p k = record {
    own = k.own;
    seen = k.seen;
    apart = k.apart;
    calls = k.calls;
    imports = k.imports;
    made = k.made;
    implied = k.implied;
  }
