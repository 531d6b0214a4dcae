-- ===== src/Blocks/Shape.antt =====
-- The check of data against labels accepts one shape: a sample, component or property for each entry.
use native.Mathlib.Nat.{add-zero}
use equistore.Prelude.{
  ℕ, suc, ◌+◌, ◌≡◌, refl, sym, ap, ap₂, subst, ◌∙◌, ◌↔◌, Bool, true, false, List, [], ◌∷◌, ◌++◌,
  append_assoc, length, length-append, length-snoc, get_elem?-eq-none, length-map, map, get_elem?,
  get_elem?-append_right, some, ◌==◌, ==_iff, eq_self, n_unique, Distinct, Distinct-of_n_unique,
  n_unique_of_Distinct, arith,
}
use equistore.Errors.{
  Name, Outcome, ok, panic, expect, out_of_range, wrong_component, wrong_properties, ◌>>=◌, ◌>>◌,
  guard, >>=-eq-ok, Message,
}
use equistore.Labels.{Labels, count, names_dec}
use equistore.Blocks.{at_axis, check_components, check_shape}

abbrev pub expected_shape : Labels → List Labels → Labels → List ℕ
expected_shape samples components properties =
    count samples ∷ (map count components ++ count properties ∷ [])

abbrev pub component_names : List Labels → List (List Name)
component_names = map (λ c. c.names)

-- Inversion of a guard.
pub guard-ok {ℓ} :
    {B : Type ℓ} (t : Bool) (m : Message) (k : Outcome B) {b : B}
    → (guard t m >> k) ≡ ok b
    → (t ≡ true) × (k ≡ ok b)
guard-ok true m k h = (refl, h)
guard-ok false m k h = cc

pub guard-true : (t : Bool) (m : Message) → guard t m ≡ ok tt → t ≡ true
guard-true true m h = refl
guard-true false m h = cc

at_append : (done : List ℕ) (n : ℕ) (t : List ℕ) → at_axis (done ++ n ∷ t) (length done) ≡ ok n
at_append done n t =
    let there : get_elem? (done ++ n ∷ t) (length done) ≡ some n =
      rw (← add-zero (length done)) (get_elem?-append_right done (n ∷ t) 0) in
    rw there refl

-- With the axes `done` behind it the loop reads the sizes of the components.
check_components-total :
    (done : List ℕ) (components : List Labels) (rest : List ℕ)
    → check_components (done ++ (map count components ++ rest)) (length done) components
      ≡ ok (length done + length components)
unfolding check_components
check_components-total done [] rest = rw (add-zero (length done)) refl
check_components-total done (c ∷ components) rest =
    rw (at_append done (count c) (map count components ++ rest), eq_self (count c))
      (subst
        (λ s.
          check_components s (suc (length done)) components
          ≡ ok (length done + suc (length components)))
        (append_assoc done (count c ∷ []) (map count components ++ rest))
        (subst
          (λ n.
            check_components ((done ++ count c ∷ []) ++ (map count components ++ rest)) n components
            ≡ ok (length done + suc (length components)))
          (length-snoc done (count c))
          (check_components-total (done ++ count c ∷ []) components rest
            ∙ ap ok (omega (arith, length-snoc done (count c))))))

check_components-ok :
    (done : List ℕ) (components : List Labels) (t : List ℕ) {d : ℕ}
    → check_components (done ++ t) (length done) components ≡ ok d
    → (rest : List ℕ) × (t ≡ map count components ++ rest) × (d ≡ length done + length components)
unfolding check_components
check_components-ok done [] t {d} h = (t, refl, cc (h, add-zero (length done)))
check_components-ok done (c ∷ components) [] {d} h =
    let missing : at_axis (done ++ []) (length done) ≡ panic out_of_range =
      rw (get_elem?-eq-none (done ++ []) (length done) (omega (arith, length-append done [])))
        refl in
    cc (h, ap (λ m. m >>= λ n. next n) missing)
  where
    next : ℕ → Outcome ℕ
    next n = do
      guard (n == count c) (wrong_component (length done) n (count c))
      check_components (done ++ []) (suc (length done)) components
check_components-ok done (c ∷ components) (n ∷ t) {d} h =
    let (same, h') = guard-ok _ _ _ (rw (at_append done n t) at h) in
    let step : check_components ((done ++ n ∷ []) ++ t) (length (done ++ n ∷ [])) components
        ≡ ok d =
      rw (append_assoc done (n ∷ []) t, length-snoc done n) h' in
    let (rest, e, q) = check_components-ok (done ++ n ∷ []) components t step in
    (rest, ap₂ ◌∷◌ ((==_iff n (count c)).0 same) e, omega (arith, q, length-snoc done n))

last_axis :
    (samples : ℕ) (components : List Labels) (properties : ℕ)
    → at_axis (samples ∷ (map count components ++ properties ∷ [])) (1 + length components)
      ≡ ok properties
last_axis samples components properties =
    let place : length (samples ∷ map count components) + 0 ≡ 1 + length components =
      omega (arith, length-map components count) in
    ap (λ o. expect o out_of_range)
      (rw place at (get_elem?-append_right (samples ∷ map count components) (properties ∷ []) 0))

check_shape-total :
    (samples : Labels) (components : List Labels) (properties : Labels)
    → Distinct (component_names components)
    → check_shape (expected_shape samples components properties) samples components properties
      ≡ ok tt
unfolding check_shape
check_shape-total samples components properties d =
    let dimensions : (length (expected_shape samples components properties)
          == length components + 2)
        ≡ true =
      (==_iff _ _).1 (
        omega (
          arith,
          length-append (map count components) (count properties ∷ []),
          length-map components count,
        )) in
    let different : n_unique names_dec (component_names components) ≡ length components =
      n_unique_of_Distinct names_dec (component_names components) d
      ∙ length-map components (λ c. c.names) in
    rw
      (
        dimensions,
        eq_self (count samples),
        different,
        eq_self (length components),
        check_components-total (count samples ∷ []) components (count properties ∷ []),
        last_axis (count samples) components (count properties),
        eq_self (count properties),
      )
      refl

one_left : (rest : List ℕ) → length rest ≡ 1 → (n : ℕ) × (rest ≡ n ∷ [])
one_left [] e = absurd (omega arith)
one_left (n ∷ []) e = (n, refl)
one_left (n ∷ m ∷ rest) e = absurd (omega arith)

axis_at :
    (f : ℕ) (t : List ℕ) (components : List Labels) (n d : ℕ)
    → t ≡ map count components ++ n ∷ []
    → d ≡ 1 + length components
    → at_axis (f ∷ t) d ≡ ok n
axis_at f t components n d p q = rw (p, q) (last_axis f components n)

last_checked :
    (axis : Outcome ℕ) (d n c : ℕ)
    → axis ≡ ok n
    → (axis >>= λ last. guard (last == c) (wrong_properties d last c)) ≡ ok tt
    → n ≡ c
last_checked axis d n c p h = (==_iff n c).0 (guard-true (n == c) _ (rw p at h))

check_shape-ok :
    (s : List ℕ) (samples : Labels) (components : List Labels) (properties : Labels)
    → check_shape s samples components properties ≡ ok tt
    → (s ≡ expected_shape samples components properties) × Distinct (component_names components)
unfolding check_shape
check_shape-ok [] samples components properties h = absurd (ground arith)
check_shape-ok (f ∷ t) samples components properties h =
    let (len, h₁) = guard-ok (suc (length t) == length components + 2) _ _ h in
    let (first, h₂) = guard-ok (f == count samples) _ _ h₁ in
    let (names, h₃) =
      guard-ok (n_unique names_dec (component_names components) == length components) _ _ h₂ in
    let (d, found, h₄) = >>=-eq-ok (check_components (f ∷ t) 1 components) _ h₃ in
    let (rest, e, q) = check_components-ok (f ∷ []) components t {d = d} found in
    let (n, single) = one_left rest (
      omega (
        arith,
        (==_iff _ _).0 len,
        ap length e,
        length-append (map count components) rest,
        length-map components count,
      )) in
    let t_eq : t ≡ map count components ++ n ∷ [] = e ∙ ap (◌++◌ (map count components)) single in
    let same = last_checked _ d n (count properties) (axis_at f t components n d t_eq q) h₄ in
    (
      ap₂ ◌∷◌ ((==_iff f (count samples)).0 first)
          (t_eq ∙ ap (λ m. map count components ++ m ∷ []) same),
      Distinct-of_n_unique names_dec (component_names components)
          ((==_iff _ _).0 names ∙ sym (length-map components (λ c. c.names))),
    )

-- The check passes exactly on the shape that counts the samples, the entries of each component and the
-- properties, if no two components have the same names.
pub check_shape_iff :
    (s : List ℕ) (samples : Labels) (components : List Labels) (properties : Labels)
    → (check_shape s samples components properties ≡ ok tt)
      ↔ ((s ≡ expected_shape samples components properties) × Distinct (component_names components))
check_shape_iff s samples components properties = (
  check_shape-ok s samples components properties,
  λ x. rw x.0 (check_shape-total samples components properties x.1),
)
