-- ===== src/Blocks/MovedShape.antt =====
-- `components_to_properties` keeps a basic block well-formed.
use equistore.Prelude.{
  ℕ, zero, suc, ◌+◌, ◌-◌, ◌<◌, ◌≡◌, ◌≢◌, ◌∙◌, refl, sym, ap, subst, inl, inr, true, List, [], ◌∷◌,
  ◌++◌, length, length-append, length-map, map, set, get_elem?, get_elem?-lt, Option-cases, some,
  none, ltb, lt→ltb, All, Absent, Distinct, arith,
}
use equistore.Errors.{Name, ok, expect, out_of_range, >>=-eq-ok}
use equistore.Labels.{Labels, count, size}
use equistore.Data.{Arrays, shape, reshape, swap_axes}
use equistore.Blocks.{
  BasicBlock, remove_at, find_component, moved_properties, moved_shape,
  basic_components_to_properties,
}
use equistore.Blocks.Shape.{expected_shape, component_names}
use equistore.Blocks.Basic.{IsBasic}
use equistore.Blocks.Gradient.{expect-ok}

module _ {ℓ} {A : Type ℓ} where
  remove_at-append :
      (xs ys : List A) (i : ℕ) → i < length xs → remove_at (xs ++ ys) i ≡ remove_at xs i ++ ys
  unfolding remove_at
  remove_at-append [] ys i h = absurd (omega arith)
  remove_at-append (x ∷ xs) ys zero h = refl
  remove_at-append (x ∷ xs) ys (suc i) h = ap (◌∷◌ x) (remove_at-append xs ys i (omega arith))

  set-last : (xs : List A) (x y : A) → set (xs ++ x ∷ []) (length xs) y ≡ xs ++ y ∷ []
  set-last [] x y = refl
  set-last (z ∷ xs) x y = ap (◌∷◌ z) (set-last xs x y)

  remove_at-All {κ} : (P : A → Type κ) (xs : List A) (i : ℕ) → All P xs → All P (remove_at xs i)
  unfolding remove_at
  remove_at-All P [] i h = tt
  remove_at-All P (x ∷ xs) zero h = h.1
  remove_at-All P (x ∷ xs) (suc i) h = (h.0, remove_at-All P xs i h.1)

  remove_at-Absent : (x : A) (xs : List A) (i : ℕ) → Absent x xs → Absent x (remove_at xs i)
  unfolding remove_at
  remove_at-Absent x [] i h = tt
  remove_at-Absent x (y ∷ xs) zero h = h.1
  remove_at-Absent x (y ∷ xs) (suc i) h = (h.0, remove_at-Absent x xs i h.1)

  remove_at-Distinct : (xs : List A) (i : ℕ) → Distinct xs → Distinct (remove_at xs i)
  unfolding remove_at
  remove_at-Distinct [] i h = tt
  remove_at-Distinct (x ∷ xs) zero h = h.1
  remove_at-Distinct (x ∷ xs) (suc i) h = (remove_at-Absent x xs i h.0, remove_at-Distinct xs i h.1)

map-remove_at {ℓ κ} :
    {A : Type ℓ} {B : Type κ} (f : A → B) (xs : List A) (i : ℕ)
    → map f (remove_at xs i) ≡ remove_at (map f xs) i
unfolding remove_at
map-remove_at f [] i = refl
map-remove_at f (x ∷ xs) zero = refl
map-remove_at f (x ∷ xs) (suc i) = ap (◌∷◌ (f x)) (map-remove_at f xs i)

remove_at-suc : (x : ℕ) (xs : List ℕ) (i : ℕ) → remove_at (x ∷ xs) (i + 1) ≡ x ∷ remove_at xs i
unfolding remove_at
remove_at-suc x xs i =
    let e : suc i ≡ i + 1 = omega arith in
    subst (λ j. remove_at (x ∷ xs) j ≡ x ∷ remove_at xs i) e refl

-- The new shape counts the labels after the move.
resized : ℕ → List ℕ → ℕ → ℕ → List ℕ
resized first middle last i = remove_at (first ∷ (middle ++ last ∷ [])) (i + 1)

resized-expected :
    (samples : Labels) (components : List Labels) (n i : ℕ)
    → i < length components
    → resized (count samples) (map count components) n i
      ≡ count samples ∷ (map count (remove_at components i) ++ n ∷ [])
unfolding resized
resized-expected samples components n i h =
    remove_at-suc (count samples) (map count components ++ n ∷ []) i
    ∙ ap (◌∷◌ (count samples)) (
        remove_at-append (map count components) (n ∷ []) i
          (omega (arith, length-map components count))
        ∙ ap (λ m. m ++ n ∷ []) (sym (map-remove_at count components i)))

module _ (X : Arrays) where
  moved_shape-resized :
      (first : ℕ) (middle : List ℕ) (last n i : ℕ)
      → i < length middle
      → moved_shape X (first ∷ (middle ++ last ∷ [])) i n ≡ ok (resized first middle n i)
  unfolding moved_shape resized
  moved_shape-resized first middle last n i h =
      let s = first ∷ (middle ++ last ∷ []) in
      let len : length s ≡ suc (suc (length middle)) =
        omega (arith, length-append middle (last ∷ [])) in
      let place : length s - 1 ≡ length (first ∷ middle) = omega (arith, len) in
      let a : ltb (length s - 1) (length s) ≡ true = lt→ltb _ _ (omega (arith, len)) in
      let b : ltb (i + 1) (length s) ≡ true = lt→ltb _ _ (omega (arith, len)) in
      let c : set s (length s - 1) n ≡ (first ∷ middle) ++ n ∷ [] =
        ap (λ j. set s j n) place ∙ set-last (first ∷ middle) last n in
      rw (a, b) (ap (λ t. ok (remove_at t (i + 1))) c)

  -- What the library relies on of arrays: after a reshape they have the shape.
  abbrev pub Reshapes : Type 0
  Reshapes = (a : X.Array) (s : List ℕ) (a' : X.Array) → reshape X a s ≡ ok a' → shape X a' ≡ ok s

  -- The result of the move, where the component is found.
  record IsMoved (b b' : BasicBlock X) : Type 0 where
    pub axis : ℕ
    pub inside : axis < length b.components
    pub same_samples : b'.samples ≡ b.samples
    pub rest : b'.components ≡ remove_at b.components axis
    pub shaped :
        (s s' : List ℕ) × (swapped : X.Array) × (shape X b.array ≡ ok s)
        × (moved_shape X s axis (count b'.properties) ≡ ok s')
        × (reshape X swapped s' ≡ ok b'.array)

  move_at :
      (b : BasicBlock X) (dimensions : List Name) (i : ℕ) {b' : BasicBlock X}
      → find_component dimensions 0 b.components ≡ some i
      → basic_components_to_properties X b dimensions ≡ ok b'
      → IsMoved b b'
  unfolding basic_components_to_properties
  move_at b dimensions i {b'} found h =
      let h₀ = rw (found, basic_components_to_properties) at h in
      let (component, component_e, h₁) =
        >>=-eq-ok (expect (get_elem? b.components i) out_of_range) _ h₀ in
      let (new, _, h₂) = >>=-eq-ok (moved_properties X component b.properties) _ h₁ in
      let (s, s_e, h₃) = >>=-eq-ok (shape X b.array) _ h₂ in
      let (s', s'_e, h₄) = >>=-eq-ok (moved_shape X s i (count new)) _ h₃ in
      let (swapped, _, h₅) = >>=-eq-ok (swap_axes X b.array (i + 1) (length s - 1 - 1)) _ h₄ in
      let (reshaped, reshaped_e, h₆) = >>=-eq-ok (reshape X swapped s') _ h₅ in
      let e : record b { array = reshaped; components = remove_at b.components i; properties = new }
          ≡ b' =
        cc h₆ in
      subst (IsMoved b) e (record {
        axis = i;
        inside = get_elem?-lt b.components i (expect-ok _ out_of_range component_e);
        same_samples = refl;
        rest = refl;
        shaped = (s, s', swapped, s_e, s'_e, reshaped_e);
      })

  err_of_missing :
      (b : BasicBlock X) (dimensions : List Name) {b' : BasicBlock X}
      → find_component dimensions 0 b.components ≡ none
      → basic_components_to_properties X b dimensions ≢ ok b'
  unfolding basic_components_to_properties
  err_of_missing b dimensions missing = λ h. absurd (ground (arith, missing))

  IsMoved-IsBasic : (b b' : BasicBlock X) → Reshapes → IsBasic X b → IsMoved b b' → IsBasic X b'
  IsMoved-IsBasic b b' law v m =
      let (s, s', swapped, s_e, s'_e, reshaped_e) = m.shaped in
      let n = count b'.properties in
      let s_is : s ≡ expected_shape b.samples b.components b.properties = cc (s_e, v.shaped) in
      let resized_e : moved_shape X s m.axis n
          ≡ ok (resized (count b.samples) (map count b.components) n m.axis) =
        rw s_is (
          moved_shape-resized (count b.samples) (map count b.components) (count b.properties) n
            m.axis (omega (arith, m.inside, length-map b.components count))) in
      let s'_is : s' ≡ expected_shape b.samples (remove_at b.components m.axis) b'.properties =
        cc (s'_e, resized_e) ∙ resized-expected b.samples b.components n m.axis m.inside in
      record {
        shaped = law swapped s' b'.array reshaped_e ∙ ap ok (rw (m.rest, m.same_samples) s'_is);
        different =
            rw (m.rest, map-remove_at (λ c. c.names) b.components m.axis)
              (remove_at-Distinct (component_names b.components) m.axis v.different);
        single = rw m.rest (remove_at-All (λ c. size c ≡ 1) b.components m.axis v.single);
      }

  -- Where the arrays have the shape that they are reshaped to, a component that is moved to the
  -- properties of a well-formed basic block leaves a well-formed one: its data has the shape that
  -- its labels count.
  pub basic_components_to_properties-IsBasic :
      (b b' : BasicBlock X) (dimensions : List Name)
      → Reshapes
      → IsBasic X b
      → basic_components_to_properties X b dimensions ≡ ok b'
      → IsBasic X b'
  basic_components_to_properties-IsBasic b b' dimensions law v h =
      elim (Option-cases (find_component dimensions 0 b.components)) [
        | inl missing ↦ absurd (err_of_missing b dimensions missing h)
        | inr (i, found) ↦ IsMoved-IsBasic b b' law v (move_at b dimensions i found h)
      ]
