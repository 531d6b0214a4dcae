-- ===== src/Tensor/Matching.antt =====
-- `blocks_matching`: which blocks a selection of key values finds.
use mathlib.Core.List.{lookup}
use native.Mathlib.Nat.{zero-add}
use equistore.Prelude.{
  ℕ, zero, suc, ◌+◌, ◌<◌, ◌≡◌, ◌∙◌, refl, sym, ap, subst, ◌↔◌, ◌⊎◌, ◌==◌, inl, inr, Bool, true,
  false, Bool-cases, Option-cases, List, [], ◌∷◌, length, some, get_elem?, get_elem?-lt,
  get_elem?_of_lt, if◌then◌else◌, equal, equal_iff, ℤ_discrete, enumerate, All, Absent, Distinct,
  Absent-of_none, get_elem?-position_from, position_from-get_elem?, arith, some-injective,
}
use equistore.Errors.{Name, ok}
use equistore.Labels.{Entry, LabelValue, Labels, IsLabels, name_dec, size}
use equistore.Labels.Lookup.{iter-rows, count-rows}
use equistore.Data.{Arrays}
use equistore.Tensor.{
  TensorMap, find_dimensions, matches, matching_from, matching_rows, blocks_matching,
}

-- A value is in the list.
abbrev pub Listed {ℓ} : {A : Type ℓ} → A → List A → Type ℓ
Listed a xs = (j : ℕ) × (get_elem? xs j ≡ some a)

-- The key has the value at the dimension of that name.
abbrev pub HasValue : List Name → Entry → Name → LabelValue → Type 0
HasValue key_names key name value =
    (d : ℕ) × (get_elem? key_names d ≡ some name) × (get_elem? key d ≡ some value)

-- The key has each of the values at the dimension of its name.
abbrev pub Agrees : List Name → Entry → List Name → List LabelValue → Type 0
Agrees key_names key (name ∷ names) (value ∷ values) =
    HasValue key_names key name value × Agrees key_names key names values
Agrees key_names key (name ∷ names) [] = Unit
Agrees key_names key [] values = Unit

-- The dimensions are where the names stand.
abbrev AreAt : List Name → List Name → List ℕ → Type 0
AreAt key_names (name ∷ names) (d ∷ dimensions) =
    (get_elem? key_names d ≡ some name) × AreAt key_names names dimensions
AreAt key_names [] [] = Unit
AreAt key_names (name ∷ names) [] = ⊥
AreAt key_names [] (d ∷ dimensions) = ⊥

Listed-split :
    (b : Bool) (a : ℕ) (xs : List ℕ) (i : ℕ)
    → Listed i (if b then a ∷ xs else xs)
    → ((b ≡ true) × (i ≡ a)) ⊎ Listed i xs
Listed-split true a xs i (zero, e) = inl (refl, sym (some-injective a i e))
Listed-split true a xs i (suc j, e) = inr (j, e)
Listed-split false a xs i h = inr h

Listed-head :
    (b : Bool) (a : ℕ) (xs : List ℕ) (i : ℕ)
    → b ≡ true
    → i ≡ a
    → Listed i (if b then a ∷ xs else xs)
Listed-head b a xs i h q = rw (h, q) (0, refl)

Listed-tail :
    (b : Bool) (a : ℕ) (xs : List ℕ) (i : ℕ) → Listed i xs → Listed i (if b then a ∷ xs else xs)
Listed-tail true a xs i (j, e) = (suc j, e)
Listed-tail false a xs i h = h

some_key_names :
    (key_names names : List Name)
    → 0 < length names
    → All (λ name. ¬ Absent name key_names) names
    → 0 < length key_names
some_key_names [] [] pos known = absurd (omega arith)
some_key_names [] (n ∷ names) pos known = absurd (known.0 tt)
some_key_names (k ∷ key_names) names pos known = omega arith

module _ (key_names : List Name) where
  -- One of the keys, which are numbered from `start` on, has the number `i` and agrees.
  abbrev Hit : ℕ → List Name → List LabelValue → List Entry → ℕ → Type 0
  Hit start names values keys i =
      (k : ℕ) × (key : Entry) × (i ≡ start + k)
      × (get_elem? keys k ≡ some key)
      × Agrees key_names key names values

  Hit-split :
      (start : ℕ) (names : List Name) (values : List LabelValue) (key : Entry) (keys : List Entry)
      (i : ℕ)
      → Hit start names values (key ∷ keys) i
      → ((i ≡ start) × Agrees key_names key names values) ⊎ Hit (suc start) names values keys i
  Hit-split start names values key keys i (zero, key', q, g, a) = inl (
    omega arith,
    subst (λ e. Agrees key_names e names values) (sym (some-injective key key' g)) a,
  )
  Hit-split start names values key keys i (suc k, key', q, g, a) = inr (k, key', omega arith, g, a)

  Hit-head :
      (start : ℕ) (names : List Name) (values : List LabelValue) (key : Entry) (keys : List Entry)
      (i : ℕ)
      → i ≡ start
      → Agrees key_names key names values
      → Hit start names values (key ∷ keys) i
  Hit-head start names values key keys i q a = (0, key, omega arith, refl, a)

  Hit-tail :
      (start : ℕ) (names : List Name) (values : List LabelValue) (key : Entry) (keys : List Entry)
      (i : ℕ)
      → Hit (suc start) names values keys i
      → Hit start names values (key ∷ keys) i
  Hit-tail start names values key keys i (k, key', q, g, a) = (suc k, key', omega arith, g, a)

  find_dimensions-AreAt :
      (names : List Name)
      → All (λ name. ¬ Absent name key_names) names
      → (dimensions : List ℕ) × (find_dimensions names key_names ≡ ok dimensions)
        × AreAt key_names names dimensions
  unfolding find_dimensions
  find_dimensions-AreAt [] h = ([], refl, tt)
  find_dimensions-AreAt (name ∷ names) h =
      let (dimensions, found, at) = find_dimensions-AreAt names h.1 in
      elim (Option-cases (lookup name_dec name (enumerate 0 key_names))) [
        | inl miss ↦ absurd (h.0 (Absent-of_none name_dec 0 name key_names miss))
        | inr (d, hit) ↦
            let (k, q, there) = position_from-get_elem? name_dec 0 name key_names hit in
            (d ∷ dimensions, rw (hit, find_dimensions, found) refl, (rw (q ∙ zero-add k) there, at))
      ]

  module _ (distinct : Distinct key_names) where
    one_place :
        (name : Name) (d d' : ℕ)
        → get_elem? key_names d ≡ some name
        → get_elem? key_names d' ≡ some name
        → d ≡ d'
    one_place name d d' e e' =
        let p = get_elem?-position_from name_dec 0 name key_names d distinct e in
        let p' = get_elem?-position_from name_dec 0 name key_names d' distinct e' in
        omega (arith, some-injective (0 + d) (0 + d') (sym p ∙ p'))

    matches-Agrees :
        (key : Entry) (names : List Name) (dimensions : List ℕ) (values : List LabelValue)
        → length key ≡ length key_names
        → AreAt key_names names dimensions
        → (b : Bool) × (matches dimensions values key ≡ ok b)
          × ((b ≡ true) ↔ Agrees key_names key names values)
    unfolding matches
    matches-Agrees key [] [] values w at = (true, refl, (λ _. tt, λ _. refl))
    matches-Agrees key [] (d ∷ dimensions) values w at = absurd at
    matches-Agrees key (name ∷ names) [] values w at = absurd at
    matches-Agrees key (name ∷ names) (d ∷ dimensions) [] w at = (true, refl, (λ _. tt, λ _. refl))
    matches-Agrees key (name ∷ names) (d ∷ dimensions) (value ∷ values) w at =
        let (x, x_at) = get_elem?_of_lt key d (omega (arith, get_elem?-lt key_names d at.0)) in
        let (b, rest, iff) = matches-Agrees key names dimensions values w at.1 in
        elim (Bool-cases (equal ℤ_discrete x value)) [
          | inl same ↦ (
            b,
            rw (x_at, same) rest,
            (
              λ h. ((d, at.0, x_at ∙ ap some ((equal_iff ℤ_discrete x value).0 same)), iff.0 h),
              λ h. iff.1 h.1,
            ),
          )
          | inr other ↦ (
            false,
            rw (x_at, other) refl,
            (
              λ h. cc,
              λ h.
                  let (d', named, found) = h.0 in
                  let here : get_elem? key d ≡ some value =
                    rw (one_place name d d' at.0 named) found in
                  cc (
                    other,
                    (equal_iff ℤ_discrete x value).1 (some-injective x value (sym x_at ∙ here)),
                  ),
            ),
          )
        ]

    matching_from-Listed :
        (start : ℕ) (names : List Name) (dimensions : List ℕ) (values : List LabelValue)
        (keys : List Entry)
        → All (λ key. length key ≡ length key_names) keys
        → AreAt key_names names dimensions
        → (is : List ℕ) × (matching_from start dimensions values keys ≡ ok is)
          × ((i : ℕ) → Listed i is ↔ Hit start names values keys i)
    unfolding matching_from
    matching_from-Listed start names dimensions values [] w at =
        ([], refl, λ i. (λ h. cc (h.1), λ h. cc (h.3)))
    matching_from-Listed start names dimensions values (key ∷ keys) w at =
        let (b, tested, iff) = matches-Agrees key names dimensions values w.0 at in
        let (is, rest, iff') =
          matching_from-Listed (suc start) names dimensions values keys w.1 at in
        (
          if b then start ∷ is else is,
          rw (tested, rest) refl,
          λ i. (
            λ h. elim (Listed-split b start is i h) [
              | inl (yes_b, q) ↦ Hit-head start names values key keys i q (iff.0 yes_b)
              | inr later ↦ Hit-tail start names values key keys i ((iff' i).0 later)
            ],
            λ h. elim (Hit-split start names values key keys i h) [
              | inl (q, a) ↦ Listed-head b start is i (iff.1 a) q
              | inr later ↦ Listed-tail b start is i ((iff' i).1 later)
            ],
          ),
        )

  module _ (X : Arrays) (tensor : TensorMap X) (keys : List Entry) (selection : Labels)
      (names : List Name) (values : Entry) (v : IsLabels key_names keys tensor.keys)
      (s : IsLabels names (values ∷ []) selection) where
    -- A selection of one row, by at least one name and by names of the keys only (which are distinct),
    -- succeeds and gives the numbers of just those keys that have each selected value at the dimension
    -- of its name.
    pub blocks_matching_iff :
        Distinct key_names
        → 0 < length names
        → All (λ name. ¬ Absent name key_names) names
        → (is : List ℕ) × (blocks_matching X tensor selection ≡ ok is)
          × ((i : ℕ)
              → Listed i is ↔ (
                  (key : Entry) × (get_elem? keys i ≡ some key)
                  × Agrees key_names key names values))
    unfolding blocks_matching matching_rows
    blocks_matching_iff d pos known =
        let (dimensions, found, at) = find_dimensions-AreAt names known in
        let (is, matched, iff) =
          matching_from-Listed d 0 names dimensions values keys v.widths at in
        let some_names : (size selection == 0) ≡ false = rw s.same_names (ground arith) in
        (
          is,
          rw
              (
                some_names,
                count-rows s,
                iter-rows s pos,
                iter-rows v (some_key_names key_names names pos known),
                s.same_names,
                v.same_names,
                found,
              )
              matched,
          λ i. (
            λ h. let (k, key, q, g, a) = (iff i).0 h in (key, rw (q ∙ zero-add k) g, a),
            λ x. (iff i).1 (i, x.0, sym (zero-add i), x.1, x.2),
          ),
        )
