-- ===== src/Tensor/Remaining.antt =====
-- `remove_dimensions_from_keys`: the keys that remain, as labels.
use native.Mathlib.Nat.{add-zero, zero-add}
use equistore.Prelude.{
  ℕ, suc, ◌+◌, ◌<◌, ◌≡◌, ◌∙◌, refl, ap, subst, inl, inr, Bool-cases, List, [], ◌∷◌, ◌++◌,
  append_assoc, length, length-snoc, map, some, get_elem?, get_elem?-append_right, contains, All,
  Absent, Distinct, Absent-of_not_contains, ℕ_discrete, arith,
}
use equistore.Errors.{Name, ok}
use equistore.Labels.{Entry, Labels, name_dec, iter}
use equistore.Labels.Builder.{build}
use equistore.Tensor.Keys.{
  IndexSets, check_dimensions, extracted, remaining_i, remaining_names, project, collect_keys,
  remaining_keys,
}
use equistore.Tensor.Sets.{IsIndexSets, insert_all}
use equistore.Tensor.Removal.{kept, kept_values, extracted-contains}

-- The positions in the list are those of the dimensions, counted from the start.
abbrev pub Picks : List ℕ → List Name → ℕ → List Name → Type 0
Picks is dimensions s [] = Unit
Picks is dimensions s (n ∷ names) =
    (contains ℕ_discrete s is ≡ contains name_dec n dimensions) × Picks is dimensions (suc s) names

Picks-from :
    (is : List ℕ) (dimensions : List Name) (s : ℕ) (names : List Name)
    → ((k : ℕ) (n : Name)
        → get_elem? names k ≡ some n
        → contains ℕ_discrete (s + k) is ≡ contains name_dec n dimensions)
    → Picks is dimensions s names
Picks-from is dimensions s [] f = tt
Picks-from is dimensions s (n ∷ names) f = (
  subst (λ i. contains ℕ_discrete i is ≡ contains name_dec n dimensions) (add-zero s) (f 0 n refl),
  Picks-from is dimensions (suc s) names (λ k m e.
      subst (λ i. contains ℕ_discrete i is ≡ contains name_dec m dimensions) (omega arith)
        (f (suc k) m e)),
)

pub extracted-Picks :
    (names dimensions : List Name) → Picks (extracted names dimensions) dimensions 0 names
extracted-Picks names dimensions =
    Picks-from (extracted names dimensions) dimensions 0 names (λ k n e.
      ap (λ i. contains ℕ_discrete i (extracted names dimensions)) (zero-add k)
      ∙ extracted-contains names dimensions k e)

pub remaining_names-kept :
    (is : List ℕ) (dimensions : List Name) (s : ℕ) (names : List Name)
    → Picks is dimensions s names
    → remaining_names is s names ≡ kept dimensions names
unfolding remaining_names
remaining_names-kept is dimensions s [] p = refl
remaining_names-kept is dimensions s (n ∷ names) p =
    rw (p.0, remaining_names-kept is dimensions (suc s) names p.1) refl

pub length-remaining_i :
    (is : List ℕ) (s : ℕ) (names : List Name)
    → length (remaining_i is s names) ≡ length (remaining_names is s names)
unfolding remaining_i remaining_names
length-remaining_i is s [] = refl
length-remaining_i is s (n ∷ names) = ground (arith, length-remaining_i is (suc s) names)

-- The keys are read at the positions that remain.
project-kept_values :
    (is : List ℕ) (dimensions : List Name) (pre : Entry) (names : List Name) (key : Entry)
    → Picks is dimensions (length pre) names
    → length key ≡ length names
    → project (remaining_i is (length pre) names) (pre ++ key)
      ≡ ok (kept_values dimensions names key)
unfolding remaining_i project
project-kept_values is dimensions pre [] key p w = refl
project-kept_values is dimensions pre (n ∷ names) [] p w = absurd (omega arith)
project-kept_values is dimensions pre (n ∷ names) (v ∷ key) p w =
    let grown : length (pre ++ v ∷ []) ≡ suc (length pre) = length-snoc pre v in
    let rec : project (remaining_i is (suc (length pre)) names) (pre ++ v ∷ key)
        ≡ ok (kept_values dimensions names key) =
      rw (grown, append_assoc pre (v ∷ []) key) at
        (project-kept_values is dimensions (pre ++ v ∷ []) names key (rw grown p.1)
          (omega arith)) in
    let here : get_elem? (pre ++ v ∷ key) (length pre) ≡ some v =
      subst (λ i. get_elem? (pre ++ v ∷ key) i ≡ some v) (add-zero (length pre))
        (get_elem?-append_right pre (v ∷ key) 0) in
    elim (Bool-cases (contains name_dec n dimensions)) [
      | inl yes' ↦ rw (p.0, yes') rec
      | inr no' ↦ rw (p.0, no', here, rec) refl
    ]

pub length-kept_values :
    (dimensions names : List Name) (key : Entry)
    → length key ≡ length names
    → length (kept_values dimensions names key) ≡ length (kept dimensions names)
length-kept_values dimensions [] key w = refl
length-kept_values dimensions (n ∷ names) [] w = absurd (omega arith)
length-kept_values dimensions (n ∷ names) (v ∷ key) w =
    let rec = length-kept_values dimensions names key (omega arith) in
    elim (Bool-cases (contains name_dec n dimensions)) [
      | inl yes' ↦ rw yes' rec
      | inr no' ↦ rw no' (ap suc rec)
    ]

pub kept-All {ℓ} :
    (P : Name → Type ℓ) (dimensions names : List Name) → All P names → All P (kept dimensions names)
kept-All P dimensions [] h = tt
kept-All P dimensions (n ∷ names) h = elim (Bool-cases (contains name_dec n dimensions)) [
  | inl yes' ↦ rw yes' (kept-All P dimensions names h.1)
  | inr no' ↦ rw no' (h.0, kept-All P dimensions names h.1)
]

kept-Absent :
    (x : Name) (dimensions names : List Name) → Absent x names → Absent x (kept dimensions names)
kept-Absent x dimensions [] h = tt
kept-Absent x dimensions (n ∷ names) h = elim (Bool-cases (contains name_dec n dimensions)) [
  | inl yes' ↦ rw yes' (kept-Absent x dimensions names h.1)
  | inr no' ↦ rw no' (h.0, kept-Absent x dimensions names h.1)
]

pub kept-Distinct :
    (dimensions names : List Name) → Distinct names → Distinct (kept dimensions names)
kept-Distinct dimensions [] h = tt
kept-Distinct dimensions (n ∷ names) h = elim (Bool-cases (contains name_dec n dimensions)) [
  | inl yes' ↦ rw yes' (kept-Distinct dimensions names h.1)
  | inr no' ↦ rw no' (kept-Absent n dimensions names h.0, kept-Distinct dimensions names h.1)
]

pub check_dimensions-ok :
    (names dimensions : List Name)
    → All (λ d. ¬ Absent d names) dimensions
    → check_dimensions names dimensions ≡ ok tt
unfolding check_dimensions
check_dimensions-ok names [] h = refl
check_dimensions-ok names (d ∷ dimensions) h = elim (Bool-cases (contains name_dec d names)) [
  | inl there ↦ rw there (check_dimensions-ok names dimensions h.1)
  | inr gone ↦ absurd (h.0 (Absent-of_not_contains name_dec d names gone))
]

module _ (I : IndexSets) (law : IsIndexSets I) where
  pub collect_keys-list :
      (set : I.IndexSet) (is : List ℕ) (dimensions names : List Name) (keys : List Entry)
      → Picks is dimensions 0 names
      → All (λ key. length key ≡ length names) keys
      → (set' : I.IndexSet) × (collect_keys I set (remaining_i is 0 names) keys ≡ ok set')
        × (I.to_list set' ≡ insert_all (I.to_list set) (map (kept_values dimensions names) keys))
  unfolding collect_keys
  collect_keys-list set is dimensions names [] p w = (set, refl, refl)
  collect_keys-list set is dimensions names (key ∷ keys) p w =
      let label = kept_values dimensions names key in
      let (set', collected, e) =
        collect_keys-list (I.insert set label) is dimensions names keys p w.1 in
      (
        set',
        rw (project-kept_values is dimensions [] names key p w.0) collected,
        e
            ∙ ap (λ xs. insert_all xs (map (kept_values dimensions names) keys))
                (law.to_list-insert set label),
      )

  -- Where a position remains the keys are collected.
  pub remaining_keys-some :
      (keys : Labels) (names : List Name) (is : List ℕ) (rows : List Entry) (set : I.IndexSet)
      (l : Labels)
      → 0 < length is
      → iter keys ≡ ok rows
      → collect_keys I I.empty is rows ≡ ok set
      → build names (I.to_list set) ≡ ok l
      → remaining_keys I keys names is ≡ ok l
  unfolding remaining_keys
  remaining_keys-some keys names [] rows set l pos a b c = absurd (omega arith)
  remaining_keys-some keys names (i ∷ is) rows set l pos a b c = rw (a, b) c
