-- ===== src/Tensor/Removal.antt =====
-- `remove_dimensions_from_keys`: which names and values of the keys remain.
use native.Mathlib.Nat.{add-zero, zero-add}
use equistore.Prelude.{
  ℕ, zero, suc, ◌+◌, ◌<◌, ◌≡◌, ◌∙◌, refl, sym, ap, ap₂, inl, inr, true, false, ◌||◌, Bool-cases,
  List, [], ◌∷◌, ◌++◌, some, get_elem?, some-injective, if◌then◌else◌, if_pos, if_neg, equal,
  equal_iff, contains, ℕ_discrete, arith,
}
use equistore.Errors.{Name}
use equistore.Labels.{Entry, name_dec}
use equistore.Tensor.Keys.{positions_of, extracted}

-- The names that are no dimensions.
abbrev pub kept : List Name → List Name → List Name
kept dimensions [] = []
kept dimensions (name ∷ names) =
    let rest = kept dimensions names in
    if contains name_dec name dimensions then rest else name ∷ rest

-- The values under the names that are no dimensions.
abbrev pub kept_values : List Name → List Name → Entry → Entry
kept_values dimensions (name ∷ names) (value ∷ key) =
    let rest = kept_values dimensions names key in
    if contains name_dec name dimensions then rest else value ∷ rest
kept_values dimensions [] key = []
kept_values dimensions (name ∷ names) [] = []

contains-append :
    (i : ℕ) (xs ys : List ℕ)
    → contains ℕ_discrete i (xs ++ ys) ≡ (contains ℕ_discrete i xs || contains ℕ_discrete i ys)
contains-append i [] ys = refl
contains-append i (x ∷ xs) ys = ground (arith, contains-append i xs ys)

-- Positions are counted from the start.
positions_of-before :
    (d : Name) (s : ℕ) (names : List Name) (j : ℕ)
    → j < s
    → contains ℕ_discrete j (positions_of d s names) ≡ false
unfolding positions_of
positions_of-before d s [] j h = refl
positions_of-before d s (n ∷ names) j h =
    ground (arith, positions_of-before d (suc s) names j (omega arith))

equal_self : (d : Name) → equal name_dec d d ≡ true
equal_self d = (equal_iff name_dec d d).1 refl

positions_of-contains :
    (d : Name) (s : ℕ) (names : List Name) (k : ℕ) {n : Name}
    → get_elem? names k ≡ some n
    → contains ℕ_discrete (s + k) (positions_of d s names) ≡ equal name_dec d n
unfolding positions_of
positions_of-contains d s [] k e = cc
positions_of-contains d s (m ∷ names) zero {n} e =
    let same : m ≡ n = some-injective m n e in
    let before = positions_of-before d (suc s) names s (omega arith) in
    rw (add-zero s, sym same)
      (elim (Bool-cases (equal name_dec d m)) [
        | inl yes' ↦ rw yes' (if_pos (ℕ_discrete s s) refl _ _)
        | inr no' ↦ rw no' before
      ])
positions_of-contains d s (m ∷ names) (suc k) {n} e =
    let rec = positions_of-contains d (suc s) names k e in
    let shift : s + suc k ≡ suc s + k = omega arith in
    rw shift (elim (Bool-cases (equal name_dec d m)) [
      | inl yes' ↦ rw yes' (if_neg (ℕ_discrete (suc s + k) s) (λ p. omega arith) _ _ ∙ rec)
      | inr no' ↦ rw no' rec
    ])

equal_sym : (a b : Name) → equal name_dec a b ≡ equal name_dec b a
equal_sym a b = elim (name_dec a b) [
  | yes p ↦ rw p
  | no p ↦
      if_neg (name_dec a b) p true false ∙ sym (if_neg (name_dec b a) (λ q. p (sym q)) true false)
]

contains-cons :
    (n d : Name) (dimensions : List Name)
    → contains name_dec n (d ∷ dimensions) ≡ (equal name_dec d n || contains name_dec n dimensions)
contains-cons n d dimensions = elim (name_dec n d) [
  | yes p ↦ if_pos (name_dec n d) p _ _ ∙ sym (rw (p, equal_self d))
  | no p ↦
      if_neg (name_dec n d) p _ _ ∙ sym (rw (if_neg (name_dec d n) (λ q. p (sym q)) true false))
]

-- A position is extracted exactly where its name is a dimension.
pub extracted-contains :
    (names dimensions : List Name) (k : ℕ) {n : Name}
    → get_elem? names k ≡ some n
    → contains ℕ_discrete k (extracted names dimensions) ≡ contains name_dec n dimensions
unfolding extracted
extracted-contains names [] k e = refl
extracted-contains names (d ∷ dimensions) k {n} e =
    contains-append k (positions_of d 0 names) (extracted names dimensions)
    ∙ ap₂ ◌||◌
        (ap (λ i. contains ℕ_discrete i (positions_of d 0 names)) (sym (zero-add k))
          ∙ positions_of-contains d 0 names k e)
        (extracted-contains names dimensions k e)
    ∙ sym (contains-cons n d dimensions)
