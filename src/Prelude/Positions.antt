-- ===== src/Prelude/Positions.antt =====
-- Tables of distinct keys: each key is stored beside its position, and is looked up by equality.
use Prim.Native.Nat.{ℕ, zero, suc, ◌+◌, ◌≤◌}
use mathlib.Core.Path.{◌≡◌, refl, ap, sym, subst, ◌∙◌}
use mathlib.Core.Logic.{◌≢◌, inl, inr, ite, if_pos, if_neg, ◌↔◌}
use mathlib.Core.Bool.{Bool, true, false}
use mathlib.Core.List.{List, [], ◌∷◌, ◌++◌, lookup, map, Permᴰ}
use mathlib.Core.Option.{Option, none, some}
use native.Mathlib.Omega.{arith}
use native.Mathlib.Nat.{add-zero, add-suc, suc-add}
use equistore.Prelude.Tests.{if◌then◌else◌, Bool-cases}
use equistore.Prelude.Lists.{length, get_elem?, All}

module _ {ℓ} {A : Type ℓ} where
  -- `x` is no element.
  abbrev pub Absent : A → List A → Type ℓ
  Absent x [] = Unit
  Absent x (y ∷ ys) = (x ≢ y) × Absent x ys

  -- No element occurs twice.
  abbrev pub Distinct : List A → Type ℓ
  Distinct [] = Unit
  Distinct (x ∷ xs) = Absent x xs × Distinct xs

  abbrev pub enumerate : ℕ → List A → List (A × ℕ)
  enumerate i [] = []
  enumerate i (x ∷ xs) = (x, i) ∷ enumerate (suc i) xs

  pub length-enumerate : (i : ℕ) (xs : List A) → length (enumerate i xs) ≡ length xs
  length-enumerate i [] = refl
  length-enumerate i (x ∷ xs) = ap suc (length-enumerate (suc i) xs)

  pub enumerate-snoc :
      (i : ℕ) (xs : List A) (x : A)
      → enumerate i (xs ++ x ∷ []) ≡ enumerate i xs ++ (x, i + length xs) ∷ []
  enumerate-snoc i [] x = rw add-zero
  enumerate-snoc i (y ∷ xs) x = rw (enumerate-snoc (suc i) xs x, add-suc, suc-add)

  pub Absent-snoc : (y : A) (xs : List A) (x : A) → Absent y xs → y ≢ x → Absent y (xs ++ x ∷ [])
  Absent-snoc y [] x h n = (n, tt)
  Absent-snoc y (z ∷ xs) x h n = (h.0, Absent-snoc y xs x h.1 n)

  pub Distinct-snoc : (xs : List A) (x : A) → Distinct xs → Absent x xs → Distinct (xs ++ x ∷ [])
  Distinct-snoc [] x d a = (tt, tt)
  Distinct-snoc (y ∷ xs) x d a =
      (Absent-snoc y xs x d.0 (λ e. a.0 (sym e)), Distinct-snoc xs x d.1 a.1)

  pub Absent-get_elem? :
      (x : A) (xs : List A) (i : ℕ) {y : A} → Absent x xs → get_elem? xs i ≡ some y → x ≢ y
  Absent-get_elem? x [] i a e = cc
  Absent-get_elem? x (z ∷ xs) zero {y} a e = λ p. a.0 (cc)
  Absent-get_elem? x (z ∷ xs) (suc i) a e = Absent-get_elem? x xs i a.1 e

module _ {ℓ} {A : Type ℓ} (dec : Discrete A) where
  -- The position of the first element that is `x`, counted from `i`.
  abbrev pub position_from : ℕ → A → List A → Option ℕ
  position_from i x xs = lookup dec x (enumerate i xs)

  pub Absent-of_none : (i : ℕ) (x : A) (xs : List A) → position_from i x xs ≡ none → Absent x xs
  unfolding lookup
  Absent-of_none i x [] e = tt
  Absent-of_none i x (y ∷ ys) e = elim (dec x y) [
    | yes p ↦ absurd (ground arith)
    | no p ↦ (p, Absent-of_none (suc i) x ys (ground arith))
  ]

  pub none_of_Absent : (i : ℕ) (x : A) (xs : List A) → Absent x xs → position_from i x xs ≡ none
  unfolding lookup
  none_of_Absent i x [] a = refl
  none_of_Absent i x (y ∷ ys) a = rw (if_neg _ a.0) (none_of_Absent (suc i) x ys a.1)

  pub position_from-get_elem? :
      (i : ℕ) (x : A) (xs : List A) {j : ℕ}
      → position_from i x xs ≡ some j
      → (k : ℕ) × (j ≡ i + k) × (get_elem? xs k ≡ some x)
  unfolding lookup
  position_from-get_elem? i x [] e = cc
  position_from-get_elem? i x (y ∷ ys) {j} e = elim (dec x y) [
    | yes p ↦ (0, ground (arith, add-zero i), ground arith)
    | no p ↦
        let (k, q, r) = position_from-get_elem? (suc i) x ys {j = j} (ground arith) in
        (suc k, omega arith, r)
  ]

  pub get_elem?-position_from :
      (i : ℕ) (x : A) (xs : List A) (j : ℕ)
      → Distinct xs
      → get_elem? xs j ≡ some x
      → position_from i x xs ≡ some (i + j)
  unfolding lookup
  get_elem?-position_from i x [] j d e = cc
  get_elem?-position_from i x (y ∷ ys) zero d e = ground (arith, add-zero i)
  get_elem?-position_from i x (y ∷ ys) (suc j) d e =
      ground
        (arith, get_elem?-position_from (suc i) x ys j d.1 e, Absent-get_elem? y ys j {y = x} d.0 e)

  pub lookup-append_none :
      {B : Type ℓ} (x : A) (xs ys : List (A × B))
      → lookup dec x xs ≡ none
      → lookup dec x (xs ++ ys) ≡ lookup dec x ys
  unfolding lookup
  lookup-append_none x [] ys e = refl
  lookup-append_none x (y ∷ xs) ys e = ground (arith, lookup-append_none x xs ys)

  pub lookup-append_other :
      {B : Type ℓ} (x y : A) (b : B) (xs : List (A × B))
      → x ≢ y
      → lookup dec x (xs ++ (y, b) ∷ []) ≡ lookup dec x xs
  unfolding lookup
  lookup-append_other x y b [] n = if_neg (dec x y) n _ _
  lookup-append_other x y b (e ∷ xs) n = ground (arith, lookup-append_other x y b xs n)

  pub lookup_self : {B : Type ℓ} (x : A) (b : B) → lookup dec x ((x, b) ∷ []) ≡ some b
  unfolding lookup
  lookup_self x b = if_pos (dec x x) refl _ _

  -- A key that is not found is none of the keys.
  pub Absent-keys :
      {B : Type ℓ} (x : A) (xs : List (A × B))
      → lookup dec x xs ≡ none
      → Absent x (map (λ e. e.0) xs)
  unfolding lookup
  Absent-keys x [] h = tt
  Absent-keys x (e ∷ xs) h = elim (dec x e.0) [
    | yes p ↦ absurd (ground arith)
    | no p ↦ (p, Absent-keys x xs (ground arith))
  ]

  -- The comparison as a test.
  abbrev pub equal : A → A → Bool
  equal x y = ite (dec x y) true false

  pub equal_iff : (x y : A) → (equal x y ≡ true) ↔ (x ≡ y)
  equal_iff x y = elim (dec x y) [
    | yes p ↦ (λ h. p, λ h. if_pos (dec x y) p true false)
    | no p ↦ (λ h. cc (h, if_neg (dec x y) p true false), λ h. absurd (p h))
  ]

  abbrev pub contains : A → List A → Bool
  contains x [] = false
  contains x (y ∷ ys) = ite (dec x y) true (contains x ys)

  -- The number of different elements.
  abbrev pub n_unique : List A → ℕ
  n_unique [] = 0
  n_unique (x ∷ xs) = let rest = n_unique xs in if contains x xs then rest else suc rest

  pub Absent-of_not_contains : (x : A) (xs : List A) → contains x xs ≡ false → Absent x xs
  Absent-of_not_contains x [] e = tt
  Absent-of_not_contains x (y ∷ ys) e = elim (dec x y) [
    | yes p ↦ absurd (ground arith)
    | no p ↦ (p, Absent-of_not_contains x ys (ground arith))
  ]

  pub not_contains_of_Absent : (x : A) (xs : List A) → Absent x xs → contains x xs ≡ false
  not_contains_of_Absent x [] a = refl
  not_contains_of_Absent x (y ∷ ys) a = rw (if_neg _ a.0) (not_contains_of_Absent x ys a.1)

  n_unique-le : (xs : List A) → n_unique xs ≤ length xs
  n_unique-le [] = omega arith
  n_unique-le (x ∷ xs) = ground (arith, n_unique-le xs)

  pub Distinct-of_n_unique : (xs : List A) → n_unique xs ≡ length xs → Distinct xs
  Distinct-of_n_unique [] e = tt
  Distinct-of_n_unique (x ∷ xs) e = elim (Bool-cases (contains x xs)) [
    | inl h ↦ absurd (ground (arith, n_unique-le xs))
    | inr h ↦ (Absent-of_not_contains x xs h, Distinct-of_n_unique xs (ground arith))
  ]

  pub n_unique_of_Distinct : (xs : List A) → Distinct xs → n_unique xs ≡ length xs
  n_unique_of_Distinct [] d = refl
  n_unique_of_Distinct (x ∷ xs) d =
      rw (not_contains_of_Absent x xs d.0) (ap suc (n_unique_of_Distinct xs d.1))

module _ {ℓ} {A : Type ℓ} where
  pub Absent-append : (x : A) (xs ys : List A) → Absent x xs → Absent x ys → Absent x (xs ++ ys)
  Absent-append x [] ys h k = k
  Absent-append x (y ∷ xs) ys h k = (h.0, Absent-append x xs ys h.1 k)

  pub Absent-left : (x : A) (xs ys : List A) → Absent x (xs ++ ys) → Absent x xs
  Absent-left x [] ys h = tt
  Absent-left x (y ∷ xs) ys h = (h.0, Absent-left x xs ys h.1)

  Absent-head : (x y : A) (xs ys : List A) → Absent y (xs ++ x ∷ ys) → y ≢ x
  Absent-head x y [] ys h = h.0
  Absent-head x y (z ∷ xs) ys h = Absent-head x y xs ys h.1

  pub Distinct-left : (xs ys : List A) → Distinct (xs ++ ys) → Distinct xs
  Distinct-left [] ys d = tt
  Distinct-left (x ∷ xs) ys d = (Absent-left x xs ys d.0, Distinct-left xs ys d.1)

  -- An element in the middle differs from all before it.
  pub Absent-of_Distinct :
      (xs : List A) (x : A) (ys : List A) → Distinct (xs ++ x ∷ ys) → Absent x xs
  Absent-of_Distinct [] x ys d = tt
  Absent-of_Distinct (y ∷ xs) x ys d =
      (λ e. Absent-head x y xs ys d.0 (sym e), Absent-of_Distinct xs x ys d.1)

  pub Absent-right : (x : A) (xs ys : List A) → Absent x (xs ++ ys) → Absent x ys
  Absent-right x [] ys h = h
  Absent-right x (y ∷ xs) ys h = Absent-right x xs ys h.1

  pub Absent-perm : {xs ys : List A} (x : A) → Permᴰ xs ys → Absent x xs → Absent x ys
  Absent-perm x Permᴰ.nil h = tt
  Absent-perm x (Permᴰ.cons e p) h = (λ q. h.0 (q ∙ sym e), Absent-perm x p h.1)
  Absent-perm x (Permᴰ.swap e f) h = (λ q. h.1.0 (q ∙ sym f), (λ q. h.0 (q ∙ sym e), h.1.1))
  Absent-perm x (Permᴰ.trans p q) h = Absent-perm x q (Absent-perm x p h)

  pub Distinct-perm : {xs ys : List A} → Permᴰ xs ys → Distinct xs → Distinct ys
  Distinct-perm Permᴰ.nil d = tt
  Distinct-perm (Permᴰ.cons {l₂ = ys} e p) d =
      (subst (λ y. Absent y ys) e (Absent-perm _ p d.0), Distinct-perm p d.1)
  Distinct-perm (Permᴰ.swap {l = l} e f) d = (
    (λ q. d.0.0 (e ∙ sym q ∙ sym f), subst (λ y. Absent y l) f d.1.0),
    (subst (λ y. Absent y l) e d.0.1, d.1.1),
  )
  Distinct-perm (Permᴰ.trans p q) d = Distinct-perm q (Distinct-perm p d)

  pub All-perm {κ} : (P : A → Type κ) {xs ys : List A} → Permᴰ xs ys → All P xs → All P ys
  All-perm P Permᴰ.nil h = tt
  All-perm P (Permᴰ.cons e p) h = (subst P e h.0, All-perm P p h.1)
  All-perm P (Permᴰ.swap e f) h = (subst P f h.1.0, (subst P e h.0, h.1.1))
  All-perm P (Permᴰ.trans p q) h = All-perm P q (All-perm P p h)

  pub perm_refl : (xs : List A) → Permᴰ xs xs
  perm_refl [] = Permᴰ.nil
  perm_refl (x ∷ xs) = Permᴰ.cons refl (perm_refl xs)

  pub perm_symm : {xs ys : List A} → Permᴰ xs ys → Permᴰ ys xs
  perm_symm Permᴰ.nil = Permᴰ.nil
  perm_symm (Permᴰ.cons e p) = Permᴰ.cons (sym e) (perm_symm p)
  perm_symm (Permᴰ.swap e f) = Permᴰ.swap (sym f) (sym e)
  perm_symm (Permᴰ.trans p q) = Permᴰ.trans (perm_symm q) (perm_symm p)
