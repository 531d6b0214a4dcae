-- ===== src/Tensor/Sets.antt =====
-- What the library relies on of the sets of the crate indexmap, and lists filled through them.
use mathlib.Core.List.{Permᴰ}
use equistore.Prelude.{
  ◌≡◌, ◌≢◌, refl, inl, inr, Bool-cases, List, [], ◌∷◌, ◌++◌, All, All-append, Absent, Absent-left,
  Absent-right, Distinct, Distinct-snoc, Absent-of_not_contains, not_contains_of_Absent, contains,
}
use equistore.Labels.{Entry, entry_dec}
use equistore.Tensor.Keys.{IndexSets, insert_new}

-- The documented behaviour of `IndexSet`: it iterates in the order of insertion, and sorting changes
-- the order only.
pub record IsIndexSets (I : IndexSets) : Type 0 where
  pub to_list-empty : I.to_list I.empty ≡ []
  pub to_list-insert :
      (s : I.IndexSet) (e : Entry) → I.to_list (I.insert s e) ≡ insert_new e (I.to_list s)
  pub to_list-sort : (s : I.IndexSet) → Permᴰ (I.to_list s) (I.to_list (I.sort_unstable s))

-- All of a list inserted, one by one.
abbrev pub insert_all : List Entry → List Entry → List Entry
insert_all xs [] = xs
insert_all xs (e ∷ es) = insert_all (insert_new e xs) es

insert_new-Distinct : (e : Entry) (xs : List Entry) → Distinct xs → Distinct (insert_new e xs)
insert_new-Distinct e xs d = elim (Bool-cases (contains entry_dec e xs)) [
  | inl old ↦ rw old d
  | inr new ↦ rw new (Distinct-snoc xs e d (Absent-of_not_contains entry_dec e xs new))
]

insert_new-All {ℓ} :
    (P : Entry → Type ℓ) (e : Entry) (xs : List Entry) → P e → All P xs → All P (insert_new e xs)
insert_new-All P e xs p h = elim (Bool-cases (contains entry_dec e xs)) [
  | inl old ↦ rw old h
  | inr new ↦ rw new (All-append P xs (e ∷ []) h (p, tt))
]

-- What is absent after an insertion was absent before, and is not the new element.
insert_new-Absent :
    (x e : Entry) (xs : List Entry) → Absent x (insert_new e xs) → Absent x xs × (x ≢ e)
insert_new-Absent x e xs a = elim (Bool-cases (contains entry_dec e xs)) [
  | inl old ↦
      let a' : Absent x xs = rw old at a in
      (a', λ p. cc (old, not_contains_of_Absent entry_dec e xs (rw p at a')))
  | inr new ↦
      let a' : Absent x (xs ++ e ∷ []) = rw new at a in
      (Absent-left x xs (e ∷ []) a', (Absent-right x xs (e ∷ []) a').0)
]

pub insert_all-Distinct : (xs es : List Entry) → Distinct xs → Distinct (insert_all xs es)
insert_all-Distinct xs [] d = d
insert_all-Distinct xs (e ∷ es) d =
    insert_all-Distinct (insert_new e xs) es (insert_new-Distinct e xs d)

pub insert_all-All {ℓ} :
    (P : Entry → Type ℓ) (xs es : List Entry) → All P xs → All P es → All P (insert_all xs es)
insert_all-All P xs [] h k = h
insert_all-All P xs (e ∷ es) h k =
    insert_all-All P (insert_new e xs) es (insert_new-All P e xs k.0 h) k.1

pub insert_all-Absent :
    (x : Entry) (xs es : List Entry) → Absent x (insert_all xs es) → Absent x xs × Absent x es
insert_all-Absent x xs [] a = (a, tt)
insert_all-Absent x xs (e ∷ es) a =
    let (before, later) = insert_all-Absent x (insert_new e xs) es a in
    let (old, other) = insert_new-Absent x e xs before in (old, (other, later))

pub insert_all-append :
    (xs es fs : List Entry) → insert_all xs (es ++ fs) ≡ insert_all (insert_all xs es) fs
insert_all-append xs [] fs = refl
insert_all-append xs (e ∷ es) fs = insert_all-append (insert_new e xs) es fs
