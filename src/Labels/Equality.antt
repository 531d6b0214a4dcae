-- ===== src/Labels/Equality.antt =====
-- The derived equality of labels compares three fields, and decides equality of names and rows.
use native.Mathlib.Nat.{zero-add, add-zero}
use equistore.Prelude.{
  ◌≡◌, refl, sym, ap, ◌∙◌, ◌↔◌, inl, inr, true, List, [], ◌∷◌, ◌++◌, append_assoc, length, some,
  ◌==◌, arith, enumerate, flatten, length-snoc, Distinct, Bool-cases, equal_iff, eq_self,
  &&-eq-true, get_elem?, get_elem?-position_from, ==_iff, get_elem?-append_right,
}
use equistore.Errors.{Name}
use equistore.Labels.{Entry, Labels, IsLabels, entry_dec, names_dec, iter, same_values, labels_eq}
use equistore.Labels.Lookup.{iter-rows}

iter-eq : (a b : Labels) → a.names ≡ b.names → a.values ≡ b.values → iter a ≡ iter b
unfolding iter
iter-eq a b p q = rw (p, q) refl

-- Each entry of a table of distinct keys is found in it.
same_values-suffix :
    (done rows : List Entry)
    → Distinct (done ++ rows)
    → same_values (enumerate (length done) rows) (enumerate 0 (done ++ rows)) ≡ true
unfolding same_values
same_values-suffix done [] d = refl
same_values-suffix done (e ∷ rows) d =
    let here : get_elem? (done ++ e ∷ rows) (length done) ≡ some e =
      rw (← add-zero (length done)) (get_elem?-append_right done (e ∷ rows) 0) in
    let found = get_elem?-position_from entry_dec 0 e (done ++ e ∷ rows) (length done) d here in
    rw (found, zero-add (length done), eq_self (length done))
      (rw (length-snoc done e, append_assoc done (e ∷ []) rows) at
        (same_values-suffix (done ++ e ∷ []) rows (rw (append_assoc done (e ∷ []) rows) d)))

module _ {names names' : List Name} {rows rows' : List Entry} {a b : Labels}
    (v : IsLabels names rows a) (v' : IsLabels names' rows' b) where
  labels_eq-rows : labels_eq a b ≡ true → (names ≡ names') × (rows ≡ rows')
  unfolding labels_eq
  labels_eq-rows h =
      let (n, h') = (&&-eq-true _ _).0 h in
      let (w, _) = (&&-eq-true _ _).0 h' in
      let same_names : a.names ≡ b.names = (equal_iff names_dec _ _).0 n in
      let same_values : a.values ≡ b.values = (equal_iff entry_dec _ _).0 w in
      let names_eq : names ≡ names' = cc (same_names, v.same_names, v'.same_names) in
      (
        names_eq,
        elim (Bool-cases (length names == 0)) [
          | inl e ↦
              let none_here : length names ≡ 0 = (==_iff _ _).0 e in
              v.nameless none_here ∙ sym (v'.nameless (ap length (sym names_eq) ∙ none_here))
          | inr e ↦
              let here = iter-rows v (ground arith) in
              let there = iter-rows v' (rw (← names_eq) (ground arith)) in
              cc (here, there, iter-eq a b same_names same_values)
        ],
      )

  labels_eq_refl : (names ≡ names') × (rows ≡ rows') → labels_eq a b ≡ true
  unfolding labels_eq
  labels_eq_refl (p, q) =
      rw
        (
          (equal_iff names_dec a.names b.names).1 (cc (p, v.same_names, v'.same_names)),
          (equal_iff entry_dec a.values b.values).1 (v.values ∙ ap flatten q ∙ sym v'.values),
          v.positions,
          v'.positions,
          q,
          eq_self (length (enumerate 0 rows')),
        )
        (same_values-suffix [] rows' v'.distinct)

  -- Two labels, each with names and rows of its own, test as equal exactly where their names and their
  -- rows are.
  pub labels_eq_iff : (labels_eq a b ≡ true) ↔ ((names ≡ names') × (rows ≡ rows'))
  labels_eq_iff = (labels_eq-rows, labels_eq_refl)
