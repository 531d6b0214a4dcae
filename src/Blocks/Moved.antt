-- ===== src/Blocks/Moved.antt =====
-- `components_to_properties`: the new properties.
use equistore.Prelude.{
  ℕ, ◌+◌, ◌<◌, ◌≡◌, ◌∙◌, refl, sym, ap, subst, List, [], ◌∷◌, ◌++◌, append_assoc, append-nil,
  length, length-append, map, All, All-append, Absent, Absent-append, Distinct, Distinct-left,
  arith,
}
use equistore.Errors.{Name, ok}
use equistore.Labels.{Entry, Labels, LabelsBuilder, IsLabels}
use equistore.Labels.Builder.{new}
use equistore.Labels.Building.{IsBuilder, add_all-new}
use equistore.Labels.Finish.{ValidNames, new-total, finish-total, kept_rows_all}
use equistore.Labels.Lookup.{iter-rows}
use equistore.Labels.Prefixes.{behind_other, Distinct-behind, All-Absent}
use equistore.Data.{Arrays}
use equistore.Blocks.{add_products, moved_properties}

-- Each of the first rows before each of the others.
abbrev pub product : List Entry → List Entry → List Entry
product [] others = []
product (row ∷ rows) others = map (λ o. row ++ o) others ++ product rows others

product-Absent :
    (row e : Entry) (rows others : List Entry)
    → All (λ r. length r ≡ length row) rows
    → Absent row rows
    → Absent (row ++ e) (product rows others)
product-Absent row e [] others w a = tt
product-Absent row e (r ∷ rows) others w a =
    Absent-append (row ++ e) (map (λ o. r ++ o) others) (product rows others)
      (behind_other row r e others (sym w.0) a.0) (product-Absent row e rows others w.1 a.1)

product-Distinct :
    (n : ℕ) (rows others : List Entry)
    → All (λ r. length r ≡ n) rows
    → Distinct rows
    → Distinct others
    → Distinct (product rows others)
product-Distinct n [] others w d d' = tt
product-Distinct n (row ∷ rows) others w d d' =
    Distinct-behind row others (product rows others) d'
      (All-Absent row others (product rows others)
        (λ e. product-Absent row e rows others (rw w.0 w.1) d.0))
      (product-Distinct n rows others w.1 d.1 d')

behind-wide :
    (n : ℕ) (row : Entry) (others : List Entry)
    → All (λ o. length o ≡ n) others
    → All (λ o. length o ≡ length row + n) (map (λ o. row ++ o) others)
behind-wide n row [] w = tt
behind-wide n row (o ∷ others) w =
    (length-append row o ∙ ap (◌+◌ (length row)) w.0, behind-wide n row others w.1)

product-wide :
    (m n : ℕ) (rows others : List Entry)
    → All (λ r. length r ≡ m) rows
    → All (λ o. length o ≡ n) others
    → All (λ o. length o ≡ m + n) (product rows others)
product-wide m n [] others w w' = tt
product-wide m n (row ∷ rows) others w w' =
    All-append _ (map (λ o. row ++ o) others) (product rows others)
      (subst (λ k. All (λ o. length o ≡ k + n) (map (λ o. row ++ o) others)) w.0
        (behind-wide n row others w'))
      (product-wide m n rows others w.1 w')

All-left {ℓ} : (P : Entry → Type ℓ) (xs ys : List Entry) → All P (xs ++ ys) → All P xs × All P ys
All-left P [] ys h = (tt, h)
All-left P (x ∷ xs) ys h = let (a, b) = All-left P xs ys h.1 in ((h.0, a), b)

module _ {names : List Name} {others : List Entry} {old : Labels} (p : IsLabels names others old)
    (some_names : 0 < length names) where
  add_products-new :
      {new_names : List Name} (done rows : List Entry) {b : LabelsBuilder}
      → IsBuilder new_names done b
      → All (λ row. length row ≡ length new_names) (product rows others)
      → Distinct (done ++ product rows others)
      → (b' : LabelsBuilder) × (add_products b rows old ≡ ok b')
        × IsBuilder new_names (done ++ product rows others) b'
  unfolding add_products
  add_products-new done [] {b} v w d = (b, refl, rw (append-nil done) v)
  add_products-new done (row ∷ rows) {b} v w d =
      let here = map (λ o. row ++ o) others in
      let shift = append_assoc done here (product rows others) in
      let d' : Distinct ((done ++ here) ++ product rows others) = rw shift d in
      let (w₁, w₂) = All-left _ here (product rows others) w in
      let (b₁, added, v₁) =
        add_all-new done here v w₁ (Distinct-left (done ++ here) (product rows others) d') in
      let (b₂, rest, v₂) = add_products-new (done ++ here) rows v₁ w₂ d' in
      (b₂, rw (iter-rows p some_names, added) rest, rw shift at v₂)

  -- A component with rows of its own, moved before properties with at least one name, gives properties
  -- with the names of both, if these are valid together, and with each row of the component before each
  -- row of the old properties.
  pub moved_properties-product :
      (X : Arrays) {component_names : List Name} {rows : List Entry} (component : Labels)
      → IsLabels component_names rows component
      → 0 < length component_names
      → ValidNames (component_names ++ names)
      → (l : Labels) × (moved_properties X component old ≡ ok l)
        × IsLabels (component_names ++ names) (product rows others) l
  unfolding moved_properties
  moved_properties-product X {component_names} {rows} component c some_component valid =
      let all = component_names ++ names in
      let (b₀, made, v₀) = new-total all valid in
      let w : All (λ row. length row ≡ length all) (product rows others) =
        rw (length-append component_names names)
          (product-wide (length component_names) (length names) rows others c.widths p.widths) in
      let d =
        product-Distinct (length component_names) rows others c.widths c.distinct p.distinct in
      let (b₁, added, v₁) = add_products-new [] rows v₀ w d in
      let (l, finished, labels) = finish-total all (product rows others) b₁ valid v₁ in
      let some_all : 0 < length all = omega (arith, length-append component_names names) in
      let made' : new (component.names ++ old.names) ≡ ok b₀ =
        rw (c.same_names, p.same_names) made in
      (
        l,
        rw (made', iter-rows c some_component, added) finished,
        subst (λ r. IsLabels all r l) (kept_rows_all all (product rows others) some_all) labels,
      )
