-- ===== src/Bindings/Table.antt =====
-- equistore/src/labels.rs: the labels of the bindings are a table of the names and rows they are made of.
use equistore.Prelude.{
  ℕ, suc, ◌+◌, ◌*◌, ◌<◌, ◌≡◌, ◌∙◌, ◌↔◌, refl, sym, ap, inl, inr, true, false, Bool-cases, ==_iff,
  ◌==◌, leb_of_le, List, [], ◌∷◌, length, flatten, Option, none, some, some-injective, ℤ, ℤ.pos,
  ℤ.negsuc, ℤ_discrete, ℕ_discrete, ap₂, subst₂, get_elem?, arith,
}
use equistore.Errors.{Name, Error, ok, eqs_success}
use equistore.Labels.{Entry, LabelValue, IsLabels, chunks, slice, name_dec}
use equistore.Labels
use equistore.Labels.Lookup.{length-flatten, chunks-whole, index-rows}
use equistore.CApi.{defined, ◌>>=◌, to_str, from_raw_parts}
use equistore.CApi.Labels.{c_names}
use equistore.CApi.Creation.{IsHandle, take_all}
use equistore.CApi.Handles.{eqs_labels_position-rows}
use equistore.Bindings.{BindingError, check_status, expect_status}
use equistore.Bindings.Labels.{
  Labels, position, try_usize, strings, names_of_labels, count, values_of, iter, index,
}

-- What a table of names and rows promises of the operations.
pub record IsTable (before : Option Error) (last_rust : BindingError) (names : List Name)
    (rows : List Entry) (l : Labels) : Type 0 where
  pub same_names : names_of_labels l ≡ defined (ok names)
  pub same_count : count l ≡ length rows
  pub same_rows : iter l ≡ defined (ok rows)
  pub at : (i : ℕ) {row : Entry} → get_elem? rows i ≡ some row → index l i ≡ defined (ok row)
  pub finds :
      (e : Entry)
      → length e ≡ length names
      → (o : Option ℕ) × (position before last_rust l e ≡ defined (ok o))
        × ((i : ℕ) → (o ≡ some i) ↔ (get_elem? rows i ≡ some e))

pub expect_status-success {ℓ} :
    {A : Type ℓ} (before : Option Error) (last_rust : BindingError) (a : A)
    → expect_status last_rust (some (eqs_success, before, a)) ≡ defined (ok a)
unfolding expect_status check_status ℤ_discrete ℕ_discrete
expect_status-success before last_rust a = refl

strings-c_names : (names : List Name) → strings (c_names names) ≡ defined (ok names)
unfolding strings to_str
strings-c_names [] = refl
strings-c_names (name ∷ names) = rw (strings-c_names names) refl

length-c_names : (names : List Name) → length (c_names names) ≡ length names
length-c_names [] = refl
length-c_names (name ∷ names) = ap suc (length-c_names names)

slice_all {ℓ} :
    {A : Type ℓ} (memory : List A) (n : ℕ)
    → n ≡ length memory
    → from_raw_parts (some memory) n ≡ defined (ok memory)
unfolding from_raw_parts
slice_all memory n e =
    rw (e, leb_of_le (length memory) (length memory) (omega arith), take_all memory) refl

slice_none {ℓ} : {A : Type ℓ} (n : ℕ) → n ≡ 0 → from_raw_parts {A = A} none n ≡ defined (ok [])
unfolding from_raw_parts
slice_none n e = rw e refl

no_rows : (rows : List Entry) → length rows ≡ 0 → flatten rows ≡ []
no_rows [] h = refl
no_rows (row ∷ rows) h = absurd (omega (arith, h))

pos_of_some : (z : ℤ) (i : ℕ) → try_usize z ≡ some i → z ≡ pos i
pos_of_some (pos n) i h = ap pos (some-injective _ _ h)
pos_of_some (negsuc n) i h = cc

module _ (before : Option Error) (last_rust : BindingError) {names : List Name} {rows : List Entry}
    {l : Labels} (h : IsHandle names rows l.raw) (some_names : 0 < length names) where
  names_of_labels-same : names_of_labels l ≡ defined (ok names)
  unfolding names_of_labels
  names_of_labels-same =
      let named : (length names == 0) ≡ false = ground arith in
      let given : l.raw.names ≡ some (c_names names) = h.same_names ∙ rw named refl in
      ap (λ u. u >>= λ ns. strings ns)
        (ap₂ (λ m n. from_raw_parts m n) given h.same_size
          ∙ slice_all (c_names names) (length names) (sym (length-c_names names)))
      ∙ strings-c_names names

  values_of-rows : values_of l ≡ defined (ok (flatten rows))
  unfolding values_of
  values_of-rows =
      let whole : l.raw.count * l.raw.size ≡ length (flatten rows) =
        ap₂ (λ c s. c * s) h.same_count h.same_size
        ∙ sym (length-flatten (length names) rows h.labels.widths) in
      elim (Bool-cases (length rows == 0)) [
        | inl nothing ↦
            let none_left : flatten rows ≡ [] = no_rows rows ((==_iff _ _).0 nothing) in
            ap (λ m. from_raw_parts m (l.raw.count * l.raw.size)) (h.same_values ∙ rw nothing refl)
            ∙ slice_none (l.raw.count * l.raw.size) (whole ∙ ap length none_left)
            ∙ ap (λ values. defined (ok values)) (sym none_left)
        | inr something ↦
            ap (λ m. from_raw_parts m (l.raw.count * l.raw.size))
              (h.same_values ∙ rw something refl)
            ∙ slice_all (flatten rows) (l.raw.count * l.raw.size) whole
      ]

  iter-same : iter l ≡ defined (ok rows)
  unfolding iter
  iter-same =
      let named : (length names == 0) ≡ false = ground arith in
      rw
        (
          values_of-rows,
          h.same_size,
          named,
          chunks-whole (length names) rows some_names h.labels.widths,
        )
        refl

  index-same : (i : ℕ) {row : Entry} → get_elem? rows i ≡ some row → index l i ≡ defined (ok row)
  unfolding index Labels.index
  index-same i {row} e =
      let r = h.rust in
      let there : slice r.values (i * length r.names) ((i + 1) * length r.names) ≡ ok row =
        index-rows h.labels i e in
      let moved : slice (flatten rows) (i * length names) ((i + 1) * length names) ≡ ok row =
        subst₂ (λ vs ns. slice vs (i * length ns) ((i + 1) * length ns) ≡ ok row) h.labels.values
          h.labels.same_names there in
      rw (values_of-rows, h.same_size, moved) refl

  position-same :
      (e : Entry)
      → length e ≡ length names
      → (o : Option ℕ) × (position before last_rust l e ≡ defined (ok o))
        × ((i : ℕ) → (o ≡ some i) ↔ (get_elem? rows i ≡ some e))
  unfolding position
  position-same e w =
      let (z, called, places, _) = eqs_labels_position-rows before h e (pos 0) w in
      let wide : (length e == l.raw.size) ≡ true = (==_iff _ _).1 (w ∙ sym h.same_size) in
      (
        try_usize z,
        rw (wide, called, expect_status-success before last_rust z) refl,
        λ i. (λ p. (places i).0 (pos_of_some z i p), λ p. ap try_usize ((places i).1 p)),
      )

  pub handle-IsTable : IsTable before last_rust names rows l
  handle-IsTable = record {
    same_names = names_of_labels-same;
    same_count = h.same_count;
    same_rows = iter-same;
    at = λ i. index-same i;
    finds = position-same;
  }
