-- ===== src/Labels/Lookup.antt =====
-- What the queries on finished labels return, in terms of the rows.
use mathlib.Core.List.{lookup}
use native.Mathlib.Nat.{zero-add, mul-div_cancel, zero-mul, mul-le-mul_right}
use mathlib.Core.Option.{some-injective}
use equistore.Prelude.{
  ℕ, zero, suc, ◌+◌, ◌-◌, ◌*◌, ◌/◌, ◌<◌, ◌≤◌, ◌≡◌, ◌≢◌, refl, ap, subst, ◌∙◌, ◌↔◌, inl, inr, true,
  false, List, [], ◌∷◌, ◌++◌, length, Option, some, none, ◌==◌, leb, take, drop, arith, enumerate,
  flatten, All, Absent, Bool-cases, Option-cases, ==_iff, leb_of_le, leb_of_lt, &&-false,
  get_elem?-lt, eq_self, get_elem?, take-append_length, drop-append_length, drop-append_right,
  length-append, position_from-get_elem?, get_elem?-position_from, Absent-of_none,
}
use equistore.Errors.{Name, ok, panic, out_of_range, wrong_position_size}
use equistore.Labels.{
  LabelValue, Entry, Labels, IsLabels, entry_dec, count, contains_label, position, chunks, iter,
  index, slice,
}

module _ (n : ℕ) where
  pub length-flatten :
      (rows : List Entry)
      → All (λ row. length row ≡ n) rows
      → length (flatten rows) ≡ length rows * n
  length-flatten [] h = omega arith
  length-flatten (row ∷ rows) h =
      grind (arith, length-append row (flatten rows), length-flatten rows h.1)

  pub chunks-flatten :
      (rows : List Entry)
      → All (λ row. length row ≡ n) rows
      → chunks (length rows) n (flatten rows) ≡ rows
  unfolding chunks
  chunks-flatten [] h = refl
  chunks-flatten (row ∷ rows) h =
      subst
        (λ m.
          take m (row ++ flatten rows) ∷ chunks (length rows) n (drop m (row ++ flatten rows))
          ≡ row ∷ rows)
        h.0
        (rw
          (
            take-append_length row (flatten rows),
            drop-append_length row (flatten rows),
            chunks-flatten rows h.1,
          )
          refl)

  -- As many chunks as `chunks_exact` gives.
  pub chunks-whole :
      (rows : List Entry)
      → 0 < n
      → All (λ row. length row ≡ n) rows
      → chunks (length (flatten rows) / n) n (flatten rows) ≡ rows
  chunks-whole rows h w =
      let len = length-flatten rows w in
      let whole : length (flatten rows) / n ≡ length rows = grind (arith, len) in
      ap (λ k. chunks k n (flatten rows)) whole ∙ chunks-flatten rows w

  -- A row is the slice of the values at its place.
  slice-flatten :
      (rows : List Entry) (i : ℕ) {row : Entry}
      → All (λ row. length row ≡ n) rows
      → get_elem? rows i ≡ some row
      → take n (drop (i * n) (flatten rows)) ≡ row
  slice-flatten [] i w h = cc
  slice-flatten (r ∷ rows) zero {row} w h =
      let e : r ≡ row = some-injective r row h in
      rw (zero-mul n) (
        subst (λ m. take m (r ++ flatten rows) ≡ row) w.0 (take-append_length r (flatten rows) ∙ e))
  slice-flatten (r ∷ rows) (suc i) w h =
      let shift : suc i * n ≡ length r + i * n = grind (arith, w.0) in
      rw (shift, drop-append_right r (flatten rows) (i * n)) (slice-flatten rows i w.1 h)

width : (i n : ℕ) → (i + 1) * n - i * n ≡ n
width i n = grind arith

slice-ok :
    (values : List LabelValue) (start stop : ℕ)
    → start ≤ stop
    → stop ≤ length values
    → slice values start stop ≡ ok (take (stop - start) (drop start values))
slice-ok values start stop h k = rw (leb_of_le _ _ h, leb_of_le _ _ k) refl

slice-panic :
    (values : List LabelValue) (start stop : ℕ)
    → length values < stop
    → slice values start stop ≡ panic out_of_range
slice-panic values start stop h = rw (leb_of_lt _ _ h, &&-false (leb start stop)) refl

some_of_found :
    (o : Option ℕ) → (elim o [ none ↦ false | some i ↦ true ]) ≡ true → (i : ℕ) × (o ≡ some i)
some_of_found none h = cc
some_of_found (some i) h = (i, refl)

module _ {names : List Name} {rows : List Entry} {l : Labels} (v : IsLabels names rows l) where
  length_values : length l.values ≡ length rows * length names
  length_values = rw v.values (length-flatten (length names) rows v.widths)

  -- The count of labels with certain rows is the number of the rows.
  pub count-rows : count l ≡ length rows
  unfolding count
  count-rows = elim (Bool-cases (length names == 0)) [
    | inl e ↦ rw (v.same_names, e, v.nameless ((==_iff _ _).0 e)) refl
    | inr e ↦ rw (v.same_names, e, length_values) (mul-div_cancel (length rows) (ground arith))
  ]

  -- The iterator over labels with at least one name yields their rows in order.
  pub iter-rows : 0 < length names → iter l ≡ ok rows
  unfolding iter
  iter-rows h =
      let some_names : (length names == 0) ≡ false = ground arith in
      rw
        (
          v.same_names,
          some_names,
          length_values,
          mul-div_cancel (length rows) h,
          v.values,
          chunks-flatten (length names) rows v.widths,
        )
        refl

  -- To index labels by the number of one of their rows gives the row.
  pub index-rows : (i : ℕ) {row : Entry} → get_elem? rows i ≡ some row → index l i ≡ ok row
  unfolding index
  index-rows i {row} h =
      let i_lt : i < length rows = get_elem?-lt rows i h in
      let n = length names in
      let fits : (i + 1) * n ≤ length rows * n = mul-le-mul_right n (omega arith) in
      rw (v.same_names) (
        slice-ok l.values (i * n) ((i + 1) * n) (grind arith) (rw length_values fits)
        ∙ ap ok (rw (v.values, width i n) (slice-flatten n rows i v.widths h)))

  -- An index after the last row panics, if there are names.
  pub index-out_of_range :
      (i : ℕ) → 0 < length names → length rows ≤ i → index l i ≡ panic out_of_range
  unfolding index
  index-out_of_range i h k = rw (v.same_names) (
      slice-panic l.values _ _
        (rw length_values (grind (arith, mul-le-mul_right (length names) k))))

  -- The position of an entry with a value for each name is the number of the row that equals it, and
  -- none where no row does.
  pub position-rows :
      (e : Entry)
      → length e ≡ length names
      → (o : Option ℕ) × (position l e ≡ ok o)
        × ((i : ℕ) → (o ≡ some i) ↔ (get_elem? rows i ≡ some e))
  unfolding position
  position-rows e h = (
    lookup entry_dec e l.positions,
    rw (h, v.same_names, eq_self (length names)) refl,
    rw v.positions (λ i. (
      λ p. let (k, q, r) = position_from-get_elem? entry_dec 0 e rows p in rw (q ∙ zero-add k) r,
      λ p. get_elem?-position_from entry_dec 0 e rows i v.distinct p ∙ ap some (zero-add i),
    )),
  )

  -- Positions are for entries of the right size.
  pub position-wrong_size :
      (e : Entry) → length e ≢ length names → position l e ≡ panic wrong_position_size
  unfolding position
  position-wrong_size e h = ground (arith, v.same_names)

  -- Labels contain an entry exactly where it is one of their rows.
  pub contains_label-rows :
      (e : Entry) → (contains_label l e ≡ true) ↔ ((i : ℕ) × (get_elem? rows i ≡ some e))
  unfolding contains_label
  contains_label-rows e = (
    λ h.
        let (i, found) = some_of_found (lookup entry_dec e l.positions) h in
        let (k, q, r) =
          position_from-get_elem? entry_dec 0 e rows
            (subst (λ table. lookup entry_dec e table ≡ some i) v.positions found) in
        (k, r),
    λ x.
        rw
          (
            v.positions,
            contains_label,
            get_elem?-position_from entry_dec 0 e rows x.0 v.distinct x.1,
          )
          refl,
  )

  -- An entry that is not missing from the rows has a position.
  pub position-found :
      (e : Entry)
      → length e ≡ length names
      → ¬ Absent e rows
      → (i : ℕ) × (position l e ≡ ok (some i)) × (get_elem? rows i ≡ some e)
  unfolding position
  position-found e h there = elim (Option-cases (lookup entry_dec e (enumerate 0 rows))) [
    | inl miss ↦ absurd (there (Absent-of_none entry_dec 0 e rows miss))
    | inr (i, hit) ↦
        let (k, q, r) = position_from-get_elem? entry_dec 0 e rows hit in
        (
          i,
          rw (h, v.same_names, eq_self (length names), v.positions, hit) refl,
          rw (q ∙ zero-add k) r,
        )
  ]
