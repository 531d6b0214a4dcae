-- ===== src/Tensor/Removed.antt =====
-- `remove_dimensions_from_keys`: its result.
use mathlib.Core.List.{lookup}
use equistore.Prelude.{
  ℕ, suc, ◌<◌, ◌≡◌, ◌∙◌, refl, sym, ap, subst, inl, inr, true, false, Option-cases, Option, List,
  [], ◌∷◌, ◌++◌, length, map, some, none, if_pos, if_neg, enumerate, All, Absent, Distinct,
  Absent-of_none, none_of_Absent, arith, codes, ℤ.pos, position_from,
}
use equistore.Errors.{Name, ok}
use equistore.Labels.{Entry, Labels, IsLabels, name_dec, is_valid_label_name, valid_from}
use equistore.Labels.Finish.{ValidNames, build-total, kept_rows_all}
use equistore.Labels.Lookup.{iter-rows}
use equistore.Tensor.{find_dimensions}
use equistore.Tensor.Keys.{
  IndexSets, RemovedDimensionsKeys, check_dimensions, positions_of, extracted, remaining_i,
  remaining_names, remaining_keys, remove_dimensions_from_keys,
}
use equistore.Tensor.Sets.{IsIndexSets, insert_all, insert_all-Distinct, insert_all-All}
use equistore.Tensor.Removal.{kept, kept_values}
use equistore.Tensor.Remaining.{
  extracted-Picks, remaining_names-kept, length-remaining_i, length-kept_values, kept-All,
  kept-Distinct, check_dimensions-ok, collect_keys-list, remaining_keys-some,
}

-- A list with the element that is found.
abbrev found : Option ℕ → List ℕ
found none = []
found (some i) = i ∷ []

-- Among different names the positions of a name are its first.
positions_of-found :
    (d : Name) (s : ℕ) (names : List Name)
    → Distinct names
    → positions_of d s names ≡ found (position_from name_dec s d names)
unfolding positions_of lookup
positions_of-found d s [] h = refl
positions_of-found d s (n ∷ names) h =
    let rec = positions_of-found d (suc s) names h.1 in
    elim (name_dec d n) [
      | yes p ↦
          let none_after : positions_of d (suc s) names ≡ [] =
            rec ∙ ap found (none_of_Absent name_dec (suc s) d names (rw p h.0)) in
          rw
            (
              if_pos (name_dec d n) p true false,
              if_pos (name_dec d n) p (some s) (position_from name_dec (suc s) d names),
              none_after,
            )
            refl
      | no p ↦
          rw
            (
              if_neg (name_dec d n) p true false,
              if_neg (name_dec d n) p (some s) (position_from name_dec (suc s) d names),
            )
            rec
    ]

find_dimensions-extracted :
    (names dimensions : List Name)
    → Distinct names
    → All (λ d. ¬ Absent d names) dimensions
    → find_dimensions dimensions names ≡ ok (extracted names dimensions)
unfolding find_dimensions extracted
find_dimensions-extracted names [] h k = refl
find_dimensions-extracted names (d ∷ dimensions) h k =
    elim (Option-cases (lookup name_dec d (enumerate 0 names))) [
      | inl gone ↦ absurd (k.0 (Absent-of_none name_dec 0 d names gone))
      | inr (i, there) ↦
          rw (there, find_dimensions, find_dimensions-extracted names dimensions h k.1)
            (ap (λ is. ok (is ++ extracted names dimensions))
              (sym (positions_of-found d 0 names h ∙ ap found there)))
    ]

-- What remains of the keys: the names that are no dimensions, and under them the different values of
-- the keys in their order; and the dimensions stand at the positions that a search for them finds.
pub record IsRemoved (names : List Name) (rows : List Entry) (dimensions : List Name)
    (r : RemovedDimensionsKeys) : Type 0 where
  pub labels :
      IsLabels
        (kept dimensions names)
        (insert_all [] (map (kept_values dimensions names) rows))
        r.new_keys
  pub positions : find_dimensions dimensions names ≡ ok r.dimensions_positions

names_of_kept :
    (dimensions names : List Name) → 0 < length (kept dimensions names) → 0 < length names
names_of_kept dimensions [] h = h
names_of_kept dimensions (n ∷ names) h = omega arith

map-wide :
    (dimensions names : List Name) (rows : List Entry)
    → All (λ row. length row ≡ length names) rows
    → All
        (λ row. length row ≡ length (kept dimensions names))
        (map (kept_values dimensions names) rows)
map-wide dimensions names [] w = tt
map-wide dimensions names (row ∷ rows) w =
    (length-kept_values dimensions names row w.0, map-wide dimensions names rows w.1)

remove-run :
    (I : IndexSets) (keys : Labels) (dimensions : List Name) (l : Labels)
    → check_dimensions keys.names dimensions ≡ ok tt
    → remaining_keys I keys
        (remaining_names (extracted keys.names dimensions) 0 keys.names)
        (remaining_i (extracted keys.names dimensions) 0 keys.names)
      ≡ ok l
    → remove_dimensions_from_keys I keys dimensions
      ≡ ok (record { new_keys = l; dimensions_positions = extracted keys.names dimensions })
unfolding remove_dimensions_from_keys
remove-run I keys dimensions l checked made = rw (checked, made) refl

module _ (I : IndexSets) (law : IsIndexSets I) (names dimensions : List Name) (rows : List Entry)
    (keys : Labels) (v : IsLabels names rows keys) where
  -- The labels of what remains.
  remaining_keys-total :
      ValidNames names
      → 0 < length (kept dimensions names)
      → (l : Labels) × (remaining_keys I keys
            (remaining_names (extracted names dimensions) 0 names)
            (remaining_i (extracted names dimensions) 0 names)
          ≡ ok l)
        × IsLabels
            (kept dimensions names)
            (insert_all [] (map (kept_values dimensions names) rows))
            l
  remaining_keys-total valid some_left =
      let is = extracted names dimensions in
      let projected = map (kept_values dimensions names) rows in
      let picks = extracted-Picks names dimensions in
      let names_e = remaining_names-kept is dimensions 0 names picks in
      let (set, collected, e) =
        collect_keys-list I law I.empty is dimensions names rows picks v.widths in
      let set_e : I.to_list set ≡ insert_all [] projected =
        e ∙ ap (λ xs. insert_all xs projected) law.to_list-empty in
      let (l, built, labels) =
        build-total (kept dimensions names) (insert_all [] projected) (record {
          names_ok = record {
            valid = kept-All _ dimensions names valid.valid;
            distinct = kept-Distinct dimensions names valid.distinct;
          };
          widths = insert_all-All _ [] projected tt (map-wide dimensions names rows v.widths);
          distinct = insert_all-Distinct [] projected tt;
        }) in
      (
        l,
        remaining_keys-some I law keys _ (remaining_i is 0 names) rows set l
            (omega (arith, length-remaining_i is 0 names, ap length names_e))
            (iter-rows v (names_of_kept dimensions names some_left)) collected
            (rw (names_e, set_e) built),
        subst (λ r. IsLabels (kept dimensions names) r l)
            (kept_rows_all (kept dimensions names) (insert_all [] projected) some_left) labels,
      )

  remove-named :
      (l : Labels)
      → All (λ d. ¬ Absent d names) dimensions
      → remaining_keys I keys
          (remaining_names (extracted names dimensions) 0 names)
          (remaining_i (extracted names dimensions) 0 names)
        ≡ ok l
      → remove_dimensions_from_keys I keys dimensions
        ≡ ok (record { new_keys = l; dimensions_positions = extracted names dimensions })
  remove-named l known made =
      remove-run I keys dimensions l
        (subst (λ n. check_dimensions n dimensions ≡ ok tt) (sym v.same_names)
          (check_dimensions-ok names dimensions known))
        (subst
          (λ n.
            remaining_keys I keys (remaining_names (extracted n dimensions) 0 n)
              (remaining_i (extracted n dimensions) 0 n)
            ≡ ok l)
          (sym v.same_names) made)
      ∙ ap (λ n. ok (record { new_keys = l; dimensions_positions = extracted n dimensions }))
          v.same_names

  -- From keys with valid names, dimensions among these names can be removed if a name remains. The new
  -- keys have the names that remain, and under them the different values of the keys in their order;
  -- the positions that are reported are those that a search for the dimensions finds.
  pub remove_dimensions_from_keys-IsRemoved :
      ValidNames names
      → All (λ d. ¬ Absent d names) dimensions
      → 0 < length (kept dimensions names)
      → (r : RemovedDimensionsKeys) × (remove_dimensions_from_keys I keys dimensions ≡ ok r)
        × IsRemoved names rows dimensions r
  remove_dimensions_from_keys-IsRemoved valid known some_left =
      let (l, made, labels) = remaining_keys-total valid some_left in
      (
        record { new_keys = l; dimensions_positions = extracted names dimensions },
        remove-named l known made,
        record {
          labels = labels;
          positions = find_dimensions-extracted names dimensions valid.distinct known;
        },
      )

  -- The name of keys that have no name left.
  no_names-ValidNames : ValidNames (codes "_" ∷ [])
  unfolding is_valid_label_name valid_from
  no_names-ValidNames = record { valid = (refl, tt); distinct = (tt, tt) }

  remaining_keys-none :
      (is : List ℕ) (some_names : List Name)
      → length is ≡ 0
      → (l : Labels) × (remaining_keys I keys some_names is ≡ ok l)
        × IsLabels (codes "_" ∷ []) ((pos 0 ∷ []) ∷ []) l
  unfolding remaining_keys
  remaining_keys-none [] some_names h =
      let (l, built, labels) =
        build-total (codes "_" ∷ []) ((pos 0 ∷ []) ∷ [])
          (record { names_ok = no_names-ValidNames; widths = (refl, tt); distinct = (tt, tt) }) in
      (
        l,
        built,
        subst (λ r. IsLabels (codes "_" ∷ []) r l)
            (kept_rows_all (codes "_" ∷ []) ((pos 0 ∷ []) ∷ []) (omega arith)) labels,
      )
  remaining_keys-none (i ∷ is) some_names h = absurd (omega arith)

  -- From keys with valid names all dimensions can be removed. The new keys have the single name "_" and
  -- the single entry 0, whatever the keys; the positions that are reported are those that a search
  -- for the dimensions finds.
  pub remove_dimensions_from_keys-none_left :
      ValidNames names
      → All (λ d. ¬ Absent d names) dimensions
      → kept dimensions names ≡ []
      → (r : RemovedDimensionsKeys) × (remove_dimensions_from_keys I keys dimensions ≡ ok r)
        × IsLabels (codes "_" ∷ []) ((pos 0 ∷ []) ∷ []) r.new_keys
        × (find_dimensions dimensions names ≡ ok r.dimensions_positions)
  remove_dimensions_from_keys-none_left valid known nothing =
      let is = extracted names dimensions in
      let empty : length (remaining_i is 0 names) ≡ 0 =
        length-remaining_i is 0 names
        ∙ ap length (
            remaining_names-kept is dimensions 0 names (extracted-Picks names dimensions)
            ∙ nothing) in
      let (l, made, labels) =
        remaining_keys-none (remaining_i is 0 names) (remaining_names is 0 names) empty in
      (
        record { new_keys = l; dimensions_positions = is },
        remove-named l known made,
        labels,
        find_dimensions-extracted names dimensions valid.distinct known,
      )
