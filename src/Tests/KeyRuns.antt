-- ===== src/Tests/KeyRuns.antt =====
-- equistore-core/src/tensor/utils.rs: `remove_dimensions_from_keys`, run on concrete keys.
use mathlib.Core.List.{lookup}
use equistore.Prelude.{
  ◌≡◌, refl, List, [], ◌∷◌, ℤ.pos, codes, Distinct-of_n_unique, list_discrete, ℤ_discrete,
  ℕ_discrete, arith,
}
use equistore.Errors.{Name, ok, err, invalid_parameter, not_in_keys}
use equistore.Labels.{
  Entry, Labels, IsLabels, entry_dec, name_dec, names_dec, iter, chunks, valid_from,
  is_valid_label_name, check_names,
}
use equistore.Labels.Builder.{
  new, add, push, insert, convert, try_add, add_all, has_null, check_c_strings, finish, build,
}
use equistore.Labels.Finish.{ValidNames}
use equistore.Tensor.{find_dimensions}
use equistore.Tensor.Keys.{
  RemovedDimensionsKeys, check_dimensions, positions_of, extracted, remaining_i, remaining_names,
  project, collect_keys, remaining_keys, remove_dimensions_from_keys,
}
use equistore.Tensor.Removed.{
  IsRemoved, remove_dimensions_from_keys-IsRemoved, remove_dimensions_from_keys-none_left,
}
use equistore.Tests.{lists, lists-IsIndexSets, labels_of, labels_of-IsLabels}

program : Unit {0}
unfolding list_discrete ℤ_discrete ℕ_discrete entry_dec name_dec names_dec lookup iter chunks
    valid_from is_valid_label_name check_names new add push insert convert try_add add_all has_null
    check_c_strings finish build find_dimensions check_dimensions positions_of extracted remaining_i
    remaining_names project collect_keys remaining_keys remove_dimensions_from_keys
program = tt

abbrev names : List Name
names = codes "l" ∷ codes "spin" ∷ []

abbrev rows : List Entry
rows = (pos 0 ∷ pos 1 ∷ []) ∷ (pos 1 ∷ pos 1 ∷ []) ∷ (pos 0 ∷ pos 2 ∷ []) ∷ []

abbrev keys : Labels
keys = labels_of names rows

keys-IsLabels : IsLabels names rows keys
unfolding program
keys-IsLabels =
    labels_of-IsLabels names rows (refl, (refl, (refl, tt)))
      (Distinct-of_n_unique entry_dec rows refl) (λ h. absurd (omega arith))

names-ValidNames : ValidNames names
unfolding program
names-ValidNames = record {
  valid = (refl, (refl, tt));
  distinct = Distinct-of_n_unique name_dec names refl;
}

removes :
    (remove_dimensions_from_keys lists keys (codes "l" ∷ [])
      ≡ ok (record {
        new_keys = labels_of (codes "spin" ∷ []) ((pos 1 ∷ []) ∷ (pos 2 ∷ []) ∷ []);
        dimensions_positions = 0 ∷ [];
      }))
    × (remove_dimensions_from_keys lists keys (codes "m" ∷ [])
        ≡ err (invalid_parameter (not_in_keys (codes "m"))))
unfolding program
removes = (refl, refl)

remove_dimensions_from_keys-IsRemoved_example :
    (r : RemovedDimensionsKeys) × (remove_dimensions_from_keys lists keys (codes "l" ∷ []) ≡ ok r)
    × IsRemoved names rows (codes "l" ∷ []) r
unfolding program
remove_dimensions_from_keys-IsRemoved_example =
    remove_dimensions_from_keys-IsRemoved lists lists-IsIndexSets names (codes "l" ∷ []) rows keys
      keys-IsLabels names-ValidNames ((λ a. a.0 refl), tt) (omega arith)

remove_dimensions_from_keys-none_left_example :
    (r : RemovedDimensionsKeys) × (remove_dimensions_from_keys lists keys names ≡ ok r)
    × IsLabels (codes "_" ∷ []) ((pos 0 ∷ []) ∷ []) r.new_keys
    × (find_dimensions names names ≡ ok r.dimensions_positions)
unfolding program
remove_dimensions_from_keys-none_left_example =
    remove_dimensions_from_keys-none_left lists lists-IsIndexSets names names rows keys
      keys-IsLabels names-ValidNames ((λ a. a.0 refl), ((λ a. a.1.0 refl), tt)) refl
