-- ===== src/Tests/TensorRuns.antt =====
-- equistore-core/src/tensor/, run on blocks of plain arrays.
use mathlib.Core.List.{lookup}
use equistore.Prelude.{
  ℕ, ◌≡◌, refl, ◌↔◌, true, List, [], ◌∷◌, ◌++◌, length, map, some, ℤ.pos, get_elem?, Distinct, All,
  codes, Distinct-of_n_unique, list_discrete, ℤ_discrete, ℕ_discrete, arith,
}
use equistore.Errors.{Name, ok}
use equistore.Labels.{
  Entry, Labels, IsLabels, entry_dec, name_dec, names_dec, count, is_empty, iter, index, position,
  labels_eq, same_values, chunks, valid_from, is_valid_label_name, check_names, from_usize, usize,
}
use equistore.Labels.Builder.{
  new, add, push, insert, convert, try_add, add_all, has_null, check_c_strings, finish, build,
}
use equistore.Labels.Finish.{ValidNames}
use equistore.Data.{SampleMapping}
use equistore.Blocks.{gradient}
use equistore.Tensor.{
  TensorMap, check_component_names, find_dimensions, matches, matching_from, range,
  check_labels_names, check_gradients, check_block, check_blocks, check_all, new_map, matching_rows,
  blocks_matching,
}
use equistore.Tensor.Merge.{
  KeyAndBlock, compare_values, compare_entries, btree_insert, map_samples, translate, map_blocks,
  merge_rows, insert_samples, collect_samples, merge_samples,
}
use equistore.Tensor.Samples.{Sampled, IsMerge, merge_samples-IsMerge}
use equistore.Tensor.ToProperties.{Range, property_range, insert_properties, collect_properties}
use equistore.Tensor.Matching.{Listed, Agrees, blocks_matching_iff}
use equistore.Tensor.Properties.{Propertied, prefixed, moved_keys, collect_properties-prefixed}
use equistore.Tensor.Ranges.{IsRange, property_range-IsRange}
use equistore.Tensor.Validity.{Uniform, new_map_iff}
use equistore.Tests.{
  plain, lists, lists-IsIndexSets, labels_of, labels_of-IsLabels, block_of, sample_names,
  property_names,
}

program : Unit {0}
unfolding list_discrete ℤ_discrete ℕ_discrete entry_dec name_dec names_dec lookup count is_empty
    iter index position chunks valid_from is_valid_label_name check_names labels_eq same_values new
    add push insert convert try_add add_all has_null check_c_strings finish build from_usize usize
    gradient check_component_names find_dimensions matches matching_from range check_labels_names
    check_gradients check_block check_blocks check_all new_map matching_rows blocks_matching
    compare_values compare_entries btree_insert map_samples translate map_blocks merge_rows
    insert_samples collect_samples merge_samples property_range insert_properties collect_properties
program = tt

abbrev rows_1 : List Entry
rows_1 = (pos 0 ∷ []) ∷ (pos 1 ∷ []) ∷ []

abbrev rows_2 : List Entry
rows_2 = (pos 1 ∷ []) ∷ (pos 2 ∷ []) ∷ []

abbrev key_1 : Entry
key_1 = pos 7 ∷ []

abbrev key_2 : Entry
key_2 = pos 3 ∷ []

abbrev blocks : List (KeyAndBlock plain)
blocks = (key_1, block_of rows_1 rows_2) ∷ (key_2, block_of rows_2 rows_1) ∷ []

abbrev key_names : List Name
key_names = codes "key" ∷ []

abbrev new_names : List Name
new_names = sample_names ++ key_names

one_column :
    (name : Name) (rows : List Entry)
    → All (λ row. length row ≡ 1) rows
    → Distinct rows
    → IsLabels (name ∷ []) rows (labels_of (name ∷ []) rows)
one_column name rows w d = labels_of-IsLabels (name ∷ []) rows w d (λ h. absurd (omega arith))

rows_1-Distinct : Distinct rows_1
unfolding program
rows_1-Distinct = Distinct-of_n_unique entry_dec rows_1 refl

rows_2-Distinct : Distinct rows_2
unfolding program
rows_2-Distinct = Distinct-of_n_unique entry_dec rows_2 refl

rows_1-IsLabels : (name : Name) → IsLabels (name ∷ []) rows_1 (labels_of (name ∷ []) rows_1)
rows_1-IsLabels name = one_column name rows_1 (refl, (refl, tt)) rows_1-Distinct

rows_2-IsLabels : (name : Name) → IsLabels (name ∷ []) rows_2 (labels_of (name ∷ []) rows_2)
rows_2-IsLabels name = one_column name rows_2 (refl, (refl, tt)) rows_2-Distinct

blocks-Sampled : Sampled plain sample_names blocks (rows_1 ∷ rows_2 ∷ [])
blocks-Sampled = (rows_1-IsLabels _, (rows_2-IsLabels _, tt))

blocks-Propertied : Propertied plain property_names blocks (rows_2 ∷ rows_1 ∷ [])
blocks-Propertied = (rows_2-IsLabels _, (rows_1-IsLabels _, tt))

new_names-ValidNames : ValidNames new_names
unfolding program
new_names-ValidNames = record {
  valid = (refl, (refl, tt));
  distinct = Distinct-of_n_unique name_dec new_names refl;
}

abbrev merged : Labels
merged =
    labels_of new_names (
      (pos 0 ∷ pos 7 ∷ [])
      ∷ (pos 1 ∷ pos 3 ∷ [])
      ∷ (pos 1 ∷ pos 7 ∷ [])
      ∷ (pos 2 ∷ pos 3 ∷ [])
      ∷ [])

abbrev mappings : List (List SampleMapping)
mappings =
    (record { input = 0; output = 0 } ∷ record { input = 1; output = 2 } ∷ [])
    ∷ (record { input = 0; output = 1 } ∷ record { input = 1; output = 3 } ∷ [])
    ∷ []

merges : merge_samples plain lists blocks new_names true ≡ ok (merged, mappings)
unfolding program
merges = refl

merge_samples-IsMerge_example :
    (merged : Labels) × (mappings : List (List SampleMapping)) × (merge_samples plain lists blocks
        new_names true
      ≡ ok (merged, mappings))
    × IsMerge plain lists lists-IsIndexSets sample_names new_names blocks
        (rows_1 ∷ rows_2 ∷ [])
        true
        merged
        mappings
merge_samples-IsMerge_example =
    merge_samples-IsMerge plain lists lists-IsIndexSets sample_names new_names blocks
      (rows_1 ∷ rows_2 ∷ []) true (key_1, block_of rows_1 rows_2) refl refl (omega arith)
      (omega arith) blocks-Sampled new_names-ValidNames (refl, (refl, (refl, (refl, tt))))

abbrev new_properties : Labels
new_properties =
    labels_of (key_names ++ property_names) (prefixed plain blocks (rows_2 ∷ rows_1 ∷ []))

new_properties-IsLabels :
    IsLabels
      (key_names ++ property_names)
      (prefixed plain blocks (rows_2 ∷ rows_1 ∷ []))
      new_properties
unfolding program
new_properties-IsLabels =
    labels_of-IsLabels (key_names ++ property_names) (prefixed plain blocks (rows_2 ∷ rows_1 ∷ []))
      (refl, (refl, (refl, (refl, tt))))
      (Distinct-of_n_unique entry_dec (prefixed plain blocks (rows_2 ∷ rows_1 ∷ [])) refl)
      (λ h. absurd (omega arith))

finds_range : property_range plain new_properties (key_2, block_of rows_2 rows_1) ≡ ok (some (2, 4))
unfolding program
finds_range = refl

property_range-IsRange_example :
    (range : Range) × (property_range plain new_properties (key_2, block_of rows_2 rows_1)
      ≡ ok (some range))
    × IsRange (prefixed plain blocks (rows_2 ∷ rows_1 ∷ [])) key_2 rows_1 range
property_range-IsRange_example =
    property_range-IsRange plain (key_names ++ property_names) property_names new_properties blocks
      (rows_2 ∷ rows_1 ∷ []) 1 key_2 (block_of rows_2 rows_1) (pos 0 ∷ []) ((pos 1 ∷ []) ∷ [])
      new_properties-IsLabels blocks-Propertied refl refl

keys-Distinct : Distinct (moved_keys plain blocks)
unfolding program
keys-Distinct = Distinct-of_n_unique entry_dec (moved_keys plain blocks) refl

collect_properties-prefixed_example :
    (set : List Entry) × (collect_properties plain lists [] blocks ≡ ok set)
    × (set ≡ prefixed plain blocks (rows_2 ∷ rows_1 ∷ []))
collect_properties-prefixed_example =
    collect_properties-prefixed plain lists lists-IsIndexSets 1 property_names blocks
      (rows_2 ∷ rows_1 ∷ []) (omega arith) (refl, (refl, tt)) keys-Distinct blocks-Propertied

abbrev tensor : TensorMap plain
tensor = record { keys = labels_of key_names rows_1; blocks = map (λ b. b.1) blocks }

abbrev selection : Labels
selection = labels_of key_names ((pos 1 ∷ []) ∷ [])

selects : blocks_matching plain tensor selection ≡ ok (1 ∷ [])
unfolding program
selects = refl

blocks_matching_iff_example :
    (is : List ℕ) × (blocks_matching plain tensor selection ≡ ok is)
    × ((i : ℕ)
        → Listed i is ↔ (
            (key : Entry) × (get_elem? rows_1 i ≡ some key)
            × Agrees key_names key key_names (pos 1 ∷ [])))
blocks_matching_iff_example =
    blocks_matching_iff key_names plain tensor rows_1 selection key_names (pos 1 ∷ [])
      (rows_1-IsLabels _) (one_column _ ((pos 1 ∷ []) ∷ []) (refl, tt) (tt, tt)) (tt, tt)
      (omega arith) ((λ a. a.0 refl), tt)

new_map_iff_example : (new_map plain tensor.keys tensor.blocks ≡ ok tensor) ↔ (
    (tensor ≡ record { keys = tensor.keys; blocks = tensor.blocks })
    × (length tensor.blocks ≡ count tensor.keys)
    × Uniform plain tensor.blocks)
new_map_iff_example = new_map_iff plain tensor.keys tensor.blocks tensor
