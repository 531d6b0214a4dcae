-- ===== src/Tests/MergeRuns.antt =====
-- equistore-core/src/tensor: keys moved to the samples and to the properties of concrete blocks.
use mathlib.Core.List.{lookup}
use equistore.Prelude.{
  ℕ, ◌≡◌, refl, true, List, [], ◌∷◌, ℤ.pos, codes, list_discrete, ℤ_discrete, ℕ_discrete,
}
use equistore.Errors.{Name, ok}
use equistore.Labels.{
  Entry, Labels, entry_dec, name_dec, names_dec, count, is_empty, iter, index, position, labels_eq,
  same_values, chunks, valid_from, is_valid_label_name, check_names, from_usize, usize,
}
use equistore.Labels.Builder.{
  new, add, push, insert, convert, try_add, add_all, has_null, check_c_strings, finish, build,
}
use equistore.Blocks.{
  TensorBlock, check_data_and_labels, check_shape, check_components, check_component_labels,
  new_basic, new_block, gradient,
}
use equistore.Data.{shape, create, move_samples_from, checked, function}
use equistore.Tensor.{
  TensorMap, check_component_names, find_dimensions, matches, matching_from, range,
  check_labels_names, check_gradients, check_block, check_blocks, check_all, new_map, matching_rows,
  blocks_matching,
}
use equistore.Tensor.Keys.{
  check_dimensions, positions_of, extracted, remaining_i, remaining_names, project, collect_keys,
  remaining_keys, remove_dimensions_from_keys,
}
use equistore.Tensor.Merge.{
  compare_values, compare_entries, btree_insert, map_samples, translate, map_blocks, merge_rows,
  insert_samples, collect_samples, merge_samples,
}
use equistore.Tensor.Groups.{components_eq, zip_blocks, pick_blocks, merge_each, merge_groups}
use equistore.Tensor.ToSamples
use equistore.Tensor.ToSamples.{check_mergeable, merge_blocks_along_samples, keys_to_samples}
use equistore.Tensor.ToProperties
use equistore.Tensor.ToProperties.{
  check_blocks_mergeable, property_range, property_ranges, insert_properties, collect_properties,
  collect_new, merge_blocks_along_properties, keys_to_properties,
}
use equistore.Tensor.Shaped.{IsShapedMap}
use equistore.Tensor.ShapedMerges.{keys_to_samples-IsShapedMap, keys_to_properties-IsShapedMap}
use equistore.Tests.{plain, lists, labels_of, block_of, sample_names, property_names}

program : Unit {0}
unfolding list_discrete ℤ_discrete ℕ_discrete entry_dec name_dec names_dec lookup count is_empty
    iter index position chunks valid_from is_valid_label_name check_names labels_eq same_values new
    add push insert convert try_add add_all has_null check_c_strings finish build from_usize usize
    gradient check_component_names find_dimensions matches matching_from range check_labels_names
    check_gradients check_block check_blocks check_all new_map matching_rows blocks_matching
    check_data_and_labels check_shape check_components check_component_labels new_basic new_block
    shape create move_samples_from checked function check_dimensions positions_of extracted
    remaining_i remaining_names project collect_keys remaining_keys remove_dimensions_from_keys
    compare_values compare_entries btree_insert map_samples translate map_blocks merge_rows
    insert_samples collect_samples merge_samples property_range property_ranges insert_properties
    collect_properties collect_new zip_blocks pick_blocks merge_each merge_groups check_mergeable
    merge_blocks_along_samples keys_to_samples ToSamples.move_values ToSamples.merge_gradients
    ToProperties.move_one ToProperties.move_values ToProperties.merge_gradients components_eq
    check_blocks_mergeable merge_blocks_along_properties keys_to_properties
program = tt

abbrev key_names : List Name
key_names = codes "a" ∷ codes "b" ∷ []

abbrev key_rows : List Entry
key_rows = (pos 0 ∷ pos 5 ∷ []) ∷ (pos 1 ∷ pos 5 ∷ []) ∷ (pos 1 ∷ pos 6 ∷ []) ∷ []

abbrev rows_1 : List Entry
rows_1 = (pos 0 ∷ []) ∷ (pos 2 ∷ []) ∷ []

abbrev rows_2 : List Entry
rows_2 = (pos 2 ∷ []) ∷ []

abbrev tensor : TensorMap plain
tensor = record {
  keys = labels_of key_names key_rows;
  blocks = block_of rows_1 rows_2 ∷ block_of rows_2 rows_2 ∷ block_of rows_1 rows_2 ∷ [];
}

abbrev dimension : Labels
dimension = labels_of (codes "a" ∷ []) []

abbrev merged : List ℕ → List ℕ → Labels → Labels → TensorBlock plain
merged s elements samples properties = record {
  values = record {
    array = (s, elements);
    samples = samples;
    components = [];
    properties = properties;
  };
  gradients = [];
  gradient_parameters = [];
}

abbrev new_keys : Labels
new_keys = labels_of (codes "b" ∷ []) ((pos 5 ∷ []) ∷ (pos 6 ∷ []) ∷ [])

abbrev along_samples : TensorMap plain
along_samples =
    let names : List Name = codes "sample" ∷ codes "a" ∷ [] in
    record {
      keys = new_keys;
      blocks =
          merged (3 ∷ 1 ∷ []) (5 ∷ 5 ∷ 5 ∷ [])
            (labels_of names
              ((pos 0 ∷ pos 0 ∷ []) ∷ (pos 2 ∷ pos 0 ∷ []) ∷ (pos 2 ∷ pos 1 ∷ []) ∷ []))
            (labels_of property_names rows_2)
          ∷ merged (2 ∷ 1 ∷ []) (5 ∷ 5 ∷ [])
              (labels_of names ((pos 0 ∷ pos 1 ∷ []) ∷ (pos 2 ∷ pos 1 ∷ []) ∷ []))
              (labels_of property_names rows_2)
          ∷ [];
    }

abbrev along_properties : TensorMap plain
along_properties =
    let names : List Name = codes "a" ∷ codes "n" ∷ [] in
    record {
      keys = new_keys;
      blocks =
          merged (2 ∷ 2 ∷ []) (5 ∷ 5 ∷ 5 ∷ []) (labels_of sample_names rows_1)
            (labels_of names ((pos 0 ∷ pos 2 ∷ []) ∷ (pos 1 ∷ pos 2 ∷ []) ∷ []))
          ∷ merged (2 ∷ 1 ∷ []) (5 ∷ 5 ∷ []) (labels_of sample_names rows_1)
              (labels_of names ((pos 1 ∷ pos 2 ∷ []) ∷ []))
          ∷ [];
    }

moves_to_samples : keys_to_samples plain lists tensor dimension true ≡ ok along_samples
unfolding program
moves_to_samples = refl

moves_to_properties : keys_to_properties plain lists tensor dimension true ≡ ok along_properties
unfolding program
moves_to_properties = refl

keys_to_samples-IsShapedMap_example : IsShapedMap plain along_samples
keys_to_samples-IsShapedMap_example =
    keys_to_samples-IsShapedMap plain lists tensor dimension true moves_to_samples

keys_to_properties-IsShapedMap_example : IsShapedMap plain along_properties
keys_to_properties-IsShapedMap_example =
    keys_to_properties-IsShapedMap plain lists tensor dimension true moves_to_properties
