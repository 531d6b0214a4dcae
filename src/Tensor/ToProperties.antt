-- ===== src/Tensor/ToProperties.antt =====
-- equistore-core/src/tensor/keys_to_properties.rs.
use equistore.Prelude.{
  ℕ, ◌+◌, ◌-◌, ◌*◌, Bool, true, false, not, ◌&&◌, ◌==◌, List, [], ◌∷◌, ◌++◌, length, set, get_elem?,
  Option, none, some, if◌then◌else◌,
}
use equistore.Errors.{
  Name, Outcome, ok, ◌>>=◌, ◌>>◌, guard, assert, expect, expect_ok, expected, components_differ,
  properties_differ,
}
use equistore.Labels.{Entry, Labels, count, iter, index, is_empty, position, labels_eq}
use equistore.Labels.Builder.{build}
use equistore.Data.{Arrays, SampleMapping, shape, create, move_samples_from}
use equistore.Blocks.{BasicBlock, TensorBlock, new_block, gradient, add_gradient}
use equistore.Tensor.{TensorMap}
use equistore.Tensor.Keys.{IndexSets, remove_dimensions_from_keys}
use equistore.Tensor.Merge.{KeyAndBlock, merge_samples, merge_gradient_samples}
use equistore.Tensor.Groups.{components_eq, map_gradient_samples, merge_groups}
use equistore.Tensor.ToSamples.{set_axis}

-- A range of properties, from the start to before the end.
abbrev pub Range : Type 0
Range = ℕ × ℕ

-- Whether the keys to move have values.
abbrev pub is_given : Option Labels → Bool
is_given none = false
is_given (some keys) = true

module _ (X : Arrays) where
  -- The checks of each block against the first.
  unfoldable pub check_blocks_mergeable :
      Bool → TensorBlock X → List (KeyAndBlock X) → Outcome (Unit {0})
  check_blocks_mergeable given first [] = ok tt
  check_blocks_mergeable given first ((_, block) ∷ blocks) = do
    guard (components_eq block.values.components first.values.components) components_differ
    guard (not (given && not (labels_eq block.values.properties first.values.properties)))
        properties_differ
    check_blocks_mergeable given first blocks

  -- Where the properties of each block go; none if they go nowhere.
  unfoldable pub property_range : Labels → KeyAndBlock X → Outcome (Option Range)
  property_range new_properties (new_property, block) =
      if is_empty block.values.properties then ok none else (do
        first ← index block.values.properties 0
        start ← position new_properties (new_property ++ first)
        ok (elim start [
          | none ↦ none
          | some start ↦ some (start, start + count block.values.properties)
        ]))

  unfoldable pub property_ranges : Labels → List (KeyAndBlock X) → Outcome (List (Option Range))
  property_ranges new_properties [] = ok []
  property_ranges new_properties (b ∷ blocks) = do
    range ← property_range new_properties b
    rest ← property_ranges new_properties blocks
    ok (range ∷ rest)

  -- The move of one block, if its properties go somewhere.
  unfoldable pub move_one : X.Array → X.Array → List SampleMapping → Option Range → Outcome X.Array
  move_one new_data input samples_mapping none = ok new_data
  move_one new_data input samples_mapping (some (start, stop)) =
      move_samples_from X new_data input samples_mapping start stop

  -- The loop that moves the data of the blocks.
  unfoldable pub move_values :
      X.Array
      → List (KeyAndBlock X)
      → List (List SampleMapping)
      → List (Option Range)
      → Outcome X.Array
  move_values new_data ((_, block) ∷ blocks) (samples_mapping ∷ mappings) (range ∷ ranges) = do
    moved ← move_one new_data block.values.array samples_mapping range
    move_values moved blocks mappings ranges
  move_values new_data [] mappings ranges = ok new_data
  move_values new_data (b ∷ blocks) [] ranges = ok new_data
  move_values new_data (b ∷ blocks) (m ∷ mappings) [] = ok new_data

  -- The body of the loop over the blocks for a gradient: nothing is done where there is no range.
  unfoldable pub move_one_gradient :
      Name → Labels → X.Array → TensorBlock X → List SampleMapping → Option Range → Outcome X.Array
  move_one_gradient parameter new_samples new_data block samples_mapping none = ok new_data
  move_one_gradient parameter new_samples new_data block samples_mapping (some (start, stop)) = do
    g ← expect (gradient X block parameter) expected
    grad_samples ← iter g.samples
    samples_to_move ← map_gradient_samples new_samples samples_mapping 0 grad_samples
    move_samples_from X new_data g.array samples_to_move start stop

  unfoldable pub move_gradient :
      Name
      → Labels
      → X.Array
      → List (KeyAndBlock X)
      → List (List SampleMapping)
      → List (Option Range)
      → Outcome X.Array
  move_gradient parameter new_samples new_data ((_, block) ∷ blocks) (m ∷ mappings)
        (range ∷ ranges) =
      do
        moved ← move_one_gradient parameter new_samples new_data block m range
        move_gradient parameter new_samples moved blocks mappings ranges
  move_gradient parameter new_samples new_data [] mappings ranges = ok new_data
  move_gradient parameter new_samples new_data (b ∷ blocks) [] ranges = ok new_data
  move_gradient parameter new_samples new_data (b ∷ blocks) (m ∷ mappings) [] = ok new_data

  -- The loop over the gradients of the first block.
  unfoldable pub merge_gradients :
      TensorBlock X
      → TensorBlock X
      → List (KeyAndBlock X)
      → List (List SampleMapping)
      → List (Option Range)
      → ℕ
      → List (Name × BasicBlock X)
      → Outcome (TensorBlock X)
  merge_gradients merged first blocks mappings ranges new_count [] = ok merged
  merge_gradients merged first blocks mappings ranges new_count ((parameter, g) ∷ gradients) = do
    new_samples ← merge_gradient_samples X blocks parameter mappings
    s ← shape X g.array
    first_shape ← set_axis s 0 (count new_samples)
    new_shape ← set_axis first_shape (length s - 1) new_count
    new_gradient ← create X first.values.array new_shape
    moved ← move_gradient parameter new_samples new_gradient blocks mappings ranges
    merged' ← expect_ok (add_gradient X merged parameter moved new_samples g.components)
    merge_gradients merged' first blocks mappings ranges new_count gradients

  module _ (I : IndexSets) where
    open I use {IndexSet, empty, insert, to_list}

    unfoldable pub insert_properties : IndexSet → Entry → List Entry → IndexSet
    insert_properties set new_property [] = set
    insert_properties set new_property (old ∷ olds) =
        insert_properties (insert set (new_property ++ old)) new_property olds

    -- The properties of the blocks, each behind the moved part of the key.
    unfoldable pub collect_properties : IndexSet → List (KeyAndBlock X) → Outcome IndexSet
    collect_properties set [] = ok set
    collect_properties set ((new_property, block) ∷ blocks) = do
      olds ← iter block.values.properties
      collect_properties (insert_properties set new_property olds) blocks

    -- The same behind one of the values that the user gives, for all blocks.
    unfoldable pub collect_for : IndexSet → Entry → List (KeyAndBlock X) → Outcome IndexSet
    collect_for set new_property [] = ok set
    collect_for set new_property ((_, block) ∷ blocks) = do
      olds ← iter block.values.properties
      collect_for (insert_properties set new_property olds) new_property blocks

    unfoldable pub collect_given : IndexSet → List Entry → List (KeyAndBlock X) → Outcome IndexSet
    collect_given set [] blocks = ok set
    collect_given set (new_property ∷ more) blocks = do
      set' ← collect_for set new_property blocks
      collect_given set' more blocks

    -- The new properties, in their order.
    unfoldable pub collect_new :
        Option Labels → TensorBlock X → List (KeyAndBlock X) → Outcome (List Entry)
    collect_new (some keys_to_move) first blocks = do
      given ← iter keys_to_move
      set ← collect_given empty given blocks
      assert (length (to_list set) == count first.values.properties * count keys_to_move) expected
      ok (to_list set)
    collect_new none first blocks = do set ← collect_properties empty blocks; ok (to_list set)

    -- `merge_blocks_along_properties`.
    unfoldable pub merge_blocks_along_properties :
        Option Labels → List Name → Bool → List (KeyAndBlock X) → Outcome (TensorBlock X)
    merge_blocks_along_properties keys_to_move extracted_names sort_samples blocks_to_merge = do
      first_pair ← expect (get_elem? blocks_to_merge 0) expected
      let first = first_pair.1
      check_blocks_mergeable (is_given keys_to_move) first blocks_to_merge
      (merged_samples, samples_mappings) ←
          merge_samples X I blocks_to_merge first.values.samples.names sort_samples
      properties ← collect_new keys_to_move first blocks_to_merge
      new_properties ← build (extracted_names ++ first.values.properties.names) properties
      s ← shape X first.values.array
      first_shape ← set_axis s 0 (count merged_samples)
      new_shape ← set_axis first_shape (length s - 1) (count new_properties)
      new_data ← create X first.values.array new_shape
      ranges ← property_ranges new_properties blocks_to_merge
      moved ← move_values new_data blocks_to_merge samples_mappings ranges
      merged ← expect_ok (new_block X moved merged_samples first.values.components new_properties)
      merge_gradients merged first blocks_to_merge samples_mappings ranges (count new_properties)
          first.gradients

    -- `TensorMap::keys_to_properties`.
    unfoldable pub keys_to_properties : TensorMap X → Labels → Bool → Outcome (TensorMap X)
    keys_to_properties tensor keys_to_move sort_samples = do
      splitted ← remove_dimensions_from_keys I tensor.keys keys_to_move.names
      let given : Option Labels = if count keys_to_move == 0 then none else some keys_to_move
      merge_groups X (merge_blocks_along_properties given keys_to_move.names sort_samples) tensor
          splitted
