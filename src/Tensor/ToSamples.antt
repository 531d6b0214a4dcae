-- ===== src/Tensor/ToSamples.antt =====
-- equistore-core/src/tensor/keys_to_samples.rs.
use equistore.Prelude.{ℕ, Bool, not, List, [], ◌∷◌, ◌++◌, length, set, get_elem?, ltb}
use equistore.Errors.{
  Name, Outcome, ok, ◌>>=◌, ◌>>◌, guard, assert, expect, expect_ok, out_of_range, expected,
  components_differ, properties_differ, not_implemented,
}
use equistore.Labels.{Labels, count, iter, labels_eq}
use equistore.Data.{Arrays, SampleMapping, shape, create, move_samples_from}
use equistore.Blocks.{BasicBlock, TensorBlock, new_block, gradient, add_gradient}
use equistore.Tensor.{TensorMap}
use equistore.Tensor.Keys.{IndexSets, remove_dimensions_from_keys}
use equistore.Tensor.Merge.{KeyAndBlock, merge_samples, merge_gradient_samples}
use equistore.Tensor.Groups.{components_eq, map_gradient_samples, merge_groups}

-- `new_shape[i] = n`.
abbrev pub set_axis : List ℕ → ℕ → ℕ → Outcome (List ℕ)
set_axis s i n = do assert (ltb i (length s)) out_of_range; ok (set s i n)

module _ (X : Arrays) where
  -- The checks of each block against the first.
  unfoldable pub check_mergeable : TensorBlock X → List (KeyAndBlock X) → Outcome (Unit {0})
  check_mergeable first [] = ok tt
  check_mergeable first ((_, block) ∷ blocks) = do
    guard (components_eq block.values.components first.values.components) components_differ
    guard (labels_eq block.values.properties first.values.properties) properties_differ
    check_mergeable first blocks

  -- The loop that moves the data of the blocks.
  unfoldable pub move_values :
      X.Array → List (KeyAndBlock X) → List (List SampleMapping) → ℕ → Outcome X.Array
  move_values new_data ((_, block) ∷ blocks) (samples_mapping ∷ mappings) stop = do
    moved ← move_samples_from X new_data block.values.array samples_mapping 0 stop
    move_values moved blocks mappings stop
  move_values new_data [] mappings stop = ok new_data
  move_values new_data (b ∷ blocks) [] stop = ok new_data

  -- The loop that moves the data of the gradients with respect to one parameter.
  unfoldable pub move_gradient :
      Name
      → Labels
      → X.Array
      → List (KeyAndBlock X)
      → List (List SampleMapping)
      → ℕ
      → Outcome X.Array
  move_gradient parameter new_samples new_data ((_, block) ∷ blocks) (samples_mapping ∷ mappings)
        stop =
      do
        g ← expect (gradient X block parameter) expected
        grad_samples ← iter g.samples
        samples_to_move ← map_gradient_samples new_samples samples_mapping 0 grad_samples
        moved ← move_samples_from X new_data g.array samples_to_move 0 stop
        move_gradient parameter new_samples moved blocks mappings stop
  move_gradient parameter new_samples new_data [] mappings stop = ok new_data
  move_gradient parameter new_samples new_data (b ∷ blocks) [] stop = ok new_data

  -- The loop over the gradients of the first block.
  unfoldable pub merge_gradients :
      TensorBlock X
      → TensorBlock X
      → List (KeyAndBlock X)
      → List (List SampleMapping)
      → ℕ
      → List (Name × BasicBlock X)
      → Outcome (TensorBlock X)
  merge_gradients merged first blocks mappings stop [] = ok merged
  merge_gradients merged first blocks mappings stop ((parameter, first_gradient) ∷ gradients) = do
    new_samples ← merge_gradient_samples X blocks parameter mappings
    s ← shape X first_gradient.array
    new_shape ← set_axis s 0 (count new_samples)
    new_gradient ← create X first.values.array new_shape
    moved ← move_gradient parameter new_samples new_gradient blocks mappings stop
    merged' ←
        expect_ok (add_gradient X merged parameter moved new_samples first_gradient.components)
    merge_gradients merged' first blocks mappings stop gradients

  module _ (I : IndexSets) where
    -- `merge_blocks_along_samples`.
    unfoldable pub merge_blocks_along_samples :
        List Name → Bool → List (KeyAndBlock X) → Outcome (TensorBlock X)
    merge_blocks_along_samples extracted_names sort_samples blocks_to_merge = do
      first_pair ← expect (get_elem? blocks_to_merge 0) expected
      let first = first_pair.1
      check_mergeable first blocks_to_merge
      (merged_samples, samples_mappings) ←
          merge_samples X I blocks_to_merge (first.values.samples.names ++ extracted_names)
            sort_samples
      s ← shape X first.values.array
      new_shape ← set_axis s 0 (count merged_samples)
      new_data ← create X first.values.array new_shape
      moved ← move_values new_data blocks_to_merge samples_mappings (count first.values.properties)
      merged ←
          expect_ok
            (new_block X moved merged_samples first.values.components first.values.properties)
      merge_gradients merged first blocks_to_merge samples_mappings (count first.values.properties)
          first.gradients

    -- `TensorMap::keys_to_samples`.
    unfoldable pub keys_to_samples : TensorMap X → Labels → Bool → Outcome (TensorMap X)
    keys_to_samples tensor keys_to_move sort_samples = do
      guard (not (ltb 0 (count keys_to_move))) not_implemented
      splitted ← remove_dimensions_from_keys I tensor.keys keys_to_move.names
      merge_groups X (merge_blocks_along_samples keys_to_move.names sort_samples) tensor splitted
