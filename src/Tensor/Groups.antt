-- ===== src/Tensor/Groups.antt =====
-- equistore-core/src/tensor/keys_to_samples.rs and keys_to_properties.rs: what the two have in common.
-- The blocks whose keys agree outside of the moved dimensions are merged into one.
use equistore.Prelude.{
  ℕ, suc, Bool, true, false, List, [], ◌∷◌, get_elem?, ◌==◌, if◌then◌else◌, ◌&&◌,
}
use equistore.Errors.{Outcome, ok, ◌>>=◌, expect, out_of_range, expected}
use equistore.Labels.{Entry, Labels, count, iter, index, labels_eq, position}
use equistore.Labels.Builder.{build}
use equistore.Data.{Arrays, SampleMapping}
use equistore.Blocks.{TensorBlock}
use equistore.Tensor.{TensorMap, blocks_matching, new_map}
use equistore.Tensor.Keys.{RemovedDimensionsKeys, project}
use equistore.Tensor.Merge.{KeyAndBlock, translate}

-- `==` of two lists of labels.
unfoldable pub components_eq : List Labels → List Labels → Bool
components_eq [] [] = true
components_eq (a ∷ as') (b ∷ bs) = labels_eq a b && components_eq as' bs
components_eq [] (b ∷ bs) = false
components_eq (a ∷ as') [] = false

-- The mapping of the samples of a gradient, from the sample number `sample_i` on.
unfoldable pub map_gradient_samples :
    Labels → List SampleMapping → ℕ → List Entry → Outcome (List SampleMapping)
map_gradient_samples new_samples samples_mapping sample_i [] = ok []
map_gradient_samples new_samples samples_mapping sample_i (grad_sample ∷ grad_samples) = do
  new_sample ← translate samples_mapping grad_sample
  found ← position new_samples new_sample
  new_sample_i ← expect found expected
  rest ← map_gradient_samples new_samples samples_mapping (suc sample_i) grad_samples
  ok (record { input = sample_i; output = new_sample_i } ∷ rest)

module _ (X : Arrays) where
  -- All keys with their blocks.
  unfoldable pub zip_blocks :
      List ℕ → List Entry → List (TensorBlock X) → Outcome (List (KeyAndBlock X))
  zip_blocks positions (key ∷ keys) (block ∷ blocks) = do
    moved_key ← project positions key
    rest ← zip_blocks positions keys blocks
    ok ((moved_key, block) ∷ rest)
  zip_blocks positions [] blocks = ok []
  zip_blocks positions (key ∷ keys) [] = ok []

  -- The blocks at some indices, with the moved part of their keys.
  unfoldable pub pick_blocks : List ℕ → TensorMap X → List ℕ → Outcome (List (KeyAndBlock X))
  pick_blocks positions tensor [] = ok []
  pick_blocks positions tensor (i ∷ is) = do
    block ← expect (get_elem? tensor.blocks i) out_of_range
    key ← index tensor.keys i
    moved_key ← project positions key
    rest ← pick_blocks positions tensor is
    ok ((moved_key, block) ∷ rest)

  module _ (merge : List (KeyAndBlock X) → Outcome (TensorBlock X)) where
    -- The loop over the new keys.
    unfoldable pub merge_each :
        TensorMap X → RemovedDimensionsKeys → List Entry → Outcome (List (TensorBlock X))
    merge_each tensor splitted [] = ok []
    merge_each tensor splitted (entry ∷ entries) = do
      selection ← build splitted.new_keys.names (entry ∷ [])
      matching ← blocks_matching X tensor selection
      blocks_to_merge ← pick_blocks splitted.dimensions_positions tensor matching
      block ← merge blocks_to_merge
      rest ← merge_each tensor splitted entries
      ok (block ∷ rest)

    -- The body of both functions behind the split of the keys.
    unfoldable pub merge_groups : TensorMap X → RemovedDimensionsKeys → Outcome (TensorMap X)
    merge_groups tensor splitted =
        if count splitted.new_keys == 1
        then (do
          keys ← iter tensor.keys
          blocks_to_merge ← zip_blocks splitted.dimensions_positions keys tensor.blocks
          block ← merge blocks_to_merge
          new_map X splitted.new_keys (block ∷ []))
        else (do
          entries ← iter splitted.new_keys
          blocks ← merge_each tensor splitted entries
          new_map X splitted.new_keys blocks)
