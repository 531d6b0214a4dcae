-- ===== src/Tensor/ShapedMerges.antt =====
-- Moving keys to the samples or the properties makes tensor maps whose data fits their labels.
use equistore.Prelude.{
  ℕ, ◌-◌, ◌≡◌, subst, Bool, Bool-cases, inl, inr, List, [], ◌∷◌, ◌++◌, length, All, ◌==◌,
  if◌then◌else◌, Option, none, some, get_elem?, not, ltb,
}
use equistore.Errors.{
  Name, Outcome, ok, err, panic, ◌>>=◌, guard, >>=-eq-ok, expect, expect_ok, expected,
  not_implemented,
}
use equistore.Labels.{Entry, Labels, count, iter}
use equistore.Labels.Builder.{build}
use equistore.Data.{Arrays, SampleMapping, shape, create}
use equistore.Blocks.{BasicBlock, TensorBlock, new_block, add_gradient}
use equistore.Tensor.{TensorMap, blocks_matching}
use equistore.Tensor.Keys.{IndexSets, RemovedDimensionsKeys, remove_dimensions_from_keys}
use equistore.Tensor.Merge.{KeyAndBlock, merge_samples, merge_gradient_samples}
use equistore.Tensor.Groups.{zip_blocks, pick_blocks, merge_each, merge_groups}
use equistore.Tensor.ToSamples
use equistore.Tensor.ToSamples.{
  set_axis, check_mergeable, merge_blocks_along_samples, keys_to_samples,
}
use equistore.Tensor.ToProperties
use equistore.Tensor.ToProperties.{
  Range, is_given, check_blocks_mergeable, property_ranges, collect_new,
  merge_blocks_along_properties, keys_to_properties,
}
use equistore.Tensor.Shaped.{
  IsShaped, IsShapedMap, new_block-IsShaped, add_gradient-IsShaped, new_map-IsShapedMap,
}

expect_ok-eq-ok {ℓ} : {A : Type ℓ} (o : Outcome A) {a : A} → expect_ok o ≡ ok a → o ≡ ok a
expect_ok-eq-ok (ok b) h = h
expect_ok-eq-ok (err e) h = cc
expect_ok-eq-ok (panic m) h = cc

module _ (X : Arrays) where
  -- The loops over the gradients add them to the merged block.
  samples_gradients-IsShaped :
      (merged first : TensorBlock X) (blocks : List (KeyAndBlock X))
      (mappings : List (List SampleMapping)) (stop : ℕ) (gradients : List (Name × BasicBlock X))
      {block : TensorBlock X}
      → IsShaped X merged
      → ToSamples.merge_gradients X merged first blocks mappings stop gradients ≡ ok block
      → IsShaped X block
  unfolding ToSamples.merge_gradients
  samples_gradients-IsShaped merged first blocks mappings stop [] v h = subst (IsShaped X) (cc h) v
  samples_gradients-IsShaped merged first blocks mappings stop ((parameter, g) ∷ gradients) v h =
      let (new_samples, _, h₁) =
        >>=-eq-ok (merge_gradient_samples X blocks parameter mappings) _ h in
      let (s, _, h₂) = >>=-eq-ok (shape X g.array) _ h₁ in
      let (new_shape, _, h₃) = >>=-eq-ok (set_axis s 0 (count new_samples)) _ h₂ in
      let (new_gradient, _, h₄) = >>=-eq-ok (create X first.values.array new_shape) _ h₃ in
      let (moved, _, h₅) =
        >>=-eq-ok
          (ToSamples.move_gradient X parameter new_samples new_gradient blocks mappings stop) _
          h₄ in
      let (merged', added, h₆) =
        >>=-eq-ok (expect_ok (add_gradient X merged parameter moved new_samples g.components)) _
          h₅ in
      samples_gradients-IsShaped merged' first blocks mappings stop gradients
        (add_gradient-IsShaped X merged parameter moved new_samples g.components v
          (expect_ok-eq-ok _ added))
        h₆

  properties_gradients-IsShaped :
      (merged first : TensorBlock X) (blocks : List (KeyAndBlock X))
      (mappings : List (List SampleMapping)) (ranges : List (Option Range)) (new_count : ℕ)
      (gradients : List (Name × BasicBlock X)) {block : TensorBlock X}
      → IsShaped X merged
      → ToProperties.merge_gradients X merged first blocks mappings ranges new_count gradients
        ≡ ok block
      → IsShaped X block
  unfolding ToProperties.merge_gradients
  properties_gradients-IsShaped merged first blocks mappings ranges n [] v h =
      subst (IsShaped X) (cc h) v
  properties_gradients-IsShaped merged first blocks mappings ranges n ((parameter, g) ∷ gradients) v
        h =
      let (new_samples, _, h₁) =
        >>=-eq-ok (merge_gradient_samples X blocks parameter mappings) _ h in
      let (s, _, h₂) = >>=-eq-ok (shape X g.array) _ h₁ in
      let (first_shape, _, h₃) = >>=-eq-ok (set_axis s 0 (count new_samples)) _ h₂ in
      let (new_shape, _, h₄) = >>=-eq-ok (set_axis first_shape (length s - 1) n) _ h₃ in
      let (new_gradient, _, h₅) = >>=-eq-ok (create X first.values.array new_shape) _ h₄ in
      let (moved, _, h₆) =
        >>=-eq-ok
          (ToProperties.move_gradient X parameter new_samples new_gradient blocks mappings ranges) _
          h₅ in
      let (merged', added, h₇) =
        >>=-eq-ok (expect_ok (add_gradient X merged parameter moved new_samples g.components)) _
          h₆ in
      properties_gradients-IsShaped merged' first blocks mappings ranges n gradients
        (add_gradient-IsShaped X merged parameter moved new_samples g.components v
          (expect_ok-eq-ok _ added))
        h₇

  module _ (I : IndexSets) where
    merge_blocks_along_samples-IsShaped :
        (extracted_names : List Name) (sort_samples : Bool) (blocks : List (KeyAndBlock X))
        {block : TensorBlock X}
        → merge_blocks_along_samples X I extracted_names sort_samples blocks ≡ ok block
        → IsShaped X block
    unfolding merge_blocks_along_samples
    merge_blocks_along_samples-IsShaped extracted_names sort_samples blocks h =
        let (first_pair, _, h₁) = >>=-eq-ok (expect (get_elem? blocks 0) expected) _ h in
        let first = first_pair.1 in
        let (_, _, h₂) = >>=-eq-ok (check_mergeable X first blocks) _ h₁ in
        let (merged_mappings, _, h₃) =
          >>=-eq-ok
            (merge_samples X I blocks (first.values.samples.names ++ extracted_names) sort_samples)
            _ h₂ in
        let (s, _, h₄) = >>=-eq-ok (shape X first.values.array) _ h₃ in
        let (new_shape, _, h₅) = >>=-eq-ok (set_axis s 0 (count merged_mappings.0)) _ h₄ in
        let (new_data, _, h₆) = >>=-eq-ok (create X first.values.array new_shape) _ h₅ in
        let (moved, _, h₇) =
          >>=-eq-ok
            (ToSamples.move_values X new_data blocks merged_mappings.1
              (count first.values.properties))
            _ h₆ in
        let (merged, made, h₈) =
          >>=-eq-ok
            (expect_ok
              (new_block X moved merged_mappings.0 first.values.components first.values.properties))
            _ h₇ in
        samples_gradients-IsShaped merged first blocks merged_mappings.1
          (count first.values.properties) first.gradients
          (new_block-IsShaped X moved merged_mappings.0 first.values.components
            first.values.properties (expect_ok-eq-ok _ made))
          h₈

    -- The data of the merged block, once its labels are built.
    move_into-IsShaped :
        (first : TensorBlock X) (blocks : List (KeyAndBlock X))
        (merged_samples new_properties : Labels) (mappings : List (List SampleMapping))
        (new_data : X.Array) {block : TensorBlock X}
        → (do
          ranges ← property_ranges X new_properties blocks
          moved ← ToProperties.move_values X new_data blocks mappings ranges
          merged ←
              expect_ok (new_block X moved merged_samples first.values.components new_properties)
          ToProperties.merge_gradients X merged first blocks mappings ranges
              (count new_properties)
              first.gradients)
          ≡ ok block
        → IsShaped X block
    move_into-IsShaped first blocks merged_samples new_properties mappings new_data h =
        let (ranges, _, h₁) = >>=-eq-ok (property_ranges X new_properties blocks) _ h in
        let (moved, _, h₂) =
          >>=-eq-ok (ToProperties.move_values X new_data blocks mappings ranges) _ h₁ in
        let (merged, made, h₃) =
          >>=-eq-ok
            (expect_ok (new_block X moved merged_samples first.values.components new_properties)) _
            h₂ in
        properties_gradients-IsShaped merged first blocks mappings ranges (count new_properties)
          first.gradients
          (new_block-IsShaped X moved merged_samples first.values.components new_properties
            (expect_ok-eq-ok _ made))
          h₃

    merge_blocks_along_properties-IsShaped :
        (keys_to_move : Option Labels) (extracted_names : List Name) (sort_samples : Bool)
        (blocks : List (KeyAndBlock X)) {block : TensorBlock X}
        → merge_blocks_along_properties X I keys_to_move extracted_names sort_samples blocks
          ≡ ok block
        → IsShaped X block
    unfolding merge_blocks_along_properties
    merge_blocks_along_properties-IsShaped keys_to_move extracted_names sort_samples blocks h =
        let (first_pair, _, h₁) = >>=-eq-ok (expect (get_elem? blocks 0) expected) _ h in
        let first = first_pair.1 in
        let (_, _, h₂) =
          >>=-eq-ok (check_blocks_mergeable X (is_given keys_to_move) first blocks) _ h₁ in
        let (merged_mappings, _, h₃) =
          >>=-eq-ok (merge_samples X I blocks first.values.samples.names sort_samples) _ h₂ in
        let (properties, _, h₄) = >>=-eq-ok (collect_new X I keys_to_move first blocks) _ h₃ in
        let (new_properties, _, h₅) =
          >>=-eq-ok (build (extracted_names ++ first.values.properties.names) properties) _ h₄ in
        let (s, _, h₆) = >>=-eq-ok (shape X first.values.array) _ h₅ in
        let (first_shape, _, h₇) = >>=-eq-ok (set_axis s 0 (count merged_mappings.0)) _ h₆ in
        let (new_shape, _, h₈) =
          >>=-eq-ok (set_axis first_shape (length s - 1) (count new_properties)) _ h₇ in
        let (new_data, _, h₉) = >>=-eq-ok (create X first.values.array new_shape) _ h₈ in
        move_into-IsShaped first blocks merged_mappings.0 new_properties merged_mappings.1 new_data
          h₉

  module _ (merge : List (KeyAndBlock X) → Outcome (TensorBlock X))
      (shaped : (blocks : List (KeyAndBlock X)) (block : TensorBlock X)
        → merge blocks ≡ ok block
        → IsShaped X block) where
    merge_each-IsShaped :
        (tensor : TensorMap X) (splitted : RemovedDimensionsKeys) (entries : List Entry)
        {blocks : List (TensorBlock X)}
        → merge_each X merge tensor splitted entries ≡ ok blocks
        → All (IsShaped X) blocks
    unfolding merge_each
    merge_each-IsShaped tensor splitted [] {blocks} h =
        let same : [] ≡ blocks = cc h in subst (All (IsShaped X)) same tt
    merge_each-IsShaped tensor splitted (entry ∷ entries) {blocks} h =
        let (selection, _, h₁) = >>=-eq-ok (build splitted.new_keys.names (entry ∷ [])) _ h in
        let (matching, _, h₂) = >>=-eq-ok (blocks_matching X tensor selection) _ h₁ in
        let (to_merge, _, h₃) =
          >>=-eq-ok (pick_blocks X splitted.dimensions_positions tensor matching) _ h₂ in
        let (block, merged, h₄) = >>=-eq-ok (merge to_merge) _ h₃ in
        let (rest, more, h₅) = >>=-eq-ok (merge_each X merge tensor splitted entries) _ h₄ in
        let same : block ∷ rest ≡ blocks = cc h₅ in
        subst (All (IsShaped X)) same
          (shaped to_merge block merged, merge_each-IsShaped tensor splitted entries more)

    merge_groups-IsShapedMap :
        (tensor : TensorMap X) (splitted : RemovedDimensionsKeys) {tensor' : TensorMap X}
        → merge_groups X merge tensor splitted ≡ ok tensor'
        → IsShapedMap X tensor'
    unfolding merge_groups
    merge_groups-IsShapedMap tensor splitted h = elim (Bool-cases (count splitted.new_keys == 1)) [
      | inl single ↦
          let (keys, _, h₁) = >>=-eq-ok (iter tensor.keys) _ (rw single at h) in
          let (to_merge, _, h₂) =
            >>=-eq-ok (zip_blocks X splitted.dimensions_positions keys tensor.blocks) _ h₁ in
          let (block, merged, h₃) = >>=-eq-ok (merge to_merge) _ h₂ in
          new_map-IsShapedMap X splitted.new_keys (block ∷ []) (shaped to_merge block merged, tt) h₃
      | inr several ↦
          let (entries, _, h₁) = >>=-eq-ok (iter splitted.new_keys) _ (rw several at h) in
          let (blocks, each, h₂) = >>=-eq-ok (merge_each X merge tensor splitted entries) _ h₁ in
          new_map-IsShapedMap X splitted.new_keys blocks
            (merge_each-IsShaped tensor splitted entries each) h₂
    ]

  module _ (I : IndexSets) (tensor : TensorMap X) (keys_to_move : Labels) (sort_samples : Bool)
      {tensor' : TensorMap X} where
    -- Whatever the tensor map, where `keys_to_samples` succeeds there is a block for each new key, and
    -- the data of all blocks and gradients fits their labels.
    pub keys_to_samples-IsShapedMap :
        keys_to_samples X I tensor keys_to_move sort_samples ≡ ok tensor' → IsShapedMap X tensor'
    unfolding keys_to_samples
    keys_to_samples-IsShapedMap h =
        let (_, _, h₁) = >>=-eq-ok (guard (not (ltb 0 (count keys_to_move))) not_implemented) _ h in
        let (splitted, _, h₂) =
          >>=-eq-ok (remove_dimensions_from_keys I tensor.keys keys_to_move.names) _ h₁ in
        merge_groups-IsShapedMap (merge_blocks_along_samples X I keys_to_move.names sort_samples)
          (λ blocks block.
            merge_blocks_along_samples-IsShaped I keys_to_move.names sort_samples blocks)
          tensor splitted h₂

    -- Whatever the tensor map, where `keys_to_properties` succeeds there is a block for each new key,
    -- and the data of all blocks and gradients fits their labels.
    pub keys_to_properties-IsShapedMap :
        keys_to_properties X I tensor keys_to_move sort_samples ≡ ok tensor' → IsShapedMap X tensor'
    unfolding keys_to_properties
    keys_to_properties-IsShapedMap h =
        let given : Option Labels = if count keys_to_move == 0 then none else some keys_to_move in
        let (splitted, _, h₁) =
          >>=-eq-ok (remove_dimensions_from_keys I tensor.keys keys_to_move.names) _ h in
        merge_groups-IsShapedMap
          (merge_blocks_along_properties X I given keys_to_move.names sort_samples)
          (λ blocks block.
            merge_blocks_along_properties-IsShaped I given keys_to_move.names sort_samples blocks)
          tensor splitted h₁
