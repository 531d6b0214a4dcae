-- ===== src/Io/Loading.antt =====
-- equistore-core/src/io/mod.rs: what `load` accepts.
use equistore.Prelude.{ℕ, zero, suc, ◌≡◌, subst, List, [], ◌∷◌, ◌++◌, All, codes}
use equistore.Errors.{Name, Outcome, ok, >>=-eq-ok}
use equistore.Labels.{count}
use equistore.Data.{Arrays}
use equistore.Blocks.{TensorBlock, new_block, add_gradient}
use equistore.Tensor.{TensorMap}
use equistore.Tensor.Shaped.{
  IsShaped, IsShapedMap, new_block-IsShaped, add_gradient-IsShaped, new_map-IsShapedMap,
}
use equistore.Io.{Formats, read_data}
use equistore.Io.Archives.{
  Zip, map_err, find_parameters, components_count, values_path, gradient_path, load_labels,
  load_components, load_gradients, load_block, load_blocks, load,
}

module _ (X : Arrays) (F : Formats X.Float) (Z : Zip F.Byte)
    (fill : X.Array → List X.Float → X.Array) (create_array : List ℕ → Outcome X.Array) where
  load_gradients-IsShaped :
      (archive : Z.Archive) (block_i : ℕ) (block : TensorBlock X) (parameters : List Name)
      {block' : TensorBlock X}
      → IsShaped X block
      → load_gradients X F Z fill create_array archive block_i block parameters ≡ ok block'
      → IsShaped X block'
  unfolding load_gradients
  load_gradients-IsShaped archive block_i block [] v h = subst (IsShaped X) (cc h) v
  load_gradients-IsShaped archive block_i block (parameter ∷ parameters) v h =
      let prefix = gradient_path block_i parameter in
      let (file, _, h₁) =
        >>=-eq-ok
          (map_err (prefix ++ codes "data.npy") (Z.by_name archive (prefix ++ codes "data.npy"))) _
          h in
      let (read, _, h₂) = >>=-eq-ok (read_data X F fill create_array file) _ h₁ in
      let (samples, _, h₃) =
        >>=-eq-ok (load_labels X F Z fill create_array archive (prefix ++ codes "samples.npy")) _
          h₂ in
      let (components, _, h₄) =
        >>=-eq-ok
          (load_components X F Z fill create_array archive prefix 0 (components_count read.1)) _
          h₃ in
      let (added, new, h₅) =
        >>=-eq-ok (add_gradient X block parameter read.0 samples components) _ h₄ in
      load_gradients-IsShaped archive block_i added parameters
        (add_gradient-IsShaped X block parameter read.0 samples components v new) h₅

  load_block-IsShaped :
      (archive : Z.Archive) (parameters : List Name) (block_i : ℕ) {block : TensorBlock X}
      → load_block X F Z fill create_array archive parameters block_i ≡ ok block
      → IsShaped X block
  unfolding load_block
  load_block-IsShaped archive parameters block_i h =
      let prefix = values_path block_i in
      let (file, _, h₁) =
        >>=-eq-ok
          (map_err (prefix ++ codes "data.npy") (Z.by_name archive (prefix ++ codes "data.npy"))) _
          h in
      let (read, _, h₂) = >>=-eq-ok (read_data X F fill create_array file) _ h₁ in
      let (samples, _, h₃) =
        >>=-eq-ok (load_labels X F Z fill create_array archive (prefix ++ codes "samples.npy")) _
          h₂ in
      let (components, _, h₄) =
        >>=-eq-ok
          (load_components X F Z fill create_array archive prefix 0 (components_count read.1)) _
          h₃ in
      let (properties, _, h₅) =
        >>=-eq-ok (load_labels X F Z fill create_array archive (prefix ++ codes "properties.npy")) _
          h₄ in
      let (block, new, h₆) = >>=-eq-ok (new_block X read.0 samples components properties) _ h₅ in
      load_gradients-IsShaped archive block_i block parameters
        (new_block-IsShaped X read.0 samples components properties new) h₆

  load_blocks-IsShaped :
      (archive : Z.Archive) (parameters : List Name) (block_i n : ℕ) {blocks : List (TensorBlock X)}
      → load_blocks X F Z fill create_array archive parameters block_i n ≡ ok blocks
      → All (IsShaped X) blocks
  unfolding load_blocks
  load_blocks-IsShaped archive parameters block_i zero {blocks} h =
      let same : [] ≡ blocks = cc h in subst (All (IsShaped X)) same tt
  load_blocks-IsShaped archive parameters block_i (suc n) {blocks} h =
      let (block, one, h₁) =
        >>=-eq-ok (load_block X F Z fill create_array archive parameters block_i) _ h in
      let (rest, more, h₂) =
        >>=-eq-ok (load_blocks X F Z fill create_array archive parameters (suc block_i) n) _ h₁ in
      let same : block ∷ rest ≡ blocks = cc h₂ in
      subst (All (IsShaped X)) same (
        load_block-IsShaped archive parameters block_i one,
        load_blocks-IsShaped archive parameters (suc block_i) n more,
      )

  -- Whatever the bytes, and whatever arrays the caller creates, a tensor map that `load` returns has a
  -- block for each key, and the data of all blocks and gradients fits their labels.
  pub load-IsShapedMap :
      (reader : List F.Byte) {tensor : TensorMap X}
      → load X F Z fill create_array reader ≡ ok tensor
      → IsShapedMap X tensor
  unfolding load
  load-IsShapedMap reader h =
      let (archive, _, h₁) = >>=-eq-ok (map_err (codes "<root>") (Z.open_archive reader)) _ h in
      let (keys, _, h₂) =
        >>=-eq-ok (load_labels X F Z fill create_array archive (codes "keys.npy")) _ h₁ in
      let (parameters, _, h₃) = >>=-eq-ok (find_parameters (Z.file_names archive)) _ h₂ in
      let (blocks, loaded, h₄) =
        >>=-eq-ok (load_blocks X F Z fill create_array archive parameters 0 (count keys)) _ h₃ in
      new_map-IsShapedMap X keys blocks
        (load_blocks-IsShaped archive parameters 0 (count keys) loaded) h₄
