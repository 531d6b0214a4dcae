-- ===== src/Tensor.antt =====
-- equistore-core/src/tensor/mod.rs: a tensor map, which has a block for each of its keys.
pub mod Keys
pub mod Merge
pub mod Sets
pub mod Samples
pub mod Groups
pub mod ToSamples
pub mod ToProperties
pub mod Matching
pub mod Properties
pub mod Ranges
pub mod Texts
pub mod Validity
pub mod Removal
pub mod Remaining
pub mod Removed
pub mod Shaped
pub mod ShapedMoves
pub mod ShapedMerges
use mathlib.Core.List.{lookup}
use equistore.Prelude.{
  ℕ, zero, suc, Bool, true, false, List, [], ◌∷◌, length, map, get_elem?, Option, some, none, ◌==◌,
  if◌then◌else◌, enumerate, equal, ℤ_discrete,
}
use equistore.Errors.{
  Name, Outcome, ok, err, ◌>>=◌, ◌>>◌, guard, expect, invalid_parameter, out_of_range, expected,
  wrong_blocks_count, different_sample_names, different_components_count, different_component_names,
  different_property_names, different_gradients, missing_gradient, selection_not_single,
  not_in_keys,
}
use equistore.Labels.{Entry, LabelValue, Labels, size, count, iter, name_dec, names_dec}
use equistore.Data.{Arrays}
use equistore.Blocks.{
  BasicBlock, TensorBlock, gradient, clone_block, block_components_to_properties,
}

-- The names of the components.
abbrev pub names_of : List Labels → List (List Name)
names_of = map (λ c. c.names)

-- The loop of `check_labels_names`; the lists have one length.
unfoldable pub check_component_names : List Labels → List (List Name) → Outcome (Unit {0})
check_component_names (component ∷ components) (names ∷ rest) = do
  guard (equal names_dec component.names names) (different_component_names component.names names)
  check_component_names components rest
check_component_names (component ∷ components) [] = ok tt
check_component_names [] rest = ok tt

-- The position of each requested name among the names of the keys.
unfoldable pub find_dimensions : List Name → List Name → Outcome (List ℕ)
find_dimensions [] names = ok []
find_dimensions (requested ∷ more) names = elim (lookup name_dec requested (enumerate 0 names)) [
  | none ↦ err (invalid_parameter (not_in_keys requested))
  | some i ↦ do rest ← find_dimensions more names; ok (i ∷ rest)
]

-- Whether a key has the requested values at the requested dimensions.
unfoldable pub matches : List ℕ → List LabelValue → Entry → Outcome Bool
matches (i ∷ dimensions) (value ∷ values) key = do
  found ← expect (get_elem? key i) out_of_range
  if equal ℤ_discrete found value then matches dimensions values key else ok false
matches (i ∷ dimensions) [] key = ok true
matches [] values key = ok true

-- The loop over the keys, from the key number `block_i` on.
unfoldable pub matching_from : ℕ → List ℕ → List LabelValue → List Entry → Outcome (List ℕ)
matching_from block_i dimensions values [] = ok []
matching_from block_i dimensions values (key ∷ keys) = do
  selected ← matches dimensions values key
  rest ← matching_from (suc block_i) dimensions values keys
  ok (if selected then block_i ∷ rest else rest)

-- `(start..start + n).collect()`.
unfoldable pub range : ℕ → ℕ → List ℕ
range start zero = []
range start (suc n) = start ∷ range (suc start) n

module _ (X : Arrays) where
  pub record TensorMap : Type 0 where
    pub keys : Labels
    pub blocks : List (TensorBlock X)

  -- `check_labels_names`.
  unfoldable pub check_labels_names :
      BasicBlock X → List Name → List (List Name) → Outcome (Unit {0})
  check_labels_names block sample_names components_names = do
    guard (equal names_dec block.samples.names sample_names)
        (different_sample_names block.samples.names sample_names)
    guard (length block.components == length components_names)
        (different_components_count (length block.components) (length components_names))
    check_component_names block.components components_names

  -- The loop over the gradients of a block, against those of the first block.
  unfoldable pub check_gradients : TensorBlock X → List (Name × BasicBlock X) → Outcome (Unit {0})
  check_gradients first [] = ok tt
  check_gradients first ((parameter, g) ∷ gradients) = elim (gradient X first parameter) [
    | none ↦ err (invalid_parameter (missing_gradient parameter))
    | some f ↦ do
      check_labels_names g f.samples.names (names_of f.components)
      check_gradients first gradients
  ]

  -- The checks of one block against the first.
  unfoldable pub check_block : TensorBlock X → TensorBlock X → Outcome (Unit {0})
  check_block first block = do
    check_labels_names block.values first.values.samples.names (names_of first.values.components)
    guard (equal names_dec block.values.properties.names first.values.properties.names)
        (different_property_names block.values.properties.names first.values.properties.names)
    guard (length block.gradients == length first.gradients) different_gradients
    check_gradients first block.gradients

  unfoldable pub check_blocks : TensorBlock X → List (TensorBlock X) → Outcome (Unit {0})
  check_blocks first [] = ok tt
  check_blocks first (block ∷ blocks) = do check_block first block; check_blocks first blocks

  -- The checks of `TensorMap::new` behind that of the number of blocks.
  unfoldable pub check_all : List (TensorBlock X) → Outcome (Unit {0})
  check_all [] = ok tt
  check_all (first ∷ blocks) = check_blocks first (first ∷ blocks)

  -- `TensorMap::new`.
  unfoldable pub new_map : Labels → List (TensorBlock X) → Outcome TensorMap
  new_map keys blocks = do
    guard (length blocks == count keys) (wrong_blocks_count (count keys) (length blocks))
    check_all blocks
    ok (record { keys = keys; blocks = blocks })

  -- `TensorMap::blocks_matching` behind the checks of the selection.
  unfoldable pub matching_rows : TensorMap → Labels → Outcome (List ℕ)
  matching_rows tensor selection = do
    dimensions ← find_dimensions selection.names tensor.keys.names
    selected ← iter selection
    values ← expect (get_elem? selected 0) expected
    keys ← iter tensor.keys
    matching_from 0 dimensions values keys

  -- `TensorMap::blocks_matching`.
  unfoldable pub blocks_matching : TensorMap → Labels → Outcome (List ℕ)
  blocks_matching tensor selection =
      if size selection == 0 then ok (range 0 (length tensor.blocks)) else (do
        guard (count selection == 1) (selection_not_single (count selection))
        matching_rows tensor selection)

  unfoldable pub clone_blocks : List (TensorBlock X) → Outcome (List (TensorBlock X))
  clone_blocks [] = ok []
  clone_blocks (block ∷ blocks) = do
    block' ← clone_block X block
    rest ← clone_blocks blocks
    ok (block' ∷ rest)

  -- `TensorMap::try_clone`.
  unfoldable pub clone_map : TensorMap → Outcome TensorMap
  clone_map tensor = do
    blocks ← clone_blocks tensor.blocks
    ok (record { keys = tensor.keys; blocks = blocks })

  unfoldable pub move_components : List (TensorBlock X) → List Name → Outcome (List (TensorBlock X))
  move_components [] dimensions = ok []
  move_components (block ∷ blocks) dimensions = do
    block' ← block_components_to_properties X block dimensions
    rest ← move_components blocks dimensions
    ok (block' ∷ rest)

  -- `TensorMap::components_to_properties`, on a copy of the tensor map.
  unfoldable pub components_to_properties : TensorMap → List Name → Outcome TensorMap
  components_to_properties tensor dimensions = do
    clone ← clone_map tensor
    if length dimensions == 0 then ok clone else (do
      blocks ← move_components clone.blocks dimensions
      ok (record clone { blocks = blocks }))
