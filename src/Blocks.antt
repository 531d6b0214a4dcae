-- ===== src/Blocks.antt =====
-- equistore-core/src/blocks.rs: a block of data with its labels, and its gradients.
--
-- `X` gives the arrays. `Arc` shares immutable labels, so a shared value is the value itself. A
-- method that changes its block returns the block; where it fails, its caller gives the block up. The
-- gradients are the list of the entries of their `HashMap`, in any order; the theorems hold for each
-- order. A message's context, which only says what is checked, is left out.
pub mod Shape
pub mod Basic
pub mod Gradient
pub mod Adding
pub mod Moved
pub mod MovedShape
use mathlib.Core.List.{lookup}
use equistore.Prelude.{
  ℕ, zero, suc, ◌+◌, ◌-◌, ◌<◌, ◌≡◌, Bool, true, false, ◌&&◌, not, List, [], ◌∷◌, ◌++◌, length, map,
  drop, get_elem?, set, Option, some, none, ltb, ◌==◌, if◌then◌else◌, n_unique, contains, equal,
  codes, ℕ_discrete,
}
use equistore.Errors.{
  Name, Message, Outcome, ok, err, panic, ◌>>=◌, ◌>>◌, guard, assert, expect, expect_ok,
  invalid_parameter, out_of_range, wrong_dimensions, wrong_samples, repeated_component_names,
  wrong_component, wrong_properties, component_not_single, missing_component, gradient_exists,
  different_origins, gradient_named_values, no_gradient_samples, first_not_sample,
  too_few_components, components_mismatch,
}
use equistore.Labels.{
  Entry, LabelsBuilder, Labels, size, count, iter, labels_eq, name_dec, names_dec,
}
use equistore.Labels.Builder.{new, add_all, finish, check_c_strings}
use equistore.Data.{Arrays, shape, origin, reshape, swap_axes, try_clone}

-- `shape[i]`.
abbrev pub at_axis : List ℕ → ℕ → Outcome ℕ
at_axis s i = expect (get_elem? s i) out_of_range

-- `Vec::remove`.
unfoldable pub remove_at {ℓ} : {A : Type ℓ} → List A → ℕ → List A
remove_at [] i = []
remove_at (x ∷ xs) zero = xs
remove_at (x ∷ xs) (suc i) = x ∷ remove_at xs i

-- The loop of `check_data_and_labels` over the components, from the axis `dimension` on. It gives
-- the axis that follows.
unfoldable pub check_components : List ℕ → ℕ → List Labels → Outcome ℕ
check_components s dimension [] = ok dimension
check_components s dimension (component ∷ components) = do
  n ← at_axis s dimension
  guard (n == count component) (wrong_component dimension n (count component))
  check_components s (suc dimension) components

-- `check_data_and_labels`, behind the call that asks the data for its shape.
unfoldable pub check_shape : List ℕ → Labels → List Labels → Labels → Outcome (Unit {0})
check_shape s samples components properties = do
  guard (length s == length components + 2) (wrong_dimensions (length s) (length components + 2))
  first ← at_axis s 0
  guard (first == count samples) (wrong_samples first (count samples))
  guard (n_unique names_dec (map (λ c. c.names) components) == length components)
      repeated_component_names
  dimension ← check_components s 1 components
  last ← at_axis s dimension
  guard (last == count properties) (wrong_properties dimension last (count properties))

-- `check_component_labels`, from the component number `i` on.
unfoldable pub check_component_labels : ℕ → List Labels → Outcome (Unit {0})
check_component_labels i [] = ok tt
check_component_labels i (component ∷ components) = do
  guard (size component == 1) (component_not_single (size component) component.names i)
  check_component_labels (suc i) components

-- The loop of `add_gradient` over the components of the gradient and of the values.
unfoldable pub check_same_components : ℕ → List Labels → List Labels → Outcome (Unit {0})
check_same_components i (g ∷ gradient) (v ∷ values) = do
  guard (labels_eq g v) (components_mismatch i v.names)
  check_same_components (suc i) gradient values
check_same_components i _ _ = ok tt

-- The search for the component with the names `dimensions`.
unfoldable pub find_component : List Name → ℕ → List Labels → Option ℕ
find_component dimensions i [] = none
find_component dimensions i (component ∷ components) =
    if equal names_dec component.names dimensions
    then some i
    else find_component dimensions (suc i) components

-- The loops that add each property of the component before each old property.
unfoldable pub add_products : LabelsBuilder → List Entry → Labels → Outcome LabelsBuilder
add_products b [] old_properties = ok b
add_products b (new_property ∷ more) old_properties = do
  old ← iter old_properties
  b' ← add_all b (map (λ old_property. new_property ++ old_property) old)
  add_products b' more old_properties

abbrev pub values_name : Name
values_name = codes "values"

abbrev pub sample_name : Name
sample_name = codes "sample"

module _ (X : Arrays) where
  pub record BasicBlock : Type 0 where
    pub array : X.Array
    pub samples : Labels
    pub components : List Labels
    pub properties : Labels

  pub record TensorBlock : Type 0 where
    pub values : BasicBlock
    pub gradients : List (Name × BasicBlock)
    pub gradient_parameters : List Name

  -- `check_data_and_labels`.
  unfoldable pub check_data_and_labels :
      X.Array → Labels → List Labels → Labels → Outcome (Unit {0})
  check_data_and_labels data_array samples components properties = do
    s ← shape X data_array
    check_shape s samples components properties

  -- `BasicBlock::new`.
  unfoldable pub new_basic : X.Array → Labels → List Labels → Labels → Outcome BasicBlock
  new_basic data_array samples components properties = do
    check_data_and_labels data_array samples components properties
    check_component_labels 0 components
    ok (record {
      array = data_array;
      samples = samples;
      components = components;
      properties = properties;
    })

  -- `TensorBlock::new`.
  unfoldable pub new_block : X.Array → Labels → List Labels → Labels → Outcome TensorBlock
  new_block data_array samples components properties = do
    values ← new_basic data_array samples components properties
    ok (record { values = values; gradients = []; gradient_parameters = [] })

  -- `TensorBlock::gradient`.
  unfoldable pub gradient : TensorBlock → Name → Option BasicBlock
  gradient block parameter = lookup name_dec parameter block.gradients

  -- `samples.names()[0]`.
  abbrev pub first_name : Labels → Outcome Name
  first_name samples = expect (get_elem? samples.names 0) out_of_range

  -- The checks of `TensorBlock::add_gradient`, in their order.
  unfoldable pub check_gradient :
      TensorBlock → Name → X.Array → Labels → List Labels → Outcome (Unit {0})
  check_gradient block parameter data_array samples components = do
    guard (elim (gradient block parameter) [ none ↦ true | some g ↦ false ])
        (gradient_exists parameter)
    new_origin ← origin X data_array
    values_origin ← origin X block.values.array
    guard (new_origin == values_origin) (different_origins new_origin values_origin)
    guard (not (equal name_dec parameter values_name)) gradient_named_values
    guard (not (size samples == 0)) no_gradient_samples
    first ← first_name samples
    guard (not (ltb (size samples) 1) && equal name_dec first sample_name) (first_not_sample first)
    check_component_labels 0 components
    guard (not (ltb (length components) (length block.values.components))) too_few_components
    check_same_components 0 (drop (length components - length block.values.components) components)
        block.values.components
    check_data_and_labels data_array samples components block.values.properties

  -- `TensorBlock::add_gradient`.
  unfoldable pub add_gradient :
      TensorBlock → Name → X.Array → Labels → List Labels → Outcome TensorBlock
  add_gradient block parameter data_array samples components = do
    check_gradient block parameter data_array samples components
    check_c_strings (parameter ∷ [])
    ok (record block {
      gradients =
          block.gradients
          ++ (
            parameter,
            record {
              array = data_array;
              samples = samples;
              components = components;
              properties = block.values.properties;
            },
          )
            ∷ [];
      gradient_parameters = block.gradient_parameters ++ parameter ∷ [];
    })

  -- The new properties of `BasicBlock::components_to_properties`.
  unfoldable pub moved_properties : Labels → Labels → Outcome Labels
  moved_properties moved_component old_properties = do
    b ← new (moved_component.names ++ old_properties.names)
    components ← iter moved_component
    b' ← add_products b components old_properties
    finish b'

  -- The shape that the data gets: the last axis counts the new properties, and the axis of the
  -- component is gone.
  unfoldable pub moved_shape : List ℕ → ℕ → ℕ → Outcome (List ℕ)
  moved_shape s component_axis new_count = do
    assert (ltb (length s - 1) (length s)) out_of_range
    assert (ltb (component_axis + 1) (length s)) out_of_range
    ok (remove_at (set s (length s - 1) new_count) (component_axis + 1))

  -- `BasicBlock::components_to_properties`.
  unfoldable pub basic_components_to_properties : BasicBlock → List Name → Outcome BasicBlock
  basic_components_to_properties b dimensions = elim (find_component dimensions 0 b.components) [
    | none ↦ err (invalid_parameter (missing_component dimensions))
    | some component_axis ↦ do
      moved_component ← expect (get_elem? b.components component_axis) out_of_range
      new_properties ← moved_properties moved_component b.properties
      s ← shape X b.array
      new_shape ← moved_shape s component_axis (count new_properties)
      swapped ← swap_axes X b.array (component_axis + 1) (length s - 1 - 1)
      reshaped ← reshape X swapped new_shape
      ok (record b {
        array = reshaped;
        components = remove_at b.components component_axis;
        properties = new_properties;
      })
  ]

  -- The loop over the gradients.
  unfoldable pub move_gradients :
      List (Name × BasicBlock) → List Name → Outcome (List (Name × BasicBlock))
  move_gradients [] dimensions = ok []
  move_gradients ((parameter, b) ∷ gradients) dimensions = do
    b' ← basic_components_to_properties b dimensions
    rest ← move_gradients gradients dimensions
    ok ((parameter, b') ∷ rest)

  -- `TensorBlock::components_to_properties`.
  unfoldable pub block_components_to_properties : TensorBlock → List Name → Outcome TensorBlock
  block_components_to_properties block [] = ok block
  block_components_to_properties block (d ∷ dimensions) = do
    values ← basic_components_to_properties block.values (d ∷ dimensions)
    gradients ← move_gradients block.gradients (d ∷ dimensions)
    ok (record block { values = values; gradients = gradients })

  -- `BasicBlock::try_clone`.
  unfoldable pub clone_basic : BasicBlock → Outcome BasicBlock
  clone_basic b = do array ← try_clone X b.array; ok (record b { array = array })

  unfoldable pub clone_gradients : List (Name × BasicBlock) → Outcome (List (Name × BasicBlock))
  clone_gradients [] = ok []
  clone_gradients ((parameter, b) ∷ gradients) = do
    b' ← clone_basic b
    rest ← clone_gradients gradients
    ok ((parameter, b') ∷ rest)

  -- `TensorBlock::try_clone`.
  unfoldable pub clone_block : TensorBlock → Outcome TensorBlock
  clone_block block = do
    values ← clone_basic block.values
    gradients ← clone_gradients block.gradients
    ok (record block { values = values; gradients = gradients })
