-- ===== src/CApi/Blocks.antt =====
-- equistore-core/src/c_api/blocks.rs.
use equistore.Prelude.{
  ℕ, ◌+◌, ◌-◌, not, ◌==◌, ltb, List, [], ◌∷◌, length, Option, none, some, get_elem?, if◌then◌else◌,
  equal,
}
use equistore.Errors.{
  Name, Error, Outcome, ok, err, expect, invalid_parameter, out_of_range, allocated_labels,
  missing_gradients, wrong_axis, null_pointer,
}
use equistore.Labels.{Labels, name_dec}
use equistore.Data.{Arrays}
use equistore.Blocks.{
  BasicBlock, TensorBlock, new_block, clone_block, gradient, add_gradient, values_name,
}
use equistore.CApi.{
  Unsafe, defined, ◌>>=◌, ◌>>◌, check, check_pointer, CString, to_str, from_raw_parts, Called, call,
}
use equistore.CApi.Labels.{EqsLabels, is_rust, rust_to_eqs_labels, eqs_labels_to_rust}
use equistore.CApi.Heap.{
  BlockPtr, null, is_null, Heap, read_block, write_block, box_block, unbox_block,
}

-- A function that gives a pointer gives NULL where its status is a failure, and keeps the error.
abbrev pub Returned {ℓ} : Type ℓ → Type ℓ
Returned A = Option Error × A

unfoldable pub returned {ℓ} : {A : Type ℓ} → Option (Called A) → Option (Returned A)
returned none = none
returned (some (status, kept, a)) = some (kept, a)

-- `check_pointers!` on a pointer to a block.
unfoldable pub check_block_pointer : BlockPtr → Unsafe (Unit {0})
check_block_pointer block = check (not (is_null block)) null_pointer

-- The loop over the components.
unfoldable pub labels_to_rust : List EqsLabels → Unsafe (List Labels)
labels_to_rust [] = defined (ok [])
labels_to_rust (labels ∷ more) = do
  rust ← eqs_labels_to_rust labels
  rest ← labels_to_rust more
  defined (ok (rust ∷ rest))

module _ (X : Arrays) where
  unfoldable pub eqs_block :
      Option Error
      → Heap X
      → X.Array
      → EqsLabels
      → Option (List EqsLabels)
      → ℕ
      → EqsLabels
      → Option (Returned (Heap X × BlockPtr))
  eqs_block before heap data_array samples components components_count properties = returned (
      call before (heap, null)
        (do
          rust_samples ← eqs_labels_to_rust samples
          slice ← from_raw_parts components components_count
          rust_components ← labels_to_rust slice
          rust_properties ← eqs_labels_to_rust properties
          block ← defined (new_block X data_array rust_samples rust_components rust_properties)
          defined (ok (box_block X heap block))))

  -- The block is dropped.
  unfoldable pub eqs_block_free : Option Error → Heap X → BlockPtr → Option (Called (Heap X))
  eqs_block_free before heap block = call before heap (
      if is_null block
      then defined (ok heap)
      else (do (_, heap') ← unbox_block X heap block; defined (ok heap')))

  unfoldable pub eqs_block_copy :
      Option Error → Heap X → BlockPtr → Option (Returned (Heap X × BlockPtr))
  eqs_block_copy before heap block = returned (
      call before (heap, null)
        (do
          check_block_pointer block
          given ← read_block X heap block
          new_block ← defined (clone_block X given)
          defined (ok (box_block X heap new_block))))

  -- The match on `values_gradients`.
  unfoldable pub select_basic_block : TensorBlock X → Name → Outcome (BasicBlock X)
  select_basic_block block values_gradients =
      if equal name_dec values_gradients values_name
      then ok block.values
      else elim (gradient X block values_gradients) [
        | some g ↦ ok g
        | none ↦ err (invalid_parameter (missing_gradients values_gradients))
      ]

  -- The labels of an axis.
  unfoldable pub axis_labels : BasicBlock X → ℕ → Outcome Labels
  axis_labels block axis =
      if axis == 0
      then ok block.samples
      else if ltb (axis - 1) (length block.components)
      then expect (get_elem? block.components (axis - 1)) out_of_range
      else if axis == length block.components + 1
      then ok block.properties
      else err (invalid_parameter (wrong_axis axis (length block.components + 2)))

  unfoldable pub eqs_block_labels :
      Option Error
      → Heap X
      → BlockPtr
      → Option CString
      → ℕ
      → Option EqsLabels
      → Option (Called (Option EqsLabels))
  eqs_block_labels before heap block values_gradients axis labels = call before labels (do
    check_block_pointer block
    string ← check_pointer values_gradients
    given ← check_pointer labels
    check (not (is_rust given)) allocated_labels
    name ← to_str string
    tensor_block ← read_block X heap block
    basic_block ← defined (select_basic_block tensor_block name)
    rust_labels ← defined (axis_labels basic_block axis)
    output ← rust_to_eqs_labels rust_labels
    defined (ok (some output)))

  -- `data_array` is what the pointer to the output points at. The raw copy of an array is the array
  -- without the right to destroy it.
  unfoldable pub eqs_block_data :
      Option Error
      → Heap X
      → BlockPtr
      → Option CString
      → Option X.Array
      → Option (Called (Option X.Array))
  eqs_block_data before heap block values_gradients data_array = call before data_array (do
    check_block_pointer block
    string ← check_pointer values_gradients
    _ ← check_pointer data_array
    name ← to_str string
    tensor_block ← read_block X heap block
    basic_block ← defined (select_basic_block tensor_block name)
    defined (ok (some basic_block.array)))

  unfoldable pub eqs_block_add_gradient :
      Option Error
      → Heap X
      → BlockPtr
      → Option CString
      → X.Array
      → EqsLabels
      → Option (List EqsLabels)
      → ℕ
      → Option (Called (Heap X))
  eqs_block_add_gradient before heap block parameter data_array samples components
        components_count =
      call before heap (do
        check_block_pointer block
        string ← check_pointer parameter
        name ← to_str string
        rust_samples ← eqs_labels_to_rust samples
        slice ← from_raw_parts components components_count
        rust_components ← labels_to_rust slice
        tensor_block ← read_block X heap block
        added ← defined (add_gradient X tensor_block name data_array rust_samples rust_components)
        write_block X heap block added)

  -- The list of the parameters, NULL where it is empty, and its length.
  unfoldable pub eqs_block_gradients_list :
      Option Error
      → Heap X
      → BlockPtr
      → Option (Option (List Name))
      → Option ℕ
      → Option (Called (Option (Option (List Name)) × Option ℕ))
  eqs_block_gradients_list before heap block parameters parameters_count =
      call before (parameters, parameters_count)
        (do
          check_block_pointer block
          _ ← check_pointer parameters
          _ ← check_pointer parameters_count
          tensor_block ← read_block X heap block
          let list = tensor_block.gradient_parameters
          defined (ok (some (if length list == 0 then none else some list), some (length list))))
