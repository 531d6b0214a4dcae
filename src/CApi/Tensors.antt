-- ===== src/CApi/Tensors.antt =====
-- equistore-core/src/c_api/tensor.rs.
use equistore.Prelude.{
  ℕ, zero, suc, Bool, not, ◌==◌, ltb, List, [], ◌∷◌, ◌++◌, length, set, drop, Option, none, some,
  if◌then◌else◌, n_unique,
}
use equistore.Errors.{
  Name, Error, Outcome, ok, err, panic, assert, out_of_range, allocated_labels, same_block,
  wrong_indexes_size,
}
use equistore.Labels.{count}
use equistore.Data.{Arrays}
use equistore.Blocks.{TensorBlock}
use equistore.Tensor.{new_map, clone_map, blocks_matching, components_to_properties}
use equistore.Tensor.Keys.{IndexSets}
use equistore.Tensor.ToSamples.{keys_to_samples}
use equistore.Tensor.ToProperties.{keys_to_properties}
use equistore.CApi.{
  Unsafe, undefined, defined, ◌>>=◌, ◌>>◌, check, check_pointer, CString, to_str, from_raw_parts,
  Called, call,
}
use equistore.CApi.Labels.{EqsLabels, is_rust, rust_to_eqs_labels, eqs_labels_to_rust}
use equistore.CApi.Heap.{
  BlockPtr, null, inside, ptr_discrete, TensorPtr, Heap, unbox_block, into_boxed_raw,
  from_boxed_raw, read_tensor,
}
use equistore.CApi.Blocks.{Returned, returned}

-- The pointers after the blocks were moved out of the first `n`.
unfoldable pub nulls : ℕ → List BlockPtr → List BlockPtr
nulls zero ptrs = ptrs
nulls (suc n) [] = []
nulls (suc n) (ptr ∷ ptrs) = null ∷ nulls n ptrs

-- The loop that writes the indexes into the buffer of the caller, from the index `i` on.
unfoldable pub write_indexes : List ℕ → ℕ → List ℕ → Outcome (List ℕ)
write_indexes buffer i [] = ok buffer
write_indexes buffer i (block ∷ rust_blocks) =
    if ltb i (length buffer)
    then write_indexes (set buffer i block) (suc i) rust_blocks
    else panic out_of_range

-- The loop over the dimensions.
unfoldable pub read_dimensions : List (Option CString) → Unsafe (List Name)
read_dimensions [] = defined (ok [])
read_dimensions (dimension ∷ dimensions) = do
  string ← check_pointer dimension
  name ← to_str string
  names ← read_dimensions dimensions
  defined (ok (name ∷ names))

module _ (X : Arrays) where
  -- The loop that moves out of the block pointers.
  unfoldable pub move_blocks : Heap X → List BlockPtr → Unsafe (List (TensorBlock X) × Heap X)
  move_blocks heap [] = defined (ok ([], heap))
  move_blocks heap (ptr ∷ ptrs) = do
    (block, heap₁) ← unbox_block X heap ptr
    (blocks, heap₂) ← move_blocks heap₁ ptrs
    defined (ok (block ∷ blocks, heap₂))

  -- What is done before the blocks are there.
  unfoldable pub take_blocks :
      Heap X
      → Option (List BlockPtr)
      → ℕ
      → Unsafe (List (TensorBlock X) × Heap X × Option (List BlockPtr))
  take_blocks heap blocks blocks_count = do
    memory ← check_pointer blocks
    blocks_slice ← from_raw_parts blocks blocks_count
    check (n_unique ptr_discrete blocks_slice == length blocks_slice) same_block
    (blocks_vec, moved) ← move_blocks heap blocks_slice
    defined (ok (blocks_vec, moved, some (nulls blocks_count memory)))

  -- And after: the heap has lost the blocks also where this fails.
  unfoldable pub make_tensor :
      Option Error
      → EqsLabels
      → Unsafe (List (TensorBlock X) × Heap X × Option (List BlockPtr))
      → Heap X × Option (List BlockPtr) × TensorPtr
      → Option (Called (Heap X × Option (List BlockPtr) × TensorPtr))
  make_tensor before keys (defined (ok (blocks_vec, moved, ptrs))) old =
      call before (moved, ptrs, none)
        (do
          rust_keys ← eqs_labels_to_rust keys
          tensor ← defined (new_map X rust_keys blocks_vec)
          let (heap', ptr) = into_boxed_raw X moved tensor
          defined (ok (heap', ptrs, ptr)))
  make_tensor before keys (defined (err e)) old = call before old (defined (err e))
  make_tensor before keys (defined (panic m)) old = call before old (defined (panic m))
  make_tensor before keys undefined old = none

  unfoldable pub eqs_tensormap :
      Option Error
      → Heap X
      → EqsLabels
      → Option (List BlockPtr)
      → ℕ
      → Option (Returned (Heap X × Option (List BlockPtr) × TensorPtr))
  eqs_tensormap before heap keys blocks blocks_count =
      returned (make_tensor before keys (take_blocks heap blocks blocks_count) (heap, blocks, none))

  unfoldable pub eqs_tensormap_free : Option Error → Heap X → TensorPtr → Option (Called (Heap X))
  eqs_tensormap_free before heap none = call before heap (defined (ok heap))
  eqs_tensormap_free before heap (some t) =
      call before heap (do (_, heap') ← from_boxed_raw X heap t; defined (ok heap'))

  unfoldable pub eqs_tensormap_copy :
      Option Error → Heap X → TensorPtr → Option (Returned (Heap X × TensorPtr))
  eqs_tensormap_copy before heap tensor = returned (
      call before (heap, none)
        (do
          t ← check_pointer tensor
          given ← read_tensor X heap t
          new_tensor ← defined (clone_map X given)
          defined (ok (into_boxed_raw X heap new_tensor))))

  unfoldable pub eqs_tensormap_keys :
      Option Error → Heap X → TensorPtr → Option EqsLabels → Option (Called (Option EqsLabels))
  eqs_tensormap_keys before heap tensor keys = call before keys (do
    t ← check_pointer tensor
    given ← check_pointer keys
    check (not (is_rust given)) allocated_labels
    rust ← read_tensor X heap t
    output ← rust_to_eqs_labels rust.keys
    defined (ok (some output)))

  -- `block` is what the pointer to the output points at.
  unfoldable pub eqs_tensormap_block_by_id :
      Option Error → Heap X → TensorPtr → Option BlockPtr → ℕ → Option (Called (Option BlockPtr))
  eqs_tensormap_block_by_id before heap tensor block i = call before block (do
    t ← check_pointer tensor
    _ ← check_pointer block
    rust ← read_tensor X heap t
    defined (assert (ltb i (length rust.blocks)) out_of_range)
    defined (ok (some (inside t i))))

  unfoldable pub eqs_tensormap_blocks_matching :
      Option Error
      → Heap X
      → TensorPtr
      → Option (List ℕ)
      → Option ℕ
      → EqsLabels
      → Option (Called (Option (List ℕ) × Option ℕ))
  eqs_tensormap_blocks_matching before heap tensor block_indexes indexes_count selection =
      call before (block_indexes, indexes_count)
        (do
          t ← check_pointer tensor
          memory ← check_pointer block_indexes
          space ← check_pointer indexes_count
          rust ← read_tensor X heap t
          check (space == count rust.keys) (wrong_indexes_size (count rust.keys) space)
          rust_selection ← eqs_labels_to_rust selection
          rust_blocks ← defined (blocks_matching X rust rust_selection)
          slice ← from_raw_parts block_indexes space
          written ← defined (write_indexes slice 0 rust_blocks)
          defined (ok (some (written ++ drop space memory), some (length rust_blocks))))

  unfoldable pub eqs_tensormap_components_to_properties :
      Option Error
      → Heap X
      → TensorPtr
      → Option (List (Option CString))
      → ℕ
      → Option (Returned (Heap X × TensorPtr))
  eqs_tensormap_components_to_properties before heap tensor dimensions dimensions_count = returned (
      call before (heap, none)
        (do
          t ← check_pointer tensor
          _ ← check_pointer dimensions
          slice ← from_raw_parts dimensions dimensions_count
          rust_dimensions ← read_dimensions slice
          rust ← read_tensor X heap t
          moved ← defined (components_to_properties X rust rust_dimensions)
          defined (ok (into_boxed_raw X heap moved))))

  module _ (I : IndexSets) where
    unfoldable pub eqs_tensormap_keys_to_properties :
        Option Error
        → Heap X
        → TensorPtr
        → EqsLabels
        → Bool
        → Option (Returned (Heap X × TensorPtr))
    eqs_tensormap_keys_to_properties before heap tensor keys_to_move sort_samples = returned (
        call before (heap, none)
          (do
            t ← check_pointer tensor
            rust_keys ← eqs_labels_to_rust keys_to_move
            rust ← read_tensor X heap t
            moved ← defined (keys_to_properties X I rust rust_keys sort_samples)
            defined (ok (into_boxed_raw X heap moved))))

    unfoldable pub eqs_tensormap_keys_to_samples :
        Option Error
        → Heap X
        → TensorPtr
        → EqsLabels
        → Bool
        → Option (Returned (Heap X × TensorPtr))
    eqs_tensormap_keys_to_samples before heap tensor keys_to_move sort_samples = returned (
        call before (heap, none)
          (do
            t ← check_pointer tensor
            rust_keys ← eqs_labels_to_rust keys_to_move
            rust ← read_tensor X heap t
            moved ← defined (keys_to_samples X I rust rust_keys sort_samples)
            defined (ok (into_boxed_raw X heap moved))))
