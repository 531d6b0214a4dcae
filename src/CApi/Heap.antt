-- ===== src/CApi/Heap.antt =====
-- equistore-core/src/c_api: the blocks and the tensor maps that C holds.
--
-- A pointer to a block leads to a box of its own, or into a tensor map, where
-- `eqs_tensormap_block_by_id` takes it from. The address of a box is its number, and is not used again
-- after the box is freed or moved out.
use equistore.Prelude.{
  ℕ, Bool, true, false, List, [], ◌∷◌, ◌++◌, length, set, get_elem?, Option, none, some, ℕ_discrete,
}
use equistore.Errors.{ok}
use equistore.Data.{Arrays}
use equistore.Blocks.{TensorBlock}
use equistore.Tensor.{TensorMap}
use equistore.CApi.{Unsafe, undefined, defined, ◌>>=◌}

-- `*mut eqs_block_t`.
pub data BlockPtr : Type 0 where
  null : BlockPtr
  boxed : ℕ → BlockPtr
  inside : ℕ → ℕ → BlockPtr

unfoldable pub ptr_discrete : Discrete BlockPtr
ptr_discrete = hlevel ℕ_discrete

-- `*mut eqs_tensormap_t`: the address of a box, or NULL.
abbrev pub TensorPtr : Type 0
TensorPtr = Option ℕ

abbrev pub is_null : BlockPtr → Bool
is_null null = true
is_null (boxed i) = false
is_null (inside t i) = false

module _ (X : Arrays) where
  pub record Heap : Type 0 where
    pub blocks : List (Option (TensorBlock X))
    pub tensors : List (Option (TensorMap X))

  -- What is in a box.
  unfoldable pub unbox : {A : Type 0} → List (Option A) → ℕ → Unsafe A
  unbox boxes i = elim (get_elem? boxes i) [
    | some (some a) ↦ defined (ok a)
    | some none ↦ undefined
    | none ↦ undefined
  ]

  unfoldable pub in_tensor : TensorMap X → ℕ → Unsafe (TensorBlock X)
  in_tensor tensor i = elim (get_elem? tensor.blocks i) [
    | some block ↦ defined (ok block)
    | none ↦ undefined
  ]

  -- `*block`.
  unfoldable pub read_block : Heap → BlockPtr → Unsafe (TensorBlock X)
  unfolding unbox in_tensor
  read_block heap null = undefined
  read_block heap (boxed i) = unbox heap.blocks i
  read_block heap (inside t i) = do tensor ← unbox heap.tensors t; in_tensor tensor i

  -- `*block = ..`, where the pointer can be read.
  unfoldable pub write_block : Heap → BlockPtr → TensorBlock X → Unsafe Heap
  unfolding unbox
  write_block heap null block = undefined
  write_block heap (boxed i) block =
      defined (ok (record heap { blocks = set (heap.blocks) i (some block) }))
  write_block heap (inside t i) block = do
    tensor ← unbox heap.tensors t
    defined (
        ok (record heap {
          tensors =
              set (heap.tensors) t (some (record tensor { blocks = set (tensor.blocks) i block }));
        }))

  -- `Box::into_raw(Box::new(..))`.
  unfoldable pub box_block : Heap → TensorBlock X → Heap × BlockPtr
  box_block heap block =
      (record heap { blocks = heap.blocks ++ some block ∷ [] }, boxed (length heap.blocks))

  -- `Box::from_raw(..)`: only what a box holds can be taken out, and once.
  unfoldable pub unbox_block : Heap → BlockPtr → Unsafe (TensorBlock X × Heap)
  unfolding unbox
  unbox_block heap null = undefined
  unbox_block heap (boxed i) = do
    block ← unbox heap.blocks i
    defined (ok (block, record heap { blocks = set (heap.blocks) i none }))
  unbox_block heap (inside t i) = undefined

  -- `eqs_tensormap_t::into_boxed_raw`.
  unfoldable pub into_boxed_raw : Heap → TensorMap X → Heap × TensorPtr
  into_boxed_raw heap tensor =
      (record heap { tensors = heap.tensors ++ some tensor ∷ [] }, some (length heap.tensors))

  -- `eqs_tensormap_t::from_boxed_raw`.
  unfoldable pub from_boxed_raw : Heap → ℕ → Unsafe (TensorMap X × Heap)
  unfolding unbox
  from_boxed_raw heap t = do
    tensor ← unbox heap.tensors t
    defined (ok (tensor, record heap { tensors = set (heap.tensors) t none }))

  -- `*tensor`, after the check for NULL.
  unfoldable pub read_tensor : Heap → ℕ → Unsafe (TensorMap X)
  unfolding unbox
  read_tensor heap t = unbox heap.tensors t
