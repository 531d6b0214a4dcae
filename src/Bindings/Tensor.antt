-- ===== src/Bindings/Tensor.antt =====
-- equistore/src/tensor.rs: tensor maps of the bindings, over the C functions.
use equistore.Prelude.{
  ℕ, zero, suc, ◌-◌, Bool, List, [], ◌∷◌, ◌++◌, length, take, map, Option, none, some,
}
use equistore.Errors.{Name, Error, Outcome, ok, err, panic}
use equistore.Labels.Builder.{check_c_strings}
use equistore.Data.{Arrays}
use equistore.Tensor.Keys.{IndexSets}
use equistore.CApi.{Called, Unsafe, defined, ◌>>=◌, deref, CString}
use equistore.CApi.Labels.{c_names}
use equistore.CApi.Heap.{BlockPtr, null, TensorPtr, Heap}
use equistore.CApi.Blocks.{Returned}
use equistore.CApi.Tensors.{
  eqs_tensormap, eqs_tensormap_copy, eqs_tensormap_keys, eqs_tensormap_block_by_id,
  eqs_tensormap_blocks_matching, eqs_tensormap_components_to_properties,
  eqs_tensormap_keys_to_properties, eqs_tensormap_keys_to_samples,
}
use equistore.Bindings.{BindingError, check_status, expect_status}
use equistore.Bindings.Labels.{Labels, null_labels, from_raw, count}

-- What a function of the bindings returns: a value, an error of theirs, a panic, or nothing where the
-- behaviour is undefined.
pub data Reply {ℓ} (A : Type ℓ) : Type ℓ where
  undefined : Reply A
  panicked : Reply A
  failed : BindingError → Reply A
  done : A → Reply A

-- `check_status(..)?` on a call.
unfoldable pub try_status {ℓ} : {A : Type ℓ} → BindingError → Option (Called A) → Reply A
unfolding check_status
try_status last_rust none = undefined
try_status last_rust (some (status, kept, a)) = elim (check_status status kept last_rust) [
  | none ↦ done a
  | some e ↦ failed e
]

-- `TensorMap` of the bindings.
pub record TensorMap : Type 0 where
  pub ptr : TensorPtr
  pub keys : Labels

-- `vec![0; n]`.
abbrev pub zeros : ℕ → List ℕ
zeros zero = []
zeros (suc n) = 0 ∷ zeros n

-- `indexes.resize(n, 0)`.
abbrev pub resize : List ℕ → ℕ → List ℕ
resize indexes n = take n indexes ++ zeros (n - length indexes)

-- What the call has written; it never writes a NULL.
abbrev pub resized : Reply (Option (List ℕ) × Option ℕ) → Reply (List ℕ)
resized (done (some indexes, some matching)) = done (resize indexes matching)
resized (done _) = undefined
resized (failed e) = failed e
resized panicked = panicked
resized undefined = undefined

-- `TensorMap::blocks_matching` of the bindings.
unfoldable pub blocks_matching :
    (X : Arrays) → Option Error → BindingError → Heap X → TensorMap → Labels → Reply (List ℕ)
unfolding try_status
blocks_matching X before last_rust heap tensor selection =
    let indexes = zeros (count tensor.keys) in
    resized (
      try_status last_rust (
        eqs_tensormap_blocks_matching X before heap tensor.ptr (some indexes)
          (some (length indexes)) selection.raw))

abbrev pub reply {ℓ} : {A : Type ℓ} → Unsafe A → Reply A
reply Unsafe.undefined = undefined
reply (defined (ok a)) = done a
reply (defined (err e)) = panicked
reply (defined (panic m)) = panicked

-- `CString::new(v).expect(..)` of each name.
unfoldable pub c_dimensions : List Name → Outcome (List (Option CString))
unfolding check_c_strings
c_dimensions dimensions = elim (check_c_strings dimensions) [
  | ok _ ↦ ok (map some (c_names dimensions))
  | err e ↦ err e
  | panic m ↦ panic m
]

module _ (X : Arrays) (before : Option Error) (last_rust : BindingError) where
  -- `TensorMap::from_raw`.
  unfoldable pub tensor_from_raw : Heap X → ℕ → Unsafe TensorMap
  tensor_from_raw heap t = do
    keys ← expect_status last_rust (eqs_tensormap_keys X before heap (some t) (some null_labels))
    raw ← deref keys
    labels ← from_raw raw
    defined (ok (record { ptr = some t; keys = labels }))

  -- `check_ptr(ptr)?` and `from_raw`, on the pointer that a function of the C API returns.
  unfoldable pub made : Option (Returned (Heap X × TensorPtr)) → Option (Heap X × Reply TensorMap)
  unfolding tensor_from_raw
  made none = none
  made (some (kept, (heap, none))) = some (heap, failed (record { code = none; message = kept }))
  made (some (kept, (heap, some t))) = some (heap, reply (tensor_from_raw heap t))

  -- The pointers of the blocks are forgotten.
  abbrev pub without_blocks :
      Option (Returned (Heap X × Option (List BlockPtr) × TensorPtr))
      → Option (Returned (Heap X × TensorPtr))
  without_blocks none = none
  without_blocks (some (kept, (heap, ptrs, t))) = some (kept, (heap, t))

  -- `TensorMap::new`.
  unfoldable pub new_tensor : Heap X → Labels → List BlockPtr → Option (Heap X × Reply TensorMap)
  new_tensor heap keys blocks =
      made (without_blocks (eqs_tensormap X before heap keys.raw (some blocks) (length blocks)))

  unfoldable pub try_clone_tensor : Heap X → TensorMap → Option (Heap X × Reply TensorMap)
  try_clone_tensor heap tensor = made (eqs_tensormap_copy X before heap tensor.ptr)

  -- `TensorMap::block_by_id`.
  unfoldable pub block_by_id : Heap X → TensorMap → ℕ → Unsafe BlockPtr
  block_by_id heap tensor i = do
    block ←
        expect_status last_rust (eqs_tensormap_block_by_id X before heap tensor.ptr (some null) i)
    deref block

  -- The loop over the numbers of the blocks, from the number `i` on.
  unfoldable pub blocks_from : Heap X → TensorMap → ℕ → ℕ → Unsafe (List BlockPtr)
  blocks_from heap tensor i zero = defined (ok [])
  blocks_from heap tensor i (suc n) = do
    block ← block_by_id heap tensor i
    rest ← blocks_from heap tensor (suc i) n
    defined (ok (block ∷ rest))

  -- `TensorMap::blocks`.
  unfoldable pub all_blocks : Heap X → TensorMap → Unsafe (List BlockPtr)
  all_blocks heap tensor = blocks_from heap tensor 0 (count tensor.keys)

  unfoldable pub move_components_of :
      Heap X → TensorMap → List Name → Option (Heap X × Reply TensorMap)
  unfolding c_dimensions
  move_components_of heap tensor dimensions = elim (c_dimensions dimensions) [
    | ok dimensions_ptr ↦ made (
        eqs_tensormap_components_to_properties X before heap tensor.ptr (some dimensions_ptr)
          (length dimensions))
    | err e ↦ some (heap, panicked)
    | panic m ↦ some (heap, panicked)
  ]

  module _ (I : IndexSets) where
    unfoldable pub move_keys_to_samples :
        Heap X → TensorMap → Labels → Bool → Option (Heap X × Reply TensorMap)
    move_keys_to_samples heap tensor keys_to_move sort_samples =
        made
          (eqs_tensormap_keys_to_samples X I before heap tensor.ptr keys_to_move.raw sort_samples)

    unfoldable pub move_keys_to_properties :
        Heap X → TensorMap → Labels → Bool → Option (Heap X × Reply TensorMap)
    move_keys_to_properties heap tensor keys_to_move sort_samples =
        made (
          eqs_tensormap_keys_to_properties X I before heap tensor.ptr keys_to_move.raw sort_samples)
