-- ===== src/CApi/NewTensors.antt =====
-- equistore-core/src/c_api: tensor maps that are made of blocks, and those that are loaded, have data
-- that fits their labels.
use equistore.Prelude.{
  ℕ, ◌≡◌, refl, subst, ◌==◌, n_unique, List, [], ◌∷◌, length, All, Option, none, some, ℤ,
}
use equistore.Errors.{Name, Error, Outcome, ok, err, panic, same_block}
use equistore.Data.{Arrays}
use equistore.Blocks.{TensorBlock}
use equistore.Tensor.{new_map}
use equistore.Tensor.Shaped.{IsShaped, new_map-IsShapedMap}
use equistore.CApi.{
  Unsafe, undefined, defined, check, check_pointer, CString, to_str, from_raw_parts,
}
use equistore.CApi.Creation.{>>=-eq-defined, defined-injective}
use equistore.CApi.Labels.{EqsLabels, eqs_labels_to_rust}
use equistore.CApi.Heap.{BlockPtr, ptr_discrete, TensorPtr, Heap, unbox_block, into_boxed_raw}
use equistore.CApi.Blocks.{returned}
use equistore.CApi.Tensors.{nulls, move_blocks, take_blocks, make_tensor, eqs_tensormap}
use equistore.Io.{Formats}
use equistore.Io.Archives.{Zip, load}
use equistore.Io.Loading.{load-IsShapedMap}
use equistore.CApi.Files.{create_array, eqs_tensormap_load}
use equistore.CApi.Shaped.{
  IsShapedHeap, returned-keeps, unbox_block-IsShapedHeap, into_boxed_raw-IsShapedHeap,
}

module _ (X : Arrays) where
  move_blocks-IsShapedHeap :
      (heap : Heap X) (ptrs : List BlockPtr) {taken : List (TensorBlock X) × Heap X}
      → IsShapedHeap X heap
      → move_blocks X heap ptrs ≡ defined (ok taken)
      → All (IsShaped X) taken.0 × IsShapedHeap X taken.1
  unfolding move_blocks
  move_blocks-IsShapedHeap heap [] {taken} v h =
      let same : ◌≡◌ {A = List (TensorBlock X) × Heap X} ([], heap) taken = cc h in
      subst (λ e. All (IsShaped X) e.0 × IsShapedHeap X e.1) same (tt, v)
  move_blocks-IsShapedHeap heap (ptr ∷ ptrs) {taken} v h =
      let (first, one, h₁) = >>=-eq-defined (unbox_block X heap ptr) _ h in
      let (rest, more, h₂) = >>=-eq-defined (move_blocks X first.1 ptrs) _ h₁ in
      let (b, v₁) = unbox_block-IsShapedHeap X heap ptr v one in
      let (bs, v₂) = move_blocks-IsShapedHeap first.1 ptrs v₁ more in
      let same : ◌≡◌ {A = List (TensorBlock X) × Heap X} (first.0 ∷ rest.0, rest.1) taken = cc h₂ in
      subst (λ e. All (IsShaped X) e.0 × IsShapedHeap X e.1) same ((b, bs), v₂)

  take_blocks-IsShapedHeap :
      (heap : Heap X) (ptrs : Option (List BlockPtr)) (n : ℕ)
      {taken : List (TensorBlock X) × Heap X × Option (List BlockPtr)}
      → IsShapedHeap X heap
      → take_blocks X heap ptrs n ≡ defined (ok taken)
      → All (IsShaped X) taken.0 × IsShapedHeap X taken.1
  unfolding take_blocks
  take_blocks-IsShapedHeap heap ptrs n {taken} v h =
      let (memory, _, h₁) = >>=-eq-defined (check_pointer ptrs) _ h in
      let (slice, _, h₂) = >>=-eq-defined (from_raw_parts ptrs n) _ h₁ in
      let (_, _, h₃) =
        >>=-eq-defined (check (n_unique ptr_discrete slice == length slice) same_block) _ h₂ in
      let (moved, all, h₄) = >>=-eq-defined (move_blocks X heap slice) _ h₃ in
      let same : ◌≡◌ {A = List (TensorBlock X) × Heap X × Option (List BlockPtr)}
          (moved.0, moved.1, some (nulls n memory)) taken =
        cc h₄ in
      subst (λ e. All (IsShaped X) e.0 × IsShapedHeap X e.1) same
        (move_blocks-IsShapedHeap heap slice v all)

  module _ {heap heap' : Heap X} (v : IsShapedHeap X heap) (before : Option Error)
      {kept : Option Error} where
    make_tensor-IsShapedHeap :
        (keys : EqsLabels) (ptrs : Option (List BlockPtr)) {ptrs' : Option (List BlockPtr)}
        {t : TensorPtr} (u : Unsafe (List (TensorBlock X) × Heap X × Option (List BlockPtr)))
        → ((taken : List (TensorBlock X) × Heap X × Option (List BlockPtr))
            → u ≡ defined (ok taken)
            → All (IsShaped X) taken.0 × IsShapedHeap X taken.1)
        → returned (make_tensor X before keys u (heap, ptrs, none)) ≡ some (kept, (heap', ptrs', t))
        → IsShapedHeap X heap'
    unfolding make_tensor returned
    make_tensor-IsShapedHeap keys ptrs undefined f h = cc
    make_tensor-IsShapedHeap keys ptrs (defined (ok taken)) f h =
        let (blocks, moved) = f taken refl in
        returned-keeps (λ e. IsShapedHeap X e.0) before (taken.1, taken.2, none) _ moved
          (λ made e.
            (let (rust, _, h₁) = >>=-eq-defined (eqs_labels_to_rust keys) _ e in
              let (tensor, new, h₂) = >>=-eq-defined (defined (new_map X rust taken.0)) _ h₁ in
              let boxed = into_boxed_raw X taken.1 tensor in
              let same : ◌≡◌ {A = Heap X × Option (List BlockPtr) × TensorPtr}
                  (boxed.0, taken.2, boxed.1) made =
                cc h₂ in
              subst (λ m. IsShapedHeap X m.0) same
                (into_boxed_raw-IsShapedHeap X taken.1 tensor moved
                  (new_map-IsShapedMap X rust taken.0 blocks (defined-injective _ _ new)))))
          h
    make_tensor-IsShapedHeap keys ptrs (defined (err x)) f h =
        returned-keeps (λ e. IsShapedHeap X e.0) before (heap, ptrs, none) (defined (err x)) v
          (λ made e. cc) h
    make_tensor-IsShapedHeap keys ptrs (defined (panic m)) f h =
        returned-keeps (λ e. IsShapedHeap X e.0) before (heap, ptrs, none) (defined (panic m)) v
          (λ made e. cc) h

    pub eqs_tensormap-IsShapedHeap :
        (keys : EqsLabels) (ptrs : Option (List BlockPtr)) (n : ℕ) {ptrs' : Option (List BlockPtr)}
        {t : TensorPtr}
        → eqs_tensormap X before heap keys ptrs n ≡ some (kept, (heap', ptrs', t))
        → IsShapedHeap X heap'
    unfolding eqs_tensormap
    eqs_tensormap-IsShapedHeap keys ptrs n h =
        make_tensor-IsShapedHeap keys ptrs (take_blocks X heap ptrs n)
          (λ taken. take_blocks-IsShapedHeap heap ptrs n v) h

    module _ (F : Formats X.Float) (Z : Zip F.Byte) (fill : X.Array → List X.Float → X.Array)
        (open_file : Name → Outcome (List F.Byte)) where
      pub eqs_tensormap_load-IsShapedHeap :
          (path : Option CString) (callback : List ℕ → ℤ × X.Array) {t : TensorPtr}
          → eqs_tensormap_load X F Z fill open_file before heap path callback
            ≡ some (kept, (heap', t))
          → IsShapedHeap X heap'
      unfolding eqs_tensormap_load
      eqs_tensormap_load-IsShapedHeap path callback h =
          returned-keeps (λ e. IsShapedHeap X e.0) before (heap, none) _ v
            (λ made e.
              (let (string, _, h₁) = >>=-eq-defined (check_pointer path) _ e in
                let (text, _, h₂) = >>=-eq-defined (to_str string) _ h₁ in
                let (file, _, h₃) = >>=-eq-defined (defined (open_file text)) _ h₂ in
                let (tensor, loaded, h₄) =
                  >>=-eq-defined (defined (load X F Z fill (create_array X F Z callback) file)) _
                    h₃ in
                let same : into_boxed_raw X heap tensor ≡ made = cc h₄ in
                subst (λ m. IsShapedHeap X m.0) same
                  (into_boxed_raw-IsShapedHeap X heap tensor v (
                    load-IsShapedMap X F Z fill (create_array X F Z callback) file
                      (defined-injective _ _ loaded)))))
            h
