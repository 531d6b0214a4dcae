-- ===== src/CApi/TensorCalls.antt =====
-- equistore-core/src/c_api/tensor.rs: each call on tensor maps keeps the data that C holds fitting its
-- labels.
use equistore.Prelude.{ℕ, ◌≡◌, subst, Bool, List, Option, none, some, ℤ}
use equistore.Errors.{Error, Outcome, ok}
use equistore.Data.{Arrays}
use equistore.Blocks.MovedShape.{Reshapes}
use equistore.Tensor.{TensorMap, clone_map, components_to_properties}
use equistore.Tensor.Keys.{IndexSets}
use equistore.Tensor.ToSamples.{keys_to_samples}
use equistore.Tensor.ToProperties.{keys_to_properties}
use equistore.Tensor.Shaped.{IsShapedMap, Copies, clone_map-IsShapedMap}
use equistore.Tensor.ShapedMoves.{components_to_properties-IsShapedMap}
use equistore.Tensor.ShapedMerges.{keys_to_samples-IsShapedMap, keys_to_properties-IsShapedMap}
use equistore.CApi.{defined, ◌>>=◌, check_pointer, CString, from_raw_parts}
use equistore.CApi.Creation.{>>=-eq-defined, defined-injective}
use equistore.CApi.Labels.{EqsLabels, eqs_labels_to_rust}
use equistore.CApi.Heap.{TensorPtr, Heap, into_boxed_raw, from_boxed_raw, read_tensor}
use equistore.CApi.Tensors.{
  eqs_tensormap_free, eqs_tensormap_copy, read_dimensions, eqs_tensormap_components_to_properties,
  eqs_tensormap_keys_to_properties, eqs_tensormap_keys_to_samples,
}
use equistore.CApi.Shaped.{
  IsShapedHeap, call-keeps, returned-keeps, into_boxed_raw-IsShapedHeap,
  from_boxed_raw-IsShapedHeap, read_tensor-IsShapedMap,
}

module _ (X : Arrays) where
  module _ {heap : Heap X} (v : IsShapedHeap X heap) where
    -- A tensor map read from the heap, and changed by an operation that keeps the data fitting.
    boxed-IsShapedHeap :
        (t : ℕ) (operation : TensorMap X → Outcome (TensorMap X)) {made : Heap X × TensorPtr}
        → ((tensor tensor' : TensorMap X)
            → IsShapedMap X tensor
            → operation tensor ≡ ok tensor'
            → IsShapedMap X tensor')
        → (read_tensor X heap t >>= λ tensor.
            defined (operation tensor) >>= λ tensor'. defined (ok (into_boxed_raw X heap tensor')))
          ≡ defined (ok made)
        → IsShapedHeap X made.0
    boxed-IsShapedHeap t operation {made} keeps e =
        let (tensor, read, h₁) = >>=-eq-defined (read_tensor X heap t) _ e in
        let (tensor', new, h₂) = >>=-eq-defined (defined (operation tensor)) _ h₁ in
        let same : into_boxed_raw X heap tensor' ≡ made = cc h₂ in
        subst (λ m. IsShapedHeap X m.0) same
          (into_boxed_raw-IsShapedHeap X heap tensor' v (
            keeps tensor tensor' (read_tensor-IsShapedMap X heap t v read)
              (defined-injective _ _ new)))

  module _ {heap heap' : Heap X} (v : IsShapedHeap X heap) (before : Option Error)
      {kept : Option Error} where
    pub eqs_tensormap_free-IsShapedHeap :
        (t : TensorPtr) {status : ℤ}
        → eqs_tensormap_free X before heap t ≡ some (status, kept, heap')
        → IsShapedHeap X heap'
    unfolding eqs_tensormap_free
    eqs_tensormap_free-IsShapedHeap none h =
        call-keeps (IsShapedHeap X) before heap _ v (λ freed e. subst (IsShapedHeap X) (cc e) v) h
    eqs_tensormap_free-IsShapedHeap (some t) h =
        call-keeps (IsShapedHeap X) before heap _ v
          (λ freed e.
            (let (x, taken, h₁) = >>=-eq-defined (from_boxed_raw X heap t) _ e in
              let same : x.1 ≡ freed = cc h₁ in
              subst (IsShapedHeap X) same (from_boxed_raw-IsShapedHeap X heap t v taken)))
          h

    pub eqs_tensormap_copy-IsShapedHeap :
        (t : TensorPtr) {t' : TensorPtr}
        → Copies X
        → eqs_tensormap_copy X before heap t ≡ some (kept, (heap', t'))
        → IsShapedHeap X heap'
    unfolding eqs_tensormap_copy
    eqs_tensormap_copy-IsShapedHeap t copies h =
        returned-keeps (λ e. IsShapedHeap X e.0) before (heap, none) _ v
          (λ made e.
            (let (t, _, h₁) = >>=-eq-defined (check_pointer t) _ e in
              boxed-IsShapedHeap v t (clone_map X)
                (λ tensor tensor' s. clone_map-IsShapedMap X copies tensor s) h₁))
          h

    pub eqs_tensormap_components_to_properties-IsShapedHeap :
        (t : TensorPtr) (dimensions : Option (List (Option CString))) (n : ℕ) {t' : TensorPtr}
        → Reshapes X
        → Copies X
        → eqs_tensormap_components_to_properties X before heap t dimensions n
          ≡ some (kept, (heap', t'))
        → IsShapedHeap X heap'
    unfolding eqs_tensormap_components_to_properties
    eqs_tensormap_components_to_properties-IsShapedHeap t dimensions n reshapes copies h =
        returned-keeps (λ e. IsShapedHeap X e.0) before (heap, none) _ v
          (λ made e.
            (let (t, _, h₁) = >>=-eq-defined (check_pointer t) _ e in
              let (_, _, h₂) = >>=-eq-defined (check_pointer dimensions) _ h₁ in
              let (slice, _, h₃) = >>=-eq-defined (from_raw_parts dimensions n) _ h₂ in
              let (names, _, h₄) = >>=-eq-defined (read_dimensions slice) _ h₃ in
              boxed-IsShapedHeap v t (λ tensor. components_to_properties X tensor names)
                (λ tensor tensor'.
                  components_to_properties-IsShapedMap X reshapes tensor names copies)
                h₄))
          h

    module _ (I : IndexSets) (t : TensorPtr) (keys : EqsLabels) (sort : Bool) {t' : TensorPtr} where
      pub keys_to_properties-IsShapedHeap :
          eqs_tensormap_keys_to_properties X I before heap t keys sort ≡ some (kept, (heap', t'))
          → IsShapedHeap X heap'
      unfolding eqs_tensormap_keys_to_properties
      keys_to_properties-IsShapedHeap h =
          returned-keeps (λ e. IsShapedHeap X e.0) before (heap, none) _ v
            (λ made e.
              (let (t, _, h₁) = >>=-eq-defined (check_pointer t) _ e in
                let (moved, _, h₂) = >>=-eq-defined (eqs_labels_to_rust keys) _ h₁ in
                boxed-IsShapedHeap v t (λ tensor. keys_to_properties X I tensor moved sort)
                  (λ tensor tensor' _. keys_to_properties-IsShapedMap X I tensor moved sort) h₂))
            h

      pub keys_to_samples-IsShapedHeap :
          eqs_tensormap_keys_to_samples X I before heap t keys sort ≡ some (kept, (heap', t'))
          → IsShapedHeap X heap'
      unfolding eqs_tensormap_keys_to_samples
      keys_to_samples-IsShapedHeap h =
          returned-keeps (λ e. IsShapedHeap X e.0) before (heap, none) _ v
            (λ made e.
              (let (t, _, h₁) = >>=-eq-defined (check_pointer t) _ e in
                let (moved, _, h₂) = >>=-eq-defined (eqs_labels_to_rust keys) _ h₁ in
                boxed-IsShapedHeap v t (λ tensor. keys_to_samples X I tensor moved sort)
                  (λ tensor tensor' _. keys_to_samples-IsShapedMap X I tensor moved sort) h₂))
            h
