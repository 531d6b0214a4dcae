-- ===== src/CApi/Calls.antt =====
-- equistore-core/src/c_api/blocks.rs: each call on blocks keeps the data that C holds fitting its labels.
use equistore.Prelude.{ℕ, ◌≡◌, subst, Bool-cases, if◌then◌else◌, inl, inr, List, Option, some, ℤ}
use equistore.Errors.{Error, ok}
use equistore.Data.{Arrays}
use equistore.Blocks.{new_block, clone_block, add_gradient}
use equistore.Tensor.Shaped.{
  Copies, new_block-IsShaped, add_gradient-IsShaped, clone_block-IsShaped,
}
use equistore.CApi.{defined, ◌>>=◌, check_pointer, CString, to_str, from_raw_parts}
use equistore.CApi.Creation.{>>=-eq-defined, defined-injective}
use equistore.CApi.Labels.{EqsLabels, eqs_labels_to_rust}
use equistore.CApi.Heap.{BlockPtr, null, is_null, Heap, read_block, box_block, unbox_block}
use equistore.CApi.Blocks.{
  check_block_pointer, labels_to_rust, eqs_block, eqs_block_free, eqs_block_copy,
  eqs_block_add_gradient,
}
use equistore.CApi.Shaped.{
  IsShapedHeap, call-keeps, returned-keeps, read_block-IsShaped, write_block-IsShapedHeap,
  box_block-IsShapedHeap, unbox_block-IsShapedHeap,
}

module _ (X : Arrays) where
  module _ {heap heap' : Heap X} (v : IsShapedHeap X heap) (before : Option Error)
      {kept : Option Error} where
    pub eqs_block-IsShapedHeap :
        (array : X.Array) (samples : EqsLabels) (components : Option (List EqsLabels)) (n : ℕ)
        (properties : EqsLabels) {ptr : BlockPtr}
        → eqs_block X before heap array samples components n properties ≡ some (kept, (heap', ptr))
        → IsShapedHeap X heap'
    unfolding eqs_block
    eqs_block-IsShapedHeap array samples components n properties h =
        returned-keeps (λ e. IsShapedHeap X e.0) before (heap, null) _ v
          (λ made e.
            (let (s, _, h₁) = >>=-eq-defined (eqs_labels_to_rust samples) _ e in
              let (slice, _, h₂) = >>=-eq-defined (from_raw_parts components n) _ h₁ in
              let (c, _, h₃) = >>=-eq-defined (labels_to_rust slice) _ h₂ in
              let (p, _, h₄) = >>=-eq-defined (eqs_labels_to_rust properties) _ h₃ in
              let (made_block, new, h₅) = >>=-eq-defined (defined (new_block X array s c p)) _ h₄ in
              let same : box_block X heap made_block ≡ made = cc h₅ in
              subst (λ m. IsShapedHeap X m.0) same
                (box_block-IsShapedHeap X heap made_block v
                  (new_block-IsShaped X array s c p (defined-injective _ _ new)))))
          h

    pub eqs_block_free-IsShapedHeap :
        (ptr : BlockPtr) {status : ℤ}
        → eqs_block_free X before heap ptr ≡ some (status, kept, heap')
        → IsShapedHeap X heap'
    unfolding eqs_block_free
    eqs_block_free-IsShapedHeap ptr h =
        call-keeps (IsShapedHeap X) before heap _ v (free-IsShapedHeap ptr) h
      where
        free-IsShapedHeap :
            (ptr : BlockPtr) (freed : Heap X)
            → (if is_null ptr
                then defined (ok heap)
                else (do (_, heap') ← unbox_block X heap ptr; defined (ok heap')))
              ≡ defined (ok freed)
            → IsShapedHeap X freed
        free-IsShapedHeap ptr freed e = elim (Bool-cases (is_null ptr)) [
          | inl nothing ↦ subst (IsShapedHeap X) (cc (rw nothing at e)) v
          | inr something ↦
              let (x, taken, h₁) = >>=-eq-defined (unbox_block X heap ptr) _ (rw something at e) in
              let same : x.1 ≡ freed = cc h₁ in
              subst (IsShapedHeap X) same (unbox_block-IsShapedHeap X heap ptr v taken).1
        ]

    pub eqs_block_copy-IsShapedHeap :
        (ptr : BlockPtr) {ptr' : BlockPtr}
        → Copies X
        → eqs_block_copy X before heap ptr ≡ some (kept, (heap', ptr'))
        → IsShapedHeap X heap'
    unfolding eqs_block_copy
    eqs_block_copy-IsShapedHeap ptr copies h =
        returned-keeps (λ e. IsShapedHeap X e.0) before (heap, null) _ v
          (λ made e.
            (let (_, _, h₁) = >>=-eq-defined (check_block_pointer ptr) _ e in
              let (given, read, h₂) = >>=-eq-defined (read_block X heap ptr) _ h₁ in
              let (new, cloned, h₃) = >>=-eq-defined (defined (clone_block X given)) _ h₂ in
              let same : box_block X heap new ≡ made = cc h₃ in
              subst (λ m. IsShapedHeap X m.0) same
                (box_block-IsShapedHeap X heap new v (
                  clone_block-IsShaped X copies given (read_block-IsShaped X heap ptr v read)
                    (defined-injective _ _ cloned)))))
          h

    pub eqs_block_add_gradient-IsShapedHeap :
        (ptr : BlockPtr) (parameter : Option CString) (array : X.Array) (samples : EqsLabels)
        (components : Option (List EqsLabels)) (n : ℕ) {status : ℤ}
        → eqs_block_add_gradient X before heap ptr parameter array samples components n
          ≡ some (status, kept, heap')
        → IsShapedHeap X heap'
    unfolding eqs_block_add_gradient
    eqs_block_add_gradient-IsShapedHeap ptr parameter array samples components n h =
        call-keeps (IsShapedHeap X) before heap _ v
          (λ made e.
            (let (_, _, h₁) = >>=-eq-defined (check_block_pointer ptr) _ e in
              let (string, _, h₂) = >>=-eq-defined (check_pointer parameter) _ h₁ in
              let (name, _, h₃) = >>=-eq-defined (to_str string) _ h₂ in
              let (s, _, h₄) = >>=-eq-defined (eqs_labels_to_rust samples) _ h₃ in
              let (slice, _, h₅) = >>=-eq-defined (from_raw_parts components n) _ h₄ in
              let (c, _, h₆) = >>=-eq-defined (labels_to_rust slice) _ h₅ in
              let (given, read, h₇) = >>=-eq-defined (read_block X heap ptr) _ h₆ in
              let (added, new, h₈) =
                >>=-eq-defined (defined (add_gradient X given name array s c)) _ h₇ in
              write_block-IsShapedHeap X heap ptr added v
                (add_gradient-IsShaped X given name array s c
                  (read_block-IsShaped X heap ptr v read) (defined-injective _ _ new))
                h₈))
          h
