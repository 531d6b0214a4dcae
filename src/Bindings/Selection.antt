-- ===== src/Bindings/Selection.antt =====
-- equistore/src/tensor.rs: the blocks that a selection finds.
use equistore.Prelude.{
  ℕ, zero, suc, ◌-◌, ◌≡◌, ◌∙◌, refl, ap, List, ◌++◌, append-nil, length, length-append,
  take-append_length, drop, Option, some, ℤ_discrete, ℕ_discrete, arith,
}
use equistore.Errors.{Error, ok, eqs_success}
use equistore.Labels
use equistore.Data.{Arrays}
use equistore.Tensor
use equistore.CApi.{defined}
use equistore.CApi.Labels.{eqs_labels_to_rust}
use equistore.CApi.Heap.{Heap, read_tensor}
use equistore.CApi.Matches.{eqs_tensormap_blocks_matching-written}
use equistore.Bindings.{BindingError, check_status}
use equistore.Bindings.Labels.{Labels, count}
use equistore.Bindings.Tensor.{done, try_status, zeros, resize, resized, blocks_matching}

length-zeros : (n : ℕ) → length (zeros n) ≡ n
length-zeros zero = refl
length-zeros (suc n) = ap suc (length-zeros n)

resize-written : (is rest : List ℕ) → resize (is ++ rest) (length is) ≡ is
resize-written is rest =
    let enough : length is - length (is ++ rest) ≡ 0 = omega (arith, length-append is rest) in
    rw (take-append_length is rest, enough) (append-nil is)

try_status-success {ℓ} :
    {A : Type ℓ} (before : Option Error) (last_rust : BindingError) (a : A)
    → try_status last_rust (some (eqs_success, before, a)) ≡ done a
unfolding try_status check_status ℤ_discrete ℕ_discrete
try_status-success before last_rust a = refl

-- Where the tensor map of the bindings leads to one of the core with a block for each key, and holds
-- as many keys, and the core finds blocks for the selection, the bindings return these blocks, which
-- they read from a buffer of their own.
pub blocks_matching-same :
    (X : Arrays) (before : Option Error) (last_rust : BindingError) (heap : Heap X) (t : ℕ)
    (keys selection : Labels) {tensor : equistore.Tensor.TensorMap X}
    {rust : equistore.Labels.Labels} {is : List ℕ}
    → read_tensor X heap t ≡ defined (ok tensor)
    → length tensor.blocks ≡ equistore.Labels.count tensor.keys
    → count keys ≡ equistore.Labels.count tensor.keys
    → eqs_labels_to_rust selection.raw ≡ defined (ok rust)
    → equistore.Tensor.blocks_matching X tensor rust ≡ ok is
    → blocks_matching X before last_rust heap (record { ptr = some t; keys = keys }) selection
      ≡ done is
unfolding blocks_matching
blocks_matching-same X before last_rust heap t keys selection {is} there each same handed found =
    let indexes = zeros (count keys) in
    let (_, called) =
      eqs_tensormap_blocks_matching-written X before heap t selection.raw there each handed indexes
        (length-zeros (count keys) ∙ same) found in
    ap (λ c. resized (try_status last_rust c)) called
    ∙ ap resized (
        try_status-success before last_rust
          (some (is ++ drop (length is) indexes), some (length is)))
    ∙ ap done (resize-written is (drop (length is) indexes))
