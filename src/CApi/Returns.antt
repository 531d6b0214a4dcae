-- ===== src/CApi/Returns.antt =====
-- equistore-core/src/c_api/tensor.rs: `eqs_tensormap` returns on labels whose names are C strings.
use equistore.Prelude.{
  ◌≡◌, ◌≢◌, ◌↔◌, ◌⊎◌, inl, inr, refl, false, ℕ, List, length, map, Option, none, some, Distinct,
  All,
}
use equistore.Errors.{Error, Outcome, ok, err, panic, IsFailure, text_has_null}
use equistore.Labels.{Labels}
use equistore.Labels.Texts.{IsPrintable}
use equistore.Data.{Arrays}
use equistore.Blocks.{TensorBlock}
use equistore.Tensor.{TensorMap, new_map}
use equistore.Tensor.Texts.{IsNamed, new_map-IsPrintable}
use equistore.CApi.{defined}
use equistore.CApi.Labels.{EqsLabels, eqs_labels_to_rust}
use equistore.CApi.Heap.{TensorPtr, null, boxed, Heap, into_boxed_raw}
use equistore.CApi.Tensors.{eqs_tensormap}
use equistore.CApi.Ownership.{Owns, eqs_tensormap-IsReleased}

failure-text :
    {A : Type 0} (o : Outcome A) (e : Error)
    → IsFailure o e
    → IsPrintable o
    → text_has_null e ≡ false
failure-text (ok a) e f t = elim f [ ]
failure-text (err x) e f t = rw f t
failure-text (panic m) e f t = rw f t

Outcome-cases : {A : Type 0} (o : Outcome A) → ((a : A) × (o ≡ ok a)) ⊎ ((a : A) → o ≢ ok a)
Outcome-cases (ok a) = inl (a, refl)
Outcome-cases (err e) = inr (λ a p. cc)
Outcome-cases (panic m) = inr (λ a p. cc)

module _ (X : Arrays) (before : Option Error) (heap : Heap X) (keys : EqsLabels) where
  -- With keys that are labels, and from different boxes that hold blocks whose labels and gradients have
  -- names without null characters, `eqs_tensormap` returns, with NULL for each block's pointer; the
  -- pointer that it returns is NULL exactly where no tensor map can be made of the keys and the blocks.
  pub eqs_tensormap_returns :
      (is : List ℕ) (blocks : List (TensorBlock X)) (rust : Labels)
      → Distinct is
      → Owns X heap is blocks
      → eqs_labels_to_rust keys ≡ defined (ok rust)
      → All (IsNamed X) blocks
      → (kept : Option Error) × (heap' : Heap X) × (t : TensorPtr) × (eqs_tensormap X before heap
            keys
            (some (map boxed is))
            (length is)
          ≡ some (kept, (heap', some (map (λ i. null) is), t)))
        × ((t ≡ none) ↔ ((tensor : TensorMap X) → new_map X rust blocks ≢ ok tensor))
  unfolding into_boxed_raw
  eqs_tensormap_returns is blocks rust d o h named =
      let (heap₁, _, made, lost) =
        eqs_tensormap-IsReleased X before heap keys is blocks rust d o h in
      elim (Outcome-cases (new_map X rust blocks)) [
        | inl (tensor, found) ↦ (
          before,
          (into_boxed_raw X heap₁ tensor).0,
          (into_boxed_raw X heap₁ tensor).1,
          made tensor found,
          (λ no_ptr. cc, λ no. absurd (no tensor found)),
        )
        | inr no_tensor ↦
            let (e, failure, ended) = lost no_tensor in
            let printable : text_has_null e ≡ false =
              failure-text (new_map X rust blocks) e failure
                (new_map-IsPrintable X rust blocks named) in
            (some e, heap₁, none, rw printable at ended, (λ _. no_tensor, λ _. refl))
      ]
