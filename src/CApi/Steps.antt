-- ===== src/CApi/Steps.antt =====
-- equistore-core/src/c_api: the calls that change the blocks and tensor maps that C holds, as a step
-- relation.
use equistore.Prelude.{ℕ, ◌≡◌, Bool, List, Option, some, ℤ}
use equistore.Errors.{Name, Outcome, Error}
use equistore.Data.{Arrays}
use equistore.Blocks.MovedShape.{Reshapes}
use equistore.Tensor.Keys.{IndexSets}
use equistore.Tensor.Shaped.{Copies}
use equistore.CApi.{CString}
use equistore.CApi.Labels.{EqsLabels}
use equistore.CApi.Heap.{BlockPtr, TensorPtr, Heap}
use equistore.CApi.Blocks.{eqs_block, eqs_block_free, eqs_block_copy, eqs_block_add_gradient}
use equistore.CApi.Tensors.{
  eqs_tensormap, eqs_tensormap_free, eqs_tensormap_copy, eqs_tensormap_components_to_properties,
  eqs_tensormap_keys_to_properties, eqs_tensormap_keys_to_samples,
}
use equistore.CApi.Shaped.{IsShapedHeap}
use equistore.CApi.Calls.{
  eqs_block-IsShapedHeap, eqs_block_free-IsShapedHeap, eqs_block_copy-IsShapedHeap,
  eqs_block_add_gradient-IsShapedHeap,
}
use equistore.CApi.TensorCalls.{
  eqs_tensormap_free-IsShapedHeap, eqs_tensormap_copy-IsShapedHeap,
  eqs_tensormap_components_to_properties-IsShapedHeap, keys_to_properties-IsShapedHeap,
  keys_to_samples-IsShapedHeap,
}
use equistore.CApi.NewTensors.{eqs_tensormap-IsShapedHeap, eqs_tensormap_load-IsShapedHeap}
use equistore.Io.{Formats}
use equistore.Io.Archives.{Zip}
use equistore.CApi.Files.{eqs_tensormap_load}

module _ (X : Arrays) (I : IndexSets) (F : Formats X.Float) (Z : Zip F.Byte)
    (fill : X.Array → List X.Float → X.Array) (open_file : Name → Outcome (List F.Byte)) where
  -- A call that has a result, whatever its status.
  pub data Step (heap heap' : Heap X) : Type 0 where
    new_block_step :
        (before kept : Option Error) (array : X.Array) (samples : EqsLabels)
        (components : Option (List EqsLabels)) (n : ℕ) (properties : EqsLabels) (ptr : BlockPtr)
        → eqs_block X before heap array samples components n properties ≡ some (kept, (heap', ptr))
        → Step heap heap'
    free_block_step :
        (before kept : Option Error) (ptr : BlockPtr) (status : ℤ)
        → eqs_block_free X before heap ptr ≡ some (status, kept, heap')
        → Step heap heap'
    copy_block_step :
        (before kept : Option Error) (ptr ptr' : BlockPtr)
        → eqs_block_copy X before heap ptr ≡ some (kept, (heap', ptr'))
        → Step heap heap'
    new_gradient_step :
        (before kept : Option Error) (ptr : BlockPtr) (parameter : Option CString) (array : X.Array)
        (samples : EqsLabels) (components : Option (List EqsLabels)) (n : ℕ) (status : ℤ)
        → eqs_block_add_gradient X before heap ptr parameter array samples components n
          ≡ some (status, kept, heap')
        → Step heap heap'
    new_tensor_step :
        (before kept : Option Error) (keys : EqsLabels) (ptrs ptrs' : Option (List BlockPtr))
        (n : ℕ) (t : TensorPtr)
        → eqs_tensormap X before heap keys ptrs n ≡ some (kept, (heap', ptrs', t))
        → Step heap heap'
    free_tensor_step :
        (before kept : Option Error) (t : TensorPtr) (status : ℤ)
        → eqs_tensormap_free X before heap t ≡ some (status, kept, heap')
        → Step heap heap'
    copy_tensor_step :
        (before kept : Option Error) (t t' : TensorPtr)
        → eqs_tensormap_copy X before heap t ≡ some (kept, (heap', t'))
        → Step heap heap'
    move_components_step :
        (before kept : Option Error) (t t' : TensorPtr)
        (dimensions : Option (List (Option CString))) (n : ℕ)
        → eqs_tensormap_components_to_properties X before heap t dimensions n
          ≡ some (kept, (heap', t'))
        → Step heap heap'
    move_to_properties_step :
        (before kept : Option Error) (t t' : TensorPtr) (keys : EqsLabels) (sort : Bool)
        → eqs_tensormap_keys_to_properties X I before heap t keys sort ≡ some (kept, (heap', t'))
        → Step heap heap'
    move_to_samples_step :
        (before kept : Option Error) (t t' : TensorPtr) (keys : EqsLabels) (sort : Bool)
        → eqs_tensormap_keys_to_samples X I before heap t keys sort ≡ some (kept, (heap', t'))
        → Step heap heap'
    load_step :
        (before kept : Option Error) (path : Option CString) (callback : List ℕ → ℤ × X.Array)
        (t : TensorPtr)
        → eqs_tensormap_load X F Z fill open_file before heap path callback
          ≡ some (kept, (heap', t))
        → Step heap heap'

  -- Any number of calls.
  pub data Reach (heap : Heap X) : Heap X → Type 0 where
    here : Reach heap heap
    next : {h h' : Heap X} → Reach heap h → Step h h' → Reach heap h'

  module _ (reshapes : Reshapes X) (copies : Copies X) where
    Step-IsShapedHeap :
        {heap heap' : Heap X} → Step heap heap' → IsShapedHeap X heap → IsShapedHeap X heap'
    Step-IsShapedHeap (new_block_step before kept array samples components n properties ptr h) v =
        eqs_block-IsShapedHeap X v before array samples components n properties h
    Step-IsShapedHeap (free_block_step before kept ptr status h) v =
        eqs_block_free-IsShapedHeap X v before ptr h
    Step-IsShapedHeap (copy_block_step before kept ptr ptr' h) v =
        eqs_block_copy-IsShapedHeap X v before ptr copies h
    Step-IsShapedHeap
          (new_gradient_step before kept ptr parameter array samples components n status h) v =
        eqs_block_add_gradient-IsShapedHeap X v before ptr parameter array samples components n h
    Step-IsShapedHeap (new_tensor_step before kept keys ptrs ptrs' n t h) v =
        eqs_tensormap-IsShapedHeap X v before keys ptrs n h
    Step-IsShapedHeap (free_tensor_step before kept t status h) v =
        eqs_tensormap_free-IsShapedHeap X v before t h
    Step-IsShapedHeap (copy_tensor_step before kept t t' h) v =
        eqs_tensormap_copy-IsShapedHeap X v before t copies h
    Step-IsShapedHeap (move_components_step before kept t t' dimensions n h) v =
        eqs_tensormap_components_to_properties-IsShapedHeap X v before t dimensions n reshapes
          copies h
    Step-IsShapedHeap (move_to_properties_step before kept t t' keys sort h) v =
        keys_to_properties-IsShapedHeap X v before I t keys sort h
    Step-IsShapedHeap (move_to_samples_step before kept t t' keys sort h) v =
        keys_to_samples-IsShapedHeap X v before I t keys sort h
    Step-IsShapedHeap (load_step before kept path callback t h) v =
        eqs_tensormap_load-IsShapedHeap X v before F Z fill open_file path callback h

    -- Where the data of all blocks and tensor maps that C holds fits their labels, this is so after any
    -- sequence of calls that make, load, copy, change, free or move them, whatever the arguments and the
    -- statuses, if the copies of arrays keep their shape and reshaped arrays have the new shape.
    pub Reach-IsShapedHeap :
        {heap heap' : Heap X} → IsShapedHeap X heap → Reach heap heap' → IsShapedHeap X heap'
    Reach-IsShapedHeap v here = v
    Reach-IsShapedHeap v (next r step) = Step-IsShapedHeap step (Reach-IsShapedHeap v r)
