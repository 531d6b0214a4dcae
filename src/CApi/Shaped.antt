-- ===== src/CApi/Shaped.antt =====
-- equistore-core/src/c_api: the blocks and tensor maps that C holds have data that fits their labels.
use equistore.Prelude.{
  ℕ, zero, suc, ◌∙◌, length-set, ◌≡◌, refl, ap, subst, List, [], ◌∷◌, set, get_elem?, All,
  All-append, All-set, Bool-cases, inl, inr, Option, none, some, ℤ,
}
use equistore.Errors.{Error, ok, err, panic, internal, catch_unwind, stored, text_has_null}
use equistore.Data.{Arrays}
use equistore.Blocks.{TensorBlock}
use equistore.Tensor.{TensorMap}
use equistore.Tensor.Shaped.{IsShaped, IsShapedMap}
use equistore.CApi.{Unsafe, undefined, defined, Called, with_status, call}
use equistore.CApi.Creation.{>>=-eq-defined}
use equistore.CApi.Heap.{
  BlockPtr, null, boxed, inside, Heap, unbox, in_tensor, read_block, write_block, box_block,
  unbox_block, into_boxed_raw, from_boxed_raw, read_tensor,
}
use equistore.CApi.Blocks.{returned}

-- What holds of the content of a box, unless it is freed.
abbrev pub Holds : {A : Type 0} → (A → Type 0) → Option A → Type 0
Holds P none = Unit
Holds P (some a) = P a

-- A call that fails leaves the old output, if it ends with a status.
stored-keeps :
    {A : Type 0} (P : A → Type 0) (e : Error) (old : A) {status : ℤ} {kept : Option Error} {new : A}
    → P old
    → with_status (stored e) old ≡ some (status, kept, new)
    → P new
stored-keeps P e old p h = elim (Bool-cases (text_has_null e)) [
  | inl lost ↦ cc (h, lost)
  | inr told ↦ subst P (cc (rw told at h)) p
]

-- What holds of the old output, and of each that the body may give, holds of the output of the call.
pub call-keeps :
    {A : Type 0} (P : A → Type 0) (before : Option Error) (old : A) (body : Unsafe A) {status : ℤ}
    {kept : Option Error} {new : A}
    → P old
    → ((a : A) → body ≡ defined (ok a) → P a)
    → call before old body ≡ some (status, kept, new)
    → P new
unfolding call catch_unwind
call-keeps P before old undefined p f h = cc
call-keeps P before old (defined (ok a)) p f h = subst P (cc h) (f a refl)
call-keeps P before old (defined (err e)) p f h = stored-keeps P e old p h
call-keeps P before old (defined (panic m)) p f h = stored-keeps P (internal m) old p h

returned-some :
    {A : Type 0} (called : Option (Called A)) {kept : Option Error} {new : A}
    → returned called ≡ some (kept, new)
    → (status : ℤ) × (called ≡ some (status, kept, new))
unfolding returned
returned-some none h = cc
returned-some (some (status, kept', new')) h = (status, cc h)

pub returned-keeps :
    {A : Type 0} (P : A → Type 0) (before : Option Error) (old : A) (body : Unsafe A)
    {kept : Option Error} {new : A}
    → P old
    → ((a : A) → body ≡ defined (ok a) → P a)
    → returned (call before old body) ≡ some (kept, new)
    → P new
returned-keeps P before old body p f h =
    let (status, e) = returned-some (call before old body) h in call-keeps P before old body p f e

module _ (X : Arrays) where
  -- The data of all blocks and tensor maps fits their labels.
  pub record IsShapedHeap (heap : Heap X) : Type 0 where
    pub blocks : All (Holds (IsShaped X)) heap.blocks
    pub tensors : All (Holds (IsShapedMap X)) heap.tensors

  unbox-Holds :
      {A : Type 0} (P : A → Type 0) (boxes : List (Option A)) (i : ℕ) {a : A}
      → All (Holds P) boxes
      → unbox X boxes i ≡ defined (ok a)
      → P a
  unfolding unbox
  unbox-Holds P [] i v h = cc
  unbox-Holds P (b ∷ boxes) (suc i) v h = unbox-Holds P boxes i v.1 h
  unbox-Holds P (none ∷ boxes) zero v h = cc
  unbox-Holds P (some b ∷ boxes) zero v h = subst P (cc h) v.0

  in_tensor-IsShaped :
      (tensor : TensorMap X) (i : ℕ) {block : TensorBlock X}
      → IsShapedMap X tensor
      → in_tensor X tensor i ≡ defined (ok block)
      → IsShaped X block
  unfolding in_tensor
  in_tensor-IsShaped tensor i {block} v h = in_list-IsShaped tensor.blocks i v.blocks h
    where
      in_list-IsShaped :
          (blocks : List (TensorBlock X)) (i : ℕ)
          → All (IsShaped X) blocks
          → elim (get_elem? blocks i) [ some block ↦ defined (ok block) | none ↦ undefined ]
            ≡ defined (ok block)
          → IsShaped X block
      in_list-IsShaped [] i v h = cc
      in_list-IsShaped (b ∷ blocks) zero v h = subst (IsShaped X) (cc h) v.0
      in_list-IsShaped (b ∷ blocks) (suc i) v h = in_list-IsShaped blocks i v.1 h

  pub read_block-IsShaped :
      (heap : Heap X) (ptr : BlockPtr) {block : TensorBlock X}
      → IsShapedHeap heap
      → read_block X heap ptr ≡ defined (ok block)
      → IsShaped X block
  unfolding read_block
  read_block-IsShaped heap null v h = cc
  read_block-IsShaped heap (boxed i) v h = unbox-Holds (IsShaped X) heap.blocks i v.blocks h
  read_block-IsShaped heap (inside t i) v h =
      let (tensor, there, h₁) = >>=-eq-defined (unbox X heap.tensors t) _ h in
      in_tensor-IsShaped tensor i (unbox-Holds (IsShapedMap X) heap.tensors t v.tensors there) h₁

  pub write_block-IsShapedHeap :
      (heap : Heap X) (ptr : BlockPtr) (block : TensorBlock X) {heap' : Heap X}
      → IsShapedHeap heap
      → IsShaped X block
      → write_block X heap ptr block ≡ defined (ok heap')
      → IsShapedHeap heap'
  unfolding write_block
  write_block-IsShapedHeap heap null block v b h = cc
  write_block-IsShapedHeap heap (boxed i) block v b h = subst IsShapedHeap (cc h) (record {
    blocks = All-set (Holds (IsShaped X)) heap.blocks i (some block) v.blocks b;
    tensors = v.tensors;
  })
  write_block-IsShapedHeap heap (inside t i) block {heap'} v b h =
      let (tensor, there, h₁) = >>=-eq-defined (unbox X heap.tensors t) _ h in
      let s = unbox-Holds (IsShapedMap X) heap.tensors t v.tensors there in
      let changed : TensorMap X = record tensor { blocks = set (tensor.blocks) i block } in
      let same : record heap { tensors = set (heap.tensors) t (some changed) } ≡ heap' = cc h₁ in
      subst IsShapedHeap same (record {
        blocks = v.blocks;
        tensors = All-set (Holds (IsShapedMap X)) heap.tensors t (some changed) v.tensors (record {
          each_key = length-set tensor.blocks i block ∙ s.each_key;
          blocks = All-set (IsShaped X) tensor.blocks i block s.blocks b;
        });
      })

  pub box_block-IsShapedHeap :
      (heap : Heap X) (block : TensorBlock X)
      → IsShapedHeap heap
      → IsShaped X block
      → IsShapedHeap (box_block X heap block).0
  unfolding box_block
  box_block-IsShapedHeap heap block v b = record {
    blocks = All-append (Holds (IsShaped X)) heap.blocks _ v.blocks (b, tt);
    tensors = v.tensors;
  }

  pub unbox_block-IsShapedHeap :
      (heap : Heap X) (ptr : BlockPtr) {block : TensorBlock X} {heap' : Heap X}
      → IsShapedHeap heap
      → unbox_block X heap ptr ≡ defined (ok (block, heap'))
      → IsShaped X block × IsShapedHeap heap'
  unfolding unbox_block
  unbox_block-IsShapedHeap heap null v h = cc
  unbox_block-IsShapedHeap heap (boxed i) {block} {heap'} v h =
      let (b, there, h₁) = >>=-eq-defined (unbox X heap.blocks i) _ h in
      let same : ◌≡◌ {A = TensorBlock X × Heap X}
          (b, record heap { blocks = set (heap.blocks) i none }) (block, heap') =
        cc h₁ in
      (
        subst (IsShaped X) (ap (λ e. e.0) same)
            (unbox-Holds (IsShaped X) heap.blocks i v.blocks there),
        subst IsShapedHeap (ap (λ e. e.1) same) (record {
          blocks = All-set (Holds (IsShaped X)) heap.blocks i none v.blocks tt;
          tensors = v.tensors;
        }),
      )
  unbox_block-IsShapedHeap heap (inside t i) v h = cc

  pub into_boxed_raw-IsShapedHeap :
      (heap : Heap X) (tensor : TensorMap X)
      → IsShapedHeap heap
      → IsShapedMap X tensor
      → IsShapedHeap (into_boxed_raw X heap tensor).0
  unfolding into_boxed_raw
  into_boxed_raw-IsShapedHeap heap tensor v s = record {
    blocks = v.blocks;
    tensors = All-append (Holds (IsShapedMap X)) heap.tensors _ v.tensors (s, tt);
  }

  pub from_boxed_raw-IsShapedHeap :
      (heap : Heap X) (t : ℕ) {tensor : TensorMap X} {heap' : Heap X}
      → IsShapedHeap heap
      → from_boxed_raw X heap t ≡ defined (ok (tensor, heap'))
      → IsShapedHeap heap'
  unfolding from_boxed_raw
  from_boxed_raw-IsShapedHeap heap t {tensor} {heap'} v h =
      let (b, there, h₁) = >>=-eq-defined (unbox X heap.tensors t) _ h in
      let same : ◌≡◌ {A = TensorMap X × Heap X}
          (b, record heap { tensors = set (heap.tensors) t none }) (tensor, heap') =
        cc h₁ in
      subst IsShapedHeap (ap (λ e. e.1) same) (record {
        blocks = v.blocks;
        tensors = All-set (Holds (IsShapedMap X)) heap.tensors t none v.tensors tt;
      })

  pub read_tensor-IsShapedMap :
      (heap : Heap X) (t : ℕ) {tensor : TensorMap X}
      → IsShapedHeap heap
      → read_tensor X heap t ≡ defined (ok tensor)
      → IsShapedMap X tensor
  unfolding read_tensor
  read_tensor-IsShapedMap heap t v h = unbox-Holds (IsShapedMap X) heap.tensors t v.tensors h
