-- ===== src/Tensor/Shaped.antt =====
-- Every operation that makes a tensor map makes one whose data fits its labels.
use equistore.Prelude.{◌≡◌, ◌∙◌, refl, sym, subst, List, [], ◌∷◌, length, All, All-append, arith}
use equistore.Errors.{Name, ok, >>=-eq-ok}
use equistore.Labels.{Labels, count}
use equistore.Data.{Arrays, shape, try_clone}
use equistore.Blocks.{
  BasicBlock, TensorBlock, new_basic, new_block, add_gradient, clone_basic, clone_gradients,
  clone_block,
}
use equistore.Blocks.Basic.{IsBasic, new_basic_iff}
use equistore.Blocks.Adding.{add_gradient_iff}
use equistore.Tensor.{TensorMap, new_map, clone_blocks, clone_map}
use equistore.Tensor.Validity.{new_map_iff}

module _ (X : Arrays) where
  -- The values and all gradients have data that fits their labels.
  pub record IsShaped (block : TensorBlock X) : Type 0 where
    pub values : IsBasic X block.values
    pub gradients : All (λ e. IsBasic X e.1) block.gradients

  -- There is a block for each key, and all blocks have data that fits their labels.
  pub record IsShapedMap (tensor : TensorMap X) : Type 0 where
    pub each_key : length tensor.blocks ≡ count tensor.keys
    pub blocks : All IsShaped tensor.blocks

  -- What the library relies on of a copy of an array: it has the same shape.
  abbrev pub Copies : Type 0
  Copies = (a a' : X.Array) → try_clone X a ≡ ok a' → shape X a' ≡ shape X a

  pub new_block-IsShaped :
      (array : X.Array) (samples : Labels) (components : List Labels) (properties : Labels)
      {block : TensorBlock X}
      → new_block X array samples components properties ≡ ok block
      → IsShaped block
  unfolding new_block
  new_block-IsShaped array samples components properties {block} h =
      let (values, made_e, h₁) = >>=-eq-ok (new_basic X array samples components properties) _ h in
      let (e, v) = (new_basic_iff X array samples components properties values).0 made_e in
      let same : record { values = values; gradients = []; gradient_parameters = [] } ≡ block =
        cc h₁ in
      subst IsShaped same (record { values = subst (IsBasic X) (sym e) v; gradients = tt })

  pub add_gradient-IsShaped :
      (block : TensorBlock X) (parameter : Name) (array : X.Array) (samples : Labels)
      (components : List Labels) {block' : TensorBlock X}
      → IsShaped block
      → add_gradient X block parameter array samples components ≡ ok block'
      → IsShaped block'
  add_gradient-IsShaped block parameter array samples components {block'} v h =
      let (e, c, _) = (add_gradient_iff X block parameter array samples components block').0 h in
      subst IsShaped (sym e) (record {
        values = v.values;
        gradients = All-append (λ e. IsBasic X e.1) block.gradients _ v.gradients (c.basic, tt);
      })

  pub new_map-IsShapedMap :
      (keys : Labels) (blocks : List (TensorBlock X)) {tensor : TensorMap X}
      → All IsShaped blocks
      → new_map X keys blocks ≡ ok tensor
      → IsShapedMap tensor
  new_map-IsShapedMap keys blocks {tensor} v h =
      let (e, n, _) = (new_map_iff X keys blocks tensor).0 h in
      subst IsShapedMap (sym e) (record { each_key = n; blocks = v })

  module _ (copies : Copies) where
    clone_basic-IsBasic :
        (b : BasicBlock X) {b' : BasicBlock X}
        → IsBasic X b
        → clone_basic X b ≡ ok b'
        → IsBasic X b'
    unfolding clone_basic
    clone_basic-IsBasic b {b'} v h =
        let (array, cloned, h₁) = >>=-eq-ok (try_clone X b.array) _ h in
        let same : record b { array = array } ≡ b' = cc h₁ in
        subst (IsBasic X) same (record {
          shaped = copies b.array array cloned ∙ v.shaped;
          different = v.different;
          single = v.single;
        })

    clone_gradients-IsBasic :
        (gradients : List (Name × BasicBlock X)) {gradients' : List (Name × BasicBlock X)}
        → All (λ e. IsBasic X e.1) gradients
        → clone_gradients X gradients ≡ ok gradients'
        → All (λ e. IsBasic X e.1) gradients'
    unfolding clone_gradients
    clone_gradients-IsBasic [] {gradients'} v h =
        let same : [] ≡ gradients' = cc h in subst (All (λ e. IsBasic X e.1)) same tt
    clone_gradients-IsBasic ((parameter, b) ∷ gradients) {gradients'} v h =
        let (b', one, h₁) = >>=-eq-ok (clone_basic X b) _ h in
        let (rest, more, h₂) = >>=-eq-ok (clone_gradients X gradients) _ h₁ in
        let same : (parameter, b') ∷ rest ≡ gradients' = cc h₂ in
        subst (All (λ e. IsBasic X e.1)) same
          (clone_basic-IsBasic b v.0 one, clone_gradients-IsBasic gradients v.1 more)

    pub clone_block-IsShaped :
        (block : TensorBlock X) {block' : TensorBlock X}
        → IsShaped block
        → clone_block X block ≡ ok block'
        → IsShaped block'
    unfolding clone_block
    clone_block-IsShaped block {block'} v h =
        let (values, one, h₁) = >>=-eq-ok (clone_basic X block.values) _ h in
        let (gradients, more, h₂) = >>=-eq-ok (clone_gradients X block.gradients) _ h₁ in
        let same : record block { values = values; gradients = gradients } ≡ block' = cc h₂ in
        subst IsShaped same (record {
          values = clone_basic-IsBasic block.values v.values one;
          gradients = clone_gradients-IsBasic block.gradients v.gradients more;
        })

    clone_blocks-IsShaped :
        (blocks : List (TensorBlock X)) {blocks' : List (TensorBlock X)}
        → All IsShaped blocks
        → clone_blocks X blocks ≡ ok blocks'
        → All IsShaped blocks' × (length blocks' ≡ length blocks)
    unfolding clone_blocks
    clone_blocks-IsShaped [] {blocks'} v h =
        let same : [] ≡ blocks' = cc h in
        subst (λ bs. All IsShaped bs × (length bs ≡ 0)) same (tt, refl)
    clone_blocks-IsShaped (block ∷ blocks) {blocks'} v h =
        let (block', one, h₁) = >>=-eq-ok (clone_block X block) _ h in
        let (rest, more, h₂) = >>=-eq-ok (clone_blocks X blocks) _ h₁ in
        let (shaped, n) = clone_blocks-IsShaped blocks v.1 more in
        let same : block' ∷ rest ≡ blocks' = cc h₂ in
        subst (λ bs. All IsShaped bs × (length bs ≡ length (block ∷ blocks))) same
          ((clone_block-IsShaped block v.0 one, shaped), omega (arith, n))

    pub clone_map-IsShapedMap :
        (tensor : TensorMap X) {tensor' : TensorMap X}
        → IsShapedMap tensor
        → clone_map X tensor ≡ ok tensor'
        → IsShapedMap tensor'
    unfolding clone_map
    clone_map-IsShapedMap tensor {tensor'} v h =
        let (blocks, cloned, h₁) = >>=-eq-ok (clone_blocks X tensor.blocks) _ h in
        let (shaped, n) = clone_blocks-IsShaped tensor.blocks v.blocks cloned in
        let same : record { keys = tensor.keys; blocks = blocks } ≡ tensor' = cc h₁ in
        subst IsShapedMap same (record { each_key = n ∙ v.each_key; blocks = shaped })
