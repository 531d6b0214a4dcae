-- ===== src/Tensor/ShapedMoves.antt =====
-- Moving components to the properties keeps the data fitting the labels.
use equistore.Prelude.{
  ◌≡◌, ◌∙◌, refl, subst, Bool-cases, inl, inr, List, [], ◌∷◌, length, All, arith, ◌==◌,
}
use equistore.Errors.{Name, ok, >>=-eq-ok}
use equistore.Data.{Arrays}
use equistore.Blocks.{
  BasicBlock, TensorBlock, move_gradients, block_components_to_properties,
  basic_components_to_properties,
}
use equistore.Blocks.Basic.{IsBasic}
use equistore.Blocks.MovedShape.{Reshapes, basic_components_to_properties-IsBasic}
use equistore.Tensor.{TensorMap, clone_map, move_components, components_to_properties}
use equistore.Tensor.Shaped.{IsShaped, IsShapedMap, Copies, clone_map-IsShapedMap}

module _ (X : Arrays) where
  module _ (reshapes : Reshapes X) where
    move_gradients-IsBasic :
        (gradients : List (Name × BasicBlock X)) (dimensions : List Name)
        {gradients' : List (Name × BasicBlock X)}
        → All (λ e. IsBasic X e.1) gradients
        → move_gradients X gradients dimensions ≡ ok gradients'
        → All (λ e. IsBasic X e.1) gradients'
    unfolding move_gradients
    move_gradients-IsBasic [] dimensions {gradients'} v h =
        let same : [] ≡ gradients' = cc h in subst (All (λ e. IsBasic X e.1)) same tt
    move_gradients-IsBasic ((parameter, b) ∷ gradients) dimensions {gradients'} v h =
        let (b', one, h₁) = >>=-eq-ok (basic_components_to_properties X b dimensions) _ h in
        let (rest, more, h₂) = >>=-eq-ok (move_gradients X gradients dimensions) _ h₁ in
        let same : (parameter, b') ∷ rest ≡ gradients' = cc h₂ in
        subst (All (λ e. IsBasic X e.1)) same (
          basic_components_to_properties-IsBasic X b b' dimensions reshapes v.0 one,
          move_gradients-IsBasic gradients dimensions v.1 more,
        )

    block_components_to_properties-IsShaped :
        (block : TensorBlock X) (dimensions : List Name) {block' : TensorBlock X}
        → IsShaped X block
        → block_components_to_properties X block dimensions ≡ ok block'
        → IsShaped X block'
    unfolding block_components_to_properties
    block_components_to_properties-IsShaped block [] v h = subst (IsShaped X) (cc h) v
    block_components_to_properties-IsShaped block (d ∷ dimensions) {block'} v h =
        let (values, one, h₁) =
          >>=-eq-ok (basic_components_to_properties X block.values (d ∷ dimensions)) _ h in
        let (gradients, more, h₂) =
          >>=-eq-ok (move_gradients X block.gradients (d ∷ dimensions)) _ h₁ in
        let same : record block { values = values; gradients = gradients } ≡ block' = cc h₂ in
        subst (IsShaped X) same (record {
          values =
              basic_components_to_properties-IsBasic X block.values values (d ∷ dimensions) reshapes
                v.values one;
          gradients = move_gradients-IsBasic block.gradients (d ∷ dimensions) v.gradients more;
        })

    move_components-IsShaped :
        (blocks : List (TensorBlock X)) (dimensions : List Name) {blocks' : List (TensorBlock X)}
        → All (IsShaped X) blocks
        → move_components X blocks dimensions ≡ ok blocks'
        → All (IsShaped X) blocks' × (length blocks' ≡ length blocks)
    unfolding move_components
    move_components-IsShaped [] dimensions {blocks'} v h =
        let same : [] ≡ blocks' = cc h in
        subst (λ bs. All (IsShaped X) bs × (length bs ≡ 0)) same (tt, refl)
    move_components-IsShaped (block ∷ blocks) dimensions {blocks'} v h =
        let (block', one, h₁) = >>=-eq-ok (block_components_to_properties X block dimensions) _ h in
        let (rest, more, h₂) = >>=-eq-ok (move_components X blocks dimensions) _ h₁ in
        let (shaped, n) = move_components-IsShaped blocks dimensions v.1 more in
        let same : block' ∷ rest ≡ blocks' = cc h₂ in
        subst (λ bs. All (IsShaped X) bs × (length bs ≡ length (block ∷ blocks))) same
          (
            (block_components_to_properties-IsShaped block dimensions v.0 one, shaped),
            omega (arith, n),
          )

    -- Moving components to the properties in a tensor map whose data fits its labels gives such a
    -- tensor map, if copies of arrays keep their shape and reshaped arrays have the new one.
    pub components_to_properties-IsShapedMap :
        (tensor : TensorMap X) (dimensions : List Name) {tensor' : TensorMap X}
        → Copies X
        → IsShapedMap X tensor
        → components_to_properties X tensor dimensions ≡ ok tensor'
        → IsShapedMap X tensor'
    unfolding components_to_properties
    components_to_properties-IsShapedMap tensor dimensions {tensor'} copies v h =
        let (clone, cloned, h₁) = >>=-eq-ok (clone_map X tensor) _ h in
        let c = clone_map-IsShapedMap X copies tensor v cloned in
        elim (Bool-cases (length dimensions == 0)) [
          | inl nothing ↦
              let same : clone ≡ tensor' = cc (rw nothing at h₁) in subst (IsShapedMap X) same c
          | inr something ↦
              let (blocks, moved, h₂) =
                >>=-eq-ok (move_components X clone.blocks dimensions) _ (rw something at h₁) in
              let (shaped, n) = move_components-IsShaped clone.blocks dimensions c.blocks moved in
              let same : record clone { blocks = blocks } ≡ tensor' = cc h₂ in
              subst (IsShapedMap X) same (record { each_key = n ∙ c.each_key; blocks = shaped })
        ]
