-- ===== src/Tensor/Validity.antt =====
-- `TensorMap::new`: which keys and blocks make a tensor map.
use equistore.Prelude.{
  ◌≡◌, ◌≢◌, ◌∙◌, refl, sym, ap, ap₂, subst, some-injective, ◌↔◌, inl, inr, Bool-cases, Option-cases,
  List, [], ◌∷◌, length, length-map, some, ◌==◌, ==_iff, equal, equal_iff, All, arith,
}
use equistore.Errors.{Name, Error, Outcome, ok, err, >>=-eq-ok}
use equistore.Labels.{Labels, names_dec, count}
use equistore.Data.{Arrays}
use equistore.Blocks.{BasicBlock, TensorBlock, gradient}
use equistore.Blocks.Shape.{guard-ok}
use equistore.Tensor.{
  TensorMap, names_of, check_component_names, check_labels_names, check_gradients, check_block,
  check_blocks, check_all, new_map,
}

err-ne-ok : (e : Error) → ◌≢◌ {A = Outcome (Unit {0})} (err e) (ok tt)
err-ne-ok e h = cc

component_names_iff :
    (components : List Labels) (names : List (List Name))
    → length components ≡ length names
    → (check_component_names components names ≡ ok tt) ↔ (names_of components ≡ names)
unfolding check_component_names
component_names_iff [] [] w = (λ _. refl, λ _. refl)
component_names_iff [] (n ∷ names) w = absurd (omega arith)
component_names_iff (c ∷ components) [] w = absurd (omega arith)
component_names_iff (c ∷ components) (n ∷ names) w =
    let rec = component_names_iff components names (omega arith) in
    elim (Bool-cases (equal names_dec c.names n)) [
      | inl same ↦ (
        λ h. ap₂ ◌∷◌ ((equal_iff names_dec c.names n).0 same) (rec.0 (rw same at h)),
        λ h. rw same (rec.1 (cc h)),
      )
      | inr other ↦ (
        λ h. cc (h, other),
        λ h. let e : c.names ≡ n = cc h in cc (other, (equal_iff names_dec c.names n).1 e),
      )
    ]

module _ (X : Arrays) where
  -- The samples and the components of two blocks have the same names.
  pub record SameLabels (block other : BasicBlock X) : Type 0 where
    pub samples : block.samples.names ≡ other.samples.names
    pub components : names_of block.components ≡ names_of other.components

  check_labels_names_iff :
      (block other : BasicBlock X)
      → (check_labels_names X block other.samples.names (names_of other.components) ≡ ok tt)
        ↔ SameLabels block other
  unfolding check_labels_names
  check_labels_names_iff block other = (
    λ h.
        let (s, h₁) = guard-ok (equal names_dec block.samples.names other.samples.names) _ _ h in
        let (n, h₂) =
          guard-ok (length block.components == length (names_of other.components)) _ _ h₁ in
        record {
          samples = (equal_iff names_dec _ _).0 s;
          components = (component_names_iff _ _ ((==_iff _ _).0 n)).0 h₂;
        },
    λ v.
        let w : length block.components ≡ length (names_of other.components) =
          sym (length-map block.components (λ c. c.names)) ∙ ap length v.components in
        rw
          (
            (equal_iff names_dec block.samples.names other.samples.names).1 v.samples,
            (==_iff _ _).1 w,
          )
          ((component_names_iff _ _ w).1 v.components),
  )

  -- The gradient has a counterpart among those of the first block.
  abbrev pub HasGradient : TensorBlock X → Name × BasicBlock X → Type 0
  HasGradient first e = (f : BasicBlock X) × (gradient X first e.0 ≡ some f) × SameLabels e.1 f

  check_gradients_iff :
      (first : TensorBlock X) (gradients : List (Name × BasicBlock X))
      → (check_gradients X first gradients ≡ ok tt) ↔ All (HasGradient first) gradients
  unfolding check_gradients
  check_gradients_iff first [] = (λ _. tt, λ _. refl)
  check_gradients_iff first ((parameter, g) ∷ gradients) =
      let rec = check_gradients_iff first gradients in
      elim (Option-cases (gradient X first parameter)) [
        | inl missing ↦ (
          λ h. absurd (err-ne-ok _ (rw (missing, check_gradients) at h)),
          λ h. cc (missing, h.0.1),
        )
        | inr (f, found) ↦ (
          λ h.
              let (_, checked, rest) =
                >>=-eq-ok (check_labels_names X g f.samples.names (names_of f.components)) _
                  (rw (found, check_gradients) at h) in
              ((f, found, (check_labels_names_iff g f).0 checked), rec.0 rest),
          λ h.
              let (f', found', same) = h.0 in
              let same_f = subst (SameLabels g) (some-injective f' f (sym found' ∙ found)) same in
              rw (found, check_gradients, (check_labels_names_iff g f).1 same_f) (rec.1 h.1),
        )
      ]

  -- The block has the same kind of data as the first.
  pub record SameKind (first block : TensorBlock X) : Type 0 where
    pub labels : SameLabels block.values first.values
    pub properties : block.values.properties.names ≡ first.values.properties.names
    pub gradients_count : length block.gradients ≡ length first.gradients
    pub gradients : All (HasGradient first) block.gradients

  check_block_iff :
      (first block : TensorBlock X) → (check_block X first block ≡ ok tt) ↔ SameKind first block
  unfolding check_block
  check_block_iff first block = (
    λ h.
        let (_, labels, h₁) =
          >>=-eq-ok
            (check_labels_names X block.values first.values.samples.names
              (names_of first.values.components))
            _ h in
        let (p, h₂) =
          guard-ok (equal names_dec block.values.properties.names first.values.properties.names) _ _
            h₁ in
        let (n, h₃) = guard-ok (length block.gradients == length first.gradients) _ _ h₂ in
        record {
          labels = (check_labels_names_iff block.values first.values).0 labels;
          properties = (equal_iff names_dec _ _).0 p;
          gradients_count = (==_iff _ _).0 n;
          gradients = (check_gradients_iff first block.gradients).0 h₃;
        },
    λ v.
        rw
          (
            (check_labels_names_iff block.values first.values).1 v.labels,
            (equal_iff names_dec block.values.properties.names first.values.properties.names).1
                v.properties,
            (==_iff _ _).1 v.gradients_count,
          )
          ((check_gradients_iff first block.gradients).1 v.gradients),
  )

  check_blocks_iff :
      (first : TensorBlock X) (blocks : List (TensorBlock X))
      → (check_blocks X first blocks ≡ ok tt) ↔ All (SameKind first) blocks
  unfolding check_blocks
  check_blocks_iff first [] = (λ _. tt, λ _. refl)
  check_blocks_iff first (block ∷ blocks) =
      let rec = check_blocks_iff first blocks in
      (
        λ h.
            let (_, one, rest) = >>=-eq-ok (check_block X first block) _ h in
            ((check_block_iff first block).0 one, rec.0 rest),
        λ h. rw ((check_block_iff first block).1 h.0) (rec.1 h.1),
      )

  -- All blocks have the same kind of data.
  abbrev pub Uniform : List (TensorBlock X) → Type 0
  Uniform [] = Unit
  Uniform (first ∷ blocks) = All (SameKind first) (first ∷ blocks)

  check_all_iff : (blocks : List (TensorBlock X)) → (check_all X blocks ≡ ok tt) ↔ Uniform blocks
  unfolding check_all
  check_all_iff [] = (λ _. tt, λ _. refl)
  check_all_iff (first ∷ blocks) = check_blocks_iff first (first ∷ blocks)

  -- A tensor map is made exactly of a block for each key, all with the same kind of data, and holds
  -- the keys and the blocks.
  pub new_map_iff :
      (keys : Labels) (blocks : List (TensorBlock X)) (tensor : TensorMap X)
      → (new_map X keys blocks ≡ ok tensor) ↔ (
          (tensor ≡ record { keys = keys; blocks = blocks })
          × (length blocks ≡ count keys)
          × Uniform blocks)
  unfolding new_map
  new_map_iff keys blocks tensor = (
    λ h.
        let (n, h₁) = guard-ok (length blocks == count keys) _ _ h in
        let (_, uniform, h₂) = >>=-eq-ok (check_all X blocks) _ h₁ in
        (cc h₂, (==_iff _ _).0 n, (check_all_iff blocks).0 uniform),
    λ x. rw ((==_iff _ _).1 x.1, (check_all_iff blocks).1 x.2, x.0) refl,
  )
