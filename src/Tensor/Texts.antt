-- ===== src/Tensor/Texts.antt =====
-- equistore-core/src/tensor/mod.rs: the texts of the errors of `TensorMap::new`.
use mathlib.Core.List.{lookup}
use equistore.Prelude.{
  ◌≡◌, refl, inl, inr, false, Bool, Option-cases, ◌||◌, ◌==◌, List, [], ◌∷◌, length, some, equal,
  All, subst, sym, ◌∙◌, some-injective, if_pos, if_neg,
}
use equistore.Errors.{
  Name, guard, has_null, any_null, wrong_blocks_count, different_sample_names,
  different_components_count, different_component_names, different_property_names,
  different_gradients,
}
use equistore.Labels.{Labels, count, name_dec, names_dec}
use equistore.Labels.Texts.{IsPrintable, bind-IsPrintable, guard-IsPrintable}
use equistore.Data.{Arrays}
use equistore.Blocks.{BasicBlock, TensorBlock, gradient}
use equistore.Tensor.{
  names_of, check_component_names, check_labels_names, check_gradients, check_block, check_blocks,
  check_all, new_map,
}

or-false : (a b : Bool) → a ≡ false → b ≡ false → (a || b) ≡ false
or-false a b h k = rw (h, k) refl

-- Names without null characters.
abbrev pub AreStrings : List Name → Type 0
AreStrings names = any_null names ≡ false

check_component_names-IsPrintable :
    (components : List Labels) (names : List (List Name))
    → All (λ c. AreStrings c.names) components
    → All AreStrings names
    → IsPrintable (check_component_names components names)
unfolding check_component_names
check_component_names-IsPrintable [] names h k = refl
check_component_names-IsPrintable (c ∷ components) [] h k = refl
check_component_names-IsPrintable (c ∷ components) (n ∷ names) h k =
    bind-IsPrintable (guard (equal names_dec c.names n) (different_component_names c.names n)) _
      (guard-IsPrintable (equal names_dec c.names n) (different_component_names c.names n)
        (or-false (any_null c.names) (any_null n) h.0 k.0))
      (λ _. check_component_names-IsPrintable components names h.1 k.1)

names_of-AreStrings :
    (components : List Labels)
    → All (λ c. AreStrings c.names) components
    → All AreStrings (names_of components)
names_of-AreStrings [] h = tt
names_of-AreStrings (c ∷ components) h = (h.0, names_of-AreStrings components h.1)

module _ (X : Arrays) where
  -- The names of the labels of a block, and of its gradients and their labels, have no null character.
  pub record HasStrings (block : BasicBlock X) : Type 0 where
    pub samples : AreStrings block.samples.names
    pub components : All (λ c. AreStrings c.names) block.components
    pub properties : AreStrings block.properties.names

  pub record IsNamed (block : TensorBlock X) : Type 0 where
    pub values : HasStrings block.values
    pub gradients : All (λ g. (has_null g.0 ≡ false) × HasStrings g.1) block.gradients

  lookup-HasStrings :
      (gradients : List (Name × BasicBlock X)) (parameter : Name) {f : BasicBlock X}
      → All (λ g. (has_null g.0 ≡ false) × HasStrings g.1) gradients
      → lookup name_dec parameter gradients ≡ some f
      → HasStrings f
  unfolding lookup
  lookup-HasStrings [] parameter h e = cc
  lookup-HasStrings ((p, g) ∷ gradients) parameter {f} h e = elim (name_dec parameter p) [
    | yes same ↦
        subst HasStrings
          (some-injective g f (sym (if_pos (name_dec parameter p) same (some g) _) ∙ e)) h.0.1
    | no other ↦
        lookup-HasStrings gradients parameter h.1
          (sym (if_neg (name_dec parameter p) other (some g) _) ∙ e)
  ]

  gradient-HasStrings :
      (block : TensorBlock X) (parameter : Name) {g : BasicBlock X}
      → IsNamed block
      → gradient X block parameter ≡ some g
      → HasStrings g
  unfolding gradient
  gradient-HasStrings block parameter v e =
      lookup-HasStrings block.gradients parameter v.gradients e

  check_labels_names-IsPrintable :
      (block : BasicBlock X) (samples : List Name) (components : List (List Name))
      → HasStrings block
      → AreStrings samples
      → All AreStrings components
      → IsPrintable (check_labels_names X block samples components)
  unfolding check_labels_names
  check_labels_names-IsPrintable block samples components h s c =
      bind-IsPrintable
        (guard (equal names_dec block.samples.names samples)
          (different_sample_names block.samples.names samples))
        _
        (guard-IsPrintable (equal names_dec block.samples.names samples)
          (different_sample_names block.samples.names samples)
          (or-false (any_null block.samples.names) (any_null samples) h.samples s))
        (λ _.
          bind-IsPrintable
            (guard (length block.components == length components)
              (different_components_count (length block.components) (length components)))
            _
            (guard-IsPrintable (length block.components == length components)
              (different_components_count (length block.components) (length components)) refl)
            (λ _. check_component_names-IsPrintable block.components components h.components c))

  check_gradients-IsPrintable :
      (first : TensorBlock X) (gradients : List (Name × BasicBlock X))
      → IsNamed first
      → All (λ g. (has_null g.0 ≡ false) × HasStrings g.1) gradients
      → IsPrintable (check_gradients X first gradients)
  unfolding check_gradients
  check_gradients-IsPrintable first [] v h = refl
  check_gradients-IsPrintable first ((parameter, g) ∷ gradients) v h =
      elim (Option-cases (gradient X first parameter)) [
        | inl no_such ↦ rw (check_gradients, no_such) h.0.0
        | inr (f, e) ↦
            let w = gradient-HasStrings first parameter v e in
            rw (check_gradients, e)
              (bind-IsPrintable (check_labels_names X g f.samples.names (names_of f.components)) _
                (check_labels_names-IsPrintable g f.samples.names (names_of f.components) h.0.1
                  w.samples (names_of-AreStrings f.components w.components))
                (λ _. check_gradients-IsPrintable first gradients v h.1))
      ]

  check_block-IsPrintable :
      (first block : TensorBlock X)
      → IsNamed first
      → IsNamed block
      → IsPrintable (check_block X first block)
  unfolding check_block
  check_block-IsPrintable first block v w =
      bind-IsPrintable
        (check_labels_names X block.values first.values.samples.names
          (names_of first.values.components))
        _
        (check_labels_names-IsPrintable block.values first.values.samples.names
          (names_of first.values.components) w.values v.values.samples
          (names_of-AreStrings first.values.components v.values.components))
        (λ _.
          bind-IsPrintable (guard _ _) _
            (guard-IsPrintable
              (equal names_dec block.values.properties.names first.values.properties.names)
              (different_property_names block.values.properties.names first.values.properties.names)
              (or-false _ _ w.values.properties v.values.properties))
            (λ _.
              bind-IsPrintable (guard _ _) _
                (guard-IsPrintable (length block.gradients == length first.gradients)
                  different_gradients refl)
                (λ _. check_gradients-IsPrintable first block.gradients v w.gradients)))

  check_blocks-IsPrintable :
      (first : TensorBlock X) (blocks : List (TensorBlock X))
      → IsNamed first
      → All IsNamed blocks
      → IsPrintable (check_blocks X first blocks)
  unfolding check_blocks
  check_blocks-IsPrintable first [] v h = refl
  check_blocks-IsPrintable first (block ∷ blocks) v h =
      bind-IsPrintable (check_block X first block) _ (check_block-IsPrintable first block v h.0)
        (λ _. check_blocks-IsPrintable first blocks v h.1)

  check_all-IsPrintable :
      (blocks : List (TensorBlock X)) → All IsNamed blocks → IsPrintable (check_all X blocks)
  unfolding check_all
  check_all-IsPrintable [] h = refl
  check_all-IsPrintable (first ∷ blocks) h = check_blocks-IsPrintable first (first ∷ blocks) h.0 h

  pub new_map-IsPrintable :
      (keys : Labels) (blocks : List (TensorBlock X))
      → All IsNamed blocks
      → IsPrintable (new_map X keys blocks)
  unfolding new_map
  new_map-IsPrintable keys blocks h =
      bind-IsPrintable
        (guard (length blocks == count keys) (wrong_blocks_count (count keys) (length blocks))) _
        (guard-IsPrintable (length blocks == count keys)
          (wrong_blocks_count (count keys) (length blocks)) refl)
        (λ _. bind-IsPrintable (check_all X blocks) _ (check_all-IsPrintable blocks h) (λ _. refl))
