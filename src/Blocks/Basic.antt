-- ===== src/Blocks/Basic.antt =====
-- When a block can be made, and what holds of it.
use equistore.Prelude.{
  ℕ, suc, ◌≡◌, refl, subst, ◌↔◌, inl, inr, List, [], ◌∷◌, Distinct, All, ◌==◌, ==_iff, Bool-cases,
}
use equistore.Errors.{ok, >>=-eq-ok}
use equistore.Labels.{Labels, size}
use equistore.Data.{Arrays, shape}
use equistore.Blocks.{BasicBlock, check_component_labels, check_data_and_labels, new_basic}
use equistore.Blocks.Shape.{expected_shape, component_names, check_shape_iff}

pub check_component_labels_iff :
    (i : ℕ) (components : List Labels)
    → (check_component_labels i components ≡ ok tt) ↔ All (λ c. size c ≡ 1) components
unfolding check_component_labels
check_component_labels_iff i [] = (λ _. tt, λ _. refl)
check_component_labels_iff i (c ∷ components) = elim (Bool-cases (size c == 1)) [
  | inl one ↦ (
    λ h. (
      (==_iff (size c) 1).0 one,
      (check_component_labels_iff (suc i) components).0 (rw one at h),
    ),
    λ h. rw one ((check_component_labels_iff (suc i) components).1 h.1),
  )
  | inr other ↦ (λ h. cc (h, other), λ h. cc (other, (==_iff (size c) 1).1 h.0))
]

module _ (X : Arrays) where
  -- The data has one sample, component and property for each entry of the labels, and each component
  -- one name, not the name of another.
  pub record IsBasic (b : BasicBlock X) : Type 0 where
    pub shaped : shape X b.array ≡ ok (expected_shape b.samples b.components b.properties)
    pub different : Distinct (component_names b.components)
    pub single : All (λ c. size c ≡ 1) b.components

  module _ (array : X.Array) (samples : Labels) (components : List Labels)
      (properties : Labels) where
    pub check_data_and_labels_iff :
        (check_data_and_labels X array samples components properties ≡ ok tt) ↔ (
          (shape X array ≡ ok (expected_shape samples components properties))
          × Distinct (component_names components))
    unfolding check_data_and_labels
    check_data_and_labels_iff = (
      λ h.
          let (s, asked, checked) = >>=-eq-ok (shape X array) _ h in
          let (e, d) = (check_shape_iff s samples components properties).0 checked in
          (subst (λ t. shape X array ≡ ok t) e asked, d),
      λ x. rw x.0 ((check_shape_iff _ samples components properties).1 (refl, x.1)),
    )

    abbrev pub made : BasicBlock X
    made = record {
      array = array;
      samples = samples;
      components = components;
      properties = properties;
    }

    -- A basic block is made exactly where the shape of the data counts the entries of the labels, and
    -- the components have one name each, all different; it holds what it is made of.
    pub new_basic_iff :
        (b : BasicBlock X)
        → (new_basic X array samples components properties ≡ ok b) ↔ ((b ≡ made) × IsBasic made)
    unfolding new_basic
    new_basic_iff b = (
      λ h.
          let (_, checked, h₁) =
            >>=-eq-ok (check_data_and_labels X array samples components properties) _ h in
          let (_, single, h₂) = >>=-eq-ok (check_component_labels 0 components) _ h₁ in
          let (s, d) = check_data_and_labels_iff.0 checked in
          (
            cc h₂,
            record {
              shaped = s;
              different = d;
              single = (check_component_labels_iff 0 components).0 single;
            },
          ),
      λ x.
          rw
            (
              check_data_and_labels_iff.1 (x.1.shaped, x.1.different),
              (check_component_labels_iff 0 components).1 x.1.single,
              x.0,
            )
            refl,
    )
