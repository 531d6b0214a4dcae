-- ===== src/Blocks/Gradient.antt =====
-- When a gradient can be added to a block, and what the block holds then.
use equistore.Prelude.{
  ℕ, suc, ◌-◌, ◌≤◌, ◌≡◌, ◌≢◌, refl, ap, ◌↔◌, inl, inr, true, false, not, ◌&&◌, List, [], ◌∷◌,
  Option, some, none, length, drop, get_elem?, ltb, ◌==◌, ==_iff, Bool-cases, &&-eq-true, if_neg,
  get_elem?-lt, ◌∙◌, eq_self, equal, equal_iff, arith,
}
use equistore.Errors.{Name, Message, ok, expect, >>=-eq-ok, out_of_range}
use equistore.Labels.{Labels, size, labels_eq, name_dec}
use equistore.Data.{Arrays, origin}
use equistore.Blocks.{
  TensorBlock, check_component_labels, check_same_components, check_gradient, gradient, values_name,
  sample_name, first_name,
}
use equistore.Blocks.Shape.{guard-ok}
use equistore.Blocks.Basic.{IsBasic, made, check_component_labels_iff, check_data_and_labels_iff}

-- The labels are equal one by one, as far as both lists go.
abbrev pub Agree : List Labels → List Labels → Type 0
Agree (g ∷ gradient) (v ∷ values) = (labels_eq g v ≡ true) × Agree gradient values
Agree _ _ = Unit

check_same_components_iff :
    (i : ℕ) (gradient values : List Labels)
    → (check_same_components i gradient values ≡ ok tt) ↔ Agree gradient values
unfolding check_same_components
check_same_components_iff i (g ∷ gradient) (v ∷ values) = elim (Bool-cases (labels_eq g v)) [
  | inl same ↦ (
    λ h. (same, (check_same_components_iff (suc i) gradient values).0 (rw same at h)),
    λ h. rw same ((check_same_components_iff (suc i) gradient values).1 h.1),
  )
  | inr other ↦ (λ h. cc (h, other), λ h. cc (h.0, other))
]
check_same_components_iff i [] values = (λ _. tt, λ _. refl)
check_same_components_iff i (g ∷ gradient) [] = (λ _. tt, λ _. refl)

none_test {ℓ} :
    {A : Type ℓ} (o : Option A) → ((elim o [ none ↦ true | some a ↦ false ]) ≡ true) ↔ (o ≡ none)
none_test none = (λ _. refl, λ _. refl)
none_test (some a) = (λ h. cc, λ h. cc)

not-equal : {p q : Name} → p ≢ q → not (equal name_dec p q) ≡ true
not-equal {p} {q} h = rw (if_neg (name_dec p q) h true false) refl

not_lt : (a b : ℕ) → b ≤ a → not (ltb a b) ≡ true
not_lt a b h = ground arith

le_of_not_lt : (a b : ℕ) → not (ltb a b) ≡ true → b ≤ a
le_of_not_lt a b h = ground arith

-- With a first name the labels are not empty.
some_names :
    (samples : Labels) {n : Name}
    → get_elem? samples.names 0 ≡ some n
    → (not (size samples == 0) ≡ true) × (not (ltb (size samples) 1) ≡ true)
some_names samples e = ground (arith, get_elem?-lt samples.names 0 e)

pub expect-ok {ℓ} :
    {A : Type ℓ} (o : Option A) (m : Message) {a : A} → expect o m ≡ ok a → o ≡ some a
expect-ok none m h = cc
expect-ok (some a) m h = cc

module _ (X : Arrays) where
  -- What `add_gradient` asks of a gradient.
  pub record CanAdd (block : TensorBlock X) (parameter : Name) (array : X.Array) (samples : Labels)
      (components : List Labels) : Type 0 where
    pub fresh : gradient X block parameter ≡ none
    pub same_origin : (o : ℕ) × (origin X array ≡ ok o) × (origin X block.values.array ≡ ok o)
    pub not_values : parameter ≢ values_name
    pub sample_first : get_elem? samples.names 0 ≡ some sample_name
    pub enough : length block.values.components ≤ length components
    pub agree :
        Agree
          (drop (length components - length block.values.components) components)
          block.values.components
    pub basic : IsBasic X (made X array samples components block.values.properties)

  module _ (block : TensorBlock X) (parameter : Name) (array : X.Array) (samples : Labels)
      (components : List Labels) where
    pub check_gradient-ok :
        check_gradient X block parameter array samples components ≡ ok tt
        → CanAdd block parameter array samples components
    unfolding check_gradient
    check_gradient-ok h =
        let (fresh, h₁) =
          guard-ok (elim (gradient X block parameter) [ none ↦ true | some g ↦ false ]) _ _ h in
        let (o, o_eq, h₂) = >>=-eq-ok (origin X array) _ h₁ in
        let (o', o'_eq, h₃) = >>=-eq-ok (origin X block.values.array) _ h₂ in
        let (same, h₄) = guard-ok (o == o') _ _ h₃ in
        let (other, h₅) = guard-ok (not (equal name_dec parameter values_name)) _ _ h₄ in
        let (_, h₆) = guard-ok (not (size samples == 0)) _ _ h₅ in
        let (first, first_eq, h₇) = >>=-eq-ok (first_name X samples) _ h₆ in
        let (sample, h₈) =
          guard-ok (not (ltb (size samples) 1) && equal name_dec first sample_name) _ _ h₇ in
        let (_, single, h₉) = >>=-eq-ok (check_component_labels 0 components) _ h₈ in
        let (enough, h₁₀) =
          guard-ok (not (ltb (length components) (length block.values.components))) _ _ h₉ in
        let (_, agree, checked) =
          >>=-eq-ok (check_same_components 0 _ block.values.components) _ h₁₀ in
        let (shaped, different) =
          (check_data_and_labels_iff X array samples components block.values.properties).0
            checked in
        record {
          fresh = (none_test _).0 fresh;
          same_origin = (o, o_eq, rw ((==_iff o o').0 same) o'_eq);
          not_values = λ p. cc (other, (equal_iff name_dec parameter values_name).1 p);
          sample_first =
              expect-ok _ out_of_range first_eq
              ∙ ap some ((equal_iff name_dec first sample_name).0 ((&&-eq-true _ _).0 sample).1);
          enough = le_of_not_lt _ _ enough;
          agree = (check_same_components_iff 0 _ _).0 agree;
          basic = record {
            shaped = shaped;
            different = different;
            single = (check_component_labels_iff 0 components).0 single;
          };
        }

    pub check_gradient-total :
        CanAdd block parameter array samples components
        → check_gradient X block parameter array samples components ≡ ok tt
    unfolding check_gradient
    check_gradient-total c =
        let (o, o_eq, o'_eq) = c.same_origin in
        rw
          (
            (none_test _).1 c.fresh,
            o_eq,
            o'_eq,
            eq_self o,
            not-equal c.not_values,
            (some_names samples c.sample_first).0,
            c.sample_first,
            (some_names samples c.sample_first).1,
            (equal_iff name_dec sample_name sample_name).1 refl,
            (check_component_labels_iff 0 components).1 c.basic.single,
            not_lt _ _ c.enough,
            (check_same_components_iff 0 _ _).1 c.agree,
          )
          ((check_data_and_labels_iff X array samples components block.values.properties).1
            (c.basic.shaped, c.basic.different))
