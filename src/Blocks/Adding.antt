-- ===== src/Blocks/Adding.antt =====
-- `add_gradient` keeps a block well-formed and changes one gradient.
use mathlib.Core.List.{map-append}
use equistore.Prelude.{
  ℕ, ◌≤◌, ◌-◌, ◌≡◌, ◌≢◌, ◌∙◌, refl, sym, ◌↔◌, inl, inr, false, List, [], ◌∷◌, ◌++◌, some, length,
  drop, map, get_elem?, Distinct, Distinct-snoc, All, All-append, Absent-keys, Bool-cases,
  lookup-append_none, lookup-append_other, lookup_self,
}
use equistore.Errors.{Name, ok, >>=-eq-ok}
use equistore.Labels.{Labels, name_dec}
use equistore.Labels.Builder.{has_null, check_c_strings}
use equistore.Data.{Arrays, origin}
use equistore.Blocks.{
  BasicBlock, TensorBlock, check_gradient, add_gradient, gradient, values_name, sample_name,
}
use equistore.Blocks.Basic.{IsBasic, made}
use equistore.Blocks.Gradient.{Agree, CanAdd, check_gradient-ok, check_gradient-total}

module _ (X : Arrays) where
  -- A gradient that fits the values of its block.
  pub record IsGradient (values : BasicBlock X) (e : Name × BasicBlock X) : Type 0 where
    pub basic : IsBasic X e.1
    pub same_properties : e.1.properties ≡ values.properties
    pub same_origin : (o : ℕ) × (origin X e.1.array ≡ ok o) × (origin X values.array ≡ ok o)
    pub not_values : e.0 ≢ values_name
    pub sample_first : get_elem? e.1.samples.names 0 ≡ some sample_name
    pub enough : length values.components ≤ length e.1.components
    pub agree :
        Agree
          (drop (length e.1.components - length values.components) e.1.components)
          values.components

  abbrev pub parameters : TensorBlock X → List Name
  parameters block = map (λ e. e.0) block.gradients

  -- A block as the library makes it: all gradients fit, no two have one parameter, and the parameters
  -- are listed for the C API in the same order.
  pub record IsBlock (block : TensorBlock X) : Type 0 where
    pub values : IsBasic X block.values
    pub gradients : All (IsGradient block.values) block.gradients
    pub listed : block.gradient_parameters ≡ parameters block
    pub distinct : Distinct (parameters block)

  module _ (block : TensorBlock X) (parameter : Name) (array : X.Array) (samples : Labels)
      (components : List Labels) where
    abbrev pub added : BasicBlock X
    added = made X array samples components block.values.properties

    abbrev pub with_gradient : TensorBlock X
    with_gradient = record block {
      gradients = block.gradients ++ (parameter, added) ∷ [];
      gradient_parameters = block.gradient_parameters ++ parameter ∷ [];
    }

    -- A gradient is added exactly where it is the first of its parameter, which is a C string and not
    -- "values", has the origin of the values, "sample" as first name of its samples, components that
    -- end with those of the values, and fitting data; and then it and its parameter go to the end.
    pub add_gradient_iff :
        (block' : TensorBlock X)
        → (add_gradient X block parameter array samples components ≡ ok block') ↔ (
            (block' ≡ with_gradient)
            × CanAdd X block parameter array samples components
            × (has_null parameter ≡ false))
    unfolding add_gradient check_c_strings
    add_gradient_iff block' = (
      λ h.
          let (_, checked, h₁) =
            >>=-eq-ok (check_gradient X block parameter array samples components) _ h in
          elim (Bool-cases (has_null parameter)) [
            | inl bad ↦ cc (h₁, bad)
            | inr good ↦ (
              cc (h₁, good),
              check_gradient-ok X block parameter array samples components checked,
              good,
            )
          ],
      λ x. rw (check_gradient-total X block parameter array samples components x.1, x.2, x.0) refl,
    )

    parameters_with : parameters with_gradient ≡ parameters block ++ parameter ∷ []
    parameters_with = map-append (λ e. e.0) block.gradients ((parameter, added) ∷ [])

    with_gradient-IsBlock :
        IsBlock block → CanAdd X block parameter array samples components → IsBlock with_gradient
    unfolding gradient
    with_gradient-IsBlock v c = record {
      values = v.values;
      gradients =
          All-append (IsGradient block.values) block.gradients ((parameter, added) ∷ []) v.gradients
            (
              record {
                basic = c.basic;
                same_properties = refl;
                same_origin = c.same_origin;
                not_values = c.not_values;
                sample_first = c.sample_first;
                enough = c.enough;
                agree = c.agree;
              },
              tt,
            );
      listed = rw (v.listed) (sym parameters_with);
      distinct = rw parameters_with (
          Distinct-snoc (parameters block) parameter v.distinct
            (Absent-keys name_dec parameter block.gradients c.fresh));
    }

    -- After a gradient is added to a well-formed block the block is well-formed, has the new
    -- gradient under its parameter, and has the gradients of the other parameters and the values as before.
    pub add_gradient-IsBlock :
        (block' : TensorBlock X)
        → IsBlock block
        → add_gradient X block parameter array samples components ≡ ok block'
        → IsBlock block'
          × (gradient X block' parameter ≡ some added)
          × ((other : Name) → other ≢ parameter → gradient X block' other ≡ gradient X block other)
          × (block'.values ≡ block.values)
    unfolding gradient
    add_gradient-IsBlock block' v h =
        let (e, c, _) = (add_gradient_iff block').0 h in
        rw e (
          with_gradient-IsBlock v c,
          lookup-append_none name_dec parameter block.gradients ((parameter, added) ∷ []) c.fresh
              ∙ lookup_self name_dec parameter added,
          λ other n. lookup-append_other name_dec other parameter added block.gradients n,
          refl,
        )
