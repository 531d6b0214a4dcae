-- ===== src/Tests/MoveRuns.antt =====
-- equistore-core/src/blocks.rs: the properties that a moved component gives.
use mathlib.Core.List.{lookup}
use equistore.Prelude.{
  sym, ap, ◌≡◌, refl, List, [], ◌∷◌, ℤ.pos, codes, Distinct-of_n_unique, list_discrete, ℤ_discrete,
  ℕ_discrete, arith,
}
use equistore.Errors.{ok}
use equistore.Labels.{
  names_dec, count, Entry, Labels, IsLabels, entry_dec, name_dec, iter, chunks, valid_from,
  is_valid_label_name, check_names,
}
use equistore.Labels.Builder.{
  new, add, push, insert, convert, try_add, add_all, has_null, check_c_strings, finish,
}
use equistore.Labels.Finish.{ValidNames}
use equistore.Data.{shape, reshape, swap_axes, checked, function}
use equistore.Blocks.{
  BasicBlock, add_products, moved_properties, find_component, remove_at, moved_shape,
  basic_components_to_properties,
}
use equistore.Blocks.Basic.{IsBasic}
use equistore.Blocks.MovedShape.{Reshapes, basic_components_to_properties-IsBasic}
use equistore.Blocks.Moved.{product, moved_properties-product}
use equistore.Tests.{plain, labels_of, labels_of-IsLabels}

program : Unit {0}
unfolding list_discrete ℤ_discrete ℕ_discrete entry_dec name_dec names_dec lookup iter chunks
    valid_from is_valid_label_name check_names new add push insert convert try_add add_all has_null
    check_c_strings finish add_products moved_properties count shape reshape swap_axes checked
    function find_component remove_at moved_shape basic_components_to_properties
program = tt

abbrev component_rows : List Entry
component_rows = (pos 0 ∷ []) ∷ (pos 1 ∷ []) ∷ []

abbrev property_rows : List Entry
property_rows = (pos 4 ∷ []) ∷ (pos 2 ∷ []) ∷ []

abbrev component : Labels
component = labels_of (codes "c" ∷ []) component_rows

abbrev properties : Labels
properties = labels_of (codes "n" ∷ []) property_rows

component-IsLabels : IsLabels (codes "c" ∷ []) component_rows component
unfolding program
component-IsLabels =
    labels_of-IsLabels _ component_rows (refl, (refl, tt))
      (Distinct-of_n_unique entry_dec component_rows refl) (λ h. absurd (omega arith))

properties-IsLabels : IsLabels (codes "n" ∷ []) property_rows properties
unfolding program
properties-IsLabels =
    labels_of-IsLabels _ property_rows (refl, (refl, tt))
      (Distinct-of_n_unique entry_dec property_rows refl) (λ h. absurd (omega arith))

both-ValidNames : ValidNames (codes "c" ∷ codes "n" ∷ [])
unfolding program
both-ValidNames = record {
  valid = (refl, (refl, tt));
  distinct = Distinct-of_n_unique name_dec (codes "c" ∷ codes "n" ∷ []) refl;
}

moves :
    moved_properties plain component properties
    ≡ ok (
        labels_of (codes "c" ∷ codes "n" ∷ []) (
          (pos 0 ∷ pos 4 ∷ [])
          ∷ (pos 0 ∷ pos 2 ∷ [])
          ∷ (pos 1 ∷ pos 4 ∷ [])
          ∷ (pos 1 ∷ pos 2 ∷ [])
          ∷ []))
unfolding program
moves = refl

moved_properties-product_example :
    (l : Labels) × (moved_properties plain component properties ≡ ok l)
    × IsLabels (codes "c" ∷ codes "n" ∷ []) (product component_rows property_rows) l
moved_properties-product_example =
    moved_properties-product properties-IsLabels (omega arith) plain component component-IsLabels
      (omega arith) both-ValidNames

abbrev block : BasicBlock plain
block = record {
  array = (2 ∷ 2 ∷ 2 ∷ [], 1 ∷ 2 ∷ 3 ∷ 4 ∷ 5 ∷ 6 ∷ 7 ∷ 8 ∷ []);
  samples = labels_of (codes "s" ∷ []) component_rows;
  components = component ∷ [];
  properties = properties;
}

abbrev moved : BasicBlock plain
moved = record block {
  array = (2 ∷ 4 ∷ [], block.array.1);
  components = [];
  properties = labels_of (codes "c" ∷ codes "n" ∷ []) (product component_rows property_rows);
}

pub plain-Reshapes : Reshapes plain
unfolding program
plain-Reshapes = λ a s a' h. let e : (s, a.1) ≡ a' = cc h in ap (λ x. ok x.0) (sym e)

block-IsBasic : IsBasic plain block
unfolding program
block-IsBasic = record { shaped = refl; different = (tt, tt); single = (refl, tt) }

basic_components_to_properties-IsBasic_example : IsBasic plain moved
unfolding program
basic_components_to_properties-IsBasic_example =
    basic_components_to_properties-IsBasic plain block moved (codes "c" ∷ []) plain-Reshapes
      block-IsBasic refl
