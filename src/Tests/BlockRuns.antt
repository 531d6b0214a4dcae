-- ===== src/Tests/BlockRuns.antt =====
-- equistore-core/src/data.rs and blocks.rs, run on plain arrays.
use mathlib.Core.List.{lookup}
use equistore.Prelude.{
  ℕ, ◌≡◌, ◌≢◌, refl, ◌↔◌, false, List, [], ◌∷◌, ◌++◌, some, ℤ.pos, codes, list_discrete, ℤ_discrete,
  ℕ_discrete,
}
use equistore.Errors.{Name, ok}
use equistore.Labels.{
  Entry, Labels, entry_dec, name_dec, names_dec, count, is_empty, iter, labels_eq, same_values,
  chunks, valid_from, is_valid_label_name, check_names,
}
use equistore.Labels.Builder.{
  new, add, push, insert, convert, try_add, add_all, has_null, check_c_strings, finish,
}
use equistore.Data.{
  register_data_origin, get_data_origin, initial_origins, checked, function, elements, origin,
  shape, data_slice, reshape, swap_axes, create, try_clone, move_samples_from,
}
use equistore.Data.Origins.{IsRegistered, register_data_origin-IsRegistered}
use equistore.Blocks.{
  TensorBlock, remove_at, check_components, check_shape, check_component_labels,
  check_same_components, find_component, add_products, check_data_and_labels, new_basic, new_block,
  gradient, check_gradient, add_gradient, moved_properties, moved_shape,
  basic_components_to_properties, clone_basic,
}
use equistore.Blocks.Basic.{IsBasic, made, new_basic_iff}
use equistore.Blocks.Gradient.{CanAdd}
use equistore.Blocks.Adding.{IsBlock, added, with_gradient, add_gradient_iff, add_gradient-IsBlock}
use equistore.Tests.{plain, labels_of, block_of, sample_names}

program : Unit {0}
unfolding list_discrete ℤ_discrete ℕ_discrete entry_dec name_dec names_dec lookup count is_empty
    iter chunks valid_from is_valid_label_name check_names labels_eq same_values new add push insert
    convert try_add add_all has_null check_c_strings finish register_data_origin get_data_origin
    checked function elements origin shape data_slice reshape swap_axes create try_clone
    move_samples_from remove_at check_components check_shape check_component_labels
    check_same_components find_component add_products check_data_and_labels new_basic new_block
    gradient check_gradient add_gradient moved_properties moved_shape basic_components_to_properties
    clone_basic
program = tt

registers :
    register_data_origin initial_origins (codes "numpy")
    ≡ (1, initial_origins ++ codes "numpy" ∷ [])
unfolding program
registers = refl

register_data_origin-IsRegistered_example :
    IsRegistered initial_origins
      (codes "numpy")
      (register_data_origin initial_origins (codes "numpy"))
register_data_origin-IsRegistered_example =
    register_data_origin-IsRegistered initial_origins (codes "numpy") (tt, tt)

abbrev cell : plain.Array
cell = (1 ∷ [], 5 ∷ [])

abbrev samples : List Entry
samples = (pos 0 ∷ []) ∷ (pos 1 ∷ []) ∷ []

abbrev component : Labels
component = labels_of (codes "c" ∷ []) ((pos 0 ∷ []) ∷ (pos 1 ∷ []) ∷ (pos 2 ∷ []) ∷ [])

abbrev properties : List Entry
properties = (pos 4 ∷ []) ∷ []

abbrev block : TensorBlock plain
block = block_of samples properties

abbrev gradient_samples : Labels
gradient_samples = labels_of sample_names ((pos 1 ∷ []) ∷ [])

abbrev gradient_array : List ℕ × List ℕ
gradient_array = (1 ∷ 3 ∷ 1 ∷ [], 7 ∷ 8 ∷ 9 ∷ [])

abbrev with_g : TensorBlock plain
with_g = with_gradient plain block (codes "g") gradient_array gradient_samples (component ∷ [])

abbrev block_shape : List ℕ
block_shape = 1 ∷ 3 ∷ 1 ∷ []

makes_blocks :
    (new_block plain block.values.array block.values.samples [] block.values.properties ≡ ok block)
    × (add_gradient plain block (codes "g") gradient_array gradient_samples (component ∷ [])
        ≡ ok with_g)
unfolding program
makes_blocks = (refl, refl)

new_basic_iff_example :
    (new_basic plain block.values.array block.values.samples [] block.values.properties
      ≡ ok block.values)
    ↔ ((block.values
          ≡ made plain block.values.array block.values.samples [] block.values.properties)
        × IsBasic plain
            (made plain block.values.array block.values.samples [] block.values.properties))
new_basic_iff_example =
    new_basic_iff plain block.values.array block.values.samples [] block.values.properties
      block.values

add_gradient_iff_example :
    (add_gradient plain block (codes "g") gradient_array gradient_samples (component ∷ [])
      ≡ ok with_g)
    ↔ ((with_g
          ≡ with_gradient plain block (codes "g") gradient_array gradient_samples (component ∷ []))
        × CanAdd plain block (codes "g") gradient_array gradient_samples (component ∷ [])
        × (has_null (codes "g") ≡ false))
add_gradient_iff_example =
    add_gradient_iff plain block (codes "g") gradient_array gradient_samples (component ∷ []) with_g

block-IsBlock : IsBlock plain block
unfolding program
block-IsBlock = record {
  values = record { shaped = refl; different = tt; single = tt };
  gradients = tt;
  listed = refl;
  distinct = tt;
}

add_gradient-IsBlock_example :
    IsBlock plain with_g
    × (gradient plain with_g (codes "g")
        ≡ some (added plain block (codes "g") gradient_array gradient_samples (component ∷ [])))
    × ((other : Name)
        → other ≢ codes "g"
        → gradient plain with_g other ≡ gradient plain block other)
    × (with_g.values ≡ block.values)
unfolding program
add_gradient-IsBlock_example =
    add_gradient-IsBlock plain block (codes "g") gradient_array gradient_samples (component ∷ [])
      with_g block-IsBlock refl
