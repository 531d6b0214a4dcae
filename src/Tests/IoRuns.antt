-- ===== src/Tests/IoRuns.antt =====
-- equistore-core/src/io: labels and tensor maps written and read.
use mathlib.Core.List.{lookup}
use equistore.Prelude.{
  ℕ, zero, suc, ◌≡◌, refl, List, [], ◌∷◌, ℤ.pos, ℤ.negsuc, codes, Distinct-of_n_unique,
  list_discrete, ℤ_discrete, ℕ_discrete, arith,
}
use equistore.Errors.{Name, Outcome, ok, panic, out_of_range, expected, ◌>>=◌}
use equistore.Labels.{
  Entry, Labels, IsLabels, entry_dec, name_dec, names_dec, count, iter, chunks, valid_from,
  is_valid_label_name, check_names,
}
use equistore.Labels.Builder.{
  new, add, push, insert, convert, try_add, add_all, has_null, check_c_strings, finish, build,
}
use equistore.Labels.Finish.{ValidNames}
use equistore.Blocks.{
  BasicBlock, TensorBlock, check_data_and_labels, check_shape, check_components,
  check_component_labels, new_basic, new_block, gradient, add_gradient, check_gradient,
  check_same_components,
}
use equistore.Data.{origin, shape, data_slice, elements, checked, function}
use equistore.Tensor.{
  TensorMap, check_labels_names, check_component_names, check_gradients, check_block, check_blocks,
  check_all, new_map,
}
use equistore.Tensor.Shaped.{IsShapedMap}
use equistore.Io.{check_for_extra_bytes, float_endianness, write_floats, read_data, write_data}
use equistore.Io.Labels.{
  type_endianness, next_endianness, check_elements, check_type_descriptor, read_npy_labels,
  descriptor_text, write_values, write_entries, write_npy_labels,
}
use equistore.Io.RoundTrip.{read_npy_labels-write_npy_labels}
use equistore.Io.Archives.{
  map_err, decimal, starts_with, ends_with, without_suffix, find_parameters, load_labels,
  load_components, load_gradients, load_block, load_blocks, load, save_file, save_components,
  save_gradients, save_blocks, save,
}
use equistore.Io.Archives.{digits}
use equistore.Io.Loading.{load-IsShapedMap}
use equistore.Tests.Codecs.{Token, entries, tokens, tokens-IsFormats, files}
use equistore.Tests.{plain, labels_of, labels_of-IsLabels, block_of, sample_names, property_names}

program : Unit {0}
unfolding list_discrete ℤ_discrete ℕ_discrete entry_dec name_dec names_dec lookup count iter chunks
    valid_from is_valid_label_name check_names new add push insert convert try_add add_all has_null
    check_c_strings finish build gradient add_gradient check_gradient check_same_components
    check_component_names check_labels_names check_gradients check_block check_blocks check_all
    new_map check_data_and_labels check_shape check_components check_component_labels new_basic
    new_block origin shape data_slice elements checked function check_for_extra_bytes
    float_endianness write_floats read_data write_data type_endianness next_endianness
    check_elements check_type_descriptor read_npy_labels descriptor_text write_values write_entries
    write_npy_labels map_err decimal starts_with ends_with without_suffix find_parameters
    load_labels load_components load_gradients load_block load_blocks load save_file save_components
    save_gradients save_blocks save
program = tt

abbrev key_names : List Name
key_names = codes "a" ∷ codes "key_2" ∷ []

abbrev key_rows : List Entry
key_rows = (pos 0 ∷ pos 5 ∷ []) ∷ (negsuc 0 ∷ pos 6 ∷ []) ∷ []

key_rows-IsLabels : IsLabels key_names key_rows (labels_of key_names key_rows)
unfolding program
key_rows-IsLabels =
    labels_of-IsLabels key_names key_rows (refl, (refl, tt))
      (Distinct-of_n_unique entry_dec key_rows refl) (λ h. absurd (omega arith))

key_names-ValidNames : ValidNames key_names
unfolding program
key_names-ValidNames = record {
  valid = (refl, (refl, tt));
  distinct = Distinct-of_n_unique name_dec key_names refl;
}

read_npy_labels-write_npy_labels_example :
    (bytes : List Token) × (write_npy_labels tokens (labels_of key_names key_rows) ≡ ok bytes)
    × (read_npy_labels tokens bytes ≡ ok (labels_of key_names key_rows))
read_npy_labels-write_npy_labels_example =
    read_npy_labels-write_npy_labels tokens tokens-IsFormats key_rows-IsLabels (omega arith)
      key_names-ValidNames (omega arith, (omega arith, (omega arith, (omega arith, tt))))
      (λ d _. (_, refl))

abbrev rows_1 : List Entry
rows_1 = (pos 0 ∷ []) ∷ (pos 2 ∷ []) ∷ []

abbrev rows_2 : List Entry
rows_2 = (pos 2 ∷ []) ∷ []

abbrev component : Labels
component = labels_of (codes "c" ∷ []) rows_1

abbrev gradient_of_p : BasicBlock plain
gradient_of_p = record {
  array = (1 ∷ 2 ∷ 1 ∷ [], 7 ∷ 8 ∷ []);
  samples = labels_of sample_names ((pos 0 ∷ []) ∷ []);
  components = component ∷ [];
  properties = labels_of property_names rows_2;
}

abbrev block : TensorBlock plain
block = record (block_of rows_1 rows_2) {
  gradients = (codes "p", gradient_of_p) ∷ [];
  gradient_parameters = codes "p" ∷ [];
}

abbrev tensor : TensorMap plain
tensor = record { keys = labels_of key_names key_rows; blocks = block ∷ block ∷ [] }

abbrev blank : ℕ → List ℕ
blank zero = []
blank (suc n) = 0 ∷ blank n

abbrev create_zeros : List ℕ → Outcome (List ℕ × List ℕ)
create_zeros s = ok (s, blank (elements s))

abbrev fill : List ℕ × List ℕ → List ℕ → List ℕ × List ℕ
fill a values = (a.0, values)

reads_back :
    (do bytes ← save plain tokens files tensor; load plain tokens files fill create_zeros bytes)
    ≡ ok tensor
unfolding program
reads_back = refl

-- The content of a saved archive.
saved : List Token
unfolding program
saved = elim (save plain tokens files tensor) [ ok bytes ↦ bytes | _ ↦ [] ]

loads : load plain tokens files fill create_zeros saved ≡ ok tensor
unfolding program saved
loads = refl

load-IsShapedMap_example : IsShapedMap plain tensor
load-IsShapedMap_example = load-IsShapedMap plain tokens files fill create_zeros saved loads

-- The names of parameters, and the file whose name has the first and the last part in common.
finds_parameters :
    find_parameters (
      codes "keys.npy"
      ∷ codes "blocks/0/gradients/p/data.npy"
      ∷ codes "blocks/1/gradients/p/data.npy"
      ∷ [])
    ≡ ok (codes "p" ∷ [])
unfolding program
finds_parameters = refl

panics : find_parameters (codes "blocks/0/gradients/data.npy" ∷ []) ≡ panic out_of_range
unfolding program
panics = refl

-- An empty list of types has no endianness.
panics_untyped : check_type_descriptor tokens (entries []) ≡ panic expected
unfolding program
panics_untyped = refl

numbers : decimal 1024 ≡ codes "1024"
unfolding program digits
numbers = refl
