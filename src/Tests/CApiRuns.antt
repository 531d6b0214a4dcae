-- ===== src/Tests/CApiRuns.antt =====
-- equistore-core/src/c_api: calls on concrete labels, blocks and tensor maps.
use mathlib.Core.List.{lookup}
use equistore.Prelude.{
  Option, if◌then◌else◌, ℕ, ◌≡◌, ◌↔◌, ◌≢◌, refl, ap, sym, List, [], ◌∷◌, length, flatten, some,
  none, ℤ, ℤ.pos, ℤ.negsuc, get_elem?, codes, Distinct, Distinct-of_n_unique, list_discrete,
  ℤ_discrete, ℕ_discrete, arith,
}
use equistore.Errors.{
  Outcome, err, io, zip_io_error, Name, Error, ok, invalid_parameter, same_block, to_status,
  catch_unwind, eqs_success, IsFailure, text_has_null,
}
use equistore.Labels.{
  Entry, IsLabels, entry_dec, name_dec, names_dec, count, is_empty, iter, index, position, size,
  labels_eq, same_values, chunks, valid_from, is_valid_label_name, check_names, from_usize, usize,
}
use equistore.Labels.Builder.{
  new, add, push, insert, convert, try_add, add_all, has_null, check_c_strings, finish, build,
}
use equistore.Labels.Finish.{CanBuild}
use equistore.Blocks.{
  TensorBlock, check_data_and_labels, check_shape, check_components, check_component_labels,
  new_basic, new_block, clone_basic, clone_gradients, clone_block, gradient,
}
use equistore.Data.{shape, create, try_clone, move_samples_from, checked, function}
use equistore.Tensor.{
  TensorMap, check_labels_names, check_component_names, check_gradients, check_block, check_blocks,
  check_all, new_map,
}
use equistore.Tensor.Shaped.{Copies}
use equistore.CApi.Returns.{eqs_tensormap_returns}
use equistore.Tensor.Texts.{IsNamed}
use equistore.CApi.Ownership.{Owns, IsReleased, eqs_tensormap-IsReleased, eqs_tensormap-repeated}
use equistore.CApi.{defined, call, check_pointer, deref, to_str, from_raw_parts}
use equistore.CApi.Labels.{
  EqsLabels, is_rust, values_ptr, c_names, rust_to_eqs_labels, read_names, slice_chunks,
  create_rust_labels, eqs_labels_to_rust, eqs_labels_position, eqs_labels_create, eqs_labels_free,
}
use equistore.CApi.Creation.{IsGiven, IsHandle}
use equistore.CApi.Handles.{eqs_labels_create-IsHandle, eqs_labels_position-rows}
use equistore.CApi.Heap.{
  TensorPtr, boxed, null, Heap, ptr_discrete, unbox, read_block, box_block, unbox_block,
  into_boxed_raw,
}
use equistore.CApi.Blocks.{returned, check_block_pointer, labels_to_rust, eqs_block, eqs_block_copy}
use equistore.CApi.Tensors.{nulls, move_blocks, take_blocks, make_tensor, eqs_tensormap}
use equistore.CApi.Shaped.{IsShapedHeap}
use equistore.CApi.Steps.{
  new_block_step, copy_block_step, new_tensor_step, Reach, here, next, Reach-IsShapedHeap,
}
use equistore.Tests.Codecs.{Token, tokens, files}
use equistore.Tests.MoveRuns.{plain-Reshapes}
use equistore.Tests.{
  plain, lists, labels_of, labels_of-IsLabels, block_of, sample_names, property_names,
}

program : Unit {0}
unfolding list_discrete ℤ_discrete ℕ_discrete entry_dec name_dec names_dec lookup count is_empty
    iter index position chunks valid_from is_valid_label_name check_names labels_eq same_values new
    add push insert convert try_add add_all has_null check_c_strings finish build from_usize usize
    size gradient check_component_names check_labels_names check_gradients check_block check_blocks
    check_all new_map check_data_and_labels check_shape check_components check_component_labels
    new_basic new_block clone_basic clone_gradients clone_block shape create try_clone
    move_samples_from checked function to_status catch_unwind call check_pointer deref to_str
    from_raw_parts is_rust values_ptr rust_to_eqs_labels read_names slice_chunks create_rust_labels
    eqs_labels_to_rust eqs_labels_position eqs_labels_create eqs_labels_free ptr_discrete unbox
    read_block box_block unbox_block into_boxed_raw returned check_block_pointer labels_to_rust
    eqs_block eqs_block_copy nulls move_blocks take_blocks make_tensor eqs_tensormap
program = tt

abbrev key_names : List Name
key_names = codes "key" ∷ codes "other" ∷ []

abbrev key_rows : List Entry
key_rows = (pos 7 ∷ pos 0 ∷ []) ∷ (pos 3 ∷ pos 0 ∷ []) ∷ []

-- Keys as C describes them, with a NULL pointer for the Rust labels.
abbrev given : List Entry → EqsLabels
given rows = record {
  internal_ptr = none;
  names = some (c_names key_names);
  values = some (flatten rows);
  size = 2;
  count = length rows;
}

given-IsGiven : IsGiven key_names key_rows (given key_rows)
given-IsGiven = record {
  from_c = refl;
  names_ptr = refl;
  values_ptr = refl;
  same_size = refl;
  same_count = refl;
  widths = (refl, (refl, tt));
}

keys-CanBuild : CanBuild key_names key_rows
unfolding program
keys-CanBuild = record {
  names_ok = record {
    valid = (refl, (refl, tt));
    distinct = Distinct-of_n_unique name_dec key_names refl;
  };
  widths = (refl, (refl, tt));
  distinct = Distinct-of_n_unique entry_dec key_rows refl;
}

abbrev repeated : List Entry
repeated = (pos 7 ∷ pos 0 ∷ []) ∷ (pos 7 ∷ pos 0 ∷ []) ∷ []

eqs_labels_create-IsHandle_example :
    (l' : EqsLabels) × (eqs_labels_create none (some (given key_rows))
      ≡ some (eqs_success, none, some l'))
    × IsHandle key_names key_rows l'
eqs_labels_create-IsHandle_example =
    eqs_labels_create-IsHandle none given-IsGiven (omega arith) keys-CanBuild

-- Labels that Rust holds.
abbrev handle : List Name → List Entry → EqsLabels
handle names rows = record {
  internal_ptr = some (labels_of names rows);
  names = some (c_names names);
  values = some (flatten rows);
  size = length names;
  count = length rows;
}

keys-IsLabels : IsLabels key_names key_rows (labels_of key_names key_rows)
unfolding program
keys-IsLabels =
    labels_of-IsLabels key_names key_rows (refl, (refl, tt))
      (Distinct-of_n_unique entry_dec key_rows refl) (λ h. absurd (omega arith))

handle-IsHandle : IsHandle key_names key_rows (handle key_names key_rows)
unfolding program
handle-IsHandle = record {
  rust = labels_of key_names key_rows;
  internal = refl;
  labels = keys-IsLabels;
  same_size = refl;
  same_count = refl;
  same_names = refl;
  same_values = refl;
}

eqs_labels_position-rows_example :
    (z : ℤ) × (eqs_labels_position none
        (handle key_names key_rows)
        (some (pos 3 ∷ pos 0 ∷ []))
        2
        (pos 9)
      ≡ some (eqs_success, none, z))
    × ((i : ℕ) → (z ≡ pos i) ↔ (get_elem? key_rows i ≡ some (pos 3 ∷ pos 0 ∷ [])))
    × ((z ≡ negsuc 0) ↔ ((i : ℕ) → get_elem? key_rows i ≢ some (pos 3 ∷ pos 0 ∷ [])))
eqs_labels_position-rows_example =
    eqs_labels_position-rows none handle-IsHandle (pos 3 ∷ pos 0 ∷ []) (pos 9) refl

finds :
    eqs_labels_position none (handle key_names key_rows) (some (pos 3 ∷ pos 0 ∷ [])) 2 (pos 9)
    ≡ some (eqs_success, none, pos 1)
unfolding program
finds = refl

finds_nothing :
    eqs_labels_position none (handle key_names key_rows) (some (pos 3 ∷ pos 1 ∷ [])) 2 (pos 9)
    ≡ some (eqs_success, none, negsuc 0)
unfolding program
finds_nothing = refl

abbrev freed_handle : EqsLabels
freed_handle = record (handle key_names key_rows) { internal_ptr = none }

free_handle :
    eqs_labels_free none (some (handle key_names key_rows))
    ≡ some (eqs_success, none, some freed_handle)
unfolding program
free_handle = refl

abbrev column : List Entry
column = (pos 0 ∷ []) ∷ (pos 1 ∷ []) ∷ []

abbrev block : TensorBlock plain
block = block_of column column

abbrev empty_heap : Heap plain
empty_heap = record { blocks = []; tensors = [] }

abbrev one_block : Heap plain
one_block = record { blocks = some block ∷ []; tensors = [] }

abbrev two_blocks : Heap plain
two_blocks = record { blocks = some block ∷ some block ∷ []; tensors = [] }

abbrev no_files : Name → Outcome (List Token)
no_files path = err (io zip_io_error)

-- Both blocks are moved into the tensor map.
abbrev one_tensor : Heap plain
one_tensor = record {
  blocks = none ∷ none ∷ [];
  tensors = some (record { keys = labels_of key_names key_rows; blocks = block ∷ block ∷ [] }) ∷ [];
}

runs : Reach plain lists tokens files (λ a values. (a.0, values)) no_files empty_heap one_tensor
unfolding program
runs =
    next
      (next {h' = two_blocks}
        (next {h' = one_block} here (
          new_block_step none none block.values.array (handle sample_names column) (some []) 0
            (handle property_names column) (boxed 0) refl))
        (copy_block_step none none (boxed 0) (boxed 1) refl))
      (new_tensor_step none none (given key_rows) (some (boxed 0 ∷ boxed 1 ∷ []))
        (some (null ∷ null ∷ [])) 2 (some 0) refl)

plain-Copies : Copies plain
unfolding program
plain-Copies = λ a a' h. let e : a ≡ a' = cc h in ap (λ x. ok x.0) (sym e)

Reach-IsShapedHeap_example : IsShapedHeap plain one_tensor
Reach-IsShapedHeap_example =
    Reach-IsShapedHeap plain lists tokens files (λ a values. (a.0, values)) no_files plain-Reshapes
      plain-Copies (record { blocks = tt; tensors = tt }) runs

keys_handle : eqs_labels_to_rust (given key_rows) ≡ defined (ok (labels_of key_names key_rows))
unfolding program
keys_handle = refl

two_blocks-Owns : Owns plain two_blocks (1 ∷ 0 ∷ []) (block ∷ block ∷ [])
two_blocks-Owns = (refl, (refl, refl))

places-Distinct : Distinct {A = ℕ} (1 ∷ 0 ∷ [])
places-Distinct = ((ground arith, tt), (tt, tt))

eqs_tensormap-IsReleased_example :
    (heap' : Heap plain) × IsReleased plain two_blocks (1 ∷ 0 ∷ []) heap'
    × ((tensor : TensorMap plain)
        → new_map plain (labels_of key_names key_rows) (block ∷ block ∷ []) ≡ ok tensor
        → eqs_tensormap plain none two_blocks (given key_rows) (some (boxed 1 ∷ boxed 0 ∷ [])) 2
          ≡ some (
            none,
            (
              (into_boxed_raw plain heap' tensor).0,
              some (null ∷ null ∷ []),
              (into_boxed_raw plain heap' tensor).1,
            ),
          ))
    × (((tensor : TensorMap plain)
          → new_map plain (labels_of key_names key_rows) (block ∷ block ∷ []) ≢ ok tensor)
        → (e : Error) × IsFailure
            (new_map plain (labels_of key_names key_rows) (block ∷ block ∷ []))
            e
          × (eqs_tensormap plain none two_blocks (given key_rows) (some (boxed 1 ∷ boxed 0 ∷ [])) 2
              ≡ (if text_has_null e
                  then none
                  else some (some e, (heap', some (null ∷ null ∷ []), none)))))
eqs_tensormap-IsReleased_example =
    eqs_tensormap-IsReleased plain none two_blocks (given key_rows) (1 ∷ 0 ∷ [])
      (block ∷ block ∷ []) (labels_of key_names key_rows) places-Distinct two_blocks-Owns
      keys_handle

block-IsNamed : IsNamed plain block
unfolding program
block-IsNamed = record {
  values = record { samples = refl; components = tt; properties = refl };
  gradients = tt;
}

eqs_tensormap_returns_example :
    (kept : Option Error) × (heap' : Heap plain) × (t : TensorPtr) × (eqs_tensormap plain none
        two_blocks
        (given key_rows)
        (some (boxed 1 ∷ boxed 0 ∷ []))
        2
      ≡ some (kept, (heap', some (null ∷ null ∷ []), t)))
    × ((t ≡ none) ↔ (
        (tensor : TensorMap plain)
        → new_map plain (labels_of key_names key_rows) (block ∷ block ∷ []) ≢ ok tensor))
eqs_tensormap_returns_example =
    eqs_tensormap_returns plain none two_blocks (given key_rows) (1 ∷ 0 ∷ []) (block ∷ block ∷ [])
      (labels_of key_names key_rows) places-Distinct two_blocks-Owns keys_handle
      (block-IsNamed, (block-IsNamed, tt))

eqs_tensormap-repeated_example :
    eqs_tensormap plain none two_blocks (given key_rows) (some (boxed 0 ∷ boxed 0 ∷ [])) 2
    ≡ some (some (invalid_parameter same_block), (two_blocks, some (boxed 0 ∷ boxed 0 ∷ []), none))
eqs_tensormap-repeated_example =
    eqs_tensormap-repeated plain none two_blocks (given key_rows) (boxed 0 ∷ boxed 0 ∷ [])
      (λ d. d.0.0 refl)
