-- ===== src/Tests/MatchRuns.antt =====
-- equistore-core/src/c_api/tensor.rs: `eqs_tensormap_blocks_matching` on a concrete tensor map.
use mathlib.Core.List.{lookup}
use equistore.Prelude.{
  ◌≤◌, ◌≡◌, refl, List, [], ◌∷◌, length, some, none, ℤ.pos, codes, list_discrete, ℤ_discrete,
  ℕ_discrete,
}
use equistore.Errors.{ok, eqs_success}
use equistore.Labels.{Entry, Labels, entry_dec, name_dec, names_dec, count, iter, chunks}
use equistore.Tensor.{
  TensorMap, find_dimensions, matches, matching_from, matching_rows, blocks_matching,
}
use equistore.CApi.{defined}
use equistore.CApi.Labels.{EqsLabels, c_names, eqs_labels_to_rust}
use equistore.CApi.Heap.{Heap, unbox, read_tensor}
use equistore.CApi.Tensors.{eqs_tensormap_blocks_matching}
use equistore.CApi.Matches.{eqs_tensormap_blocks_matching-written}
use equistore.Bindings
use equistore.Bindings.{BindingError}
use equistore.Bindings.Tensor.{done}
use equistore.Bindings.Selection.{blocks_matching-same}
use equistore.Tests.{plain, labels_of, block_of}

program : Unit {0}
unfolding list_discrete ℤ_discrete ℕ_discrete entry_dec name_dec names_dec lookup count iter chunks
    find_dimensions matches matching_from matching_rows blocks_matching eqs_labels_to_rust unbox
    read_tensor
program = tt

abbrev column : List Entry
column = (pos 0 ∷ []) ∷ (pos 1 ∷ []) ∷ []

abbrev tensor : TensorMap plain
tensor = record {
  keys =
      labels_of (codes "a" ∷ codes "b" ∷ [])
        ((pos 0 ∷ pos 5 ∷ []) ∷ (pos 1 ∷ pos 6 ∷ []) ∷ (pos 2 ∷ pos 5 ∷ []) ∷ []);
  blocks = block_of column column ∷ block_of column column ∷ block_of column column ∷ [];
}

abbrev heap : Heap plain
heap = record { blocks = []; tensors = none ∷ some tensor ∷ [] }

abbrev rust : Labels
rust = labels_of (codes "b" ∷ []) ((pos 5 ∷ []) ∷ [])

abbrev selection : EqsLabels
selection = record {
  internal_ptr = some rust;
  names = some (c_names rust.names);
  values = some rust.values;
  size = 1;
  count = 1;
}

there : read_tensor plain heap 1 ≡ defined (ok tensor)
unfolding program
there = refl

each : length tensor.blocks ≡ count tensor.keys
unfolding program
each = refl

handed : eqs_labels_to_rust selection ≡ defined (ok rust)
unfolding program
handed = refl

finds : blocks_matching plain tensor rust ≡ ok (0 ∷ 2 ∷ [])
unfolding program
finds = refl

eqs_tensormap_blocks_matching-written_example :
    (2 ≤ 3)
    × (eqs_tensormap_blocks_matching plain none heap
          (some 1)
          (some (9 ∷ 8 ∷ 7 ∷ []))
          (some 3)
          selection
        ≡ some (eqs_success, none, (some (0 ∷ 2 ∷ 7 ∷ []), some 2)))
eqs_tensormap_blocks_matching-written_example =
    eqs_tensormap_blocks_matching-written plain none heap 1 selection there each handed
      (9 ∷ 8 ∷ 7 ∷ []) each finds

abbrev no_error : BindingError
no_error = record { code = none; message = none }

abbrev bound_keys : Bindings.Labels.Labels
bound_keys = record {
  raw = record {
    internal_ptr = some tensor.keys;
    names = some (c_names tensor.keys.names);
    values = some tensor.keys.values;
    size = 2;
    count = 3;
  };
}

blocks_matching-same_example :
    Bindings.Tensor.blocks_matching plain none no_error heap
      (record { ptr = some 1; keys = bound_keys })
      (record { raw = selection })
    ≡ done (0 ∷ 2 ∷ [])
blocks_matching-same_example =
    blocks_matching-same plain none no_error heap 1 bound_keys (record { raw = selection }) there
      each each handed finds
