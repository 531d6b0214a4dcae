-- ===== src/Tensor/Merge.antt =====
-- equistore-core/src/tensor/utils.rs: the samples of merged blocks, and of their gradients.
--
-- A `BTreeSet` is the list of its elements in lexicographic order.
use Prim.Native.Nat.{compare, Ordering}
use equistore.Prelude.{
  ℕ, suc, Bool, List, [], ◌∷◌, ◌++◌, length, set, get_elem?, none, ltb, if◌then◌else◌, ℤ.pos,
  ℤ.negsuc,
}
use equistore.Errors.{Name, Outcome, ok, ◌>>=◌, expect, expect_ok, out_of_range, expected}
use equistore.Labels.{Entry, Labels, LabelValue, size, iter, position, usize, from_usize}
use equistore.Labels.Builder.{new, add_all, finish, build}
use equistore.Data.{Arrays, SampleMapping}
use equistore.Blocks.{TensorBlock, gradient}
use equistore.Tensor.Keys.{IndexSets}

-- The derived orders of `LabelValue` and of slices.
unfoldable pub compare_values : LabelValue → LabelValue → Ordering
compare_values (pos a) (pos b) = compare a b
compare_values (pos a) (negsuc b) = Ordering.gt
compare_values (negsuc a) (pos b) = Ordering.lt
compare_values (negsuc a) (negsuc b) = compare b a

unfoldable pub compare_entries : Entry → Entry → Ordering
compare_entries [] [] = Ordering.eq
compare_entries [] (y ∷ ys) = Ordering.lt
compare_entries (x ∷ xs) [] = Ordering.gt
compare_entries (x ∷ xs) (y ∷ ys) =
    let rest = compare_entries xs ys in
    elim (compare_values x y) [
      | Ordering.lt ↦ Ordering.lt
      | Ordering.eq ↦ rest
      | Ordering.gt ↦ Ordering.gt
    ]

-- `BTreeSet::insert`.
unfoldable pub btree_insert : Entry → List Entry → List Entry
btree_insert e [] = e ∷ []
btree_insert e (x ∷ xs) =
    let rest = btree_insert e xs in
    elim (compare_entries e x) [
      | Ordering.lt ↦ e ∷ x ∷ xs
      | Ordering.eq ↦ x ∷ xs
      | Ordering.gt ↦ x ∷ rest
    ]

-- `sample` or `sample.extend_from_slice(key)`.
abbrev pub extend : Bool → Entry → Entry → Entry
extend add_key_to_samples sample key = if add_key_to_samples then sample ++ key else sample

-- The position of each sample among the merged ones, from the sample number `sample_i` on.
unfoldable pub map_samples : Labels → Bool → Entry → ℕ → List Entry → Outcome (List SampleMapping)
map_samples merged add_key key sample_i [] = ok []
map_samples merged add_key key sample_i (sample ∷ samples) = do
  found ← position merged (extend add_key sample key)
  new_sample_i ← expect found expected
  rest ← map_samples merged add_key key (suc sample_i) samples
  ok (record { input = sample_i; output = new_sample_i } ∷ rest)

-- The sample of a gradient, with the position of its sample after the merge.
unfoldable pub translate : List SampleMapping → Entry → Outcome Entry
translate samples_mapping grad_sample = do
  first ← expect (get_elem? grad_sample 0) out_of_range
  mapping ← expect (get_elem? samples_mapping (usize first)) out_of_range
  output ← from_usize mapping.output
  ok (set grad_sample 0 output)

-- The loop over the samples of one gradient.
unfoldable pub collect_gradient :
    List Entry → List SampleMapping → List Entry → Outcome (List Entry)
collect_gradient tree samples_mapping [] = ok tree
collect_gradient tree samples_mapping (grad_sample ∷ grad_samples) = do
  new_sample ← translate samples_mapping grad_sample
  collect_gradient (btree_insert new_sample tree) samples_mapping grad_samples

module _ (X : Arrays) where
  -- A block, and the part of its key that is moved.
  abbrev pub KeyAndBlock : Type 0
  KeyAndBlock = Entry × TensorBlock X

  -- The second loop of `merge_samples`.
  unfoldable pub map_blocks : Labels → Bool → List KeyAndBlock → Outcome (List (List SampleMapping))
  map_blocks merged add_key [] = ok []
  map_blocks merged add_key ((key, block) ∷ blocks) = do
    samples ← iter block.values.samples
    mapping_for_block ← map_samples merged add_key key 0 samples
    rest ← map_blocks merged add_key blocks
    ok (mapping_for_block ∷ rest)

  -- The loop of `merge_gradient_samples` over the blocks and their mappings.
  unfoldable pub collect_gradients :
      Name → List Entry → List KeyAndBlock → List (List SampleMapping) → Outcome (List Entry)
  collect_gradients name tree ((_, block) ∷ blocks) (samples_mapping ∷ mappings) = do
    g ← expect (gradient X block name) expected
    grad_samples ← iter g.samples
    tree' ← collect_gradient tree samples_mapping grad_samples
    collect_gradients name tree' blocks mappings
  collect_gradients name tree [] mappings = ok tree
  collect_gradients name tree (b ∷ blocks) [] = ok tree

  -- The names of the samples of the first gradient.
  unfoldable pub first_gradient_names :
      Name → List KeyAndBlock → List (List SampleMapping) → Outcome (List Name)
  first_gradient_names name ((_, block) ∷ blocks) (samples_mapping ∷ mappings) = do
    g ← expect (gradient X block name) expected
    ok g.samples.names
  first_gradient_names name [] mappings = expect none expected
  first_gradient_names name (b ∷ blocks) [] = expect none expected

  -- `merge_samples`, from the builder on: the merged labels and the second loop.
  unfoldable pub merge_rows :
      List KeyAndBlock
      → List Name
      → Bool
      → List Entry
      → Outcome (Labels × List (List SampleMapping))
  merge_rows blocks new_sample_names add_key rows = do
    builder ← new new_sample_names
    filled ← expect_ok (add_all builder rows)
    merged ← finish filled
    mappings ← map_blocks merged add_key blocks
    ok (merged, mappings)

  -- `merge_gradient_samples`.
  unfoldable pub merge_gradient_samples :
      List KeyAndBlock → Name → List (List SampleMapping) → Outcome Labels
  merge_gradient_samples blocks gradient_name samples_mappings = do
    new_gradient_samples ← collect_gradients gradient_name [] blocks samples_mappings
    names ← first_gradient_names gradient_name blocks samples_mappings
    build names new_gradient_samples

  module _ (I : IndexSets) where
    open I use {IndexSet, empty, insert, sort_unstable, to_list}

    unfoldable pub insert_samples : Bool → IndexSet → Entry → List Entry → IndexSet
    insert_samples add_key set key [] = set
    insert_samples add_key set key (sample ∷ samples) =
        insert_samples add_key (insert set (extend add_key sample key)) key samples

    -- The first loop of `merge_samples`.
    unfoldable pub collect_samples : Bool → IndexSet → List KeyAndBlock → Outcome IndexSet
    collect_samples add_key set [] = ok set
    collect_samples add_key set ((key, block) ∷ blocks) = do
      samples ← iter block.values.samples
      collect_samples add_key (insert_samples add_key set key samples) blocks

    -- `merge_samples`.
    unfoldable pub merge_samples :
        List KeyAndBlock → List Name → Bool → Outcome (Labels × List (List SampleMapping))
    merge_samples blocks new_sample_names sort = do
      first ← expect (get_elem? blocks 0) out_of_range
      let add_key = ltb (size first.1.values.samples) (length new_sample_names)
      collected ← collect_samples add_key empty blocks
      let ordered = if sort then sort_unstable collected else collected
      merge_rows blocks new_sample_names add_key (to_list ordered)
