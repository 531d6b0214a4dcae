-- ===== src/CApi/Matches.antt =====
-- equistore-core/src/c_api/tensor.rs: the indexes that `eqs_tensormap_blocks_matching` writes.
use equistore.Prelude.{
  ℕ, zero, suc, ◌/◌, ◌≤◌, ◌≡◌, ◌≢◌, ◌∙◌, refl, sym, ap, subst, Bool, true, false, Bool-cases, inl,
  inr, ◌==◌, ==_iff, ltb, leb_of_le, List, [], ◌∷◌, ◌++◌, append-nil, append_assoc, length,
  length-append, ap₂, set, drop, Option, some, get_elem?, if◌then◌else◌, arith,
}
use equistore.Errors.{
  Error, ok, err, guard, eqs_success, >>=-eq-ok, expect, expected, selection_not_single,
}
use equistore.Labels
use equistore.Labels.{Entry, LabelValue, Labels, size, count, iter, chunks}
use equistore.Data.{Arrays}
use equistore.Tensor.{
  TensorMap, find_dimensions, matches, matching_from, range, matching_rows, blocks_matching,
}
use equistore.CApi.{defined, check_pointer, from_raw_parts}
use equistore.CApi.Creation.{take_all}
use equistore.CApi.Labels.{EqsLabels, eqs_labels_to_rust}
use equistore.CApi.Handles.{IsRefused, call-ok, call-failed}
use equistore.CApi.Heap.{Heap, read_tensor}
use equistore.CApi.Tensors.{write_indexes, eqs_tensormap_blocks_matching}

length-chunks : (n size : ℕ) (values : List LabelValue) → length (chunks n size values) ≡ n
unfolding chunks
length-chunks zero size values = refl
length-chunks (suc n) size values = ap suc (length-chunks n size (drop size values))

length-iter : (l : Labels) {rows : List Entry} → Labels.iter l ≡ ok rows → length rows ≡ count l
unfolding Labels.iter count
length-iter l {rows} h = elim (Bool-cases (size l == 0)) [
  | inl nothing ↦ cc (rw nothing at h)
  | inr something ↦
      let same : chunks (length l.values / size l) (size l) l.values ≡ rows =
        cc (rw something at h) in
      rw something (ap length (sym same) ∙ length-chunks _ (size l) l.values)
]

length-range : (start n : ℕ) → length (range start n) ≡ n
unfolding range
length-range start zero = refl
length-range start (suc n) = ap suc (length-range (suc start) n)

matching_from-bound :
    (i : ℕ) (dimensions : List ℕ) (values : List LabelValue) (keys : List Entry) {is : List ℕ}
    → matching_from i dimensions values keys ≡ ok is
    → length is ≤ length keys
unfolding matching_from
matching_from-bound i dimensions values [] {is} h =
    let same : [] ≡ is = cc h in subst (λ xs. length xs ≤ 0) same (omega arith)
matching_from-bound i dimensions values (key ∷ keys) {is} h =
    let (selected, _, h₁) = >>=-eq-ok (matches dimensions values key) _ h in
    let (rest, more, h₂) = >>=-eq-ok (matching_from (suc i) dimensions values keys) _ h₁ in
    let bound = matching_from-bound (suc i) dimensions values keys more in
    let same : (if selected then i ∷ rest else rest) ≡ is = cc h₂ in
    subst (λ xs. length xs ≤ suc (length keys)) same (longer selected i rest (length keys) bound)
  where
    longer :
        (b : Bool) (i : ℕ) (rest : List ℕ) (n : ℕ)
        → length rest ≤ n
        → length (if b then i ∷ rest else rest) ≤ suc n
    longer true i rest n h = omega (arith, h)
    longer false i rest n h = omega (arith, h)

-- No more blocks are selected than there are keys.
blocks_matching-bound :
    (X : Arrays) (tensor : TensorMap X) (selection : Labels) {is : List ℕ}
    → length tensor.blocks ≡ count tensor.keys
    → blocks_matching X tensor selection ≡ ok is
    → length is ≤ count tensor.keys
unfolding blocks_matching matching_rows
blocks_matching-bound X tensor selection {is} each h = elim (Bool-cases (size selection == 0)) [
  | inl nothing ↦
      let same : range 0 (length tensor.blocks) ≡ is = cc (rw nothing at h) in
      let n : length is ≡ length tensor.blocks =
        ap length (sym same) ∙ length-range 0 (length tensor.blocks) in
      omega (arith, n, each)
  | inr something ↦
      let (_, _, h₁) =
        >>=-eq-ok (guard (count selection == 1) (selection_not_single (count selection))) _
          (rw something at h) in
      let (dimensions, _, h₂) =
        >>=-eq-ok (find_dimensions selection.names tensor.keys.names) _ h₁ in
      let (selected, _, h₃) = >>=-eq-ok (Labels.iter selection) _ h₂ in
      let (values, _, h₄) = >>=-eq-ok (expect (get_elem? selected 0) expected) _ h₃ in
      let (keys, rows, h₅) = >>=-eq-ok (Labels.iter tensor.keys) _ h₄ in
      omega (arith, matching_from-bound 0 dimensions values keys h₅, length-iter tensor.keys rows)
]

set-append :
    (before after : List ℕ) (old x : ℕ)
    → set (before ++ old ∷ after) (length before) x ≡ before ++ x ∷ after
set-append [] after old x = refl
set-append (y ∷ before) after old x = ap (λ xs. y ∷ xs) (set-append before after old x)

write_indexes-written :
    (before after is : List ℕ)
    → length is ≤ length after
    → write_indexes (before ++ after) (length before) is
      ≡ ok (before ++ (is ++ drop (length is) after))
unfolding write_indexes
write_indexes-written before after [] h = refl
write_indexes-written before [] (i ∷ is) h = absurd (omega arith)
write_indexes-written before (old ∷ after) (i ∷ is) h =
    let fits : ltb (length before) (length (before ++ old ∷ after)) ≡ true =
      ground (arith, length-append before (old ∷ after)) in
    let next : length (before ++ i ∷ []) ≡ suc (length before) =
      omega (arith, length-append before (i ∷ [])) in
    rw (fits, set-append before after old i)
      (ap₂ (λ b n. write_indexes b n is) (sym (append_assoc before (i ∷ []) after)) (sym next)
        ∙ write_indexes-written (before ++ i ∷ []) after is (omega (arith, h))
        ∙ ap ok (append_assoc before (i ∷ []) (is ++ drop (length is) after)))

nothing_after : {A : Type 0} (xs : List A) → drop (length xs) xs ≡ []
nothing_after [] = refl
nothing_after (x ∷ xs) = nothing_after xs

module _ (X : Arrays) (before : Option Error) (heap : Heap X) (t : ℕ) {tensor : TensorMap X}
    (selection : EqsLabels) {rust : Labels} (there : read_tensor X heap t ≡ defined (ok tensor))
    (each : length tensor.blocks ≡ count tensor.keys)
    (handed : eqs_labels_to_rust selection ≡ defined (ok rust)) where
  -- For a tensor map with a block for each key, and a buffer with an entry for each key,
  -- `eqs_tensormap_blocks_matching` writes the indexes that `blocks_matching` finds to the start of the
  -- buffer and their number to the count, which is no more than it was; the rest of the buffer stays.
  pub eqs_tensormap_blocks_matching-written :
      (memory : List ℕ) {is : List ℕ}
      → length memory ≡ count tensor.keys
      → blocks_matching X tensor rust ≡ ok is
      → (length is ≤ length memory)
        × (eqs_tensormap_blocks_matching X before heap
              (some t)
              (some memory)
              (some (length memory))
              selection
            ≡ some (eqs_success, before, (some (is ++ drop (length is) memory), some (length is))))
  unfolding eqs_tensormap_blocks_matching check_pointer from_raw_parts
  eqs_tensormap_blocks_matching-written memory {is} room found =
      let bound : length is ≤ length memory =
        omega (arith, blocks_matching-bound X tensor rust each found) in
      let enough : (length memory == count tensor.keys) ≡ true = (==_iff _ _).1 room in
      (
        bound,
        rw
            (
              there,
              enough,
              handed,
              found,
              leb_of_le (length memory) (length memory) (omega arith),
              take_all memory,
              write_indexes-written [] memory is bound,
              nothing_after memory,
              append-nil (is ++ drop (length is) memory),
            )
            (call-ok before _ (some (is ++ drop (length is) memory), some (length is))),
      )

  -- With a buffer of another size the call is refused, and the buffer and the count are as they were.
  pub eqs_tensormap_blocks_matching-IsRefused :
      (memory : List ℕ) (space : ℕ)
      → space ≢ count tensor.keys
      → IsRefused
          (eqs_tensormap_blocks_matching X before heap
            (some t)
            (some memory)
            (some space)
            selection)
          (some memory, some space)
  unfolding eqs_tensormap_blocks_matching check_pointer
  eqs_tensormap_blocks_matching-IsRefused memory space other =
      let wrong : (space == count tensor.keys) ≡ false = ground arith in
      rw (there, wrong) (call-failed before (some memory, some space) (err _) (λ a p. cc) refl)
