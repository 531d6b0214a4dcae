-- ===== src/CApi/Ownership.antt =====
-- equistore-core/src/c_api/tensor.rs: `eqs_tensormap` takes each block once.
use equistore.Prelude.{
  ℕ, zero, suc, ◌≡◌, ◌≢◌, ◌∙◌, refl, sym, ap, subst, Bool-cases, if◌then◌else◌, inl, inr, true,
  ◌==◌, ==_iff, List, [], ◌∷◌, length, set, map, take, get_elem?, get_elem?-set, get_elem?-set_ne,
  All, Absent, Distinct, n_unique, n_unique_of_Distinct, Distinct-of_n_unique, Option, none, some,
  leb_of_le, arith,
}
use equistore.Errors.{
  Error, Outcome, ok, err, panic, invalid_parameter, same_block, catch_unwind, stored,
  text_has_null, IsFailure,
}
use equistore.CApi.Creation.{take_all}
use equistore.Labels.{Labels}
use equistore.Data.{Arrays}
use equistore.Blocks.{TensorBlock}
use equistore.Tensor.{TensorMap, new_map}
use equistore.CApi.{with_status, defined, ◌>>=◌, check_pointer, from_raw_parts, call}
use equistore.CApi.Labels.{EqsLabels, eqs_labels_to_rust}
use equistore.CApi.Heap.{
  BlockPtr, TensorPtr, null, boxed, ptr_discrete, Heap, unbox, unbox_block, into_boxed_raw,
}
use equistore.CApi.Blocks.{returned}
use equistore.CApi.Tensors.{nulls, move_blocks, take_blocks, make_tensor, eqs_tensormap}

module _ (X : Arrays) where
  -- The boxes hold the blocks.
  abbrev pub Owns : Heap X → List ℕ → List (TensorBlock X) → Type 0
  Owns heap [] blocks = blocks ≡ []
  Owns heap (i ∷ is) [] = ⊥
  Owns heap (i ∷ is) (block ∷ blocks) =
      (get_elem? heap.blocks i ≡ some (some block)) × Owns heap is blocks

  -- The boxes are empty, and nothing else has changed.
  pub record IsReleased (heap : Heap X) (is : List ℕ) (heap' : Heap X) : Type 0 where
    pub emptied : All (λ i. get_elem? heap'.blocks i ≡ some none) is
    pub kept : (j : ℕ) → Absent j is → get_elem? heap'.blocks j ≡ get_elem? heap.blocks j
    pub tensors : heap'.tensors ≡ heap.tensors

  Owns-set :
      (heap : Heap X) (i : ℕ) (is : List ℕ) (blocks : List (TensorBlock X))
      → Absent i is
      → Owns heap is blocks
      → Owns (record heap { blocks = set (heap.blocks) i none }) is blocks
  Owns-set heap i [] blocks a o = o
  Owns-set heap i (j ∷ is) [] a o = o
  Owns-set heap i (j ∷ is) (block ∷ blocks) a o =
      (get_elem?-set_ne heap.blocks i j none a.0 ∙ o.0, Owns-set heap i is blocks a.1 o.1)

  unbox-some :
      {A : Type 0} (boxes : List (Option A)) (i : ℕ) {a : A}
      → get_elem? boxes i ≡ some (some a)
      → unbox X boxes i ≡ defined (ok a)
  unfolding unbox
  unbox-some [] i h = cc
  unbox-some (b ∷ boxes) (suc i) h = unbox-some boxes i h
  unbox-some (none ∷ boxes) zero h = cc
  unbox-some (some b ∷ boxes) zero h = ap (λ x. defined (ok x)) (cc h)

  move_blocks-IsReleased :
      (heap : Heap X) (is : List ℕ) (blocks : List (TensorBlock X))
      → Distinct is
      → Owns heap is blocks
      → (heap' : Heap X) × (move_blocks X heap (map boxed is) ≡ defined (ok (blocks, heap')))
        × IsReleased heap is heap'
  unfolding move_blocks unbox_block
  move_blocks-IsReleased heap [] blocks d o = (
    heap,
    ap (λ bs. defined (ok (bs, heap))) (sym o),
    record { emptied = tt; kept = λ j _. refl; tensors = refl },
  )
  move_blocks-IsReleased heap (i ∷ is) [] d o = elim o [ ]
  move_blocks-IsReleased heap (i ∷ is) (block ∷ blocks) d o =
      let heap₁ : Heap X = record heap { blocks = set (heap.blocks) i none } in
      let (heap', moved, r) =
        move_blocks-IsReleased heap₁ is blocks d.1 (Owns-set heap i is blocks d.0 o.1) in
      (
        heap',
        rw (unbox-some heap.blocks i o.0, moved) refl,
        record {
          emptied = (r.kept i d.0 ∙ get_elem?-set heap.blocks i none o.0, r.emptied);
          kept = λ j a. r.kept j a.1 ∙ get_elem?-set_ne heap.blocks i j none (λ e. a.0 (sym e));
          tensors = r.tensors;
        },
      )

  boxed-Distinct : (is : List ℕ) → Distinct is → Distinct (map boxed is)
  boxed-Distinct [] d = tt
  boxed-Distinct (i ∷ is) d = (boxed-Absent i is d.0, boxed-Distinct is d.1)
    where
      boxed-Absent : (i : ℕ) (is : List ℕ) → Absent i is → Absent (boxed i) (map boxed is)
      boxed-Absent i [] a = tt
      boxed-Absent i (j ∷ is) a = ((λ e. a.0 (cc e)), boxed-Absent i is a.1)

  nulls-map : (is : List ℕ) → nulls (length is) (map boxed is) ≡ map (λ i. null) is
  unfolding nulls
  nulls-map [] = refl
  nulls-map (i ∷ is) = ap (λ ptrs. null ∷ ptrs) (nulls-map is)

  length-boxed : (is : List ℕ) → length (map boxed is) ≡ length is
  length-boxed [] = refl
  length-boxed (i ∷ is) = ap suc (length-boxed is)

  take_blocks-IsReleased :
      (heap : Heap X) (is : List ℕ) (blocks : List (TensorBlock X))
      → Distinct is
      → Owns heap is blocks
      → (heap' : Heap X) × (take_blocks X heap (some (map boxed is)) (length is)
          ≡ defined (ok (blocks, heap', some (map (λ i. null) is))))
        × IsReleased heap is heap'
  unfolding take_blocks check_pointer from_raw_parts
  take_blocks-IsReleased heap is blocks d o =
      let (heap', moved, r) = move_blocks-IsReleased heap is blocks d o in
      let n = length-boxed is in
      let whole : take (length is) (map boxed is) ≡ map boxed is =
        subst (λ k. take k (map boxed is) ≡ map boxed is) n (take_all (map boxed is)) in
      let unique : (n_unique ptr_discrete (map boxed is) == length (map boxed is)) ≡ true =
        (==_iff _ _).1 (n_unique_of_Distinct ptr_discrete (map boxed is) (boxed-Distinct is d)) in
      (
        heap',
        rw
            (
              leb_of_le (length is) (length (map boxed is)) (omega (arith, n)),
              whole,
              unique,
              moved,
              nulls-map is,
            )
            refl,
        r,
      )

  lost_or_returned :
      {A : Type 0} (e : Error) (a : A)
      → returned (with_status (stored e) a) ≡ (if text_has_null e then none else some (some e, a))
  unfolding returned
  lost_or_returned e a = elim (Bool-cases (text_has_null e)) [
    | inl lost ↦ rw lost refl
    | inr told ↦ rw told refl
  ]

  module _ (before : Option Error) (heap : Heap X) (keys : EqsLabels) where
    -- From different boxes that hold the blocks, `eqs_tensormap` moves each block once, in the order of
    -- the pointers, and leaves NULL in the place of each pointer: where the keys are labels and a tensor
    -- map can be made of them and the blocks, it is put in a new box; where it can not the call ends with
    -- the error of the tensor map, unless the text of the error has a null character, where it does not
    -- return, and the blocks are gone from their boxes all the same. No other box changes.
    pub eqs_tensormap-IsReleased :
        (is : List ℕ) (blocks : List (TensorBlock X)) (rust : Labels)
        → Distinct is
        → Owns heap is blocks
        → eqs_labels_to_rust keys ≡ defined (ok rust)
        → (heap' : Heap X) × IsReleased heap is heap'
          × ((tensor : TensorMap X)
              → new_map X rust blocks ≡ ok tensor
              → eqs_tensormap X before heap keys (some (map boxed is)) (length is)
                ≡ some (
                  before,
                  (
                    (into_boxed_raw X heap' tensor).0,
                    some (map (λ i. null) is),
                    (into_boxed_raw X heap' tensor).1,
                  ),
                ))
          × (((tensor : TensorMap X) → new_map X rust blocks ≢ ok tensor)
              → (e : Error) × IsFailure (new_map X rust blocks) e
                × (eqs_tensormap X before heap keys (some (map boxed is)) (length is) ≡ (
                    if text_has_null e
                    then none
                    else some (some e, (heap', some (map (λ i. null) is), none)))))
    unfolding eqs_tensormap make_tensor returned call catch_unwind
    eqs_tensormap-IsReleased is blocks rust d o h =
        let (heap', taken, r) = take_blocks-IsReleased heap is blocks d o in
        (
          heap',
          r,
          (λ tensor made. rw (taken, h, made) refl),
          λ failed_new. rw (taken, h) (failed heap' (new_map X rust blocks) failed_new),
        )
      where
        failed :
            (heap' : Heap X) (o : Outcome (TensorMap X))
            → ((tensor : TensorMap X) → o ≢ ok tensor)
            → (e : Error) × IsFailure o e
              × (returned {A = Heap X × Option (List BlockPtr) × TensorPtr} (
                    call before
                      (heap', some (map (λ i. null) is), none)
                      (defined o >>= λ tensor.
                        (let (heap₁, ptr) = into_boxed_raw X heap' tensor in
                          defined (ok (heap₁, some (map (λ i. null) is), ptr)))))
                  ≡ (if text_has_null e
                      then none
                      else some (some e, (heap', some (map (λ i. null) is), none))))
        failed heap' (ok tensor) failed_new = absurd (failed_new tensor refl)
        failed heap' (err e) failed_new = (e, refl, lost_or_returned e _)
        failed heap' (panic m) failed_new =
            (Error.internal m, refl, lost_or_returned (Error.internal m) _)

    -- Where a pointer stands twice in the list, `eqs_tensormap` refuses it before it moves anything: the
    -- boxes and the pointers are as they were.
    pub eqs_tensormap-repeated :
        (ptrs : List BlockPtr)
        → ¬ Distinct ptrs
        → eqs_tensormap X before heap keys (some ptrs) (length ptrs)
          ≡ some (some (invalid_parameter same_block), (heap, some ptrs, none))
    unfolding eqs_tensormap make_tensor returned call catch_unwind take_blocks check_pointer
        from_raw_parts
    eqs_tensormap-repeated ptrs repeated =
        elim (Bool-cases (n_unique ptr_discrete ptrs == length ptrs)) [
          | inl unique ↦
              absurd (repeated (Distinct-of_n_unique ptr_discrete ptrs ((==_iff _ _).0 unique)))
          | inr found ↦
              rw (leb_of_le (length ptrs) (length ptrs) (omega arith), take_all ptrs, found) refl
        ]
