-- ===== src/Tensor/Samples.antt =====
-- `merge_samples`: the merged samples are those of all blocks, and the mappings send each sample of
-- each block to its place.
use mathlib.Core.List.{Permᴰ}
use equistore.Prelude.{
  ℕ, suc, ◌<◌, ◌≡◌, ◌∙◌, refl, sym, ap, subst, Bool, true, false, List, [], ◌∷◌, ◌++◌, map, length,
  some, get_elem?, ltb, if◌then◌else◌, All, All-perm, Absent, Absent-perm, Distinct-perm, perm_refl,
  perm_symm, append_assoc, Absent-right,
}
use equistore.Errors.{Name, ok}
use equistore.Labels.{Entry, Labels, IsLabels}
use equistore.Labels.Building.{add_all-new}
use equistore.Labels.Finish.{ValidNames, new-total, finish-total, kept_rows_all}
use equistore.Labels.Lookup.{iter-rows, position-found}
use equistore.Data.{Arrays, SampleMapping}
use equistore.Tensor.Keys.{IndexSets}
use equistore.Tensor.Merge.{
  KeyAndBlock, extend, map_samples, map_blocks, insert_samples, collect_samples, merge_rows,
  merge_samples,
}
use equistore.Tensor.Sets.{
  IsIndexSets, insert_all, insert_all-All, insert_all-Absent, insert_all-Distinct,
  insert_all-append,
}

-- The mapping has an element for each sample, in their order from the number `i` on, and sends it to
-- the place of the sample among the merged rows.
abbrev pub Maps : List Entry → Bool → Entry → ℕ → List Entry → List SampleMapping → Type 0
Maps rows add_key key i [] [] = Unit
Maps rows add_key key i (sample ∷ samples) (m ∷ mapping) =
    ((m.input ≡ i) × (get_elem? rows m.output ≡ some (extend add_key sample key)))
    × Maps rows add_key key (suc i) samples mapping
Maps rows add_key key i [] (m ∷ mapping) = ⊥
Maps rows add_key key i (sample ∷ samples) [] = ⊥

module _ (names : List Name) (rows : List Entry) (merged : Labels) (v : IsLabels names rows merged)
    (add_key : Bool) (key : Entry) where
  map_samples-Maps :
      (i : ℕ) (samples : List Entry)
      → All
          (λ s.
            (length (extend add_key s key) ≡ length names) × ¬ Absent (extend add_key s key) rows)
          samples
      → (mapping : List SampleMapping) × (map_samples merged add_key key i samples ≡ ok mapping)
        × Maps rows add_key key i samples mapping
  unfolding map_samples
  map_samples-Maps i [] h = ([], refl, tt)
  map_samples-Maps i (s ∷ samples) h =
      let (j, found, there) = position-found v (extend add_key s key) h.0.0 h.0.1 in
      let (mapping, mapped, maps) = map_samples-Maps (suc i) samples h.1 in
      (record { input = i; output = j } ∷ mapping, rw (found, mapped) refl, ((refl, there), maps))

module _ (X : Arrays) where
  -- The samples of the blocks have the given names and these rows.
  abbrev pub Sampled : List Name → List (KeyAndBlock X) → List (List Entry) → Type 0
  Sampled names [] [] = Unit
  Sampled names (b ∷ blocks) (samples ∷ more) =
      IsLabels names samples b.1.values.samples × Sampled names blocks more
  Sampled names [] (samples ∷ more) = ⊥
  Sampled names (b ∷ blocks) [] = ⊥

  -- All samples of the blocks, in order, as they are merged.
  abbrev pub extended : Bool → List (KeyAndBlock X) → List (List Entry) → List Entry
  extended add_key ((key, block) ∷ blocks) (samples ∷ more) =
      map (λ s. extend add_key s key) samples ++ extended add_key blocks more
  extended add_key [] more = []
  extended add_key (b ∷ blocks) [] = []

  abbrev pub MapsBlocks :
      List Entry
      → Bool
      → List (KeyAndBlock X)
      → List (List Entry)
      → List (List SampleMapping)
      → Type 0
  MapsBlocks rows add_key ((key, block) ∷ blocks) (samples ∷ more) (mapping ∷ mappings) =
      Maps rows add_key key 0 samples mapping × MapsBlocks rows add_key blocks more mappings
  MapsBlocks rows add_key [] [] [] = Unit
  MapsBlocks rows add_key _ _ _ = ⊥

  -- What the mappings need of the samples of the blocks.
  abbrev Found : List Name → List Entry → List Entry → Type 0
  Found names rows = All (λ e. (length e ≡ length names) × ¬ Absent e rows)

  Found-map :
      (names : List Name) (rows : List Entry) (f : Entry → Entry) (samples rest : List Entry)
      → Found names rows (map f samples ++ rest)
      → All (λ s. (length (f s) ≡ length names) × ¬ Absent (f s) rows) samples
        × Found names rows rest
  Found-map names rows f [] rest h = (tt, h)
  Found-map names rows f (s ∷ samples) rest h =
      let (here, later) = Found-map names rows f samples rest h.1 in ((h.0, here), later)

  map_blocks-Maps :
      (names : List Name) (rows : List Entry) (merged : Labels)
      → IsLabels names rows merged
      → (add_key : Bool) (old_names : List Name) (blocks : List (KeyAndBlock X))
        (samples : List (List Entry))
      → 0 < length old_names
      → Sampled old_names blocks samples
      → Found names rows (extended add_key blocks samples)
      → (mappings : List (List SampleMapping)) × (map_blocks X merged add_key blocks ≡ ok mappings)
        × MapsBlocks rows add_key blocks samples mappings
  unfolding map_blocks
  map_blocks-Maps names rows merged v add_key old [] [] pos s f = ([], refl, tt)
  map_blocks-Maps names rows merged v add_key old [] (r ∷ more) pos s f = absurd s
  map_blocks-Maps names rows merged v add_key old (b ∷ blocks) [] pos s f = absurd s
  map_blocks-Maps names rows merged v add_key old ((key, b) ∷ blocks) (r ∷ more) pos s f =
      let (here, later) = Found-map names rows (λ e. extend add_key e key) r _ f in
      let (mapping, mapped, maps) = map_samples-Maps names rows merged v add_key key 0 r here in
      let (mappings, rest, maps') =
        map_blocks-Maps names rows merged v add_key old blocks more pos s.1 later in
      (mapping ∷ mappings, rw (iter-rows s.0 pos, mapped, rest) refl, (maps, maps'))

  module _ (I : IndexSets) (law : IsIndexSets I) where
    insert_samples-list :
        (add_key : Bool) (set : I.IndexSet) (key : Entry) (samples : List Entry)
        → I.to_list (insert_samples X I add_key set key samples)
          ≡ insert_all (I.to_list set) (map (λ s. extend add_key s key) samples)
    unfolding insert_samples
    insert_samples-list add_key set key [] = refl
    insert_samples-list add_key set key (s ∷ samples) =
        insert_samples-list add_key (I.insert set (extend add_key s key)) key samples
        ∙ ap (λ xs. insert_all xs (map (λ s. extend add_key s key) samples))
            (law.to_list-insert set (extend add_key s key))

    collect_samples-list :
        (add_key : Bool) (names : List Name) (set : I.IndexSet) (blocks : List (KeyAndBlock X))
        (samples : List (List Entry))
        → 0 < length names
        → Sampled names blocks samples
        → (set' : I.IndexSet) × (collect_samples X I add_key set blocks ≡ ok set')
          × (I.to_list set' ≡ insert_all (I.to_list set) (extended add_key blocks samples))
    unfolding collect_samples
    collect_samples-list add_key names set [] [] pos s = (set, refl, refl)
    collect_samples-list add_key names set [] (r ∷ more) pos s = absurd s
    collect_samples-list add_key names set (b ∷ blocks) [] pos s = absurd s
    collect_samples-list add_key names set ((key, b) ∷ blocks) (r ∷ more) pos s =
        let next = insert_samples X I add_key set key r in
        let (set', collected, e) = collect_samples-list add_key names next blocks more pos s.1 in
        (
          set',
          rw (iter-rows s.0 pos) collected,
          e
              ∙ ap (λ xs. insert_all xs (extended add_key blocks more))
                  (insert_samples-list add_key set key r)
              ∙ sym (
                  insert_all-append (I.to_list set) (map (λ s. extend add_key s key) r)
                    (extended add_key blocks more)),
        )

    -- The list that the merged labels are made from.
    ordered-perm :
        (sort : Bool) (set : I.IndexSet)
        → Permᴰ (I.to_list set) (I.to_list (if sort then I.sort_unstable set else set))
    ordered-perm true set = law.to_list-sort set
    ordered-perm false set = perm_refl (I.to_list set)

    All-Found :
        (names : List Name) (rows es fs : List Entry)
        → All (λ e. length e ≡ length names) fs
        → ((x : Entry) → Absent x rows → Absent x (es ++ fs))
        → Found names rows fs
    All-Found names rows es [] w a = tt
    All-Found names rows es (f ∷ fs) w a = (
      (w.0, λ gone. (Absent-right f es (f ∷ fs) (a f gone)).0 refl),
      All-Found names rows (es ++ f ∷ []) fs w.1
          (λ x gone. rw (append_assoc es (f ∷ []) fs) (a x gone)),
    )

    module _ (old_names names : List Name) (blocks : List (KeyAndBlock X))
        (samples : List (List Entry)) (sort : Bool) where
      -- Whether the keys go to the samples.
      abbrev pub adds_key : Bool
      adds_key = ltb (length old_names) (length names)

      -- What a merge gives: labels of the new names, whose rows are the different samples of the blocks
      -- (in the order of the blocks unless they are sorted), and a mapping for each block that sends
      -- each of its samples to its own row.
      pub record IsMerge (merged : Labels) (mappings : List (List SampleMapping)) : Type 0 where
        pub rows : List Entry
        pub labels : IsLabels names rows merged
        pub union : Permᴰ (insert_all [] (extended adds_key blocks samples)) rows
        pub unsorted : sort ≡ false → rows ≡ insert_all [] (extended adds_key blocks samples)
        pub maps : MapsBlocks rows adds_key blocks samples mappings

      -- The rest of `merge_samples`, from the list of the merged samples on.
      rows-IsMerge :
          (rows : List Entry)
          → Permᴰ (insert_all [] (extended adds_key blocks samples)) rows
          → (sort ≡ false → rows ≡ insert_all [] (extended adds_key blocks samples))
          → 0 < length old_names
          → 0 < length names
          → Sampled old_names blocks samples
          → ValidNames names
          → All (λ e. length e ≡ length names) (extended adds_key blocks samples)
          → (merged : Labels) × (mappings : List (List SampleMapping)) × (merge_rows X blocks names
                adds_key rows
              ≡ ok (merged, mappings))
            × IsMerge merged mappings
      unfolding merge_rows
      rows-IsMerge rows perm unsorted pos pos' s valid wide =
          let all = extended adds_key blocks samples in
          let w = All-perm _ perm (insert_all-All (λ e. length e ≡ length names) [] all tt wide) in
          let (b₀, made, v₀) = new-total names valid in
          let (b₁, added, v₁) =
            add_all-new [] rows v₀ w (Distinct-perm perm (insert_all-Distinct [] all tt)) in
          let (merged, finished, v₂) = finish-total names rows b₁ valid v₁ in
          let v = subst (λ r. IsLabels names r merged) (kept_rows_all names rows pos') v₂ in
          let found =
            All-Found names rows [] all wide
              (λ x gone. (insert_all-Absent x [] all (Absent-perm x (perm_symm perm) gone)).1) in
          let (mappings, mapped, maps) =
            map_blocks-Maps names rows merged v adds_key old_names blocks samples pos s found in
          (
            merged,
            mappings,
            rw (made, added, finished, mapped) refl,
            record { rows = rows; labels = v; union = perm; unsorted = unsorted; maps = maps },
          )

      -- The rest of `merge_samples`, from the collected samples on.
      IsMerge-set :
          (set : I.IndexSet)
          → I.to_list set ≡ insert_all [] (extended adds_key blocks samples)
          → 0 < length old_names
          → 0 < length names
          → Sampled old_names blocks samples
          → ValidNames names
          → All (λ e. length e ≡ length names) (extended adds_key blocks samples)
          → (merged : Labels) × (mappings : List (List SampleMapping)) × (merge_rows X blocks names
                adds_key
                (I.to_list (if sort then I.sort_unstable set else set))
              ≡ ok (merged, mappings))
            × IsMerge merged mappings
      IsMerge-set set set_e pos pos' s valid wide =
          let rows = I.to_list (if sort then I.sort_unstable set else set) in
          let perm : Permᴰ (insert_all [] (extended adds_key blocks samples)) rows =
            subst (λ xs. Permᴰ xs rows) set_e (ordered-perm sort set) in
          let unsorted : sort ≡ false → rows ≡ insert_all [] (extended adds_key blocks samples) =
            λ h. ap (λ b. I.to_list (if b then I.sort_unstable set else set)) h ∙ set_e in
          rows-IsMerge rows perm unsorted pos pos' s valid wide

      -- Blocks (at least one) whose samples have the same names, at least one, are merged without a
      -- panic or an error, if the new names are valid, there is one, and the samples (behind them the
      -- keys, where there are more new names) have a value for each of them. The merged labels have
      -- the different samples of the blocks as rows, in the order of the blocks unless they are sorted,
      -- and the mapping of each block sends each of its samples to its row.
      pub merge_samples-IsMerge :
          (first : KeyAndBlock X)
          → get_elem? blocks 0 ≡ some first
          → first.1.values.samples.names ≡ old_names
          → 0 < length old_names
          → 0 < length names
          → Sampled old_names blocks samples
          → ValidNames names
          → All (λ e. length e ≡ length names) (extended adds_key blocks samples)
          → (merged : Labels) × (mappings : List (List SampleMapping)) × (merge_samples X I blocks
                names sort
              ≡ ok (merged, mappings))
            × IsMerge merged mappings
      unfolding merge_samples
      merge_samples-IsMerge first e names_e pos pos' s valid wide =
          let (set, collected, list_e) =
            collect_samples-list adds_key old_names I.empty blocks samples pos s in
          let set_e =
            list_e
            ∙ ap (λ xs. insert_all xs (extended adds_key blocks samples)) law.to_list-empty in
          let (merged, mappings, done, v) = IsMerge-set set set_e pos pos' s valid wide in
          (merged, mappings, rw (e, names_e, collected) done, v)
