-- ===== src/Tensor/Properties.antt =====
-- `merge_blocks_along_properties`: where the properties of each block go.
use equistore.Prelude.{
  ℕ, ◌<◌, ◌≡◌, ◌∙◌, refl, sym, ap, List, [], ◌∷◌, ◌++◌, append_assoc, append-nil, length, map, All,
  Absent, Absent-append, Absent-of_Distinct, Distinct, not_contains_of_Absent,
}
use equistore.Errors.{Name, ok}
use equistore.Labels.{Entry, IsLabels, entry_dec}
use equistore.Labels.Lookup.{iter-rows}
use equistore.Labels.Prefixes.{behind_other, Distinct-behind, All-Absent}
use equistore.Data.{Arrays}
use equistore.Tensor.Keys.{IndexSets}
use equistore.Tensor.Merge.{KeyAndBlock}
use equistore.Tensor.Sets.{IsIndexSets, insert_all, insert_all-append}
use equistore.Tensor.ToProperties.{insert_properties, collect_properties}

-- Elements that are all new go to the end.
insert_all-new : (xs es : List Entry) → Distinct (xs ++ es) → insert_all xs es ≡ xs ++ es
insert_all-new xs [] d = sym (append-nil xs)
insert_all-new xs (e ∷ es) d =
    let fresh = not_contains_of_Absent entry_dec e xs (Absent-of_Distinct xs e es d) in
    let shift = append_assoc xs (e ∷ []) es in
    rw fresh (insert_all-new (xs ++ e ∷ []) es (rw shift d) ∙ shift)

module _ (X : Arrays) where
  -- The properties of the blocks have the given names and these rows.
  abbrev pub Propertied : List Name → List (KeyAndBlock X) → List (List Entry) → Type 0
  Propertied names [] [] = Unit
  Propertied names (b ∷ blocks) (rows ∷ more) =
      IsLabels names rows b.1.values.properties × Propertied names blocks more
  Propertied names [] (rows ∷ more) = ⊥
  Propertied names (b ∷ blocks) [] = ⊥

  -- All properties, each behind the moved part of the key of its block.
  abbrev pub prefixed : List (KeyAndBlock X) → List (List Entry) → List Entry
  prefixed ((key, block) ∷ blocks) (rows ∷ more) = map (λ r. key ++ r) rows ++ prefixed blocks more
  prefixed [] more = []
  prefixed (b ∷ blocks) [] = []

  abbrev pub moved_keys : List (KeyAndBlock X) → List Entry
  moved_keys = map (λ b. b.0)

  prefixed-Absent :
      (key e : Entry) (blocks : List (KeyAndBlock X)) (more : List (List Entry))
      → All (λ k. length k ≡ length key) (moved_keys blocks)
      → Absent key (moved_keys blocks)
      → Absent (key ++ e) (prefixed blocks more)
  prefixed-Absent key e [] more w a = tt
  prefixed-Absent key e (b ∷ blocks) [] w a = tt
  prefixed-Absent key e ((k, b) ∷ blocks) (rows ∷ more) w a =
      Absent-append (key ++ e) (map (λ r. k ++ r) rows) (prefixed blocks more)
        (behind_other key k e rows (sym w.0) a.0) (prefixed-Absent key e blocks more w.1 a.1)

  -- Different keys of one width keep the properties of the blocks apart.
  prefixed-Distinct :
      (n : ℕ) (names : List Name) (blocks : List (KeyAndBlock X)) (more : List (List Entry))
      → All (λ k. length k ≡ n) (moved_keys blocks)
      → Distinct (moved_keys blocks)
      → Propertied names blocks more
      → Distinct (prefixed blocks more)
  prefixed-Distinct n names [] more w d p = tt
  prefixed-Distinct n names (b ∷ blocks) [] w d p = tt
  prefixed-Distinct n names ((key, b) ∷ blocks) (rows ∷ more) w d p =
      Distinct-behind key rows (prefixed blocks more) p.0.distinct
        (All-Absent key rows (prefixed blocks more)
          (λ e. prefixed-Absent key e blocks more (rw w.0 w.1) d.0))
        (prefixed-Distinct n names blocks more w.1 d.1 p.1)

  module _ (I : IndexSets) (law : IsIndexSets I) where
    insert_properties-list :
        (set : I.IndexSet) (key : Entry) (rows : List Entry)
        → I.to_list (insert_properties X I set key rows)
          ≡ insert_all (I.to_list set) (map (λ r. key ++ r) rows)
    unfolding insert_properties
    insert_properties-list set key [] = refl
    insert_properties-list set key (r ∷ rows) =
        insert_properties-list (I.insert set (key ++ r)) key rows
        ∙ ap (λ xs. insert_all xs (map (λ r. key ++ r) rows)) (law.to_list-insert set (key ++ r))

    collect_properties-list :
        (names : List Name) (set : I.IndexSet) (blocks : List (KeyAndBlock X))
        (more : List (List Entry))
        → 0 < length names
        → Propertied names blocks more
        → (set' : I.IndexSet) × (collect_properties X I set blocks ≡ ok set')
          × (I.to_list set' ≡ insert_all (I.to_list set) (prefixed blocks more))
    unfolding collect_properties
    collect_properties-list names set [] [] pos p = (set, refl, refl)
    collect_properties-list names set [] (r ∷ more) pos p = absurd p
    collect_properties-list names set (b ∷ blocks) [] pos p = absurd p
    collect_properties-list names set ((key, b) ∷ blocks) (rows ∷ more) pos p =
        let next = insert_properties X I set key rows in
        let (set', collected, e) = collect_properties-list names next blocks more pos p.1 in
        (
          set',
          rw (iter-rows p.0 pos) collected,
          e
              ∙ ap (λ xs. insert_all xs (prefixed blocks more))
                  (insert_properties-list set key rows)
              ∙ sym (
                  insert_all-append (I.to_list set) (map (λ r. key ++ r) rows)
                    (prefixed blocks more)),
        )

    -- For blocks with different moved keys of one width, whose properties have the same names (at least
    -- one), the new properties are those of the first block behind its key, then those of the second,
    -- and so on.
    pub collect_properties-prefixed :
        (n : ℕ) (names : List Name) (blocks : List (KeyAndBlock X)) (more : List (List Entry))
        → 0 < length names
        → All (λ k. length k ≡ n) (moved_keys blocks)
        → Distinct (moved_keys blocks)
        → Propertied names blocks more
        → (set : I.IndexSet) × (collect_properties X I I.empty blocks ≡ ok set)
          × (I.to_list set ≡ prefixed blocks more)
    collect_properties-prefixed n names blocks more pos w d p =
        let (set, collected, e) = collect_properties-list names I.empty blocks more pos p in
        (
          set,
          collected,
          e
              ∙ ap (λ xs. insert_all xs (prefixed blocks more)) law.to_list-empty
              ∙ insert_all-new [] (prefixed blocks more)
                  (prefixed-Distinct n names blocks more w d p),
        )
