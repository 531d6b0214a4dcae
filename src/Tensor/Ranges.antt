-- ===== src/Tensor/Ranges.antt =====
-- `merge_blocks_along_properties`: the range of properties that the data of a block goes to.
use native.Mathlib.Nat.{add-zero}
use equistore.Prelude.{
  ℕ, zero, suc, ◌+◌, ◌≡◌, ◌∙◌, refl, sym, ap, ap₂, subst, subst₂, List, [], ◌∷◌, ◌++◌, append_assoc,
  length, map, some, get_elem?, get_elem?-append_left, get_elem?-append_right, All-get_elem?,
  some-injective, suc-eq-zero, false,
}
use equistore.Errors.{Name, ok}
use equistore.Labels.{Entry, Labels, IsLabels, is_empty, position}
use equistore.Labels.Lookup.{count-rows, index-rows, position-rows}
use equistore.Data.{Arrays}
use equistore.Blocks.{TensorBlock}
use equistore.Tensor.Merge.{KeyAndBlock}
use equistore.Tensor.Properties.{Propertied, prefixed}
use equistore.Tensor.ToProperties.{Range, property_range}

-- The range starts where the rows behind the key start, and has a place for each of them.
pub record IsRange (all : List Entry) (key : Entry) (rows : List Entry) (range : Range)
    : Type 0 where
  pub size : range.1 ≡ range.0 + length rows
  pub places :
      (j : ℕ) (row : Entry)
      → get_elem? rows j ≡ some row
      → get_elem? all (range.0 + j) ≡ some (key ++ row)

get_elem?-map :
    (f : Entry → Entry) (rows : List Entry) (j : ℕ) {row : Entry}
    → get_elem? rows j ≡ some row
    → get_elem? (map f rows) j ≡ some (f row)
get_elem?-map f [] j e = cc
get_elem?-map f (r ∷ rows) zero {row} e = ap (λ x. some (f x)) (some-injective r row e)
get_elem?-map f (r ∷ rows) (suc j) e = get_elem?-map f rows j e

place :
    (pre post : List Entry) (key : Entry) (rows : List Entry) (j : ℕ) (row : Entry)
    → get_elem? rows j ≡ some row
    → get_elem? (pre ++ (map (λ r. key ++ r) rows ++ post)) (length pre + j) ≡ some (key ++ row)
place pre post key rows j row e =
    get_elem?-append_right pre (map (λ r. key ++ r) rows ++ post) j
    ∙ get_elem?-append_left (map (λ r. key ++ r) rows) post j
        (get_elem?-map (λ r. key ++ r) rows j e)

module _ (X : Arrays) (new_names names : List Name) (new_properties : Labels) (key : Entry)
    (block : TensorBlock X) (r : Entry) (rows pre post : List Entry)
    (v : IsLabels new_names (pre ++ (map (λ e. key ++ e) (r ∷ rows) ++ post)) new_properties)
    (p : IsLabels names (r ∷ rows) block.values.properties) where
  first_position : position new_properties (key ++ r) ≡ ok (some (length pre))
  first_position =
      let all = pre ++ (map (λ e. key ++ e) (r ∷ rows) ++ post) in
      let here : get_elem? all (length pre) ≡ some (key ++ r) =
        subst (λ i. get_elem? all i ≡ some (key ++ r)) (add-zero (length pre))
          (place pre post key (r ∷ rows) 0 r refl) in
      let (o, found, iff) =
        position-rows v (key ++ r) (All-get_elem? _ all (length pre) v.widths here) in
      found ∙ ap ok ((iff (length pre)).1 here)

  not_empty : is_empty block.values.properties ≡ false
  unfolding is_empty
  not_empty = rw (count-rows p) (suc-eq-zero (length rows))

  property_range-first :
      property_range X new_properties (key, block)
      ≡ ok (some (length pre, length pre + length (r ∷ rows)))
  unfolding property_range
  property_range-first = rw (not_empty, index-rows p 0 refl, first_position, count-rows p) refl

split_prefixed :
    (X : Arrays) (names : List Name) (blocks : List (KeyAndBlock X)) (more : List (List Entry))
    (k : ℕ) (key : Entry) (block : TensorBlock X) (rows : List Entry)
    → Propertied X names blocks more
    → get_elem? blocks k ≡ some (key, block)
    → get_elem? more k ≡ some rows
    → (pre : List Entry) × (post : List Entry) × (prefixed X blocks more
        ≡ pre ++ (map (λ e. key ++ e) rows ++ post))
      × IsLabels names rows block.values.properties
split_prefixed X names [] more k key block rows p e f = cc (e)
split_prefixed X names (b ∷ blocks) [] k key block rows p e f = absurd p
split_prefixed X names ((key', b) ∷ blocks) (rows' ∷ more) zero key block rows p e f =
    let same = some-injective (key', b) (key, block) e in
    let same_rows = some-injective rows' rows f in
    (
      [],
      prefixed X blocks more,
      ap₂ (λ k rs. map (λ e. k ++ e) rs ++ prefixed X blocks more) (ap (λ x. x.0) same) same_rows,
      subst₂ (λ rs x. IsLabels names rs x.1.values.properties) same_rows same p.0,
    )
split_prefixed X names ((key', b) ∷ blocks) (rows' ∷ more) (suc k) key block rows p e f =
    let (pre, post, q, v) = split_prefixed X names blocks more k key block rows p.1 e f in
    (
      map (λ e. key' ++ e) rows' ++ pre,
      post,
      ap (◌++◌ (map (λ e. key' ++ e) rows')) q
          ∙ sym (append_assoc (map (λ e. key' ++ e) rows') pre (map (λ e. key ++ e) rows ++ post)),
      v,
    )

-- If the new properties are those of the blocks, each behind the key of its block and in the order of
-- the blocks, then the range of a block with properties starts at its first property and gives each of
-- its properties the place of that property behind the key.
pub property_range-IsRange :
    (X : Arrays) (new_names names : List Name) (new_properties : Labels)
    (blocks : List (KeyAndBlock X)) (more : List (List Entry)) (k : ℕ) (key : Entry)
    (block : TensorBlock X) (r : Entry) (rows : List Entry)
    → IsLabels new_names (prefixed X blocks more) new_properties
    → Propertied X names blocks more
    → get_elem? blocks k ≡ some (key, block)
    → get_elem? more k ≡ some (r ∷ rows)
    → (range : Range) × (property_range X new_properties (key, block) ≡ ok (some range))
      × IsRange (prefixed X blocks more) key (r ∷ rows) range
property_range-IsRange X new_names names new_properties blocks more k key block r rows v p e f =
    let (pre, post, q, v') = split_prefixed X names blocks more k key block (r ∷ rows) p e f in
    let w = subst (λ all. IsLabels new_names all new_properties) q v in
    (
      (length pre, length pre + length (r ∷ rows)),
      property_range-first X new_names names new_properties key block r rows pre post w v',
      record { size = refl; places = λ j row h. rw q (place pre post key (r ∷ rows) j row h) },
    )
