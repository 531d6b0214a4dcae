-- ===== src/Tensor/Keys.antt =====
-- equistore-core/src/tensor/utils.rs: `remove_dimensions_from_keys`.
use equistore.Prelude.{
  ℕ, suc, List, [], ◌∷◌, ◌++◌, get_elem?, if◌then◌else◌, equal, contains, codes, ℤ.pos, ℕ_discrete,
}
use equistore.Errors.{Name, Outcome, ok, ◌>>=◌, ◌>>◌, guard, expect, out_of_range, not_in_keys}
use equistore.Labels.{Entry, Labels, iter, name_dec, entry_dec}
use equistore.Labels.Builder.{build}

-- `IndexSet` of the crate indexmap: a set that keeps the order of insertion.
pub record IndexSets : Type 1 where
  pub IndexSet : Type 0
  pub empty : IndexSet
  pub insert : IndexSet → Entry → IndexSet
  pub sort_unstable : IndexSet → IndexSet
  -- the iteration
  pub to_list : IndexSet → List Entry

-- A new element goes to the end.
abbrev pub insert_new : Entry → List Entry → List Entry
insert_new e xs = if contains entry_dec e xs then xs else xs ++ e ∷ []

-- The first check: each dimension is a name of the keys.
unfoldable pub check_dimensions : List Name → List Name → Outcome (Unit {0})
check_dimensions names [] = ok tt
check_dimensions names (dimension ∷ dimensions) = do
  guard (contains name_dec dimension names) (not_in_keys dimension)
  check_dimensions names dimensions

-- The positions of a name, from the position `i` on.
unfoldable pub positions_of : Name → ℕ → List Name → List ℕ
positions_of dimension i [] = []
positions_of dimension i (name ∷ names) =
    let rest = positions_of dimension (suc i) names in
    if equal name_dec dimension name then i ∷ rest else rest

-- The positions of the dimensions.
unfoldable pub extracted : List Name → List Name → List ℕ
extracted names [] = []
extracted names (dimension ∷ dimensions) =
    positions_of dimension 0 names ++ extracted names dimensions

-- The other names and their positions.
unfoldable pub remaining_i : List ℕ → ℕ → List Name → List ℕ
remaining_i extracted_i i [] = []
remaining_i extracted_i i (name ∷ names) =
    let rest = remaining_i extracted_i (suc i) names in
    if contains ℕ_discrete i extracted_i then rest else i ∷ rest

unfoldable pub remaining_names : List ℕ → ℕ → List Name → List Name
remaining_names extracted_i i [] = []
remaining_names extracted_i i (name ∷ names) =
    let rest = remaining_names extracted_i (suc i) names in
    if contains ℕ_discrete i extracted_i then rest else name ∷ rest

-- The values of a key at some positions.
unfoldable pub project : List ℕ → Entry → Outcome Entry
project [] key = ok []
project (i ∷ is) key = do
  value ← expect (get_elem? key i) out_of_range
  rest ← project is key
  ok (value ∷ rest)

pub record RemovedDimensionsKeys : Type 0 where
  pub new_keys : Labels
  pub dimensions_positions : List ℕ

module _ (I : IndexSets) where
  open I use {IndexSet, empty, insert, to_list}

  -- The loop over the keys that collects what remains of them.
  unfoldable pub collect_keys : IndexSet → List ℕ → List Entry → Outcome IndexSet
  collect_keys set positions [] = ok set
  collect_keys set positions (key ∷ keys) = do
    label ← project positions key
    collect_keys (insert set label) positions keys

  unfoldable pub remaining_keys : Labels → List Name → List ℕ → Outcome Labels
  remaining_keys keys names [] = build (codes "_" ∷ []) ((pos 0 ∷ []) ∷ [])
  remaining_keys keys names (i ∷ is) = do
    rows ← iter keys
    set ← collect_keys empty (i ∷ is) rows
    build names (to_list set)

  -- `remove_dimensions_from_keys`.
  unfoldable pub remove_dimensions_from_keys : Labels → List Name → Outcome RemovedDimensionsKeys
  remove_dimensions_from_keys keys dimensions = do
    let names = keys.names
    check_dimensions names dimensions
    let extracted_i = extracted names dimensions
    new_keys ←
        remaining_keys keys (remaining_names extracted_i 0 names) (remaining_i extracted_i 0 names)
    ok (record { new_keys = new_keys; dimensions_positions = extracted_i })
