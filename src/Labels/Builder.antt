-- ===== src/Labels/Builder.antt =====
-- equistore-core/src/labels.rs: `LabelsBuilder`.
use mathlib.Core.List.{lookup}
use equistore.Prelude.{
  ℕ, List, [], ◌∷◌, ◌++◌, length, Option, some, none, ◌==◌, if◌then◌else◌, n_unique, not,
}
use equistore.Errors.{
  Name, Outcome, ok, err, panic, ◌>>=◌, ◌>>◌, assert, invalid_parameter, repeated_label_name,
  wrong_entry_size, duplicate_entry, invalid_c_string, leftover_values,
}
unfoldable pub use equistore.Errors.{has_null}
use equistore.Labels.{LabelValue, Entry, LabelsBuilder, Labels, check_names, name_dec, entry_dec}

-- `LabelsBuilder::new`.
unfoldable pub new : List Name → Outcome LabelsBuilder
unfolding check_names
new names = do
  check_names names
  assert (n_unique name_dec names == length names) repeated_label_name
  ok (record { names = names; values = []; positions = [] })

-- `LabelsBuilder::size`.
abbrev pub size : LabelsBuilder → ℕ
size b = length b.names

-- `entry.iter().copied().map(Into::into).collect()`.
unfoldable pub convert : {T : Type 0} → (T → Outcome LabelValue) → List T → Outcome Entry
convert into [] = ok []
convert into (x ∷ xs) = do value ← into x; values ← convert into xs; ok (value ∷ values)

-- The match on `self.positions.entry(entry)`.
unfoldable pub insert : LabelsBuilder → Entry → ℕ → Option ℕ → Outcome (Unit {0}) × LabelsBuilder
insert b entry new_position (some i) = (err (invalid_parameter (duplicate_entry entry i)), b)
insert b entry new_position none =
    (ok tt, record b { positions = b.positions ++ (entry, new_position) ∷ [] })

-- `LabelsBuilder::add` behind the conversion of the entry. The values are there before the check.
unfoldable pub push : LabelsBuilder → Outcome Entry → Outcome (Unit {0}) × LabelsBuilder
unfolding insert
push b (panic m) = (panic m, b)
push b (err e) = (err e, b)
push b (ok entry) =
    insert (record b { values = b.values ++ entry }) entry (length b.positions)
      (lookup entry_dec entry b.positions)

-- `LabelsBuilder::add`; `into` is the conversion of the type `T`.
unfoldable pub add :
    {T : Type 0}
    → (T → Outcome LabelValue)
    → LabelsBuilder
    → List T
    → Outcome (Unit {0}) × LabelsBuilder
unfolding push convert
add into b entry =
    if size b == length entry
    then push b (convert into entry)
    else (panic (wrong_entry_size (length entry) (size b)), b)

-- `builder.add(&entry)?`: a failure gives the builder up.
unfoldable pub try_add : LabelsBuilder → Entry → Outcome LabelsBuilder
unfolding add
try_add b entry = let (done, b') = add ok b entry in done >> ok b'

-- `for entry in entries { builder.add(&entry)?; }`.
unfoldable pub add_all : LabelsBuilder → List Entry → Outcome LabelsBuilder
unfolding try_add
add_all b [] = ok b
add_all b (entry ∷ entries) = do b' ← try_add b entry; add_all b' entries

-- `CString::new(name).expect(..)` of each name.
unfoldable pub check_c_strings : List Name → Outcome (Unit {0})
unfolding has_null
check_c_strings [] = ok tt
check_c_strings (name ∷ names) = do
  assert (not (has_null name)) invalid_c_string
  check_c_strings names

-- `LabelsBuilder::finish`.
unfoldable pub finish : LabelsBuilder → Outcome Labels
unfolding check_c_strings
finish b =
    if length b.names == 0
    then (do
      assert (length b.values == 0) leftover_values
      ok (record { names = []; values = []; positions = [] }))
    else (do
      check_c_strings b.names
      ok (record { names = b.names; values = b.values; positions = b.positions }))

-- A builder made, filled and finished: what the library does wherever it makes new labels.
unfoldable pub build : List Name → List Entry → Outcome Labels
unfolding new add_all finish
build names entries = do b ← new names; b' ← add_all b entries; finish b'
