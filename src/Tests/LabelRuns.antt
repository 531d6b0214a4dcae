-- ===== src/Tests/LabelRuns.antt =====
-- equistore-core/src/labels.rs and lib.rs, run on concrete labels.
use mathlib.Core.List.{lookup}
use equistore.Prelude.{
  ℕ, ◌≡◌, refl, ◌↔◌, true, false, List, [], ◌∷◌, ◌++◌, Option, some, none, ℤ.pos, get_elem?,
  Distinct, codes, Distinct-of_n_unique, list_discrete, ℤ_discrete, ℕ_discrete, arith,
}
use equistore.Errors.{
  Outcome, Name, ok, err, panic, invalid_parameter, duplicate_entry, wrong_position_size,
  serialization, zip_error, catch_unwind, to_status,
}
use equistore.Labels.{
  Entry, Labels, LabelsBuilder, IsLabels, entry_dec, name_dec, names_dec, from_usize, from_isize,
  usize, valid_from, is_valid_label_name, check_names, count, is_empty, contains_label, position,
  chunks, iter, index, same_values, labels_eq,
}
use equistore.Labels.Builder.{
  new, convert, insert, push, add, try_add, add_all, has_null, check_c_strings, finish, build,
}
use equistore.Labels.Building.{IsBuilder, add-new, add-duplicate}
use equistore.Labels.Finish.{
  ValidNames, CanBuild, kept_rows, finish-total, build_iff, build-IsLabels,
}
use equistore.Labels.Lookup.{position-rows}
use equistore.Labels.Equality.{labels_eq_iff}
use equistore.Tests.{labels_of, labels_of-IsLabels}

program : Unit {0}
unfolding list_discrete ℤ_discrete ℕ_discrete entry_dec name_dec names_dec from_usize from_isize
    usize valid_from is_valid_label_name check_names count is_empty contains_label position chunks
    iter index same_values labels_eq new convert insert push add try_add add_all has_null
    check_c_strings finish build catch_unwind to_status lookup
program = tt

abbrev names : List Name
names = codes "sample" ∷ codes "atom" ∷ []

abbrev rows : List Entry
rows = (pos 0 ∷ pos 3 ∷ []) ∷ (pos 1 ∷ pos 2 ∷ []) ∷ []

abbrev labels : Labels
labels = labels_of names rows

rows-Distinct : Distinct rows
unfolding program
rows-Distinct = Distinct-of_n_unique entry_dec rows refl

names-ValidNames : ValidNames names
unfolding program
names-ValidNames = record {
  valid = (refl, (refl, tt));
  distinct = Distinct-of_n_unique name_dec names refl;
}

labels-IsLabels : IsLabels names rows labels
labels-IsLabels =
    labels_of-IsLabels names rows (refl, (refl, tt)) rows-Distinct (λ h. absurd (omega arith))

builds : build names rows ≡ ok labels
unfolding program
builds = refl

looks_up :
    (position labels (pos 1 ∷ pos 2 ∷ []) ≡ ok (some 1))
    × (position labels (pos 1 ∷ pos 1 ∷ []) ≡ ok none)
    × (position labels (pos 1 ∷ []) ≡ panic wrong_position_size)
    × (index labels 1 ≡ ok (pos 1 ∷ pos 2 ∷ []))
unfolding program
looks_up = (refl, refl, refl, refl)

names_checked :
    (is_valid_label_name (codes "a_1") ≡ true)
    × (is_valid_label_name (codes "1a") ≡ false)
    × (is_valid_label_name (codes "a b") ≡ false)
    × (is_valid_label_name [] ≡ false)
unfolding program
names_checked = (refl, refl, refl, refl)

rows-CanBuild : CanBuild names rows
rows-CanBuild = record {
  names_ok = names-ValidNames;
  widths = (refl, (refl, tt));
  distinct = rows-Distinct;
}

build_iff_example : ((l : Labels) × (build names rows ≡ ok l)) ↔ CanBuild names rows
build_iff_example = build_iff names rows

build-IsLabels_example : IsLabels names (kept_rows names rows) labels
build-IsLabels_example = build-IsLabels names rows labels builds

builder : LabelsBuilder
builder = record { names = names; values = labels.values; positions = labels.positions }

builder-IsBuilder : IsBuilder names rows builder
unfolding builder
builder-IsBuilder = record {
  same_names = refl;
  values = refl;
  positions = refl;
  widths = (refl, (refl, tt));
  distinct = rows-Distinct;
}

add-new_example :
    (b' : LabelsBuilder) × (add ok builder (pos 1 ∷ pos 3 ∷ []) ≡ (ok tt, b'))
    × IsBuilder names (rows ++ (pos 1 ∷ pos 3 ∷ []) ∷ []) b'
unfolding program
add-new_example = add-new builder-IsBuilder (pos 1 ∷ pos 3 ∷ []) refl ((λ p. cc, (λ p. cc, tt)))

add-duplicate_example : add ok builder (pos 1 ∷ pos 2 ∷ []) ≡ (
  err (invalid_parameter (duplicate_entry (pos 1 ∷ pos 2 ∷ []) 1)),
  record builder { values = builder.values ++ pos 1 ∷ pos 2 ∷ [] },
)
add-duplicate_example = add-duplicate builder-IsBuilder (pos 1 ∷ pos 2 ∷ []) 1 refl

finish-total_example :
    (l : Labels) × (finish builder ≡ ok l) × IsLabels names (kept_rows names rows) l
finish-total_example = finish-total names rows builder names-ValidNames builder-IsBuilder

position-rows_example :
    (o : Option ℕ) × (position labels (pos 1 ∷ pos 2 ∷ []) ≡ ok o)
    × ((i : ℕ) → (o ≡ some i) ↔ (get_elem? rows i ≡ some (pos 1 ∷ pos 2 ∷ [])))
position-rows_example = position-rows labels-IsLabels (pos 1 ∷ pos 2 ∷ []) refl

labels_eq_iff_example : (labels_eq labels labels ≡ true) ↔ ((names ≡ names) × (rows ≡ rows))
labels_eq_iff_example = labels_eq_iff labels-IsLabels labels-IsLabels

abbrev lost : Outcome Labels
lost = err (serialization (zip_error (codes "gradients/" ++ 0 ∷ codes "/samples.npy")))

abbrev missing : Outcome Labels
missing = err (serialization (zip_error (codes "keys.npy")))

-- A text with a null character leaves the call without a status.
loses_status : catch_unwind none lost ≡ none
unfolding program
loses_status = refl

reports_status :
    catch_unwind none missing ≡ some (pos 3, some (serialization (zip_error (codes "keys.npy"))))
unfolding program
reports_status = refl
