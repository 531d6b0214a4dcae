-- ===== src/Tests/BindingRuns.antt =====
-- equistore/src/labels.rs: labels of the bindings made and looked up.
use equistore.Prelude.{
  ◌≡◌, refl, List, [], ◌∷◌, none, ℤ.pos, codes, Distinct-of_n_unique, list_discrete, ℤ_discrete,
  ℕ_discrete, arith,
}
use equistore.Errors.{Name, ok, panic, division_by_zero}
use equistore.Labels.{Entry, entry_dec, name_dec, valid_from, is_valid_label_name}
use equistore.Labels.Builder.{check_c_strings}
use equistore.Labels.Finish.{CanBuild}
use equistore.CApi.{defined}
use equistore.Bindings.{BindingError}
use equistore.Bindings.Labels.{Labels, new, size, finish, new_labels, empty}
use equistore.Bindings.Table.{IsTable}
use equistore.Bindings.Making.{new_labels-IsTable}

abbrev names : List Name
names = codes "a" ∷ codes "b" ∷ []

abbrev rows : List Entry
rows = (pos 1 ∷ pos 2 ∷ []) ∷ (pos 0 ∷ pos 2 ∷ []) ∷ []

abbrev no_error : BindingError
no_error = record { code = none; message = none }

rows-CanBuild : CanBuild names rows
unfolding entry_dec name_dec list_discrete ℤ_discrete ℕ_discrete valid_from is_valid_label_name
rows-CanBuild = record {
  names_ok = record {
    valid = (refl, (refl, tt));
    distinct = Distinct-of_n_unique name_dec names refl;
  };
  widths = (refl, (refl, tt));
  distinct = Distinct-of_n_unique entry_dec rows refl;
}

new_labels-IsTable_example :
    (l : Labels) × (new_labels none no_error ok names rows ≡ defined (ok l))
    × IsTable none no_error names rows l
new_labels-IsTable_example = new_labels-IsTable none no_error (omega arith) rows-CanBuild

-- Labels without names can not be made: their number is divided by 0.
panics : empty none no_error [] ≡ defined (panic division_by_zero)
unfolding empty new finish size check_c_strings
panics = refl
