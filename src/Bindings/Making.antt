-- ===== src/Bindings/Making.antt =====
-- equistore/src/labels.rs: `Labels::new`.
use equistore.Prelude.{
  ◌/◌, ◌<◌, ◌≡◌, refl, sym, true, false, ==_iff, ◌==◌, List, [], ◌∷◌, ◌++◌, append_assoc,
  append-nil, length, flatten, All, Option, none, some, arith, n_unique, n_unique_of_Distinct,
}
use equistore.Errors.{Name, Error, ok}
use equistore.Labels.{Entry, name_dec}
use equistore.Labels.Building.{convert-ok}
use equistore.Labels.Finish.{CanBuild, check_c_strings-total}
use equistore.Labels.Lookup.{length-flatten}
use equistore.CApi.{defined, deref}
use equistore.CApi.Labels.{EqsLabels, is_rust, c_names}
use equistore.CApi.Creation.{IsGiven, IsHandle}
use equistore.CApi.Handles.{eqs_labels_create-IsHandle}
use equistore.Bindings.{BindingError}
use equistore.Bindings.Labels.{
  Labels, LabelsBuilder, from_raw, new, size, add, divided, finish, add_entries, new_labels,
}
use equistore.Bindings.Table.{IsTable, expect_status-success, handle-IsTable}

from_raw-IsHandle :
    {names : List Name} {rows : List Entry} {raw : EqsLabels}
    → IsHandle names rows raw
    → from_raw raw ≡ defined (ok (record { raw = raw }))
unfolding from_raw is_rust
from_raw-IsHandle h = rw (h.internal) refl

module _ (before : Option Error) (last_rust : BindingError) where
  add_entries-rows :
      (b : LabelsBuilder) (rows : List Entry)
      → All (λ row. length row ≡ length b.names) rows
      → add_entries before last_rust ok b rows
        ≡ defined (ok (record b { values = b.values ++ flatten rows }))
  unfolding add_entries add size
  add_entries-rows b [] w = rw append-nil refl
  add_entries-rows b (row ∷ rows) w =
      let wide : (length b.names == length row) ≡ true = (==_iff _ _).1 (sym w.0) in
      rw
        (
          wide,
          convert-ok row,
          add_entries-rows (record b { values = b.values ++ row }) rows w.1,
          append_assoc b.values row (flatten rows),
        )
        refl

  module _ {names : List Name} {rows : List Entry} (some_names : 0 < length names)
      (c : CanBuild names rows) where
    given : EqsLabels
    given = record {
      internal_ptr = none;
      names = some (c_names names);
      values = some (flatten rows);
      size = length names;
      count = length rows;
    }

    given-IsGiven : IsGiven names rows given
    unfolding given
    given-IsGiven = record {
      from_c = refl;
      names_ptr = refl;
      values_ptr = refl;
      same_size = refl;
      same_count = refl;
      widths = c.widths;
    }

    divided-rows : divided (length (flatten rows)) (length names) ≡ ok (length rows)
    divided-rows =
        let named : (length names == 0) ≡ false = ground arith in
        let len = length-flatten (length names) rows c.widths in
        let whole : length (flatten rows) / length names ≡ length rows = grind (arith, len) in
        rw (named, whole) refl

    -- Labels that the bindings make from valid different names, at least one, and different rows of
    -- their number are a table of them: the names, the number of the rows, the rows in their order and
    -- by their number, and the position of each are read from it through the C functions.
    pub new_labels-IsTable :
        (l : Labels) × (new_labels before last_rust ok names rows ≡ defined (ok l))
        × IsTable before last_rust names rows l
    unfolding new_labels new finish size deref given
    new_labels-IsTable =
        let unique : (n_unique name_dec names == length names) ≡ true =
          (==_iff _ _).1 (n_unique_of_Distinct name_dec names c.names_ok.distinct) in
        let filled = add_entries-rows (record { names = names; values = [] }) rows c.widths in
        let (raw, created, h) = eqs_labels_create-IsHandle before given-IsGiven some_names c in
        (
          record { raw = raw },
          rw
              (
                unique,
                filled,
                check_c_strings-total names c.names_ok.valid,
                divided-rows,
                created,
                expect_status-success before last_rust (some raw),
                from_raw-IsHandle h,
              )
              refl,
          handle-IsTable before last_rust h some_names,
        )
