-- ===== src/CApi/Labels.antt =====
-- equistore-core/src/c_api/labels.rs.
use equistore.Prelude.{
  ℕ, zero, suc, ◌*◌, ◌/◌, Bool, true, false, not, ◌&&◌, ◌||◌, ◌==◌, ltb, List, [], ◌∷◌, length,
  Option, none, some, ℤ, ℤ.pos, ℤ.negsuc, get_elem?, if◌then◌else◌,
}
use equistore.Errors.{
  Name, Error, Outcome, ok, assert, invalid_label_name, out_of_range, not_rust_labels,
  already_rust_labels, null_names, null_values, wrong_label_size,
}
use equistore.Labels.{Entry, Labels, size, count, chunks, index, position, is_valid_label_name}
use equistore.Labels.Builder.{new, add_all, finish}
use equistore.CApi.{
  Unsafe, undefined, defined, ◌>>=◌, ◌>>◌, check, check_pointer, deref, CString, to_str,
  from_raw_parts, Called, call,
}

-- `eqs_labels_t`. The pointer to the Rust labels is these labels, which nobody changes.
pub record EqsLabels : Type 0 where
  pub internal_ptr : Option Labels
  pub names : Option (List CString)
  pub values : Option (List ℤ)
  pub size : ℕ
  pub count : ℕ

unfoldable pub is_rust : EqsLabels → Bool
is_rust labels = elim (labels.internal_ptr) [ none ↦ false | some l ↦ true ]

-- `&labels[0][0]`, the pointer to the values.
unfoldable pub values_ptr : Labels → Outcome (Option (List ℤ))
values_ptr labels =
    if count labels == 0 || size labels == 0 then ok none else elim (index labels 0) [
      | ok row ↦ elim (get_elem? row 0) [
        | some value ↦ ok (some labels.values)
        | none ↦ Outcome.panic out_of_range
      ]
      | Outcome.err e ↦ Outcome.err e
      | Outcome.panic m ↦ Outcome.panic m
    ]

abbrev pub c_names : List Name → List CString
c_names [] = []
c_names (name ∷ names) = some name ∷ c_names names

unfoldable pub rust_to_eqs_labels : Labels → Unsafe EqsLabels
rust_to_eqs_labels labels = do
  values ← defined (values_ptr labels)
  defined (
      ok (record {
        internal_ptr = some labels;
        names = if size labels == 0 then none else some (c_names labels.names);
        values = values;
        size = size labels;
        count = count labels;
      }))

-- The loop that reads the names.
unfoldable pub read_names : List CString → ℕ → Unsafe (List Name)
read_names memory zero = defined (ok [])
read_names [] (suc n) = undefined
read_names (string ∷ memory) (suc n) = do
  name ← to_str string
  check (is_valid_label_name name) (invalid_label_name name)
  names ← read_names memory n
  defined (ok (name ∷ names))

-- The chunks of the slice; none of an empty slice.
unfoldable pub slice_chunks : ℕ → List ℤ → List Entry
slice_chunks width [] = []
slice_chunks width (x ∷ xs) = chunks (length (x ∷ xs) / width) width (x ∷ xs)

unfoldable pub create_rust_labels : EqsLabels → Unsafe Labels
create_rust_labels labels = do
  defined (assert (not (is_rust labels)) already_rust_labels)
  check (elim (labels.names) [ none ↦ false | some names ↦ true ]) null_names
  check (not ((elim (labels.values) [ none ↦ true | some values ↦ false ]) && ltb 0 labels.count))
      null_values
  memory ← deref labels.names
  names ← read_names memory labels.size
  builder ← defined (new names)
  slice ← from_raw_parts labels.values (labels.count * labels.size)
  filled ← defined (add_all builder (slice_chunks labels.size slice))
  defined (finish filled)

unfoldable pub eqs_labels_to_rust : EqsLabels → Unsafe Labels
eqs_labels_to_rust labels = elim (labels.internal_ptr) [
  | some l ↦ defined (ok l)
  | none ↦ create_rust_labels labels
]

-- `map_or(-1, |p| p as i64)`.
abbrev pub position_result : Option ℕ → ℤ
position_result none = negsuc 0
position_result (some i) = pos i

-- `result` is what the pointer to the result points at.
unfoldable pub eqs_labels_position :
    Option Error → EqsLabels → Option (List ℤ) → ℕ → ℤ → Option (Called ℤ)
eqs_labels_position before labels values values_count result = call before result (do
  check (is_rust labels) not_rust_labels
  rust ← deref labels.internal_ptr
  check (values_count == size rust) (wrong_label_size (size rust) values_count)
  label ← from_raw_parts values values_count
  found ← defined (position rust label)
  defined (ok (position_result found)))

unfoldable pub eqs_labels_create :
    Option Error → Option EqsLabels → Option (Called (Option EqsLabels))
eqs_labels_create before labels = call before labels (do
  given ← check_pointer labels
  check (not (is_rust given)) already_rust_labels
  rust ← create_rust_labels given
  created ← rust_to_eqs_labels rust
  defined (ok (some created)))

unfoldable pub eqs_labels_clone :
    Option Error → EqsLabels → Option EqsLabels → Option (Called (Option EqsLabels))
eqs_labels_clone before labels clone = call before clone (do
  check (is_rust labels) not_rust_labels
  output ← deref clone
  check (not (is_rust output)) already_rust_labels
  rust ← deref labels.internal_ptr
  cloned ← rust_to_eqs_labels rust
  defined (ok (some cloned)))

abbrev pub freed : Option EqsLabels → Option EqsLabels
freed none = none
freed (some labels) = some (record labels { internal_ptr = none })

-- The other pointers are left as they are.
unfoldable pub eqs_labels_free :
    Option Error → Option EqsLabels → Option (Called (Option EqsLabels))
eqs_labels_free before labels = call before labels (defined (ok (freed labels)))
