-- ===== src/Bindings/Labels.antt =====
-- equistore/src/labels.rs: labels of the Rust bindings, which are handles of the C API.
use equistore.Prelude.{
  ℕ, ◌+◌, ◌*◌, ◌/◌, Bool, true, false, not, ◌==◌, List, [], ◌∷◌, ◌++◌, length, Option, none, some,
  ℤ, ℤ.pos, ℤ.negsuc, equal, if◌then◌else◌, n_unique, codes,
}
use equistore.Errors.{
  Name, Error, Outcome, ok, panic, assert, division_by_zero, repeated_names, null_internal,
  wrong_entry_size, wrong_position_size, zero_chunk_size,
}
use equistore.Labels.{Entry, LabelValue, chunks, slice, name_dec, names_dec, entry_dec}
use equistore.Labels.Builder.{convert, check_c_strings}
use equistore.CApi.{Unsafe, defined, ◌>>=◌, ◌>>◌, CString, to_str, from_raw_parts, deref}
use equistore.CApi.Labels.{
  EqsLabels, is_rust, c_names, eqs_labels_create, eqs_labels_clone, eqs_labels_position,
}
use equistore.Bindings.{BindingError, expect_status}

-- `eqs_labels_t::null`.
abbrev pub null_labels : EqsLabels
null_labels = record { internal_ptr = none; names = none; values = none; size = 0; count = 0 }

pub record Labels : Type 0 where
  pub raw : EqsLabels

pub record LabelsBuilder : Type 0 where
  pub names : List Name
  pub values : List LabelValue

unfoldable pub from_raw : EqsLabels → Unsafe Labels
from_raw raw = do defined (assert (is_rust raw) null_internal); defined (ok (record { raw = raw }))

unfoldable pub new : List Name → Outcome LabelsBuilder
new names =
    if n_unique name_dec names == length names
    then ok (record { names = names; values = [] })
    else panic repeated_names

unfoldable pub size : LabelsBuilder → ℕ
size b = length b.names

-- `into` is the conversion of the type `T`.
unfoldable pub add :
    {T : Type 0} → (T → Outcome LabelValue) → LabelsBuilder → List T → Unsafe LabelsBuilder
unfolding size
add into b entry = do
  defined (assert (size b == length entry) (wrong_entry_size (length entry) (size b)))
  values ← defined (convert into entry)
  defined (ok (record b { values = b.values ++ values }))

abbrev pub divided : ℕ → ℕ → Outcome ℕ
divided n m = if m == 0 then panic division_by_zero else ok (n / m)

-- `result.try_into().ok()`.
abbrev pub try_usize : ℤ → Option ℕ
try_usize (pos n) = some n
try_usize (negsuc n) = none

-- `before` is the error that the thread keeps, and `last_rust` that of the bindings.
module _ (before : Option Error) (last_rust : BindingError) where
  unfoldable pub finish : LabelsBuilder → Unsafe Labels
  unfolding size
  finish b = do
    defined (check_c_strings b.names)
    count ← defined (divided (length b.values) (size b))
    created ← expect_status last_rust (
        eqs_labels_create before (
          some (record {
            internal_ptr = none;
            names = some (c_names b.names);
            values = some b.values;
            size = size b;
            count = count;
          })))
    raw ← deref created
    from_raw raw

  -- The loop over the entries of `Labels::new`.
  unfoldable pub add_entries :
      {T : Type 0} → (T → Outcome LabelValue) → LabelsBuilder → List (List T) → Unsafe LabelsBuilder
  add_entries into b [] = defined (ok b)
  add_entries into b (entry ∷ entries) = do b' ← add into b entry; add_entries into b' entries

  -- `Labels::new`.
  unfoldable pub new_labels :
      {T : Type 0} → (T → Outcome LabelValue) → List Name → List (List T) → Unsafe Labels
  unfolding add_entries
  new_labels into names values = do
    builder ← defined (new names)
    filled ← add_entries into builder values
    finish filled

  unfoldable pub empty : List Name → Unsafe Labels
  empty names = do builder ← defined (new names); finish builder

  unfoldable pub single : Unsafe Labels
  single = do
    builder ← defined (new (codes "_" ∷ []))
    filled ← add ok builder (pos 0 ∷ [])
    finish filled

  unfoldable pub clone_labels : Labels → Unsafe Labels
  clone_labels labels = do
    cloned ← expect_status last_rust (eqs_labels_clone before labels.raw (some null_labels))
    raw ← deref cloned
    from_raw raw

  unfoldable pub position : Labels → Entry → Unsafe (Option ℕ)
  position labels value = do
    defined (assert (length value == labels.raw.size) wrong_position_size)
    result ←
        expect_status last_rust
          (eqs_labels_position before labels.raw (some value) (length value) (pos 0))
    defined (ok (try_usize result))

  unfoldable pub contains : Labels → Entry → Unsafe Bool
  contains labels label = do
    found ← position labels label
    defined (ok (elim found [ none ↦ false | some i ↦ true ]))

unfoldable pub strings : List CString → Unsafe (List Name)
strings [] = defined (ok [])
strings (string ∷ more) = do name ← to_str string; names ← strings more; defined (ok (name ∷ names))

-- `Labels::names`.
unfoldable pub names_of_labels : Labels → Unsafe (List Name)
unfolding strings
names_of_labels labels = do names ← from_raw_parts labels.raw.names labels.raw.size; strings names

abbrev pub count : Labels → ℕ
count labels = labels.raw.count

unfoldable pub is_empty : Labels → Bool
is_empty labels = count labels == 0

-- `Labels::values`.
unfoldable pub values_of : Labels → Unsafe (List LabelValue)
values_of labels = from_raw_parts labels.raw.values (labels.raw.count * labels.raw.size)

-- `Labels::iter`, run to its end.
unfoldable pub iter : Labels → Unsafe (List Entry)
iter labels = do
  values ← values_of labels
  defined (assert (not (labels.raw.size == 0)) zero_chunk_size)
  defined (ok (chunks (length values / labels.raw.size) labels.raw.size values))

unfoldable pub index : Labels → ℕ → Unsafe Entry
index labels i = do
  values ← values_of labels
  defined (slice values (i * labels.raw.size) ((i + 1) * labels.raw.size))

-- `PartialEq for Labels`.
unfoldable pub labels_eq : Labels → Labels → Unsafe Bool
labels_eq a b = do
  names ← names_of_labels a
  others ← names_of_labels b
  if equal names_dec names others
      then (do
        values ← values_of a
        other_values ← values_of b
        defined (ok (equal entry_dec values other_values)))
      else defined (ok false)
