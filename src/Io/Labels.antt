-- ===== src/Io/Labels.antt =====
-- equistore-core/src/io/labels.rs.
use equistore.Prelude.{
  ◌*◌, ◌/◌, List, [], ◌∷◌, ◌++◌, length, Bool, true, false, not, ◌==◌, Option, none, some,
  if◌then◌else◌, equal, codes, get_elem?,
}
use equistore.Errors.{
  Name, Outcome, ok, err, serialization, ◌>>=◌, ◌>>◌, expect, fortran_order, not_one_dimension,
  invalid_dtype, expected, out_of_range,
}
use equistore.Labels.{Entry, Labels, name_dec, iter, count, chunks}
use equistore.Labels.Builder.{build}
use equistore.Io.{
  Endianness, big, little, PyValue, string, tuple, list, Formats, check_format,
  check_for_extra_bytes,
}

-- The literal for 32-bit integers in the given order of the bytes.
abbrev pub integer_type : Endianness → Name
integer_type little = codes "<i4"
integer_type big = codes ">i4"

-- The endianness that a type names.
unfoldable pub type_endianness : Name → Option Endianness
type_endianness typ =
    if equal name_dec typ (integer_type little)
    then some little
    else if equal name_dec typ (integer_type big)
    then some big
    else none

abbrev pub same_endianness : Endianness → Endianness → Bool
same_endianness big big = true
same_endianness big little = false
same_endianness little big = false
same_endianness little little = true

-- The type has the endianness of the first one: the endianness from here on.
unfoldable pub next_endianness : Option Endianness → Name → Outcome Endianness
unfolding type_endianness
next_endianness endianness typ = elim (type_endianness typ) [
  | none ↦ err (serialization invalid_dtype)
  | some e ↦ elim endianness [
    | none ↦ ok e
    | some first ↦ if same_endianness e first then ok first else err (serialization invalid_dtype)
  ]
]

-- The elements of a list.
abbrev pub as_list : {Value : Type 0} → PyValue Value → Outcome (List Value)
as_list (list elements) = ok elements
as_list _ = err (serialization invalid_dtype)

-- The strings of a pair.
abbrev pub as_strings : {Value : Type 0} → PyValue Value → PyValue Value → Outcome (Name × Name)
as_strings (string name) (string typ) = ok (name, typ)
as_strings _ _ = err (serialization invalid_dtype)

module _ {Float : Type 0} (F : Formats Float) where
  abbrev pub name_and_type : PyValue F.Value → Outcome (Name × Name)
  name_and_type (tuple (name ∷ typ ∷ [])) = as_strings (F.view name) (F.view typ)
  name_and_type _ = err (serialization invalid_dtype)

  -- The loop over the elements of the list.
  unfoldable pub check_elements :
      Option Endianness → List F.Value → Outcome (List Name × Option Endianness)
  unfolding next_endianness
  check_elements endianness [] = ok ([], endianness)
  check_elements endianness (element ∷ elements) = do
    (name, typ) ← name_and_type (F.view element)
    next ← next_endianness endianness typ
    (names, last) ← check_elements (some next) elements
    ok (name ∷ names, last)

  unfoldable pub check_type_descriptor : F.Value → Outcome (List Name × Endianness)
  unfolding check_elements
  check_type_descriptor desc = do
    elements ← as_list (F.view desc)
    (names, endianness) ← check_elements none elements
    found ← expect endianness expected
    ok (names, found)

  unfoldable pub read_npy_labels : List F.Byte → Outcome Labels
  unfolding check_type_descriptor check_for_extra_bytes
  read_npy_labels reader = do
    (header, rest) ← F.from_reader reader
    check_format (not header.is_fortran) fortran_order
    check_format (length header.dimensions == 1) not_one_dimension
    (names, endianness) ← check_type_descriptor header.type_descriptor
    n ← expect (get_elem? header.dimensions 0) out_of_range
    (values, more) ← F.read_i32_into endianness (n * length names) rest
    check_for_extra_bytes F more
    build names (chunks (length values / length names) (length names) values)

  -- The text of the type descriptor, from the first name on.
  unfoldable pub descriptor_text : Endianness → List Name → Name
  descriptor_text e [] = codes "]"
  descriptor_text e (name ∷ names) =
      codes "('"
      ++ (name ++ (codes "', '" ++ (integer_type e ++ (codes "'), " ++ descriptor_text e names))))

  unfoldable pub write_values : Entry → List F.Byte
  write_values [] = []
  write_values (value ∷ values) = F.write_i32 F.native value ++ write_values values

  unfoldable pub write_entries : List Entry → List F.Byte
  unfolding write_values
  write_entries [] = []
  write_entries (entry ∷ entries) = write_values entry ++ write_entries entries

  unfoldable pub write_npy_labels : Labels → Outcome (List F.Byte)
  unfolding descriptor_text write_entries
  write_npy_labels labels = do
    type_descriptor ← expect (F.parse (codes "[" ++ descriptor_text F.native labels.names)) expected
    header ← F.write_header (record {
      type_descriptor = type_descriptor;
      is_fortran = false;
      dimensions = count labels ∷ [];
    })
    entries ← iter labels
    ok (header ++ write_entries entries)
