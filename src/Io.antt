-- ===== src/Io.antt =====
-- equistore-core/src/io/mod.rs: arrays in files.
--
-- The codecs are not part of this library: NPY headers and literals of Python (io/npy_header.rs copies
-- the former from the crate ndarray-npy), numbers in bytes (byteorder), and archives (zip). A value of
-- `Formats` gives them. A reader is the bytes that are left; what is written is the list of its bytes.
pub mod Labels
pub mod RoundTrip
pub mod Archives
pub mod Loading
pub mod Decimals
use equistore.Prelude.{
  ℕ, ◌≡◌, List, [], ◌∷◌, ◌++◌, length, Bool, not, ◌==◌, Option, ℤ, if◌then◌else◌, equal, codes,
}
use equistore.Errors.{
  Name, Message, Outcome, ok, err, serialization, ◌>>=◌, ◌>>◌, expect, fortran_order, extra_bytes,
  unknown_data_type, expected,
}
use equistore.Labels.{name_dec}
use equistore.Data.{Arrays, shape, data_slice}

pub data Endianness : Type 0 where
  big : Endianness
  little : Endianness

-- What the code asks of a literal.
pub data PyValue (Value : Type 0) : Type 0 where
  string : Name → PyValue Value
  tuple : List Value → PyValue Value
  list : List Value → PyValue Value
  other : PyValue Value

pub record Header (Value : Type 0) : Type 0 where
  pub type_descriptor : Value
  pub is_fortran : Bool
  pub dimensions : List ℕ

pub record Formats (Float : Type 0) : Type 1 where
  pub Byte : Type 0
  pub Value : Type 0
  pub view : Value → PyValue Value
  -- `parse` of a text
  pub parse : Name → Option Value
  -- `Header::from_reader` and `Header::write`
  pub from_reader : List Byte → Outcome (Header Value × List Byte)
  pub write_header : Header Value → Outcome (List Byte)
  -- the order of the bytes on this machine
  pub native : Endianness
  pub write_i32 : Endianness → ℤ → List Byte
  pub read_i32_into : Endianness → ℕ → List Byte → Outcome (List ℤ × List Byte)
  pub write_f64 : Endianness → Float → List Byte
  pub read_f64_into : Endianness → ℕ → List Byte → Outcome (List Float × List Byte)

-- `if !test { return Err(Error::Serialization(..)) }`.
abbrev pub check_format : Bool → Message → Outcome (Unit {0})
check_format test m = if test then ok tt else err (serialization m)

-- The literal for 64-bit floating points in the given order of the bytes.
abbrev pub float_type : Endianness → Name
float_type Endianness.little = codes "<f8"
float_type Endianness.big = codes ">f8"

module _ {Float : Type 0} (F : Formats Float) where
  unfoldable pub check_for_extra_bytes : List F.Byte → Outcome (Unit {0})
  check_for_extra_bytes rest = check_format (length rest == 0) (extra_bytes (length rest))

  -- The match on the type descriptor.
  unfoldable pub float_endianness : F.Value → Outcome Endianness
  float_endianness descriptor = elim (F.view descriptor) [
    | string s ↦
        if equal name_dec s (float_type Endianness.little)
        then ok Endianness.little
        else if equal name_dec s (float_type Endianness.big)
        then ok Endianness.big
        else err (serialization unknown_data_type)
    | tuple values ↦ err (serialization unknown_data_type)
    | list values ↦ err (serialization unknown_data_type)
    | other ↦ err (serialization unknown_data_type)
  ]

  unfoldable pub write_floats : List Float → List F.Byte
  write_floats [] = []
  write_floats (value ∷ values) = F.write_f64 F.native value ++ write_floats values

module _ (X : Arrays) (F : Formats X.Float) where
  -- `fill` writes the elements through the pointer of `data_mut`.
  unfoldable pub read_data :
      (X.Array → List X.Float → X.Array)
      → (List ℕ → Outcome X.Array)
      → List F.Byte
      → Outcome (X.Array × List ℕ)
  read_data fill create_array reader = do
    (header, rest) ← F.from_reader reader
    check_format (not header.is_fortran) fortran_order
    array ← create_array header.dimensions
    endianness ← float_endianness F header.type_descriptor
    slice ← data_slice X array
    (values, more) ← F.read_f64_into endianness (length slice) rest
    check_for_extra_bytes F more
    ok (fill array values, header.dimensions)

  unfoldable pub write_data : X.Array → Outcome (List F.Byte)
  write_data array = do
    type_descriptor ← expect (F.parse (codes "'" ++ float_type F.native ++ codes "'")) expected
    s ← shape X array
    header ←
        F.write_header
          (record { type_descriptor = type_descriptor; is_fortran = Bool.false; dimensions = s })
    values ← data_slice X array
    ok (header ++ write_floats F values)
