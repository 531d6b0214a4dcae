-- ===== src/Errors.antt =====
-- equistore-core/src/lib.rs (`Error`) and equistore-core/src/c_api/status.rs: how an operation
-- ends, and the status codes that the C API reports.
--
-- An error's text is its format string, for which a constructor of `Message` stands, with the values
-- that are printed into it. A panic (`assert!`, `expect`, an index out of range) is a third way to
-- end, which `catch_unwind` turns into an error at the border of the C API.
use equistore.Prelude.{
  ℕ, ◌≡◌, refl, List, [], ◌∷◌, Option, some, none, ℤ, ℤ.pos, Bool, true, false, ◌||◌, ◌==◌,
  if◌then◌else◌,
}

-- A string, as the code points of its characters.
abbrev pub Name : Type 0
Name = List ℕ

-- `CString::new` fails on a string with a null character.
unfoldable pub has_null : Name → Bool
has_null [] = false
has_null (c ∷ cs) = if c == 0 then true else has_null cs

abbrev pub any_null : List Name → Bool
any_null [] = false
any_null (name ∷ names) = has_null name || any_null names

pub data Message : Type 0 where
  -- labels.rs
  value_out_of_range : Message
  invalid_label_name : Name → Message
  repeated_label_name : Message
  wrong_entry_size : ℕ → ℕ → Message
  duplicate_entry : List ℤ → ℕ → Message
  invalid_c_string : Message
  leftover_values : Message
  wrong_position_size : Message
  zero_chunk_size : Message
  out_of_range : Message
  -- data.rs
  null_function : Message
  -- blocks.rs
  wrong_dimensions : ℕ → ℕ → Message
  wrong_samples : ℕ → ℕ → Message
  repeated_component_names : Message
  wrong_component : ℕ → ℕ → ℕ → Message
  wrong_properties : ℕ → ℕ → ℕ → Message
  component_not_single : ℕ → List Name → ℕ → Message
  missing_component : List Name → Message
  gradient_exists : Name → Message
  different_origins : ℕ → ℕ → Message
  gradient_named_values : Message
  no_gradient_samples : Message
  first_not_sample : Name → Message
  too_few_components : Message
  components_mismatch : ℕ → List Name → Message
  -- tensor/
  wrong_blocks_count : ℕ → ℕ → Message
  different_sample_names : List Name → List Name → Message
  different_components_count : ℕ → ℕ → Message
  different_component_names : List Name → List Name → Message
  different_property_names : List Name → List Name → Message
  different_gradients : Message
  missing_gradient : Name → Message
  selection_not_single : ℕ → Message
  not_in_keys : Name → Message
  not_implemented : Message
  components_differ : Message
  properties_differ : Message
  expected : Message
  -- c_api/
  null_pointer : Message
  invalid_utf8 : Message
  not_rust_labels : Message
  already_rust_labels : Message
  null_names : Message
  null_values : Message
  wrong_label_size : ℕ → ℕ → Message
  allocated_labels : Message
  missing_gradients : Name → Message
  wrong_axis : ℕ → ℕ → Message
  same_block : Message
  wrong_indexes_size : ℕ → ℕ → Message
  buffer_too_small : ℕ → ℕ → Message
  fortran_order : Message
  not_one_dimension : Message
  invalid_dtype : Message
  extra_bytes : ℕ → Message
  unknown_data_type : Message
  zip_error : Name → Message
  zip_io_error : Message
  division_by_zero : Message
  repeated_names : Message
  null_internal : Message
  failed_call : Message

-- Whether the text of a message has a null character. Only the names that are printed into it can.
abbrev pub prints_null : Message → Bool
prints_null (invalid_label_name name) = has_null name
prints_null (component_not_single n names i) = any_null names
prints_null (missing_component names) = any_null names
prints_null (gradient_exists parameter) = has_null parameter
prints_null (first_not_sample name) = has_null name
prints_null (components_mismatch i names) = any_null names
prints_null (different_sample_names names others) = any_null names || any_null others
prints_null (different_component_names names others) = any_null names || any_null others
prints_null (different_property_names names others) = any_null names || any_null others
prints_null (missing_gradient parameter) = has_null parameter
prints_null (not_in_keys name) = has_null name
prints_null (missing_gradients parameter) = has_null parameter
prints_null (zip_error path) = has_null path
prints_null _ = false

pub data Error : Type 0 where
  invalid_parameter : Message → Error
  buffer_size : Message → Error
  io : Message → Error
  serialization : Message → Error
  external : ℤ → Error
  internal : Message → Error

pub data Outcome {ℓ} (A : Type ℓ) : Type ℓ where
  ok : A → Outcome A
  err : Error → Outcome A
  panic : Message → Outcome A

-- `?`: an error or a panic ends the function.
infixl 5 ◌>>=◌ ◌>>◌
abbrev pub ◌>>=◌ {ℓ κ} : {A : Type ℓ} {B : Type κ} → Outcome A → (A → Outcome B) → Outcome B
panic m >>= next = panic m
err e >>= next = err e
ok a >>= next = next a

abbrev pub ◌>>◌ {κ} : {B : Type κ} → Outcome (Unit {0}) → Outcome B → Outcome B
check >> rest = check >>= λ _. rest

-- `if !test { return Err(Error::InvalidParameter(..)) }`.
abbrev pub guard : Bool → Message → Outcome (Unit {0})
guard true m = ok tt
guard false m = err (invalid_parameter m)

-- `assert!(test)`.
abbrev pub assert : Bool → Message → Outcome (Unit {0})
assert true m = ok tt
assert false m = panic m

-- `expect` on an option.
abbrev pub expect {ℓ} : {A : Type ℓ} → Option A → Message → Outcome A
expect none m = panic m
expect (some a) m = ok a

-- `expect` on a result.
abbrev pub expect_ok {ℓ} : {A : Type ℓ} → Outcome A → Outcome A
expect_ok (ok a) = ok a
expect_ok (err e) = panic expected
expect_ok (panic m) = panic m

-- What follows `?` goes on only from a value.
pub >>=-eq-ok {κ ℓ} :
    {B : Type κ} {A : Type ℓ} (first : Outcome B) (next : B → Outcome A) {result : A}
    → (first >>= next) ≡ ok result
    → (value : B) × (first ≡ ok value) × (next value ≡ ok result)
>>=-eq-ok (panic m) next e = cc
>>=-eq-ok (err e) next h = cc
>>=-eq-ok (ok value) next e = (value, refl, e)

-- c_api/status.rs.
abbrev pub eqs_success : ℤ
eqs_success = pos 0

-- `From<Error> for eqs_status_t`.
unfoldable pub to_status : Error → ℤ
to_status (invalid_parameter m) = pos 1
to_status (io m) = pos 2
to_status (serialization m) = pos 3
to_status (buffer_size m) = pos 254
to_status (external status) = status
to_status (internal m) = pos 255

abbrev pub text_has_null : Error → Bool
text_has_null (invalid_parameter m) = prints_null m
text_has_null (buffer_size m) = prints_null m
text_has_null (io m) = prints_null m
text_has_null (serialization m) = prints_null m
text_has_null (external status) = false
text_has_null (internal m) = prints_null m

-- The conversion also stores the text as a C string. Where it has a null character this panics, and as
-- the conversion is done behind the catch the panic leaves the function: there is no status.
abbrev pub stored : Error → Option (ℤ × Option Error)
stored e = if text_has_null e then none else some (to_status e, some e)

-- The status, and the error whose text the thread keeps for `eqs_last_error`: `before` is the one
-- that it keeps so far.
unfoldable pub catch_unwind {ℓ} :
    {A : Type ℓ} → Option Error → Outcome A → Option (ℤ × Option Error)
catch_unwind before (ok a) = some (eqs_success, before)
catch_unwind before (err e) = stored e
catch_unwind before (panic m) = stored (internal m)

-- Whether the outcome is a failure whose text has a null character.
abbrev pub fails_with_null {ℓ} : {A : Type ℓ} → Outcome A → Bool
fails_with_null (ok a) = false
fails_with_null (err e) = text_has_null e
fails_with_null (panic m) = prints_null m

-- The error that a failure is stored as.
abbrev pub IsFailure {ℓ} : {A : Type ℓ} → Outcome A → Error → Type 0
IsFailure (ok a) e = ⊥
IsFailure (err e') e = e ≡ e'
IsFailure (panic m) e = e ≡ internal m
