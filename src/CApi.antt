-- ===== src/CApi.antt =====
-- equistore-core/src/c_api: what the functions of the C API have in common.
--
-- A pointer that may be NULL is an option. Where the code reads memory that is not there, the
-- behaviour is undefined, which is neither an error nor a panic. A C string is its text, or `none` if
-- it is not UTF-8.
pub mod Labels
pub mod Creation
pub mod Handles
pub mod Heap
pub mod Blocks
pub mod Tensors
pub mod Shaped
pub mod Calls
pub mod TensorCalls
pub mod NewTensors
pub mod Steps
pub mod Ownership
pub mod Returns
pub mod Origins
pub mod Named
pub mod Files
pub mod Matches
use equistore.Prelude.{
  ℕ, ◌≡◌, refl, Bool, true, false, ◌==◌, List, [], ◌∷◌, length, take, leb, Option, none, some, ℤ,
  if◌then◌else◌,
}
use equistore.Errors.{
  Name, Message, Error, Outcome, ok, err, panic, guard, assert, expect, catch_unwind,
  invalid_parameter, null_pointer, invalid_utf8,
}

pub data Unsafe {ℓ} (A : Type ℓ) : Type ℓ where
  undefined : Unsafe A
  defined : Outcome A → Unsafe A

infixl 5 ◌>>=◌ ◌>>◌
abbrev pub ◌>>=◌ {ℓ κ} : {A : Type ℓ} {B : Type κ} → Unsafe A → (A → Unsafe B) → Unsafe B
undefined >>= next = undefined
defined (panic m) >>= next = defined (panic m)
defined (err e) >>= next = defined (err e)
defined (ok a) >>= next = next a

abbrev pub ◌>>◌ {κ} : {B : Type κ} → Unsafe (Unit {0}) → Unsafe B → Unsafe B
check >> rest = check >>= λ _. rest

-- `return Err(Error::InvalidParameter(..))` unless the test holds.
abbrev pub check : Bool → Message → Unsafe (Unit {0})
check test m = defined (guard test m)

-- `check_pointers!`, which gives what the pointer points at.
unfoldable pub check_pointer {ℓ} : {A : Type ℓ} → Option A → Unsafe A
check_pointer none = defined (err (invalid_parameter null_pointer))
check_pointer (some a) = defined (ok a)

-- `*pointer` without a check.
unfoldable pub deref {ℓ} : {A : Type ℓ} → Option A → Unsafe A
deref none = undefined
deref (some a) = defined (ok a)

abbrev pub CString : Type 0
CString = Option Name

-- `CStr::from_ptr(..).to_str().expect(..)`.
unfoldable pub to_str : CString → Unsafe Name
to_str string = defined (expect string invalid_utf8)

-- `std::slice::from_raw_parts`: a NULL pointer with no elements is read as the empty slice.
unfoldable pub from_raw_parts {ℓ} : {A : Type ℓ} → Option (List A) → ℕ → Unsafe (List A)
from_raw_parts none n = if n == 0 then defined (ok []) else undefined
from_raw_parts (some memory) n =
    if leb n (length memory) then defined (ok (take n memory)) else undefined

-- What a function gives to its caller: its status, the error that the thread keeps, and what it has
-- written.
abbrev pub Called {ℓ} : Type ℓ → Type ℓ
Called A = ℤ × Option Error × A

abbrev written {ℓ} : {A : Type ℓ} → A → Outcome A → A
written old (ok new) = new
written old (err e) = old
written old (panic m) = old

abbrev pub with_status {ℓ} : {A : Type ℓ} → Option (ℤ × Option Error) → A → Option (Called A)
with_status none a = none
with_status (some (status, kept)) a = some (status, kept, a)

-- `catch_unwind` around a body that writes only where it succeeds, over `old`. There is no result where
-- the behaviour is undefined, or a panic leaves the function.
unfoldable pub call {ℓ} : {A : Type ℓ} → Option Error → A → Unsafe A → Option (Called A)
unfolding catch_unwind
call before old undefined = none
call before old (defined o) = with_status (catch_unwind before o) (written old o)
