-- ===== src/Bindings.antt =====
-- equistore/src/errors.rs: how the Rust bindings read the statuses of the C functions.
pub mod Labels
pub mod Table
pub mod Making
pub mod Tensor
pub mod Selection
use equistore.Prelude.{
  ℕ, suc, ◌≡◌, Bool, true, false, Option, none, some, ℤ, ℤ.pos, ℤ.negsuc, if◌then◌else◌, equal,
  ℤ_discrete,
}
use equistore.Errors.{Error, Outcome, ok, panic, eqs_success, failed_call}
use equistore.CApi.{Unsafe, undefined, defined, Called}

-- `RUST_FUNCTION_FAILED_ERROR_CODE`, which is -4242.
abbrev pub rust_function_failed : ℤ
rust_function_failed = negsuc 4241

-- `Error` of the bindings; the message is that of an error of the core, or the fixed text.
pub record BindingError : Type 0 where
  pub code : Option ℤ
  pub message : Option Error

abbrev pub is_positive : ℤ → Bool
is_positive (pos (suc n)) = true
is_positive _ = false

-- `check_status`: `none` is `Ok(())`. `last` is what `eqs_last_error` gives, and `last_rust` the last
-- error of a Rust function.
unfoldable pub check_status : ℤ → Option Error → BindingError → Option BindingError
check_status status last last_rust =
    if equal ℤ_discrete status eqs_success
    then none
    else if is_positive status
    then some (record { code = some status; message = last })
    else if equal ℤ_discrete status rust_function_failed
    then some last_rust
    else some (record { code = some status; message = none })

-- `check_status(..).expect(..)` on a call.
unfoldable pub expect_status {ℓ} : {A : Type ℓ} → BindingError → Option (Called A) → Unsafe A
unfolding check_status
expect_status last_rust none = undefined
expect_status last_rust (some (status, kept, a)) = elim (check_status status kept last_rust) [
  | none ↦ defined (ok a)
  | some e ↦ defined (panic failed_call)
]
