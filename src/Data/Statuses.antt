-- ===== src/Data/Statuses.antt =====
-- What the methods of an array report.
use equistore.Prelude.{◌≡◌, ◌≢◌, ◌⊎◌, Option, some, none, ℤ}
use equistore.Errors.{Outcome, ok, err, panic, external, null_function, eqs_success}

-- How a call of a C function ends: a panic for a NULL; what the function has written, if its status
-- is a success; an error with the status, if it is not.
abbrev pub Reports : {F B : Type 0} → Option F → (F → ℤ × B) → Outcome B → Type 0
Reports none call o = o ≡ panic null_function
Reports (some f) call o =
    ((call f).0 ≡ eqs_success) × (o ≡ ok (call f).1)
    ⊎ ((call f).0 ≢ eqs_success) × (o ≡ err (external (call f).0))
