-- ===== src/Data.antt =====
-- equistore-core/src/data.rs: the registry of data origins, and the arrays that users provide.
--
-- An `eqs_array_t` is a table of C functions over user data, and the functions are not part of this
-- library: a value of `Arrays` gives them. A function that is `NULL` is `none`; the others return
-- their status and what they write through their pointers. A function that changes its array in
-- place returns the array after the call.
pub mod Origins
pub mod Statuses
use mathlib.Core.List.{lookup}
use equistore.Prelude.{
  ℕ, suc, List, [], ◌∷◌, ◌++◌, length, get_elem?, Option, none, some, ltb, take, ◌*◌, if◌then◌else◌,
  enumerate, ℤ, ℤ_discrete, equal, codes,
}
use equistore.Errors.{
  Name, Outcome, ok, err, panic, external, expect, eqs_success, null_function, out_of_range, ◌>>=◌,
}
use equistore.Labels.{name_dec}

-- The registry at the start.
abbrev pub initial_origins : List Name
initial_origins = codes "unregistered origin" ∷ []

-- `register_data_origin`: the origin, and the registry after the call.
unfoldable pub register_data_origin : List Name → Name → ℕ × List Name
register_data_origin registered name = elim (lookup name_dec name (enumerate 0 registered)) [
  | some i ↦ (i, registered)
  | none ↦ (length registered, registered ++ name ∷ [])
]

-- `get_data_origin`.
unfoldable pub get_data_origin : List Name → ℕ → Outcome Name
get_data_origin registered id =
    if ltb id (length registered)
    then expect (get_elem? registered id) out_of_range
    else expect (get_elem? registered 0) out_of_range

-- `eqs_sample_mapping_t`.
pub record SampleMapping : Type 0 where
  pub input : ℕ
  pub output : ℕ

pub record Arrays : Type 1 where
  pub Array : Type 0
  pub Float : Type 0
  pub origin_fn : Array → Option (ℤ × ℕ)
  -- the memory from the pointer on
  pub data_fn : Array → Option (ℤ × List Float)
  pub shape_fn : Array → Option (ℤ × List ℕ)
  pub reshape_fn : Array → Option (List ℕ → ℤ × Array)
  pub swap_axes_fn : Array → Option (ℕ → ℕ → ℤ × Array)
  pub create_fn : Array → Option (List ℕ → ℤ × Array)
  pub copy_fn : Array → Option (ℤ × Array)
  -- the input, the samples to move, and the start and the end of the properties
  pub move_samples_from_fn : Array → Option (Array → List SampleMapping → ℕ → ℕ → ℤ × Array)

-- `if !status.is_success() { return Err(Error::External { .. }) }`.
unfoldable pub checked : {B : Type 0} → ℤ × B → Outcome B
checked (status, b) = if equal ℤ_discrete status eqs_success then ok b else err (external status)

-- `expect("... function is NULL")`.
unfoldable pub function : {F : Type 0} → Option F → Outcome F
function none = panic null_function
function (some f) = ok f

-- The number of elements, from the shape.
unfoldable pub elements : List ℕ → ℕ
elements [] = 1
elements (s ∷ shape) = s * elements shape

module _ (X : Arrays) where
  open X use {
    Array, Float, origin_fn, data_fn, shape_fn, reshape_fn, swap_axes_fn, create_fn, copy_fn,
    move_samples_from_fn,
  }

  -- `eqs_array_t::origin`.
  unfoldable pub origin : Array → Outcome ℕ
  unfolding checked function
  origin a = do f ← function (origin_fn a); checked f

  -- `eqs_array_t::shape`.
  unfoldable pub shape : Array → Outcome (List ℕ)
  unfolding checked function
  shape a = do f ← function (shape_fn a); checked f

  -- `eqs_array_t::data` and `data_mut`: a slice of as many elements as the shape says.
  unfoldable pub data_slice : Array → Outcome (List Float)
  unfolding checked function elements
  data_slice a = do
    s ← shape a
    f ← function (data_fn a)
    memory ← checked f
    ok (take (elements s) memory)

  -- `eqs_array_t::reshape`.
  unfoldable pub reshape : Array → List ℕ → Outcome Array
  unfolding checked function
  reshape a s = do f ← function (reshape_fn a); checked (f s)

  -- `eqs_array_t::swap_axes`.
  unfoldable pub swap_axes : Array → ℕ → ℕ → Outcome Array
  unfolding checked function
  swap_axes a axis_1 axis_2 = do f ← function (swap_axes_fn a); checked (f axis_1 axis_2)

  -- `eqs_array_t::create`.
  unfoldable pub create : Array → List ℕ → Outcome Array
  unfolding checked function
  create a s = do f ← function (create_fn a); checked (f s)

  -- `eqs_array_t::try_clone`.
  unfoldable pub try_clone : Array → Outcome Array
  unfolding checked function
  try_clone a = do f ← function (copy_fn a); checked f

  -- `eqs_array_t::move_samples_from`.
  unfoldable pub move_samples_from : Array → Array → List SampleMapping → ℕ → ℕ → Outcome Array
  unfolding checked function
  move_samples_from a input samples start stop = do
    f ← function (move_samples_from_fn a)
    checked (f input samples start stop)
