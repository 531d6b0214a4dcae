-- ===== src/CApi/Handles.antt =====
-- equistore-core/src/c_api/labels.rs: what the functions on labels give to C.
use equistore.Prelude.{
  ℕ, ◌<◌, ◌≡◌, ◌≢◌, ◌∙◌, some-injective, ◌↔◌, refl, sym, ap, inl, inr, true, false, Bool-cases,
  ==_iff, ◌==◌, leb_of_le, List, length, Option, none, some, ℤ, ℤ.pos, ℤ.negsuc, flatten, arith,
  if◌then◌else◌, get_elem?, get_elem?_of_lt, All-get_elem?,
}
use equistore.Errors.{Name, Error, Outcome, ok, err, panic, to_status, catch_unwind, eqs_success}
use equistore.Labels.{Entry, Labels, IsLabels, size, count}
use equistore.Labels.Finish.{CanBuild}
use equistore.Labels.Texts.{IsPrintable}
use equistore.Labels.Lookup.{count-rows, index-rows, position-rows}
use equistore.CApi.{defined, check_pointer, deref, from_raw_parts, Called, call}
use equistore.CApi.Labels.{
  EqsLabels, c_names, is_rust, values_ptr, rust_to_eqs_labels, eqs_labels_position,
  eqs_labels_create, position_result,
}
use equistore.CApi.Creation.{IsGiven, IsHandle, create_rust_labels-total, take_all}

module _ {names : List Name} {rows : List Entry} {rust : Labels}
    (v : IsLabels names rows rust) where
  values_ptr-rows : values_ptr rust ≡ ok (if length rows == 0 then none else some (flatten rows))
  unfolding values_ptr
  values_ptr-rows = elim (Bool-cases (length rows == 0)) [
    | inl empty ↦ rw (count-rows v, empty) refl
    | inr some_rows ↦
        let (row, first) = get_elem?_of_lt rows 0 (ground arith) in
        let wide : length row ≡ length names = All-get_elem? _ rows 0 v.widths first in
        let named : (length names == 0) ≡ false = elim (Bool-cases (length names == 0)) [
          | inl e ↦ absurd (ground (arith, ap length (v.nameless ((==_iff _ _).0 e))))
          | inr e ↦ e
        ] in
        let named' : (size rust == 0) ≡ false = rw v.same_names named in
        let (x, there) = get_elem?_of_lt row 0 (ground (arith, wide)) in
        rw (count-rows v, some_rows, named', index-rows v 0 first, there, v.values) refl
  ]

  pub rust_to_eqs_labels-IsHandle :
      (l : EqsLabels) × (rust_to_eqs_labels rust ≡ defined (ok l)) × IsHandle names rows l
  unfolding rust_to_eqs_labels
  rust_to_eqs_labels-IsHandle = (
    record {
      internal_ptr = some rust;
      names = if size rust == 0 then none else some (c_names rust.names);
      values = if length rows == 0 then none else some (flatten rows);
      size = size rust;
      count = count rust;
    },
    rw values_ptr-rows refl,
    record {
      rust = rust;
      internal = refl;
      labels = v;
      same_size = ap length v.same_names;
      same_count = count-rows v;
      same_names = rw v.same_names refl;
      same_values = refl;
    },
  )

-- The error that a body ends with instead of a value.
abbrev pub IsRefused {ℓ} : {A : Type ℓ} → Option (Called A) → A → Type ℓ
IsRefused called old = (e : Error) × (called ≡ some (to_status e, some e, old))

pub call-ok {ℓ} :
    {A : Type ℓ} (before : Option Error) (old new : A)
    → call before old (defined (ok new)) ≡ some (eqs_success, before, new)
unfolding call catch_unwind
call-ok before old new = refl

pub call-failed {ℓ} :
    {A : Type ℓ} (before : Option Error) (old : A) (o : Outcome A)
    → ((a : A) → o ≢ ok a)
    → IsPrintable o
    → IsRefused (call before old (defined o)) old
unfolding call catch_unwind
call-failed before old (ok a) h t = absurd (h a refl)
call-failed before old (err e) h t = (e, rw t refl)
call-failed before old (panic m) h t = (Error.internal m, rw t refl)

position_result_iff :
    {P : ℕ → Type 0} (o : Option ℕ)
    → ((i : ℕ) → (o ≡ some i) ↔ P i)
    → ((i : ℕ) → (position_result o ≡ pos i) ↔ P i)
      × ((position_result o ≡ negsuc 0) ↔ ((i : ℕ) → ¬ P i))
position_result_iff none iff = (
  λ i. (λ e. cc, λ p. absurd (ground (arith, (iff i).1 p))),
  (λ _ i p. ground (arith, (iff i).1 p), λ _. refl),
)
position_result_iff {P} (some j) iff = (
  λ i. (λ e. (iff i).0 (ap some (cc e)), λ p. ap pos (some-injective _ _ ((iff i).1 p))),
  (λ e. cc, λ no. absurd (no j ((iff j).0 refl))),
)

module _ {names : List Name} {rows : List Entry} {l : EqsLabels} (before : Option Error) where
  given-is_rust : IsGiven names rows l → is_rust l ≡ false
  unfolding is_rust
  given-is_rust g = rw (g.from_c) refl

  -- Labels that C describes, with at least one name, are created where the names are valid and
  -- different and the rows are different: the status is a success, the kept error stays, and the
  -- structure holds Rust labels with the names and the rows.
  pub eqs_labels_create-IsHandle :
      IsGiven names rows l
      → 0 < length names
      → CanBuild names rows
      → (l' : EqsLabels) × (eqs_labels_create before (some l) ≡ some (eqs_success, before, some l'))
        × IsHandle names rows l'
  unfolding eqs_labels_create check_pointer
  eqs_labels_create-IsHandle g some_names c =
      let (rust, created, v) = create_rust_labels-total g some_names c in
      let (l', handed, h) = rust_to_eqs_labels-IsHandle v in
      (l', rw (given-is_rust g, created, handed) (call-ok before (some l) (some l')), h)

  -- The position of an entry with a value for each name in labels that Rust holds: the number of the
  -- row that equals it, or -1 where no row does.
  pub eqs_labels_position-rows :
      (h : IsHandle names rows l) (e : Entry) (result : ℤ)
      → length e ≡ length names
      → (z : ℤ) × (eqs_labels_position before l (some e) (length e) result
          ≡ some (eqs_success, before, z))
        × ((i : ℕ) → (z ≡ pos i) ↔ (get_elem? rows i ≡ some e))
        × ((z ≡ negsuc 0) ↔ ((i : ℕ) → get_elem? rows i ≢ some e))
  unfolding eqs_labels_position is_rust deref from_raw_parts
  eqs_labels_position-rows h e result w =
      let (o, found, iff) = position-rows h.labels e w in
      let wide : (length e == size h.rust) ≡ true =
        (==_iff _ _).1 (w ∙ sym (ap length h.labels.same_names)) in
      let (place, absent) = position_result_iff o iff in
      (
        position_result o,
        rw (h.internal, wide, leb_of_le (length e) (length e) (omega arith), take_all e, found)
            (call-ok before result (position_result o)),
        place,
        absent,
      )
