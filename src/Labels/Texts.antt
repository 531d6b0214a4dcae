-- ===== src/Labels/Texts.antt =====
-- equistore-core/src/labels.rs: the texts of the errors that end the making of labels.
use mathlib.Core.List.{lookup}
use equistore.Prelude.{
  ℕ, ◌≡◌, refl, inl, inr, true, false, not, Bool, Bool-cases, ◌==◌, List, [], ◌∷◌, length, none,
  some, All, n_unique, Option, ◌++◌,
}
use equistore.Errors.{
  Name, Message, Outcome, ok, err, panic, ◌>>=◌, ◌>>◌, guard, assert, has_null, prints_null,
  fails_with_null, repeated_label_name, invalid_label_name, invalid_c_string, leftover_values,
}
use equistore.Labels.{Entry, LabelsBuilder, check_names, is_valid_label_name, name_dec, entry_dec}
use equistore.Labels.Builder.{new, add, push, insert, try_add, add_all, check_c_strings, finish}
use equistore.Labels.Building.{convert-ok}

-- The outcome is a value, or a failure whose text can be a C string.
abbrev pub IsPrintable {ℓ} : {A : Type ℓ} → Outcome A → Type 0
IsPrintable o = fails_with_null o ≡ false

pub bind-IsPrintable {ℓ κ} :
    {A : Type ℓ} {B : Type κ} (m : Outcome A) (f : A → Outcome B)
    → IsPrintable m
    → ((a : A) → IsPrintable (f a))
    → IsPrintable (m >>= f)
bind-IsPrintable (ok a) f h k = k a
bind-IsPrintable (err e) f h k = h
bind-IsPrintable (panic m) f h k = h

pub guard-IsPrintable :
    (test : Bool) (m : Message) → prints_null m ≡ false → IsPrintable (guard test m)
guard-IsPrintable true m h = refl
guard-IsPrintable false m h = h

pub assert-IsPrintable :
    (test : Bool) (m : Message) → prints_null m ≡ false → IsPrintable (assert test m)
assert-IsPrintable true m h = refl
assert-IsPrintable false m h = h

check_names-IsPrintable :
    (names : List Name)
    → All (λ name. has_null name ≡ false) names
    → IsPrintable (check_names names)
unfolding check_names
check_names-IsPrintable [] h = refl
check_names-IsPrintable (name ∷ names) h =
    bind-IsPrintable (assert (is_valid_label_name name) (invalid_label_name name)) _
      (assert-IsPrintable (is_valid_label_name name) (invalid_label_name name) h.0)
      (λ _. check_names-IsPrintable names h.1)

pub new-IsPrintable :
    (names : List Name) → All (λ name. has_null name ≡ false) names → IsPrintable (new names)
unfolding new
new-IsPrintable names h =
    bind-IsPrintable (check_names names) _ (check_names-IsPrintable names h) (λ _.
      bind-IsPrintable (assert (n_unique name_dec names == length names) repeated_label_name) _
        (assert-IsPrintable (n_unique name_dec names == length names) repeated_label_name refl)
        (λ _. refl))

try_add-IsPrintable : (b : LabelsBuilder) (entry : Entry) → IsPrintable (try_add b entry)
unfolding try_add add push insert
try_add-IsPrintable b entry = elim (Bool-cases (length b.names == length entry)) [
  | inr other ↦ rw other refl
  | inl same ↦ rw (same, convert-ok entry) (found (lookup entry_dec entry b.positions) refl)
]
  where
    found :
        (o : Option ℕ)
        → lookup entry_dec entry b.positions ≡ o
        → IsPrintable (
            let (done, b') =
              insert
                (record b { values = b.values ++ entry })
                entry
                (length b.positions)
                (lookup entry_dec entry b.positions) in
            done >> ok b')
    found none e = rw e refl
    found (some i) e = rw e refl

pub add_all-IsPrintable : (b : LabelsBuilder) (rows : List Entry) → IsPrintable (add_all b rows)
unfolding add_all
add_all-IsPrintable b [] = refl
add_all-IsPrintable b (row ∷ rows) =
    bind-IsPrintable (try_add b row) _ (try_add-IsPrintable b row)
      (λ b'. add_all-IsPrintable b' rows)

check_c_strings-IsPrintable : (names : List Name) → IsPrintable (check_c_strings names)
unfolding check_c_strings
check_c_strings-IsPrintable [] = refl
check_c_strings-IsPrintable (name ∷ names) =
    bind-IsPrintable (assert (not (has_null name)) invalid_c_string) _
      (assert-IsPrintable (not (has_null name)) invalid_c_string refl)
      (λ _. check_c_strings-IsPrintable names)

pub finish-IsPrintable : (b : LabelsBuilder) → IsPrintable (finish b)
unfolding finish
finish-IsPrintable b = elim (Bool-cases (length b.names == 0)) [
  | inl none_left ↦ rw none_left (
      bind-IsPrintable (assert (length b.values == 0) leftover_values) _
        (assert-IsPrintable (length b.values == 0) leftover_values refl) (λ _. refl))
  | inr some_names ↦ rw some_names (
      bind-IsPrintable (check_c_strings b.names) _ (check_c_strings-IsPrintable b.names)
        (λ _. refl))
]
