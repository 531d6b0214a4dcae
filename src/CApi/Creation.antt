-- ===== src/CApi/Creation.antt =====
-- equistore-core/src/c_api/labels.rs: labels that come from C.
use equistore.Prelude.{
  ℕ, ◌*◌, ◌/◌, ◌<◌, ◌≡◌, ◌∙◌, refl, sym, ap, subst, inl, inr, true, false, Bool-cases, ◌==◌,
  leb_of_le, List, [], ◌∷◌, length, take, All, none, some, flatten, arith, if◌then◌else◌,
}
use equistore.Errors.{Name, Outcome, ok, err, panic, guard, has_null, invalid_label_name}
use equistore.Labels.{Entry, Labels, IsLabels, chunks, is_valid_label_name}
use equistore.Labels.Builder.{new, add_all, finish}
use equistore.Labels.Building.{add_all-new, add_all-ok}
use equistore.Labels.Finish.{CanBuild, new-total, new-ok, finish-total, kept_rows_all}
use equistore.Labels.Lookup.{length-flatten, chunks-flatten}
use equistore.Labels.Texts.{
  IsPrintable, guard-IsPrintable, new-IsPrintable, add_all-IsPrintable, finish-IsPrintable,
}
use equistore.CApi.{Unsafe, undefined, defined, ◌>>=◌, check, deref, to_str, from_raw_parts}
use equistore.CApi.Labels.{
  EqsLabels, c_names, is_rust, read_names, slice_chunks, create_rust_labels,
}

-- The structure, made in C, describes names and rows.
pub record IsGiven (names : List Name) (rows : List Entry) (l : EqsLabels) : Type 0 where
  pub from_c : l.internal_ptr ≡ none
  pub names_ptr : l.names ≡ some (c_names names)
  pub values_ptr : l.values ≡ some (flatten rows)
  pub same_size : l.size ≡ length names
  pub same_count : l.count ≡ length rows
  pub widths : All (λ row. length row ≡ length names) rows

-- The structure has Rust labels with these names and rows, and its other fields tell the same.
pub record IsHandle (names : List Name) (rows : List Entry) (l : EqsLabels) : Type 0 where
  pub rust : Labels
  pub internal : l.internal_ptr ≡ some rust
  pub labels : IsLabels names rows rust
  pub same_size : l.size ≡ length names
  pub same_count : l.count ≡ length rows
  pub same_names : l.names ≡ (if length names == 0 then none else some (c_names names))
  pub same_values : l.values ≡ (if length rows == 0 then none else some (flatten rows))

-- Inversion of the steps of a body.
pub >>=-eq-defined {ℓ κ} :
    {A : Type ℓ} {B : Type κ} (u : Unsafe A) (f : A → Unsafe B) {b : B}
    → (u >>= f) ≡ defined (ok b)
    → (a : A) × (u ≡ defined (ok a)) × (f a ≡ defined (ok b))
>>=-eq-defined undefined f h = cc
>>=-eq-defined (defined (panic m)) f h = cc
>>=-eq-defined (defined (err e)) f h = cc
>>=-eq-defined (defined (ok a)) f h = (a, refl, h)

pub defined-injective {ℓ} : {A : Type ℓ} (o p : Outcome A) → defined o ≡ defined p → o ≡ p
defined-injective o p h = cc

read_names-valid :
    (names : List Name)
    → All (λ name. is_valid_label_name name ≡ true) names
    → read_names (c_names names) (length names) ≡ defined (ok names)
unfolding read_names to_str
read_names-valid [] h = refl
read_names-valid (n ∷ names) h = rw (h.0, read_names-valid names h.1) refl

read_names-ok :
    (names given : List Name)
    → read_names (c_names names) (length names) ≡ defined (ok given)
    → (given ≡ names) × All (λ name. is_valid_label_name name ≡ true) names
unfolding read_names to_str
read_names-ok [] given h = (cc, tt)
read_names-ok (n ∷ names) given h = elim (Bool-cases (is_valid_label_name n)) [
  | inl good ↦
      let (rest, read, last) =
        >>=-eq-defined (read_names (c_names names) (length names)) _ (rw good at h) in
      let (same, valid) = read_names-ok names rest read in (cc (last, same), (good, valid))
  | inr bad ↦ cc (h, bad)
]

pub take_all {ℓ} : {A : Type ℓ} (xs : List A) → take (length xs) xs ≡ xs
take_all [] = refl
take_all (x ∷ xs) = ap (◌∷◌ x) (take_all xs)

slice_chunks-rows :
    (n : ℕ) (rows : List Entry)
    → 0 < n
    → All (λ row. length row ≡ n) rows
    → slice_chunks n (flatten rows) ≡ rows
unfolding slice_chunks
slice_chunks-rows n [] h w = refl
slice_chunks-rows n ([] ∷ rows) h w = absurd (omega arith)
slice_chunks-rows n ((x ∷ row) ∷ rows) h w =
    let len = length-flatten n ((x ∷ row) ∷ rows) w in
    let whole : length (flatten ((x ∷ row) ∷ rows)) / n ≡ length ((x ∷ row) ∷ rows) =
      grind (arith, len) in
    ap (λ k. chunks k n (flatten ((x ∷ row) ∷ rows))) whole ∙ chunks-flatten n ((x ∷ row) ∷ rows) w

-- Nothing is read that is not there, and a failure has a text that can be a C string.
abbrev pub Ends {ℓ} : {A : Type ℓ} → Unsafe A → Type ℓ
Ends {A} u = (o : Outcome A) × (u ≡ defined o) × IsPrintable o

bind-Ends {ℓ κ} :
    {A : Type ℓ} {B : Type κ} (u : Unsafe A) (f : A → Unsafe B)
    → Ends u
    → ((a : A) → u ≡ defined (ok a) → Ends (f a))
    → Ends (u >>= f)
bind-Ends undefined f (o, e, t) k = cc e
bind-Ends (defined (panic m)) f (o, e, t) k =
    (panic m, refl, subst IsPrintable (sym (defined-injective (panic m) o e)) t)
bind-Ends (defined (err x)) f (o, e, t) k =
    (err x, refl, subst IsPrintable (sym (defined-injective (err x) o e)) t)
bind-Ends (defined (ok a)) f e k = k a refl

read_names-Ends :
    (names : List Name)
    → All (λ name. has_null name ≡ false) names
    → Ends (read_names (c_names names) (length names))
unfolding read_names to_str
read_names-Ends [] h = (ok [], refl, refl)
read_names-Ends (n ∷ names) h =
    bind-Ends (check (is_valid_label_name n) (invalid_label_name n)) _
      (
        guard (is_valid_label_name n) (invalid_label_name n),
        refl,
        guard-IsPrintable (is_valid_label_name n) (invalid_label_name n) h.0,
      )
      (λ _ _.
        bind-Ends (read_names (c_names names) (length names)) _ (read_names-Ends names h.1)
          (λ rest _. (ok (n ∷ rest), refl, refl)))

module _ {names : List Name} {rows : List Entry} {l : EqsLabels} (g : IsGiven names rows l)
    (some_names : 0 < length names) where
  read_slice : from_raw_parts l.values (l.count * l.size) ≡ defined (ok (flatten rows))
  unfolding from_raw_parts
  read_slice =
      let whole : l.count * l.size ≡ length (flatten rows) =
        rw (g.same_count, g.same_size) (sym (length-flatten (length names) rows g.widths)) in
      rw
        (
          g.values_ptr,
          whole,
          leb_of_le (length (flatten rows)) (length (flatten rows)) (omega arith),
        )
        (ap (λ xs. defined (ok xs)) (take_all (flatten rows)))

  read_rows : slice_chunks l.size (flatten rows) ≡ rows
  read_rows = rw g.same_size (slice_chunks-rows (length names) rows some_names g.widths)

  read_all : read_names (c_names names) l.size ≡ read_names (c_names names) (length names)
  read_all = rw g.same_size refl

  pub create_rust_labels-total :
      CanBuild names rows
      → (rust : Labels) × (create_rust_labels l ≡ defined (ok rust)) × IsLabels names rows rust
  unfolding create_rust_labels is_rust deref
  create_rust_labels-total c =
      let (b₀, made, v₀) = new-total names c.names_ok in
      let (b₁, added, v₁) = add_all-new [] rows v₀ c.widths c.distinct in
      let (rust, finished, v₂) = finish-total names rows b₁ c.names_ok v₁ in
      (
        rust,
        rw
            (
              read_slice,
              read_rows,
              g.from_c,
              g.names_ptr,
              read_all,
              read_names-valid names c.names_ok.valid,
              made,
              added,
              finished,
              g.values_ptr,
            )
            refl,
        subst (λ r. IsLabels names r rust) (kept_rows_all names rows some_names) v₂,
      )

  pub create_rust_labels-CanBuild :
      {rust : Labels} → create_rust_labels l ≡ defined (ok rust) → CanBuild names rows
  unfolding create_rust_labels is_rust deref
  create_rust_labels-CanBuild {rust} h =
      let (given, read, h₁) =
        >>=-eq-defined (read_names (c_names names) (length names)) _
          (rw (read_slice, read_rows, g.from_c, g.names_ptr, read_all, g.values_ptr) at h) in
      let (same, valid) = read_names-ok names given read in
      let (b₀, made, h₂) = >>=-eq-defined (defined (new given)) _ h₁ in
      let (b₁, added, _) = >>=-eq-defined (defined (add_all b₀ rows)) _ h₂ in
      let (names_ok, v₀) =
        new-ok names (defined-injective (new names) (ok b₀) (rw (sym same) made)) in
      let v₁ = add_all-ok [] rows v₀ (defined-injective (add_all b₀ rows) (ok b₁) added) in
      record { names_ok = names_ok; widths = v₁.widths; distinct = v₁.distinct }

  pub create_rust_labels-Ends :
      All (λ name. has_null name ≡ false) names → Ends (create_rust_labels l)
  unfolding create_rust_labels is_rust deref
  create_rust_labels-Ends h =
      rw (read_slice, read_rows, g.from_c, g.names_ptr, read_all, g.values_ptr)
        (bind-Ends _ _ (read_names-Ends names h) (λ given read.
          bind-Ends _ _ (new given, refl, printable given (read_names-ok names given read).0)
            (λ b _.
              bind-Ends _ _ (add_all b rows, refl, add_all-IsPrintable b rows)
                (λ b' _. (finish b', refl, finish-IsPrintable b')))))
    where
      printable : (given : List Name) → given ≡ names → IsPrintable (new given)
      printable given same = rw same (new-IsPrintable names h)
