-- ===== src/Io/RoundTrip.antt =====
-- equistore-core/src/io/labels.rs: labels that are written are read back.
use equistore.Prelude.{
  ◌*◌, ◌^◌, ◌<◌, ◌≡◌, ◌∙◌, refl, sym, ap, subst, List, [], ◌∷◌, ◌++◌, length, append_assoc, flatten,
  All, true, false, none, some, ℤ, ℤ.pos, ℤ.negsuc, codes, arith, list_discrete, ℕ_discrete,
}
use equistore.Errors.{Name, ok}
use equistore.Labels.{Entry, Labels, IsLabels, count, is_valid_label_name, name_dec}
use equistore.Labels.Builder.{build}
use equistore.Labels.Finish.{ValidNames, build-total, kept_rows_all}
use equistore.Labels.Lookup.{count-rows, iter-rows, length-flatten, chunks-whole}
use equistore.Io.{
  Endianness, big, little, string, tuple, list, Header, Formats, check_for_extra_bytes,
}
use equistore.Io.Labels.{
  integer_type, type_endianness, next_endianness, name_and_type, check_elements,
  check_type_descriptor, read_npy_labels, descriptor_text, write_values, write_entries,
  write_npy_labels,
}

-- The values of an i32.
abbrev pub IsI32 : ℤ → Type 0
IsI32 (pos n) = n < 2 ^ 31
IsI32 (negsuc n) = n < 2 ^ 31

module _ {Float : Type 0} (F : Formats Float) where
  -- The literals are the pairs of the names and the type.
  abbrev pub ArePairs : Endianness → List Name → List F.Value → Type 0
  ArePairs e [] elements = elements ≡ []
  ArePairs e (name ∷ names) [] = ⊥
  ArePairs e (name ∷ names) (element ∷ elements) =
      ((a : F.Value) × (b : F.Value) × (F.view element ≡ tuple (a ∷ b ∷ []))
        × (F.view a ≡ string name)
        × (F.view b ≡ string (integer_type e)))
      × ArePairs e names elements

  -- What the library relies on of the codecs: a header is read back, from the bytes that were written
  -- for it, and so are 32-bit integers; a list of pairs of quoted strings is parsed as such, where the
  -- first strings are made of letters, digits and `_`.
  pub record IsFormats : Type 0 where
    pub reads_header :
        (header : Header F.Value) (bytes rest : List F.Byte)
        → F.write_header header ≡ ok bytes
        → F.from_reader (bytes ++ rest) ≡ ok (header, rest)
    pub reads_integers :
        (values : List ℤ)
        → All IsI32 values
        → F.read_i32_into F.native (length values) (write_values F values) ≡ ok (values, [])
    pub parses_pairs :
        (e : Endianness) (names : List Name)
        → All (λ name. is_valid_label_name name ≡ true) names
        → (v : F.Value) × (elements : List F.Value) × (F.parse
              (codes "[" ++ descriptor_text F e names)
            ≡ some v)
          × (F.view v ≡ list elements)
          × ArePairs e names elements

  next_endianness-first : (e : Endianness) → next_endianness none (integer_type e) ≡ ok e
  unfolding next_endianness type_endianness name_dec list_discrete ℕ_discrete
  next_endianness-first big = refl
  next_endianness-first little = refl

  next_endianness-again : (e : Endianness) → next_endianness (some e) (integer_type e) ≡ ok e
  unfolding next_endianness type_endianness name_dec list_discrete ℕ_discrete
  next_endianness-again big = refl
  next_endianness-again little = refl

  name_and_type-pair :
      (e : Endianness) (name : Name) (element : F.Value) {a b : F.Value}
      → F.view element ≡ tuple (a ∷ b ∷ [])
      → F.view a ≡ string name
      → F.view b ≡ string (integer_type e)
      → name_and_type F (F.view element) ≡ ok (name, integer_type e)
  name_and_type-pair e name element t n y = rw (t, n, y) refl

  check_elements-again :
      (e : Endianness) (names : List Name) (elements : List F.Value)
      → ArePairs e names elements
      → check_elements F (some e) elements ≡ ok (names, some e)
  unfolding check_elements
  check_elements-again e [] elements p = rw p refl
  check_elements-again e (name ∷ names) [] p = elim p [ ]
  check_elements-again e (name ∷ names) (element ∷ elements) p =
      let (a, b, t, n, y) = p.0 in
      rw
        (
          name_and_type-pair e name element t n y,
          next_endianness-again e,
          check_elements-again e names elements p.1,
        )
        refl

  check_type_descriptor-pairs :
      (e : Endianness) (names : List Name) (elements : List F.Value) (v : F.Value)
      → 0 < length names
      → F.view v ≡ list elements
      → ArePairs e names elements
      → check_type_descriptor F v ≡ ok (names, e)
  unfolding check_type_descriptor check_elements
  check_type_descriptor-pairs e [] elements v h l p = absurd (omega arith)
  check_type_descriptor-pairs e (name ∷ names) [] v h l p = elim p [ ]
  check_type_descriptor-pairs e (name ∷ names) (element ∷ elements) v h l p =
      let (a, b, t, n, y) = p.0 in
      rw
        (
          l,
          name_and_type-pair e name element t n y,
          next_endianness-first e,
          check_elements-again e names elements p.1,
        )
        refl

  write_values-append :
      (xs ys : Entry) → write_values F (xs ++ ys) ≡ write_values F xs ++ write_values F ys
  unfolding write_values
  write_values-append [] ys = refl
  write_values-append (x ∷ xs) ys =
      rw (write_values-append xs ys)
        (sym (append_assoc (F.write_i32 F.native x) (write_values F xs) (write_values F ys)))

  write_entries-flatten : (rows : List Entry) → write_entries F rows ≡ write_values F (flatten rows)
  unfolding write_entries write_values
  write_entries-flatten [] = refl
  write_entries-flatten (row ∷ rows) =
      rw (write_entries-flatten rows, write_values-append row (flatten rows)) refl

labels_unique :
    {names : List Name} {rows : List Entry} {l l' : Labels}
    → IsLabels names rows l
    → IsLabels names rows l'
    → l ≡ l'
labels_unique v v' = λ i. record {
  names = (v.same_names ∙ sym v'.same_names) i;
  values = (v.values ∙ sym v'.values) i;
  positions = (v.positions ∙ sym v'.positions) i;
}

module _ {Float : Type 0} (F : Formats Float) (laws : IsFormats F) {names : List Name}
    {rows : List Entry} {l : Labels} (v : IsLabels names rows l) (some_names : 0 < length names)
    (valid : ValidNames names) where
  build-same : build names rows ≡ ok l
  build-same =
      let (l', built, v') =
        build-total names rows
          (record { names_ok = valid; widths = v.widths; distinct = v.distinct }) in
      let same : l' ≡ l =
        labels_unique (subst (λ rs. IsLabels names rs l') (kept_rows_all names rows some_names) v')
          v in
      built ∙ ap ok same

  -- Labels with at least one name, with valid names and with the values of 32-bit integers, are written
  -- where the codec can write a header of their number with the descriptor that is parsed from the text
  -- of their names, and reading what is written gives the same labels.
  pub read_npy_labels-write_npy_labels :
      All IsI32 (flatten rows)
      → ((descriptor : F.Value)
          → F.parse (codes "[" ++ descriptor_text F F.native l.names) ≡ some descriptor
          → (bytes : List F.Byte) × (F.write_header (record {
            type_descriptor = descriptor;
            is_fortran = false;
            dimensions = count l ∷ [];
          })
              ≡ ok bytes))
      → (bytes : List F.Byte) × (write_npy_labels F l ≡ ok bytes) × (read_npy_labels F bytes ≡ ok l)
  unfolding write_npy_labels read_npy_labels check_for_extra_bytes
  read_npy_labels-write_npy_labels small writes =
      let (d, elements, parsed, viewed, pairs) = laws.parses_pairs F.native names valid.valid in
      let body = write_values F (flatten rows) in
      let parsed_here : F.parse (codes "[" ++ descriptor_text F F.native l.names) ≡ some d =
        subst (λ ns. F.parse (codes "[" ++ descriptor_text F F.native ns) ≡ some d)
          (sym v.same_names) parsed in
      let (header, written) = writes d parsed_here in
      let back = laws.reads_header _ header body written in
      let len : count l * length names ≡ length (flatten rows) =
        ap (λ n. n * length names) (count-rows v)
        ∙ sym (length-flatten (length names) rows v.widths) in
      (
        header ++ body,
        rw (parsed_here, written, iter-rows v some_names, write_entries-flatten F rows) refl,
        rw
            (
              back,
              check_type_descriptor-pairs F F.native names elements d some_names viewed pairs,
              len,
              laws.reads_integers (flatten rows) small,
              chunks-whole (length names) rows some_names v.widths,
              build-same,
            )
            refl,
      )
