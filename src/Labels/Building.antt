-- ===== src/Labels/Building.antt =====
-- What a builder holds after each call, and when a set of labels can be built.
use mathlib.Core.List.{lookup}
use native.Mathlib.Nat.{zero-add}
use equistore.Prelude.{
  ℕ, ◌≡◌, refl, sym, ap, subst, ◌∙◌, inl, inr, false, List, [], ◌∷◌, ◌++◌, append-nil, append_assoc,
  length, some, none, ◌==◌, arith, enumerate, flatten, All-get_elem?, flatten-append, All,
  All-append, Distinct, Absent, Distinct-snoc, enumerate-snoc, length-enumerate, Absent-of_Distinct,
  none_of_Absent, Absent-of_none, get_elem?, get_elem?-position_from, Option-cases, Bool-cases,
  ==_iff,
}
use equistore.Errors.{
  Name, ok, err, panic, invalid_parameter, duplicate_entry, wrong_entry_size, >>=-eq-ok,
}
use equistore.Labels.{Entry, LabelsBuilder, entry_dec}
use equistore.Labels.Builder.{add, insert, convert, try_add, add_all}

-- The builder holds these rows.
pub record IsBuilder (names : List Name) (rows : List Entry) (b : LabelsBuilder) : Type 0 where
  pub same_names : b.names ≡ names
  pub values : b.values ≡ flatten rows
  pub positions : b.positions ≡ enumerate 0 rows
  pub widths : All (λ row. length row ≡ length names) rows
  pub distinct : Distinct rows

pub convert-ok : (e : Entry) → convert ok e ≡ ok e
unfolding convert
convert-ok [] = refl
convert-ok (x ∷ e) = rw (convert-ok e)

flatten-snoc : (rows : List Entry) (e : Entry) → flatten (rows ++ e ∷ []) ≡ flatten rows ++ e
flatten-snoc rows e = flatten-append rows (e ∷ []) ∙ ap (◌++◌ (flatten rows)) (append-nil e)

-- With the right size the entry reaches the table.
add-insert :
    (b : LabelsBuilder) (e : Entry)
    → length e ≡ length b.names
    → add ok b e
      ≡ insert
          (record b { values = b.values ++ e })
          e
          (length b.positions)
          (lookup entry_dec e b.positions)
unfolding add
add-insert b e w = rw (w, (==_iff (length b.names) (length b.names)).1 refl, convert-ok e) refl

module _ {names : List Name} {rows : List Entry} {b : LabelsBuilder}
    (v : IsBuilder names rows b) where
  -- To add a row with a value for each name that the builder does not have yet succeeds, and the
  -- builder then has its rows and behind them the new one.
  pub add-new :
      (e : Entry)
      → length e ≡ length names
      → Absent e rows
      → (b' : LabelsBuilder) × (add ok b e ≡ (ok tt, b')) × IsBuilder names (rows ++ e ∷ []) b'
  unfolding insert
  add-new e w a =
      let miss : lookup entry_dec e b.positions ≡ none =
        rw v.positions (none_of_Absent entry_dec 0 e rows a) in
      (
        record b {
          values = b.values ++ e;
          positions = b.positions ++ (e, length b.positions) ∷ [];
        },
        add-insert b e (rw v.same_names w) ∙ rw miss refl,
        record {
          same_names = v.same_names;
          values = rw (v.values) (sym (flatten-snoc rows e));
          positions =
              rw (v.positions, enumerate-snoc 0 rows e, length-enumerate 0 rows, zero-add) refl;
          widths = All-append _ rows (e ∷ []) v.widths (w, tt);
          distinct = Distinct-snoc rows e v.distinct a;
        },
      )

  -- To add a row that the builder has is refused with the position of the row, and leaves its values
  -- behind the others in the builder.
  pub add-duplicate :
      (e : Entry) (i : ℕ)
      → get_elem? rows i ≡ some e
      → add ok b e
        ≡ (err (invalid_parameter (duplicate_entry e i)), record b { values = b.values ++ e })
  unfolding insert
  add-duplicate e i h =
      let hit : lookup entry_dec e b.positions ≡ some i =
        rw (v.positions)
          (get_elem?-position_from entry_dec 0 e rows i v.distinct h ∙ ap some (zero-add i)) in
      add-insert b e (rw v.same_names (All-get_elem? _ rows i v.widths h)) ∙ rw hit refl

add-wrong_size :
    (b : LabelsBuilder) (e : Entry)
    → (length b.names == length e) ≡ false
    → add ok b e ≡ (panic (wrong_entry_size (length e) (length b.names)), b)
unfolding add
add-wrong_size b e h = rw h

-- What a call that succeeds has checked.
add-ok :
    {names : List Name} {rows : List Entry} {b : LabelsBuilder} (e : Entry) {b' : LabelsBuilder}
    → IsBuilder names rows b
    → add ok b e ≡ (ok tt, b')
    → (length e ≡ length names) × Absent e rows
unfolding insert
add-ok {names} {rows} {b} e v h = elim (Bool-cases (length b.names == length e)) [
  | inl same ↦
      let w : length e ≡ length b.names = sym ((==_iff _ _).0 same) in
      (
        w ∙ ap length v.same_names,
        elim (Option-cases (lookup entry_dec e b.positions)) [
          | inl miss ↦ Absent-of_none entry_dec 0 e rows (rw v.positions at miss)
          | inr (i, hit) ↦ cc (h, add-insert b e w, hit)
        ],
      )
  | inr other ↦ cc (h, add-wrong_size b e other)
]

try_add-result :
    (b : LabelsBuilder) (e : Entry) {b' : LabelsBuilder}
    → try_add b e ≡ ok b'
    → add ok b e ≡ (ok tt, b')
unfolding try_add
try_add-result b e h = ground arith

-- `try_add` succeeds exactly on a row of the right size that is not there, and appends it.
try_add-ok :
    {names : List Name} {rows : List Entry} {b : LabelsBuilder} (e : Entry) {b' : LabelsBuilder}
    → IsBuilder names rows b
    → try_add b e ≡ ok b'
    → (length e ≡ length names) × Absent e rows × IsBuilder names (rows ++ e ∷ []) b'
try_add-ok {names} {rows} {b} e {b'} v h =
    let done = try_add-result b e h in
    let (w, a) = add-ok e v done in
    let (b'', added, v') = add-new v e w a in
    (w, a, subst (IsBuilder names (rows ++ e ∷ [])) (cc (done, added)) v')

try_add-new :
    {names : List Name} {rows : List Entry} {b : LabelsBuilder} (e : Entry)
    → IsBuilder names rows b
    → length e ≡ length names
    → Absent e rows
    → (b' : LabelsBuilder) × (try_add b e ≡ ok b') × IsBuilder names (rows ++ e ∷ []) b'
unfolding try_add
try_add-new e v w a = let (b', added, v') = add-new v e w a in (b', rw added refl, v')

-- All rows are added if they fit and none is there twice.
pub add_all-new :
    {names : List Name} (rows : List Entry) {b : LabelsBuilder} (entries : List Entry)
    → IsBuilder names rows b
    → All (λ row. length row ≡ length names) entries
    → Distinct (rows ++ entries)
    → (b' : LabelsBuilder) × (add_all b entries ≡ ok b') × IsBuilder names (rows ++ entries) b'
unfolding add_all
add_all-new {names} rows {b} [] v w d = (b, refl, rw append-nil v)
add_all-new {names} rows {b} (e ∷ entries) v w d =
    let (b₁, added, v₁) = try_add-new e v w.0 (Absent-of_Distinct rows e entries d) in
    let shift = append_assoc rows (e ∷ []) entries in
    let (b₂, all, v₂) = add_all-new (rows ++ e ∷ []) entries v₁ w.1 (rw shift d) in
    (b₂, rw added all, rw shift at v₂)

-- And that is the only way to succeed.
pub add_all-ok :
    {names : List Name} (rows : List Entry) {b b' : LabelsBuilder} (entries : List Entry)
    → IsBuilder names rows b
    → add_all b entries ≡ ok b'
    → IsBuilder names (rows ++ entries) b'
unfolding add_all
add_all-ok {names} rows {b} [] v h = rw append-nil (subst (IsBuilder names rows) (cc) v)
add_all-ok {names} rows {b} (e ∷ entries) v h =
    let (b₁, added, rest) = >>=-eq-ok (try_add b e) _ h in
    let (w, a, v₁) = try_add-ok e v added in
    rw (append_assoc rows (e ∷ []) entries) at (add_all-ok (rows ++ e ∷ []) entries v₁ rest)
