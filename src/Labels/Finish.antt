-- ===== src/Labels/Finish.antt =====
-- When labels can be built, and what the finished labels hold.
use equistore.Prelude.{
  ℕ, suc, ◌<◌, ◌≡◌, refl, subst, ◌↔◌, inl, inr, true, false, List, [], ◌∷◌, length, ◌==◌,
  if◌then◌else◌, n_unique, arith, flatten, All, Distinct, Bool-cases, ==_iff, suc-eq-zero, eq_self,
  Distinct-of_n_unique, n_unique_of_Distinct,
}
use equistore.Errors.{Name, ok, >>=-eq-ok}
use equistore.Labels.{
  Entry, LabelsBuilder, Labels, IsLabels, check_names, name_dec, is_valid_label_name, valid_from,
}
use equistore.Labels.Builder.{new, add_all, has_null, check_c_strings, finish, build}
use equistore.Labels.Building.{IsBuilder, add_all-new, add_all-ok}

-- Names that `LabelsBuilder::new` takes.
pub record ValidNames (names : List Name) : Type 0 where
  pub valid : All (λ name. is_valid_label_name name ≡ true) names
  pub distinct : Distinct names

check_names-ok :
    (names : List Name)
    → (check_names names ≡ ok tt) ↔ All (λ name. is_valid_label_name name ≡ true) names
unfolding check_names
check_names-ok [] = (λ _. tt, λ _. refl)
check_names-ok (n ∷ names) = elim (Bool-cases (is_valid_label_name n)) [
  | inl good ↦ (
    λ h. (good, (check_names-ok names).0 (rw good at h)),
    λ h. rw good ((check_names-ok names).1 h.1),
  )
  | inr bad ↦ (λ h. cc (h, bad), λ h. cc (h.0, bad))
]

pub new-total :
    (names : List Name)
    → ValidNames names
    → (b : LabelsBuilder) × (new names ≡ ok b) × IsBuilder names [] b
unfolding new
new-total names v = (
  record { names = names; values = []; positions = [] },
  rw (
    (check_names-ok names).1 v.valid,
    n_unique_of_Distinct name_dec names v.distinct,
    eq_self (length names),
  ),
  record { same_names = refl; values = refl; positions = refl; widths = tt; distinct = tt },
)

new-checks : (names : List Name) {b : LabelsBuilder} → new names ≡ ok b → ValidNames names
unfolding new
new-checks names {b} h =
    let (_, checked, rest) = >>=-eq-ok (check_names names) _ h in
    elim (Bool-cases (n_unique name_dec names == length names)) [
      | inl same ↦ record {
        valid = (check_names-ok names).0 checked;
        distinct = Distinct-of_n_unique name_dec names ((==_iff _ _).0 same);
      }
      | inr other ↦ cc (rest, other)
    ]

pub new-ok :
    (names : List Name) {b : LabelsBuilder}
    → new names ≡ ok b
    → ValidNames names × IsBuilder names [] b
new-ok names {b} h =
    let g = new-checks names h in
    let (b', made, v) = new-total names g in (g, subst (IsBuilder names []) (cc (made, h)) v)

-- A valid name has no null character, wherever the check starts.
valid_from-no_null : (i : ℕ) (name : Name) → valid_from i name ≡ true → has_null name ≡ false
unfolding valid_from has_null
valid_from-no_null i [] h = refl
valid_from-no_null i (c ∷ cs) h = ground (arith, valid_from-no_null (suc i) cs)

pub check_c_strings-total :
    (names : List Name)
    → All (λ name. is_valid_label_name name ≡ true) names
    → check_c_strings names ≡ ok tt
unfolding check_c_strings is_valid_label_name has_null
check_c_strings-total [] h = refl
check_c_strings-total ([] ∷ names) h = cc (h.0)
check_c_strings-total ((c ∷ cs) ∷ names) h =
    rw (valid_from-no_null 0 (c ∷ cs) h.0) (check_c_strings-total names h.1)

-- Labels with no name keep no row.
abbrev pub kept_rows : List Name → List Entry → List Entry
kept_rows names rows = if length names == 0 then [] else rows

pub kept_rows_all :
    (names : List Name) (rows : List Entry) → 0 < length names → kept_rows names rows ≡ rows
kept_rows_all [] rows h = absurd (omega arith)
kept_rows_all (n ∷ names) rows h = rw (suc-eq-zero (length names)) refl

flatten_empty : (rows : List Entry) → All (λ row. length row ≡ 0) rows → flatten rows ≡ []
flatten_empty [] h = refl
flatten_empty ([] ∷ rows) h = flatten_empty rows h.1
flatten_empty ((x ∷ row) ∷ rows) h = absurd (omega arith)

-- `finish` succeeds on a builder that agrees with its rows (rows of the right size, all different, with
-- their values and positions on record and no more) and whose names are valid; the labels have these
-- names and rows, or no row where there is no name.
pub finish-total :
    (names : List Name) (rows : List Entry) (b : LabelsBuilder)
    → ValidNames names
    → IsBuilder names rows b
    → (l : Labels) × (finish b ≡ ok l) × IsLabels names (kept_rows names rows) l
unfolding finish
finish-total [] rows b g v = (
  record { names = []; values = []; positions = [] },
  rw (v.same_names, v.values, flatten_empty rows v.widths) refl,
  record {
    same_names = refl;
    values = refl;
    positions = refl;
    widths = tt;
    distinct = tt;
    nameless = λ _. refl;
  },
)
finish-total (n ∷ names) rows b g v = (
  record { names = b.names; values = b.values; positions = b.positions },
  rw (v.same_names, suc-eq-zero (length names), check_c_strings-total (n ∷ names) g.valid) refl,
  rw (suc-eq-zero (length names)) (record {
    same_names = v.same_names;
    values = v.values;
    positions = v.positions;
    widths = v.widths;
    distinct = v.distinct;
    nameless = λ e. absurd (omega arith);
  }),
)

-- The conditions under which labels are built: names that are identifiers and all different, and
-- rows of their number that are all different.
pub record CanBuild (names : List Name) (rows : List Entry) : Type 0 where
  pub names_ok : ValidNames names
  pub widths : All (λ row. length row ≡ length names) rows
  pub distinct : Distinct rows

pub build-total :
    (names : List Name) (rows : List Entry)
    → CanBuild names rows
    → (l : Labels) × (build names rows ≡ ok l) × IsLabels names (kept_rows names rows) l
unfolding build
build-total names rows c =
    let (b₀, made, v₀) = new-total names c.names_ok in
    let (b₁, added, v₁) = add_all-new [] rows v₀ c.widths c.distinct in
    let (l, done, v) = finish-total names rows b₁ c.names_ok v₁ in (l, rw (made, added) done, v)

build-CanBuild :
    (names : List Name) (rows : List Entry) {l : Labels}
    → build names rows ≡ ok l
    → CanBuild names rows
unfolding build
build-CanBuild names rows h =
    let (b₀, made, h₁) = >>=-eq-ok (new names) _ h in
    let (g, v₀) = new-ok names made in
    let (b₁, added, h₂) = >>=-eq-ok (add_all b₀ rows) _ h₁ in
    let v₁ = add_all-ok [] rows v₀ added in
    record { names_ok = g; widths = v₁.widths; distinct = v₁.distinct }

-- Labels can be built from names and rows exactly where the names are valid identifiers with no
-- repetition and the rows, all different, have one value for each name.
pub build_iff :
    (names : List Name) (rows : List Entry)
    → ((l : Labels) × (build names rows ≡ ok l)) ↔ CanBuild names rows
build_iff names rows = (
  λ x. build-CanBuild names rows x.1,
  λ c. let (l, done, _) = build-total names rows c in (l, done),
)

-- Labels that are built hold the names, and the rows in their order (no row where there is no name).
pub build-IsLabels :
    (names : List Name) (rows : List Entry) (l : Labels)
    → build names rows ≡ ok l
    → IsLabels names (kept_rows names rows) l
build-IsLabels names rows l h =
    let (l', done, v) = build-total names rows (build-CanBuild names rows h) in
    subst (IsLabels names (kept_rows names rows)) (cc (done, h)) v
