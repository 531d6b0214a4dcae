-- ===== src/Labels.antt =====
-- equistore-core/src/labels.rs: sets of labels, and the builder that makes them.
--
-- A `HashMap` is the list of its entries, no key twice. A Rust integer is the number that it stands
-- for: `LabelValue` (an `i32`) a ℤ, `usize` (64 bits) a ℕ. Methods that take `&mut self` return the new
-- value beside their result, also where they fail. The build is one without debug assertions.
pub mod Builder
pub mod Building
pub mod Finish
pub mod Lookup
pub mod Equality
pub mod Texts
pub mod Prefixes
use mathlib.Core.List.{lookup}
use equistore.Prelude.{
  ℕ, zero, suc, ◌+◌, ◌-◌, ◌*◌, ◌/◌, ◌^◌, ◌≡◌, Bool, true, false, ◌&&◌, ◌||◌, not, List, [], ◌∷◌,
  ◌++◌, length, take, drop, Option, some, none, ltb, leb, ◌==◌, if◌then◌else◌, ite, ℤ, ℤ.pos,
  ℤ.negsuc, list_discrete, ℤ_discrete, ℕ_discrete, Distinct, All, equal, enumerate, flatten,
  n_unique,
}
use equistore.Errors.{
  Name, Message, Outcome, ok, err, panic, ◌>>=◌, ◌>>◌, assert, expect, Error.invalid_parameter,
  value_out_of_range, invalid_label_name, repeated_label_name, wrong_entry_size, duplicate_entry,
  invalid_c_string, leftover_values, wrong_position_size, zero_chunk_size, out_of_range,
}

abbrev pub LabelValue : Type 0
LabelValue = ℤ

abbrev pub Entry : Type 0
Entry = List LabelValue

unfoldable pub entry_dec : Discrete Entry
unfolding list_discrete ℤ_discrete ℕ_discrete
entry_dec = list_discrete ℤ_discrete

unfoldable pub name_dec : Discrete Name
unfolding list_discrete ℕ_discrete
name_dec = list_discrete ℕ_discrete

unfoldable pub names_dec : Discrete (List Name)
unfolding name_dec list_discrete
names_dec = list_discrete name_dec

abbrev pub i32_max : ℕ
i32_max = 2147483647

abbrev pub usize_mod : ℕ
usize_mod = 2 ^ 64

-- `From<u32>` and `From<usize>`.
unfoldable pub from_usize : ℕ → Outcome LabelValue
from_usize value = do assert (ltb value i32_max) value_out_of_range; ok (pos value)

-- `From<isize>`.
unfoldable pub from_isize : ℤ → Outcome LabelValue
from_isize (pos n) = do assert (ltb n i32_max) value_out_of_range; ok (pos n)
from_isize (negsuc n) = do assert (ltb n i32_max) value_out_of_range; ok (negsuc n)

-- `LabelValue::usize`: the cast wraps a negative value around.
unfoldable pub usize : LabelValue → ℕ
usize (pos n) = n
usize (negsuc n) = usize_mod - 1 - n

pub record LabelsBuilder : Type 0 where
  pub names : List Name
  pub values : List LabelValue
  pub positions : List (Entry × ℕ)

pub record Labels : Type 0 where
  pub names : List Name
  pub values : List LabelValue
  pub positions : List (Entry × ℕ)

-- `char::is_ascii_digit`, `char::is_ascii_alphanumeric`.
abbrev pub is_ascii_digit : ℕ → Bool
is_ascii_digit c = leb b'0' c && leb c b'9'

abbrev pub is_ascii_alphanumeric : ℕ → Bool
is_ascii_alphanumeric c =
    is_ascii_digit c || (leb b'a' c && leb c b'z') || (leb b'A' c && leb c b'Z')

-- The loop of `is_valid_label_name`, at the character number `i`.
unfoldable pub valid_from : ℕ → Name → Bool
valid_from i [] = true
valid_from i (c ∷ cs) =
    if i == 0 && is_ascii_digit c
    then false
    else if not (is_ascii_alphanumeric c || c == b'_')
    then false
    else valid_from (suc i) cs

unfoldable pub is_valid_label_name : Name → Bool
unfolding valid_from
is_valid_label_name [] = false
is_valid_label_name (c ∷ cs) = valid_from 0 (c ∷ cs)

-- The assertion of `LabelsBuilder::new` on each name.
unfoldable pub check_names : List Name → Outcome (Unit {0})
unfolding is_valid_label_name
check_names [] = ok tt
check_names (name ∷ names) = do
  assert (is_valid_label_name name) (invalid_label_name name)
  check_names names

-- `Labels::size`.
abbrev pub size : Labels → ℕ
size l = length l.names

-- `Labels::count`.
unfoldable pub count : Labels → ℕ
count l = if size l == 0 then 0 else length l.values / size l

-- `Labels::is_empty`.
unfoldable pub is_empty : Labels → Bool
unfolding count
is_empty l = count l == 0

-- `Labels::contains`.
unfoldable pub contains_label : Labels → Entry → Bool
contains_label l label = elim (lookup entry_dec label l.positions) [ none ↦ false | some i ↦ true ]

-- `Labels::position`.
unfoldable pub position : Labels → Entry → Outcome (Option ℕ)
position l value = do
  assert (length value == size l) wrong_position_size
  ok (lookup entry_dec value l.positions)

-- The first `n` chunks of `size` elements.
unfoldable pub chunks : ℕ → ℕ → List LabelValue → List Entry
chunks zero size values = []
chunks (suc n) size values = take size values ∷ chunks n size (drop size values)

-- `Labels::iter`, run to its end: `chunks_exact` panics on the size 0, and leaves out what is left
-- over after the last whole chunk.
unfoldable pub iter : Labels → Outcome (List Entry)
unfolding chunks
iter l = do
  assert (not (size l == 0)) zero_chunk_size
  ok (chunks (length l.values / size l) (size l) l.values)

-- `&values[start..stop]`.
abbrev pub slice : List LabelValue → ℕ → ℕ → Outcome Entry
slice values start stop = do
  assert (leb start stop && leb stop (length values)) out_of_range
  ok (take (stop - start) (drop start values))

-- `Index<usize> for Labels`.
unfoldable pub index : Labels → ℕ → Outcome Entry
index l i = slice l.values (i * size l) ((i + 1) * size l)

-- `==` of two `HashMap`s: as many keys, and each with the same value in the other.
unfoldable pub same_values : List (Entry × ℕ) → List (Entry × ℕ) → Bool
same_values [] others = true
same_values ((key, i) ∷ positions) others =
    elim (lookup entry_dec key others) [ none ↦ false | some j ↦ i == j ]
    && same_values positions others

abbrev pub positions_eq : List (Entry × ℕ) → List (Entry × ℕ) → Bool
positions_eq a b = length a == length b && same_values a b

-- The derived `PartialEq for Labels`.
unfoldable pub labels_eq : Labels → Labels → Bool
unfolding same_values
labels_eq a b =
    equal names_dec a.names b.names
    && (equal entry_dec a.values b.values && positions_eq a.positions b.positions)

-- What a set of labels stands for: its rows are the values cut by size, none twice, and the
-- position of each is on record.
pub record IsLabels (names : List Name) (rows : List Entry) (l : Labels) : Type 0 where
  pub same_names : l.names ≡ names
  pub values : l.values ≡ flatten rows
  pub positions : l.positions ≡ enumerate 0 rows
  pub widths : All (λ row. length row ≡ length names) rows
  pub distinct : Distinct rows
  pub nameless : length names ≡ 0 → rows ≡ []
