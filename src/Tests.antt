-- ===== src/Tests.antt =====
-- The data that the tests share: plain arrays, index sets that are lists, and labels of given rows.
mod LabelRuns
mod BlockRuns
mod TensorRuns
mod MoveRuns
mod Codecs
mod MatchRuns
mod BindingRuns
mod OriginRuns
mod IoRuns
mod KeyRuns
mod MergeRuns
mod CApiRuns
use Prim.Native.Nat.{Ordering}
use mathlib.Core.List.{Permᴰ}
use equistore.Prelude.{
  Option, none, set, get_elem?, ℕ, ◌≡◌, refl, Bool, true, false, List, [], ◌∷◌, ◌++◌, length, some,
  none, ℤ.pos, All, Distinct, enumerate, flatten, codes, map, perm_refl,
}
use equistore.Errors.{Name}
use equistore.Labels.{Entry, Labels, IsLabels}
use equistore.Data.{Arrays}
use equistore.Blocks.{BasicBlock, TensorBlock}
use equistore.Tensor.Keys.{IndexSets, insert_new}
use equistore.Tensor.Merge.{compare_entries}
use equistore.Tensor.Sets.{IsIndexSets}

-- A shape with two axes swapped.
abbrev swapped : List ℕ → ℕ → ℕ → Option ℕ → Option ℕ → List ℕ
swapped s i j (some m) (some n) = set (set s i n) j m
swapped s i j none found = s
swapped s i j (some m) none = s

-- An array with its shape and its elements.
abbrev pub plain : Arrays
plain = record {
  Array = List ℕ × List ℕ;
  Float = ℕ;
  origin_fn = λ a. some (pos 0, 1);
  data_fn = λ a. some (pos 0, a.1);
  shape_fn = λ a. some (pos 0, a.0);
  reshape_fn = λ a. some (λ s. (pos 0, (s, a.1)));
  swap_axes_fn =
      λ a. some (λ i j. (pos 0, (swapped a.0 i j (get_elem? a.0 i) (get_elem? a.0 j), a.1)));
  create_fn = λ a. some (λ s. (pos 0, (s, [])));
  copy_fn = λ a. some (pos 0, a);
  move_samples_from_fn = λ a. some (λ input samples start stop. (pos 0, (a.0, a.1 ++ input.1)));
}

abbrev pub place : Entry → List Entry → List Entry
place e [] = e ∷ []
place e (x ∷ xs) =
    let rest = place e xs in elim (compare_entries e x) [ Ordering.gt ↦ x ∷ rest | _ ↦ e ∷ x ∷ xs ]

abbrev pub sort : List Entry → List Entry
sort [] = []
sort (e ∷ es) = place e (sort es)

place-cases :
    (e x : Entry) (xs : List Entry) (o : Ordering)
    → Permᴰ (e ∷ xs) (place e xs)
    → Permᴰ (e ∷ x ∷ xs) (elim o [ Ordering.gt ↦ x ∷ place e xs | _ ↦ e ∷ x ∷ xs ])
place-cases e x xs Ordering.lt p = perm_refl (e ∷ x ∷ xs)
place-cases e x xs Ordering.eq p = perm_refl (e ∷ x ∷ xs)
place-cases e x xs Ordering.gt p = Permᴰ.trans (Permᴰ.swap refl refl) (Permᴰ.cons refl p)

place-perm : (e : Entry) (xs : List Entry) → Permᴰ (e ∷ xs) (place e xs)
place-perm e [] = perm_refl (e ∷ [])
place-perm e (x ∷ xs) = place-cases e x xs (compare_entries e x) (place-perm e xs)

sort-perm : (xs : List Entry) → Permᴰ xs (sort xs)
sort-perm [] = Permᴰ.nil
sort-perm (e ∷ es) = Permᴰ.trans (Permᴰ.cons refl (sort-perm es)) (place-perm e (sort es))

-- Sets as lists of different entries.
abbrev pub lists : IndexSets
lists = record {
  IndexSet = List Entry;
  empty = [];
  insert = λ s e. insert_new e s;
  sort_unstable = sort;
  to_list = λ s. s;
}

pub lists-IsIndexSets : IsIndexSets lists
lists-IsIndexSets = record {
  to_list-empty = refl;
  to_list-insert = λ s e. refl;
  to_list-sort = sort-perm;
}

abbrev pub labels_of : List Name → List Entry → Labels
labels_of names rows = record { names = names; values = flatten rows; positions = enumerate 0 rows }

pub labels_of-IsLabels :
    (names : List Name) (rows : List Entry)
    → All (λ row. length row ≡ length names) rows
    → Distinct rows
    → (length names ≡ 0 → rows ≡ [])
    → IsLabels names rows (labels_of names rows)
labels_of-IsLabels names rows w d n = record {
  same_names = refl;
  values = refl;
  positions = refl;
  widths = w;
  distinct = d;
  nameless = n;
}

abbrev pub sample_names : List Name
sample_names = codes "sample" ∷ []

abbrev pub property_names : List Name
property_names = codes "n" ∷ []

-- A block without components.
abbrev pub block_of : List Entry → List Entry → TensorBlock plain
block_of samples properties = record {
  values = record {
    array = (
      length samples ∷ length properties ∷ [],
      flatten (map (λ r. map (λ x. 5) properties) samples),
    );
    samples = labels_of sample_names samples;
    components = [];
    properties = labels_of property_names properties;
  };
  gradients = [];
  gradient_parameters = [];
}
