-- ===== src/Tests/Codecs.antt =====
-- Codecs for equistore-core/src/io: a file is a list of headers and numbers, and a literal is parsed by
-- its quotes.
use mathlib.Core.List.{lookup}
use equistore.Prelude.{
  ℕ, zero, suc, ◌≡◌, ◌∙◌, refl, ap, subst, Bool-cases, inl, inr, true, false, List, [], ◌∷◌, ◌++◌,
  length, map, if◌then◌else◌, All, ◌==◌, ==_iff, Option, none, some, ℤ, arith,
}
use equistore.Errors.{Name, Outcome, ok, err, serialization, io, zip_io_error, expected, ◌>>=◌}
use equistore.Labels.{is_valid_label_name, valid_from, name_dec}
use equistore.Io.{Endianness, big, little, PyValue, string, tuple, list, Header, Formats}
use equistore.Io.Labels.{integer_type, descriptor_text, write_values}
use equistore.Io.RoundTrip.{IsFormats, ArePairs}
use equistore.Io.Archives.{Zip, Zipped, done, failed}

pub data Literal : Type 0 where
  text : Name → Literal
  entry : Name → Name → Literal
  entries : List (Name × Name) → Literal

pub data Token : Type 0 where
  head : Header Literal → Token
  int : ℤ → Token
  float : ℕ → Token
  file : Name → Token

-- The text before the first quote, and those between the quotes and after.
abbrev split : List ℕ → Name × List Name
split [] = ([], [])
split (c ∷ cs) = let (s, more) = split cs in if c == 39 then ([], s ∷ more) else (c ∷ s, more)

abbrev in_pairs : List Name → List (Name × Name)
in_pairs (a ∷ _ ∷ b ∷ _ ∷ names) = (a, b) ∷ in_pairs names
in_pairs _ = []

abbrev first_quoted : List Name → Option Literal
first_quoted [] = none
first_quoted (s ∷ more) = some (text s)

abbrev parse_literal : List ℕ → Option Literal
parse_literal [] = none
parse_literal (c ∷ cs) =
    let quoted = (split (c ∷ cs)).1 in
    if c == 91 then some (entries (in_pairs quoted)) else first_quoted quoted

abbrev to_entry : Name × Name → Literal
to_entry (a, b) = entry a b

abbrev view_literal : Literal → PyValue Literal
view_literal (text s) = string s
view_literal (entry a b) = tuple (text a ∷ text b ∷ [])
view_literal (entries es) = list (map to_entry es)

abbrev read_header : List Token → Outcome (Header Literal × List Token)
read_header (head h ∷ rest) = ok (h, rest)
read_header _ = err (serialization expected)

abbrev read_integers : ℕ → List Token → Outcome (List ℤ × List Token)
read_integers zero rest = ok ([], rest)
read_integers (suc n) (int z ∷ rest) = do (zs, more) ← read_integers n rest; ok (z ∷ zs, more)
read_integers _ _ = err (io zip_io_error)

abbrev read_floats : ℕ → List Token → Outcome (List ℕ × List Token)
read_floats zero rest = ok ([], rest)
read_floats (suc n) (float x ∷ rest) = do (xs, more) ← read_floats n rest; ok (x ∷ xs, more)
read_floats _ _ = err (io zip_io_error)

abbrev pub tokens : Formats ℕ
tokens = record {
  Byte = Token;
  Value = Literal;
  view = view_literal;
  parse = parse_literal;
  from_reader = read_header;
  write_header = λ h. ok (head h ∷ []);
  native = little;
  write_i32 = λ e z. int z ∷ [];
  read_i32_into = λ e. read_integers;
  write_f64 = λ e x. float x ∷ [];
  read_f64_into = λ e. read_floats;
}

split-name :
    (name rest : List ℕ)
    → All (λ c. (c == 39) ≡ false) name
    → split (name ++ 39 ∷ rest) ≡ (name, (split rest).0 ∷ (split rest).1)
split-name [] rest h = refl
split-name (c ∷ name) rest h = rw (split-name name rest h.1, h.0) refl

valid_from-plain :
    (i : ℕ) (name : Name) → valid_from i name ≡ true → All (λ c. (c == 39) ≡ false) name
unfolding valid_from
valid_from-plain i [] h = tt
valid_from-plain i (c ∷ name) h = elim (Bool-cases (c == 39)) [
  | inl quote ↦
      absurd (ground (arith, subst (λ k. valid_from i (k ∷ name) ≡ true) ((==_iff c 39).0 quote) h))
  | inr plain ↦ (plain, valid_from-plain (suc i) name (ground arith))
]

plain_name : (name : Name) → is_valid_label_name name ≡ true → All (λ c. (c == 39) ≡ false) name
unfolding is_valid_label_name
plain_name [] h = cc
plain_name (c ∷ name) h = valid_from-plain 0 (c ∷ name) h

abbrev typed : Endianness → List Name → List (Name × Name)
typed e [] = []
typed e (name ∷ names) = (name, integer_type e) ∷ typed e names

split-descriptor :
    (e : Endianness) (names : List Name)
    → All (λ name. is_valid_label_name name ≡ true) names
    → in_pairs (split (descriptor_text tokens e names)).1 ≡ typed e names
unfolding descriptor_text
split-descriptor e [] h = refl
split-descriptor big (name ∷ names) h =
    ap (λ s. in_pairs (s.0 ∷ s.1))
      (split-name name
        (44 ∷ 32 ∷ 39 ∷ (integer_type big ++ 39 ∷ 41 ∷ 44 ∷ 32 ∷ descriptor_text tokens big names))
        (plain_name name h.0))
    ∙ ap (λ ps. (name, integer_type big) ∷ ps) (split-descriptor big names h.1)
split-descriptor little (name ∷ names) h =
    ap (λ s. in_pairs (s.0 ∷ s.1))
      (split-name name
        (44
          ∷ 32
          ∷ 39
          ∷ (integer_type little ++ 39 ∷ 41 ∷ 44 ∷ 32 ∷ descriptor_text tokens little names))
        (plain_name name h.0))
    ∙ ap (λ ps. (name, integer_type little) ∷ ps) (split-descriptor little names h.1)

typed-ArePairs :
    (e : Endianness) (names : List Name) → ArePairs tokens e names (map to_entry (typed e names))
typed-ArePairs e [] = refl
typed-ArePairs e (name ∷ names) =
    ((text name, text (integer_type e), refl, refl, refl), typed-ArePairs e names)

read_integers-written :
    (values : List ℤ) → read_integers (length values) (write_values tokens values) ≡ ok (values, [])
unfolding write_values
read_integers-written [] = refl
read_integers-written (z ∷ values) = rw (read_integers-written values) refl

pub tokens-IsFormats : IsFormats tokens
tokens-IsFormats = record {
  reads_header = λ header bytes rest h.
      let same : head header ∷ [] ≡ bytes = cc h in
      subst (λ bs. read_header (bs ++ rest) ≡ ok (header, rest)) same refl;
  reads_integers = λ values _. read_integers-written values;
  parses_pairs = λ e names valid. (
    entries (typed e names),
    map to_entry (typed e names),
    ap (λ es. some (entries es)) (split-descriptor e names valid),
    refl,
    typed-ArePairs e names,
  );
}

-- An archive is its files one behind the other, each behind its name.
abbrev content : List Token → List Token
content [] = []
content (file name ∷ ts) = []
content (head h ∷ ts) = head h ∷ content ts
content (int z ∷ ts) = int z ∷ content ts
content (float x ∷ ts) = float x ∷ content ts

abbrev opened : List Token → List (Name × List Token)
opened [] = []
opened (file name ∷ ts) = (name, content ts) ∷ opened ts
opened (_ ∷ ts) = opened ts

abbrev found : Option (List Token) → Zipped (List Token)
found none = failed
found (some bytes) = done bytes

abbrev pub files : Zip Token
files = record {
  Archive = List (Name × List Token);
  open_archive = λ bytes. done (opened bytes);
  by_name = λ archive name. found (lookup name_dec name archive);
  file_names = map (λ e. e.0);
  Writer = List Token;
  new_writer = [];
  start_file = λ archive name. done (archive ++ file name ∷ []);
  write_all = λ archive bytes. ok (archive ++ bytes);
  finish_archive = done;
}
