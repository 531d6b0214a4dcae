-- ===== src/CApi/Origins.antt =====
-- equistore-core/src/c_api/data.rs and equistore-core/src/c_api/utils.rs: data origins and their names.
use equistore.Prelude.{
  ℕ, suc, ◌+◌, ◌-◌, ◌/◌, ◌%◌, ◌^◌, List, [], ◌∷◌, ◌++◌, length, take, drop, ltb, leb, Option, some,
  if◌then◌else◌,
}
use equistore.Errors.{Name, Error, ok, err, buffer_size, buffer_too_small}
use equistore.Data.{register_data_origin, get_data_origin}
use equistore.CApi.{Unsafe, undefined, defined, ◌>>=◌, check_pointer, CString, to_str, Called, call}

-- The bytes of a character in UTF-8.
abbrev pub utf8_char : ℕ → List ℕ
utf8_char c =
    if ltb c 128
    then c ∷ []
    else if ltb c 2048
    then (192 + c / 64) ∷ (128 + c % 64) ∷ []
    else if ltb c 65536
    then (224 + c / 4096) ∷ (128 + c / 64 % 64) ∷ (128 + c % 64) ∷ []
    else (240 + c / 262144) ∷ (128 + c / 4096 % 64) ∷ (128 + c / 64 % 64) ∷ (128 + c % 64) ∷ []

-- The bytes of a string.
unfoldable pub bytes_of : Name → List ℕ
bytes_of [] = []
bytes_of (c ∷ cs) = utf8_char c ++ bytes_of cs

abbrev pub min : ℕ → ℕ → ℕ
min a b = if leb a b then a else b

-- `buffer` is the memory from the pointer on; `buflen - 1` wraps around.
unfoldable pub copy_str_to_c : List ℕ → List ℕ → ℕ → Unsafe (List ℕ)
copy_str_to_c string buffer buflen =
    let size = min (length string) ((buflen + (2 ^ 64 - 1)) % 2 ^ 64) in
    if ltb size (length string)
    then defined (err (buffer_size (buffer_too_small size (length string))))
    else if ltb size (length buffer)
    then defined (ok (take size string ++ 0 ∷ drop (suc size) buffer))
    else undefined

-- The registry is a state; `origin` is what the pointer to the output points at.
unfoldable pub eqs_register_data_origin :
    Option Error → List Name → Option CString → Option ℕ → Option (Called (List Name × Option ℕ))
eqs_register_data_origin before registered name origin =
    call before (registered, origin)
      (do
        string ← check_pointer name
        _ ← check_pointer origin
        text ← to_str string
        let (id, registered') = register_data_origin registered text
        defined (ok (registered', some id)))

unfoldable pub eqs_get_data_origin :
    Option Error → List Name → ℕ → Option (List ℕ) → ℕ → Option (Called (Option (List ℕ)))
unfolding bytes_of copy_str_to_c
eqs_get_data_origin before registered origin buffer size = call before buffer (do
  memory ← check_pointer buffer
  name ← defined (get_data_origin registered origin)
  filled ← copy_str_to_c (bytes_of name) memory size
  defined (ok (some filled)))
