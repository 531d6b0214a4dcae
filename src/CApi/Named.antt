-- ===== src/CApi/Named.antt =====
-- equistore-core/src/c_api/data.rs: the name of an origin comes back in the buffer of the caller.
use equistore.Prelude.{
  ℕ, suc, ◌+◌, ◌-◌, ◌%◌, ◌^◌, ◌<◌, ◌≤◌, ◌≡◌, ◌≢◌, refl, List, [], ◌∷◌, ◌++◌, length, All-append,
  drop, ltb, leb, leb_of_le, true, false, Bool-cases, inl, inr, All, ◌==◌, if◌then◌else◌, Option,
  some, arith, Distinct,
}
use equistore.Errors.{
  Name, Error, ok, err, eqs_success, buffer_size, buffer_too_small, to_status, catch_unwind,
}
use equistore.Data.{register_data_origin}
use equistore.Data.Origins.{register_data_origin-IsRegistered}
use equistore.CApi.{defined, check_pointer, to_str, call}
use equistore.CApi.Creation.{take_all}
use equistore.CApi.Origins.{
  utf8_char, bytes_of, copy_str_to_c, eqs_register_data_origin, eqs_get_data_origin,
}

-- The string that C reads in a buffer: the bytes before the first null.
abbrev pub c_string : List ℕ → List ℕ
c_string [] = []
c_string (b ∷ bs) = let rest = c_string bs in if b == 0 then [] else b ∷ rest

c_string-append : (xs ys : List ℕ) → All (λ b. b ≢ 0) xs → c_string (xs ++ 0 ∷ ys) ≡ xs
c_string-append [] ys h = refl
c_string-append (x ∷ xs) ys h = ground (arith, c_string-append xs ys h.1, h.0)

wraps : (size : ℕ) → 0 < size → size < 2 ^ 64 → (size + (2 ^ 64 - 1)) % 2 ^ 64 ≡ size - 1
wraps size some_room small = omega arith

copy_str_to_c-fits :
    (string buffer : List ℕ) (size : ℕ)
    → size < 2 ^ 64
    → size ≤ length buffer
    → length string < size
    → copy_str_to_c string buffer size
      ≡ defined (ok (string ++ 0 ∷ drop (suc (length string)) buffer))
unfolding copy_str_to_c
copy_str_to_c-fits string buffer size small room fits =
    let whole : leb (length string) (size - 1) ≡ true = leb_of_le _ _ (omega arith) in
    let enough : ltb (length string) (length string) ≡ false = ground arith in
    let there : ltb (length string) (length buffer) ≡ true = ground arith in
    rw (wraps size (omega arith) small, whole, enough, there, take_all string) refl

copy_str_to_c-refused :
    (string buffer : List ℕ) (size : ℕ)
    → size < 2 ^ 64
    → 0 < size
    → size ≤ length string
    → copy_str_to_c string buffer size
      ≡ defined (err (buffer_size (buffer_too_small (size - 1) (length string))))
unfolding copy_str_to_c
copy_str_to_c-refused string buffer size small some_room long =
    let part : leb (length string) (size - 1) ≡ false = ground arith in
    let short : ltb (size - 1) (length string) ≡ true = ground arith in
    rw (wraps size some_room small, part, short) refl

utf8_char-nonzero : (c : ℕ) → c ≢ 0 → All (λ b. b ≢ 0) (utf8_char c)
utf8_char-nonzero c h = elim (Bool-cases (ltb c 128)) [
  | inl one ↦ rw one (h, tt)
  | inr many ↦ elim (Bool-cases (ltb c 2048)) [
    | inl two ↦ rw (many, two) (ground arith, (ground arith, tt))
    | inr more ↦ elim (Bool-cases (ltb c 65536)) [
      | inl three ↦ rw (many, more, three) (ground arith, (ground arith, (ground arith, tt)))
      | inr four ↦
          rw (many, more, four) (ground arith, (ground arith, (ground arith, (ground arith, tt))))
    ]
  ]
]

bytes_of-nonzero : (name : Name) → All (λ c. c ≢ 0) name → All (λ b. b ≢ 0) (bytes_of name)
unfolding bytes_of
bytes_of-nonzero [] h = tt
bytes_of-nonzero (c ∷ cs) h =
    All-append (λ b. b ≢ 0) (utf8_char c) (bytes_of cs) (utf8_char-nonzero c h.0)
      (bytes_of-nonzero cs h.1)

module _ (before : Option Error) (registered : List Name) (name : Name) where
  -- The origin that `eqs_register_data_origin` gives for a name without null characters has this name:
  -- with a buffer of the size that is passed, not 0, `eqs_get_data_origin` writes a string that C
  -- reads as the bytes of the name, or, where the size leaves no room for them and the null at the
  -- end, reports a small buffer and leaves it as it was.
  pub eqs_get_data_origin-registered :
      Distinct registered
      → All (λ c. c ≢ 0) name
      → (old : ℕ) (buffer : List ℕ) (size : ℕ) → 0 < size
      → size < 2 ^ 64
      → size ≤ length buffer
      → (registered' : List Name) × (origin : ℕ) × (eqs_register_data_origin before registered
            (some (some name))
            (some old)
          ≡ some (eqs_success, before, (registered', some origin)))
        × (length (bytes_of name) < size
            → (buffer' : List ℕ) × (eqs_get_data_origin before registered' origin (some buffer) size
                ≡ some (eqs_success, before, some buffer'))
              × (c_string buffer' ≡ bytes_of name))
        × (size ≤ length (bytes_of name)
            → (e : Error) × (e ≡ buffer_size (buffer_too_small (size - 1) (length (bytes_of name))))
              × (eqs_get_data_origin before registered' origin (some buffer) size
                  ≡ some (to_status e, some e, some buffer)))
  unfolding eqs_register_data_origin eqs_get_data_origin check_pointer to_str call catch_unwind
  eqs_get_data_origin-registered d valid old buffer size some_room small room =
      let r = register_data_origin-IsRegistered registered name d in
      let bytes = bytes_of name in
      (
        (register_data_origin registered name).1,
        (register_data_origin registered name).0,
        refl,
        (λ fits. (
          bytes ++ 0 ∷ drop (suc (length bytes)) buffer,
          rw (r.named, copy_str_to_c-fits bytes buffer size small room fits) refl,
          c_string-append bytes _ (bytes_of-nonzero name valid),
        )),
        (λ long. (
          buffer_size (buffer_too_small (size - 1) (length bytes)),
          refl,
          rw (r.named, copy_str_to_c-refused bytes buffer size small some_room long) refl,
        )),
      )
