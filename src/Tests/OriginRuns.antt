-- ===== src/Tests/OriginRuns.antt =====
-- equistore-core/src/c_api/data.rs: names of origins in buffers.
use mathlib.Core.List.{lookup}
use equistore.Prelude.{
  ℕ, ◌-◌, ◌<◌, ◌≤◌, ◌≡◌, refl, List, [], ◌∷◌, length, some, none, codes, list_discrete, ℕ_discrete,
  arith,
}
use equistore.Errors.{
  Name, Error, buffer_size, buffer_too_small, to_status, eqs_success, catch_unwind,
}
use equistore.Labels.{name_dec}
use equistore.Data.{initial_origins, register_data_origin, get_data_origin}
use equistore.CApi.{check_pointer, to_str, call}
use equistore.CApi.Origins.{bytes_of, copy_str_to_c, eqs_register_data_origin, eqs_get_data_origin}
use equistore.CApi.Named.{c_string, eqs_get_data_origin-registered}

program : Unit {0}
unfolding list_discrete ℕ_discrete name_dec lookup register_data_origin get_data_origin to_status
    catch_unwind check_pointer to_str call bytes_of copy_str_to_c eqs_register_data_origin
    eqs_get_data_origin
program = tt

abbrev buffer : List ℕ
buffer = 1 ∷ 1 ∷ 1 ∷ 1 ∷ 1 ∷ 1 ∷ 1 ∷ []

eqs_get_data_origin-registered_example :
    (registered' : List Name) × (origin : ℕ) × (eqs_register_data_origin none initial_origins
        (some (some (codes "numpy")))
        (some 9)
      ≡ some (eqs_success, none, (registered', some origin)))
    × (length (bytes_of (codes "numpy")) < 6
        → (buffer' : List ℕ) × (eqs_get_data_origin none registered' origin (some buffer) 6
            ≡ some (eqs_success, none, some buffer'))
          × (c_string buffer' ≡ bytes_of (codes "numpy")))
    × (6 ≤ length (bytes_of (codes "numpy"))
        → (e : Error) × (e
            ≡ buffer_size (buffer_too_small (6 - 1) (length (bytes_of (codes "numpy")))))
          × (eqs_get_data_origin none registered' origin (some buffer) 6
              ≡ some (to_status e, some e, some buffer)))
eqs_get_data_origin-registered_example =
    eqs_get_data_origin-registered none initial_origins (codes "numpy") (tt, tt)
      (ground arith, (ground arith, (ground arith, (ground arith, (ground arith, tt))))) 9 buffer 6
      (omega arith) (omega arith) (omega arith)

gets :
    eqs_get_data_origin none (initial_origins) 0 (some (1 ∷ 2 ∷ 3 ∷ [])) 3
    ≡ some (
      to_status (buffer_size (buffer_too_small 2 19)),
      some (buffer_size (buffer_too_small 2 19)),
      some (1 ∷ 2 ∷ 3 ∷ []),
    )
unfolding program
gets = refl

writes :
    eqs_get_data_origin none (codes "ab" ∷ []) 0 (some (1 ∷ 2 ∷ 3 ∷ 4 ∷ [])) 3
    ≡ some (eqs_success, none, some (97 ∷ 98 ∷ 0 ∷ 4 ∷ []))
unfolding program
writes = refl

-- With a size of 0 the string is written past the end of the buffer.
writes_past : eqs_get_data_origin none (codes "ab" ∷ []) 0 (some []) 0 ≡ none
unfolding program
writes_past = refl
