-- ===== src/Lib.antt =====
-- equistore-core: labels, blocks of data, tensor maps, their files and their C API; and the
-- labels and tensor maps of the Rust bindings.
--
-- The library stores an array as blocks. A tensor map (equistore-core/src/tensor) has labels as keys
-- and a block for each key; a block (equistore-core/src/blocks.rs) has an array with its samples,
-- components and properties, which are labels too, and gradients of the same form; labels
-- (equistore-core/src/labels.rs) are a table of different rows under names. The arrays
-- (equistore-core/src/data.rs) belong to the user and are reached through a table of C functions.
-- Tensor maps are stored in archives of NPY files (equistore-core/src/io). C reaches all of this through
-- the functions of equistore-core/src/c_api, which turn errors and panics into a status. The Rust bindings
-- (equistore) are another crate, which calls these functions.
--
-- The files, and what they model:
--   Prelude: the shared names, and lemmas on lists, tests and tables of different keys.
--   Errors: `Error` of equistore-core/src/lib.rs; `From<Error>` and `catch_unwind` of
--     equistore-core/src/c_api/status.rs. An outcome is a value, an error or a panic. A failure whose
--     text has a null character has no status, since the source panics behind the catch there.
--   Labels: `LabelValue`, `LabelsBuilder`, `Labels` and the operations of `Labels`; Labels.Builder has
--     the operations of `LabelsBuilder`, and `build`, which is how the library makes labels from a
--     list of entries. IsLabels says what a value of `Labels` stands for. Labels.Building,
--     Labels.Finish, Labels.Lookup and Labels.Equality have the theorems, Labels.Prefixes lemmas on
--     rows behind other rows, Labels.Texts lemmas on the texts of errors.
--   Data: the registry of origins and the methods of `eqs_array_t`; theorems in Data.Origins and
--     Data.Statuses.
--   Blocks: `BasicBlock` and `TensorBlock` with their operations; theorems in Blocks.Shape,
--     Blocks.Basic, Blocks.Gradient, Blocks.Adding, Blocks.Moved and Blocks.MovedShape.
--   Tensor: equistore-core/src/tensor/mod.rs. Tensor.Keys and Tensor.Merge:
--     equistore-core/src/tensor/utils.rs. Tensor.ToSamples:
--     equistore-core/src/tensor/keys_to_samples.rs. Tensor.ToProperties:
--     equistore-core/src/tensor/keys_to_properties.rs. Tensor.Groups has what these two have in
--     common. Theorems in Tensor.Samples, Tensor.Properties, Tensor.Ranges,
--     Tensor.Removed (with the lemmas of Tensor.Removal and Tensor.Remaining), Tensor.Matching and
--     Tensor.Validity, and, on the shapes of the data, in Tensor.Shaped, Tensor.ShapedMoves and
--     Tensor.ShapedMerges; Tensor.Sets has the laws of the sets they rely on,
--     Tensor.Texts lemmas on the texts of errors.
--   Io: `read_data` and `write_data` of equistore-core/src/io/mod.rs, and the codecs they use.
--     Io.Labels: equistore-core/src/io/labels.rs. Io.Archives: `load` and `save` of
--     equistore-core/src/io/mod.rs. Theorems in Io.RoundTrip, Io.Loading and
--     Io.Decimals.
--   CApi: pointers, undefined behaviour and calls. CApi.Labels, CApi.Blocks, CApi.Tensors and CApi.Files:
--     labels.rs, blocks.rs, tensor.rs and io.rs of equistore-core/src/c_api; CApi.Origins: data.rs and
--     utils.rs there. CApi.Heap has the boxes that C holds. Theorems in CApi.Handles (with the lemmas
--     of CApi.Creation), in CApi.Ownership, CApi.Returns, CApi.Named and CApi.Matches, and in CApi.Steps, where a
--     call is a step (with the lemmas of CApi.Shaped, CApi.Calls, CApi.TensorCalls and
--     CApi.NewTensors).
--   Bindings: the reading of a status, equistore/src/errors.rs. Bindings.Labels: equistore/src/labels.rs.
--     Bindings.Tensor: equistore/src/tensor.rs. Theorems in Bindings.Table, Bindings.Making and
--     Bindings.Selection.
--   Tests: runs on concrete data; Tests.Codecs has codecs for which the laws hold.
--
-- How the code is read: a function of the source is a function here, with its checks in their order; a
-- loop is a recursion over the list or the number that it runs over. The only fuel is that of the
-- digits of a number, which are no more than its value and one. `&mut self` is a state that goes in and
-- comes out. `usize` is ℕ, since no count comes near 2^64; where the source would wrap around at an
-- empty shape it panics at the index that follows, and so does the model; the two differences that
-- wrap around without a panic, the number of components in `load` and the length of a buffer for a
-- string, are written out. A label value is a ℤ, and the conversions check its bounds. A `HashMap` is
-- the list of its entries; where the source iterates over one the list gives the order, and the
-- theorems hold for each. A `BTreeSet` is a sorted list. Debug assertions are off, as in a release
-- build. An error's text is the constructor of its format string with its values. In the C API a pointer
-- that may be NULL is an option; a call has no result where it reads or frees memory that is not
-- there, or where a panic leaves it; the heap of C has a box for each block and each tensor map, and an address is not used
-- again. A C string has no character 0.
--
-- Parameters: the C functions of the arrays (`Data.Arrays`), of which nothing is assumed but, where
-- a theorem says so, that a reshaped array has the new shape (`Blocks.MovedShape.Reshapes`) and a copy
-- the shape of the array (`Tensor.Shaped.Copies`); the sets of the crate indexmap
-- (`Tensor.Keys.IndexSets`), which keep the order of insertion and whose sorting is a permutation
-- (`Tensor.Sets.IsIndexSets`); the codecs of NPY headers, Python literals and numbers (`Io.Formats`),
-- which read what they write (`Io.RoundTrip.IsFormats`); the archives of the crate zip
-- (`Io.Archives.Zip`); and the file system.
--
-- Not modelled: the NPY header (equistore-core/src/io/npy_header.rs, a copy of code of the crate
-- ndarray-npy), the version and the panic messages of equistore-core/src/c_api/mod.rs, the memory of C
-- strings (equistore-core/src/utils.rs), reference counts and the release of arrays, failures of the
-- writer while a file is written, printing, the blocks, arrays and files of the Rust bindings, the
-- iterators of their tensor maps and those of their labels of a fixed size and in parallel, and the
-- Python, C and C++ bindings.
pub mod Prelude
pub mod Errors
pub mod Labels
pub mod Data
pub mod Blocks
pub mod Tensor
pub mod CApi
pub mod Io
pub mod Bindings
pub mod Tests
