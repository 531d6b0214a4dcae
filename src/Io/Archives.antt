-- ===== src/Io/Archives.antt =====
-- equistore-core/src/io/mod.rs: `load` and `save`.
use equistore.Prelude.{
  ℕ, zero, suc, ◌+◌, ◌-◌, ◌/◌, ◌%◌, ◌^◌, List, [], ◌∷◌, ◌++◌, length, take, drop, Bool, ◌&&◌, ltb,
  leb, if◌then◌else◌, codes, equal,
}
use equistore.Errors.{
  Name, Outcome, ok, err, panic, io, serialization, ◌>>=◌, zip_error, zip_io_error, out_of_range,
}
use equistore.Labels.{Labels, count, name_dec}
use equistore.Data.{Arrays}
use equistore.Blocks.{BasicBlock, TensorBlock, new_block, add_gradient}
use equistore.Tensor.{TensorMap, new_map}
use equistore.Io.{Formats, read_data, write_data}
use equistore.Io.Labels.{read_npy_labels, write_npy_labels}

-- What an operation of the crate zip returns: a value, `ZipError::Io`, or another error.
pub data Zipped (A : Type 0) : Type 0 where
  done : A → Zipped A
  failed_io : Zipped A
  failed : Zipped A

-- Archives, as they are read and as they are written.
pub record Zip (Byte : Type 0) : Type 1 where
  pub Archive : Type 0
  pub open_archive : List Byte → Zipped Archive
  pub by_name : Archive → Name → Zipped (List Byte)
  pub file_names : Archive → List Name
  pub Writer : Type 0
  pub new_writer : Writer
  pub start_file : Writer → Name → Zipped Writer
  pub write_all : Writer → List Byte → Outcome Writer
  pub finish_archive : Writer → Zipped (List Byte)

-- `From<(String, ZipError)> for Error`.
unfoldable pub map_err : {A : Type 0} → Name → Zipped A → Outcome A
map_err path (done a) = ok a
map_err path failed_io = err (io zip_io_error)
map_err path failed = err (serialization (zip_error path))

-- How the standard library prints a number with `{}`. A number has no more digits than its value, and
-- one.
unfoldable pub digits : ℕ → ℕ → Name
digits zero n = []
digits (suc fuel) n =
    let rest = digits fuel (n / 10) in
    if ltb n 10 then (48 + n) ∷ [] else rest ++ (48 + n % 10) ∷ []

unfoldable pub decimal : ℕ → Name
unfolding digits
decimal n = digits (suc n) n

unfoldable pub starts_with : Name → Name → Bool
starts_with name prefix = equal name_dec (take (length prefix) name) prefix

unfoldable pub ends_with : Name → Name → Bool
ends_with name suffix =
    leb (length suffix) (length name)
    && equal name_dec (drop (length name - length suffix) name) suffix

abbrev pub gradients_of_0 : Name
gradients_of_0 = codes "blocks/0/gradients/"

abbrev pub data_npy : Name
data_npy = codes "/data.npy"

-- `parameter.split_at(parameter.len() - 9)`, where the difference wraps around below 9.
unfoldable pub without_suffix : Name → Outcome Name
without_suffix parameter =
    if ltb (length parameter) 9
    then panic out_of_range
    else ok (take (length parameter - 9) parameter)

-- The loop over the names of the files.
unfoldable pub find_parameters : List Name → Outcome (List Name)
unfolding starts_with ends_with without_suffix
find_parameters [] = ok []
find_parameters (name ∷ names) =
    if starts_with name gradients_of_0 && ends_with name data_npy
    then (do
      parameter ← without_suffix (drop 19 name)
      rest ← find_parameters names
      ok (parameter ∷ rest))
    else find_parameters names

-- `shape.len() - 2`, which wraps around.
abbrev pub components_count : List ℕ → ℕ
components_count shape = (length shape + 2 ^ 64 - 2) % 2 ^ 64

abbrev pub block_path : ℕ → Name
block_path block_i = codes "blocks/" ++ decimal block_i

abbrev pub values_path : ℕ → Name
values_path block_i = block_path block_i ++ codes "/values/"

abbrev pub gradient_path : ℕ → Name → Name
gradient_path block_i parameter =
    block_path block_i ++ codes "/gradients/" ++ parameter ++ codes "/"

abbrev pub component_path : Name → ℕ → Name
component_path prefix i = prefix ++ codes "components/" ++ decimal i ++ codes ".npy"

module _ (X : Arrays) (F : Formats X.Float) (Z : Zip F.Byte)
    (fill : X.Array → List X.Float → X.Array) (create_array : List ℕ → Outcome X.Array) where
  unfoldable pub load_labels : Z.Archive → Name → Outcome Labels
  unfolding map_err
  load_labels archive path = do file ← map_err path (Z.by_name archive path); read_npy_labels F file

  -- The loop over the components, from the number `i` on.
  unfoldable pub load_components : Z.Archive → Name → ℕ → ℕ → Outcome (List Labels)
  unfolding decimal
  load_components archive prefix i zero = ok []
  load_components archive prefix i (suc n) = do
    component ← load_labels archive (component_path prefix i)
    rest ← load_components archive prefix (suc i) n
    ok (component ∷ rest)

  unfoldable pub load_gradients :
      Z.Archive → ℕ → TensorBlock X → List Name → Outcome (TensorBlock X)
  unfolding decimal map_err
  load_gradients archive block_i block [] = ok block
  load_gradients archive block_i block (parameter ∷ parameters) = do
    let prefix = gradient_path block_i parameter
    data_file ←
        map_err (prefix ++ codes "data.npy") (Z.by_name archive (prefix ++ codes "data.npy"))
    (array, shape) ← read_data X F fill create_array data_file
    samples ← load_labels archive (prefix ++ codes "samples.npy")
    components ← load_components archive prefix 0 (components_count shape)
    added ← add_gradient X block parameter array samples components
    load_gradients archive block_i added parameters

  unfoldable pub load_block : Z.Archive → List Name → ℕ → Outcome (TensorBlock X)
  unfolding decimal map_err
  load_block archive parameters block_i = do
    let prefix = values_path block_i
    data_file ←
        map_err (prefix ++ codes "data.npy") (Z.by_name archive (prefix ++ codes "data.npy"))
    (array, shape) ← read_data X F fill create_array data_file
    samples ← load_labels archive (prefix ++ codes "samples.npy")
    components ← load_components archive prefix 0 (components_count shape)
    properties ← load_labels archive (prefix ++ codes "properties.npy")
    block ← new_block X array samples components properties
    load_gradients archive block_i block parameters

  -- The loop over the blocks, from the number `block_i` on.
  unfoldable pub load_blocks : Z.Archive → List Name → ℕ → ℕ → Outcome (List (TensorBlock X))
  load_blocks archive parameters block_i zero = ok []
  load_blocks archive parameters block_i (suc n) = do
    block ← load_block archive parameters block_i
    blocks ← load_blocks archive parameters (suc block_i) n
    ok (block ∷ blocks)

  unfoldable pub load : List F.Byte → Outcome (TensorMap X)
  load reader = do
    archive ← map_err (codes "<root>") (Z.open_archive reader)
    keys ← load_labels archive (codes "keys.npy")
    parameters ← find_parameters (Z.file_names archive)
    blocks ← load_blocks archive parameters 0 (count keys)
    new_map X keys blocks

module _ (X : Arrays) (F : Formats X.Float) (Z : Zip F.Byte) where
  -- A file is started, and then its content is written.
  unfoldable pub save_file : Z.Writer → Name → Outcome (List F.Byte) → Outcome Z.Writer
  unfolding map_err
  save_file archive path content = do
    started ← map_err path (Z.start_file archive path)
    bytes ← content
    Z.write_all started bytes

  unfoldable pub save_components : Z.Writer → Name → ℕ → List Labels → Outcome Z.Writer
  unfolding decimal
  save_components archive prefix i [] = ok archive
  save_components archive prefix i (component ∷ components) = do
    next ← save_file archive (component_path prefix i) (write_npy_labels F component)
    save_components next prefix (suc i) components

  unfoldable pub save_gradients : Z.Writer → ℕ → List (Name × BasicBlock X) → Outcome Z.Writer
  unfolding decimal
  save_gradients archive block_i [] = ok archive
  save_gradients archive block_i ((parameter, gradient) ∷ gradients) = do
    let prefix = gradient_path block_i parameter
    a₁ ← save_file archive (prefix ++ codes "data.npy") (write_data X F gradient.array)
    a₂ ← save_file a₁ (prefix ++ codes "samples.npy") (write_npy_labels F gradient.samples)
    a₃ ← save_components a₂ prefix 0 gradient.components
    save_gradients a₃ block_i gradients

  -- The loop over the blocks, from the number `block_i` on.
  unfoldable pub save_blocks : Z.Writer → ℕ → List (TensorBlock X) → Outcome Z.Writer
  unfolding decimal
  save_blocks archive block_i [] = ok archive
  save_blocks archive block_i (block ∷ blocks) = do
    let prefix = values_path block_i
    a₁ ← save_file archive (prefix ++ codes "data.npy") (write_data X F block.values.array)
    a₂ ← save_file a₁ (prefix ++ codes "samples.npy") (write_npy_labels F block.values.samples)
    a₃ ← save_components a₂ prefix 0 block.values.components
    a₄ ←
        save_file a₃ (prefix ++ codes "properties.npy") (write_npy_labels F block.values.properties)
    a₅ ← save_gradients a₄ block_i block.gradients
    save_blocks a₅ (suc block_i) blocks

  unfoldable pub save : TensorMap X → Outcome (List F.Byte)
  save tensor = do
    a₁ ← save_file Z.new_writer (codes "keys.npy") (write_npy_labels F tensor.keys)
    a₂ ← save_blocks a₁ 0 tensor.blocks
    map_err (codes "<root>") (Z.finish_archive a₂)
