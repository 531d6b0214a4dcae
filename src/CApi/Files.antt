-- ===== src/CApi/Files.antt =====
-- equistore-core/src/c_api/io.rs: tensor maps in files that C names.
--
-- The files of the system are a parameter: `open_file` gives the content of a file, and `create_file` makes an
-- empty one.
use equistore.Prelude.{ℕ, ℤ, List, Option, none, some}
use equistore.Errors.{Name, Error, Outcome, ok}
use equistore.Data.{Arrays, checked}
use equistore.Io.{Formats}
use equistore.Io.Archives.{Zip, load, save}
use equistore.CApi.{defined, ◌>>=◌, check_pointer, CString, to_str, Called, call}
use equistore.CApi.Heap.{TensorPtr, Heap, into_boxed_raw, read_tensor}
use equistore.CApi.Blocks.{Returned, returned}

module _ (X : Arrays) (F : Formats X.Float) (Z : Zip F.Byte) where
  -- The callback returns its status and the array.
  unfoldable pub create_array : (List ℕ → ℤ × X.Array) → List ℕ → Outcome X.Array
  create_array callback shape = checked (callback shape)

  unfoldable pub eqs_tensormap_load :
      (X.Array → List X.Float → X.Array)
      → (Name → Outcome (List F.Byte))
      → Option Error
      → Heap X
      → Option CString
      → (List ℕ → ℤ × X.Array)
      → Option (Returned (Heap X × TensorPtr))
  eqs_tensormap_load fill open_file before heap path callback = returned (
      call before (heap, none)
        (do
          string ← check_pointer path
          text ← to_str string
          file ← defined (open_file text)
          tensor ← defined (load X F Z fill (create_array callback) file)
          defined (ok (into_boxed_raw X heap tensor))))

  -- What is in the file afterwards, where it is known: a failure leaves some part of it.
  unfoldable pub eqs_tensormap_save :
      (Name → Outcome (Unit {0}))
      → Option Error
      → Heap X
      → Option CString
      → TensorPtr
      → Option (Called (Option (List F.Byte)))
  eqs_tensormap_save create_file before heap path tensor = call before none (do
    string ← check_pointer path
    t ← check_pointer tensor
    text ← to_str string
    _ ← defined (create_file text)
    rust ← read_tensor X heap t
    saved ← defined (save X F Z rust)
    defined (ok (some saved)))
