-- ===== src/Scripts/Convert/Main.antt =====
-- scripts/prepare_banksim.py: write_outputs and main.
use fraud_latch.Base.{ℕ, String, Bool, Option, List, if◌then◌else◌}
use Prim.Native.String.{◌++◌ as ◌^^◌}
use fraud_latch.Base.Outcome.{Outcome, Error}
use fraud_latch.Base.Action.{Action, pure, raise, lift, try_except, ◌>>=◌, ◌>>◌}
use fraud_latch.Scripts.Dataset.{Builtins, CsvFile}
use fraud_latch.Scripts.Files.{Files}
use fraud_latch.Scripts.Convert.{CanonicalRow, Manifest, convert_dataset}

-- The manifest as it is written, with the two entries that `write_outputs` adds.
pub record Written : Type 0 where
  pub manifest : Manifest
  pub output_file : String
  pub output_sha256 : String

-- What is used of pyarrow and hashlib: the table of the columns, its writing, and the digest of a file. A value that its column cannot
-- hold makes `table` raise.
pub record Parquet (W T : Type 0) : Type 0 where
  pub table : List CanonicalRow → Outcome T
  pub write_table : T → String → Action W (Unit {0})
  pub sha256_of : String → Action W String

module _ {W T : Type 0} (files : Files W) (parquet : Parquet W T)
    (dumps dumps_indented : Written → String) where
  open files use {make_parent, write_text, print, print_error}
  open parquet use {table, write_table, sha256_of}

  unfoldable pub write_outputs : List CanonicalRow → Manifest → String → String → Action W Written
  write_outputs rows manifest output manifest_path = do
    t ← lift (table rows)
    make_parent output
    write_table t output
    sha256 ← sha256_of output
    make_parent manifest_path
    let written : Written = record {
      manifest = manifest;
      output_file = output;
      output_sha256 = sha256;
    }
    write_text manifest_path (dumps_indented written ^^ "\n")
    pure written

  -- The `try` block.
  abbrev pub prepare : Builtins → String → Option CsvFile → String → String → Action W Written
  prepare b seed file output manifest_path = do
    (rows, manifest) ← lift (convert_dataset b seed file)
    write_outputs rows manifest output manifest_path

  -- `parser.error` prints the message and exits with 2.
  abbrev pub reported : (Error → Bool) → Error → Action W ℕ
  reported is_reported e = if is_reported e then (do print_error e.message; pure 2) else raise e

  -- `is_reported` says which errors are a ConversionError, an OSError or an ArrowException.
  unfoldable pub main :
      (Error → Bool) → Builtins → String → Option CsvFile → String → String → Action W ℕ
  unfolding write_outputs
  main is_reported b seed file output manifest_path =
      try_except (prepare b seed file output manifest_path) (reported is_reported)
        (λ written. do print (dumps written); pure 0)
