-- ===== src/Scripts/Validate/Main.antt =====
-- scripts/validate_dataset.py: main, from the command line's paths to the exit code.
use fraud_latch.Base.{ℕ, String, Bool, true, false, Option, if◌then◌else◌}
use Prim.Native.String.{◌++◌ as ◌^^◌}
use fraud_latch.Base.Outcome.{Outcome, ok, raised, Error, value}
use fraud_latch.Base.Action.{Action, pure, raise, ◌>>◌}
use fraud_latch.Scripts.Dataset.{Builtins, CsvFile}
use fraud_latch.Scripts.Files.{Files}
use fraud_latch.Scripts.Validate.{Report, validate_dataset}

-- `isinstance(error, DatasetValidationError)`: of the errors of `validate_dataset`, those of a kind of ValueError.
abbrev pub is_validation_error : Error → Bool
is_validation_error e = elim e.kind [ value ↦ true | _ ↦ false ]

module _ {W : Type 0} (files : Files W) (dumps dumps_indented : Report → String) where
  open files use {make_parent, write_text, print, print_error}

  -- What follows `validate_dataset`; DatasetValidationError is the one error that is caught.
  unfoldable pub finish : String → Outcome Report → Action W ℕ
  finish manifest (raised e) =
      if is_validation_error e then (do print_error ("error: " ^^ e.message); pure 1) else raise e
  finish manifest (ok report) = do
    make_parent manifest
    write_text manifest (dumps_indented report ^^ "\n")
    print (dumps report)
    pure 0

  unfoldable pub main : Builtins → Option CsvFile → String → Action W ℕ
  unfolding finish
  main b file manifest = finish manifest (validate_dataset b file)
