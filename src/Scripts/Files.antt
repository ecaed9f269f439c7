-- ===== src/Scripts/Files.antt =====
-- What scripts/validate_dataset.py and scripts/prepare_banksim.py use of the file system and of the console, and the outcome of a command.
use fraud_latch.Base.{String}
use fraud_latch.Base.Action.{Action}

-- `path.parent.mkdir(parents=True, exist_ok=True)`, `path.write_text(text)`, and `print` to stdout and to stderr
pub record Files (W : Type 0) : Type 0 where
  pub make_parent : String → Action W (Unit {0})
  pub write_text : String → String → Action W (Unit {0})
  pub print : String → Action W (Unit {0})
  pub print_error : String → Action W (Unit {0})
