-- ===== src/Scripts/Validate.antt =====
-- scripts/validate_dataset.py: `validate_dataset`, its checks of one row and the counts of its report. The fixed fields of the report (source,
-- license, columns) and the file's name are left out.
pub mod Duplicates
pub mod Main
use Prim.Native.String.{◌++◌ as ◌^^◌}
use fraud_latch.Base.{
  ℕ, ◌+◌, ◌-◌, ◌≡◌, String, Bool, true, false, ◌&&◌, Option, none, some, List, [], ◌∷◌, ◌++◌,
  length, str_eq, ltb, not, if◌then◌else◌,
}
use fraud_latch.Base.Int.{ℤ}
use fraud_latch.Base.Outcome.{Outcome, ok, raised, Error, value, ◌>>=◌, ◌>>◌}
use fraud_latch.Scripts.Dataset.{
  Row, CsvFile, Amount, Builtins, Values, values_of, list_of, has_empty, is_binary, is_negative,
  below_zero, is_zero, Skipped, at_line, missing_columns, join,
}

-- A row's values and how often they have occurred.
abbrev pub Counter : Type 0
Counter = List (Values × ℕ)

-- Equality of two tuples of texts.
unfoldable pub same_values : Values → Values → Bool
same_values a b =
    str_eq a.step b.step
    && str_eq a.customer b.customer
    && str_eq a.merchant b.merchant
    && str_eq a.category b.category
    && str_eq a.amount b.amount
    && str_eq a.fraud b.fraud

-- `duplicates[values] += 1`
unfoldable pub count_up : Values → Counter → Counter
count_up v [] = (v, 1) ∷ []
count_up v ((u, n) ∷ rest) = if same_values u v then (u, n + 1) ∷ rest else (u, n) ∷ count_up v rest

-- `sum(count - 1 for count in duplicates.values() if count > 1)`
unfoldable pub excess : Counter → ℕ
excess [] = 0
excess ((u, n) ∷ rest) = (if ltb 1 n then n - 1 else 0) + excess rest

-- The variables of the loop.
pub record Tally : Type 0 where
  pub row_count : ℕ
  pub fraud_count : ℕ
  pub skipped_rows : List Skipped
  pub duplicates : Counter

abbrev pub no_rows : Tally
no_rows = record { row_count = 0; fraud_count = 0; skipped_rows = []; duplicates = [] }

-- `int(step) < 0` and what `int` refuses are one error.
abbrev pub check_step : Option ℤ → ℕ → Outcome (Unit {0})
check_step none line = raised (at_line line "step must be a non-negative integer")
check_step (some n) line =
    if is_negative n then raised (at_line line "step must be a non-negative integer") else ok tt

abbrev pub parsed : Option Amount → Error → Outcome Amount
parsed none e = raised e
parsed (some a) e = ok a

abbrev pub fail_if : Bool → Error → Outcome (Unit {0})
fail_if b e = if b then raised e else ok tt

-- The loop body, from the stripped values of the row.
unfoldable pub validate_values : Builtins → ℕ → Values → Tally → Outcome Tally
unfolding has_empty
validate_values b line v t = do
  fail_if (has_empty v) (at_line line "IDs, category, and amount cannot be null")
  check_step (b.int_of_text v.step) line
  amount ← parsed (b.decimal_of_text v.amount) (at_line line "amount must be a number")
  negative ← below_zero amount
  fail_if negative (at_line line "amount must not be negative")
  fail_if (not (is_binary v.fraud)) (at_line line "fraud must be binary 0 or 1")
  ok (record {
    row_count = t.row_count + 1;
    fraud_count = t.fraud_count + (if str_eq v.fraud "1" then 1 else 0);
    skipped_rows = if is_zero amount then t.skipped_rows ++ line ∷ [] else t.skipped_rows;
    duplicates = count_up v t.duplicates;
  })

unfoldable pub validate_rows : Builtins → ℕ → List Row → Tally → Outcome Tally
unfolding validate_values
validate_rows b line [] t = ok t
validate_rows b line (row ∷ rows) t =
    validate_values b line (values_of b row) t >>= validate_rows b (line + 1) rows

-- The report's counts and digest.
pub record Report : Type 0 where
  pub sha256 : String
  pub row_count : ℕ
  pub fraud_count : ℕ
  pub valid_row_count : ℕ
  pub skipped_row_count : ℕ
  pub skipped_rows : List Skipped
  pub duplicate_rows : ℕ

abbrev pub report_of : String → Tally → Report
report_of digest t = record {
  sha256 = digest;
  row_count = t.row_count;
  fraud_count = t.fraud_count;
  valid_row_count = t.row_count - length t.skipped_rows;
  skipped_row_count = length t.skipped_rows;
  skipped_rows = t.skipped_rows;
  duplicate_rows = excess t.duplicates;
}

abbrev pub refuse_missing : List String → Outcome (Unit {0})
refuse_missing [] = ok tt
refuse_missing (c ∷ cs) =
    raised (record { kind = value; message = "missing required columns: " ^^ join ", " (c ∷ cs) })

-- `none` is a path where there is no file.
unfoldable pub validate_dataset : Builtins → Option CsvFile → Outcome Report
unfolding validate_rows
validate_dataset b none = raised (record { kind = value; message = "dataset is missing" })
validate_dataset b (some file) = do
  refuse_missing (missing_columns file)
  t ← validate_rows b 2 file.rows no_rows
  ok (report_of file.sha256 t)
