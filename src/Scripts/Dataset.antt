-- ===== src/Scripts/Dataset.antt =====
-- What scripts/validate_dataset.py and scripts/prepare_banksim.py share: the CSV file as csv.DictReader gives it, the
-- required columns, and the numerals that int and Decimal read.
use Prim.Native.String.{◌++◌ as ◌^^◌}
use Prim.Native.Nat.{◌^◌}
use fraud_latch.Base.{
  ℕ, ◌+◌, ◌-◌, ◌*◌, ◌/◌, ◌%◌, String, Bool, true, false, ◌||◌, Option, none, some, List, [], ◌∷◌,
  str_eq, ltb, leb, ◌==◌, if◌then◌else◌,
}
use fraud_latch.Base.Int.{ℤ, pos, negsuc, abs}
use fraud_latch.Base.Assoc.{Assoc, lookup}
use fraud_latch.Base.Text.{str}
use fraud_latch.Base.Outcome.{Outcome, ok, raised, Error, other, value}

-- A row of csv.DictReader: a column with no value is `none`.
abbrev pub Row : Type 0
Row = Assoc (Option String)

-- The open file: its header line, its rows and the SHA-256 of its bytes.
pub record CsvFile : Type 0 where
  pub fieldnames : Option (List String)
  pub rows : List Row
  pub sha256 : String

-- A decimal numeral: `finite m k` is m * 10^-k.
pub data Amount : Type 0 where
  finite : ℤ → ℕ → Amount
  nan : Amount
  infinity : Bool → Amount

-- Built-in routines on texts: `str.strip`, `int`, `Decimal` (`none` for an error) and the SHA-256 of a text.
pub record Builtins : Type 0 where
  pub strip : String → String
  pub int_of_text : String → Option ℤ
  pub decimal_of_text : String → Option Amount
  pub sha256_hex : String → String

-- `REQUIRED_COLUMNS`
abbrev pub required_columns : List String
required_columns = "step" ∷ "customer" ∷ "merchant" ∷ "category" ∷ "amount" ∷ "fraud" ∷ []

abbrev pub column_in : String → List String → Bool
column_in c [] = false
column_in c (d ∷ ds) = str_eq d c || column_in c ds

-- `reader.fieldnames or ()`
abbrev pub columns_of : CsvFile → List String
columns_of f = elim f.fieldnames [ none ↦ [] | some cs ↦ cs ]

-- `[column for column in REQUIRED_COLUMNS if column not in columns]`
abbrev pub missing_from : List String → List String → List String
missing_from columns [] = []
missing_from columns (c ∷ cs) =
    if column_in c columns then missing_from columns cs else c ∷ missing_from columns cs

unfoldable pub missing_columns : CsvFile → List String
missing_columns f = missing_from (columns_of f) required_columns

-- `sep.join(texts)`
unfoldable pub join : String → List String → String
join sep [] = ""
join sep (s ∷ []) = s
join sep (s ∷ t ∷ rest) = s ^^ (sep ^^ join sep (t ∷ rest))

-- `row.get(column) or ""`
abbrev pub text_or_empty : Option (Option String) → String
text_or_empty (some (some s)) = s
text_or_empty _ = ""

-- The six required values of a row.
pub record Values : Type 0 where
  pub step : String
  pub customer : String
  pub merchant : String
  pub category : String
  pub amount : String
  pub fraud : String

unfoldable pub values_of : Builtins → Row → Values
values_of b row =
    let get = λ (column : String). b.strip (text_or_empty (lookup column row)) in
    record {
      step = get "step";
      customer = get "customer";
      merchant = get "merchant";
      category = get "category";
      amount = get "amount";
      fraud = get "fraud";
    }

abbrev pub list_of : Values → List String
list_of v = v.step ∷ v.customer ∷ v.merchant ∷ v.category ∷ v.amount ∷ v.fraud ∷ []

-- `not customer or not merchant or not category or not amount`
unfoldable pub has_empty : Values → Bool
has_empty v =
    str_eq v.customer "" || str_eq v.merchant "" || str_eq v.category "" || str_eq v.amount ""

-- `fraud in {"0", "1"}`
abbrev pub is_binary : String → Bool
is_binary fraud = str_eq fraud "0" || str_eq fraud "1"

abbrev pub is_negative : ℤ → Bool
is_negative (pos n) = false
is_negative (negsuc n) = true

-- What the decimal module raises where an operation has no result (InvalidOperation).
abbrev pub invalid_operation : Error
invalid_operation = record { kind = other; message = "InvalidOperation" }

-- `amount < 0`, which NaN refuses
abbrev pub below_zero : Amount → Outcome Bool
below_zero (finite m k) = ok (is_negative m)
below_zero nan = raised invalid_operation
below_zero (infinity negative) = ok negative

-- `amount == 0`
abbrev pub is_zero : Amount → Bool
is_zero (finite m k) = abs m == 0
is_zero nan = false
is_zero (infinity negative) = false

-- The whole number nearest to n / d, a tie going to the even one.
abbrev pub half_even : ℕ → ℕ → ℕ
half_even n d =
    let q = n / d in
    let r = n % d in if ltb (2 * r) d then q else if ltb d (2 * r) then q + 1 else q + q % 2

-- The hundredths that a numeral is rounded to.
unfoldable pub cents : ℕ → ℕ → ℕ
cents m k = if leb k 2 then m * 10 ^ (2 - k) else half_even m (10 ^ (k - 2))

-- `amount.quantize(Decimal("0.01"))` on a positive amount, in hundredths: a result of more than 28 digits is refused.
unfoldable pub quantize_cents : Amount → Outcome ℕ
unfolding cents
quantize_cents (finite m k) =
    if ltb (cents (abs m) k) (10 ^ 28) then ok (cents (abs m) k) else raised invalid_operation
quantize_cents nan = raised invalid_operation
quantize_cents (infinity negative) = raised invalid_operation

-- A skipped row, by its line; the reason is always "zero_amount".
abbrev pub Skipped : Type 0
Skipped = ℕ

-- A dataset error names its line.
abbrev pub at_line : ℕ → String → Error
at_line n text = record { kind = value; message = "line " ^^ (str n ^^ (": " ^^ text)) }
