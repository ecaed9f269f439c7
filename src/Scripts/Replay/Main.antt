-- ===== src/Scripts/Replay/Main.antt =====
-- scripts/replay_banksim.py: the labels of the raw file, the body of a request, and main with its exit code. The Parquet file is the rows
-- that it holds or the error of reading it, the raw file the rows of csv.DictReader if there is one.
use fraud_latch.Base.{
  ℕ, ◌+◌, ◌≡◌, String, Bool, true, false, ◌||◌, Option, none, some, List, [], ◌∷◌, str_eq, ◌==◌,
  if◌then◌else◌,
}
use fraud_latch.Base.Assoc.{lookup}
use fraud_latch.Base.Decimal.{Decimal}
use fraud_latch.Base.Int.{ℤ, pos, pos_part, leb_ℤ, ltb_ℤ}
use fraud_latch.Base.Time.{Datetime}
use fraud_latch.Base.Outcome.{
  Outcome, ok, raised, Error, value, unsupported_version, ◌>>=◌ as ◌and_bind◌,
}
use fraud_latch.Base.Action.{Action, pure, raise, lift, finally, try_except, ◌>>=◌, ◌>>◌}
use fraud_latch.Scripts.Dataset.{Row}
use fraud_latch.Scripts.Convert.{CanonicalRow}
use fraud_latch.Scripts.Replay.{ReplayConfig, Client, Response, Summary, selected_rows, replay}

-- `row.get("fraud") == "1"`
abbrev pub is_labelled : Row → Bool
is_labelled row = elim (lookup "fraud" row) [ some (some label) ↦ str_eq label "1" | _ ↦ false ]

-- The numbers of the labelled rows, from the number of the first row.
unfoldable pub labelled_from : ℕ → List Row → List ℕ
labelled_from line [] = []
labelled_from line (row ∷ rows) =
    let rest = labelled_from (line + 1) rows in if is_labelled row then line ∷ rest else rest

unfoldable pub load_fraud_rows : Option (List Row) → Outcome (List ℕ)
load_fraud_rows none =
    raised (record { kind = value; message = "--fraud-only requires the raw CSV" })
load_fraud_rows (some rows) = ok (labelled_from 2 rows)

abbrev pub contains : List ℕ → ℕ → Bool
contains [] n = false
contains (m ∷ ms) n = m == n || contains ms n

-- `selected_rows(path, config)` with the labels that it loads
unfoldable pub select :
    (CanonicalRow → ℕ)
    → Outcome (List CanonicalRow)
    → Option (List Row)
    → ReplayConfig
    → Outcome (List CanonicalRow)
unfolding load_fraud_rows
select source_row parquet raw config = parquet and_bind λ rows.
    (if config.fraud_only then load_fraud_rows raw else ok []) and_bind λ fraud_rows.
    ok (selected_rows source_row (contains fraud_rows) config rows)

-- The JSON body of a request.
pub record Body : Type 0 where
  pub transaction_id : String
  pub customer_id : String
  pub merchant_id : String
  pub category : String
  pub amount : String
  pub source_step : ℕ
  pub source : String
  pub event_time : String
  pub source_metadata : String

-- What the script uses of Python's texts, of httpx and of asyncio: `str` of a Decimal, `isoformat`, `rstrip("/")`, a client of a URL and
-- its closing, the class name of an error, the two sleeps, and `print` of a result as JSON.
pub record Script (W : Type 0) : Type 0 where
  pub decimal_text : Decimal → String
  pub isoformat : Datetime → String
  pub without_slash : String → String
  pub post : String → String → Body → Action W Response
  pub aclose : Action W (Unit {0})
  pub class_name : Error → String
  pub sleep : ℕ → Action W (Unit {0})
  pub pace : Decimal → Action W (Unit {0})
  pub print : Summary → Action W (Unit {0})
  pub is_os_error : Error → Bool
  pub class_name_lem : (e : Error) → str_eq (class_name e) "" ≡ false

-- The command line without the two paths.
pub record Arguments : Type 0 where
  pub api_url : String
  pub rate : Decimal
  pub limit : ℤ
  pub fraud_only : Bool
  pub start_step : Option ℤ
  pub end_step : Option ℤ

abbrev pub config_of : Arguments → ReplayConfig
config_of args = record {
  limit = pos_part args.limit;
  fraud_only = args.fraud_only;
  start_step = args.start_step;
  end_step = args.end_step;
}

-- `isinstance(error, (OSError, ValueError))`
abbrev pub is_reported : (Error → Bool) → Error → Bool
is_reported is_os_error e =
    is_os_error e || elim e.kind [ value ↦ true | unsupported_version ↦ true | _ ↦ false ]

module _ {W : Type 0} (script : Script W) where
  open script use {
    decimal_text, isoformat, without_slash, post, aclose, class_name, sleep, pace, print,
    is_os_error, class_name_lem,
  }

  -- `payload`
  abbrev pub payload : CanonicalRow → Body
  payload row = record {
    transaction_id = row.transaction_id;
    customer_id = row.customer_id;
    merchant_id = row.merchant_id;
    category = row.category;
    amount = decimal_text row.amount;
    source_step = row.source_step;
    source = row.source;
    event_time = isoformat row.event_time;
    source_metadata = row.source_metadata;
  }

  -- The client of a URL at a rate, as `replay` uses it.
  abbrev pub client_of : String → Decimal → Client W
  client_of api_url rate = record {
    post = λ row. post api_url "/v1/transactions" (payload row);
    class_name = class_name;
    sleep = sleep;
    pace = pace rate;
    class_name_lem = class_name_lem;
  }

  module _ (source_row : CanonicalRow → ℕ) (parquet : Outcome (List CanonicalRow))
      (raw : Option (List Row)) (args : Arguments) where
    abbrev pub client : Client W
    client = client_of (without_slash args.api_url) args.rate

    unfoldable pub async_main : Action W ℕ
    unfolding select
    async_main = do
      result ←
          finally
            (do rows ← lift (select source_row parquet raw (config_of args)); replay client rows)
            aclose
      print result
      pure (if result.failed == 0 then 0 else 1)

    -- The `except` block: `parser.error` prints the message and exits with 2.
    abbrev pub reported : Error → Action W ℕ
    reported e = if is_reported is_os_error e then pure 2 else raise e

    unfoldable pub main : Action W ℕ
    unfolding async_main
    main =
        if leb_ℤ args.rate (pos 0) || ltb_ℤ args.limit (pos 0)
        then pure 2
        else try_except async_main reported pure
