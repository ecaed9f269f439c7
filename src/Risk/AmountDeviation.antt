-- ===== src/Risk/AmountDeviation.antt =====
-- fraudlatch/risk/amount_deviation.py: the customers' amount baselines, and the context that a lookup gives. The numbers of
-- Python's decimal context are a parameter; a mean or a dispersion that is quantized is a whole number of units of 10^-8.
pub mod Order
pub mod Lookup
use fraud_latch.Base.{
  ℕ, ◌+◌, Bool, true, false, not, ◌&&◌, ◌||◌, String, Option, none, some, List, [], ◌∷◌, ◌++◌,
  length, ltb, ◌==◌, if◌then◌else◌,
}
use fraud_latch.Base.TextOrder.{text_lt}
use fraud_latch.Base.Assoc.{Assoc, insert, lookup}
use fraud_latch.Base.Int.{ℤ, pos, leb_ℤ}
use fraud_latch.Base.Decimal.{Decimal, has_digits}
use fraud_latch.Base.Outcome.{Outcome, ok, ◌>>=◌, ◌>>◌, raise_if, value}
use fraud_latch.Risk.Models.{RiskTransaction, AmountBaseline, RiskContext, empty_context}

-- What the code uses of the decimal module: Decimal(a), +, abs(a - b), / n, and
-- quantize(BASELINE_QUANTUM, rounding=ROUND_HALF_UP), which may refuse a number of too many digits.
pub record Arithmetic (N : Type 0) : Type 0 where
  pub number : Decimal → N
  pub add : N → N → N
  pub distance : N → N → N
  pub divide : N → ℕ → N
  pub quantize_half_up : N → Outcome Decimal

-- `(item.event_time, item.transaction_id)`, compared as a tuple
unfoldable pub key_before : RiskTransaction → RiskTransaction → Bool
key_before a b =
    ltb a.event_time.micros b.event_time.micros
    || (a.event_time.micros == b.event_time.micros && text_lt a.transaction_id b.transaction_id)

-- `sorted` by that key
unfoldable pub insert_sorted : RiskTransaction → List RiskTransaction → List RiskTransaction
insert_sorted x [] = x ∷ []
insert_sorted x (y ∷ ys) = if key_before y x then y ∷ insert_sorted x ys else x ∷ y ∷ ys

unfoldable pub sort : List RiskTransaction → List RiskTransaction
unfolding insert_sorted
sort [] = []
sort (x ∷ xs) = insert_sorted x (sort xs)

abbrev pub found : Option (List RiskTransaction) → List RiskTransaction
found none = []
found (some ts) = ts

-- `grouped[transaction.customer_id].append(transaction)` on a defaultdict
abbrev pub add_to : RiskTransaction → Assoc (List RiskTransaction) → Assoc (List RiskTransaction)
add_to t grouped = insert t.customer_id (found (lookup t.customer_id grouped) ++ t ∷ []) grouped

unfoldable pub group :
    List RiskTransaction → Assoc (List RiskTransaction) → Assoc (List RiskTransaction)
group [] grouped = grouped
group (t ∷ ts) grouped = group ts (add_to t grouped)

-- `AmountBaseline(...)` with its constraints
unfoldable pub amount_baseline : Decimal → Decimal → ℕ → Outcome AmountBaseline
amount_baseline mean dispersion n =
    raise_if
      (not (
        leb_ℤ (pos 0) mean
        && has_digits 1 1000000000000000000 mean
        && leb_ℤ (pos 0) dispersion
        && has_digits 1 1000000000000000000 dispersion))
      value "AmountBaseline"
    >> ok (record { mean = mean; dispersion = dispersion; sample_count = n })

module _ {N : Type 0} (arithmetic : Arithmetic N) where
  open arithmetic use {number, add, distance, divide, quantize_half_up}

  -- `sum(..., Decimal("0"))`
  abbrev pub sum_from : N → List N → N
  sum_from total [] = total
  sum_from total (x ∷ xs) = sum_from (add total x) xs

  abbrev pub amounts_of : List RiskTransaction → List N
  amounts_of [] = []
  amounts_of (t ∷ ts) = number t.amount ∷ amounts_of ts

  abbrev pub distances : N → List N → List N
  distances mean [] = []
  distances mean (x ∷ xs) = distance x mean ∷ distances mean xs

  -- The loop body after the sorting.
  unfoldable pub sorted_baseline : List RiskTransaction → Outcome AmountBaseline
  unfolding amount_baseline
  sorted_baseline ordered = do
    let amounts = amounts_of ordered
    let mean = divide (sum_from (number (pos 0)) amounts) (length amounts)
    let dispersion = divide (sum_from (number (pos 0)) (distances mean amounts)) (length amounts)
    mean' ← quantize_half_up mean
    dispersion' ← quantize_half_up dispersion
    amount_baseline mean' dispersion' (length amounts)

  -- The loop body for one customer's records.
  unfoldable pub baseline : List RiskTransaction → Outcome AmountBaseline
  unfolding sort sorted_baseline
  baseline records = sorted_baseline (sort records)

  -- The loop over the groups; their keys differ, so that each assignment adds an entry.
  unfoldable pub baselines_of : Assoc (List RiskTransaction) → Outcome (Assoc AmountBaseline)
  unfolding baseline
  baselines_of [] = ok []
  baselines_of ((customer_id, records) ∷ grouped) = do
    b ← baseline records
    rest ← baselines_of grouped
    ok ((customer_id, b) ∷ rest)

  unfoldable pub build_amount_baselines : List RiskTransaction → Outcome (Assoc AmountBaseline)
  unfolding group baselines_of
  build_amount_baselines transactions = baselines_of (group transactions [])

-- `AmountDeviationContextProvider.get_context`
unfoldable pub get_context : Assoc AmountBaseline → RiskTransaction → RiskContext
get_context baselines t = record empty_context { amount_baseline = lookup t.customer_id baselines }
