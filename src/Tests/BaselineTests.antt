-- ===== src/Tests/BaselineTests.antt =====
-- The baselines of three transactions, in two orders, with numbers that are whole units.
use fraud_latch.Base.{
  ℕ, ◌+◌, ◌/◌, ◌≡◌, refl, String, true, none, some, List, [], ◌∷◌, str_eq, if◌then◌else◌,
}
use Prim.Native.Nat.{max, min, ◌-◌}
use mathlib.Core.List.{Permᴰ, Perm}
use fraud_latch.Base.Int.{pos, abs}
use fraud_latch.Base.Assoc.{Assoc, insert, lookup}
use fraud_latch.Base.Outcome.{ok}
use fraud_latch.Base.TextOrder.{text_lt}
use fraud_latch.Risk.Models.{RiskTransaction, AmountBaseline}
use fraud_latch.Risk.AmountDeviation.{
  Arithmetic, build_amount_baselines, baselines_of, baseline, sorted_baseline, group, sort,
  insert_sorted, key_before, amount_baseline, get_context,
}
use fraud_latch.Risk.AmountDeviation.Lookup.{
  baseline_of, lookup-build_amount_baselines, get_context_reordered,
}

-- Numbers that are rounded down to whole units.
abbrev units : Arithmetic ℕ
units = record {
  number = λ a. abs a;
  add = λ m n. m + n;
  distance = λ m n. max m n - min m n;
  divide = λ m n. m / n;
  quantize_half_up = λ n. ok (pos n);
}

abbrev paid : String → String → ℕ → ℕ → RiskTransaction
paid id customer amount time = record {
  transaction_id = id;
  customer_id = customer;
  merchant_id = "M1";
  category = "es_food";
  amount = pos amount;
  source_step = pos 1;
  source = "banksim";
  event_time = record { micros = time; aware = true };
  source_metadata = none;
}

abbrev table : String → RiskTransaction
table id =
    if str_eq id "a"
    then paid "a" "C1" 100 5
    else if str_eq id "b"
    then paid "b" "C1" 300 4
    else paid id "C2" 50 5

abbrev some_order : List RiskTransaction
some_order = table "a" ∷ table "b" ∷ table "c" ∷ []

abbrev other_order : List RiskTransaction
other_order = table "c" ∷ table "b" ∷ table "a" ∷ []

abbrev first : AmountBaseline
first = record { mean = pos 200; dispersion = pos 100; sample_count = 2 }

abbrev second : AmountBaseline
second = record { mean = pos 50; dispersion = pos 0; sample_count = 1 }

abbrev baselines : Assoc AmountBaseline
baselines = ("C1", first) ∷ ("C2", second) ∷ []

abbrev reversed : Assoc AmountBaseline
reversed = ("C2", second) ∷ ("C1", first) ∷ []

some_order_built : build_amount_baselines units some_order ≡ ok baselines
unfolding build_amount_baselines baselines_of baseline sorted_baseline group sort insert_sorted
    key_before amount_baseline insert lookup text_lt
some_order_built = refl

other_order_built : build_amount_baselines units other_order ≡ ok reversed
unfolding build_amount_baselines baselines_of baseline sorted_baseline group sort insert_sorted
    key_before amount_baseline insert lookup text_lt
other_order_built = refl

lookup-build_amount_baselines_example :
    ok (lookup "C1" baselines) ≡ baseline_of units (some (table "a" ∷ table "b" ∷ []))
lookup-build_amount_baselines_example =
    lookup-build_amount_baselines units some_order baselines some_order_built "C1"

turned : Perm some_order other_order
turned =
    ∣ Permᴰ.trans (Permᴰ.swap refl refl)
      (Permᴰ.trans (Permᴰ.cons refl (Permᴰ.swap refl refl)) (Permᴰ.swap refl refl)) ∣₁

get_context_reordered_example : get_context baselines (table "a") ≡ get_context reversed (table "a")
get_context_reordered_example =
    get_context_reordered units table some_order other_order baselines reversed turned
      (refl, (refl, (refl, tt))) some_order_built other_order_built (table "a")
