-- ===== src/Risk/Config.antt =====
-- fraudlatch/risk/config.py: thresholds and rule weights, and their validation.
use fraud_latch.Base.{ℕ, ◌*◌, ◌≡◌, refl, Bool, true, not, ◌&&◌, [], ◌∷◌, leb}
use fraud_latch.Base.Int.{pos, leb_ℤ, ltb_ℤ}
use fraud_latch.Base.Decimal.{Decimal, one, scale}
use fraud_latch.Base.Assoc.{Assoc}
use fraud_latch.Base.Outcome.{Outcome, ok, ◌>>◌, raise_if, value}

pub record RulesConfig : Type 0 where
  pub global_amount_threshold : Decimal
  pub category_amount_thresholds : Assoc Decimal
  pub customer_velocity_threshold : ℕ
  pub merchant_velocity_threshold : ℕ
  pub category_risk_weights : Assoc Decimal
  pub high_amount_weight : Decimal
  pub customer_velocity_weight : Decimal
  pub merchant_velocity_weight : Decimal
  pub amount_deviation_multiplier : Decimal
  pub amount_deviation_weight : Decimal
  pub amount_deviation_min_samples : ℕ

-- `not any(value <= 0 ...)`
unfoldable pub all_positive : Assoc Decimal → Bool
all_positive [] = true
all_positive ((k, v) ∷ d) = ltb_ℤ (pos 0) v && all_positive d

-- `0 <= value <= 1`
abbrev pub is_weight : Decimal → Bool
is_weight d = leb_ℤ (pos 0) d && leb_ℤ d one

-- `not any(value < 0 or value > 1 ...)`
unfoldable pub all_weights : Assoc Decimal → Bool
all_weights [] = true
all_weights ((k, v) ∷ d) = is_weight v && all_weights d

-- The Field constraints, then the two field validators.
unfoldable pub config_holds : RulesConfig → Bool
config_holds g =
    ltb_ℤ (pos 0) g.global_amount_threshold
    && all_positive g.category_amount_thresholds
    && leb 1 g.customer_velocity_threshold
    && leb 1 g.merchant_velocity_threshold
    && all_weights g.category_risk_weights
    && is_weight g.high_amount_weight
    && is_weight g.customer_velocity_weight
    && is_weight g.merchant_velocity_weight
    && ltb_ℤ (pos 0) g.amount_deviation_multiplier
    && is_weight g.amount_deviation_weight
    && leb 2 g.amount_deviation_min_samples

-- `RulesConfig(...)`
unfoldable pub rules_config : RulesConfig → Outcome RulesConfig
rules_config g = raise_if (not (config_holds g)) value "RulesConfig" >> ok g

-- `RulesConfig()`
abbrev pub default_config : RulesConfig
default_config = record {
  global_amount_threshold = pos (1000 * scale);
  category_amount_thresholds = [];
  customer_velocity_threshold = 5;
  merchant_velocity_threshold = 20;
  category_risk_weights = [];
  high_amount_weight = pos 35000000;
  customer_velocity_weight = pos 25000000;
  merchant_velocity_weight = pos 20000000;
  amount_deviation_multiplier = pos (3 * scale);
  amount_deviation_weight = pos 20000000;
  amount_deviation_min_samples = 2;
}

default_config_accepted : rules_config default_config ≡ ok default_config
unfolding rules_config config_holds all_positive all_weights
default_config_accepted = refl
