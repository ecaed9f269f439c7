-- ===== src/Risk/Engine/Reasons.antt =====
-- Which reasons `assess` of fraudlatch/risk/engine.py gives, and when it can give none: its chain
-- of `if`s against the list of the rules that fire.
use mathlib.Core.List.{append_assoc, append-nil}
use mathlib.Core.Bool.{false≢true}
use fraud_latch.Base.{
  ◌≡◌, refl, Bool, true, false, ◌&&◌, ◌↔◌, Option, none, some, List, [], ◌∷◌, ◌++◌, arith, ◌≤◌,
  or_default, if◌then◌else◌, ℕ, ◌+◌, ◌*◌, Bool-cases, inl, inr,
}
use fraud_latch.Base.Int.{pos, ltb_ℤ, ◌≤ℤ◌, ◌<ℤ◌, ◌*ℤ◌, ◌-ℤ◌, abs}
use fraud_latch.Base.Decimal.{Decimal, scale}
use fraud_latch.Base.Assoc.{lookup}
use fraud_latch.Base.Outcome.{Outcome, ok, raised, Error, value, ◌>>=◌}
use fraud_latch.Risk.Models.{
  ReasonCode, high_amount, customer_velocity, merchant_velocity, category_risk, amount_deviation,
  RiskTransaction, RiskContext, AmountBaseline, RiskReason, risk_reason, is_share,
}
use fraud_latch.Risk.Config.{RulesConfig}
use fraud_latch.Risk.Engine.{
  high_amount_fires, customer_fires, merchant_fires, category_weight, deviates, rule,
  evaluate_rules,
}

-- The reason that a rule adds when it fires.
abbrev pub fired : Bool → ReasonCode → Decimal → List RiskReason
fired b code weight = if b then record { code = code; contribution = weight } ∷ [] else []

-- The rules that fire, in the order of the source, each with its weight.
unfoldable pub fired_rules : RiskTransaction → RiskContext → RulesConfig → List RiskReason
fired_rules t c g =
    fired (high_amount_fires t g) high_amount g.high_amount_weight
    ++ (fired (customer_fires c g) customer_velocity g.customer_velocity_weight
        ++ (fired (merchant_fires c g) merchant_velocity g.merchant_velocity_weight
            ++ (fired (ltb_ℤ (pos 0) (category_weight t g)) category_risk (category_weight t g)
                ++ fired (deviates t c.amount_baseline g) amount_deviation
                    g.amount_deviation_weight)))

-- Whether Pydantic accepts every contribution.
unfoldable pub all_shares : List RiskReason → Bool
all_shares [] = true
all_shares (r ∷ rs) = is_share r.contribution && all_shares rs

abbrev pub bad_reason : Error
bad_reason = record { kind = value; message = "RiskReason" }

-- The reasons, unless one of them is refused.
abbrev pub accept : List RiskReason → List RiskReason → Outcome (List RiskReason)
accept before new = if all_shares new then ok (before ++ new) else raised bad_reason

rule_lem :
    (b : Bool) (code : ReasonCode) (w : Decimal) (rs : List RiskReason)
    → rule b code w rs ≡ accept rs (fired b code w)
unfolding rule risk_reason all_shares
rule_lem true code w rs = ground arith
rule_lem false code w rs = rw append-nil

pub all_shares-append :
    (xs ys : List RiskReason) → all_shares (xs ++ ys) ≡ (all_shares xs && all_shares ys)
unfolding all_shares
all_shares-append [] ys = refl
all_shares-append (x ∷ xs) ys = ground (arith, all_shares-append xs ys)

-- One more rule after some: what was refused stays refused, and what was accepted is extended.
accept-bind :
    (before new more : List RiskReason) (k : List RiskReason → Outcome (List RiskReason))
    → ((rs : List RiskReason) → k rs ≡ accept rs more)
    → (accept before new >>= k) ≡ accept before (new ++ more)
accept-bind before new more k h =
    ground (arith, all_shares-append new more, h (before ++ new), append_assoc before new more)

pub evaluate_rules_lem :
    (t : RiskTransaction) (c : RiskContext) (g : RulesConfig)
    → evaluate_rules t c g ≡ accept [] (fired_rules t c g)
unfolding evaluate_rules fired_rules
evaluate_rules_lem t c g = simp rule_lem (
    accept-bind [] (fired (high_amount_fires t g) high_amount g.high_amount_weight) _ _ (λ r1.
      accept-bind r1 (fired (customer_fires c g) customer_velocity g.customer_velocity_weight) _ _
        (λ r2.
          accept-bind r2 (fired (merchant_fires c g) merchant_velocity g.merchant_velocity_weight) _
            _
            (λ r3.
              accept-bind r3
                (fired (ltb_ℤ (pos 0) (category_weight t g)) category_risk (category_weight t g)) _
                _ (λ r4. refl)))))

-- When a rule of rules-v1 applies, in terms of the data and the thresholds.
abbrev pub Deviates : RiskTransaction → Option AmountBaseline → RulesConfig → Type 0
Deviates t none g = ⊥
Deviates t (some b) g =
    (g.amount_deviation_min_samples ≤ b.sample_count)
    × (pos 0 <ℤ b.dispersion)
    × (b.dispersion *ℤ g.amount_deviation_multiplier <ℤ pos (abs (t.amount -ℤ b.mean) * scale))

abbrev pub Applies : ReasonCode → RiskTransaction → RiskContext → RulesConfig → Type 0
Applies high_amount t c g =
    or_default (lookup t.category g.category_amount_thresholds) g.global_amount_threshold
    ≤ℤ t.amount
Applies customer_velocity t c g = g.customer_velocity_threshold ≤ c.customer_velocity
Applies merchant_velocity t c g = g.merchant_velocity_threshold ≤ c.merchant_velocity
Applies category_risk t c g =
    pos 0 <ℤ or_default (lookup t.category g.category_risk_weights) (pos 0)
Applies amount_deviation t c g = Deviates t c.amount_baseline g

deviates_iff :
    (t : RiskTransaction) (b : Option AmountBaseline) (g : RulesConfig)
    → (deviates t b g ≡ true) ↔ Deviates t b g
unfolding deviates
deviates_iff t none g = ((λ h. absurd (false≢true h)), λ a. absurd a)
deviates_iff t (some b) g = ground arith

abbrev same_code : ReasonCode → ReasonCode → ℕ
same_code high_amount high_amount = 1
same_code customer_velocity customer_velocity = 1
same_code merchant_velocity merchant_velocity = 1
same_code category_risk category_risk = 1
same_code amount_deviation amount_deviation = 1
same_code _ _ = 0

-- How often a code is among the reasons.
unfoldable pub occurrences : ReasonCode → List RiskReason → ℕ
occurrences k [] = 0
occurrences k (r ∷ rs) = same_code k r.code + occurrences k rs

occurrences-append :
    (k : ReasonCode) (xs ys : List RiskReason)
    → occurrences k (xs ++ ys) ≡ occurrences k xs + occurrences k ys
unfolding occurrences
occurrences-append k [] ys = omega arith
occurrences-append k (x ∷ xs) ys = omega (arith, occurrences-append k xs ys)

-- The test that the source makes for a code.
abbrev test_of : ReasonCode → RiskTransaction → RiskContext → RulesConfig → Bool
test_of high_amount t c g = high_amount_fires t g
test_of customer_velocity t c g = customer_fires c g
test_of merchant_velocity t c g = merchant_fires c g
test_of category_risk t c g = ltb_ℤ (pos 0) (category_weight t g)
test_of amount_deviation t c g = deviates t c.amount_baseline g

occurrences-fired :
    (k code : ReasonCode) (b : Bool) (w : Decimal)
    → occurrences k (fired b code w) ≡ (if b then same_code k code else 0)
unfolding occurrences
occurrences-fired k code true w = omega arith
occurrences-fired k code false w = refl

occurrences-fired_rules :
    (k : ReasonCode) (t : RiskTransaction) (c : RiskContext) (g : RulesConfig)
    → occurrences k (fired_rules t c g) ≡ (if test_of k t c g then 1 else 0)
unfolding fired_rules
occurrences-fired_rules high_amount t c g =
    simp (occurrences-append, occurrences-fired) (ground arith)
occurrences-fired_rules k t c g = simp (occurrences-append, occurrences-fired) (ground arith)

pub test_of_iff :
    (k : ReasonCode) (t : RiskTransaction) (c : RiskContext) (g : RulesConfig)
    → (test_of k t c g ≡ true) ↔ Applies k t c g
unfolding high_amount_fires category_weight
test_of_iff high_amount t c g = ground arith
test_of_iff amount_deviation t c g = deviates_iff t c.amount_baseline g
test_of_iff k t c g = ground arith

pub occurrences_iff :
    (k : ReasonCode) (t : RiskTransaction) (c : RiskContext) (g : RulesConfig)
    → ((occurrences k (fired_rules t c g) ≡ 1) ↔ Applies k t c g)
      × (occurrences k (fired_rules t c g) ≤ 1)
occurrences_iff k t c g = rw occurrences-fired_rules (elim (Bool-cases (test_of k t c g)) [
  | inl e ↦ rw e ((λ _. (test_of_iff k t c g).0 e, λ _. refl), omega arith)
  | inr e ↦ rw e ((λ h. absurd (omega arith), λ a. cc ((test_of_iff k t c g).1 a)), omega arith)
])
