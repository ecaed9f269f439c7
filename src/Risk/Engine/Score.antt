-- ===== src/Risk/Engine/Score.antt =====
-- The score of fraudlatch/risk/engine.py: its range, its grid and its level, what the whole of
-- `assess` returns, and how it grows with the context.
use native.Mathlib.Nat.{add_assoc}
use fraud_latch.Base.{
  ◌≡◌, refl, Bool, true, false, ◌↔◌, Option, none, some, List, [], ◌∷◌, ◌++◌, arith, ◌≤◌,
  if◌then◌else◌, ℕ, ◌≢◌, ◌+◌, ◌%◌, Bool-cases, inl, inr, min, ap, ◌∙◌,
}
use fraud_latch.Base.Int.{abs, pos, ◌≤ℤ◌, ◌<ℤ◌, ◌+ℤ◌, pos_part}
use fraud_latch.Base.Decimal.{Decimal, scale, one}
use fraud_latch.Base.Assoc.{lookup}
use fraud_latch.Base.Outcome.{ok, raised}
use fraud_latch.Risk.Models.{
  RiskLevel, low, medium, high, ReasonCode, high_amount, RiskTransaction, RiskContext,
  empty_context, RiskReason, RiskDecision, risk_decision, is_share,
}
use fraud_latch.Risk.Config.{RulesConfig, default_config, rules_config}
use fraud_latch.Risk.Engine.{category_weight, sum_from, score_of, level_of, assess}
use fraud_latch.Risk.Engine.Reasons.{
  fired_rules, fired, all_shares, all_shares-append, test_of_iff, bad_reason, evaluate_rules_lem,
  Applies, occurrences, occurrences_iff,
}

-- The sum of the contributions, in units.
unfoldable pub total : List RiskReason → ℕ
total [] = 0
total (r ∷ rs) = pos_part r.contribution + total rs

add_share : (a : ℕ) (d : Decimal) → is_share d ≡ true → pos a +ℤ d ≡ pos (a + pos_part d)
unfolding ◌+ℤ◌
add_share a d h = ground arith

sum_from-eq-total :
    (a : ℕ) (rs : List RiskReason) → all_shares rs ≡ true → sum_from (pos a) rs ≡ pos (a + total rs)
unfolding sum_from total all_shares
sum_from-eq-total a [] h = ap pos (omega arith)
sum_from-eq-total a (r ∷ rs) h = rw (add_share a r.contribution (ground arith)) (
    sum_from-eq-total (a + pos_part r.contribution) rs (ground arith)
    ∙ ap pos (add_assoc a (pos_part r.contribution) (total rs)))

total_grid : (rs : List RiskReason) → all_shares rs ≡ true → total rs % 10000 ≡ 0
unfolding total all_shares
total_grid [] h = refl
total_grid (r ∷ rs) h = ground (arith, total_grid rs)

-- The score is the capped sum: nothing is rounded.
pub score_of-eq :
    (rs : List RiskReason) → all_shares rs ≡ true → score_of rs ≡ pos (min (total rs) scale)
unfolding score_of
score_of-eq rs h = rw (sum_from-eq-total 0 rs h) (ground (arith, total_grid rs h))

score_of-is_share : (rs : List RiskReason) → all_shares rs ≡ true → is_share (score_of rs) ≡ true
score_of-is_share rs h = rw (score_of-eq rs h) (ground (arith, total_grid rs h))

-- The decision that the reasons call for.
abbrev pub decision : List RiskReason → RiskDecision
decision rs = record {
  risk_score = pos (min (total rs) scale);
  risk_level = level_of (pos (min (total rs) scale));
  reasons = rs;
}

-- `assess` returns exactly when every fired rule has a weight of at most four decimal places in
-- [0, 1], and then it returns the fired rules in order with their capped, unrounded sum; otherwise
-- it raises the ValueError of the refused reason.
pub assess_lem :
    (t : RiskTransaction) (c : RiskContext) (g : RulesConfig)
    → assess t (some c) (some g) ≡ (
        if all_shares (fired_rules t c g)
        then ok (decision (fired_rules t c g))
        else raised bad_reason)
unfolding assess risk_decision
assess_lem t c g = rw evaluate_rules_lem (elim (Bool-cases (all_shares (fired_rules t c g))) [
  | inl e ↦
      rw e (rw (score_of-is_share (fired_rules t c g) e) (rw (score_of-eq (fired_rules t c g) e)))
  | inr e ↦ rw e
])

-- A level and the scores that it stands for.
abbrev pub LevelFits : RiskLevel → Decimal → Type 0
LevelFits high s = pos 70000000 ≤ℤ s
LevelFits medium s = (pos 40000000 ≤ℤ s) × (s <ℤ pos 70000000)
LevelFits low s = s <ℤ pos 40000000

level_of-LevelFits : (s : Decimal) → LevelFits (level_of s) s
unfolding level_of
level_of-LevelFits s = ground arith

module _ (t : RiskTransaction) (c : RiskContext) (g : RulesConfig) {d : RiskDecision}
    (returned : assess t (some c) (some g) ≡ ok d) where
  assess-eq-decision : (d ≡ decision (fired_rules t c g)) × (all_shares (fired_rules t c g) ≡ true)
  assess-eq-decision = ground (arith, assess_lem t c g)

  -- The score lies between 0 and 1 and has four decimal places, it is the sum of the contributions capped
  -- at 1, and the level is the one whose interval holds the score.
  pub assess_score :
      (pos 0 ≤ℤ d.risk_score)
      × (d.risk_score ≤ℤ one)
      × (abs d.risk_score % 10000 ≡ 0)
      × (d.risk_score ≡ pos (min (total d.reasons) scale))
      × LevelFits d.risk_level d.risk_score
  assess_score =
      let (e, h) = assess-eq-decision in
      rw e (
        omega arith,
        omega arith,
        ground (arith, total_grid (fired_rules t c g) h),
        refl,
        level_of-LevelFits _,
      )

  -- Each reason code stands at most once among the reasons, and it stands there exactly when its rule applies.
  pub assess_reasons :
      (k : ReasonCode)
      → ((occurrences k d.reasons ≡ 1) ↔ Applies k t c g) × (occurrences k d.reasons ≤ 1)
  assess_reasons k = rw assess-eq-decision.0 (occurrences_iff k t c g)

all_shares_fine :
    (t : RiskTransaction) (c : RiskContext) (g : RulesConfig)
    → Applies high_amount t c g
    → abs g.high_amount_weight % 10000 ≢ 0
    → all_shares (fired_rules t c g) ≡ false
unfolding fired_rules all_shares
all_shares_fine t c g applies fine = rw ((test_of_iff high_amount t c g).1 applies) (ground arith)

all_shares-fired :
    (b : Bool) (k : ReasonCode) (w : Decimal) → is_share w ≡ true → all_shares (fired b k w) ≡ true
unfolding all_shares
all_shares-fired true k w h = rw h
all_shares-fired false k w h = refl

all_shares_default :
    (t : RiskTransaction) (c : RiskContext) → all_shares (fired_rules t c default_config) ≡ true
unfolding fired_rules category_weight lookup
all_shares_default t c = simp (all_shares-append, all_shares-fired)

assess_default :
    (t : RiskTransaction) (c : RiskContext)
    → (d : RiskDecision) × (assess t (some c) (some default_config) ≡ ok d)
assess_default t c =
    (decision (fired_rules t c default_config), rw (assess_lem, all_shares_default t c))

total-append : (xs ys : List RiskReason) → total (xs ++ ys) ≡ total xs + total ys
unfolding total
total-append [] ys = omega arith
total-append (x ∷ xs) ys = omega (arith, total-append xs ys)

total-fired :
    (b : Bool) (k : ReasonCode) (w : Decimal) → total (fired b k w) ≡ (if b then pos_part w else 0)
unfolding total
total-fired true k w = omega arith
total-fired false k w = refl

total_mono :
    (t : RiskTransaction) (c : RiskContext) (u v : ℕ) (g : RulesConfig)
    → c.customer_velocity ≤ u
    → c.merchant_velocity ≤ v
    → total (fired_rules t c g)
      ≤ total (fired_rules t (record c { customer_velocity = u; merchant_velocity = v }) g)
unfolding fired_rules
total_mono t c u v g hu hv = simp (total-append, total-fired) (ground arith)

-- A configuration that RulesConfig accepts, whose weight for high amounts has more than four decimal
-- places, makes `assess` raise for every transaction with a high amount.
pub assess_fine_weight :
    (t : RiskTransaction) (c : RiskContext) (g : RulesConfig)
    → rules_config g ≡ ok g
    → Applies high_amount t c g
    → abs g.high_amount_weight % 10000 ≢ 0
    → assess t (some c) (some g) ≡ raised bad_reason
assess_fine_weight t c g valid applies fine = rw (assess_lem, all_shares_fine t c g applies fine)

-- With the default configuration `assess` returns for every transaction and context.
pub assess_default_total :
    (t : RiskTransaction) (c : Option RiskContext) → (d : RiskDecision) × (assess t c none ≡ ok d)
unfolding assess
assess_default_total t none = assess_default t empty_context
assess_default_total t (some c) = assess_default t c

-- Higher velocities never lower the score.
pub assess_mono :
    (t : RiskTransaction) (c : RiskContext) (u v : ℕ) (g : RulesConfig) {d e : RiskDecision}
    → c.customer_velocity ≤ u
    → c.merchant_velocity ≤ v
    → assess t (some c) (some g) ≡ ok d
    → assess t (some (record c { customer_velocity = u; merchant_velocity = v })) (some g) ≡ ok e
    → d.risk_score ≤ℤ e.risk_score
assess_mono t c u v g hu hv p q =
    rw
      (
        (assess-eq-decision t c g p).0,
        (assess-eq-decision t (record c { customer_velocity = u; merchant_velocity = v }) g q).0,
      )
      (omega (arith, total_mono t c u v g hu hv))
