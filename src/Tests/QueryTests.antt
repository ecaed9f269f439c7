-- ===== src/Tests/QueryTests.antt =====
-- A page of high-risk rows.
use fraud_latch.Base.{
  ℕ, ◌≡◌, ◌≤◌, ◌⊎◌, refl, leb, arith, Bool, true, false, none, some, [], ◌∷◌, All,
}
use fraud_latch.Base.Int.{pos, negsuc}
use fraud_latch.Base.Outcome.{ok}
use fraud_latch.Risk.Models.{high, low}
use fraud_latch.Db.{RiskAssessment, completed, new_assessment}
use fraud_latch.Api.Queries.{query_high_risk, query_high_risk_page, is_high_risk, IsHighRisk}
use fraud_latch.Base.Sorting.{order_by, insert_by, IsOrdered, Contains}

abbrev risky : RiskAssessment
risky = record (new_assessment "t1") {
  status = completed;
  level = some high;
  score = some (pos 80000000);
}

abbrev harmless : RiskAssessment
harmless = record (new_assessment "t2") {
  status = completed;
  level = some low;
  score = some (pos 0);
}

abbrev points : RiskAssessment → ℕ
points r = elim r.score [ none ↦ 0 | some s ↦ elim s [ pos n ↦ n | negsuc n ↦ 0 ] ]

-- By falling score.
abbrev by_score : RiskAssessment → RiskAssessment → Bool
by_score a b = leb (points b) (points a)

by_score_total : (a b : RiskAssessment) → by_score a b ≡ false → by_score b a ≡ true
by_score_total a b h = ground (arith, h)

by_score_trans :
    (a b c : RiskAssessment) → by_score a b ≡ true → by_score b c ≡ true → by_score a c ≡ true
by_score_trans a b c h k = ground (arith, h, k)

one_page :
    query_high_risk by_score (pos 50) (pos 0) (harmless ∷ new_assessment "t3" ∷ risky ∷ [])
    ≡ ok (risky ∷ [])
unfolding query_high_risk is_high_risk order_by insert_by
one_page = refl

query_high_risk_page_example :
    (n : ℕ) × (pos 50 ≡ pos n)
    × (n ≤ 100)
    × (1 ≤ n)
    × All IsHighRisk (risky ∷ [])
    × IsOrdered by_score (risky ∷ [])
    × (pos 0 ≡ pos 0
        → (r : RiskAssessment) → Contains r (harmless ∷ new_assessment "t3" ∷ risky ∷ [])
        → IsHighRisk r
        → Contains r (risky ∷ [])
          ⊎ ((◌≡◌ {A = ℕ} 1 n) × All (λ s. by_score s r ≡ true) (risky ∷ [])))
query_high_risk_page_example =
    query_high_risk_page by_score by_score_total by_score_trans (pos 50) (pos 0)
      (harmless ∷ new_assessment "t3" ∷ risky ∷ []) (risky ∷ []) one_page
