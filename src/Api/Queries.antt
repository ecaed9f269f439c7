-- ===== src/Api/Queries.antt =====
-- fraudlatch/api/routes.py: the three query endpoints.
use fraud_latch.Base.{
  ℕ, ◌≡◌, refl, ◌≤◌, ◌⊎◌, sym, ◌∙◌, ap, String, Bool, true, false, not, ◌&&◌, Option, none, some,
  List, All, length, take, drop, keep, length-take-le, leb, arith, if◌then◌else◌, inl, inr,
}
use mathlib.Core.Path.{subst}
use fraud_latch.Base.Sorting.{
  order_by, IsOrdered, All-keep_of, All-take, All-drop, All-order_by, Contains, Contains-keep,
  Contains-order_by, Contains-take, order_by-IsOrdered, take-IsOrdered, drop-IsOrdered,
}
use fraud_latch.Base.Int.{ℤ, pos, negsuc}
use fraud_latch.Base.Outcome.{Outcome, ok, raised, Error, other}
use fraud_latch.Base.Action.{Action, lift, ◌>>=◌}
use fraud_latch.Base.Outcome.{◌>>=◌ as ◌and_then◌, ◌>>◌ as ◌and_also◌, raise_if, value}
use fraud_latch.Api.Repository.{RequestSession, body_holds}
use fraud_latch.Risk.Models.{RiskLevel, low, medium, high}
use fraud_latch.Db.{
  Transaction, RiskAssessment, Status, pending, processing, completed, failed, Session,
}
use fraud_latch.Worker.Durability.{status-cases}
use fraud_latch.Api.RiskRepository.{get_risk_assessment}

-- `HTTPException`, by its text
abbrev pub http_error : String → Error
http_error text = record { kind = other; message = text }

abbrev pub found_transaction : Option Transaction → Outcome Transaction
found_transaction none = raised (http_error "404: transaction not found")
found_transaction (some t) = ok t

-- The status code with which a risk row is answered.
abbrev pub status_code : Status → ℕ
status_code pending = 202
status_code processing = 202
status_code completed = 200
status_code failed = 200

abbrev pub found_risk : Option RiskAssessment → Outcome (ℕ × RiskAssessment)
found_risk none = raised (http_error "404: risk not found")
found_risk (some a) = ok (status_code a.status, a)

-- `TransactionResponse.model_validate(transaction)`: its constraints are those of TransactionIn, and `created_at` is left out.
unfoldable pub transaction_response : Transaction → Outcome Transaction
transaction_response t = raise_if (not (body_holds t)) value "TransactionResponse" and_also ok t

unfoldable pub query_transaction : {S : Type 0} → RequestSession S → String → Action S Transaction
query_transaction session transaction_id = do
  transaction ← session.get_transaction transaction_id
  lift (found_transaction transaction and_then transaction_response)

module _ {S : Type 0} (session : Session S) where
  unfoldable pub query_risk : String → Action S (ℕ × RiskAssessment)
  query_risk transaction_id = do
    assessment ← get_risk_assessment session transaction_id
    lift (found_risk assessment)

-- `RiskAssessment.level == "HIGH", RiskAssessment.status == "completed"`
abbrev pub is_high : Option RiskLevel → Bool
is_high (some high) = true
is_high _ = false

abbrev pub is_final : Status → Bool
is_final completed = true
is_final _ = false

unfoldable pub is_high_risk : RiskAssessment → Bool
is_high_risk a = is_high a.level && is_final a.status

-- `1 <= limit <= 100` and a non-negative offset, as natural numbers.
abbrev pub page : ℤ → ℤ → Outcome (ℕ × ℕ)
page (pos limit) (pos offset) =
    if leb 1 limit && leb limit 100
    then ok (limit, offset)
    else raised (http_error "400: limit must be 1..100 and offset non-negative")
page _ _ = raised (http_error "400: limit must be 1..100 and offset non-negative")

-- `order_by(RiskAssessment.score.desc(), ...)`: by falling score, then by identifier; `before` compares two rows in it as the
-- database does.
unfoldable pub query_high_risk :
    (RiskAssessment → RiskAssessment → Bool)
    → ℤ
    → ℤ
    → List RiskAssessment
    → Outcome (List RiskAssessment)
query_high_risk before limit offset table = page limit offset and_then λ p.
    ok (take p.0 (drop p.1 (order_by before (keep is_high_risk table))))

-- A completed assessment of the high level.
abbrev pub IsHighRisk : RiskAssessment → Type 0
IsHighRisk r = (r.level ≡ some high) × (r.status ≡ completed)

is_high-high : (level : Option RiskLevel) → is_high level ≡ true → level ≡ some high
is_high-high none h = absurd (ground (arith, h))
is_high-high (some low) h = absurd (ground (arith, h))
is_high-high (some medium) h = absurd (ground (arith, h))
is_high-high (some high) h = refl

is_final-completed : (s : Status) → is_final s ≡ true → s ≡ completed
is_final-completed pending h = absurd (ground (arith, h))
is_final-completed processing h = absurd (ground (arith, h))
is_final-completed completed h = refl
is_final-completed failed h = absurd (ground (arith, h))

is_high_risk-IsHighRisk : (r : RiskAssessment) → is_high_risk r ≡ true → IsHighRisk r
unfolding is_high_risk
is_high_risk-IsHighRisk r h =
    (is_high-high r.level (ground (arith, h)), is_final-completed r.status (ground (arith, h)))

IsHighRisk-is_high_risk : (r : RiskAssessment) → IsHighRisk r → is_high_risk r ≡ true
unfolding is_high_risk
IsHighRisk-is_high_risk r h = rw h.0 (rw h.1 refl)

page-le :
    (limit offset : ℤ) (p : ℕ × ℕ)
    → page limit offset ≡ ok p
    → (p.0 ≤ 100) × (limit ≡ pos p.0) × (offset ≡ pos p.1)
page-le (pos limit) (pos offset) p h = ground (arith, h)
page-le (pos limit) (negsuc offset) p h = absurd (ground (arith, h))
page-le (negsuc limit) offset p h = absurd (ground (arith, h))

rows_of : {a b : List RiskAssessment} → ok a ≡ ok b → a ≡ b
rows_of e = cc e

page-values :
    (before : RiskAssessment → RiskAssessment → Bool) (limit offset : ℤ)
    (table rows : List RiskAssessment)
    → query_high_risk before limit offset table ≡ ok rows
    → (n m : ℕ) × (limit ≡ pos n)
      × (offset ≡ pos m)
      × (n ≤ 100)
      × (take n (drop m (order_by before (keep is_high_risk table))) ≡ rows)
unfolding query_high_risk
page-values before limit offset table rows h = elim (status-cases (page limit offset)) [
  | inl (e, eq) ↦ absurd (ground (arith, eq))
  | inr ((n, m), eq) ↦
      let (small, l, o) = page-le limit offset (n, m) eq in
      (
        n,
        m,
        l,
        o,
        small,
        rows_of (
            sym (
              ap
                (λ q. q and_then λ p.
                  ok (take p.0 (drop p.1 (order_by before (keep is_high_risk table)))))
                eq)
            ∙ h),
      )
]

-- Where `before` compares any two rows and is transitive: a page that is returned has at most the number of rows asked for, which is at most a
-- hundred; each of its rows is of the high level and completed, and stands before all that follow it. From the offset 0, each row of
-- the table of the high level and completed is on the page, or the page is full of rows that stand before it.
pub query_high_risk_page :
    (before : RiskAssessment → RiskAssessment → Bool)
    → ((x y : RiskAssessment) → before x y ≡ false → before y x ≡ true)
    → ((x y z : RiskAssessment) → before x y ≡ true → before y z ≡ true → before x z ≡ true)
    → (limit offset : ℤ) (table rows : List RiskAssessment)
    → query_high_risk before limit offset table ≡ ok rows
    → (n : ℕ) × (limit ≡ pos n)
      × (n ≤ 100)
      × (length rows ≤ n)
      × All IsHighRisk rows
      × IsOrdered before rows
      × (offset ≡ pos 0
          → (r : RiskAssessment) → Contains r table
          → IsHighRisk r
          → Contains r rows ⊎ ((length rows ≡ n) × All (λ s. before s r ≡ true) rows))
query_high_risk_page before total transitive limit offset table rows h =
    let (n, m, l, o, small, same) = page-values before limit offset table rows h in
    let ordered = order_by-IsOrdered before total transitive (keep is_high_risk table) in
    let kept = All-keep_of IsHighRisk is_high_risk table is_high_risk-IsHighRisk in
    (
      n,
      l,
      small,
      subst (λ r. length r ≤ n) same (length-take-le n _),
      subst (All IsHighRisk) same (
          All-take IsHighRisk n _
            (All-drop IsHighRisk m _ (All-order_by IsHighRisk before _ kept))),
      subst (IsOrdered before) same (take-IsOrdered before n _ (drop-IsOrdered before m _ ordered)),
      λ first r c k.
          subst (λ p. Contains r p ⊎ ((length p ≡ n) × All (λ s. before s r ≡ true) p))
            (ap (λ i. take n (drop i (order_by before (keep is_high_risk table))))
                (pos-zero m (sym o ∙ first))
              ∙ same)
            (Contains-take r before n _ ordered (
              Contains-order_by r before _
                (Contains-keep r is_high_risk table (IsHighRisk-is_high_risk r k) c))),
    )
  where
    pos-zero : (i : ℕ) → pos i ≡ pos 0 → 0 ≡ i
    pos-zero i e = ground (arith, e)
