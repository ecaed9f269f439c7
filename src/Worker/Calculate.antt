-- ===== src/Worker/Calculate.antt =====
-- The risk handler of fraudlatch/worker.py, `calculate` in main: from an event through the velocity context to the rules' decision.
use fraud_latch.Base.{◌≡◌, sym, ◌∙◌, ap, none, some, arith, inl, inr}
use fraud_latch.Base.Time.{Datetime, seconds}
use fraud_latch.Base.Outcome.{Outcome, ok}
use fraud_latch.Base.Action.{Action, lift, ◌>>=◌}
use fraud_latch.Contracts.Events.{EventEnvelope, validate_payload}
use fraud_latch.External.SortedSets.{SortedSets}
use fraud_latch.Risk.Models.{RiskTransaction, RiskContext, RiskDecision, validate_risk_transaction}
use fraud_latch.Risk.Engine.{assess}
use fraud_latch.Risk.Velocity.{Provider, get_context}
use fraud_latch.Risk.Velocity.Window.{get_context_again}
use fraud_latch.Worker.Durability.{status-cases}

-- `VelocityContextProvider(client)`: a window of five minutes, and keys that live for ten.
abbrev pub default_provider : Provider
default_provider = record { window = seconds 300; ttl_seconds = 600 }

module _ {W : Type 0} (redis : SortedSets W) where
  -- `now` is the clock when the context is asked for.
  unfoldable pub calculate : Datetime → EventEnvelope → Action W RiskDecision
  calculate now event = do
    payload ← lift (validate_payload event.payload)
    transaction ← lift (validate_risk_transaction payload)
    context ← get_context redis default_provider transaction now
    lift (assess transaction (some context) none)

  get_context-amount_baseline :
      (self : Provider) (t : RiskTransaction) (now : Datetime) (w : W) (c : RiskContext)
      → (get_context redis self t now w).0 ≡ ok c
      → c.amount_baseline ≡ none
  unfolding get_context
  get_context-amount_baseline self t now w c h = ground (arith, h)

returned : (d e : RiskDecision) → ◌≡◌ {A = Outcome RiskDecision} (ok d) (ok e) → d ≡ e
returned d e h = ground (arith, h)

-- A decision reads nothing else of its context.
assess_same :
    (t : RiskTransaction) (c d : RiskContext)
    → c.customer_velocity ≡ d.customer_velocity
    → c.merchant_velocity ≡ d.merchant_velocity
    → c.amount_baseline ≡ d.amount_baseline
    → assess t (some c) none ≡ assess t (some d) none
unfolding assess
assess_same t c d e f g i =
    assess t
      (some (record {
        customer_velocity = e i;
        merchant_velocity = f i;
        latest_customer_event_time = none;
        latest_merchant_event_time = none;
        amount_baseline = g i;
      }))
      none

module _ {W : Type 0} (redis : SortedSets W) where
  -- A calculation that returned has validated the event's payload and assessed it in the context that it asked for.
  calculated :
      (now : Datetime) (event : EventEnvelope) (w : W) (d : RiskDecision)
      → (calculate redis now event w).0 ≡ ok d
      → (c : RiskContext) × ((get_context redis default_provider event.payload now w).0 ≡ ok c)
        × ((calculate redis now event w).1
            ≡ (get_context redis default_provider event.payload now w).1)
        × (assess event.payload (some c) none ≡ ok d)
  unfolding calculate validate_payload validate_risk_transaction
  calculated now event w d h =
      elim (status-cases (get_context redis default_provider event.payload now w).0) [
        | inl (e, eq) ↦ absurd (ground (arith, eq))
        | inr (c, eq) ↦ (c, eq, ground (arith, eq), ground (arith, eq))
      ]

  -- An event that is calculated again right after its first calculation, as a redelivered one is, gets the same decision if both return.
  pub calculate_again :
      (now later : Datetime) (event : EventEnvelope) (w : W) (d e : RiskDecision)
      → (calculate redis now event w).0 ≡ ok d
      → (calculate redis later event (calculate redis now event w).1).0 ≡ ok e
      → e ≡ d
  calculate_again now later event w d e h k =
      let (c, got, left, decided) = calculated now event w d h in
      let w1 = (calculate redis now event w).1 in
      let (c', got', left', decided') = calculated later event w1 e k in
      let t = event.payload in
      let w2 = (get_context redis default_provider t now w).1 in
      let again = ap (λ v. (get_context redis default_provider t later v).0) (sym left) ∙ got' in
      let same = get_context_again redis default_provider t now later w (omega arith) got again in
      let neutral =
        get_context-amount_baseline redis default_provider t later w2 c' again
        ∙ sym (get_context-amount_baseline redis default_provider t now w c got) in
      returned e d (sym decided' ∙ assess_same t c' c same.0 same.1 neutral ∙ decided)
