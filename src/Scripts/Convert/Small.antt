-- ===== src/Scripts/Convert/Small.antt =====
-- scripts/prepare_banksim.py on positive amounts below a hundredth: the canonical row has the amount zero, which the API (TransactionIn of
-- fraudlatch/api/schemas.py) refuses.
use fraud_latch.Base.{
  ℕ, ◌+◌, ◌-◌, ◌*◌, ◌≡◌, ◌≤◌, ◌<◌, sym, ◌∙◌, ap, String, false, some, [], ◌∷◌, ◌++◌, arith, inl,
  inr,
}
use Prim.Native.Nat.{◌^◌}
use native.Mathlib.Nat.{div-eq_of_lt, mod-eq_of_lt}
use fraud_latch.Base.Int.{pos, abs}
use fraud_latch.Base.Outcome.{Outcome, ok, succeeded}
use fraud_latch.Api.Repository.{TransactionIn, transaction_in, body_holds}
use fraud_latch.Scripts.Dataset.{Amount, finite, Builtins, Values, quantize_cents, cents, half_even}
use fraud_latch.Scripts.Convert.{
  CanonicalRow, canonical_row, Converted, stable_transaction_id, convert_values,
}
use fraud_latch.Scripts.Convert.Rows.{convert_values-Checked}

half_even_small : (m d : ℕ) → 0 < m → 2 * m ≤ d → half_even m d ≡ 0
half_even_small m d p h =
    let below : m < d = omega arith in
    rw (div-eq_of_lt below, mod-eq_of_lt below) (ground (arith, h))

cents_small : (m k : ℕ) → 0 < m → 2 < k → 2 * m ≤ 10 ^ (k - 2) → cents (abs (pos m)) k ≡ 0
unfolding cents
cents_small m k p q h = ground (arith, half_even_small (m + 0) (10 ^ (k - 2)))

quantize_small :
    (m k : ℕ) → 0 < m → 2 < k → 2 * m ≤ 10 ^ (k - 2) → quantize_cents (finite (pos m) k) ≡ ok 0
unfolding quantize_cents
quantize_small m k p q h = rw (cents_small m k p q h)

zero_refused : (t : TransactionIn) → t.amount ≡ pos 0 → succeeded (transaction_in t) ≡ false
unfolding transaction_in body_holds
zero_refused t h = ground (arith, h)

some_eq : (a c : Amount) → some a ≡ some c → a ≡ c
some_eq a c h = ground (arith, h)

zero_of : (n : ℕ) → ◌≡◌ {A = Outcome ℕ} (ok n) (ok 0) → n ≡ 0
zero_of n h = ground (arith, h)

module _ (b : Builtins) (seed : String) (line : ℕ) (v : Values) where
  -- A row that converts, whose amount is positive and at most half a hundredth, is appended with the amount zero, and TransactionIn
  -- refuses every transaction of that amount.
  pub convert_values_small :
      (c c' : Converted) (m k : ℕ)
      → convert_values b seed line v c ≡ ok c'
      → b.decimal_of_text v.amount ≡ some (finite (pos m) k)
      → 0 < m
      → 2 < k
      → 2 * m ≤ 10 ^ (k - 2)
      → (r : CanonicalRow) × (c'.rows ≡ c.rows ++ r ∷ [])
        × (r.amount ≡ pos 0)
        × ((t : TransactionIn) → t.amount ≡ r.amount → succeeded (transaction_in t) ≡ false)
  convert_values_small c c' m k h e p q small =
      let checked = convert_values-Checked b seed line v c c' h in
      let same = some_eq checked.amount (finite (pos m) k) (sym checked.amount_eq ∙ e) in
      elim checked.result [
        | inl (z, r) ↦ absurd (ground (arith, z, same, p))
        | inr (z, r) ↦
            let none_left =
              zero_of r.hundredths
                (sym r.quantized ∙ ap quantize_cents same ∙ quantize_small m k p q small) in
            (
              canonical_row (stable_transaction_id b seed line v) line v checked.step r.hundredths
                  r.event_time,
              rw r.result,
              rw none_left,
              λ t a. zero_refused t (a ∙ ap (λ n. pos (n * 1000000)) none_left),
            )
      ]
