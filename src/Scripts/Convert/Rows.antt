-- ===== src/Scripts/Convert/Rows.antt =====
-- What a row of scripts/prepare_banksim.py that converts has passed, and what it has added.
use fraud_latch.Base.{
  ℕ, ◌+◌, ◌≡◌, refl, ◌∙◌, ap, String, Bool, true, false, Option, none, some, [], ◌∷◌, ◌++◌, arith,
  ◌⊎◌, inl, inr, Bool-cases, str_eq, if◌then◌else◌,
}
use fraud_latch.Base.Int.{ℤ, pos, negsuc, abs}
use fraud_latch.Base.Outcome.{ok}
use fraud_latch.Base.Time.{Datetime}
use fraud_latch.Worker.Durability.{status-cases}
use fraud_latch.Scripts.Dataset.{
  Amount, Builtins, Values, has_empty, is_binary, below_zero, is_zero, quantize_cents,
}
use fraud_latch.Scripts.Convert.{
  canonical_row, appended, Converted, either_negative, stable_transaction_id, seen_in,
  event_time_of, add_row, convert_values,
}

Option-cases : {A : Type 0} (o : Option A) → (o ≡ none) ⊎ ((a : A) × (o ≡ some a))
Option-cases none = inl refl
Option-cases (some a) = inr (a, refl)

either_negative-false :
    (n : ℤ) (a : Amount) (e : Bool)
    → either_negative n a ≡ ok e
    → e ≡ false
    → (n ≡ pos (abs n)) × (below_zero a ≡ ok false)
either_negative-false (pos n) a e h f = (ground arith, h ∙ ap ok f)
either_negative-false (negsuc n) a e h f = absurd (ground (arith, h, f))

module _ (b : Builtins) (seed : String) (line : ℕ) (v : Values) where
  -- A row that was appended had a new identifier, an amount and a time.
  pub record Added (step : ℕ) (amount : Amount) (c c' : Converted) : Type 0 where
    pub hundredths : ℕ
    pub event_time : Datetime
    pub quantized : quantize_cents amount ≡ ok hundredths
    pub dated : event_time_of step ≡ ok event_time
    pub is_new : seen_in (stable_transaction_id b seed line v) c.ids ≡ false
    pub result :
        c'
        ≡ appended
            (canonical_row (stable_transaction_id b seed line v) line v step hundredths event_time)
            c

  pub add_row-Added :
      (step : ℕ) (amount : Amount) (c c' : Converted)
      → add_row b seed line v step amount c ≡ ok c'
      → Added step amount c c'
  unfolding add_row
  add_row-Added step amount c c' h = elim (status-cases (quantize_cents amount)) [
    | inl (e, eq) ↦ absurd (ground (arith, eq))
    | inr (n, eq) ↦ elim (status-cases (event_time_of step)) [
      | inl (e, eq1) ↦ absurd (ground (arith, eq, eq1))
      | inr (t, eq1) ↦ record {
        hundredths = n;
        event_time = t;
        quantized = eq;
        dated = eq1;
        is_new = ground (arith, eq, eq1);
        result = ground (arith, eq, eq1);
      }
    ]
  ]

  -- A row that was converted has passed every check; it is skipped or appended.
  pub record Checked (c c' : Converted) : Type 0 where
    pub step : ℕ
    pub amount : Amount
    pub full : has_empty v ≡ false
    pub step_eq : b.int_of_text v.step ≡ some (pos step)
    pub amount_eq : b.decimal_of_text v.amount ≡ some amount
    pub not_negative : below_zero amount ≡ ok false
    pub binary : is_binary v.fraud ≡ true
    pub result :
        let counted = record c {
          fraud_count = c.fraud_count + (if str_eq v.fraud "1" then 1 else 0);
        } in
        ((is_zero amount ≡ true)
          × (c' ≡ record counted { skipped_rows = c.skipped_rows ++ line ∷ [] }))
        ⊎ ((is_zero amount ≡ false) × Added step amount counted c')

  pub convert_values-Checked :
      (c c' : Converted) → convert_values b seed line v c ≡ ok c' → Checked c c'
  unfolding convert_values
  convert_values-Checked c c' h = elim (Option-cases (b.int_of_text v.step)) [
    | inl e ↦ absurd (ground (arith, e))
    | inr (n, e) ↦ elim (Option-cases (b.decimal_of_text v.amount)) [
      | inl e1 ↦ absurd (ground (arith, e, e1))
      | inr (a, e1) ↦ elim (status-cases (either_negative n a)) [
        | inl (x, e2) ↦ absurd (ground (arith, e, e1, e2))
        | inr (negative, e2) ↦
            let (e3, e4) = either_negative-false n a negative e2 (ground (arith, e, e1, e2)) in
            record {
              step = abs n;
              amount = a;
              full = ground (arith, e, e1, e2);
              step_eq = e ∙ ap some e3;
              amount_eq = e1;
              not_negative = e4;
              binary = ground (arith, e, e1, e2);
              result = elim (Bool-cases (is_zero a)) [
                | inl z ↦ inl (z, ground (arith, e, e1, e2, z))
                | inr z ↦ inr (z, add_row-Added (abs n) a _ c' (ground (arith, e, e1, e2, z)))
              ];
            }
      ]
    ]
  ]
