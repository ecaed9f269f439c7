-- ===== src/Scripts/Convert/Agreement.antt =====
-- scripts/prepare_banksim.py against scripts/validate_dataset.py: a data set that converts also validates, with the same counts.
use fraud_latch.Base.{
  ℕ, ◌+◌, ◌≡◌, refl, sym, ◌∙◌, ap, String, some, List, [], ◌∷◌, ◌++◌, length, length-append, arith,
  inl, inr, str_eq, if◌then◌else◌,
}
use mathlib.Core.Path.{subst}
use fraud_latch.Base.Outcome.{Outcome, ok, ◌>>=◌}
use fraud_latch.Worker.Durability.{status-cases}
use fraud_latch.Scripts.Dataset.{
  Row, CsvFile, Amount, Builtins, Values, values_of, is_zero, missing_columns,
}
use fraud_latch.Scripts.Validate.{
  Tally, no_rows, Report, report_of, refuse_missing, validate_values, validate_rows,
  validate_dataset, count_up,
}
use fraud_latch.Scripts.Convert.Rows.{Checked, convert_values-Checked}
use fraud_latch.Scripts.Convert.{
  CanonicalRow, canonical_row, Converted, nothing, Manifest, manifest_of, stable_transaction_id,
  convert_values, convert_rows, convert_dataset,
}

pub converted_eq : (c c' : Converted) → ◌≡◌ {A = Outcome Converted} (ok c) (ok c') → c ≡ c'
converted_eq c c' h = ground (arith, h)

pub counted_eq :
    (seed : String) (c : Converted) (rows : List CanonicalRow) (manifest : Manifest)
    → ◌≡◌ {A = Outcome (List CanonicalRow × Manifest)}
        (ok (c.rows, manifest_of seed c))
        (ok (rows, manifest))
    → (c.rows ≡ rows) × (manifest_of seed c ≡ manifest)
counted_eq seed c rows manifest h = ground (arith, h)

-- The counts of the two loops.
abbrev Agree : Converted → Tally → Type 0
Agree c t =
    (t.row_count ≡ length c.rows + length c.skipped_rows)
    × (t.fraud_count ≡ c.fraud_count)
    × (t.skipped_rows ≡ c.skipped_rows)

module _ (b : Builtins) (seed : String) where
  -- What the validation makes of a row that passes its checks.
  abbrev tallied : ℕ → Values → Amount → Tally → Tally
  tallied line v amount t = record {
    row_count = t.row_count + 1;
    fraud_count = t.fraud_count + (if str_eq v.fraud "1" then 1 else 0);
    skipped_rows = if is_zero amount then t.skipped_rows ++ line ∷ [] else t.skipped_rows;
    duplicates = count_up v t.duplicates;
  }

  Checked-validate_values :
      (line : ℕ) (v : Values) (c c' : Converted) (t : Tally) (k : Checked b seed line v c c')
      → validate_values b line v t ≡ ok (tallied line v k.amount t)
  unfolding validate_values
  Checked-validate_values line v c c' t k =
      rw (k.full, k.step_eq, k.amount_eq, k.not_negative, k.binary)

  Checked-Agree :
      (line : ℕ) (v : Values) (c c' : Converted) (t : Tally) (k : Checked b seed line v c c')
      → Agree c t
      → Agree c' (tallied line v k.amount t)
  Checked-Agree line v c c' t k h =
      let fraud = ap (λ n. n + (if str_eq v.fraud "1" then 1 else 0)) h.1 in
      elim k.result [
        | inl (z, e) ↦
            rw (e, z)
              (
                omega (arith, h.0, length-append c.skipped_rows (line ∷ [])),
                fraud,
                ap (λ l. l ++ line ∷ []) h.2,
              )
        | inr (z, r) ↦
            rw (r.result, z)
              (
                omega (
                  arith,
                  h.0,
                  length-append c.rows (
                      canonical_row (stable_transaction_id b seed line v) line v k.step r.hundredths
                        r.event_time
                      ∷ []),
                ),
                fraud,
                h.2,
              )
      ]

  rows-Agree :
      (line : ℕ) (rows : List Row) (c c' : Converted) (t : Tally)
      → Agree c t
      → convert_rows b seed line rows c ≡ ok c'
      → (t' : Tally) × (validate_rows b line rows t ≡ ok t') × Agree c' t'
  unfolding convert_rows validate_rows
  rows-Agree line [] c c' t h e = (t, refl, subst (λ x. Agree x t) (converted_eq c c' e) h)
  rows-Agree line (row ∷ rows) c c' t h e =
      let v = values_of b row in
      elim (status-cases (convert_values b seed line v c)) [
        | inl (x, eq) ↦ absurd (ground (arith, eq))
        | inr (c1, eq) ↦
            let k = convert_values-Checked b seed line v c c1 eq in
            let (t', e', h') =
              rows-Agree (line + 1) rows c1 c' (tallied line v k.amount t)
                (Checked-Agree line v c c1 t k h)
                (sym (ap (λ o. o >>= convert_rows b seed (line + 1) rows) eq) ∙ e) in
            (
              t',
              ap (λ o. o >>= validate_rows b (line + 1) rows)
                    (Checked-validate_values line v c c1 t k)
                  ∙ e',
              h',
            )
      ]

  -- A data set that converts also validates, and the report and the manifest count the same rows, skipped rows and frauds.
  pub convert_dataset-validate_dataset :
      (file : CsvFile) (rows : List CanonicalRow) (manifest : Manifest)
      → convert_dataset b seed (some file) ≡ ok (rows, manifest)
      → (report : Report) × (validate_dataset b (some file) ≡ ok report)
        × (report.row_count ≡ manifest.source_row_count)
        × (report.valid_row_count ≡ manifest.canonical_row_count)
        × (report.skipped_rows ≡ manifest.skipped_rows)
        × (report.fraud_count ≡ manifest.source_fraud_count)
        × (length rows ≡ manifest.canonical_row_count)
  unfolding convert_dataset validate_dataset
  convert_dataset-validate_dataset file rows manifest h =
      elim (status-cases (refuse_missing (missing_columns file))) [
        | inl (x, eq) ↦ absurd (ground (arith, eq))
        | inr (u, eq) ↦ elim (status-cases (convert_rows b seed 2 file.rows nothing)) [
          | inl (x, eq1) ↦ absurd (ground (arith, eq, eq1))
          | inr (c, eq1) ↦
              let (t, e, agree) =
                rows-Agree 2 file.rows nothing c no_rows (omega arith, refl, refl) eq1 in
              let (same_rows, same_manifest) =
                counted_eq seed c rows manifest (ground (arith, eq, eq1, h)) in
              (
                report_of file.sha256 t,
                rw (eq, e),
                rw (← same_manifest) agree.0,
                rw (← same_manifest) (omega (arith, agree.0, ap length agree.2)),
                rw (← same_manifest) agree.2,
                rw (← same_manifest) agree.1,
                rw (← same_manifest, ← same_rows),
              )
        ]
      ]
