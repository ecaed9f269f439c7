-- ===== src/Scripts/Convert/Canonical.antt =====
-- What the rows that scripts/prepare_banksim.py converts have in common.
use fraud_latch.Base.{
  ℕ, ◌+◌, ◌*◌, ◌≡◌, ◌≢◌, ◌≤◌, ◌<◌, refl, sym, ◌∙◌, ap, String, true, false, some, List, [], ◌∷◌,
  ◌++◌, All, arith, inl, inr, eq_refl,
}
use mathlib.Core.Path.{subst}
use Prim.Native.Nat.{◌^◌}
use fraud_latch.Base.Int.{pos}
use fraud_latch.Base.Time.{seconds}
use fraud_latch.Base.Outcome.{ok, ◌>>=◌}
use fraud_latch.Worker.Durability.{status-cases}
use fraud_latch.Scripts.Dataset.{
  Row, CsvFile, Amount, finite, Builtins, Values, values_of, quantize_cents, missing_columns,
}
use fraud_latch.Scripts.Validate.{refuse_missing}
use fraud_latch.Scripts.Convert.{
  CanonicalRow, canonical_row, Converted, nothing, Manifest, epoch, seen_in, stable_transaction_id,
  convert_values, convert_rows, convert_dataset,
}
use fraud_latch.Scripts.Convert.Rows.{Added, Checked, convert_values-Checked}
use fraud_latch.Scripts.Convert.Agreement.{converted_eq, counted_eq}

-- A row of the data set: its amount is whole hundredths, and its time the day of its step, which is in range.
abbrev pub IsCanonical : CanonicalRow → Type 0
IsCanonical r =
    (r.source ≡ "banksim")
    × ((n : ℕ) × (n < 10 ^ 28) × (r.amount ≡ pos (n * 1000000)))
    × (r.source_step ≤ 2912442)
    × (r.event_time
        ≡ record { micros = epoch.micros + seconds (86400 * r.source_step); aware = true })

abbrev pub HasUniqueIds : List CanonicalRow → Type 0
HasUniqueIds [] = Unit
HasUniqueIds (r ∷ rest) = All (λ s. s.transaction_id ≢ r.transaction_id) rest × HasUniqueIds rest

module _ (P : CanonicalRow → Type 0) where
  All-append :
      (rows : List CanonicalRow) (r : CanonicalRow) → All P rows → P r → All P (rows ++ r ∷ [])
  All-append [] r h p = (p, tt)
  All-append (x ∷ rows) r h p = (h.0, All-append rows r h.1 p)

  All-weaken :
      (Q : CanonicalRow → Type 0) (rows : List CanonicalRow)
      → ((r : CanonicalRow) → P r → Q r)
      → All P rows
      → All Q rows
  All-weaken Q [] f h = tt
  All-weaken Q (x ∷ rows) f h = (f x h.0, All-weaken Q rows f h.1)

HasUniqueIds-append :
    (rows : List CanonicalRow) (r : CanonicalRow)
    → HasUniqueIds rows
    → All (λ s. r.transaction_id ≢ s.transaction_id) rows
    → HasUniqueIds (rows ++ r ∷ [])
HasUniqueIds-append [] r u h = (tt, tt)
HasUniqueIds-append (x ∷ rows) r u h = (
  All-append (λ s. s.transaction_id ≢ x.transaction_id) rows r u.0 h.0,
  HasUniqueIds-append rows r u.1 h.1,
)

-- The rows so far, whose identifiers have all been added to the set.
abbrev IsListed : List String → CanonicalRow → Type 0
IsListed ids r = seen_in r.transaction_id ids ≡ true

abbrev Inv : Converted → Type 0
Inv c = All IsCanonical c.rows × HasUniqueIds c.rows × All (IsListed c.ids) c.rows

quantize_cents-lt : (a : Amount) (n : ℕ) → quantize_cents a ≡ ok n → n < 10 ^ 28
unfolding quantize_cents
quantize_cents-lt (finite m k) n h = ground (arith, h)
quantize_cents-lt _ n h = absurd (ground (arith, h))

module _ (b : Builtins) (seed : String) (line : ℕ) (v : Values) where
  abbrev id : String
  id = stable_transaction_id b seed line v

  Added-IsCanonical :
      (step : ℕ) (a : Amount) (c c' : Converted) (k : Added b seed line v step a c c')
      → IsCanonical (canonical_row id line v step k.hundredths k.event_time)
  Added-IsCanonical step a c c' k = (
    refl,
    (k.hundredths, quantize_cents-lt a k.hundredths k.quantized, refl),
    ground (arith, k.dated),
    ground (arith, k.dated),
  )

  seen_in-cons : (r : CanonicalRow) (ids : List String) → IsListed ids r → IsListed (id ∷ ids) r
  seen_in-cons r ids h = ground (arith, h)

  not_seen :
      (ids : List String)
      → seen_in id ids ≡ false
      → (r : CanonicalRow) → IsListed ids r
      → id ≢ r.transaction_id
  not_seen ids new r h e = ground (arith, new, h, ap (λ x. seen_in x ids) e)

  appended-Inv :
      (step : ℕ) (a : Amount) (c c' : Converted) → Added b seed line v step a c c' → Inv c → Inv c'
  appended-Inv step a c c' k h =
      let r = canonical_row id line v step k.hundredths k.event_time in
      subst Inv (sym k.result) (
        All-append IsCanonical c.rows r h.0 (Added-IsCanonical step a c c' k),
        HasUniqueIds-append c.rows r h.1 (
            All-weaken (IsListed c.ids) (λ s. id ≢ s.transaction_id) c.rows
              (not_seen c.ids k.is_new) h.2),
        All-append (IsListed (id ∷ c.ids)) c.rows r
            (All-weaken (IsListed c.ids) (IsListed (id ∷ c.ids)) c.rows
              (λ s l. seen_in-cons s c.ids l) h.2)
            (rw eq_refl),
      )

  Checked-Inv : (c c' : Converted) → Checked b seed line v c c' → Inv c → Inv c'
  Checked-Inv c c' k h = elim k.result [
    | inl (z, e) ↦ subst Inv (sym e) h
    | inr (z, r) ↦ appended-Inv k.step k.amount _ c' r h
  ]

module _ (b : Builtins) (seed : String) where
  convert_rows-Inv :
      (line : ℕ) (rows : List Row) (c c' : Converted)
      → Inv c
      → convert_rows b seed line rows c ≡ ok c'
      → Inv c'
  unfolding convert_rows
  convert_rows-Inv line [] c c' h e = subst Inv (converted_eq c c' e) h
  convert_rows-Inv line (row ∷ rows) c c' h e =
      let v = values_of b row in
      elim (status-cases (convert_values b seed line v c)) [
        | inl (x, eq) ↦ absurd (ground (arith, eq))
        | inr (c1, eq) ↦
            convert_rows-Inv (line + 1) rows c1 c'
              (Checked-Inv b seed line v c c1 (convert_values-Checked b seed line v c c1 eq) h)
              (sym (ap (λ o. o >>= convert_rows b seed (line + 1) rows) eq) ∙ e)
      ]

  -- The rows of a data set that converts have different identifiers, the source banksim, amounts of whole hundredths below 10^26, and the
  -- time of their step's day after 2026-01-01, a day before the year 10000.
  pub convert_dataset-IsCanonical :
      (file : CsvFile) (rows : List CanonicalRow) (manifest : Manifest)
      → convert_dataset b seed (some file) ≡ ok (rows, manifest)
      → HasUniqueIds rows × All IsCanonical rows
  unfolding convert_dataset
  convert_dataset-IsCanonical file rows manifest h =
      elim (status-cases (refuse_missing (missing_columns file))) [
        | inl (x, eq) ↦ absurd (ground (arith, eq))
        | inr (u, eq) ↦ elim (status-cases (convert_rows b seed 2 file.rows nothing)) [
          | inl (x, eq1) ↦ absurd (ground (arith, eq, eq1))
          | inr (c, eq1) ↦
              let same = (counted_eq seed c rows manifest (ground (arith, eq, eq1, h))).0 in
              let inv = convert_rows-Inv 2 file.rows nothing c (tt, tt, tt) eq1 in
              rw (← same) (inv.1, inv.0)
        ]
      ]
