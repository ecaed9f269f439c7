-- ===== src/Scripts/Validate/Duplicates.antt =====
-- The duplicate count of scripts/validate_dataset.py against its meaning: the rows whose values an earlier row has.
use fraud_latch.Base.{
  ℕ, ◌+◌, ◌≡◌, ◌≤◌, refl, sym, ◌∙◌, ap, Bool, true, false, ◌||◌, some, List, [], ◌∷◌, map, length,
  All, arith, inl, inr, Bool-cases, eq_iff, if◌then◌else◌,
}
use mathlib.Core.Path.{subst}
use fraud_latch.Base.Outcome.{Outcome, ok, ◌>>=◌}
use fraud_latch.Worker.Durability.{status-cases}
use fraud_latch.Scripts.Dataset.{
  Row, CsvFile, Builtins, Values, values_of, below_zero, missing_columns, at_line,
}
use fraud_latch.Scripts.Validate.{
  Counter, same_values, count_up, excess, Tally, no_rows, Report, report_of, parsed, refuse_missing,
  validate_values, validate_rows, validate_dataset,
}

-- The specification: the number of rows whose values occur in an earlier row or in `earlier`.
abbrev pub occurs : Values → List Values → Bool
occurs v [] = false
occurs v (u ∷ us) = same_values u v || occurs v us

unfoldable pub repeats : List Values → List Values → ℕ
repeats earlier [] = 0
repeats earlier (v ∷ vs) = (if occurs v earlier then 1 else 0) + repeats (v ∷ earlier) vs

-- Whether a counter has an entry for the values.
abbrev counted : Values → Counter → Bool
counted v [] = false
counted v ((u, n) ∷ rest) = same_values u v || counted v rest

abbrev HasPositive : Counter → Type 0
HasPositive c = All (λ p. 1 ≤ p.1) c

abbrev as_number : Bool → ℕ
as_number x = if x then 1 else 0

count_up-HasPositive : (v : Values) (c : Counter) → HasPositive c → HasPositive (count_up v c)
unfolding count_up
count_up-HasPositive v [] h = (omega arith, tt)
count_up-HasPositive v ((u, n) ∷ rest) h = ground (arith, h, count_up-HasPositive v rest h.1)

excess-count_up :
    (v : Values) (c : Counter)
    → HasPositive c
    → excess (count_up v c) ≡ excess c + as_number (counted v c)
unfolding excess count_up
excess-count_up v [] h = ground arith
excess-count_up v ((u, n) ∷ rest) h = ground (arith, h.0, excess-count_up v rest h.1)

same_values-eq : (a b : Values) → same_values a b ≡ true → a ≡ b
unfolding same_values
same_values-eq a b h = ground (
  arith,
  h,
  eq_iff a.step b.step,
  eq_iff a.customer b.customer,
  eq_iff a.merchant b.merchant,
  eq_iff a.category b.category,
  eq_iff a.amount b.amount,
  eq_iff a.fraud b.fraud,
)

or_same : (a b : Bool) → (a || b) ≡ (a || (a || b))
or_same true b = refl
or_same false b = refl

or_swap : (a b c : Bool) → (a || (b || c)) ≡ (b || (a || c))
or_swap true true c = refl
or_swap true false c = refl
or_swap false b c = refl

counted-count_up :
    (v w : Values) (c : Counter) → counted w (count_up v c) ≡ (same_values v w || counted w c)
unfolding count_up
counted-count_up v w [] = refl
counted-count_up v w ((u, n) ∷ rest) = elim (Bool-cases (same_values u v)) [
  | inl e ↦ rw e (again u v n rest (same_values-eq u v e))
  | inr e ↦
      rw (e, counted-count_up v w rest)
        (or_swap (same_values u w) (same_values v w) (counted w rest))
]
  where
    again :
        (u v : Values) (n : ℕ) (rest : Counter)
        → u ≡ v
        → (same_values u w || counted w rest)
          ≡ (same_values v w || (same_values u w || counted w rest))
    again u v n rest e = rw (← e) (or_same (same_values u w) (counted w rest))

-- A counter that has counted the rows so far.
abbrev Tracks : List Values → Counter → Type 0
Tracks earlier c = HasPositive c × ((w : Values) → counted w c ≡ occurs w earlier)

count_up-Tracks :
    (v : Values) (earlier : List Values) (c : Counter)
    → Tracks earlier c
    → Tracks (v ∷ earlier) (count_up v c)
count_up-Tracks v earlier c h = (
  count_up-HasPositive v c h.0,
  λ w. counted-count_up v w c ∙ ap (λ b. same_values v w || b) (h.1 w),
)

tally_eq : (t t' : Tally) → ◌≡◌ {A = Outcome Tally} (ok t) (ok t') → t ≡ t'
tally_eq t t' h = ground (arith, h)

zero_more : (n : ℕ) → excess [] + n ≡ n
unfolding excess
zero_more n = omega arith

module _ (b : Builtins) where
  validate_values-counts :
      (line : ℕ) (v : Values) (t t' : Tally)
      → validate_values b line v t ≡ ok t'
      → (t'.row_count ≡ t.row_count + 1) × (t'.duplicates ≡ count_up v t.duplicates)
  unfolding validate_values
  validate_values-counts line v t t' h =
      elim (status-cases
        (parsed (b.decimal_of_text v.amount) (at_line line "amount must be a number"))) [
          | inl (x, eq) ↦ absurd (ground (arith, eq))
          | inr (a, eq) ↦ elim (status-cases (below_zero a)) [
            | inl (x, eq1) ↦ absurd (ground (arith, eq, eq1))
            | inr (n, eq1) ↦ ground (arith, eq, eq1, h)
          ]
        ]

  rows-repeats :
      (line : ℕ) (rows : List Row) (earlier : List Values) (t t' : Tally)
      → Tracks earlier t.duplicates
      → validate_rows b line rows t ≡ ok t'
      → excess t'.duplicates ≡ excess t.duplicates + repeats earlier (map (values_of b) rows)
  unfolding validate_rows repeats
  rows-repeats line [] earlier t t' k h =
      ap (λ x. excess x.duplicates) (sym (tally_eq t t' h)) ∙ ground arith
  rows-repeats line (row ∷ rows) earlier t t' k h =
      let v = values_of b row in
      elim (status-cases (validate_values b line v t)) [
        | inl (x, eq) ↦ absurd (ground (arith, eq))
        | inr (t1, eq) ↦
            let same = (validate_values-counts line v t t1 eq).1 in
            let rest =
              rows-repeats (line + 1) rows (v ∷ earlier) t1 t'
                (subst (Tracks (v ∷ earlier)) (sym same) (count_up-Tracks v earlier t.duplicates k))
                (sym (ap (λ o. o >>= validate_rows b (line + 1) rows) eq) ∙ h) in
            omega (
              arith,
              rest,
              ap excess same,
              excess-count_up v t.duplicates k.0,
              ap as_number (k.1 v),
            )
      ]

  rows-length :
      (line : ℕ) (rows : List Row) (t t' : Tally)
      → validate_rows b line rows t ≡ ok t'
      → t'.row_count ≡ t.row_count + length rows
  unfolding validate_rows
  rows-length line [] t t' h = ap (λ x. x.row_count) (sym (tally_eq t t' h)) ∙ omega arith
  rows-length line (row ∷ rows) t t' h =
      elim (status-cases (validate_values b line (values_of b row) t)) [
        | inl (x, eq) ↦ absurd (ground (arith, eq))
        | inr (t1, eq) ↦ omega (
          arith,
          (validate_values-counts line (values_of b row) t t1 eq).0,
          rows-length (line + 1) rows t1 t'
              (sym (ap (λ o. o >>= validate_rows b (line + 1) rows) eq) ∙ h),
        )
      ]

  report_eq : (r s : Report) → ◌≡◌ {A = Outcome Report} (ok r) (ok s) → r ≡ s
  report_eq r s h = ground (arith, h)

  -- The report of a data set that validates counts all its rows, and as duplicates those rows whose values an earlier row has.
  pub validate_dataset-repeats :
      (file : CsvFile) (report : Report)
      → validate_dataset b (some file) ≡ ok report
      → (report.row_count ≡ length file.rows)
        × (report.duplicate_rows ≡ repeats [] (map (values_of b) file.rows))
  unfolding validate_dataset
  validate_dataset-repeats file report h =
      elim (status-cases (refuse_missing (missing_columns file))) [
        | inl (x, eq) ↦ absurd (ground (arith, eq))
        | inr (u, eq) ↦ elim (status-cases (validate_rows b 2 file.rows no_rows)) [
          | inl (x, eq1) ↦ absurd (ground (arith, eq, eq1))
          | inr (t, eq1) ↦
              let same = report_eq (report_of file.sha256 t) report (ground (arith, eq, eq1, h)) in
              (
                rw (← same) (omega (arith, rows-length 2 file.rows no_rows t eq1)),
                rw (← same) (
                    rows-repeats 2 file.rows [] no_rows t (tt, λ w. refl) eq1
                    ∙ zero_more (repeats [] (map (values_of b) file.rows))),
              )
        ]
      ]
