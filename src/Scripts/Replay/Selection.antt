-- ===== src/Scripts/Replay/Selection.antt =====
-- Which rows scripts/replay_banksim.py selects: the first that pass the filters, up to the limit.
use mathlib.Core.List.{append-nil}
use fraud_latch.Base.{
  append_one, ℕ, zero, suc, ◌+◌, ◌≡◌, take, keep, refl, sym, ◌∙◌, Bool, true, false, List, [], ◌∷◌,
  ◌++◌, length, length-append, inl, inr, Bool-cases, arith,
}
use fraud_latch.Scripts.Convert.{CanonicalRow}
use fraud_latch.Scripts.Replay.{ReplayConfig, passes, is_full, select_rows, selected_rows}

-- The rows up to a limit, where 0 is no limit.
abbrev pub limited : ℕ → List CanonicalRow → List CanonicalRow
limited zero rs = rs
limited (suc n) rs = take (suc n) rs

module _ (source_row : CanonicalRow → ℕ) (is_fraud : ℕ → Bool) (config : ReplayConfig) where
  abbrev test : CanonicalRow → Bool
  test row = passes source_row is_fraud config row

  abbrev select : List CanonicalRow → List CanonicalRow → List CanonicalRow
  select selected rows = select_rows source_row is_fraud config selected rows

  select_unlimited :
      config.limit ≡ 0
      → (selected rows : List CanonicalRow) → select selected rows ≡ selected ++ keep test rows
  unfolding select_rows
  select_unlimited z selected [] = sym (append-nil selected)
  select_unlimited z selected (row ∷ rows) = elim (Bool-cases (test row)) [
    | inl h ↦
        rw (h, z)
          (select_unlimited z (selected ++ row ∷ []) rows
            ∙ append_one selected row (keep test rows))
    | inr h ↦ rw h (select_unlimited z selected rows)
  ]

  is_full_last :
      (selected : List CanonicalRow) (row : CanonicalRow)
      → config.limit ≡ length selected + 1
      → is_full source_row is_fraud config (selected ++ row ∷ []) ≡ true
  is_full_last selected row l = ground (arith, l, length-append selected (row ∷ []))

  is_full_before :
      (n : ℕ) (selected : List CanonicalRow) (row : CanonicalRow)
      → config.limit ≡ length selected + suc (suc n)
      → is_full source_row is_fraud config (selected ++ row ∷ []) ≡ false
  is_full_before n selected row l = ground (arith, l, length-append selected (row ∷ []))

  select_limited :
      (n : ℕ) (selected rows : List CanonicalRow)
      → config.limit ≡ length selected + suc n
      → select selected rows ≡ selected ++ take (suc n) (keep test rows)
  unfolding select_rows
  select_limited n selected [] l = sym (append-nil selected)
  select_limited zero selected (row ∷ rows) l = elim (Bool-cases (test row)) [
    | inl h ↦ rw h (rw (is_full_last selected row l) refl)
    | inr h ↦ rw h (select_limited zero selected rows l)
  ]
  select_limited (suc n) selected (row ∷ rows) l = elim (Bool-cases (test row)) [
    | inl h ↦ rw h (
        rw (is_full_before n selected row l) (
          select_limited n (selected ++ row ∷ []) rows
            (omega (arith, l, length-append selected (row ∷ [])))
          ∙ append_one selected row (take (suc n) (keep test rows))))
    | inr h ↦ rw h (select_limited (suc n) selected rows l)
  ]

  select_up_to :
      (n : ℕ)
      → config.limit ≡ n
      → (rows : List CanonicalRow) → select [] rows ≡ limited n (keep test rows)
  select_up_to zero l rows = select_unlimited l [] rows
  select_up_to (suc n) l rows = select_limited n [] rows (omega (arith, l))

  -- The selected rows are those that pass the filters, in their order, up to the limit if there is one.
  pub selected_rows_lem :
      (rows : List CanonicalRow)
      → selected_rows source_row is_fraud config rows
        ≡ limited config.limit (keep (passes source_row is_fraud config) rows)
  unfolding selected_rows
  selected_rows_lem rows = select_up_to config.limit refl rows
