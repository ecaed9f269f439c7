-- ===== src/Scripts/Replay/Accounting.antt =====
-- What the summary of scripts/replay_banksim.py says of the rows: every row counts once, as sent or as failed.
use mathlib.Core.List.{Sublistᴰ, Sublist, append-nil}
use fraud_latch.Base.{
  append_one, map, sym, ◌∙◌, ◌++◌, ℕ, ◌+◌, ◌≡◌, refl, ap, String, List, [], ◌∷◌, length, inl, inr,
  Bool-cases, arith,
}
use mathlib.Core.Path.{subst}
use fraud_latch.Base.Outcome.{ok_inj, ok}
use fraud_latch.Base.Action.{pure}
use fraud_latch.Base.Leads.{Ensures, bind-Ensures}
use fraud_latch.Scripts.Convert.{CanonicalRow}
use fraud_latch.Scripts.Replay.Reasons.{TellsWhy, try_row-TellsWhy}
use fraud_latch.Scripts.Replay.{
  Client, Tried, delays, try_row, record_row, replay_rows, Failure, Summary, summary_of, replay,
}

abbrev ids_of : List Failure → List String
ids_of failures = map (λ f. f.transaction_id) failures

-- What some rows have added to the counts: failures of rows among them, in their order, and the others as sent.
record Accounted (rows : List CanonicalRow) (counts counts' : ℕ × List Failure) : Type 0 where
  more : List Failure
  listed : counts'.1 ≡ counts.1 ++ more
  ordered : Sublistᴰ (ids_of more) (map (λ r. r.transaction_id) rows)
  added : counts'.0 + length more ≡ counts.0 + length rows

none-Accounted :
    (counts counts' : ℕ × List Failure) → counts ≡ counts' → Accounted [] counts counts'
none-Accounted counts counts' e = record {
  more = [];
  listed = ap (λ c. c.1) (sym e) ∙ sym (append-nil counts.1);
  ordered = Sublistᴰ.slnil;
  added = omega (arith, ap (λ c. c.0) e);
}

sent-Accounted :
    (row : CanonicalRow) (rows : List CanonicalRow) (sent : ℕ) (failures : List Failure)
    (counts' : ℕ × List Failure)
    → Accounted rows (sent + 1, failures) counts'
    → Accounted (row ∷ rows) (sent, failures) counts'
sent-Accounted row rows sent failures counts' a = record {
  more = a.more;
  listed = a.listed;
  ordered = Sublistᴰ.cons a.ordered;
  added = omega (arith, a.added);
}

failed-Accounted :
    (row : CanonicalRow) (rows : List CanonicalRow) (e : String) (sent : ℕ)
    (failures : List Failure) (counts' : ℕ × List Failure)
    → Accounted rows
        (sent, failures ++ record { transaction_id = row.transaction_id; error = e } ∷ [])
        counts'
    → Accounted (row ∷ rows) (sent, failures) counts'
failed-Accounted row rows e sent failures counts' a =
    let f : Failure = record { transaction_id = row.transaction_id; error = e } in
    record {
      more = f ∷ a.more;
      listed = a.listed ∙ append_one failures f a.more;
      ordered = Sublistᴰ.cons-cons refl a.ordered;
      added = omega (arith, a.added);
    }

record_row-Accounted :
    (row : CanonicalRow) (rows : List CanonicalRow) (t : Tried) (sent : ℕ) (failures : List Failure)
    (counts' : ℕ × List Failure)
    → TellsWhy t
    → Accounted rows (record_row row t (sent, failures)) counts'
    → Accounted (row ∷ rows) (sent, failures) counts'
record_row-Accounted row rows t sent failures counts' why a = elim (Bool-cases t.succeeded) [
  | inl s ↦
      sent-Accounted row rows sent failures counts'
        (subst (λ c. Accounted rows c counts') (ground (arith, s)) a)
  | inr s ↦
      failed-Accounted row rows t.last_error sent failures counts'
        (subst (λ c. Accounted rows c counts') (ground (arith, s, why)) a)
]

abbrev AddsUp : List CanonicalRow → Summary → Type 0
AddsUp rows s =
    (s.selected ≡ length rows)
    × (s.sent + s.failed ≡ s.selected)
    × (length s.failures ≡ s.failed)
    × Sublist (ids_of s.failures) (map (λ r. r.transaction_id) rows)

Accounted-AddsUp :
    (rows : List CanonicalRow) (c : ℕ × List Failure)
    → Accounted rows (0, []) c
    → AddsUp rows (summary_of (length rows) c)
Accounted-AddsUp rows c a = (
  refl,
  omega (arith, a.added, ap length a.listed),
  refl,
  ∣ subst (λ fs. Sublistᴰ (ids_of fs) (map (λ r. r.transaction_id) rows)) (sym a.listed)
      a.ordered ∣₁,
)

module _ {W : Type 0} (client : Client W) where
  replay_rows-Accounted :
      (rows : List CanonicalRow) (counts : ℕ × List Failure) (w : W)
      → Ensures (λ counts' w'. Accounted rows counts counts') (replay_rows client rows counts) w
  unfolding replay_rows
  replay_rows-Accounted [] counts w =
      λ counts' h. none-Accounted counts counts' (ok_inj counts counts' h)
  replay_rows-Accounted (row ∷ rows) (sent, failures) w =
      bind-Ensures (λ counts' w'. Accounted (row ∷ rows) (sent, failures) counts')
        (try_row client sent row delays "")
        (λ t. replay_rows client rows (record_row row t (sent, failures))) w
        (λ t e counts' h.
          record_row-Accounted row rows t sent failures counts'
            (try_row-TellsWhy client sent row delays "" w t e)
            (replay_rows-Accounted rows (record_row row t (sent, failures))
              (try_row client sent row delays "" w).1 counts' h))

  -- If a replay returns, each of the selected rows counts once in its summary, as sent or as failed, and it lists as
  -- many failures as failed rows, with the identifiers of some of the rows in the order of the rows.
  pub replay_counts :
      (rows : List CanonicalRow) (w : W) (s : Summary)
      → (replay client rows w).0 ≡ ok s
      → (s.selected ≡ length rows)
        × (s.sent + s.failed ≡ s.selected)
        × (length s.failures ≡ s.failed)
        × Sublist (map (λ f. f.transaction_id) s.failures) (map (λ r. r.transaction_id) rows)
  unfolding replay
  replay_counts rows w s h =
      let rest =
        bind-Ensures (λ s' w'. AddsUp rows s') (replay_rows client rows (0, []))
          (λ c. pure (summary_of (length rows) c)) w
          (λ c e s' k.
            subst (AddsUp rows) (ok_inj (summary_of (length rows) c) s' k)
              (Accounted-AddsUp rows c (replay_rows-Accounted rows (0, []) w c e))) in
      rest s h
