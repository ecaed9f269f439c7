-- ===== src/Api/Repository.antt =====
-- fraudlatch/api/repository.py and TransactionIn of fraudlatch/api/schemas.py: what a request writes, and the
-- session it writes through while other clients commit too.
use fraud_latch.Base.{
  ℕ, ◌≡◌, ◌⊎◌, String, Bool, true, false, not, ◌&&◌, Option, none, some, List, [], ◌∷◌, ◌++◌,
  str_eq, ◌==◌, refl, ap, arith, eq_iff, eq_refl,
}
use fraud_latch.Base.Int.{ℤ, pos, negsuc, ltb_ℤ, leb_ℤ}
use fraud_latch.Base.Decimal.{has_digits}
use fraud_latch.Base.Assoc.{lookup}
use fraud_latch.Base.Time.{Datetime}
use fraud_latch.Base.Outcome.{Outcome, ok, value, raise_if, succeeded, ◌>>◌}
use fraud_latch.Base.Action.{Action}
use fraud_latch.Contracts.Transaction.{TransactionFields, text_within}
use fraud_latch.Db.{
  Transaction, OutboxEvent, waiting, Tables, StoredJson, Change, put_assessment,
  add_processing_event, add_transaction, add_outbox_event, apply_all,
}

-- `TransactionIn`, with the fields of the payload of an event.
abbrev pub TransactionIn : Type 0
TransactionIn = TransactionFields

-- Its own Field constraints and `require_timezone`: an amount has two decimal places (10^6 units) and at most 16 digits before the
-- point (10^24 units).
unfoldable pub body_holds : TransactionIn → Bool
body_holds t =
    text_within 128 t.transaction_id
    && text_within 128 t.customer_id
    && text_within 128 t.merchant_id
    && text_within 128 t.category
    && ltb_ℤ (pos 0) t.amount
    && has_digits 1000000 1000000000000000000000000 t.amount
    && leb_ℤ (pos 0) t.source_step
    && text_within 64 t.source
    && t.event_time.aware

unfoldable pub transaction_in : TransactionIn → Outcome TransactionIn
transaction_in t = raise_if (not (body_holds t)) value "TransactionIn" >> ok t

-- `==` on the values that the fields hold.
abbrev pub same_number : ℤ → ℤ → Bool
same_number (pos m) (pos n) = m == n
same_number (negsuc m) (negsuc n) = m == n
same_number (pos m) (negsuc n) = false
same_number (negsuc m) (pos n) = false

abbrev pub same_option : Option String → Option String → Bool
same_option none none = true
same_option (some a) (some b) = str_eq a b
same_option none (some b) = false
same_option (some a) none = false

abbrev pub same_bool : Bool → Bool → Bool
same_bool true b = b
same_bool false b = not b

abbrev pub same_time : Datetime → Datetime → Bool
same_time a b = a.micros == b.micros && same_bool a.aware b.aware

-- `matches_payload`, over the fields of `transaction_values`
unfoldable pub matches_payload : Transaction → TransactionIn → Bool
matches_payload existing payload =
    str_eq existing.transaction_id payload.transaction_id
    && str_eq existing.customer_id payload.customer_id
    && str_eq existing.merchant_id payload.merchant_id
    && str_eq existing.category payload.category
    && same_number existing.amount payload.amount
    && same_number existing.source_step payload.source_step
    && str_eq existing.source payload.source
    && same_time existing.event_time payload.event_time
    && same_option existing.source_metadata payload.source_metadata

-- The row of `create_outbox_event`, where `event_id` is `str(uuid4())` and `created_at` the time that the
-- server fills in. `model_dump` is `payload.model_dump(mode="json")`, as it is stored.
abbrev pub new_outbox_event :
    (TransactionIn → StoredJson) → String → ℕ → TransactionIn → OutboxEvent
new_outbox_event model_dump event_id created_at payload = record {
  event_id = event_id;
  event_type = "transaction.received";
  schema_version = pos 1;
  occurred_at = payload.event_time;
  aggregate_id = payload.transaction_id;
  payload = model_dump payload;
  status = waiting;
  attempts = 0;
  next_attempt_at = none;
  published_at = none;
  last_error = none;
  created_at = created_at;
}

-- The primary keys: a row that is added has none under its key before it.
abbrev pub IsNew : Tables → Change → Type 0
IsNew t (add_transaction r) = lookup r.transaction_id t.transactions ≡ none
IsNew t (add_outbox_event r) = lookup r.event_id t.outbox ≡ none
IsNew t (put_assessment r) = Unit
IsNew t (add_processing_event r) = Unit

abbrev pub AllNew : Tables → List Change → Type 0
AllNew t [] = Unit
AllNew t (c ∷ cs) = IsNew t c × AllNew t cs

-- What a request uses of SQLAlchemy's AsyncSession. `committed` is what is durable, `written` what this session has flushed and
-- not committed. `Moves a b` says that the commits of other clients may take the tables from a to b while a call waits.
-- `flush` is `session.add(...)` with the flush after it. A commit writes what the session has flushed, in one piece, if the
-- primary keys allow it; one that raises has written all or nothing. No client changes or deletes a transaction.
-- `model_dump` is Pydantic's, to JSON.
pub record RequestSession (S : Type 0) : Type 1 where
  pub model_dump : TransactionIn → StoredJson
  pub committed : S → Tables
  pub written : S → List Change
  pub Moves : Tables → Tables → Type 0
  pub get_transaction : String → Action S (Option Transaction)
  pub flush : Change → Action S (Unit {0})
  pub commit : Action S (Unit {0})
  pub rollback : Action S (Unit {0})
  pub lookup-Moves :
      {a b : Tables} {t : Transaction}
      → Moves a b
      → (id : String) → lookup id a.transactions ≡ some t
      → lookup id b.transactions ≡ some t
  pub get_transaction-ok :
      (id : String) (o : Option Transaction) (s : S)
      → written s ≡ []
      → (get_transaction id s).0 ≡ ok o
      → o ≡ lookup id (committed (get_transaction id s).1).transactions
  pub get_transaction-same :
      (id : String) (s : S)
      → (written (get_transaction id s).1 ≡ written s)
        × Moves (committed s) (committed (get_transaction id s).1)
  pub written-flush :
      (c : Change) (s : S)
      → succeeded (flush c s).0 ≡ true
      → written (flush c s).1 ≡ written s ++ c ∷ []
  pub committed-flush : (c : Change) (s : S) → Moves (committed s) (committed (flush c s).1)
  pub commit-ok :
      (s : S)
      → succeeded (commit s).0 ≡ true
      → (base : Tables) × Moves (committed s) base
        × AllNew base (written s)
        × (committed (commit s).1 ≡ apply_all base (written s))
  pub commit-any :
      (s : S)
      → (base : Tables) × Moves (committed s) base
        × ((committed (commit s).1 ≡ base)
            ⊎ (AllNew base (written s) × (committed (commit s).1 ≡ apply_all base (written s))))
  pub written-rollback : (s : S) → succeeded (rollback s).0 ≡ true → written (rollback s).1 ≡ []
  pub committed-rollback : (s : S) → Moves (committed s) (committed (rollback s).1)

-- Rows that `matches_payload` accepts are equal in every field.
same_number-eq : (a b : ℤ) → same_number a b ≡ true → a ≡ b
same_number-eq (pos m) (pos n) h = ground (arith, h)
same_number-eq (negsuc m) (negsuc n) h = ground (arith, h)
same_number-eq (pos m) (negsuc n) h = ground (arith, h)
same_number-eq (negsuc m) (pos n) h = ground (arith, h)

same_option-eq : (a b : Option String) → same_option a b ≡ true → a ≡ b
same_option-eq none none h = refl
same_option-eq (some a) (some b) h = ap some ((eq_iff a b).0 h)
same_option-eq none (some b) h = ground (arith, h)
same_option-eq (some a) none h = ground (arith, h)

same_time-eq : (a b : Datetime) → same_time a b ≡ true → a ≡ b
same_time-eq a b h = ground (arith, h)

pub matches_payload-eq :
    (existing : Transaction) (payload : TransactionIn)
    → matches_payload existing payload ≡ true
    → existing ≡ payload
unfolding matches_payload
matches_payload-eq a b h = ground (
  arith,
  h,
  eq_iff a.transaction_id b.transaction_id,
  eq_iff a.customer_id b.customer_id,
  eq_iff a.merchant_id b.merchant_id,
  eq_iff a.category b.category,
  eq_iff a.source b.source,
  same_number-eq a.amount b.amount,
  same_number-eq a.source_step b.source_step,
  same_time-eq a.event_time b.event_time,
  same_option-eq a.source_metadata b.source_metadata,
)

same_number_refl : (a : ℤ) → same_number a a ≡ true
same_number_refl (pos m) = ground arith
same_number_refl (negsuc m) = ground arith

same_option_refl : (a : Option String) → same_option a a ≡ true
same_option_refl none = refl
same_option_refl (some a) = eq_refl a

same_bool_refl : (b : Bool) → same_bool b b ≡ true
same_bool_refl true = refl
same_bool_refl false = refl

pub matches_payload_refl : (t : Transaction) → matches_payload t t ≡ true
unfolding matches_payload
matches_payload_refl t = ground (
  arith,
  eq_refl t.transaction_id,
  eq_refl t.customer_id,
  eq_refl t.merchant_id,
  eq_refl t.category,
  eq_refl t.source,
  same_number_refl t.amount,
  same_number_refl t.source_step,
  same_bool_refl t.event_time.aware,
  same_option_refl t.source_metadata,
)
