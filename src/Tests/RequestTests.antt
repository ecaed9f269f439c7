-- ===== src/Tests/RequestTests.antt =====
-- Requests on tables in memory: a first one, a retry, a conflict and what the dispatcher makes of the row.
use fraud_latch.Base.{
  ◌≡◌, ◌≢◌, ◌⊎◌, inl, inr, refl, arith, Bool, true, false, ◌&&◌, Option, none, some, List, [], ◌∷◌,
  ◌++◌,
}
use mathlib.Core.Path.{subst}
use fraud_latch.Base.Assoc.{lookup, insert}
use fraud_latch.Base.Outcome.{Outcome, ok, raised, integrity, succeeded}
use fraud_latch.Base.Action.{raise, ◌>>◌}
use fraud_latch.Contracts.Transaction.{text_within}
use fraud_latch.Db.{
  Tables, Change, add_transaction, add_outbox_event, put_assessment, add_processing_event, apply,
  apply_all,
}
use fraud_latch.Api.Repository.{
  TransactionIn, body_holds, transaction_in, new_outbox_event, RequestSession, IsNew, AllNew,
}
use fraud_latch.Api.Routes.{
  accepted, already_accepted, conflict, post_transaction, ingest_transaction, with_session, accept,
  create,
}
use fraud_latch.Api.Atomicity.{AllAnnounced}
use fraud_latch.Api.Idempotency.{post_transaction-Says, post_transaction_retried}
use fraud_latch.Dispatcher.{publish_row, is_due, counted}
use fraud_latch.Dispatcher.Ingested.{received, new_outbox_event-publish_row}
use fraud_latch.Tests.Memory.{memory_queue, no_messages, ok-injective}
use fraud_latch.Tests.RiskTests.{sample}
use fraud_latch.Tests.DispatcherTests.{any_readers, now}

pub record Requests : Type 0 where
  pub tables : Tables
  pub changes : List Change

abbrev is_none {ℓ} : {A : Type ℓ} → Option A → Bool
is_none none = true
is_none (some a) = false

is_none-eq : {A : Type 0} (o : Option A) → is_none o ≡ true → o ≡ none
is_none-eq none h = refl
is_none-eq (some a) h = absurd (ground (arith, h))

abbrev is_new : Tables → Change → Bool
is_new t (add_transaction r) = is_none (lookup r.transaction_id t.transactions)
is_new t (add_outbox_event r) = is_none (lookup r.event_id t.outbox)
is_new t (put_assessment r) = true
is_new t (add_processing_event r) = true

abbrev all_new : Tables → List Change → Bool
all_new t [] = true
all_new t (c ∷ cs) = is_new t c && all_new t cs

is_new-IsNew : (t : Tables) (c : Change) → is_new t c ≡ true → IsNew t c
is_new-IsNew t (add_transaction r) h = is_none-eq _ h
is_new-IsNew t (add_outbox_event r) h = is_none-eq _ h
is_new-IsNew t (put_assessment r) h = tt
is_new-IsNew t (add_processing_event r) h = tt

all_new-AllNew : (t : Tables) (cs : List Change) → all_new t cs ≡ true → AllNew t cs
all_new-AllNew t [] h = tt
all_new-AllNew t (c ∷ cs) h =
    (is_new-IsNew t c (ground (arith, h)), all_new-AllNew t cs (ground (arith, h)))

-- A commit, by whether the keys are new.
abbrev finish : Bool → Requests → Outcome (Unit {0}) × Requests
finish true s = (ok tt, record { tables = apply_all s.tables s.changes; changes = [] })
finish false s = (raised (record { kind = integrity; message = "duplicate key" }), s)

pub finish-ok :
    (b : Bool) (s : Requests)
    → all_new s.tables s.changes ≡ b
    → succeeded (finish b s).0 ≡ true
    → (base : Tables) × (s.tables ≡ base)
      × AllNew base s.changes
      × ((finish b s).1.tables ≡ apply_all base s.changes)
finish-ok true s e h = (s.tables, refl, all_new-AllNew s.tables s.changes e, refl)
finish-ok false s e h = absurd (ground (arith, h))

pub finish-any :
    (b : Bool) (s : Requests)
    → all_new s.tables s.changes ≡ b
    → (base : Tables) × (s.tables ≡ base)
      × (((finish b s).1.tables ≡ base)
          ⊎ (AllNew base s.changes × ((finish b s).1.tables ≡ apply_all base s.changes)))
finish-any true s e = (s.tables, refl, inr (all_new-AllNew s.tables s.changes e, refl))
finish-any false s e = (s.tables, refl, inl refl)

-- Tables that no other client writes to.
abbrev pub memory_requests : RequestSession Requests
memory_requests = record {
  model_dump = λ t. t.transaction_id;
  committed = λ s. s.tables;
  written = λ s. s.changes;
  Moves = λ a b. a ≡ b;
  get_transaction = λ id s. (ok (lookup id s.tables.transactions), s);
  flush = λ c s. (ok tt, record s { changes = s.changes ++ c ∷ [] });
  commit = λ s. finish (all_new s.tables s.changes) s;
  rollback = λ s. (ok tt, record s { changes = [] });
  lookup-Moves = λ {a} {b} {t} m id h. subst (λ x. lookup id x.transactions ≡ some t) m h;
  get_transaction-ok = λ id o s w h. ok-injective _ _ h;
  get_transaction-same = λ id s. (refl, refl);
  written-flush = λ c s h. refl;
  committed-flush = λ c s. refl;
  commit-ok = λ s h. finish-ok _ s refl h;
  commit-any = λ s. finish-any _ s refl;
  written-rollback = λ s h. refl;
  committed-rollback = λ s. refl;
}

abbrev pub empty : Requests
empty = record {
  tables = record { transactions = []; assessments = []; processing_events = []; outbox = [] };
  changes = [];
}

abbrev first : Requests
first = (post_transaction memory_requests "e1" 7 sample empty).1

-- The same identifier with another category.
abbrev altered : TransactionIn
altered = record sample { category = "es_food" }

first_answer : (post_transaction memory_requests "e1" 7 sample empty).0 ≡ ok accepted
unfolding post_transaction with_session ingest_transaction accept create apply_all apply insert
    lookup
first_answer = refl

post_transaction-Says_example :
    (lookup "t1" first.tables.transactions ≡ some sample)
    × (lookup "e1" first.tables.outbox
        ≡ some (new_outbox_event memory_requests.model_dump "e1" 7 sample))
post_transaction-Says_example =
    post_transaction-Says memory_requests "e1" 7 sample empty accepted refl first_answer

stored_row : lookup "t1" first.tables.transactions ≡ some sample
stored_row = post_transaction-Says_example.0

nothing_open : first.changes ≡ []
unfolding post_transaction with_session ingest_transaction accept create apply_all apply insert
    lookup
nothing_open = refl

post_transaction_retried_example :
    ((sample ≡ altered)
      × (post_transaction memory_requests "e2" 8 altered first ≡ (ok already_accepted, first)))
    ⊎ ((sample ≢ altered)
        × (post_transaction memory_requests "e2" 8 altered first
            ≡ (memory_requests.rollback >> raise conflict) first))
post_transaction_retried_example =
    post_transaction_retried memory_requests "e2" 8 altered sample first nothing_open stored_row
      refl

pub empty-AllAnnounced : AllAnnounced memory_requests.model_dump empty.tables
unfolding lookup
empty-AllAnnounced id t h = absurd (ground (arith, h))

valid_body : transaction_in sample ≡ ok sample
unfolding transaction_in body_holds text_within
valid_body = refl

new_outbox_event-publish_row_example :
    let queued = new_outbox_event memory_requests.model_dump "e1" 7 sample in
    (is_due now queued ≡ true)
    × (publish_row memory_queue any_readers (counted queued) no_messages
        ≡ memory_queue.publish (received "e1" sample) no_messages)
new_outbox_event-publish_row_example =
    new_outbox_event-publish_row memory_requests.model_dump any_readers "e1" 7 sample valid_body
      refl refl refl memory_queue now no_messages
