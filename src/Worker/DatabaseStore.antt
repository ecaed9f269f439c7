-- ===== src/Worker/DatabaseStore.antt =====
-- DatabaseWorkerStore of fraudlatch/worker.py over a database session, and that it is a WorkerStore.
use fraud_latch.Base.{
  ℕ, ◌≡◌, ◌≢◌, ◌⊎◌, inl, inr, ap, String, Bool, true, Option, none, some, List, [], ◌∷◌, arith,
  is_some, str_eq, if◌then◌else◌,
}
use fraud_latch.Base.Assoc.{lookup, lookup-insert}
use fraud_latch.Base.Outcome.{ok, Error, succeeded}
use fraud_latch.Base.Action.{Action, pure, ◌>>=◌, ◌>>◌}
use fraud_latch.Db.{
  Status, completed, processing, RiskAssessment, new_assessment, Session, Tables, put_assessment,
  add_processing_event, Change, apply, apply_all,
}
use fraud_latch.Risk.Models.{RiskDecision}
use fraud_latch.Api.RiskRepository.{persist_risk_result, with_result}
use fraud_latch.Contracts.Events.{EventEnvelope}
use fraud_latch.Queue.Retry.{RetryDecision}
use fraud_latch.Queue.Ports.{QueueMessage, QueuePort}
use fraud_latch.Worker.{WorkerStore, World, process}
use fraud_latch.Worker.Durability.{status-cases, process-durable}

abbrev pub status_of : Option RiskAssessment → Option Status
status_of none = none
status_of (some a) = some a.status

-- The row after `mark_processing`.
unfoldable pub marked : Option RiskAssessment → String → ℕ → RiskAssessment
marked none id attempt = record (new_assessment id) { status = processing; attempts = attempt }
marked (some a) id attempt = record a { status = processing; attempts = attempt }

module _ {S : Type 0} (session : Session S) where
  open session use {
    visible, committed, get_transaction, get_assessment, flush, commit, rollback,
    get_transaction-ok, get_transaction-same, get_assessment-ok, get_assessment-key,
    get_assessment-same, visible-flush, committed-flush, commit-ok, commit-any, rollback-ok,
    committed-rollback,
  }

  unfoldable pub transaction_exists : String → Action S Bool
  transaction_exists id = do found ← get_transaction id; pure (is_some found)

  unfoldable pub assessment_status : String → Action S (Option Status)
  assessment_status id = do found ← get_assessment id; pure (status_of found)

  unfoldable pub mark_processing : String → ℕ → Action S (Unit {0})
  mark_processing id attempt = do
    found ← get_assessment id
    flush (put_assessment (marked found id attempt) ∷ [])

  unfoldable pub persist_decision : String → String → ℕ → RiskDecision → Action S (Unit {0})
  persist_decision id event_id attempt decision = do
    persist_risk_result session id event_id attempt decision
    pure tt

  -- The status of a transaction in the session's tables, and in the durable ones.
  abbrev pub seen : S → String → Option Status
  seen s id = status_of (lookup id (visible s).assessments)

  abbrev pub durable : S → String → Option Status
  durable s id = status_of (lookup id (committed s).assessments)

  abbrev pub at : String → Tables → Option Status
  at id t = status_of (lookup id t.assessments)

  seen-put :
      (a : RiskAssessment) (t : Tables) (j : String)
      → at j (apply t (put_assessment a))
        ≡ (if str_eq a.transaction_id j then some a.status else at j t)
  unfolding apply
  seen-put a t j = rw lookup-insert (ground arith)

  pub seen-mark_processing :
      (id : String) (n : ℕ) (s : S) (j : String)
      → succeeded (mark_processing id n s).0 ≡ true
      → seen (mark_processing id n s).1 j ≡ (if str_eq id j then some processing else seen s j)
  unfolding mark_processing marked apply_all
  seen-mark_processing id n s j h =
      let s1 = (get_assessment id s).1 in
      elim (status-cases (get_assessment id s).0) [
        | inl (e, eq) ↦ ground (arith, eq)
        | inr (none, eq) ↦ ground (
          arith,
          eq,
          ap (at j)
              (visible-flush (put_assessment (marked none id n) ∷ []) s1 (ground (arith, eq))),
          seen-put (marked none id n) (visible s1) j,
          ap (at j) (get_assessment-same id s).0,
        )
        | inr (some a, eq) ↦ ground (
          arith,
          eq,
          get_assessment-key id a s eq,
          ap (at j)
              (visible-flush (put_assessment (marked (some a) id n) ∷ []) s1 (ground (arith, eq))),
          seen-put (marked (some a) id n) (visible s1) j,
          ap (at j) (get_assessment-same id s).0,
        )
      ]

  -- The changes that `persist_risk_result` flushes.
  abbrev result_changes : Option RiskAssessment → String → String → ℕ → RiskDecision → List Change
  result_changes found id event n d =
      put_assessment (with_result found id n d)
      ∷ add_processing_event (record {
        event_id = event;
        transaction_id = id;
        event_type = "risk.assessed";
        attempt = n;
        status = completed;
        error_code = none;
      })
      ∷ []

  at-result_changes :
      (found : Option RiskAssessment) (id event : String) (n : ℕ) (d : RiskDecision) (t : Tables)
      (j : String)
      → at j (apply_all t (result_changes found id event n d))
        ≡ (if str_eq (with_result found id n d).transaction_id j then some completed else at j t)
  unfolding apply_all apply with_result
  at-result_changes found id event n d t j = rw lookup-insert (ground arith)

  pub transaction_exists_same :
      (id j : String) (s : S)
      → (seen (transaction_exists id s).1 j ≡ seen s j)
        × (durable (transaction_exists id s).1 j ≡ durable s j)
  unfolding transaction_exists
  transaction_exists_same id j s =
      ground
        (arith, ap (at j) (get_transaction-same id s).0, ap (at j) (get_transaction-same id s).1)

  pub seen-persist_decision :
      (id event : String) (n : ℕ) (d : RiskDecision) (s : S) (j : String)
      → succeeded (persist_decision id event n d s).0 ≡ true
      → seen (persist_decision id event n d s).1 j
        ≡ (if str_eq id j then some completed else seen s j)
  unfolding persist_decision persist_risk_result with_result apply_all
  seen-persist_decision id event n d s j h =
      let s1 = (get_assessment id s).1 in
      elim (status-cases (get_assessment id s).0) [
        | inl (e, eq) ↦ ground (arith, eq)
        | inr (none, eq) ↦ ground (
          arith,
          eq,
          ap (at j) (visible-flush (result_changes none id event n d) s1 (ground (arith, eq))),
          at-result_changes none id event n d (visible s1) j,
          ap (at j) (get_assessment-same id s).0,
        )
        | inr (some a, eq) ↦ ground (
          arith,
          eq,
          get_assessment-key id a s eq,
          ap (at j) (visible-flush (result_changes (some a) id event n d) s1 (ground (arith, eq))),
          at-result_changes (some a) id event n d (visible s1) j,
          ap (at j) (get_assessment-same id s).0,
        )
      ]

  pub read_status :
      (id : String) (o : Option Status) (s : S) → (assessment_status id s).0 ≡ ok o → o ≡ seen s id
  unfolding assessment_status
  read_status id o s h = elim (status-cases (get_assessment id s).0) [
    | inl (e, eq) ↦ ground (arith, eq)
    | inr (a, eq) ↦ ground (arith, eq, ap status_of (get_assessment-ok id a s eq))
  ]

  pub read_same :
      (id j : String) (s : S)
      → (seen (assessment_status id s).1 j ≡ seen s j)
        × (durable (assessment_status id s).1 j ≡ durable s j)
  unfolding assessment_status
  read_same id j s =
      ground (arith, ap (at j) (get_assessment-same id s).0, ap (at j) (get_assessment-same id s).1)

  pub mark_durable :
      (id : String) (n : ℕ) (s : S) (j : String)
      → durable (mark_processing id n s).1 j ≡ durable s j
  unfolding mark_processing
  mark_durable id n s j = elim (status-cases (get_assessment id s).0) [
    | inl (e, eq) ↦ ground (arith, eq, ap (at j) (get_assessment-same id s).1)
    | inr (o, eq) ↦ ground (
      arith,
      eq,
      ap (at j) (committed-flush (put_assessment (marked o id n) ∷ []) (get_assessment id s).1),
      ap (at j) (get_assessment-same id s).1,
    )
  ]

  pub persist_durable :
      (id event : String) (n : ℕ) (d : RiskDecision) (s : S) (j : String)
      → durable (persist_decision id event n d s).1 j ≡ durable s j
  unfolding persist_decision persist_risk_result
  persist_durable id event n d s j = elim (status-cases (get_assessment id s).0) [
    | inl (e, eq) ↦ ground (arith, eq, ap (at j) (get_assessment-same id s).1)
    | inr (o, eq) ↦ ground (
      arith,
      eq,
      ap (at j) (committed-flush (result_changes o id event n d) (get_assessment id s).1),
      ap (at j) (get_assessment-same id s).1,
    )
  ]

  pub commit_any :
      (s : S) (j : String)
      → (durable (commit s).1 j ≡ durable s j) ⊎ (durable (commit s).1 j ≡ seen s j)
  commit_any s j = elim (commit-any s) [ inl e ↦ inl (ap (at j) e) | inr e ↦ inr (ap (at j) e) ]

  -- DatabaseWorkerStore keeps every promise that the worker's proofs rest on.
  unfoldable pub database_store : WorkerStore S
  database_store = record {
    seen = seen;
    durable = durable;
    transaction_exists = transaction_exists;
    assessment_status = assessment_status;
    mark_processing = mark_processing;
    commit = commit;
    rollback = rollback;
    persist_decision = persist_decision;
    transaction_exists-same = λ id j s. transaction_exists_same id j s;
    assessment_status-ok = λ id o s h. read_status id o s h;
    assessment_status-same = λ id j s. read_same id j s;
    seen-mark_processing = λ id n s j h. seen-mark_processing id n s j h;
    durable-mark_processing = λ id n s j. mark_durable id n s j;
    seen-persist_decision = λ id event n d s j h. seen-persist_decision id event n d s j h;
    durable-persist_decision = λ id event n d s j. persist_durable id event n d s j;
    commit-ok = λ s j h. (ap (at j) (commit-ok s h).0, ap (at j) (commit-ok s h).1);
    commit-any = λ s j. commit_any s j;
    rollback-ok = λ s j h. ap (at j) (rollback-ok s h);
    durable-rollback = λ s j. ap (at j) (committed-rollback s);
  }

  -- With the database store: when `process` returns true, the committed row of the message's transaction has
  -- the status "completed". (Nothing is uncommitted at the start, and the handler always decides.)
  pub process-committed :
      {Q : Type 0} (queue : QueuePort Q)
      (risk_handler : EventEnvelope → Action Q (Option RiskDecision))
      (handle_failure : EventEnvelope → ℕ → Error → Action Q RetryDecision) (message : QueueMessage)
      (w : World S Q)
      → ((e : EventEnvelope) (q : Q) → (risk_handler e q).0 ≢ ok none)
      → visible w.db ≡ committed w.db
      → (process database_store queue risk_handler handle_failure message w).0 ≡ ok true
      → durable
          (process database_store queue risk_handler handle_failure message w).1.db
          message.event.aggregate_id
        ≡ some completed
  unfolding database_store
  process-committed queue risk_handler handle_failure message w decides clean h =
      process-durable database_store queue risk_handler handle_failure decides message w
        (λ j. ap (at j) clean) h
