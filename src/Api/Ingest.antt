-- ===== src/Api/Ingest.antt =====
-- What a POST to /v1/transactions (fraudlatch/api/routes.py) leaves in the database: the transaction and its event together, no
-- row changed, and the same answer to a retry.
use fraud_latch.Base.{
  ℕ, ◌≡◌, ◌≢◌, inl, inr, ◌∙◌, ap, String, Option, none, some, List, [], ◌∷◌, arith, eq_iff,
  Bool-cases,
}
use fraud_latch.Base.Assoc.{lookup, lookup-insert}
use fraud_latch.Base.Outcome.{Error}
use fraud_latch.Base.Action.{pure, raise, ◌>>=◌, ◌>>◌}
use fraud_latch.Base.Leads.{Leads, bind-Leads, try_except-Leads}
use fraud_latch.Db.{
  Transaction, Tables, Change, add_transaction, add_outbox_event, put_assessment,
  add_processing_event, apply, apply_all,
}
use fraud_latch.Api.Repository.{TransactionIn, new_outbox_event, RequestSession, IsNew, AllNew}
use fraud_latch.Api.Routes.{
  Accepted, accepted, create, compare, after_race, recover, accept, ingest_transaction,
  with_session, post_transaction, is_integrity_error,
}

-- Writes that are new under their keys keep the rows that there are.
Spares : String → Change → Type 0
Spares id (add_transaction r) = r.transaction_id ≢ id
Spares id _ = Unit

lookup-apply :
    (id : String) (t : Transaction) (base tables : Tables) (c : Change)
    → lookup id base.transactions ≡ some t
    → IsNew base c
    → lookup id tables.transactions ≡ some t
    → lookup id (apply tables c).transactions ≡ some t
unfolding apply
lookup-apply id t base tables (add_transaction r) b n h = ground (
  arith,
  b,
  n,
  h,
  lookup-insert r.transaction_id id r tables.transactions,
  eq_iff r.transaction_id id,
)
lookup-apply id t base tables (add_outbox_event r) b n h = h
lookup-apply id t base tables (put_assessment r) b n h = h
lookup-apply id t base tables (add_processing_event r) b n h = h

lookup-apply_all :
    (id : String) (t : Transaction) (base tables : Tables) (cs : List Change)
    → lookup id base.transactions ≡ some t
    → AllNew base cs
    → lookup id tables.transactions ≡ some t
    → lookup id (apply_all tables cs).transactions ≡ some t
unfolding apply_all
lookup-apply_all id t base tables [] b n h = h
lookup-apply_all id t base tables (c ∷ cs) b n h =
    lookup-apply_all id t base (apply tables c) cs b n.1 (lookup-apply id t base tables c b n.0 h)

-- What a request leads to, from what its parts lead to.
module _ {S : Type 0} (session : RequestSession S) (event_id : String) (created_at : ℕ)
    (P Q : S → Type 0) (weaken : (s : S) → P s → Q s)
    (get_before : (j : String) → Leads P P (session.get_transaction j))
    (get_after : (j : String) → Leads Q Q (session.get_transaction j))
    (rollback_after : Leads Q Q session.rollback)
    (create_lem : (p : TransactionIn) → Leads P Q (create session event_id created_at p)) where
  compare-Leads :
      (p : TransactionIn) (x : Transaction) → Leads Q Q (compare session event_id created_at p x)
  unfolding compare
  compare-Leads p x s h = ground (arith, h)

  after_race-Leads :
      (p : TransactionIn) (o : Option Transaction)
      → Leads Q Q (after_race session event_id created_at p o)
  after_race-Leads p none s h = h
  after_race-Leads p (some x) s h = compare-Leads p x s h

  retry-Leads :
      (p : TransactionIn)
      → Leads Q Q
          (session.get_transaction p.transaction_id >>= after_race session event_id created_at p)
  retry-Leads p =
      bind-Leads Q Q Q (session.get_transaction p.transaction_id)
        (after_race session event_id created_at p) (get_after p.transaction_id) (after_race-Leads p)
        (λ s h. h)

  recover-Leads :
      (p : TransactionIn) (e : Error) → Leads Q Q (recover session event_id created_at p e)
  unfolding recover
  recover-Leads p e s h = elim (Bool-cases (is_integrity_error e)) [
    | inl t ↦ rw t (
        bind-Leads Q Q Q session.rollback
          (λ (u : Unit {0}).
            session.get_transaction p.transaction_id >>= after_race session event_id created_at p)
          rollback_after (λ u. retry-Leads p) (λ s h. h) s h)
    | inr t ↦ rw t h
  ]

  accept-Leads :
      (p : TransactionIn) (o : Option Transaction)
      → Leads P Q (accept session event_id created_at p o)
  unfolding accept
  accept-Leads p (some x) s h = compare-Leads p x s (weaken s h)
  accept-Leads p none s h =
      try_except-Leads P Q Q (create session event_id created_at p)
        (recover session event_id created_at p) (λ (u : Unit {0}). pure accepted) (create_lem p)
        (recover-Leads p) (λ _ s h. h) s h

  ingest_transaction-Leads :
      (p : TransactionIn) → Leads P Q (ingest_transaction session event_id created_at p)
  unfolding ingest_transaction
  ingest_transaction-Leads p =
      bind-Leads P P Q (session.get_transaction p.transaction_id)
        (accept session event_id created_at p) (get_before p.transaction_id) (accept-Leads p) weaken

  pub post_transaction-Leads :
      (p : TransactionIn) → Leads P Q (post_transaction session event_id created_at p)
  unfolding post_transaction with_session
  post_transaction-Leads p =
      try_except-Leads P Q Q (ingest_transaction session event_id created_at p)
        (λ e. session.rollback >> raise {A = Accepted} e) pure (ingest_transaction-Leads p)
        (λ e.
          bind-Leads Q Q Q session.rollback (λ (u : Unit {0}). raise {A = Accepted} e)
            rollback_after (λ _ s h. h) (λ s h. h))
        (λ a s h. h)

module _ {S : Type 0} (session : RequestSession S) (event_id : String) (created_at : ℕ) where
  open session use {
    committed, written, Moves, get_transaction, flush, commit, rollback, lookup-Moves,
    get_transaction-ok, get_transaction-same, written-flush, committed-flush, commit-ok, commit-any,
    written-rollback, committed-rollback,
  }

  -- The event row that a request adds.
  abbrev added : TransactionIn → Change
  added p = add_outbox_event (new_outbox_event session.model_dump event_id created_at p)

  module _ (id : String) (t : Transaction) where
    -- The row is committed.
    abbrev Has : S → Type 0
    Has s = lookup id (committed s).transactions ≡ some t

    commit-Has : Leads Has Has commit
    commit-Has s h =
        let (base, moves, ended) = commit-any s in
        let b = lookup-Moves moves id h in
        elim ended [
          | inl e ↦ ap (λ ts. lookup id ts.transactions) e ∙ b
          | inr (new, e) ↦
              ap (λ ts. lookup id ts.transactions) e
              ∙ lookup-apply_all id t base base (written s) b new b
        ]

    get_transaction-Has : (j : String) → Leads Has Has (get_transaction j)
    get_transaction-Has j s h = lookup-Moves (get_transaction-same j s).1 id h

    flush-Has : (c : Change) → Leads Has Has (flush c)
    flush-Has c s h = lookup-Moves (committed-flush c s) id h

    rollback-Has : Leads Has Has rollback
    rollback-Has s h = lookup-Moves (committed-rollback s) id h

    create-Has : (p : TransactionIn) → Leads Has Has (create session event_id created_at p)
    unfolding create
    create-Has p =
        bind-Leads Has Has Has (flush (add_transaction p))
          (λ (u : Unit {0}). flush (added p) >> commit) (flush-Has (add_transaction p))
          (λ _.
            bind-Leads Has Has Has (flush (added p)) (λ (u : Unit {0}). commit)
              (flush-Has (added p)) (λ _. commit-Has) (λ s h. h))
          (λ s h. h)

    -- A request, however it ends, keeps every committed transaction as it is.
    pub post_transaction_keeps :
        (p : TransactionIn) (s : S)
        → lookup id (committed s).transactions ≡ some t
        → lookup id (committed (post_transaction session event_id created_at p s).1).transactions
          ≡ some t
    post_transaction_keeps =
        post_transaction-Leads session event_id created_at Has Has (λ s h. h) get_transaction-Has
          get_transaction-Has rollback-Has create-Has
