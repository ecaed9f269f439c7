-- ===== src/Api/Idempotency.antt =====
-- The answers of a POST to /v1/transactions (fraudlatch/api/routes.py) and what they say of the committed tables.
use fraud_latch.Base.{
  ℕ, ◌≡◌, ◌≢◌, ◌⊎◌, inl, inr, sym, ◌∙◌, ap, String, Bool, true, false, Option, none, some, [], ◌∷◌,
  ◌++◌, arith, Bool-cases, if◌then◌else◌,
}
use mathlib.Core.Path.{subst}
use fraud_latch.Base.Assoc.{lookup, lookup-insert_self}
use fraud_latch.Base.Outcome.{ok, Error, succeeded}
use fraud_latch.Base.Action.{Action, ◌>>=◌, ◌>>◌, pure, raise}
use fraud_latch.Db.{
  Transaction, Tables, Change, add_transaction, add_outbox_event, apply, apply_all,
}
use fraud_latch.Api.Repository.{
  TransactionIn, matches_payload, matches_payload-eq, matches_payload_refl, new_outbox_event,
  RequestSession,
}
use fraud_latch.Api.Routes.{
  Accepted, accepted, already_accepted, conflict, create, compare, after_race, recover, accept,
  ingest_transaction, with_session, post_transaction, is_integrity_error,
}
use fraud_latch.Base.Leads.{Ensures, bind-Ensures, try_except-Ensures}
use fraud_latch.Worker.Durability.{status-cases}

module _ {S : Type 0} (session : RequestSession S) (event_id : String) (created_at : ℕ)
    (p : TransactionIn) where
  open session use {
    committed, written, get_transaction, flush, commit, rollback, lookup-Moves, get_transaction-ok,
    get_transaction-same, written-flush, commit-ok, written-rollback,
  }

  -- The row that a request stores, committed.
  abbrev IsStored : S → Type 0
  IsStored s = lookup p.transaction_id (committed s).transactions ≡ some p

  abbrev IsQueued : S → Type 0
  IsQueued s =
      lookup event_id (committed s).outbox
      ≡ some (new_outbox_event session.model_dump event_id created_at p)

  -- What an answer says.
  abbrev pub Says : Accepted → S → Type 0
  Says accepted s = IsStored s × IsQueued s
  Says already_accepted s = IsStored s

  compare_returned :
      (x : Transaction) (s : S) (a : Accepted)
      → (compare session event_id created_at p x s).0 ≡ ok a
      → (x ≡ p) × (a ≡ already_accepted) × ((compare session event_id created_at p x s).1 ≡ s)
  unfolding compare
  compare_returned x s a h = elim (Bool-cases (matches_payload x p)) [
    | inl m ↦ (matches_payload-eq x p m, ground (arith, m), ground (arith, m))
    | inr m ↦ absurd (ground (arith, m))
  ]

  compare-Says :
      (x : Transaction) (s : S)
      → lookup p.transaction_id (committed s).transactions ≡ some x
      → Ensures Says (compare session event_id created_at p x) s
  compare-Says x s found a h =
      let (same, answer, still) = compare_returned x s a h in
      rw (answer, still) (found ∙ ap some same)

  abbrev stored : Change
  stored = add_transaction p

  abbrev queued : Change
  queued = add_outbox_event (new_outbox_event session.model_dump event_id created_at p)

  written_tables :
      (base tables : Tables)
      → tables ≡ apply_all base (stored ∷ queued ∷ [])
      → (lookup p.transaction_id tables.transactions ≡ some p)
        × (lookup event_id tables.outbox
            ≡ some (new_outbox_event session.model_dump event_id created_at p))
  unfolding apply_all apply
  written_tables base tables e = (
    ap (λ ts. lookup p.transaction_id ts.transactions) e
        ∙ lookup-insert_self p.transaction_id p base.transactions,
    ap (λ ts. lookup event_id ts.outbox) e
        ∙ lookup-insert_self event_id (new_outbox_event session.model_dump event_id created_at p)
            base.outbox,
  )

  commit-Says : (s : S) → written s ≡ stored ∷ queued ∷ [] → Ensures (λ u. Says accepted) commit s
  commit-Says s w u h =
      let (base, moves, new, e) = commit-ok s (ap succeeded h) in
      written_tables base (committed (commit s).1) (e ∙ ap (apply_all base) w)

  create-Says :
      (s : S)
      → written s ≡ []
      → Ensures (λ u. Says accepted) (create session event_id created_at p) s
  unfolding create
  create-Says s w =
      bind-Ensures (λ u. Says accepted) (flush stored) (λ (u : Unit {0}). flush queued >> commit) s
        (λ a h.
          bind-Ensures (λ u. Says accepted) (flush queued) (λ (u : Unit {0}). commit)
            (flush stored s).1
            (λ b k. commit-Says (flush queued (flush stored s).1).1 (
              written-flush queued (flush stored s).1 (ap succeeded k)
              ∙ ap (λ cs. cs ++ queued ∷ [])
                  (written-flush stored s (ap succeeded h) ∙ ap (λ cs. cs ++ stored ∷ []) w))))

  race-Says :
      (s : S) (o : Option Transaction)
      → o ≡ lookup p.transaction_id (committed s).transactions
      → Ensures Says (after_race session event_id created_at p o) s
  race-Says s none e a h = absurd (ground (arith, h))
  race-Says s (some x) e a h = compare-Says x s (sym e) a h

  retry-Says :
      (s : S)
      → written s ≡ []
      → Ensures Says
          (get_transaction p.transaction_id >>= after_race session event_id created_at p)
          s
  retry-Says s w =
      bind-Ensures Says (get_transaction p.transaction_id)
        (after_race session event_id created_at p) s
        (λ o h.
          race-Says (get_transaction p.transaction_id s).1 o
            (get_transaction-ok p.transaction_id o s w h))

  pure-Says : (b : Accepted) (s : S) → Says b s → Ensures Says (pure b) s
  pure-Says b s h c r = subst (λ d. Says d s) (cc r) h

  guarded-Says :
      (b : Bool) (m : Action S Accepted) (e : Error) (s : S)
      → Ensures Says m s
      → Ensures Says (if b then m else raise e) s
  guarded-Says true m e s h a r = h a r
  guarded-Says false m e s h a r = absurd (ground (arith, r))

  recover-Says : (e : Error) (s : S) → Ensures Says (recover session event_id created_at p e) s
  unfolding recover
  recover-Says e s =
      guarded-Says (is_integrity_error e)
        (rollback
          >> (get_transaction p.transaction_id >>= after_race session event_id created_at p))
        e s
        (bind-Ensures Says rollback
          (λ (u : Unit {0}).
            get_transaction p.transaction_id >>= after_race session event_id created_at p)
          s (λ u k. retry-Says (rollback s).1 (written-rollback s (ap succeeded k))))

  accept-Says :
      (s : S) (o : Option Transaction)
      → written s ≡ []
      → o ≡ lookup p.transaction_id (committed s).transactions
      → Ensures Says (accept session event_id created_at p o) s
  unfolding accept
  accept-Says s (some x) w e a h = compare-Says x s (sym e) a h
  accept-Says s none w e a h =
      try_except-Ensures Says (create session event_id created_at p)
        (recover session event_id created_at p) (λ (u : Unit {0}). pure accepted) s
        (λ e h. recover-Says e (create session event_id created_at p s).1)
        (λ u h. pure-Says accepted (create session event_id created_at p s).1 (create-Says s w u h))
        a h

  ingest_transaction-Says :
      (s : S) → written s ≡ [] → Ensures Says (ingest_transaction session event_id created_at p) s
  unfolding ingest_transaction
  ingest_transaction-Says s w =
      bind-Ensures Says (get_transaction p.transaction_id) (accept session event_id created_at p) s
        (λ o h.
          accept-Says (get_transaction p.transaction_id s).1 o
            ((get_transaction-same p.transaction_id s).0 ∙ w)
            (get_transaction-ok p.transaction_id o s w h))

  -- On a fresh session, a request that is answered has its transaction committed with exactly its fields; if the answer is "accepted", its
  -- event is in the outbox too, pending and unattempted.
  pub post_transaction-Says :
      (s : S) (a : Accepted)
      → written s ≡ []
      → (post_transaction session event_id created_at p s).0 ≡ ok a
      → Says a (post_transaction session event_id created_at p s).1
  unfolding post_transaction with_session
  post_transaction-Says s a w =
      try_except-Ensures Says (ingest_transaction session event_id created_at p)
        (λ e. rollback >> raise {A = Accepted} e) pure s
        (λ e h.
          bind-Ensures Says rollback (λ (u : Unit {0}). raise {A = Accepted} e)
            (ingest_transaction session event_id created_at p s).1
            (λ u k b r. absurd (ground (arith, r))))
        (λ b h.
          pure-Says b (ingest_transaction session event_id created_at p s).1
            (ingest_transaction-Says s w b h))
        a

  differs : (t : Transaction) → matches_payload t p ≡ false → t ≢ p
  differs t m e = ground (arith, m, ap (matches_payload t) e, matches_payload_refl t)

  -- On a fresh session whose row of that identifier is committed, and if the query returns, a request writes nothing. It is answered with
  -- "already_accepted" if the row has its fields; if a field differs, it raises the conflict, or the error of the rollback.
  pub post_transaction_retried :
      (t : Transaction) (s : S)
      → written s ≡ []
      → lookup p.transaction_id (committed s).transactions ≡ some t
      → succeeded (get_transaction p.transaction_id s).0 ≡ true
      → ((t ≡ p)
          × (post_transaction session event_id created_at p s
              ≡ (ok already_accepted, (get_transaction p.transaction_id s).1)))
        ⊎ ((t ≢ p)
            × (post_transaction session event_id created_at p s
                ≡ (rollback >> raise conflict) (get_transaction p.transaction_id s).1))
  unfolding post_transaction with_session ingest_transaction accept compare
  post_transaction_retried t s w found h =
      elim (status-cases (get_transaction p.transaction_id s).0) [
        | inl (e, eq) ↦ absurd (ground (arith, eq))
        | inr (o, eq) ↦
            let row =
              get_transaction-ok p.transaction_id o s w eq
              ∙ lookup-Moves (get_transaction-same p.transaction_id s).1 p.transaction_id found in
            let first = eq ∙ ap ok row in
            elim (Bool-cases (matches_payload t p)) [
              | inl m ↦ inl (matches_payload-eq t p m, rw (first, m))
              | inr m ↦ inr (differs t m, rw (first, m))
            ]
      ]
