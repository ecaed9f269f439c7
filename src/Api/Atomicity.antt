-- ===== src/Api/Atomicity.antt =====
-- The transactional outbox of fraudlatch/api/routes.py and repository.py: a transaction and its event are committed together.
use fraud_latch.Base.{
  ℕ, ◌≡◌, inl, inr, refl, sym, ◌∙◌, ap, String, Bool, true, false, some, List, [], ◌∷◌, ◌++◌, arith,
  eq_iff, str_eq, if◌then◌else◌,
}
use mathlib.Core.Path.{subst}
use fraud_latch.Base.Assoc.{lookup, lookup-insert, lookup-insert_self}
use fraud_latch.Base.Outcome.{succeeded}
use fraud_latch.Base.Action.{◌>>◌}
use fraud_latch.Base.Leads.{Leads, bind-returned}
use fraud_latch.Db.{
  Transaction, OutboxEvent, StoredJson, Tables, Change, add_transaction, add_outbox_event, apply,
  apply_all,
}
use fraud_latch.Api.Repository.{TransactionIn, new_outbox_event, RequestSession, AllNew}
use fraud_latch.Api.Routes.{create, post_transaction}
use fraud_latch.Api.Ingest.{post_transaction-Leads}

-- The outbox has an event of the transaction, published or not, with what `model_dump` makes of it.
abbrev pub IsAnnounced : (Transaction → StoredJson) → Tables → String → Transaction → Type 0
IsAnnounced model_dump tables id t =
    (k : String) × (e : OutboxEvent) × (lookup k tables.outbox ≡ some e)
    × (e.aggregate_id ≡ id)
    × (e.payload ≡ model_dump t)

abbrev pub AllAnnounced : (Transaction → StoredJson) → Tables → Type 0
AllAnnounced model_dump tables =
    (id : String) (t : Transaction)
    → lookup id tables.transactions ≡ some t
    → IsAnnounced model_dump tables id t

module _ (model_dump : Transaction → StoredJson) (base : Tables) (p : TransactionIn)
    (e : OutboxEvent) (aggregate : e.aggregate_id ≡ p.transaction_id)
    (carried : e.payload ≡ model_dump p)
    (new : AllNew base (add_transaction p ∷ add_outbox_event e ∷ [])) where
  abbrev created : Tables
  created = apply_all base (add_transaction p ∷ add_outbox_event e ∷ [])

  keep-IsAnnounced :
      (id : String) (t : Transaction)
      → IsAnnounced model_dump base id t
      → IsAnnounced model_dump created id t
  unfolding apply_all apply
  keep-IsAnnounced id t (k, x, found, a, c) = (
    k,
    x,
    ground (arith, found, new.1.0, lookup-insert e.event_id k e base.outbox, eq_iff e.event_id k),
    a,
    c,
  )

  created-IsAnnounced : IsAnnounced model_dump created p.transaction_id p
  unfolding apply_all apply
  created-IsAnnounced =
      (e.event_id, e, lookup-insert_self e.event_id e base.outbox, aggregate, carried)

  lookup-created :
      (id : String)
      → lookup id created.transactions
        ≡ (if str_eq p.transaction_id id then some p else lookup id base.transactions)
  unfolding apply_all apply
  lookup-created id = lookup-insert p.transaction_id id p base.transactions

  own :
      (id : String) (t : Transaction)
      → str_eq p.transaction_id id ≡ true
      → some p ≡ some t
      → IsAnnounced model_dump created id t
  own id t same row = subst (IsAnnounced model_dump created id) (cc row) (
      subst (λ i. IsAnnounced model_dump created i p) ((eq_iff p.transaction_id id).0 same)
        created-IsAnnounced)

  pick :
      (b : Bool) (id : String) (t : Transaction)
      → str_eq p.transaction_id id ≡ b
      → AllAnnounced model_dump base
      → (if b then some p else lookup id base.transactions) ≡ some t
      → IsAnnounced model_dump created id t
  pick true id t s h found = own id t s found
  pick false id t s h found = keep-IsAnnounced id t (h id t found)

  created-AllAnnounced : AllAnnounced model_dump base → AllAnnounced model_dump created
  created-AllAnnounced h id t found =
      pick (str_eq p.transaction_id id) id t refl h (sym (lookup-created id) ∙ found)

module _ {S : Type 0} (session : RequestSession S) (event_id : String) (created_at : ℕ)
    (stable : (a b : Tables)
      → session.Moves a b
      → AllAnnounced session.model_dump a
      → AllAnnounced session.model_dump b) where
  open session use {
    committed, written, get_transaction, flush, commit, rollback, get_transaction-same,
    written-flush, committed-flush, commit-any, committed-rollback,
  }

  -- What the session has written, and the tables announce all they hold.
  abbrev Wrote : List Change → S → Type 0
  Wrote cs s = (written s ≡ cs) × AllAnnounced session.model_dump (committed s)

  abbrev Holds : S → Type 0
  Holds s = AllAnnounced session.model_dump (committed s)

  flush-Wrote :
      (cs : List Change) (c : Change) (s : S)
      → Wrote cs s
      → Holds (flush c s).1 × (succeeded (flush c s).0 ≡ true → Wrote (cs ++ c ∷ []) (flush c s).1)
  flush-Wrote cs c s (w, h) =
      let held = stable _ _ (committed-flush c s) h in
      (held, λ returned. (written-flush c s returned ∙ ap (λ ds. ds ++ c ∷ []) w, held))

  commit-Holds :
      (p : TransactionIn)
      → Leads
          (Wrote (
            add_transaction p
            ∷ add_outbox_event (new_outbox_event session.model_dump event_id created_at p)
            ∷ []))
          Holds
          commit
  commit-Holds p s (w, h) =
      let (base, moves, ended) = commit-any s in
      elim ended [
        | inl e ↦ subst (AllAnnounced session.model_dump) (sym e) (stable _ _ moves h)
        | inr (new, e) ↦ subst (AllAnnounced session.model_dump) (sym (e ∙ ap (apply_all base) w)) (
            created-AllAnnounced session.model_dump base p
              (new_outbox_event session.model_dump event_id created_at p) refl refl
              (subst (AllNew base) w new) (stable _ _ moves h))
      ]

  create-Holds : (p : TransactionIn) → Leads (Wrote []) Holds (create session event_id created_at p)
  unfolding create
  create-Holds p =
      let x = add_transaction p in
      let y = add_outbox_event (new_outbox_event session.model_dump event_id created_at p) in
      bind-returned (Wrote []) (Wrote (x ∷ [])) Holds (flush x)
        (λ (u : Unit {0}). flush y >> commit) (flush-Wrote [] x)
        (λ _.
          bind-returned (Wrote (x ∷ [])) (Wrote (x ∷ y ∷ [])) Holds (flush y)
            (λ (u : Unit {0}). commit) (flush-Wrote (x ∷ []) y) (λ _. commit-Holds p))

  -- If every committed transaction has an event in the outbox and the commits of other clients keep it so, a request on a fresh
  -- session keeps it so too, however it ends.
  pub post_transaction-AllAnnounced :
      (p : TransactionIn) (s : S)
      → written s ≡ []
      → AllAnnounced session.model_dump (committed s)
      → (id : String) (t : Transaction)
      → lookup id (committed (post_transaction session event_id created_at p s).1).transactions
        ≡ some t
      → IsAnnounced session.model_dump
          (committed (post_transaction session event_id created_at p s).1)
          id
          t
  post_transaction-AllAnnounced p s w h =
      post_transaction-Leads session event_id created_at (Wrote []) Holds (λ s h. h.1)
        (λ j s h. ((get_transaction-same j s).0 ∙ h.0, stable _ _ (get_transaction-same j s).1 h.1))
        (λ j s h. stable _ _ (get_transaction-same j s).1 h)
        (λ s h. stable _ _ (committed-rollback s) h) create-Holds p s (w, h)
