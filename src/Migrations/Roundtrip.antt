-- ===== src/Migrations/Roundtrip.antt =====
-- Upgrading a database by the migrations of alembic/versions and downgrading it again.
use fraud_latch.Base.{
  ◌≡◌, refl, sym, ◌∙◌, ap, inl, inr, String, Bool, true, false, Option, none, List, [], ◌∷◌, ◌++◌,
  str_eq, eq_iff, arith, Bool-cases, Option-cases, if◌then◌else◌,
}
use mathlib.Core.Path.{subst}
use fraud_latch.Base.Outcome.{succeeded}
use fraud_latch.Db.Schema.{Table, Index}
use fraud_latch.Worker.Durability.{status-cases}
use fraud_latch.Migrations.{
  Op, create_table, create_index, drop_index, drop_table, table_after, index_after, not_on,
  Operations, migrate,
}
use fraud_latch.Migrations.InitialSchema
use fraud_latch.Migrations.AddOutboxEvents

-- `alembic upgrade head` on an empty history, and `alembic downgrade base` after it
abbrev pub upgrades : List Op
upgrades = InitialSchema.upgrade ++ AddOutboxEvents.upgrade

abbrev pub downgrades : List Op
downgrades = AddOutboxEvents.downgrade ++ InitialSchema.downgrade

abbrev tables_at : List Op → String → Option Table → Option Table
tables_at [] j o = o
tables_at (op ∷ ops) j o = tables_at ops j (table_after op j o)

abbrev indexes_at : List Op → String → Option Index → Option Index
indexes_at [] j o = o
indexes_at (op ∷ ops) j o = indexes_at ops j (index_after op j o)

-- Whether the first call about a table creates it.
abbrev creates : String → List Op → Bool
creates j [] = false
creates j (create_table t ∷ ops) = if str_eq t.name j then true else creates j ops
creates j (drop_table name ∷ ops) = if str_eq name j then false else creates j ops
creates j (create_index i ∷ ops) = creates j ops
creates j (drop_index name table ∷ ops) = creates j ops

abbrev creates_index : String → List Op → Bool
creates_index j [] = false
creates_index j (create_table t ∷ ops) = creates_index j ops
creates_index j (drop_table name ∷ ops) = false
creates_index j (create_index i ∷ ops) = if str_eq i.name j then true else creates_index j ops
creates_index j (drop_index name table ∷ ops) = if str_eq name j then false else creates_index j ops

module _ {W : Type 0} (operations : Operations W) where
  open operations use {
    tables, indexes, perform, indexed, was_absent, index_was_absent, tables-perform,
    indexes-perform,
  }

  -- A run that returned did its first call, and the others after it.
  first_returned :
      (op : Op) (ops : List Op) (w : W)
      → succeeded (migrate operations (op ∷ ops) w).0 ≡ true
      → (succeeded (perform op w).0 ≡ true)
        × (succeeded (migrate operations ops (perform op w).1).0 ≡ true)
        × ((migrate operations (op ∷ ops) w).1 ≡ (migrate operations ops (perform op w).1).1)
  unfolding migrate
  first_returned op ops w h = elim (status-cases (perform op w).0) [
    | inl (e, eq) ↦ absurd (ground (arith, eq, h))
    | inr (u, eq) ↦ (ground (arith, eq), ground (arith, eq, h), ground (arith, eq))
  ]

  pub tables-migrate :
      (ops : List Op) (w : W)
      → succeeded (migrate operations ops w).0 ≡ true
      → (j : String) → tables (migrate operations ops w).1 j ≡ tables_at ops j (tables w j)
  tables-migrate [] w h j = unfold migrate in refl
  tables-migrate (op ∷ ops) w h j =
      let (a, b, c) = first_returned op ops w h in
      ap (λ v. tables v j) c
      ∙ tables-migrate ops (perform op w).1 b j
      ∙ ap (tables_at ops j) (tables-perform op w j a)

  pub indexes-migrate :
      (ops : List Op) (w : W)
      → succeeded (migrate operations ops w).0 ≡ true
      → (j : String) → indexes (migrate operations ops w).1 j ≡ indexes_at ops j (indexes w j)
  indexes-migrate [] w h j = unfold migrate in refl
  indexes-migrate (op ∷ ops) w h j =
      let (a, b, c) = first_returned op ops w h in
      ap (λ v. indexes v j) c
      ∙ indexes-migrate ops (perform op w).1 b j
      ∙ ap (indexes_at ops j) (indexes-perform op w j a)

  -- What was so after a call that does not create the table was so before it.
  absent_before :
      (op : Op) (j : String) (ops : List Op) (w : W)
      → succeeded (perform op w).0 ≡ true
      → creates j (op ∷ ops) ≡ true
      → (creates j ops ≡ true → tables (perform op w).1 j ≡ none)
      → tables w j ≡ none
  absent_before (create_table t) j ops w a c ih = elim (Bool-cases (str_eq t.name j)) [
    | inl e ↦ subst (λ k. tables w k ≡ none) ((eq_iff t.name j).0 e) (was_absent t w a)
    | inr e ↦ ground (arith, e, c, ih, tables-perform (create_table t) w j a)
  ]
  absent_before (drop_table name) j ops w a c ih =
      ground (arith, c, ih, tables-perform (drop_table name) w j a)
  absent_before (create_index i) j ops w a c ih = sym (tables-perform (create_index i) w j a) ∙ ih c
  absent_before (drop_index name table) j ops w a c ih =
      sym (tables-perform (drop_index name table) w j a) ∙ ih c

  created_absent :
      (j : String) (ops : List Op) (w : W)
      → succeeded (migrate operations ops w).0 ≡ true
      → creates j ops ≡ true
      → tables w j ≡ none
  created_absent j [] w h c = absurd (ground (arith, c))
  created_absent j (op ∷ ops) w h c =
      let (a, b, d) = first_returned op ops w h in
      absent_before op j ops w a c (λ k. created_absent j ops (perform op w).1 b k)

  index_absent_before :
      (op : Op) (j : String) (ops : List Op) (w : W)
      → succeeded (perform op w).0 ≡ true
      → creates_index j (op ∷ ops) ≡ true
      → (creates_index j ops ≡ true → indexes (perform op w).1 j ≡ none)
      → indexes w j ≡ none
  index_absent_before (create_index i) j ops w a c ih = elim (Bool-cases (str_eq i.name j)) [
    | inl e ↦ subst (λ k. indexes w k ≡ none) ((eq_iff i.name j).0 e) (index_was_absent i w a)
    | inr e ↦ ground (arith, e, c, ih, indexes-perform (create_index i) w j a)
  ]
  index_absent_before (drop_index name table) j ops w a c ih =
      ground (arith, c, ih, indexes-perform (drop_index name table) w j a)
  index_absent_before (create_table t) j ops w a c ih =
      sym (indexes-perform (create_table t) w j a) ∙ ih c
  index_absent_before (drop_table name) j ops w a c ih = absurd (ground (arith, c))

  created_index_absent :
      (j : String) (ops : List Op) (w : W)
      → succeeded (migrate operations ops w).0 ≡ true
      → creates_index j ops ≡ true
      → indexes w j ≡ none
  created_index_absent j [] w h c = absurd (ground (arith, c))
  created_index_absent j (op ∷ ops) w h c =
      let (a, b, d) = first_returned op ops w h in
      index_absent_before op j ops w a c (λ k. created_index_absent j ops (perform op w).1 b k)

  -- Dropping a table that is not there leaves every index.
  not_on-absent :
      (name : String) (w : W)
      → tables w name ≡ none
      → (j : String) → not_on name (indexes w j) ≡ indexes w j
  not_on-absent name w gone j = elim (Option-cases (indexes w j)) [
    | inl e ↦ ap (not_on name) e ∙ sym e
    | inr (i, e) ↦ elim (Bool-cases (str_eq name i.table)) [
      | inl s ↦
          absurd (indexed w j i e (subst (λ k. tables w k ≡ none) ((eq_iff name i.table).0 s) gone))
      | inr s ↦ ap (not_on name) e ∙ ground (arith, s) ∙ sym e
    ]
  ]

  -- What the upgrades create is not there before them.
  new_table :
      (name : String) (w : W)
      → succeeded (migrate operations upgrades w).0 ≡ true
      → creates name upgrades ≡ true
      → (j : String) → str_eq name j ≡ true
      → tables w j ≡ none
  new_table name w up c j e =
      subst (λ k. tables w k ≡ none) ((eq_iff name j).0 e) (created_absent name upgrades w up c)

  new_index :
      (name : String) (w : W)
      → succeeded (migrate operations upgrades w).0 ≡ true
      → creates_index name upgrades ≡ true
      → (j : String) → str_eq name j ≡ true
      → indexes w j ≡ none
  new_index name w up c j e =
      subst (λ k. indexes w k ≡ none) ((eq_iff name j).0 e)
        (created_index_absent name upgrades w up c)

  new_not_on :
      (name : String) (w : W)
      → succeeded (migrate operations upgrades w).0 ≡ true
      → creates name upgrades ≡ true
      → (j : String) → not_on name (indexes w j) ≡ indexes w j
  new_not_on name w up c j = not_on-absent name w (created_absent name upgrades w up c) j

  tables_back :
      (w : W)
      → succeeded (migrate operations upgrades w).0 ≡ true
      → (j : String) → tables_at downgrades j (tables_at upgrades j (tables w j)) ≡ tables w j
  tables_back w up j =
      let a = new_table "transactions" w up refl j in
      let b = new_table "risk_assessments" w up refl j in
      let c = new_table "processing_events" w up refl j in
      let d = new_table "outbox_events" w up refl j in ground (arith, a, b, c, d)

  indexes_back :
      (w : W)
      → succeeded (migrate operations upgrades w).0 ≡ true
      → (j : String) → indexes_at downgrades j (indexes_at upgrades j (indexes w j)) ≡ indexes w j
  indexes_back w up j =
      let a = new_index "ix_transactions_customer_event_time" w up refl j in
      let b = new_index "ix_transactions_merchant_event_time" w up refl j in
      let c = new_index "ix_processing_events_transaction_created" w up refl j in
      let d = new_index "ix_outbox_pending_next_attempt" w up refl j in
      let p = new_not_on "transactions" w up refl j in
      let q = new_not_on "risk_assessments" w up refl j in
      let r = new_not_on "processing_events" w up refl j in
      let s = new_not_on "outbox_events" w up refl j in
      elim (Bool-cases (str_eq "ix_transactions_customer_event_time" j)) [
        | inl e ↦ ground (arith, e, a e)
        | inr na ↦ elim (Bool-cases (str_eq "ix_transactions_merchant_event_time" j)) [
          | inl e ↦ ground (arith, na, e, b e)
          | inr nb ↦ elim (Bool-cases (str_eq "ix_processing_events_transaction_created" j)) [
            | inl e ↦ ground (arith, na, nb, e, c e)
            | inr nc ↦ elim (Bool-cases (str_eq "ix_outbox_pending_next_attempt" j)) [
              | inl e ↦ ground (arith, na, nb, nc, e, d e)
              | inr nd ↦ simp (na, nb, nc, nd, s, r, q, p)
            ]
          ]
        ]
      ]

  -- Upgrading by all migrations and then downgrading by all leaves every table and every index as it was, if both return.
  pub upgrades-downgrades :
      (w : W)
      → succeeded (migrate operations upgrades w).0 ≡ true
      → succeeded (migrate operations downgrades (migrate operations upgrades w).1).0 ≡ true
      → (j : String)
      → (tables (migrate operations downgrades (migrate operations upgrades w).1).1 j ≡ tables w j)
        × (indexes (migrate operations downgrades (migrate operations upgrades w).1).1 j
            ≡ indexes w j)
  upgrades-downgrades w up down j =
      let w1 = (migrate operations upgrades w).1 in
      let t =
        tables-migrate downgrades w1 down j
        ∙ ap (tables_at downgrades j) (tables-migrate upgrades w up j) in
      let i =
        indexes-migrate downgrades w1 down j
        ∙ ap (indexes_at downgrades j) (indexes-migrate upgrades w up j) in
      (t ∙ tables_back w up j, i ∙ indexes_back w up j)
