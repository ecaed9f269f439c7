-- ===== src/Tests/MigrationTests.antt =====
-- The migrations of alembic/versions on a schema in memory.
use fraud_latch.Base.{
  ◌≡◌, ◌≢◌, refl, ◌⊎◌, inl, inr, arith, String, true, Option, none, some, str_eq, if◌then◌else◌,
  Option-cases, All,
}
use fraud_latch.Base.Outcome.{Outcome, ok, raised, succeeded, other}
use fraud_latch.Base.Action.{Action}
use fraud_latch.Db.Schema.{Table, Index}
use fraud_latch.Migrations.{
  Op, create_table, create_index, drop_index, drop_table, not_on, table_after, index_after,
  Operations, migrate,
}
use fraud_latch.Db.Models.{models}
use fraud_latch.Migrations.Models.{Implements, upgrades-Implements}
use fraud_latch.Migrations.Roundtrip.{upgrades, downgrades, upgrades-downgrades}

-- A schema, where every index is on a table that is there.
pub record Tables : Type 0 where
  pub tables : String → Option Table
  pub indexes : String → Option Index
  pub indexed : (j : String) (i : Index) → indexes j ≡ some i → tables i.table ≢ none

abbrev pub no_tables : Tables
no_tables = record {
  tables = λ j. none;
  indexes = λ j. none;
  indexed = λ j i h. absurd (ground (arith, h));
}

abbrev pub refused : Outcome (Unit {0})
refused = raised (record { kind = other; message = "DuplicateTable" })

abbrev pub Absent : {A : Type 0} → Option A → Type 0
Absent {A} o = (o ≡ none) ⊎ ((a : A) × (o ≡ some a))

abbrev pub absent_or_there : {A : Type 0} (o : Option A) → Absent o
absent_or_there none = inl refl
absent_or_there (some a) = inr (a, refl)

abbrev pub with_table :
    (t : Table) (w : Tables) → Absent (w.tables t.name) → Outcome (Unit {0}) × Tables
with_table t w (inr there) = (refused, w)
with_table t w (inl e) = (
  ok tt,
  record {
    tables = λ k. if str_eq t.name k then some t else w.tables k;
    indexes = w.indexes;
    indexed = λ j i h. ground (arith, w.indexed j i h);
  },
)

abbrev pub without_table : String → Tables → Tables
without_table name w = record {
  tables = λ k. if str_eq name k then none else w.tables k;
  indexes = λ j. not_on name (w.indexes j);
  indexed = λ j i h. elim (Option-cases (w.indexes j)) [
    | inl e ↦ absurd (ground (arith, e, h))
    | inr (k, e) ↦ ground (arith, e, h, w.indexed j k e)
  ];
}

abbrev pub with_index :
    (i : Index) (w : Tables)
    → Absent (w.indexes i.name)
    → Absent (w.tables i.table)
    → Outcome (Unit {0}) × Tables
with_index i w (inr there) t = (refused, w)
with_index i w (inl e) (inl absent) = (refused, w)
with_index i w (inl e) (inr (t, there)) = (
  ok tt,
  record {
    tables = w.tables;
    indexes = λ j. if str_eq i.name j then some i else w.indexes j;
    indexed = λ j x h. ground (arith, there, h, w.indexed j x);
  },
)

abbrev pub without_index : String → Tables → Tables
without_index name w = record {
  tables = w.tables;
  indexes = λ j. if str_eq name j then none else w.indexes j;
  indexed = λ j i h. ground (arith, h, w.indexed j i);
}

pub with_table_lem :
    (t : Table) (w : Tables) (o : Absent (w.tables t.name))
    → succeeded (with_table t w o).0 ≡ true
    → (w.tables t.name ≡ none)
      × ((j : String) → (with_table t w o).1.tables j ≡ table_after (create_table t) j (w.tables j))
      × ((j : String) → (with_table t w o).1.indexes j ≡ w.indexes j)
with_table_lem t w (inr there) h = absurd (ground (arith, h))
with_table_lem t w (inl e) h = (e, λ j. refl, λ j. refl)

pub with_index_lem :
    (i : Index) (w : Tables) (o : Absent (w.indexes i.name)) (p : Absent (w.tables i.table))
    → succeeded (with_index i w o p).0 ≡ true
    → (w.indexes i.name ≡ none)
      × ((j : String)
          → (with_index i w o p).1.indexes j ≡ index_after (create_index i) j (w.indexes j))
      × ((j : String) → (with_index i w o p).1.tables j ≡ w.tables j)
with_index_lem i w (inr there) p h = absurd (ground (arith, h))
with_index_lem i w (inl e) (inl absent) h = absurd (ground (arith, h))
with_index_lem i w (inl e) (inr (t, there)) h = (e, λ j. refl, λ j. refl)

abbrev pub perform : Op → Action Tables (Unit {0})
perform (create_table t) w = with_table t w (absent_or_there (w.tables t.name))
perform (create_index i) w =
    with_index i w (absent_or_there (w.indexes i.name)) (absent_or_there (w.tables i.table))
perform (drop_table name) w = (ok tt, without_table name w)
perform (drop_index name table) w = (ok tt, without_index name w)

pub tables_after :
    (op : Op) (w : Tables) (j : String)
    → succeeded (perform op w).0 ≡ true
    → (perform op w).1.tables j ≡ table_after op j (w.tables j)
tables_after (create_table t) w j h = (with_table_lem t w (absent_or_there (w.tables t.name)) h).1 j
tables_after (create_index i) w j h =
    (with_index_lem i w (absent_or_there (w.indexes i.name)) (absent_or_there (w.tables i.table))
        h).2
      j
tables_after (drop_table name) w j h = refl
tables_after (drop_index name table) w j h = refl

pub indexes_after :
    (op : Op) (w : Tables) (j : String)
    → succeeded (perform op w).0 ≡ true
    → (perform op w).1.indexes j ≡ index_after op j (w.indexes j)
indexes_after (create_table t) w j h =
    (with_table_lem t w (absent_or_there (w.tables t.name)) h).2 j
indexes_after (create_index i) w j h =
    (with_index_lem i w (absent_or_there (w.indexes i.name)) (absent_or_there (w.tables i.table))
        h).1
      j
indexes_after (drop_table name) w j h = refl
indexes_after (drop_index name table) w j h = refl

abbrev pub in_memory : Operations Tables
in_memory = record {
  tables = λ w. w.tables;
  indexes = λ w. w.indexes;
  perform = perform;
  indexed = λ w. w.indexed;
  was_absent = λ t w h. (with_table_lem t w (absent_or_there (w.tables t.name)) h).0;
  index_was_absent = λ i w h.
      (with_index_lem i w (absent_or_there (w.indexes i.name)) (absent_or_there (w.tables i.table))
        h).0;
  tables-perform = tables_after;
  indexes-perform = indexes_after;
}

abbrev upgraded : Tables
upgraded = (migrate in_memory upgrades no_tables).1

upgrades-downgrades_example :
    ((migrate in_memory downgrades upgraded).1.tables "transactions" ≡ none)
    × ((migrate in_memory downgrades upgraded).1.indexes "transactions" ≡ none)
unfolding migrate
upgrades-downgrades_example = upgrades-downgrades in_memory no_tables refl refl "transactions"

upgrades-Implements_example : All (Implements (upgraded.tables, upgraded.indexes)) models
unfolding migrate
upgrades-Implements_example = upgrades-Implements in_memory no_tables refl
