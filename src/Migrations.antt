-- ===== src/Migrations.antt =====
-- alembic/versions: the migrations as the calls of `op` that they make, in order, and what these do to a database's schema.
pub mod InitialSchema
pub mod AddOutboxEvents
pub mod Roundtrip
pub mod Models
pub mod Rows
pub mod Env
use fraud_latch.Base.{
  ◌≡◌, ◌≢◌, String, true, false, Option, none, some, List, [], ◌∷◌, str_eq, if◌then◌else◌,
}
use fraud_latch.Base.Outcome.{succeeded}
use fraud_latch.Base.Action.{Action, for_each}
use fraud_latch.Db.Schema.{
  ColumnType, varchar, numeric, integer, jsonb, timestamp, unbounded_text, Column, primary_key,
  foreign_key, check, unique, Table, Index,
}

-- A call of `op`.
pub data Op : Type 0 where
  create_table : Table → Op
  create_index : Index → Op
  drop_index : String → String → Op
  drop_table : String → Op

abbrev pub not_null : String → ColumnType → Column
not_null name type = record {
  name = name;
  column_type = type;
  nullable = false;
  server_default = none;
}

abbrev pub may_be_null : String → ColumnType → Column
may_be_null name type = record {
  name = name;
  column_type = type;
  nullable = true;
  server_default = none;
}

-- A timestamp with `server_default=sa.text("now()")`
abbrev pub stamped : String → Column
stamped name = record {
  name = name;
  column_type = timestamp;
  nullable = false;
  server_default = some "now()";
}

abbrev pub index_on : String → String → List String → Op
index_on name table columns =
    create_index (record { name = name; table = table; columns = columns })

-- The tables and the indexes by their names.
abbrev pub Schema : Type 0
Schema = (String → Option Table) × (String → Option Index)

-- The table of a name after a call, from the one before it.
abbrev pub table_after : Op → String → Option Table → Option Table
table_after (create_table t) j o = if str_eq t.name j then some t else o
table_after (drop_table name) j o = if str_eq name j then none else o
table_after (create_index i) j o = o
table_after (drop_index name table) j o = o

abbrev pub not_on : String → Option Index → Option Index
not_on name none = none
not_on name (some i) = if str_eq name i.table then none else some i

abbrev pub index_after : Op → String → Option Index → Option Index
index_after (create_table t) j o = o
index_after (drop_table name) j o = not_on name o
index_after (create_index i) j o = if str_eq i.name j then some i else o
index_after (drop_index name table) j o = if str_eq name j then none else o

-- What is relied on of Alembic over PostgreSQL. A table or an index that is there is not created again, an index belongs to a table
-- that is there, and dropping a table drops its indexes. What is stated holds where the call returned.
pub record Operations (W : Type 0) : Type 0 where
  pub tables : W → String → Option Table
  pub indexes : W → String → Option Index
  pub perform : Op → Action W (Unit {0})
  pub indexed : (w : W) (j : String) (i : Index) → indexes w j ≡ some i → tables w i.table ≢ none
  pub was_absent :
      (t : Table) (w : W) → succeeded (perform (create_table t) w).0 ≡ true → tables w t.name ≡ none
  pub index_was_absent :
      (i : Index) (w : W)
      → succeeded (perform (create_index i) w).0 ≡ true
      → indexes w i.name ≡ none
  pub tables-perform :
      (op : Op) (w : W) (j : String)
      → succeeded (perform op w).0 ≡ true
      → tables (perform op w).1 j ≡ table_after op j (tables w j)
  pub indexes-perform :
      (op : Op) (w : W) (j : String)
      → succeeded (perform op w).0 ≡ true
      → indexes (perform op w).1 j ≡ index_after op j (indexes w j)

module _ {W : Type 0} (operations : Operations W) where
  -- A migration's run.
  unfoldable pub migrate : List Op → Action W (Unit {0})
  unfolding for_each
  migrate ops = for_each operations.perform ops
