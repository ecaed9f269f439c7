-- ===== src/Db/Schema.antt =====
-- Tables as SQLAlchemy and Alembic describe them, and the bounds that a column's type declares for its values.
use Prim.Native.Nat.{◌^◌}
use Prim.Native.String.{count}
use fraud_latch.Base.{
  ℕ, ◌-◌, ◌*◌, String, Bool, true, false, ◌&&◌, Option, none, some, List, [], ◌∷◌, leb, ltb,
}
use fraud_latch.Base.Assoc.{Assoc, lookup}
use fraud_latch.Base.Int.{ℤ, pos, negsuc}
use fraud_latch.Base.Decimal.{Decimal, has_digits}
use fraud_latch.Base.Time.{Datetime}

-- `String(n)`, `Numeric(precision, scale)`, `Integer`, `JSONB`, `DateTime(timezone=True)` and `Text`
pub data ColumnType : Type 0 where
  varchar : ℕ → ColumnType
  numeric : ℕ → ℕ → ColumnType
  integer jsonb timestamp unbounded_text : ColumnType

-- `Column(name, type, nullable=..., server_default=...)`
pub record Column : Type 0 where
  pub name : String
  pub column_type : ColumnType
  pub nullable : Bool
  pub server_default : Option String

pub data Constraint : Type 0 where
  primary_key : List String → Constraint
  foreign_key : List String → List String → String → Constraint
  check : String → String → Constraint
  unique : List String → String → Constraint

pub record Table : Type 0 where
  pub name : String
  pub columns : List Column
  pub constraints : List Constraint

pub record Index : Type 0 where
  pub name : String
  pub table : String
  pub columns : List String

-- What a row holds in a column.
pub data Value : Type 0 where
  null : Value
  text : String → Value
  number : Decimal → Value
  whole : ℤ → Value
  json : Value
  instant : Datetime → Value

-- A signed integer of 32 bits.
abbrev pub is_int32 : ℤ → Bool
is_int32 (pos n) = ltb n (2 ^ 31)
is_int32 (negsuc n) = ltb n (2 ^ 31)

-- Whether a value that is not null is within a column's type: its length, its digits, its bits, its offset. A `Decimal` is in units of 10^-8, and a scale at most 8.
unfoldable pub fits : ColumnType → Value → Bool
fits (varchar n) (text s) = leb (count s) n
fits (numeric precision scale) (number d) =
    has_digits (10 ^ (8 - scale)) (10 ^ (8 - scale) * 10 ^ precision) d
fits integer (whole n) = is_int32 n
fits jsonb json = true
fits timestamp (instant t) = t.aware
fits unbounded_text (text s) = true
fits _ _ = false

unfoldable pub column_fits : Column → Option Value → Bool
unfolding fits
column_fits c none = elim c.server_default [ none ↦ c.nullable | some d ↦ true ]
column_fits c (some null) = c.nullable
column_fits c (some v) = fits c.column_type v

-- A row fits if each column's value is within its type, and one that is left out has a default or may be null.
unfoldable pub row_fits : List Column → Assoc Value → Bool
unfolding column_fits
row_fits [] row = true
row_fits (c ∷ cs) row = column_fits c (lookup c.name row) && row_fits cs row
