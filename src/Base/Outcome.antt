-- ===== src/Base/Outcome.antt =====
-- Python's exceptions as values: the kinds that the program tells apart, what a call that may
-- raise returns, and the blocks of such calls.
use Prim.Native.String.{String}
use mathlib.Core.Bool.{Bool, true, false}
use mathlib.Core.Path.{◌≡◌}
use native.Mathlib.Omega.{arith}

-- The classes named in `except` clauses and `isinstance` tests, and those that the standard
-- library and Pydantic raise here. `timeout` is TimeoutError (asyncio's is the same class),
-- `connection` ConnectionError, `redis` RedisError, `value` ValueError with Pydantic's
-- ValidationError, `unsupported_version` UnsupportedEventVersionError (a ValueError), `integrity`
-- SQLAlchemy's IntegrityError, `other` any class outside these.
pub data ErrorKind : Type 0 where
  timeout connection redis transient permanent unsupported_version value : ErrorKind
  overflow key integrity other : ErrorKind

-- An exception: its class and `str(error)`.
pub record Error : Type 0 where
  pub kind : ErrorKind
  pub message : String

pub data Outcome {ℓ} (A : Type ℓ) : Type ℓ where
  ok : A → Outcome A
  raised : Error → Outcome A

module _ {ℓ κ} {A : Type ℓ} {B : Type κ} where
  infixl 5 ◌>>=◌ ◌>>◌
  -- The rest of a block runs where the call before it returned.
  abbrev pub ◌>>=◌ : Outcome A → (A → Outcome B) → Outcome B
  ◌>>=◌ (raised error) rest = raised error
  ◌>>=◌ (ok result) rest = rest result

  abbrev pub ◌>>◌ : Outcome A → Outcome B → Outcome B
  first >> rest = first >>= λ _. rest

-- `if test: raise error`
abbrev pub raise_if : Bool → ErrorKind → String → Outcome (Unit {0})
raise_if true k text = raised (record { kind = k; message = text })
raise_if false k text = ok tt

-- Whether the call returned.
abbrev pub succeeded {ℓ} : {A : Type ℓ} → Outcome A → Bool
succeeded (ok a) = true
succeeded (raised e) = false

pub ok_inj {ℓ} : {A : Type ℓ} (a b : A) → ok a ≡ ok b → a ≡ b
ok_inj a b h = ground (arith, h)
