-- ===== src/Config.antt =====
-- The settings that the processes read from their environment: fraudlatch/db/config.py, and get_redis_url and create_redis_client of
-- fraudlatch/queue/redis.py. `strip` is `str.strip`; a client or an engine is known by its URL.
use fraud_latch.Base.{String, not, ◌||◌, Option, none, some, str_eq, if◌then◌else◌}
use text.Mathlib.Text.{starts_with}
use fraud_latch.Base.Outcome.{Outcome, ok, raise_if, value, ◌>>◌}

-- `os.environ`
abbrev pub Environment : Type 0
Environment = String → Option String

module _ (strip : String → String) (environ : Environment) where
  -- `os.environ.get(name, "").strip()`
  abbrev pub setting : String → String
  setting name = strip (elim (environ name) [ none ↦ "" | some text ↦ text ])

  unfoldable pub get_database_url : Outcome String
  get_database_url =
      let url = setting "DATABASE_URL" in
      raise_if (str_eq url "") value "DATABASE_URL must be set"
      >> raise_if (not (starts_with url "postgresql+asyncpg://")) value
          "DATABASE_URL must use the postgresql+asyncpg:// scheme"
      >> ok url

  unfoldable pub get_redis_url : Outcome String
  get_redis_url =
      let url = setting "REDIS_URL" in
      raise_if (str_eq url "") value "REDIS_URL must be set"
      >> raise_if (not (starts_with url "redis://" || starts_with url "rediss://")) value
          "REDIS_URL must use redis:// or rediss://"
      >> ok url

  -- `create_redis_client(redis_url)`: `redis_url or get_redis_url()`
  unfoldable pub create_redis_client : Option String → Outcome String
  unfolding get_redis_url
  create_redis_client none = get_redis_url
  create_redis_client (some url) = if str_eq url "" then get_redis_url else ok url
