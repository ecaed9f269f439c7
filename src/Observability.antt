-- ===== src/Observability.antt =====
-- fraudlatch/observability.py: the metrics with their values, and the payload of a log line. The text format of Prometheus, the dumping of
-- JSON and the handlers of the logging module are parameters.
use fraud_latch.Base.{
  ℕ, ◌+◌, ◌≡◌, refl, String, Option, none, some, List, [], ◌∷◌, str_eq, if◌then◌else◌, arith,
}
use fraud_latch.Base.Int.{ℤ, pos}
use fraud_latch.Base.Assoc.{Assoc, lookup, insert, lookup-insert}
use fraud_latch.Base.Action.{Action, pure, try_except}

-- `Observability`, by the values of its metrics: the counters, the failures by component, the observed durations and the gauge.
pub record Observability : Type 0 where
  pub received : ℕ
  pub processed : ℕ
  pub failures : Assoc ℕ
  pub retries : ℕ
  pub dlq : ℕ
  pub processing_seconds : List ℕ
  pub outbox_pending : ℤ

-- `Observability()`
abbrev pub new_observability : Observability
new_observability = record {
  received = 0;
  processed = 0;
  failures = [];
  retries = 0;
  dlq = 0;
  processing_seconds = [];
  outbox_pending = pos 0;
}

-- `received.inc()`
abbrev pub count_received : Observability → Observability
count_received o = record o { received = o.received + 1 }

-- `exposition`, by `generate_latest`
abbrev pub exposition : (Observability → String) → Observability → String
exposition generate_latest o = generate_latest o

-- The `fields` attribute of a log record, if it is a mapping. Keys are after `str`.
pub record LogRecord (V : Type 0) : Type 0 where
  pub levelname : String
  pub message : String
  pub name : String
  pub fields : Option (List (String × V))

module _ {V : Type 0} (text : String → V) where
  -- `payload.update(fields)`
  unfoldable pub updated : Assoc V → List (String × V) → Assoc V
  updated payload [] = payload
  updated payload ((k, v) ∷ fields) = updated (insert k v payload) fields

  abbrev pub base_payload : LogRecord V → Assoc V
  base_payload r =
      ("level", text r.levelname) ∷ ("message", text r.message) ∷ ("logger", text r.name) ∷ []

  -- The payload of `JsonLogFormatter.format`.
  unfoldable pub payload_of : LogRecord V → Assoc V
  unfolding updated
  payload_of r = elim r.fields [
    | none ↦ base_payload r
    | some fields ↦ updated (base_payload r) fields
  ]

  -- `dumps` is `json.dumps` with sorted keys and `default=str`.
  abbrev pub format : (Assoc V → String) → LogRecord V → String
  format dumps r = dumps (payload_of r)

  -- The last value that is given under a key.
  abbrev pub last_given : String → List (String × V) → Option V
  last_given j [] = none
  last_given j ((k, v) ∷ fields) = elim (last_given j fields) [
    | some w ↦ some w
    | none ↦ if str_eq k j then some v else none
  ]

  lookup-updated :
      (j : String) (payload : Assoc V) (fields : List (String × V))
      → lookup j (updated payload fields)
        ≡ elim (last_given j fields) [ some w ↦ some w | none ↦ lookup j payload ]
  unfolding updated
  lookup-updated j payload [] = refl
  lookup-updated j payload ((k, v) ∷ fields) =
      ground (arith, lookup-updated j (insert k v payload) fields, lookup-insert k j v payload)

  -- A log line has under every key the last field that is given under it, and else what the formatter puts there: a field named
  -- `level`, `message` or `logger` takes the place of the formatter's own.
  pub lookup-payload_of :
      (j : String) (r : LogRecord V) (fields : List (String × V))
      → r.fields ≡ some fields
      → lookup j (payload_of r)
        ≡ elim (last_given j fields) [ some w ↦ some w | none ↦ lookup j (base_payload r) ]
  unfolding payload_of
  lookup-payload_of j r fields e = rw e (lookup-updated j (base_payload r) fields)

-- The root logger.
pub record Root (H : Type 0) : Type 0 where
  pub handlers : List H
  pub level : ℕ

-- `configure_json_logging`, with the handler that writes to stdout
abbrev pub configure_json_logging : {H : Type 0} → H → ℕ → Root H → Root H
configure_json_logging handler level root = record { handlers = handler ∷ []; level = level }

-- `emit_log`, where `info` is `logger.info(message, extra=...)`
abbrev pub emit_log : {W : Type 0} → Action W (Unit {0}) → Action W (Unit {0})
emit_log info = try_except info (λ e. pure tt) pure
