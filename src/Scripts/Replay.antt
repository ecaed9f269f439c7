-- ===== src/Scripts/Replay.antt =====
-- scripts/replay_banksim.py: the selection of rows and their replay through the ingestion API with bounded retries. The fraud labels
-- are a parameter, and a rate is positive; Main loads the labels and checks the rate.
pub mod Reasons
pub mod Accounting
pub mod Attempts
pub mod Selection
pub mod Main
pub mod Exit
use Prim.Native.String.{◌++◌ as ◌^^◌}
use fraud_latch.Base.{
  ℕ, ◌+◌, ◌≡◌, String, Bool, true, false, not, ◌&&◌, ◌||◌, Option, none, some, List, [], ◌∷◌, ◌++◌,
  length, str_eq, ◌==◌, ltb, leb, if◌then◌else◌,
}
use fraud_latch.Base.Text.{str, prefix}
use fraud_latch.Base.Int.{ℤ, pos, ltb_ℤ}
use fraud_latch.Base.Outcome.{Outcome, ok, raised, Error, ErrorKind, timeout, connection}
use fraud_latch.Base.Action.{Action, pure, lift, ◌>>=◌, ◌>>◌}
use fraud_latch.Scripts.Convert.{CanonicalRow}

-- `ReplayConfig`, without the URL, the paths and the rate
pub record ReplayConfig : Type 0 where
  pub limit : ℕ
  pub fraud_only : Bool
  pub start_step : Option ℤ
  pub end_step : Option ℤ

-- A test against a bound that may be absent.
abbrev pub bounded : (ℤ → Bool) → Option ℤ → Bool
bounded test none = false
bounded test (some n) = test n

-- Whether the filters pass a row. `source_row` is `json.loads(row["source_metadata"])["source_row"]`.
unfoldable pub passes : (CanonicalRow → ℕ) → (ℕ → Bool) → ReplayConfig → CanonicalRow → Bool
passes source_row is_fraud config row =
    let step = pos row.source_step in
    not (bounded (λ n. ltb_ℤ step n) config.start_step)
    && not (bounded (λ n. ltb_ℤ n step) config.end_step)
    && not (config.fraud_only && not (is_fraud (source_row row)))

module _ (source_row : CanonicalRow → ℕ) (is_fraud : ℕ → Bool) (config : ReplayConfig) where
  -- `config.limit and len(selected) >= config.limit`
  abbrev pub is_full : List CanonicalRow → Bool
  is_full selected = not (config.limit == 0) && leb config.limit (length selected)

  -- The loop over the rows of all batches.
  unfoldable pub select_rows : List CanonicalRow → List CanonicalRow → List CanonicalRow
  select_rows selected [] = selected
  select_rows selected (row ∷ rows) =
      let longer = selected ++ row ∷ [] in
      let skip = select_rows selected rows in
      let take = select_rows longer rows in
      if not (passes source_row is_fraud config row)
      then skip
      else if is_full longer
      then longer
      else take

  unfoldable pub selected_rows : List CanonicalRow → List CanonicalRow
  unfolding select_rows
  selected_rows rows = select_rows [] rows

-- What the loop reads of an httpx response.
pub record Response : Type 0 where
  pub status_code : ℕ
  pub text : String

-- What the program uses of httpx and asyncio: a request, the name of an error's class, which is no empty text, and a sleep.
pub record Client (W : Type 0) : Type 0 where
  pub post : CanonicalRow → Action W Response
  pub class_name : Error → String
  pub sleep : ℕ → Action W (Unit {0})
  pub pace : Action W (Unit {0})
  pub class_name_lem : (e : Error) → str_eq (class_name e) "" ≡ false

-- `(0, 1, 5)`, each with its attempt
abbrev pub delays : List (ℕ × ℕ)
delays = (1, 0) ∷ (2, 1) ∷ (3, 5) ∷ []

-- TimeoutException and NetworkError
abbrev pub is_network_error : ErrorKind → Bool
is_network_error timeout = true
is_network_error connection = true
is_network_error _ = false

-- How the attempts at one row have ended.
pub record Tried : Type 0 where
  pub succeeded : Bool
  pub last_error : String

-- What follows one request: the row's end, or another attempt with the error of this one.
pub data Verdict : Type 0 where
  stop : Tried → Verdict
  again : String → Verdict

module _ {W : Type 0} where
  abbrev pub when : Bool → Action W (Unit {0}) → Action W (Unit {0})
  when true m = m
  when false m = pure tt

  -- What follows a verdict: the end, or the attempts that are left.
  abbrev pub resume : Verdict → (String → Action W Tried) → Action W Tried
  resume (stop t) more = pure t
  resume (again e) more = more e

-- A row that was not sent, with its error.
pub record Failure : Type 0 where
  pub transaction_id : String
  pub error : String

-- The variables of the outer loop after a row.
abbrev pub record_row : CanonicalRow → Tried → ℕ × List Failure → ℕ × List Failure
record_row row t (sent, failures) = (
  if t.succeeded then sent + 1 else sent,
  if not t.succeeded && not (str_eq t.last_error "")
      then failures ++ record { transaction_id = row.transaction_id; error = t.last_error } ∷ []
      else failures,
)

-- The result of `replay`.
pub record Summary : Type 0 where
  pub selected : ℕ
  pub sent : ℕ
  pub failed : ℕ
  pub failures : List Failure

abbrev pub summary_of : ℕ → ℕ × List Failure → Summary
summary_of selected (sent, failures) = record {
  selected = selected;
  sent = sent;
  failed = length failures;
  failures = failures;
}

module _ {W : Type 0} (client : Client W) where
  open client use {post, class_name, sleep, pace}

  abbrev pub network_error : Error → String
  network_error e = if str_eq e.message "" then class_name e else e.message

  -- The `except` block.
  unfoldable pub after_error : ℕ → Error → Verdict
  after_error attempt e =
      if ltb attempt 3
      then again (network_error e)
      else stop (record { succeeded = false; last_error = network_error e })

  -- The tests of the response.
  unfoldable pub after_response : ℕ → String → Response → Verdict
  after_response attempt last_error r =
      if r.status_code == 200 || r.status_code == 202
      then stop (record { succeeded = true; last_error = last_error })
      else if leb 500 r.status_code && ltb attempt 3
      then again ("HTTP " ^^ str r.status_code)
      else stop (record {
        succeeded = false;
        last_error = "HTTP " ^^ (str r.status_code ^^ (": " ^^ prefix 200 r.text));
      })

  -- One request with its `try`; another error than the two is raised on.
  unfoldable pub request : ℕ → String → CanonicalRow → Action W Verdict
  unfolding after_error after_response
  request attempt last_error row w = elim (post row w).0 [
    | ok r ↦ (ok (after_response attempt last_error r), (post row w).1)
    | raised e ↦
        if is_network_error e.kind
        then (ok (after_error attempt e), (post row w).1)
        else (raised e, (post row w).1)
  ]

  -- The inner loop from its remaining attempts; `sent` rows have been sent before this one.
  unfoldable pub try_row : ℕ → CanonicalRow → List (ℕ × ℕ) → String → Action W Tried
  unfolding request
  try_row sent row [] last_error =
      pure (record { succeeded = false; last_error = "retry loop exhausted" })
  try_row sent row ((attempt, delay) ∷ rest) last_error = do
    when (not (delay == 0)) (sleep delay)
    when (not (sent == 0)) pace
    verdict ← request attempt last_error row
    resume verdict (try_row sent row rest)

  unfoldable pub replay_rows : List CanonicalRow → ℕ × List Failure → Action W (ℕ × List Failure)
  unfolding try_row
  replay_rows [] counts = pure counts
  replay_rows (row ∷ rows) (sent, failures) = do
    t ← try_row sent row delays ""
    replay_rows rows (record_row row t (sent, failures))

  -- `replay`, from the rows that `selected_rows` has selected
  unfoldable pub replay : List CanonicalRow → Action W Summary
  unfolding replay_rows
  replay rows = do counts ← replay_rows rows (0, []); pure (summary_of (length rows) counts)
