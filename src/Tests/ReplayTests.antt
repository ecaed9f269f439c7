-- ===== src/Tests/ReplayTests.antt =====
-- A replay of two rows: the first is sent after a server error, the second is refused; and selections with a limit.
use mathlib.Core.List.{Sublist}
use fraud_latch.Base.{
  ℕ, ◌+◌, ◌*◌, ◌≡◌, ◌≤◌, refl, String, Bool, true, false, arith, none, some, List, [], ◌∷◌, length,
  keep,
}
use fraud_latch.Base.Int.{pos}
use fraud_latch.Base.Text.{str, prefix}
use fraud_latch.Base.Outcome.{Outcome, ok, raised, timeout}
use fraud_latch.Base.Action.{pure}
use fraud_latch.Scripts.Convert.{CanonicalRow}
use fraud_latch.Scripts.Replay.{
  ReplayConfig, passes, select_rows, selected_rows, Response, Client, Summary, replay, replay_rows,
  try_row, request, after_response, after_error,
}
use fraud_latch.Scripts.Replay.Main.{Script, Arguments, select, async_main, main}
use fraud_latch.Scripts.Replay.Exit.{Replayed, main_exit}
use fraud_latch.Scripts.Replay.Accounting.{replay_counts}
use fraud_latch.Scripts.Replay.Attempts.{replay_posts}
use fraud_latch.Scripts.Replay.Selection.{limited, selected_rows_lem}

-- The answers that are left, and the requests made.
record Net : Type 0 where
  answers : List (Outcome Response)
  posts : ℕ

abbrev answer : List (Outcome Response) → ℕ → Outcome Response × Net
answer [] n =
    (raised (record { kind = timeout; message = "" }), record { answers = []; posts = n + 1 })
answer (o ∷ os) n = (o, record { answers = os; posts = n + 1 })

abbrev client : Client Net
client = record {
  post = λ row w. answer w.answers w.posts;
  class_name = λ e. "ReadTimeout";
  sleep = λ n. pure tt;
  pace = pure tt;
  class_name_lem = λ e. refl;
}

abbrev row : String → ℕ → CanonicalRow
row id step = record {
  transaction_id = id;
  customer_id = "C1";
  merchant_id = "M1";
  category = "es_food";
  amount = pos 1250000000;
  source_step = step;
  source = "banksim";
  event_time = record { micros = 63903081600000000; aware = true };
  source_metadata = "{}";
}

abbrev rows : List CanonicalRow
rows = row "a" 1 ∷ row "b" 2 ∷ []

-- A server error, an acceptance, a refusal.
abbrev net : Net
net = record {
  answers =
      ok (record { status_code = 503; text = "" })
      ∷ ok (record { status_code = 202; text = "" })
      ∷ ok (record { status_code = 409; text = "no" })
      ∷ [];
  posts = 0;
}

abbrev summary : Summary
summary = record {
  selected = 2;
  sent = 1;
  failed = 1;
  failures = record { transaction_id = "b"; error = "HTTP 409: no" } ∷ [];
}

replayed : (replay client rows net).0 ≡ ok summary
unfolding replay replay_rows try_row request after_response after_error str prefix
replayed = refl

replay_counts_example :
    (2 ≡ length rows)
    × (1 + 1 ≡ 2)
    × (length summary.failures ≡ 1)
    × Sublist {A = String} ("b" ∷ []) ("a" ∷ "b" ∷ [])
replay_counts_example = replay_counts client rows net summary replayed

answer-posts : (answers : List (Outcome Response)) (n : ℕ) → (answer answers n).1.posts ≡ n + 1
answer-posts [] n = refl
answer-posts (o ∷ os) n = refl

replay_posts_example : (replay client rows net).1.posts ≤ 0 + 3 * length rows
replay_posts_example =
    replay_posts client (λ w. w.posts) (λ r w. answer-posts w.answers w.posts) (λ n w. refl)
      (λ w. refl) rows net

abbrev config : ReplayConfig
config = record { limit = 1; fraud_only = true; start_step = some (pos 2); end_step = none }

abbrev three : List CanonicalRow
three = row "a" 1 ∷ row "b" 2 ∷ row "c" 3 ∷ []

abbrev source_row : CanonicalRow → ℕ
source_row r = r.source_step

abbrev is_fraud : ℕ → Bool
is_fraud n = true

selected_second : selected_rows source_row is_fraud config three ≡ row "b" 2 ∷ []
unfolding selected_rows select_rows passes
selected_second = refl

selected_rows_lem_example :
    selected_rows source_row is_fraud config three
    ≡ limited 1 (keep (passes source_row is_fraud config) three)
selected_rows_lem_example = selected_rows_lem source_row is_fraud config three

-- The same replay from the command line, of all rows.
abbrev script : Script Net
script = record {
  decimal_text = λ d. "12.50";
  isoformat = λ t. "2026-01-01T00:00:00+00:00";
  without_slash = λ s. s;
  post = λ url path body w. answer w.answers w.posts;
  aclose = pure tt;
  class_name = λ e. "ReadTimeout";
  sleep = λ n. pure tt;
  pace = λ rate. pure tt;
  print = λ s. pure tt;
  is_os_error = λ e. false;
  class_name_lem = λ e. refl;
}

abbrev args : Arguments
args = record {
  api_url = "http://127.0.0.1:8000";
  rate = pos 1000000000;
  limit = pos 0;
  fraud_only = false;
  start_step = none;
  end_step = none;
}

exited : (main script source_row (ok rows) none args net).0 ≡ ok 1
unfolding main async_main select selected_rows select_rows passes replay replay_rows try_row request
    after_response after_error str prefix
exited = refl

main_exit_example : Replayed script source_row (ok rows) none args net 1
main_exit_example =
    main_exit script source_row (ok rows) none args net 1 exited (λ e. absurd (ground (arith, e)))
