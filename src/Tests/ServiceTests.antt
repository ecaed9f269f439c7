-- ===== src/Tests/ServiceTests.antt =====
-- The API over tables in memory: one request, a check of readiness and a query.
use fraud_latch.Base.{◌≡◌, refl, none, some, []}
use mathlib.Core.Path.{subst}
use fraud_latch.Base.Assoc.{lookup, insert}
use fraud_latch.Base.Outcome.{ok}
use fraud_latch.Observability.{new_observability}
use fraud_latch.Db.{apply, apply_all}
use fraud_latch.Api.Routes.{ingest_transaction, with_session, accept, create}
use fraud_latch.Api.Routes.{accepted}
use fraud_latch.Api.Atomicity.{AllAnnounced, IsAnnounced}
use fraud_latch.Api.Service.{SessionFactory, App, in_session, post, get, ready}
use fraud_latch.Api.Service.Posted.{post-get}
use fraud_latch.Contracts.Transaction.{text_within}
use fraud_latch.Api.Repository.{body_holds, transaction_in}
use fraud_latch.Api.Service.Served.{tables_of, Served, idle, posted, checked, Served-IsAnnounced}
use fraud_latch.Tests.RiskTests.{sample}
use fraud_latch.Tests.RequestTests.{Requests, memory_requests, empty, empty-AllAnnounced}

abbrev factory : SessionFactory Requests
factory = record {
  session = memory_requests;
  open_session = λ s. record s { changes = [] };
  close = λ s. (ok tt, s);
  select_one = λ s. (ok tt, s);
  written-open_session = λ s. refl;
  committed-open_session = λ s. refl;
  committed-close = λ s. refl;
  committed-select_one = λ s. refl;
}

abbrev start : App Requests
start = record { engine = none; database = empty; observability = new_observability }

abbrev after_post : App Requests
after_post = (post factory "e1" 7 sample start).1

abbrev after_check : App Requests
after_check = (ready factory after_post).1

run : Served factory start 1 after_check
run = checked (posted idle "e1" 7 sample)

stored : lookup "t1" (tables_of factory after_check).transactions ≡ some sample
unfolding ready post in_session with_session ingest_transaction accept create apply_all apply lookup
    insert
stored = refl

Served-IsAnnounced_example :
    IsAnnounced memory_requests.model_dump (tables_of factory after_check) "t1" sample
    × (after_check.observability.received ≡ 1)
Served-IsAnnounced_example =
    Served-IsAnnounced factory (λ a b m h. subst (AllAnnounced memory_requests.model_dump) m h)
      start after_check 1 run empty-AllAnnounced "t1" sample stored

answered : (post factory "e1" 7 sample start).0 ≡ ok accepted
unfolding post in_session with_session ingest_transaction accept create apply_all apply lookup
    insert
answered = refl

valid : transaction_in sample ≡ ok sample
unfolding transaction_in body_holds text_within
valid = refl

post-get_example : (get factory "t1" after_check).0 ≡ ok sample
post-get_example =
    post-get factory "e1" 7 sample start accepted valid answered 0 after_check (checked idle) refl
      refl
