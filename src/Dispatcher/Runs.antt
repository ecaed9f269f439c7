-- ===== src/Dispatcher/Runs.antt =====
-- A whole run of the dispatcher (fraudlatch/dispatcher.py), over any number of rounds.
use fraud_latch.Base.{◌≡◌, true, String, List, [], ◌∷◌, some}
use fraud_latch.Base.Assoc.{lookup}
use fraud_latch.Base.Time.{Datetime}
use fraud_latch.Base.Leads.{Leads, bind-Leads}
use fraud_latch.Db.{OutboxEvent, published}
use fraud_latch.Queue.Ports.{QueuePort}
use fraud_latch.Dispatcher.{Readers, OutboxSession, World, dispatch_once, run, envelope_of}
use fraud_latch.Dispatcher.Rounds.{IsDelivered, dispatch_once-IsDelivered}

module _ {S Q : Type 0} (session : OutboxSession S) (queue : QueuePort Q) (readers : Readers) where
  open session use {outbox}
  open queue use {sent}

  run-Leads :
      (times : List Datetime)
      → Leads
          (IsDelivered session queue readers)
          (IsDelivered session queue readers)
          (run session queue readers times)
  unfolding run
  run-Leads [] w h = h
  run-Leads (now ∷ later) w h =
      let P = IsDelivered session queue readers in
      bind-Leads P P P (dispatch_once session queue readers now)
        (λ n. run session queue readers later)
        (λ w h. dispatch_once-IsDelivered session queue readers now w h) (λ n. run-Leads later)
        (λ w h. h) w h

  -- A run of any number of rounds, however it ends, keeps it that every committed row that says that it is published has its event in
  -- the broker.
  pub run-IsDelivered :
      (times : List Datetime) (w : World S Q)
      → IsDelivered session queue readers w
      → (k : String) (r : OutboxEvent)
      → lookup k (outbox (run session queue readers times w).1.db) ≡ some r
      → r.status ≡ published
      → sent (run session queue readers times w).1.broker (envelope_of readers r) ≡ true
  run-IsDelivered times w h = run-Leads times w h
