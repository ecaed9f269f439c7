-- ===== src/Tests/RowTests.antt =====
-- Rows of the ingestion API, the worker and the dispatcher against the tables of the migrations.
use fraud_latch.Base.{◌≡◌, refl, arith, true, false}
use fraud_latch.Base.Int.{pos}
use fraud_latch.Base.Assoc.{lookup}
use fraud_latch.Base.Outcome.{ok, raised, value}
use fraud_latch.Contracts.Transaction.{TransactionFields, text_within}
use fraud_latch.Db.Schema.{fits, column_fits, row_fits}
use fraud_latch.Db.Rows.{transaction_row, outbox_row}
use fraud_latch.Api.Repository.{body_holds, transaction_in, new_outbox_event}
use fraud_latch.Dispatcher.{settle, counted}
use fraud_latch.Migrations.InitialSchema
use fraud_latch.Migrations.AddOutboxEvents
use fraud_latch.Migrations.Rows.{row_fits-transaction_in, row_fits-settle}
use fraud_latch.Tests.RiskTests.{sample}
use fraud_latch.Tests.DispatcherTests.{row, now}

-- A step of 2^31
abbrev late : TransactionFields
late = record sample { source_step = pos 2147483648 }

late_body : transaction_in late ≡ ok late
unfolding transaction_in body_holds text_within
late_body = refl

row_fits-transaction_in_example :
    (row_fits InitialSchema.transactions.columns (transaction_row late) ≡ false)
    × (row_fits AddOutboxEvents.outbox_events.columns
          (outbox_row (new_outbox_event (λ t. t.transaction_id) "e1" 7 late))
        ≡ true)
row_fits-transaction_in_example =
    row_fits-transaction_in late late (λ t. t.transaction_id) "e1" 7 late_body (omega arith)

waiting_row_fits : row_fits AddOutboxEvents.outbox_events.columns (outbox_row row) ≡ true
unfolding row_fits column_fits fits lookup
waiting_row_fits = refl

row_fits-settle_example :
    row_fits AddOutboxEvents.outbox_events.columns
      (outbox_row (settle (counted row) now (raised (record { kind = value; message = "bad" }))).0)
    ≡ true
row_fits-settle_example =
    row_fits-settle row now (raised (record { kind = value; message = "bad" })) waiting_row_fits
      refl refl
