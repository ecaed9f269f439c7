-- ===== src/Dispatcher/Selection.antt =====
-- Which rows a polling round of fraudlatch/dispatcher.py selects, against a description of its query.
use fraud_latch.Base.{◌≡◌, ◌≤◌, ◌⊎◌, none, some, List, [], ◌∷◌, All}
use fraud_latch.Base.Time.{Datetime}
use fraud_latch.Db.{OutboxEvent, waiting}

-- A row that waits, with no time for its next attempt or one that has come.
abbrev pub IsDue : Datetime → OutboxEvent → Type 0
IsDue now r =
    (r.status ≡ waiting)
    × ((r.next_attempt_at ≡ none)
        ⊎ ((t : Datetime) × (r.next_attempt_at ≡ some t) × (t.micros ≤ now.micros)))

-- Each row was created no later than all that follow it.
abbrev pub IsByAge : List OutboxEvent → Type 0
IsByAge [] = Unit
IsByAge (r ∷ rest) = All (λ s. r.created_at ≤ s.created_at) rest × IsByAge rest
