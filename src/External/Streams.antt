-- ===== src/External/Streams.antt =====
-- What is used of redis-py on one stream and one consumer group.
use fraud_latch.Base.{ℕ, ◌≡◌, ◌≢◌, ◌⊎◌, String, Bool, true, Option, List, [], ◌∷◌, ◌++◌}
use fraud_latch.Base.Assoc.{Assoc}
use fraud_latch.Base.Outcome.{Error, succeeded}
use fraud_latch.Base.Action.{Action}

-- An entry: its identifier and its fields, as texts.
abbrev pub Entry : Type 0
Entry = String × Assoc String

-- `entries` is the stream, in order, and `acked` says of an identifier whether the group has acknowledged it. `xreadgroup`, by
-- consumer, count and block time, returns entries under the name of their stream. `xpending_range`, by idle time and count, returns the
-- identifiers of pending entries, and `xclaim` gives such entries to a consumer and returns them. `is_busygroup` says whether an error is a
-- ResponseError whose text has "BUSYGROUP" in it. A call that raises may have taken effect.
pub record Streams (W : Type 0) : Type 0 where
  pub entries : W → List Entry
  pub acked : W → String → Bool
  pub is_busygroup : Error → Bool
  pub xgroup_create : Action W (Unit {0})
  pub xadd : Assoc String → Action W String
  pub xreadgroup : String → ℕ → Option ℕ → Action W (List (String × List Entry))
  pub xack : String → Action W (Unit {0})
  pub xpending_range : ℕ → ℕ → Action W (List String)
  pub xclaim : String → ℕ → List String → Action W (List Entry)
  pub entries-xgroup_create : (w : W) → entries (xgroup_create w).1 ≡ entries w
  pub entries-xadd :
      (f : Assoc String) (w : W)
      → succeeded (xadd f w).0 ≡ true
      → (id : String) × (entries (xadd f w).1 ≡ entries w ++ (id, f) ∷ [])
  pub entries-xadd_any :
      (f : Assoc String) (w : W)
      → (entries (xadd f w).1 ≡ entries w)
        ⊎ ((id : String) × (entries (xadd f w).1 ≡ entries w ++ (id, f) ∷ []))
  pub acked-xgroup_create : (w : W) (id : String) → acked (xgroup_create w).1 id ≡ acked w id
  pub acked-xreadgroup :
      (consumer : String) (n : ℕ) (block_ms : Option ℕ) (w : W) (id : String)
      → acked (xreadgroup consumer n block_ms w).1 id ≡ acked w id
  pub acked-xack :
      (id : String) (w : W) → succeeded (xack id w).0 ≡ true → acked (xack id w).1 id ≡ true
  pub acked-xack_ne :
      (id other : String) (w : W) → other ≢ id → acked (xack id w).1 other ≡ acked w other
