-- ===== src/Tests/Memory.antt =====
-- In-memory instances of the external interfaces, which show that what is assumed of them can hold.
use fraud_latch.Base.{
  ℕ, ◌≡◌, refl, String, Bool, true, false, Option, none, some, List, [], ◌∷◌, keep, count, str_eq,
  eq_iff, arith, if◌then◌else◌, inl, inr, ◌&&◌, ◌||◌, ◌==◌, ◌≢◌, eq_refl, ◌++◌, Bool-cases, ap, ◌∙◌,
}
use fraud_latch.Base.Assoc.{Assoc, lookup, insert, lookup-insert}
use fraud_latch.Base.Outcome.{Outcome, ok, raised, other}
use fraud_latch.Db.{Tables, Session, RiskAssessment, apply_all}
use fraud_latch.Queue.Ports.{QueuePort}
use fraud_latch.Queue.Retry.{RetryRecord, DeadLetter, RetryStore}
use fraud_latch.External.SortedSets.{SortedSets, Distinct, scored_above, scored_within, highest}

-- A sorted set.
pub record Members : Type 0 where
  pub list : Assoc ℕ
  pub distinct : Distinct list

lookup-keep :
    (m : String) (lo : ℕ) (d : Assoc ℕ)
    → lookup m d ≡ none
    → lookup m (keep (scored_above lo) d) ≡ none
unfolding lookup
lookup-keep m lo [] h = refl
lookup-keep m lo ((j, x) ∷ d) h = ground (arith, lookup-keep m lo d)

pub keep-Distinct : (lo : ℕ) (d : Assoc ℕ) → Distinct d → Distinct (keep (scored_above lo) d)
keep-Distinct lo [] h = tt
keep-Distinct lo ((m, x) ∷ d) h = ground (arith, keep-Distinct lo d h.1, lookup-keep m lo d h.0)

pub insert-Distinct : (m : String) (x : ℕ) (d : Assoc ℕ) → Distinct d → Distinct (insert m x d)
unfolding insert
insert-Distinct m x [] h = ground (arith, empty m)
  where
    empty : (k : String) → lookup {V = ℕ} k [] ≡ none
    empty k = unfold lookup in refl
insert-Distinct m x ((j, y) ∷ d) h =
    ground (arith, insert-Distinct m x d h.1, lookup-insert m j x d, eq_iff m j, eq_iff j m)

abbrev pub Sets : Type 0
Sets = String → Members

abbrev pub no_sets : Sets
no_sets k = record { list = []; distinct = tt }

abbrev at_key : String → Members → Sets → Sets
at_key k m s j = if str_eq k j then m else s j

pub at_key-list :
    (f : Assoc ℕ → Assoc ℕ) (k j : String) (m : Members) (s : Sets)
    → m.list ≡ f (s k).list
    → (at_key k m s j).list ≡ (if str_eq k j then f (s j).list else (s j).list)
at_key-list f k j m s h = elim (Bool-cases (str_eq k j)) [
  | inl e ↦ rw e (h ∙ ap (λ i. f (s i).list) ((eq_iff k j).0 e))
  | inr e ↦ rw e
]

-- What a call that returned has returned.
pub ok-injective : {A : Type 0} (a b : A) → ◌≡◌ {A = Outcome A} (ok a) (ok b) → b ≡ a
ok-injective a b h = ground arith

abbrev pub memory_sets : SortedSets Sets
memory_sets = record {
  entries = λ s k. (s k).list;
  zremrangebyscore = λ k lo s. (
    ok tt,
    at_key k
        (record {
          list = keep (scored_above lo) (s k).list;
          distinct = keep-Distinct lo (s k).list (s k).distinct;
        })
        s,
  );
  zadd = λ k m x s. (
    ok tt,
    at_key k
        (record {
          list = insert m x (s k).list;
          distinct = insert-Distinct m x (s k).list (s k).distinct;
        })
        s,
  );
  expire = λ k n s. (ok tt, s);
  zcount = λ k lo hi s. (ok (count (scored_within lo hi) (s k).list), s);
  zrange_last = λ k s. (ok (highest (s k).list), s);
  distinct = λ s k. (s k).distinct;
  entries-zremrangebyscore = λ k lo s j h. at_key-list (keep (scored_above lo)) k j _ s refl;
  entries-zadd = λ k m x s j h. at_key-list (insert m x) k j _ s refl;
  entries-expire = λ k n s j h. refl;
  zcount-eq-count = λ k lo hi n s h. ok-injective _ _ h;
  entries-zcount = λ k lo hi s j h. refl;
  zrange_last-eq-highest = λ k o s h. ok-injective _ _ h;
  entries-zrange_last = λ k s j h. refl;
}

-- The retry set and the dead-letter stream.
pub record Letters : Type 0 where
  pub set : RetryRecord → Option ℕ
  pub stream : List DeadLetter

abbrev same_record : RetryRecord → RetryRecord → Bool
same_record r s =
    str_eq r.envelope s.envelope && r.attempt == s.attempt && str_eq r.error_code s.error_code

abbrev store_at : RetryRecord → ℕ → (RetryRecord → Option ℕ) → RetryRecord → Option ℕ
store_at r due set s = if same_record r s then some due else set s

pub store_at_lem :
    (r : RetryRecord) (due : ℕ) (set : RetryRecord → Option ℕ)
    → (store_at r due set r ≡ some due) × ((s : RetryRecord) → s ≢ r → store_at r due set s ≡ set s)
store_at_lem r due set = (
  ground (arith, eq_refl r.envelope, eq_refl r.error_code),
  λ s h. ground (arith, eq_iff r.envelope s.envelope, eq_iff r.error_code s.error_code),
)

abbrev pub memory_letters : RetryStore Letters
memory_letters = record {
  scheduled = λ w. w.set;
  dead = λ w. w.stream;
  zadd = λ r due w. (ok tt, record w { set = store_at r due w.set });
  xadd = λ d w. (ok "1-0", record w { stream = w.stream ++ d ∷ [] });
  scheduled-zadd = λ r due w h. store_at_lem r due w.set;
  dead-zadd = λ r due w. refl;
  dead-xadd = λ d w h. refl;
  scheduled-xadd = λ d w r. refl;
}

abbrev pub no_letters : Letters
no_letters = record { set = λ r. none; stream = [] }

-- A database session: what it sees and what is committed.
pub record Store : Type 0 where
  pub visible : Tables
  pub committed : Tables

abbrev pub checked : String → Option RiskAssessment → Outcome (Option RiskAssessment)
checked id none = ok none
checked id (some a) =
    if str_eq a.transaction_id id
    then ok (some a)
    else raised (record { kind = other; message = "row under another key" })

pub checked-ok : (id : String) (o p : Option RiskAssessment) → checked id o ≡ ok p → p ≡ o
checked-ok id none p h = ground arith
checked-ok id (some a) p h = ground arith

pub checked-key :
    (id : String) (o : Option RiskAssessment) (a : RiskAssessment)
    → checked id o ≡ ok (some a)
    → a.transaction_id ≡ id
checked-key id none a h = ground arith
checked-key id (some b) a h = ground (arith, eq_iff b.transaction_id id)

abbrev pub memory_session : Session Store
memory_session = record {
  visible = λ s. s.visible;
  committed = λ s. s.committed;
  get_transaction = λ id s. (ok (lookup id s.visible.transactions), s);
  get_assessment = λ id s. (checked id (lookup id s.visible.assessments), s);
  flush = λ cs s. (ok tt, record s { visible = apply_all s.visible cs });
  commit = λ s. (ok tt, record s { committed = s.visible });
  rollback = λ s. (ok tt, record s { visible = s.committed });
  get_transaction-ok = λ id o s h. ok-injective _ _ h;
  get_transaction-same = λ id s. (refl, refl);
  get_assessment-ok = λ id o s h. checked-ok id _ o h;
  get_assessment-key = λ id a s h. checked-key id _ a h;
  get_assessment-same = λ id s. (refl, refl);
  visible-flush = λ cs s h. refl;
  committed-flush = λ cs s. refl;
  commit-ok = λ s h. (refl, refl);
  commit-any = λ s. inr refl;
  rollback-ok = λ s h. refl;
  committed-rollback = λ s. refl;
}

-- A queue that remembers what was acknowledged.
abbrev pub member : String → List String → Bool
member id [] = false
member id (x ∷ xs) = str_eq x id || member id xs

pub acked_self : (id : String) (q : List String) → member id (id ∷ q) ≡ true
acked_self id q = rw eq_refl

pub acked_ne : (id m : String) (q : List String) → id ≢ m → member id (m ∷ q) ≡ member id q
acked_ne id m q ne = ground (arith, eq_iff m id)

-- A broker by the messages acknowledged and the identifiers of the events published.
pub record Broker : Type 0 where
  pub acks : List String
  pub events : List String

abbrev pub no_messages : Broker
no_messages = record { acks = []; events = [] }

pub member_stays : (m id : String) (q : List String) → member id q ≡ true → member id (m ∷ q) ≡ true
member_stays m id q h = rw h (ground arith)

abbrev pub memory_queue : QueuePort Broker
memory_queue = record {
  acked = λ q id. member id q.acks;
  sent = λ q e. member e.event_id q.events;
  publish = λ e q. (
    ok (record { queue = "q"; message_id = "1-0" }),
    record q { events = e.event_id ∷ q.events },
  );
  consume = λ name n block q. (ok [], q);
  ack = λ h q. (ok tt, record q { acks = h.message_id ∷ q.acks });
  nack = λ h r q. (ok tt, q);
  sent-publish = λ e q h. acked_self e.event_id q.events;
  sent_stays = λ e x q h. member_stays e.event_id x.event_id q.events h;
  acked-ack = λ h q e. acked_self h.message_id q.acks;
  acked-ack_ne = λ h q id ne. acked_ne id h.message_id q.acks ne;
  acked-consume = λ name n block_ms q id. refl;
  acked-nack = λ h r q id. refl;
}
