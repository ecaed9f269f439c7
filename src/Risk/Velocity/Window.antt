-- ===== src/Risk/Velocity/Window.antt =====
-- What fraudlatch/risk/velocity.py counts: the other events of the same customer or merchant in the half-open
-- window that ends at the event, and the event itself.
use Prim.Native.String.{◌++◌}
use text.Mathlib.TextLemmas.{append_cancel_left, append_assoc}
use Prim.Native.String.append
use Prim.Native.Char.{code}
use fraud_latch.Base.{
  ℕ, suc, ◌-◌, ◌≤◌, ◌<◌, ◌≡◌, refl, ap, ◌∙◌, sym, String, true, not, ◌||◌, ◌&&◌, none, [], ◌∷◌,
  arith, ltb, leb, keep, count, str_eq, eq_iff, eq_refl, if◌then◌else◌,
}
use fraud_latch.Base.Time.{Datetime, subtract}
use fraud_latch.Base.Assoc.{Assoc, lookup, insert}
use fraud_latch.Base.Outcome.{ok, succeeded}
use fraud_latch.Base.Action.{for_each}
use fraud_latch.External.SortedSets.{SortedSets, Distinct, scored_above, scored_within}
use fraud_latch.Risk.Models.{RiskTransaction, RiskContext}
use fraud_latch.Risk.Velocity.{
  customer_key, merchant_key, Provider, touch, latest_time, get_context, validate_event_time,
}

first_code : String → ℕ
first_code String.[] = 0
first_code (String.◌∷◌ c s) = code c

first_ne : (s t : String) → ¬ (String.◌∷◌ "c" s ≡ String.◌∷◌ "m" t)
unfolding first_code
first_ne s t h = absurd (omega (arith, ap first_code h))

-- The keys of a customer and of a merchant never coincide.
pub key_ne : (a b : String) → ¬ (customer_key a ≡ merchant_key b)
key_ne a b h =
    let e = append_cancel_left "fraudlatch:velocity:" ("customer:" ++ a) ("merchant:" ++ b) (
      sym (append_assoc "fraudlatch:velocity:" "customer:" a)
      ∙ h
      ∙ append_assoc "fraudlatch:velocity:" "merchant:" b) in
    first_ne ("ustomer:" ++ a) ("erchant:" ++ b)
      (sym (append.cons "c" "ustomer:" a) ∙ e ∙ append.cons "m" "erchant:" b)

-- The others in the window.
abbrev pub others_within : String → ℕ → ℕ → Assoc ℕ → ℕ
others_within id lo hi = count (λ e. not (str_eq e.0 id) && ltb lo e.1 && leb e.1 hi)

count-absent :
    (id : String) (lo hi : ℕ) (d : Assoc ℕ)
    → lookup id d ≡ none
    → count (scored_within lo hi) (keep (scored_above lo) d) ≡ others_within id lo hi d
unfolding lookup
count-absent id lo hi [] h = refl
count-absent id lo hi ((m, x) ∷ d) h = ground (arith, count-absent id lo hi d)

count-insert :
    (id : String) (lo hi : ℕ) (d : Assoc ℕ)
    → Distinct d
    → lo < hi
    → count (scored_within lo hi) (insert id hi (keep (scored_above lo) d))
      ≡ suc (others_within id lo hi d)
unfolding insert
count-insert id lo hi [] h p = ground arith
count-insert id lo hi ((m, x) ∷ d) h p =
    ground (arith, count-insert id lo hi d h.1 p, eq_iff m id, count-absent id lo hi d)

others_within-keep :
    (id : String) (lo hi : ℕ) (d : Assoc ℕ)
    → others_within id lo hi (keep (scored_above lo) d) ≡ others_within id lo hi d
others_within-keep id lo hi [] = refl
others_within-keep id lo hi ((m, y) ∷ d) = ground (arith, others_within-keep id lo hi d)

-- Recording an event again changes none of the others.
others_within-insert :
    (id : String) (lo hi x : ℕ) (d : Assoc ℕ)
    → others_within id lo hi (insert id x (keep (scored_above lo) d)) ≡ others_within id lo hi d
unfolding insert
others_within-insert id lo hi x [] = rw eq_refl
others_within-insert id lo hi x ((m, y) ∷ d) =
    ground (arith, others_within-insert id lo hi x d, others_within-keep id lo hi d)

module _ {W : Type 0} (redis : SortedSets W) where
  open redis use {
    entries-zrange_last, distinct, zcount-eq-count, entries-zcount, zcount, zrange_last,
    zremrangebyscore, zadd, expire, entries, entries-zremrangebyscore, entries-zadd, entries-expire,
  }

  entries-touch :
      (ttl : ℕ) (id : String) (x lo : ℕ) (k : String) (w : W) (j : String)
      → succeeded (touch redis ttl id x lo k w).0 ≡ true
      → entries (touch redis ttl id x lo k w).1 j
        ≡ (if str_eq k j then insert id x (keep (scored_above lo) (entries w j)) else entries w j)
  unfolding touch
  entries-touch ttl id x lo k w j h =
      let w1 = (zremrangebyscore k lo w).1 in
      let w2 = (zadd k id x w1).1 in
      ground (
        arith,
        entries-zremrangebyscore k lo w j,
        entries-zadd k id x w1 j,
        entries-expire k ttl w2 j,
      )

  module _ (self : Provider) (t : RiskTransaction) (now : Datetime) (w : W) where
    abbrev cut : ℕ
    cut = t.event_time.micros - self.window

    abbrev step : String → W → W
    step k v = (touch redis self.ttl_seconds t.transaction_id t.event_time.micros cut k v).1

    abbrev touched : W
    touched = step (merchant_key t.merchant_id) (step (customer_key t.customer_id) w)

    -- What a returned call has passed.
    inversion :
        {c : RiskContext}
        → (get_context redis self t now w).0 ≡ ok c
        → (t.event_time.aware ≡ true)
          × (t.event_time.micros ≤ now.micros)
          × (self.window ≤ t.event_time.micros)
          × (succeeded
                (touch redis self.ttl_seconds t.transaction_id t.event_time.micros cut
                  (customer_key t.customer_id)
                  w).0
              ≡ true)
          × (succeeded
                (touch redis self.ttl_seconds t.transaction_id t.event_time.micros cut
                  (merchant_key t.merchant_id)
                  (step (customer_key t.customer_id) w)).0
              ≡ true)
          × ((zcount (customer_key t.customer_id) cut t.event_time.micros touched).0
              ≡ ok c.customer_velocity)
          × ((zcount
                (merchant_key t.merchant_id)
                cut
                t.event_time.micros
                (zcount (customer_key t.customer_id) cut t.event_time.micros touched).1).0
              ≡ ok c.merchant_velocity)
    unfolding get_context for_each validate_event_time subtract
    inversion h = ground arith

    entries-touched :
        {c : RiskContext}
        → (get_context redis self t now w).0 ≡ ok c
        → (j : String)
        → entries touched j ≡ (
            if str_eq (customer_key t.customer_id) j || str_eq (merchant_key t.merchant_id) j
            then insert t.transaction_id t.event_time.micros (keep (scored_above cut) (entries w j))
            else entries w j)
    entries-touched h j = ground (
      arith,
      inversion h,
      entries-touch self.ttl_seconds t.transaction_id t.event_time.micros cut
          (customer_key t.customer_id) w j,
      entries-touch self.ttl_seconds t.transaction_id t.event_time.micros cut
          (merchant_key t.merchant_id) (step (customer_key t.customer_id) w) j,
      key_ne t.customer_id t.merchant_id,
      eq_iff (customer_key t.customer_id) j,
      eq_iff (merchant_key t.merchant_id) j,
    )

    -- A context that is returned counts, for the customer and for the merchant, the event itself and the other
    -- members of the key with a score after the start of the window and not after the event.
    -- It is only returned for an aware time that is not in the future.
    pub get_context_counts :
        {c : RiskContext}
        → 0 < self.window
        → (get_context redis self t now w).0 ≡ ok c
        → (t.event_time.aware ≡ true)
          × (t.event_time.micros ≤ now.micros)
          × (c.customer_velocity
              ≡ suc (
                  others_within t.transaction_id cut t.event_time.micros
                    (entries w (customer_key t.customer_id))))
          × (c.merchant_velocity
              ≡ suc (
                  others_within t.transaction_id cut t.event_time.micros
                    (entries w (merchant_key t.merchant_id))))
    get_context_counts p h =
        let inv = inversion h in
        let x = t.event_time.micros in
        let ck = customer_key t.customer_id in
        let mk = merchant_key t.merchant_id in
        (
          inv.0,
          inv.1,
          zcount-eq-count _ _ _ _ _ inv.5
              ∙ ground (
                arith,
                entries-touched h ck,
                eq_refl ck,
                count-insert t.transaction_id cut x (entries w ck) (distinct w ck),
              ),
          zcount-eq-count _ _ _ _ _ inv.6
              ∙ ground (
                arith,
                entries-zcount ck cut x touched mk,
                entries-touched h mk,
                eq_refl mk,
                count-insert t.transaction_id cut x (entries w mk) (distinct w mk),
              ),
        )

    entries-get_context :
        {c : RiskContext}
        → (get_context redis self t now w).0 ≡ ok c
        → (j : String) → entries (get_context redis self t now w).1 j ≡ entries touched j
    unfolding get_context for_each validate_event_time subtract latest_time
    entries-get_context h j =
        let x = t.event_time.micros in
        let ck = customer_key t.customer_id in
        let mk = merchant_key t.merchant_id in
        let w3 = (zcount ck cut x touched).1 in
        let w4 = (zcount mk cut x w3).1 in
        let w5 = (zrange_last ck w4).1 in
        ground (
          arith,
          entries-zcount ck cut x touched j,
          entries-zcount mk cut x w3 j,
          entries-zrange_last ck w4 j,
          entries-zrange_last mk w5 j,
        )

    -- What the two keys hold after a returned call: the event at its time and of what was there only what is
    -- later than the start of the window. Every other key is left alone.
    pub get_context_entries :
        {c : RiskContext}
        → (get_context redis self t now w).0 ≡ ok c
        → (j : String)
        → entries (get_context redis self t now w).1 j ≡ (
            if str_eq (customer_key t.customer_id) j || str_eq (merchant_key t.merchant_id) j
            then insert t.transaction_id t.event_time.micros (keep (scored_above cut) (entries w j))
            else entries w j)
    get_context_entries h j = entries-get_context h j ∙ entries-touched h j

  -- Assessing a redelivered event right after its first assessment counts the same velocities.
  pub get_context_again :
      (self : Provider) (t : RiskTransaction) (now later : Datetime) (w : W) {c d : RiskContext}
      → 0 < self.window
      → (get_context redis self t now w).0 ≡ ok c
      → (get_context redis self t later (get_context redis self t now w).1).0 ≡ ok d
      → (d.customer_velocity ≡ c.customer_velocity) × (d.merchant_velocity ≡ c.merchant_velocity)
  get_context_again self t now later w p h k =
      let x = t.event_time.micros in
      let lo = x - self.window in
      let ck = customer_key t.customer_id in
      let mk = merchant_key t.merchant_id in
      let w1 = (get_context redis self t now w).1 in
      ground (
        arith,
        get_context_counts self t now w p h,
        get_context_counts self t later w1 p k,
        get_context_entries self t now w h ck,
        get_context_entries self t now w h mk,
        eq_refl ck,
        eq_refl mk,
        others_within-insert t.transaction_id lo x x (entries w ck),
        others_within-insert t.transaction_id lo x x (entries w mk),
      )
