-- ===== src/External/SortedSets.antt =====
-- The sorted-set commands of redis-py's asyncio client that fraudlatch/risk/velocity.py uses. A command may
-- raise; what is stated holds where it returned.
use fraud_latch.Base.{
  ℕ, ◌≡◌, Bool, true, ◌&&◌, Option, [], ◌∷◌, leb, ltb, keep, count, str_eq, if◌then◌else◌, none,
  some, max, String,
}
use fraud_latch.Base.Assoc.{Assoc, lookup, insert}
use fraud_latch.Base.Action.{Action}
use fraud_latch.Base.Outcome.{ok, succeeded}

-- A member and its score.
abbrev pub scored_above : ℕ → String × ℕ → Bool
scored_above bound e = ltb bound e.1

abbrev pub scored_within : ℕ → ℕ → String × ℕ → Bool
scored_within lo hi e = leb lo e.1 && leb e.1 hi

-- The highest score.
unfoldable pub highest : Assoc ℕ → Option ℕ
highest [] = none
highest ((m, x) ∷ d) = elim (highest d) [ none ↦ some x | some y ↦ some (max x y) ]

-- No member is listed twice.
abbrev pub Distinct : Assoc ℕ → Type 0
Distinct [] = Unit
Distinct ((m, x) ∷ d) = (lookup m d ≡ none) × Distinct d

pub record SortedSets (W : Type 0) : Type 0 where
  -- The members of a key with their scores, as a client can read them.
  pub entries : W → String → Assoc ℕ
  -- `zremrangebyscore(key, "-inf", bound)`, `zadd(key, {member: score})`, `expire(key, seconds)`,
  -- `zcount(key, lo, hi)`, and the score that `zrange(key, -1, -1, withscores=True)` shows
  pub zremrangebyscore : String → ℕ → Action W Unit
  pub zadd : String → String → ℕ → Action W Unit
  pub expire : String → ℕ → Action W Unit
  pub zcount : String → ℕ → ℕ → Action W ℕ
  pub zrange_last : String → Action W (Option ℕ)
  pub distinct : (w : W) (k : String) → Distinct (entries w k)
  pub entries-zremrangebyscore :
      (k : String) (bound : ℕ) (w : W) (j : String)
      → succeeded (zremrangebyscore k bound w).0 ≡ true
      → entries (zremrangebyscore k bound w).1 j
        ≡ (if str_eq k j then keep (scored_above bound) (entries w j) else entries w j)
  pub entries-zadd :
      (k m : String) (x : ℕ) (w : W) (j : String)
      → succeeded (zadd k m x w).0 ≡ true
      → entries (zadd k m x w).1 j ≡ (if str_eq k j then insert m x (entries w j) else entries w j)
  pub entries-expire :
      (k : String) (n : ℕ) (w : W) (j : String)
      → succeeded (expire k n w).0 ≡ true
      → entries (expire k n w).1 j ≡ entries w j
  pub zcount-eq-count :
      (k : String) (lo hi n : ℕ) (w : W)
      → (zcount k lo hi w).0 ≡ ok n
      → n ≡ count (scored_within lo hi) (entries w k)
  pub entries-zcount :
      (k : String) (lo hi : ℕ) (w : W) (j : String)
      → succeeded (zcount k lo hi w).0 ≡ true
      → entries (zcount k lo hi w).1 j ≡ entries w j
  pub zrange_last-eq-highest :
      (k : String) (o : Option ℕ) (w : W) → (zrange_last k w).0 ≡ ok o → o ≡ highest (entries w k)
  pub entries-zrange_last :
      (k : String) (w : W) (j : String)
      → succeeded (zrange_last k w).0 ≡ true
      → entries (zrange_last k w).1 j ≡ entries w j
