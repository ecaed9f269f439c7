-- ===== src/Scripts/Replay/Attempts.antt =====
-- How often scripts/replay_banksim.py calls the API.
use fraud_latch.Base.{
  ℕ, ◌+◌, ◌*◌, ◌≡◌, ◌≤◌, String, Bool, true, false, not, List, [], ◌∷◌, length, inl, inr,
  Bool-cases, ◌==◌, arith,
}
use fraud_latch.Base.Action.{Action, pure, ◌>>=◌, ◌>>◌}
use fraud_latch.Base.Leads.{Leads, bind-Leads}
use fraud_latch.Worker.Durability.{status-cases}
use fraud_latch.Scripts.Convert.{CanonicalRow}
use fraud_latch.Scripts.Replay.{
  Client, Tried, Verdict, stop, again, delays, is_network_error, request, when, resume, try_row,
  record_row, replay_rows, Failure, summary_of, replay,
}

-- `posts` counts the requests that have been made.
module _ {W : Type 0} (client : Client W) (posts : W → ℕ)
    (posts-post : (row : CanonicalRow) (w : W) → posts (client.post row w).1 ≡ posts w + 1)
    (posts-sleep : (n : ℕ) (w : W) → posts (client.sleep n w).1 ≡ posts w)
    (posts-pace : (w : W) → posts (client.pace w).1 ≡ posts w) where
  open client use {post, sleep, pace}

  abbrev AtMost : ℕ → W → Type 0
  AtMost k w = posts w ≤ k

  weaken : (j k : ℕ) → j ≤ k → (w : W) → AtMost j w → AtMost k w
  weaken j k h w p = omega arith

  when-AtMost :
      (b : Bool) (m : Action W (Unit {0})) (k : ℕ)
      → Leads (AtMost k) (AtMost k) m
      → Leads (AtMost k) (AtMost k) (when b m)
  when-AtMost true m k h w p = h w p
  when-AtMost false m k h w p = p

  request-AtMost :
      (attempt : ℕ) (e : String) (row : CanonicalRow) (k : ℕ)
      → Leads (AtMost k) (AtMost (k + 1)) (request client attempt e row)
  unfolding request
  request-AtMost attempt e row k w p =
      let one = posts-post row w in
      elim (status-cases (post row w).0) [
        | inl (x, eq) ↦ elim (Bool-cases (is_network_error x.kind)) [
          | inl h ↦ ground (arith, eq, h, one, p)
          | inr h ↦ ground (arith, eq, h, one, p)
        ]
        | inr (r, eq) ↦ ground (arith, eq, one, p)
      ]

  resume-AtMost :
      (v : Verdict) (more : String → Action W Tried) (j k : ℕ)
      → j ≤ k
      → ((e : String) → Leads (AtMost j) (AtMost k) (more e))
      → Leads (AtMost j) (AtMost k) (resume v more)
  resume-AtMost (stop t) more j k h rest w p = weaken j k h w p
  resume-AtMost (again e) more j k h rest w p = rest e w p

  try_row-AtMost :
      (sent : ℕ) (row : CanonicalRow) (attempts : List (ℕ × ℕ)) (e : String) (k : ℕ)
      → Leads (AtMost k) (AtMost (k + length attempts)) (try_row client sent row attempts e)
  unfolding try_row
  try_row-AtMost sent row [] e k = λ w p. weaken k (k + 0) (omega arith) w p
  try_row-AtMost sent row ((attempt, delay) ∷ rest) e k =
      let end = AtMost (k + length ((attempt, delay) ∷ rest)) in
      let more = try_row client sent row rest in
      let ask = request client attempt e row >>= λ v. resume v more in
      bind-Leads (AtMost k) (AtMost k) end (when (not (delay == 0)) (sleep delay))
        (λ u. when (not (sent == 0)) pace >> ask)
        (when-AtMost (not (delay == 0)) (sleep delay) k (λ w p. omega (arith, posts-sleep delay w)))
        (λ u.
          bind-Leads (AtMost k) (AtMost k) end (when (not (sent == 0)) pace) (λ u1. ask)
            (when-AtMost (not (sent == 0)) pace k (λ w p. omega (arith, posts-pace w)))
            (λ u1.
              bind-Leads (AtMost k) (AtMost (k + 1)) end (request client attempt e row)
                (λ v. resume v more) (request-AtMost attempt e row k)
                (λ v.
                  resume-AtMost v more (k + 1) (k + length ((attempt, delay) ∷ rest)) (omega arith)
                    (λ x w p.
                      weaken (k + 1 + length rest) (k + length ((attempt, delay) ∷ rest))
                        (omega arith) _ (try_row-AtMost sent row rest x (k + 1) w p)))
                (weaken (k + 1) (k + length ((attempt, delay) ∷ rest)) (omega arith)))
            (weaken k (k + length ((attempt, delay) ∷ rest)) (omega arith)))
        (weaken k (k + length ((attempt, delay) ∷ rest)) (omega arith))

  replay_rows-AtMost :
      (rows : List CanonicalRow) (counts : ℕ × List Failure) (k : ℕ)
      → Leads (AtMost k) (AtMost (k + 3 * length rows)) (replay_rows client rows counts)
  unfolding replay_rows
  replay_rows-AtMost [] counts k = λ w p. weaken k (k + 0) (omega arith) w p
  replay_rows-AtMost (row ∷ rows) (sent, failures) k =
      bind-Leads (AtMost k) (AtMost (k + 3)) (AtMost (k + 3 * length (row ∷ rows)))
        (try_row client sent row delays "")
        (λ t. replay_rows client rows (record_row row t (sent, failures)))
        (try_row-AtMost sent row delays "" k)
        (λ t w p.
          weaken (k + 3 + 3 * length rows) (k + 3 * length (row ∷ rows)) (omega arith) _
            (replay_rows-AtMost rows (record_row row t (sent, failures)) (k + 3) w p))
        (weaken (k + 3) (k + 3 * length (row ∷ rows)) (omega arith))

  -- However a replay ends, it has made at most three requests for each selected row.
  pub replay_posts :
      (rows : List CanonicalRow) (w : W)
      → posts (replay client rows w).1 ≤ posts w + 3 * length rows
  unfolding replay
  replay_posts rows w =
      bind-Leads (AtMost (posts w)) (AtMost (posts w + 3 * length rows))
        (AtMost (posts w + 3 * length rows)) (replay_rows client rows (0, []))
        (λ c. pure (summary_of (length rows) c)) (replay_rows-AtMost rows (0, []) (posts w))
        (λ c w1 p. p) (λ w1 p. p) w (omega arith)
