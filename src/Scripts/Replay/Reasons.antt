-- ===== src/Scripts/Replay/Reasons.antt =====
-- Why scripts/replay_banksim.py gives up on a row: a row that was not sent always has an error.
use Prim.Native.String.{◌++◌ as ◌^^◌, count}
use text.Mathlib.TextLemmas.{length-nil, length-append as count-append}
use fraud_latch.Base.{
  ℕ, ◌≡◌, ◌≢◌, refl, ap, String, true, false, not, ◌&&◌, ◌||◌, List, [], ◌∷◌, ◌⊎◌, inl, inr,
  Bool-cases, str_eq, eq_iff, ltb, leb, ◌==◌, arith,
}
use mathlib.Core.Path.{subst}
use fraud_latch.Base.Text.{str, prefix}
use fraud_latch.Base.Outcome.{Error}
use fraud_latch.Base.Action.{Action, ◌>>=◌, ◌>>◌}
use fraud_latch.Base.Leads.{Ensures, bind-Ensures}
use fraud_latch.Worker.Durability.{status-cases}
use fraud_latch.Scripts.Convert.{CanonicalRow}
use fraud_latch.Scripts.Replay.{
  Response, Client, Tried, Verdict, stop, again, is_network_error, after_error, after_response,
  network_error, request, when, resume, try_row,
}

str_eq-false : (s : String) → s ≢ "" → str_eq s "" ≡ false
str_eq-false s h = elim (Bool-cases (str_eq s "")) [
  | inl e ↦ absurd (h ((eq_iff s "").0 e))
  | inr e ↦ e
]

http_not_empty : (s : String) → str_eq ("HTTP " ^^ s) "" ≡ false
http_not_empty s =
    str_eq-false ("HTTP " ^^ s)
      (λ h. let counts = ap count h in omega (arith, count-append "HTTP " s, counts, length-nil))

-- A row that was not sent has an error.
abbrev pub TellsWhy : Tried → Type 0
TellsWhy t = (t.succeeded ≡ true) ⊎ (str_eq t.last_error "" ≡ false)

abbrev exhausted : Tried
exhausted = record { succeeded = false; last_error = "retry loop exhausted" }

-- A verdict that ends a row tells why.
abbrev EndsWell : Verdict → Type 0
EndsWell (stop t) = TellsWhy t
EndsWell (again e) = Unit {0}

module _ {W : Type 0} (client : Client W) where
  open client use {post, class_name, class_name_lem, sleep, pace}

  network_error_lem : (e : Error) → str_eq (network_error client e) "" ≡ false
  network_error_lem e = elim (Bool-cases (str_eq e.message "")) [
    | inl h ↦ rw h (class_name_lem e)
    | inr h ↦ rw h h
  ]

  after_error-EndsWell : (attempt : ℕ) (e : Error) → EndsWell (after_error client attempt e)
  unfolding after_error
  after_error-EndsWell attempt e = elim (Bool-cases (ltb attempt 3)) [
    | inl h ↦ rw h tt
    | inr h ↦ rw h (inr (network_error_lem e))
  ]

  after_response-EndsWell :
      (attempt : ℕ) (last_error : String) (r : Response)
      → EndsWell (after_response client attempt last_error r)
  unfolding after_response
  after_response-EndsWell attempt last_error r =
      elim (Bool-cases (r.status_code == 200 || r.status_code == 202)) [
        | inl h ↦ rw h (inl refl)
        | inr h ↦ elim (Bool-cases (leb 500 r.status_code && ltb attempt 3)) [
          | inl h1 ↦ rw (h, h1) tt
          | inr h1 ↦
              rw (h, h1) (inr (http_not_empty (str r.status_code ^^ (": " ^^ prefix 200 r.text))))
        ]
      ]

  request-EndsWell :
      (attempt : ℕ) (last_error : String) (row : CanonicalRow) (w : W)
      → Ensures (λ v w'. EndsWell v) (request client attempt last_error row) w
  unfolding request
  request-EndsWell attempt last_error row w v h = elim (status-cases (post row w).0) [
    | inl (e, eq) ↦ elim (Bool-cases (is_network_error e.kind)) [
      | inl k ↦ subst EndsWell (ground (arith, eq, k, h)) (after_error-EndsWell attempt e)
      | inr k ↦ absurd (ground (arith, eq, k, h))
    ]
    | inr (r, eq) ↦
        subst EndsWell (ground (arith, eq, h)) (after_response-EndsWell attempt last_error r)
  ]

  resume-TellsWhy :
      (v : Verdict) (more : String → Action W Tried) (w : W)
      → EndsWell v
      → ((e : String) → Ensures (λ t w'. TellsWhy t) (more e) w)
      → Ensures (λ t w'. TellsWhy t) (resume v more) w
  resume-TellsWhy (stop t) more w h rest = λ t' eq. subst TellsWhy (ground (arith, eq)) h
  resume-TellsWhy (again e) more w h rest = λ t' eq. rest e t' eq

  attempt-TellsWhy :
      (attempt : ℕ) (last_error : String) (row : CanonicalRow) (more : String → Action W Tried)
      → ((e : String) (w : W) → Ensures (λ t w'. TellsWhy t) (more e) w)
      → (w : W)
      → Ensures
          (λ t w'. TellsWhy t)
          (request client attempt last_error row >>= λ v. resume v more)
          w
  attempt-TellsWhy attempt last_error row more h w =
      bind-Ensures (λ t w'. TellsWhy t) (request client attempt last_error row) (λ v. resume v more)
        w
        (λ v e.
          resume-TellsWhy v more (request client attempt last_error row w).1
            (request-EndsWell attempt last_error row w v e)
            (λ x. h x (request client attempt last_error row w).1))

  then-TellsWhy :
      (m : Action W (Unit {0})) (k : Action W Tried)
      → ((w : W) → Ensures (λ t w'. TellsWhy t) k w)
      → (w : W) → Ensures (λ t w'. TellsWhy t) (m >> k) w
  then-TellsWhy m k h w = bind-Ensures (λ t w'. TellsWhy t) m (λ u. k) w (λ u e. h (m w).1)

  pub try_row-TellsWhy :
      (sent : ℕ) (row : CanonicalRow) (attempts : List (ℕ × ℕ)) (last_error : String) (w : W)
      → Ensures (λ t w'. TellsWhy t) (try_row client sent row attempts last_error) w
  unfolding try_row
  try_row-TellsWhy sent row [] last_error w =
      λ t h. subst TellsWhy {x = exhausted} (ground (arith, h)) (inr refl)
  try_row-TellsWhy sent row ((attempt, delay) ∷ rest) last_error w =
      let more = try_row client sent row rest in
      then-TellsWhy (when (not (delay == 0)) (sleep delay))
        (when (not (sent == 0)) pace
          >> (request client attempt last_error row >>= λ v. resume v more))
        (then-TellsWhy (when (not (sent == 0)) pace)
          (request client attempt last_error row >>= λ v. resume v more)
          (attempt-TellsWhy attempt last_error row more (try_row-TellsWhy sent row rest)))
        w
