-- ===== src/Scripts/Replay/Exit.antt =====
-- The exit code of scripts/replay_banksim.py.
use fraud_latch.Base.{
  ℕ, ◌≡◌, ◌≢◌, ◌↔◌, inl, inr, ◌||◌, Option, List, length, ◌==◌, if◌then◌else◌, arith, Bool-cases,
}
use mathlib.Core.Path.{subst}
use fraud_latch.Base.Int.{pos, leb_ℤ, ltb_ℤ}
use fraud_latch.Base.Outcome.{Outcome, ok, ok_inj}
use fraud_latch.Base.Action.{Action, pure, lift, finally, try_except, ◌>>=◌, ◌>>◌}
use fraud_latch.Base.Leads.{finally-ok, Ensures, bind-Ensures, try_except-Ensures}
use fraud_latch.Scripts.Dataset.{Row}
use fraud_latch.Scripts.Convert.{CanonicalRow}
use fraud_latch.Scripts.Replay.{Summary, replay}
use fraud_latch.Scripts.Replay.Accounting.{replay_counts}
use fraud_latch.Scripts.Replay.Main.{
  Script, Arguments, config_of, select, client, async_main, main, reported,
}

module _ {W : Type 0} (script : Script W) (source_row : CanonicalRow → ℕ)
    (parquet : Outcome (List CanonicalRow)) (raw : Option (List Row)) (args : Arguments)
    (w : W) where
  -- The rows that were selected and the summary of their replay, of which a code tells whether all rows were sent.
  abbrev pub Replayed : ℕ → Type 0
  Replayed code =
      (rows : List CanonicalRow) × (s : Summary) × (select source_row parquet raw (config_of args)
        ≡ ok rows)
      × ((replay (client script source_row parquet raw args) rows w).0 ≡ ok s)
      × ((code ≡ 0) ↔ (s.sent ≡ length rows))

  code-sent :
      (rows : List CanonicalRow) (s : Summary)
      → select source_row parquet raw (config_of args) ≡ ok rows
      → (replay (client script source_row parquet raw args) rows w).0 ≡ ok s
      → Replayed (if s.failed == 0 then 0 else 1)
  code-sent rows s e h =
      let (a, b, c, d) = replay_counts (client script source_row parquet raw args) rows w s h in
      (rows, s, e, h, (λ k. ground (arith, a, b, k), λ k. ground (arith, a, b, k)))

  abbrev selection : Outcome (List CanonicalRow)
  selection = select source_row parquet raw (config_of args)

  abbrev block : Action W Summary
  block = lift selection >>= λ rows. replay (client script source_row parquet raw args) rows

  -- The rows that a summary is about.
  abbrev Came : Summary → W → Type 0
  Came s w' =
      (rows : List CanonicalRow) × (selection ≡ ok rows)
      × ((replay (client script source_row parquet raw args) rows w).0 ≡ ok s)

  block-ok : Ensures Came block w
  block-ok =
      bind-Ensures Came (lift selection) (replay (client script source_row parquet raw args)) w
        (λ rows e s k. (rows, e, k))

  async_main-Replayed :
      Ensures (λ code w'. Replayed code) (async_main script source_row parquet raw args) w
  unfolding async_main
  async_main-Replayed =
      let code_of = λ (s : Summary). if s.failed == 0 then 0 else 1 in
      bind-Ensures (λ code w'. Replayed code) (finally block script.aclose)
        (λ s. script.print s >> pure (code_of s)) w
        (λ s e.
          let (rows, e1, e2) = block-ok s (finally-ok block script.aclose w s e) in
          bind-Ensures (λ code w'. Replayed code) (script.print s)
            (λ (u : Unit {0}). pure (code_of s)) _
            (λ u k code h. subst Replayed (ok_inj (code_of s) code h) (code-sent rows s e1 e2)))

  -- If the replay's main exits with another code than 2, its rows were selected and their replay has returned, and the code is 0 exactly
  -- if every selected row was sent.
  pub main_exit :
      (code : ℕ)
      → (main script source_row parquet raw args w).0 ≡ ok code
      → code ≢ 2
      → Replayed code
  unfolding main
  main_exit code h n = elim (Bool-cases (leb_ℤ args.rate (pos 0) || ltb_ℤ args.limit (pos 0))) [
    | inl t ↦ absurd (ground (arith, t, h, n))
    | inr t ↦
        try_except-Ensures (λ code w'. code ≢ 2 → Replayed code)
          (async_main script source_row parquet raw args)
          (reported script source_row parquet raw args) pure w
          (λ e k code h n. absurd (ground (arith, h, n)))
          (λ a k code h n. subst Replayed (ok_inj a code h) (async_main-Replayed a k)) code
          (subst
            (λ b.
              ((if b
                  then pure 2
                  else try_except (async_main script source_row parquet raw args)
                      (reported script source_row parquet raw args) pure)
                w).0
              ≡ ok code)
            t h)
          n
  ]
