-- ===== src/Migrations/Env/Atomic.antt =====
-- What becomes durable of a run of the migrations.
use fraud_latch.Base.{◌≡◌, sym, ◌∙◌, ap, ◌⊎◌, inl, inr, String, true, List, [], ◌∷◌, All}
use mathlib.Core.Path.{subst}
use fraud_latch.Base.Outcome.{succeeded}
use fraud_latch.Base.Action.{Action, raise, lift, try_except, finally, for_each, ◌>>◌}
use fraud_latch.Base.Leads.{Leads, bind-Leads}
use fraud_latch.Config.{Environment}
use fraud_latch.Db.Models.{models}
use fraud_latch.Worker.Durability.{status-cases}
use fraud_latch.Migrations.{Op, Schema, migrate}
use fraud_latch.Migrations.Roundtrip.{upgrades}
use fraud_latch.Migrations.Models.{Implements, upgrades-Implements}
use fraud_latch.Migrations.Env.{Connection, get_url, do_run_migrations, run_async_migrations}

module _ {W : Type 0} (connection : Connection W) (before : Schema) where
  open connection use {
    operations, durable, connect, begin, commit, rollback, close, dispose, durable-perform,
    durable-connect, durable-begin, durable-rollback, durable-close, durable-dispose, commit-any,
  }

  abbrev Same : W → Type 0
  Same w = durable w ≡ before

  -- The durable schema is as before, or it is that of the models.
  abbrev AllOrNone : W → Type 0
  AllOrNone w = (durable w ≡ before) ⊎ All (Implements (durable w)) models

  migrate-Same : (ops : List Op) → Leads Same Same (migrate operations ops)
  unfolding migrate for_each
  migrate-Same [] w h = h
  migrate-Same (op ∷ ops) w h =
      bind-Leads Same Same Same (operations.perform op) (λ u. migrate operations ops)
        (λ w h. durable-perform op w ∙ h) (λ u. migrate-Same ops) (λ w h. h) w h

  kept :
      {A : Type 0} (m : Action W A)
      → ((w : W) → durable (m w).1 ≡ durable w)
      → Leads AllOrNone AllOrNone m
  kept m e w (inl h) = inl (e w ∙ h)
  kept m e w (inr h) = inr (subst (λ s. All (Implements s) models) (sym (e w)) h)

  commit_all :
      (w : W)
      → succeeded (migrate operations upgrades w).0 ≡ true
      → Same w
      → AllOrNone (commit (migrate operations upgrades w).1).1
  commit_all w r h = elim (commit-any (migrate operations upgrades w).1) [
    | inl e ↦ inl (e ∙ migrate-Same upgrades w h)
    | inr e ↦
        inr (subst (λ s. All (Implements s) models) (sym e) (upgrades-Implements operations w r))
  ]

  upgrade-AllOrNone : Leads Same AllOrNone (
      try_except
        (migrate operations upgrades)
        (λ e. rollback >> raise {A = Unit {0}} e)
        (λ u. commit))
  upgrade-AllOrNone w h = elim (status-cases (migrate operations upgrades w).0) [
    | inl (e, eq) ↦ rw eq (
        bind-Leads AllOrNone AllOrNone AllOrNone rollback (λ (u : Unit {0}). raise {A = Unit {0}} e)
          (kept rollback durable-rollback) (λ u s h. h) (λ s h. h) (migrate operations upgrades w).1
          (inl (migrate-Same upgrades w h)))
    | inr (u, eq) ↦ rw eq (commit_all w (ap succeeded eq) h)
  ]

  do_run_migrations-AllOrNone : Leads Same AllOrNone (do_run_migrations connection upgrades)
  unfolding do_run_migrations
  do_run_migrations-AllOrNone =
      bind-Leads Same Same AllOrNone begin _ (λ w h. durable-begin w ∙ h) (λ u. upgrade-AllOrNone)
        (λ w h. inl h)

  -- However the run of all migrations ends, the durable schema is as it was before, or it has the tables and the indexes of all models.
  pub run_async_migrations-AllOrNone :
      (strip : String → String) (environ : Environment) (w : W)
      → durable w ≡ before
      → (durable (run_async_migrations connection upgrades strip environ w).1 ≡ before)
        ⊎ All
            (Implements (durable (run_async_migrations connection upgrades strip environ w).1))
            models
  unfolding run_async_migrations
  run_async_migrations-AllOrNone strip environ =
      let run = do_run_migrations connection upgrades in
      bind-Leads Same Same AllOrNone (lift (get_url strip environ))
        (λ url. connect url >> (finally run close >> dispose)) (λ w h. h)
        (λ url.
          bind-Leads Same Same AllOrNone (connect url)
            (λ (u : Unit {0}). finally run close >> dispose) (λ w h. durable-connect url w ∙ h)
            (λ u.
              bind-Leads Same AllOrNone AllOrNone (finally run close) (λ (u : Unit {0}). dispose)
                (λ w h. kept close durable-close (run w).1 (do_run_migrations-AllOrNone w h))
                (λ u. kept dispose durable-dispose) (λ w h. h))
            (λ w h. inl h))
        (λ w h. inl h)
