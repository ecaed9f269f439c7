-- ===== src/Scripts/Convert/Exit.antt =====
-- The exit codes of scripts/prepare_banksim.py and scripts/validate_dataset.py on the same file.
use fraud_latch.Base.{
  ℕ, ◌≡◌, ◌≢◌, sym, inl, inr, String, Bool, Bool-cases, if◌then◌else◌, Option, some, List, arith,
}
use Prim.Native.String.{◌++◌ as ◌^^◌}
use mathlib.Core.Path.{subst}
use fraud_latch.Base.Outcome.{ok, Error, ok_inj}
use fraud_latch.Base.Action.{pure, raise, lift, ◌>>◌}
use fraud_latch.Base.Leads.{Ensures, bind-Ensures, try_except-Ensures}
use fraud_latch.Scripts.Dataset.{Builtins, CsvFile}
use fraud_latch.Scripts.Files.{Files}
use fraud_latch.Scripts.Validate.{Report}
use fraud_latch.Scripts.Validate.Main as ValidateMain
use fraud_latch.Scripts.Convert.{CanonicalRow, Manifest, convert_dataset}
use fraud_latch.Scripts.Convert.Agreement.{convert_dataset-validate_dataset}
use fraud_latch.Scripts.Convert.Main.{Written, Parquet, prepare, reported, main}

module _ {W : Type 0} (files : Files W) where
  abbrev Zero : ℕ → W → Type 0
  Zero code w = code ≡ 0

  finish_returned :
      (dumps indented : Report → String) (manifest : String) (report : Report) (w : W)
      → Ensures Zero (ValidateMain.finish files dumps indented manifest (ok report)) w
  unfolding ValidateMain.finish
  finish_returned dumps indented manifest report w =
      bind-Ensures Zero (files.make_parent manifest) _ w (λ u e.
        bind-Ensures Zero (files.write_text manifest (indented report ^^ "\n")) _ _ (λ u e.
          bind-Ensures Zero (files.print (dumps report)) (λ (u : Unit {0}). pure 0) _
            (λ u e code h. sym (ok_inj 0 code h))))

module _ {W T : Type 0} (files : Files W) (parquet : Parquet W T)
    (dumps dumps_indented : Written → String) (is_reported : Error → Bool) (b : Builtins)
    (seed : String) (file : Option CsvFile) (output manifest_path : String) (w : W) where
  abbrev Converts : Type 0
  Converts =
      (rows : List CanonicalRow) × (manifest : Manifest) × (convert_dataset b seed file
        ≡ ok (rows, manifest))

  reported_code :
      (e : Error) (v : W) (code : ℕ)
      → (reported files parquet dumps dumps_indented is_reported e v).0 ≡ ok code
      → code ≡ 2
  reported_code e v code h = elim (Bool-cases (is_reported e)) [
    | inl t ↦
        bind-Ensures (λ code w'. code ≡ 2) (files.print_error e.message) (λ (u : Unit {0}). pure 2)
          v (λ u k code h. sym (ok_inj 2 code h)) code
          (subst
            (λ c. ((if c then files.print_error e.message >> pure 2 else raise e) v).0 ≡ ok code) t
            h)
    | inr t ↦ absurd (ground (arith, t, h))
  ]

  main-Converts :
      Ensures
        (λ code w'. code ≢ 2 → Converts)
        (main files parquet dumps dumps_indented is_reported b seed file output manifest_path)
        w
  unfolding main
  main-Converts =
      let convert = convert_dataset b seed file in
      try_except-Ensures (λ code w'. code ≢ 2 → Converts)
        (prepare files parquet dumps dumps_indented b seed file output manifest_path)
        (reported files parquet dumps dumps_indented is_reported)
        (λ written. files.print (dumps written) >> pure 0) w
        (λ e k code h n. absurd (n (reported_code e _ code h)))
        (λ written k code h n.
          bind-Ensures (λ written w'. Converts) (lift convert) _ w
            (λ (rows, manifest) e written h. (rows, manifest, e)) written k)

-- If prepare_banksim exits on a file with another code than 2, then validate_dataset on the same file does not exit with 1.
pub main-validates :
    {W T : Type 0} (files : Files W) (parquet : Parquet W T)
    (dumps dumps_indented : Written → String) (is_reported : Error → Bool) (b : Builtins)
    (seed : String) (file : CsvFile) (output manifest_path : String) (w : W) (code : ℕ)
    → (main files parquet dumps dumps_indented is_reported b seed
        (some file)
        output
        manifest_path
        w).0
      ≡ ok code
    → code ≢ 2
    → (report_dumps report_indented : Report → String) (report_path : String) (w' : W)
    → (ValidateMain.main files report_dumps report_indented b (some file) report_path w').0 ≢ ok 1
unfolding ValidateMain.main
main-validates files parquet dumps dumps_indented is_reported b seed file output manifest_path w
      code h n report_dumps report_indented report_path w' h' =
    let (rows, manifest, e) =
      main-Converts files parquet dumps dumps_indented is_reported b seed (some file) output
        manifest_path w code h n in
    let v = convert_dataset-validate_dataset b seed file rows manifest e in
    absurd (
      omega (
        arith,
        finish_returned files report_dumps report_indented report_path v.0 w' 1 (
            subst
              (λ o.
                (ValidateMain.finish files report_dumps report_indented report_path o w').0 ≡ ok 1)
              v.1 h'),
      ))
