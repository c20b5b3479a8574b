-- ===== src/Executor/Tests.antt =====
-- Runs of the executor, and the theorems at concrete data.
use tcd_oran_testbed_integra.Base.{
  ℕ, ◌*◌, ◌==◌, ==_iff, ◌≡◌, ◌≢◌, refl, sym, ap, ◌∙◌, true, false, Option, none, some, [], ◌∷◌,
  ◌++◌, arith,
}
use tcd_oran_testbed_integra.Base.Text.{codes}
use tcd_oran_testbed_integra.Base.Integers.{ℤ, pos}
use tcd_oran_testbed_integra.Base.Json.{
  Json, Fields, object, text, number, close, field, get, is_text, is_number,
}
use tcd_oran_testbed_integra.Stationarity.Fixed.{fixed}
use tcd_oran_testbed_integra.Executor.Report.{Args, Host, fifo, json, fifo_kind, complete, Ended}
use tcd_oran_testbed_integra.Executor.Checks.{
  admit, load_source, required_source_pass, check_mode, injected_start, ◌>>=◌, ◌>>◌, refuse_if,
  or_refuse,
}
use tcd_oran_testbed_integra.Executor.Main.{
  main, conclude, execute, is_early, is_stale, max_age_ns, fire, after_write, closing, write_result,
  success,
}
use tcd_oran_testbed_integra.Executor.Laws.{IsTruthful, main-IsTruthful}
use tcd_oran_testbed_integra.Executor.Admitted.{IsAdmitted, main-IsAdmitted}
use tcd_oran_testbed_integra.Executor.Unreported.{IsUnreported, cleared, main-IsUnreported}

abbrev decimal_of : Json → Option ℕ
decimal_of (number n) = some (n * 1000000)
decimal_of (text t) = some 800000000
decimal_of _ = none

abbrev int_of : Json → Option ℤ
int_of (number n) = some (pos n)
int_of _ = none

abbrev source : Fields
source = field "selection" (text (codes "latest_50_complete_contiguous_samples")) (
    field "selected_complete_count" (number 50) (
      field "stationarity_window_binding_gate" (text (codes "PASS")) (
        field "output_stationarity_gate" (text (codes "PASS")) (
          field "freshness_gate" (text (codes "PASS")) (
            field "precontrol_admission_gate" (text (codes "PASS")) (
              field "latest_sample_timestamp_utc_ns" (number 1000) (
                field "decision_utc_ns" (number 2000)
                  (field "maximum_allowed_age_ms" (number 800) close))))))))

abbrev args : Args
args = record {
  precontrol = json (object source);
  mode = fifo;
  max_age_ms = codes "800";
  executor_start_utc_ns = none;
  fifo_path = some (codes "/run/fifo");
  trigger_token = codes "TRIGGER";
  control_authorization_token = some (codes "PROMPT12_T2_EXPLICIT_FIFO_CONTROL");
}

abbrev host : Host
host = record {
  output_exists = false;
  fifo_stat = fifo_kind;
  start_ns = 700000000;
  open_error = none;
  write = complete;
  close_fails = false;
}

abbrev occupied : Host
occupied = record host { output_exists = true }

triggered :
    main fixed decimal_of int_of args host
    ≡ record { report = some success; rc = some 0; writes = (codes "TRIGGER" ++ (10 ∷ [])) ∷ [] }
unfolding main conclude execute is_early is_stale max_age_ns fire after_write closing write_result
    admit load_source required_source_pass check_mode injected_start ◌>>=◌ ◌>>◌ refuse_if or_refuse
    get is_text is_number
triggered = refl

main-IsTruthful_example :
    IsTruthful complete (main fixed decimal_of int_of args host).writes success
main-IsTruthful_example =
    main-IsTruthful fixed decimal_of int_of args host (λ i. (triggered i).report)

exact : (x : ℕ) → (x == 800000000) ≡ true → max_age_ns fixed decimal_of int_of x ≡ 800000000
unfolding max_age_ns
exact x h = omega (arith, (==_iff x 800000000).0 h)

written : (main fixed decimal_of int_of args host).writes ≢ []
written e =
    let f = ap (λ (x : Ended). x.writes) triggered in
    let g : (codes "TRIGGER" ++ (10 ∷ [])) ∷ [] ≡ [] = sym f ∙ e in cc g

main-IsAdmitted_example :
    IsAdmitted fixed decimal_of int_of args host
    × ((main fixed decimal_of int_of args host).writes ≡ (codes "TRIGGER" ++ (10 ∷ [])) ∷ [])
main-IsAdmitted_example = main-IsAdmitted fixed decimal_of int_of args host written exact

main-IsUnreported_example :
    IsUnreported
      (main fixed decimal_of int_of args occupied)
      (main fixed decimal_of int_of args (cleared occupied))
main-IsUnreported_example = main-IsUnreported occupied refl fixed decimal_of int_of args
