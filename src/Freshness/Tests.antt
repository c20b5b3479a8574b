-- ===== src/Freshness/Tests.antt =====
-- A run of the gate, and the theorems at concrete data.
use Prim.Native.String.{String, ◌++◌ as str_append}
use tcd_oran_testbed_integra.Base.{
  ℕ, zero, suc, ◌+◌, ◌*◌, ◌≡◌, refl, true, false, Option, none, some, List, [], ◌∷◌, ◌++◌, ok,
  if◌then◌else◌,
}
use tcd_oran_testbed_integra.Base.Text.{
  Text, codes, text_eq, strip, lstrip, is_space, splitlines, lines_from,
}
use tcd_oran_testbed_integra.Base.Integers.{ℤ, pos}
use tcd_oran_testbed_integra.Base.Json.{Fields}
use tcd_oran_testbed_integra.Stationarity.Fixed.{fixed, sample}
use tcd_oran_testbed_integra.Stationarity.Interval.{
  eligible, contiguous, is_complete, starts_after, decimal_value,
}
use tcd_oran_testbed_integra.Stationarity.Load.{
  load_intervals, check_rows, check_order, validate_identity, allowed_interval_classes,
}
use tcd_oran_testbed_integra.Executor.Checks.{required_source_pass}
use tcd_oran_testbed_integra.Freshness.Policy.{
  load_policy, read_lines, check_policy, check_values, value, lookup,
}
use tcd_oran_testbed_integra.Freshness.Rows.{Line, blank, json_row}
use tcd_oran_testbed_integra.Freshness.Main.{Args, main, result_fields, verdict_of}
use tcd_oran_testbed_integra.Stationarity.Evaluate.{
  gate, reason_of, origin, slice, insufficient, mean_shift_of, stationarity_pass, duration_pass,
  evaluated, first_window, second_window, evaluate_windows, evaluate_run, evaluate,
}
use tcd_oran_testbed_integra.Stationarity.Latest.{
  push, last_run, joins, collect_runs, latest_run, latest_eligible_run,
}
use tcd_oran_testbed_integra.Stationarity.Window.{
  all_complete, check_next, all_contiguous, item_of, check_span, validate_window_geometry,
  throughputs, mean_of, variance_of, window_metrics, json_metrics,
}
use tcd_oran_testbed_integra.Stationarity.Window.{
  first_row as window_first, last_row as window_last,
}
use tcd_oran_testbed_integra.Freshness.Rows.{
  read_rows, is_selected, check_row, complete_rows, load_rows, adjoins, has_no_gap, first_row,
  last_row, validate_window,
}
use tcd_oran_testbed_integra.Freshness.Main.{
  is_pass, last_fifty, consecutive, select, official_report, is_bound, admission_pass, report_pass,
  is_fresh, check_binding,
}
use tcd_oran_testbed_integra.Freshness.Handover.{
  IsQualified, main-IsQualified, required_source_pass-main,
}

-- A text of i letters.
abbrev name_of : ℕ → String
name_of zero = ""
name_of (suc i) = str_append "x" (name_of i)

abbrev line : ℕ → Line fixed
line i = json_row (record {
  interval = record (sample i) { record_id = name_of i };
  timestamp_utc_ns = (i + 1) * 200000000;
})

abbrev log_lines : ℕ → ℕ → List (Line fixed)
log_lines i zero = []
log_lines i (suc n) = line i ∷ log_lines (i + 1) n

abbrev policy : Text
policy =
    codes "# frozen"
    ++ (10 ∷ codes "PRIMARY_OUTPUT_TS_MS=200")
    ++ (10 ∷ codes "STATIONARITY_WINDOW_S=5")
    ++ (10 ∷ codes "STATIONARITY_SAMPLES_PER_WINDOW=25")
    ++ (10 ∷ codes "STATIONARITY_WINDOW_COUNT=2")
    ++ (10 ∷ codes "FINAL_GATE_SELECTION=LATEST_50_COMPLETE_CONTIGUOUS_SAMPLES")
    ++ (10 ∷ codes "FINAL_GATE_MAX_AGE_AT_DOCKER_START_MS=800")

abbrev number_of : Text → ℕ
number_of t =
    if text_eq t (codes "200")
    then 200
    else if text_eq t (codes "800")
    then 800
    else if text_eq t (codes "25")
    then 25
    else if text_eq t (codes "5")
    then 5
    else 2

abbrev int_of : Text → Option ℤ
int_of t = some (pos (number_of t))

abbrev decimal_of : Text → Option ℕ
decimal_of t = some (number_of t * 1000000)

abbrev args : Args fixed
args = record {
  inputs_exist = true;
  output_exists = false;
  policy = policy;
  lines = blank ∷ log_lines 8 52;
  experiment_id = "experiment";
  run_id = "run";
  cutoff_utc_ns = none;
  decision_utc_ns = none;
  clock = 12000000000 + 700000000;
}

abbrev result : Fields
result =
    result_fields fixed 12700000000 12000000000 (codes "number") (verdict_of fixed true true true)
      50

admitted : main fixed int_of decimal_of args ≡ ok (result, 0)
unfolding gate reason_of origin slice insufficient mean_shift_of stationarity_pass duration_pass
    evaluated first_window second_window evaluate_windows evaluate_run evaluate push last_run joins
    collect_runs latest_run latest_eligible_run all_complete check_next all_contiguous item_of
    check_span validate_window_geometry throughputs mean_of variance_of window_metrics json_metrics
    read_rows is_selected check_row complete_rows load_rows adjoins has_no_gap first_row last_row
    validate_window is_pass last_fifty consecutive select official_report is_bound admission_pass
    report_pass is_fresh check_binding window_first window_last main load_policy read_lines
    check_policy check_values value lookup strip lstrip is_space splitlines lines_from
    load_intervals check_rows check_order validate_identity allowed_interval_classes eligible
    contiguous is_complete starts_after decimal_value verdict_of result_fields
admitted = refl

main-IsQualified_example : IsQualified fixed int_of decimal_of args
main-IsQualified_example = main-IsQualified fixed int_of decimal_of args admitted

required_source_pass-main_example : required_source_pass result ≡ true
required_source_pass-main_example = required_source_pass-main fixed int_of decimal_of args admitted
