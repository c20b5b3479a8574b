-- ===== src/Stationarity/Tests.antt =====
-- Witnesses for the evaluation of stationarity, with decimals of six fixed places.
use tcd_oran_testbed_integra.Base.{
  arith, ℕ, none, some, List, [], ◌∷◌, ok, Option, String, ◌≡◌, refl,
}
use tcd_oran_testbed_integra.Stationarity.Fixed.{fixed, sample, samples}
use tcd_oran_testbed_integra.Stationarity.Interval.{
  initial_pre_step, Interval, eligible, contiguous, is_complete, starts_after, decimal_value,
}
use tcd_oran_testbed_integra.Stationarity.Latest.{
  latest_eligible_run, latest_run, collect_runs, push, last_run, joins,
}
use tcd_oran_testbed_integra.Stationarity.Window.{
  JsonMetrics, json_metrics, window_metrics, validate_window_geometry, all_complete, all_contiguous,
  check_next, check_span, first_row, last_row, item_of, throughputs, mean_of, variance_of,
}
use tcd_oran_testbed_integra.Stationarity.Evaluate.{
  Report, pass, all_pass, evaluate, evaluate_run, evaluate_windows, evaluated, insufficient,
  first_window, second_window, slice, stationarity_pass, mean_shift_of, duration_pass, gate,
  reason_of, origin,
}
use tcd_oran_testbed_integra.Stationarity.Load.{
  ActuatorEvent, load_post_t0, check_timeline, validate_identity, is_after, item, item_at,
  is_triplet, is_pass,
}
use tcd_oran_testbed_integra.Stationarity.Geometry.{windows-check_span}
use tcd_oran_testbed_integra.Stationarity.Applied.{IsApplied, load_post_t0-IsApplied}
use tcd_oran_testbed_integra.Stationarity.Verdict.{IsStationary, evaluate-IsStationary}
use tcd_oran_testbed_integra.Stationarity.LatestRun.{IsLatest, latest_eligible_run-IsLatest}

-- A row that is no complete interval cuts the rows in two runs.
abbrev partial : Interval fixed
partial = record (sample 9) { interval_class = "partial_terminal" }

abbrev rows : List (Interval fixed)
rows = sample 8 ∷ partial ∷ samples 10 53

found : latest_eligible_run fixed initial_pre_step rows ≡ ok (samples 10 53)
unfolding latest_eligible_run latest_run collect_runs push last_run joins eligible contiguous
    is_complete starts_after decimal_value
found = refl

latest_eligible_run-IsLatest_example :
    IsLatest (eligible fixed initial_pre_step) (contiguous fixed) rows (samples 10 53)
latest_eligible_run-IsLatest_example =
    latest_eligible_run-IsLatest fixed initial_pre_step rows found

abbrev metrics : JsonMetrics fixed
metrics = record {
  json_mean_kbit_s = "number";
  json_population_std_kbit_s = "number";
  json_cv_pct = "number";
  json_record_id_first = "record";
  json_record_id_last = "record";
  json_interval_start_s = "number";
  json_interval_end_s = "number";
}

abbrev passing : Report fixed
passing = record {
  eligible_run_sample_count = 53;
  full_window_count = 2;
  trailing_eligible_sample_count = 3;
  t_applied_readback_utc_ns = none;
  window_pair_index = some (1, 2);
  w1 = some metrics;
  w2 = some metrics;
  mean_shift_pct = some "number";
  cv_w1_gate = pass;
  cv_w2_gate = pass;
  mean_shift_gate = pass;
  output_stationarity_gate = pass;
  minimum_phase_duration_gate = pass;
  statistical_phase_candidate = pass;
  reason = all_pass;
}

reported : evaluate fixed rows initial_pre_step ≡ ok passing
unfolding evaluate evaluate_run evaluate_windows evaluated insufficient latest_eligible_run
    latest_run collect_runs push last_run joins eligible contiguous is_complete starts_after
    decimal_value window_metrics validate_window_geometry all_complete all_contiguous check_next
    check_span first_row last_row item_of throughputs mean_of variance_of first_window second_window
    slice stationarity_pass mean_shift_of duration_pass gate reason_of origin json_metrics
reported = refl

evaluate-IsStationary_example : IsStationary fixed initial_pre_step rows
evaluate-IsStationary_example = evaluate-IsStationary fixed rows initial_pre_step reported refl

abbrev event : ℕ → String → Option String → ActuatorEvent
event time kind status = record {
  experiment_id = "experiment";
  run_id = "run";
  timestamp_utc_ns = time;
  event_type = kind;
  acknowledgement_status = status;
}

abbrev timeline : List ActuatorEvent
timeline =
    event 1 "command" none
    ∷ event 2 "applied_readback" none
    ∷ event 3 "acknowledgement" (some "PASS")
    ∷ event 14 "command" none
    ∷ event 15 "applied_readback" none
    ∷ event 17 "acknowledgement" (some "PASS")
    ∷ []

applied_at : load_post_t0 timeline "experiment" "run" 2 ≡ ok 15
unfolding load_post_t0 check_timeline validate_identity is_after item item_at is_triplet is_pass
applied_at = refl

load_post_t0-IsApplied_example : IsApplied timeline 2 15
load_post_t0-IsApplied_example = load_post_t0-IsApplied timeline "experiment" "run" 2 applied_at

windows-check_span_example :
    (validate_window_geometry fixed (first_window fixed (samples 10 53))
      ≡ check_span fixed (first_window fixed (samples 10 53)))
    × (validate_window_geometry fixed (second_window fixed (samples 10 53))
        ≡ check_span fixed (second_window fixed (samples 10 53)))
windows-check_span_example =
    windows-check_span fixed initial_pre_step rows (samples 10 53)
      (latest_eligible_run-IsLatest fixed initial_pre_step rows found) (omega arith)
