-- ===== src/Stationarity/Evaluate.antt =====
-- The evaluation of the last two windows, its report and main
-- (scripts/experiment-harness/evaluate-output-stationarity.py).
use tcd_oran_testbed_integra.Base.{
  ℕ, ◌-◌, ◌*◌, ◌/◌, ◌%◌, ltb, leb, Bool, true, false, not, ◌&&◌, Option, none, some, List, length,
  take, drop, String, Result, ok, err, ◌>>=◌, ◌>>◌, require, if◌then◌else◌,
}
use tcd_oran_testbed_integra.Stationarity.Decimals.{Decimals, at_most}
use tcd_oran_testbed_integra.Stationarity.Interval.{
  Mode, initial_pre_step, post_step, Interval, decimal_value, observed_bounds,
}
use tcd_oran_testbed_integra.Stationarity.Load.{ActuatorEvent, load_intervals, load_post_t0}
use tcd_oran_testbed_integra.Stationarity.Latest.{latest_eligible_run}
use tcd_oran_testbed_integra.Stationarity.Window.{
  Metrics, JsonMetrics, json_metrics, window_metrics, last_row,
}

pub data Gate : Type 0 where
  pass fail not_evaluated : Gate

pub data Reason : Type 0 where
  all_pass insufficient_windows gate_fail : Reason

unfoldable pub gate : Bool → Gate
gate true = pass
gate false = fail

unfoldable pub reason_of : Bool → Reason
reason_of true = all_pass
reason_of false = gate_fail

-- The choices of --mode.
pub data ModeName : Type 0 where
  initial_pre_step_mode post_step_mode : ModeName

-- `option is not None`
unfoldable pub is_given {ℓ} : {A : Type ℓ} → Option A → Bool
is_given none = false
is_given (some a) = true

-- `t_applied_readback_utc_ns`
unfoldable pub origin : Mode → Option ℕ
origin initial_pre_step = none
origin (post_step t0_ns) = some t0_ns

-- `run[start:end]`
unfoldable pub slice {ℓ} : {A : Type ℓ} → ℕ → ℕ → List A → List A
slice start end xs = take (end - start) (drop start xs)

module _ (D : Decimals) where
  -- The report, less its entries that are the same in every report.
  pub record Report : Type 0 where
    pub eligible_run_sample_count : ℕ
    pub full_window_count : ℕ
    pub trailing_eligible_sample_count : ℕ
    pub t_applied_readback_utc_ns : Option ℕ
    pub window_pair_index : Option (ℕ × ℕ)
    pub w1 : Option (JsonMetrics D)
    pub w2 : Option (JsonMetrics D)
    pub mean_shift_pct : Option String
    pub cv_w1_gate : Gate
    pub cv_w2_gate : Gate
    pub mean_shift_gate : Gate
    pub output_stationarity_gate : Gate
    pub minimum_phase_duration_gate : Gate
    pub statistical_phase_candidate : Gate
    pub reason : Reason

  unfoldable pub insufficient : Mode → List (Interval D) → Report
  insufficient mode run = record {
    eligible_run_sample_count = length run;
    full_window_count = length run / 25;
    trailing_eligible_sample_count = length run % 25;
    t_applied_readback_utc_ns = origin mode;
    window_pair_index = none;
    w1 = none;
    w2 = none;
    mean_shift_pct = none;
    cv_w1_gate = not_evaluated;
    cv_w2_gate = not_evaluated;
    mean_shift_gate = not_evaluated;
    output_stationarity_gate = fail;
    minimum_phase_duration_gate = fail;
    statistical_phase_candidate = fail;
    reason = insufficient_windows;
  }

  unfoldable pub mean_shift_of : Metrics D → Metrics D → D.Number
  mean_shift_of m1 m2 =
      D.div (D.mul (D.decimal 100) (D.magnitude (D.sub m2.mean_kbit_s m1.mean_kbit_s)))
        m1.mean_kbit_s

  unfoldable pub stationarity_pass : Metrics D → Metrics D → Bool
  stationarity_pass m1 m2 =
      at_most D m1.cv_pct (D.decimal 5)
      && at_most D m2.cv_pct (D.decimal 5)
      && at_most D (mean_shift_of m1 m2) (D.decimal 5)

  -- The duration of the phase is measured at the end of the second window.
  unfoldable pub duration_pass : Mode → List (Interval D) → Result Bool
  duration_pass initial_pre_step w2 = do
    final ← last_row D w2
    final_end_s ← decimal_value D final.interval_end_s
    ok (at_most D (D.decimal 11) final_end_s)
  duration_pass (post_step t0_ns) w2 = do
    final ← last_row D w2
    bounds ← observed_bounds D final
    ok (leb 10000000000 (bounds.1 - t0_ns))

  unfoldable pub evaluated : Mode → List (Interval D) → Metrics D → Metrics D → Bool → Report
  evaluated mode run m1 m2 duration = record {
    eligible_run_sample_count = length run;
    full_window_count = length run / 25;
    trailing_eligible_sample_count = length run % 25;
    t_applied_readback_utc_ns = origin mode;
    window_pair_index = some (length run / 25 - 1, length run / 25);
    w1 = some (json_metrics D m1);
    w2 = some (json_metrics D m2);
    mean_shift_pct = some (D.decimal_text (mean_shift_of m1 m2));
    cv_w1_gate = gate (at_most D m1.cv_pct (D.decimal 5));
    cv_w2_gate = gate (at_most D m2.cv_pct (D.decimal 5));
    mean_shift_gate = gate (at_most D (mean_shift_of m1 m2) (D.decimal 5));
    output_stationarity_gate = gate (stationarity_pass m1 m2);
    minimum_phase_duration_gate = gate duration;
    statistical_phase_candidate = gate (stationarity_pass m1 m2 && duration);
    reason = reason_of (stationarity_pass m1 m2 && duration);
  }

  unfoldable pub first_window : List (Interval D) → List (Interval D)
  first_window run = slice ((length run / 25 - 1 - 1) * 25) ((length run / 25 - 1) * 25) run

  unfoldable pub second_window : List (Interval D) → List (Interval D)
  second_window run = slice ((length run / 25 - 1) * 25) ((length run / 25) * 25) run

  -- `evaluate`, from the second window on.
  unfoldable pub evaluate_windows : Mode → List (Interval D) → Result Report
  evaluate_windows mode run = do
    m1 ← window_metrics D (first_window run)
    m2 ← window_metrics D (second_window run)
    require (D.less (D.decimal 0) m1.mean_kbit_s) "W1 mean throughput is zero or negative"
    duration ← duration_pass mode (second_window run)
    ok (evaluated mode run m1 m2 duration)

  unfoldable pub evaluate_run : Mode → List (Interval D) → Result Report
  evaluate_run mode run =
      if ltb (length run / 25) 2 then ok (insufficient mode run) else evaluate_windows mode run

  unfoldable pub evaluate : List (Interval D) → Mode → Result Report
  evaluate rows mode = do run ← latest_eligible_run D mode rows; evaluate_run mode run

  -- The arguments of main that the code tests, with what the files they name hold.
  pub record Args : Type 0 where
    pub output_exists : Bool
    pub mode : ModeName
    pub rows : List (Interval D)
    pub actuator_timeline : Option (List ActuatorEvent)
    pub control_index : Option ℕ
    pub experiment_id : String
    pub run_id : String

  -- The options that each mode forbids or requires, then the mode with its origin of time.
  unfoldable pub check_options : Args → Result (Unit {0})
  check_options args = options args.mode
    where
      options : ModeName → Result (Unit {0})
      options initial_pre_step_mode = do
        require (not (is_given args.actuator_timeline))
            "actuator timeline forbidden for initial-pre-step"
        require (not (is_given args.control_index)) "control-index forbidden for initial-pre-step"
      options post_step_mode = do
        require (is_given args.actuator_timeline) "actuator timeline required for post-step"
        require (is_given args.control_index) "control-index required for post-step"

  unfoldable pub post_mode : Option (List ActuatorEvent) → Option ℕ → String → String → Result Mode
  post_mode (some timeline) (some control_index) experiment_id run_id = do
    t0_ns ← load_post_t0 timeline experiment_id run_id control_index
    ok (post_step t0_ns)
  post_mode none control_index experiment_id run_id = err "TypeError"
  post_mode (some timeline) none experiment_id run_id = err "TypeError"

  unfoldable pub mode_of : Args → Result Mode
  mode_of args = by_name args.mode
    where
      by_name : ModeName → Result Mode
      by_name initial_pre_step_mode = ok initial_pre_step
      by_name post_step_mode =
          post_mode args.actuator_timeline args.control_index args.experiment_id args.run_id

  -- `main`, whose report is written to a file that is not there yet.
  unfoldable pub main : Args → Result Report
  main args = do
    require (not args.output_exists) "output already exists"
    check_options args
    intervals ← load_intervals D args.rows args.experiment_id args.run_id
    mode ← mode_of args
    evaluate intervals mode
