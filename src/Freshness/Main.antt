-- ===== src/Freshness/Main.antt =====
-- The gate and its result
-- (scripts/experiment-harness/prompt12-precontrol-freshness.py).
use package.text.Mathlib.Text.{◌==◌ as str_eq}
use tcd_oran_testbed_integra.Base.{
  ℕ, ◌-◌, leb, Bool, true, false, not, ◌&&◌, Option, none, some, List, map, length, take, drop,
  String, Result, ok, err, ◌>>=◌, ◌>>◌, require, if◌then◌else◌,
}
use tcd_oran_testbed_integra.Base.Text.{Text, codes}
use tcd_oran_testbed_integra.Base.Integers.{ℤ}
use tcd_oran_testbed_integra.Base.Json.{Json, Fields, text, number, field, close}
use tcd_oran_testbed_integra.Stationarity.Decimals.{Decimals}
use tcd_oran_testbed_integra.Stationarity.Interval.{Interval, initial_pre_step}
use tcd_oran_testbed_integra.Stationarity.Load.{load_intervals}
use tcd_oran_testbed_integra.Stationarity.Window.{JsonMetrics}
use tcd_oran_testbed_integra.Stationarity.Evaluate.{
  Gate, pass, fail, not_evaluated, Report, evaluate,
}
use tcd_oran_testbed_integra.Freshness.Policy.{load_policy}
use tcd_oran_testbed_integra.Freshness.Rows.{
  Row, Line, load_rows, adjoins, validate_window, first_row, last_row,
}

unfoldable pub is_pass : Gate → Bool
is_pass pass = true
is_pass fail = false
is_pass not_evaluated = false

abbrev gate_text : Bool → Json
gate_text true = text (codes "PASS")
gate_text false = text (codes "FAIL")

abbrev pub or_type_error : {A : Type 0} → Option A → Result A
or_type_error none = err "TypeError"
or_type_error (some a) = ok a

abbrev pub or_value_error : {A : Type 0} → Option A → Result A
or_value_error none = err "InvalidOperation"
or_value_error (some a) = ok a

-- `except Exception as exc: raise FreshnessError(...)`
abbrev official : {A : Type 0} → Result A → Result A
official (ok a) = ok a
official (err reason) = err "official stationarity evaluator failed in-process"

abbrev pub decision_time : Option ℕ → ℕ → ℕ
decision_time none clock = clock
decision_time (some decision) clock = decision

module _ (D : Decimals) where
  -- The arguments, with what the files hold and the clock when it is read.
  pub record Args : Type 0 where
    pub inputs_exist : Bool
    pub output_exists : Bool
    pub policy : Text
    pub lines : List (Line D)
    pub experiment_id : String
    pub run_id : String
    pub cutoff_utc_ns : Option ℕ
    pub decision_utc_ns : Option ℕ
    pub clock : ℕ

  -- `complete[-50:]`
  unfoldable pub last_fifty : List (Row D) → List (Row D)
  last_fifty complete = drop (length complete - 50) complete

  unfoldable pub consecutive : List (Row D) → List (Row D) → Result (Unit {0})
  consecutive w1 w2 = do
    left ← last_row D w1
    right ← first_row D w2
    require (adjoins D left right) "W1 and W2 are not consecutive"

  unfoldable pub select : List (Row D) → Result (List (Row D))
  select complete = do
    require (leb 50 (length complete)) "fewer than 50 complete eligible samples"
    let selected = last_fifty complete
    validate_window D (take 25 selected)
    validate_window D (drop 25 selected)
    consecutive (take 25 selected) (drop 25 selected)
    ok selected

  -- `row.interval`, on which the evaluator works
  abbrev pub interval_of : Row D → Interval D
  interval_of row = row.interval

  unfoldable pub official_report : List (Row D) → String → String → Result (Report D)
  official_report selected experiment_id run_id = official (do
    rows ← load_intervals D (map interval_of selected) experiment_id run_id
    evaluate D rows initial_pre_step)

  -- Whether a window of the report is the window that was selected.
  unfoldable pub is_bound : JsonMetrics D → List (Row D) → Result Bool
  is_bound metrics window = do
    first ← first_row D window
    final ← last_row D window
    ok (
        str_eq metrics.json_record_id_first first.record_id
        && str_eq metrics.json_record_id_last final.record_id)

  -- The gates of the result.
  pub record Verdict : Type 0 where
    pub binding_pass : Bool
    pub stationarity_pass : Bool
    pub freshness_pass : Bool

  unfoldable pub admission_pass : Verdict → Bool
  admission_pass v = v.stationarity_pass && v.freshness_pass

  unfoldable pub report_pass : Report D → Bool
  report_pass report =
      is_pass report.cv_w1_gate
      && is_pass report.cv_w2_gate
      && is_pass report.mean_shift_gate
      && is_pass report.output_stationarity_gate
      && is_pass report.minimum_phase_duration_gate

  -- The age lies between 0 and the maximum.
  unfoldable pub is_fresh : ℕ → ℕ → D.Number → Bool
  is_fresh decision latest max_age_ms =
      leb latest decision && leb (decision - latest) (D.int (D.mul max_age_ms (D.decimal 1000000)))

  -- Whether both windows of the report are the ones that were selected.
  unfoldable pub check_binding : List (Row D) → Report D → Result Bool
  check_binding selected report = do
    w1 ← or_type_error report.w1
    b1 ← is_bound w1 (take 25 selected)
    w2 ← or_type_error report.w2
    b2 ← is_bound w2 (drop 25 selected)
    ok (b1 && b2)

  unfoldable pub verdict_of : Bool → Bool → Bool → Verdict
  verdict_of binding report_passes fresh = record {
    binding_pass = binding;
    stationarity_pass = binding && report_passes;
    freshness_pass = fresh;
  }

  -- The entries of the result that its readers use, as the JSON that is written.
  unfoldable pub result_fields : ℕ → ℕ → Text → Verdict → ℕ → Fields
  result_fields decision latest max_age v selected_count =
      field "selection" (text (codes "latest_50_complete_contiguous_samples")) (
        field "selected_complete_count" (number selected_count) (
          field "decision_utc_ns" (number decision) (
            field "latest_sample_timestamp_utc_ns" (number latest) (
              field "maximum_allowed_age_ms" (text max_age) (
                field "stationarity_window_binding_gate" (gate_text v.binding_pass) (
                  field "output_stationarity_gate" (gate_text v.stationarity_pass) (
                    field "freshness_gate" (gate_text v.freshness_pass) (
                      field "precontrol_admission_gate" (gate_text (admission_pass v)) close))))))))

  module _ (int_of : Text → Option ℤ) (decimal_of : Text → Option D.Number) where
    -- The result that is written, and the exit code.
    unfoldable pub main : Args → Result (Fields × ℕ)
    main args = do
      require args.inputs_exist "required input missing"
      require (not args.output_exists) "output already exists"
      policy ← load_policy D int_of decimal_of args.policy
      loaded ← load_rows D args.lines args.experiment_id args.run_id args.cutoff_utc_ns
      selected ← select loaded.1
      report ← official_report selected args.experiment_id args.run_id
      binding ← check_binding selected report
      final ← last_row D selected
      let decision = decision_time args.decision_utc_ns args.clock
      max_age ← or_value_error (decimal_of policy.max_age_ms)
      let fresh = is_fresh decision final.timestamp_utc_ns max_age
      let verdict = verdict_of binding (report_pass report) fresh
      ok (
        result_fields decision final.timestamp_utc_ns (codes (D.str max_age)) verdict
            (length selected),
        if admission_pass verdict then 0 else 10,
      )
