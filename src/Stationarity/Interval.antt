-- ===== src/Stationarity/Interval.antt =====
-- The rows of the receiver log and the tests on one or two of them
-- (scripts/experiment-harness/evaluate-output-stationarity.py).
use tcd_oran_testbed_integra.Base.{
  ℕ, ◌-◌, leb, Bool, true, false, not, String, Result, ok, ◌>>=◌, ◌>>◌, require, if◌then◌else◌,
}
use text.Mathlib.Text.{◌==◌ as str_eq}
use tcd_oran_testbed_integra.Stationarity.Decimals.{Decimals, at_most}

-- `mode`, with the origin of time that only post-step has.
pub data Mode : Type 0 where
  initial_pre_step : Mode
  post_step : (t0_ns : ℕ) → Mode

module _ (D : Decimals) where
  -- An `iperfInterval` that has passed the schema: the fields that are read.
  pub record Interval : Type 0 where
    pub experiment_id : String
    pub run_id : String
    pub record_id : String
    pub interval_class : String
    pub rx_wall_ns : ℕ
    pub rx_mono_ns : ℕ
    pub interval_start_s : D.Number
    pub interval_end_s : D.Number
    pub interval_duration_s : D.Number
    pub throughput_kbit_s : D.Number

  unfoldable pub decimal_value : D.Number → Result D.Number
  decimal_value value = do require (D.is_finite value) "non-finite decimal input"; ok value

  unfoldable pub exact_duration_ns : D.Number → Result ℕ
  exact_duration_ns value = do
    seconds ← decimal_value value
    require (D.less (D.decimal 0) seconds) "interval duration must be positive"
    let scaled = D.mul seconds (D.decimal 1000000000)
    let integral = D.to_integral_value scaled
    require (D.same scaled integral) "interval duration is not exactly representable in nanoseconds"
    ok (D.int integral)

  unfoldable pub is_complete : Interval → Result Bool
  is_complete row = if not (str_eq row.interval_class "complete") then ok false else do
    duration ← decimal_value row.interval_duration_s
    ok (at_most D (D.magnitude (D.sub duration D.fifth)) D.micro)

  unfoldable pub observed_bounds : Interval → Result (ℕ × ℕ)
  observed_bounds row = do
    duration_ns ← exact_duration_ns row.interval_duration_s
    require (leb duration_ns row.rx_wall_ns) "derived observed interval start is negative"
    ok (row.rx_wall_ns - duration_ns, row.rx_wall_ns)

  -- `eligible`, for a row that is complete
  unfoldable pub starts_after : Mode → Interval → Result Bool
  starts_after initial_pre_step row = ok true
  starts_after (post_step t0_ns) row = do bounds ← observed_bounds row; ok (leb t0_ns bounds.0)

  unfoldable pub eligible : Mode → Interval → Result Bool
  eligible mode row = do
    complete ← is_complete row
    if not complete then ok false else starts_after mode row

  unfoldable pub contiguous : Interval → Interval → Result Bool
  contiguous previous current = do
    previous_end ← decimal_value previous.interval_end_s
    current_start ← decimal_value current.interval_start_s
    ok (at_most D (D.magnitude (D.sub current_start previous_end)) D.micro)
