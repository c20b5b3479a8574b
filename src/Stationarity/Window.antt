-- ===== src/Stationarity/Window.antt =====
-- The windows of 25 samples: their geometry and their statistics
-- (scripts/experiment-harness/evaluate-output-stationarity.py).
use tcd_oran_testbed_integra.Base.{
  ◌==◌, Option, none, some, List, [], ◌∷◌, map, length, String, Result, ok, err, ◌>>=◌, ◌>>◌,
  require,
}
use tcd_oran_testbed_integra.Stationarity.Decimals.{Decimals, at_most, sum_from}
use tcd_oran_testbed_integra.Stationarity.Interval.{
  Interval, decimal_value, is_complete, contiguous,
}
use tcd_oran_testbed_integra.Stationarity.Latest.{last?}

module _ (D : Decimals) where
  unfoldable pub all_complete : List (Interval D) → Result (Unit {0})
  all_complete [] = ok tt
  all_complete (row ∷ rows) = do
    complete ← is_complete D row
    require complete "non-complete interval inside stationarity window"
    all_complete rows

  unfoldable pub check_next : Interval D → List (Interval D) → Result (Unit {0})
  check_next row [] = ok tt
  check_next row (following ∷ rows) = do
    joined ← contiguous D row following
    require joined "stationarity window contains a timing gap"

  unfoldable pub all_contiguous : List (Interval D) → Result (Unit {0})
  all_contiguous [] = ok tt
  all_contiguous (row ∷ rows) = do check_next row rows; all_contiguous rows

  -- `window[0]` and `window[-1]`
  unfoldable pub first_row : List (Interval D) → Result (Interval D)
  first_row [] = err "IndexError"
  first_row (row ∷ rows) = ok row

  unfoldable pub item_of : Option (Interval D) → Result (Interval D)
  item_of none = err "IndexError"
  item_of (some row) = ok row

  unfoldable pub last_row : List (Interval D) → Result (Interval D)
  last_row window = item_of (last? window)

  -- The check of the span, the last of validate_window_geometry.
  unfoldable pub check_span : List (Interval D) → Result (Unit {0})
  check_span window = do
    first ← first_row window
    start ← decimal_value D first.interval_start_s
    final ← last_row window
    end ← decimal_value D final.interval_end_s
    require (at_most D (D.magnitude (D.sub (D.sub end start) (D.decimal 5))) D.micro)
        "stationarity window does not span 5 seconds"

  unfoldable pub validate_window_geometry : List (Interval D) → Result (Unit {0})
  validate_window_geometry window = do
    require (length window == 25) "stationarity window does not contain 25 samples"
    all_complete window
    all_contiguous window
    check_span window

  pub record Metrics : Type 0 where
    pub mean_kbit_s : D.Number
    pub population_std_kbit_s : D.Number
    pub cv_pct : D.Number
    pub record_id_first : String
    pub record_id_last : String
    pub interval_start_s : D.Number
    pub interval_end_s : D.Number

  unfoldable pub throughputs : List (Interval D) → Result (List D.Number)
  throughputs [] = ok []
  throughputs (row ∷ rows) = do
    value ← decimal_value D row.throughput_kbit_s
    values ← throughputs rows
    ok (value ∷ values)

  unfoldable pub mean_of : List D.Number → D.Number
  mean_of values = D.div (sum_from D (D.decimal 0) values) (D.decimal (length values))

  unfoldable pub variance_of : D.Number → List D.Number → D.Number
  variance_of mean values =
      D.div
        (sum_from D (D.decimal 0)
          (map (λ value. D.mul (D.sub value mean) (D.sub value mean)) values))
        (D.decimal (length values))

  unfoldable pub window_metrics : List (Interval D) → Result Metrics
  window_metrics window = do
    validate_window_geometry window
    values ← throughputs window
    let mean = mean_of values
    require (D.less (D.decimal 0) mean) "window mean throughput is zero or negative"
    let std = D.sqrt (variance_of mean values)
    first ← first_row window
    final ← last_row window
    start ← decimal_value D first.interval_start_s
    end ← decimal_value D final.interval_end_s
    ok (record {
      mean_kbit_s = mean;
      population_std_kbit_s = std;
      cv_pct = D.div (D.mul (D.decimal 100) std) mean;
      record_id_first = first.record_id;
      record_id_last = final.record_id;
      interval_start_s = start;
      interval_end_s = end;
    })

  -- The metrics as the report has them, in texts.
  pub record JsonMetrics : Type 0 where
    pub json_mean_kbit_s : String
    pub json_population_std_kbit_s : String
    pub json_cv_pct : String
    pub json_record_id_first : String
    pub json_record_id_last : String
    pub json_interval_start_s : String
    pub json_interval_end_s : String

  unfoldable pub json_metrics : Metrics → JsonMetrics
  json_metrics metrics = record {
    json_mean_kbit_s = D.decimal_text metrics.mean_kbit_s;
    json_population_std_kbit_s = D.decimal_text metrics.population_std_kbit_s;
    json_cv_pct = D.decimal_text metrics.cv_pct;
    json_record_id_first = metrics.record_id_first;
    json_record_id_last = metrics.record_id_last;
    json_interval_start_s = D.decimal_text metrics.interval_start_s;
    json_interval_end_s = D.decimal_text metrics.interval_end_s;
  }
