-- ===== src/Freshness/Rows.antt =====
-- load_rows and validate_window of scripts/experiment-harness/prompt12-precontrol-freshness.py,
-- for rows that have the fields of the schema.
use package.text.Mathlib.Text.{◌==◌ as str_eq}
use tcd_oran_testbed_integra.Base.{
  ℕ, ◌==◌, ltb, Bool, true, false, not, ◌&&◌, ◌||◌, Option, none, some, List, [], ◌∷◌, length,
  String, Result, ok, err, ◌>>=◌, ◌>>◌, require,
}
use tcd_oran_testbed_integra.Stationarity.Decimals.{Decimals}
use tcd_oran_testbed_integra.Stationarity.Interval.{Interval}
use tcd_oran_testbed_integra.Stationarity.Latest.{last?}

module _ (D : Decimals) where
  pub record Row : Type 0 where
    pub interval : Interval D
    pub open interval use *
    pub timestamp_utc_ns : ℕ

  -- A line of the log.
  pub data Line : Type 0 where
    blank not_json : Line
    json_row : Row → Line

  unfoldable pub read_rows : String → String → List Line → Result (List Row)
  read_rows experiment_id run_id [] = ok []
  read_rows experiment_id run_id (blank ∷ lines) = read_rows experiment_id run_id lines
  read_rows experiment_id run_id (not_json ∷ lines) = err "invalid JSON"
  read_rows experiment_id run_id (json_row row ∷ lines) = do
    require (str_eq row.experiment_id experiment_id) "experiment_id mismatch"
    require (str_eq row.run_id run_id) "run_id mismatch"
    rows ← read_rows experiment_id run_id lines
    ok (row ∷ rows)

  abbrev is_later : Option ℕ → ℕ → Bool
  is_later none ts = true
  is_later (some previous) ts = ltb previous ts

  abbrev is_cut_off : Option ℕ → ℕ → Bool
  is_cut_off none ts = false
  is_cut_off (some cutoff) ts = ltb cutoff ts

  -- A row that is not passed over.
  unfoldable pub is_selected : Option ℕ → Row → Bool
  is_selected cutoff row =
      str_eq row.interval_class "complete" && not (is_cut_off cutoff row.timestamp_utc_ns)

  unfoldable pub check_row : Option ℕ → Option ℕ → Row → Result (Unit {0})
  check_row cutoff previous row = do
    require (is_later previous row.timestamp_utc_ns)
        "canonical timestamp order is not strictly increasing"
    require (not (is_selected cutoff row) || D.same row.interval_duration_s D.fifth)
        "eligible complete interval duration is not 0.2 s"

  abbrev pub keep_row : Bool → Row → Result (List Row) → Result (List Row)
  keep_row selected row (err reason) = err reason
  keep_row true row (ok rows) = ok (row ∷ rows)
  keep_row false row (ok rows) = ok rows

  unfoldable pub complete_rows : Option ℕ → Option ℕ → List Row → Result (List Row)
  complete_rows cutoff previous [] = ok []
  complete_rows cutoff previous (row ∷ rows) = do
    check_row cutoff previous row
    keep_row (is_selected cutoff row) row (complete_rows cutoff (some row.timestamp_utc_ns) rows)

  -- load_rows: all rows, and those that are complete and not cut off
  unfoldable pub load_rows : List Line → String → String → Option ℕ → Result (List Row × List Row)
  load_rows lines experiment_id run_id cutoff = do
    all_rows ← read_rows experiment_id run_id lines
    complete ← complete_rows cutoff none all_rows
    ok (all_rows, complete)

  unfoldable pub adjoins : Row → Row → Bool
  adjoins left right = D.same left.interval_end_s right.interval_start_s

  abbrev next_adjoins : Row → List Row → Bool
  next_adjoins row [] = true
  next_adjoins row (next ∷ rows) = adjoins row next

  unfoldable pub has_no_gap : List Row → Bool
  has_no_gap [] = true
  has_no_gap (row ∷ rows) = next_adjoins row rows && has_no_gap rows

  -- `window[0]` and `window[-1]`
  abbrev pub index_error : Option Row → Result Row
  index_error none = err "IndexError"
  index_error (some row) = ok row

  abbrev head? : List Row → Option Row
  head? [] = none
  head? (row ∷ rows) = some row

  unfoldable pub first_row : List Row → Result Row
  first_row rows = index_error (head? rows)

  unfoldable pub last_row : List Row → Result Row
  last_row rows = index_error (last? rows)

  unfoldable pub validate_window : List Row → Result (Unit {0})
  validate_window window = do
    require (length window == 25) "stationarity window does not contain 25 samples"
    require (has_no_gap window) "selected stationarity window contains a logical timing gap"
    first ← first_row window
    final ← last_row window
    require (D.same (D.sub final.interval_end_s first.interval_start_s) (D.decimal 5))
        "selected stationarity window does not span 5 s"
