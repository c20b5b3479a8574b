-- ===== src/Timeline/Load.antt =====
-- load_actuator_timeline of scripts/experiment-harness/canonicalize-iperf-receiver.py, and of its
-- copy canonicalize-iperf-receiver-t2.py.
use package.text.Mathlib.Text.{◌==◌ as str_eq}
use tcd_oran_testbed_integra.Base.{
  ℕ, ◌/◌, ◌%◌, ◌==◌, leb, ltb, Bool, true, false, not, ◌&&◌, Option, none, some, List, [], ◌∷◌,
  length, String, Result, ok, ◌>>=◌, ◌>>◌, require,
}
use tcd_oran_testbed_integra.Base.Text.{Text}
use tcd_oran_testbed_integra.Base.Integers.{ℤ, less}
use tcd_oran_testbed_integra.Timeline.Event.{Event, Schema, ratio_prbs}
use tcd_oran_testbed_integra.Timeline.Build.{is_after, is_prbs, member}

-- `RATIO_TO_PRBS[ratio]`, of a key that may not be there
unfoldable pub prbs_of : Option ℕ → Option ℕ
prbs_of none = none
prbs_of (some ratio) = ratio_prbs ratio

unfoldable pub is_count : Option ℕ → ℕ → Bool
is_count none n = false
is_count (some m) n = m == n

unfoldable pub is_status : Option String → Bool
is_status none = false
is_status (some status) = str_eq status "PASS"

abbrev pub is_known : Option ℕ → Bool
is_known none = false
is_known (some n) = true

abbrev pub is_expected : Option ℕ → Option ℕ → Bool
is_expected expected none = false
is_expected expected (some value) = is_prbs expected value

module _ (schema : Schema) (experiment_id run_id : String) where
  unfoldable pub check_row : List Text → Option ℤ → Event → Result (Unit {0})
  check_row seen previous row = do
    require (schema.accepts row) "schema validation failure"
    require (str_eq row.experiment_id experiment_id) "actuator timeline experiment_id mismatch"
    require (str_eq row.run_id run_id) "actuator timeline run_id mismatch"
    require (not (member row.record_id seen)) "duplicate actuator timeline record_id"
    require (is_after previous row.timestamp_utc_ns)
        "actuator timeline timestamp ordering violation"

  -- The loop over the rows, with `seen_record_ids` and `previous_timestamp`.
  unfoldable pub check_rows : List Text → Option ℤ → List Event → Result (Unit {0})
  check_rows seen previous [] = ok tt
  check_rows seen previous (row ∷ rows) = do
    check_row seen previous row
    check_rows (row.record_id ∷ seen) (some row.timestamp_utc_ns) rows

unfoldable pub check_triplet : Option ℤ → Event → Event → Event → Result (Unit {0})
check_triplet previous_ack command applied acknowledgement = do
  require
      (str_eq command.event_type "command"
        && (str_eq applied.event_type "applied_readback"
            && str_eq acknowledgement.event_type "acknowledgement"))
      "invalid actuator event order"
  require (is_known (prbs_of command.requested_max_prb_ratio_pct))
      "requested ratio outside Prompt-12 domain"
  require (is_count applied.applied_min_prbs 0) "applied_min_prbs must be 0"
  require (is_expected (prbs_of command.requested_max_prb_ratio_pct) applied.applied_max_prbs)
      "ratio/readback mismatch"
  require (is_status acknowledgement.acknowledgement_status) "acknowledgement must be PASS"
  require
      (less command.timestamp_utc_ns applied.timestamp_utc_ns
        && less applied.timestamp_utc_ns acknowledgement.timestamp_utc_ns)
      "command < applied_readback < acknowledgement ordering violation"
  require (is_after previous_ack command.timestamp_utc_ns)
      "command is not later than previous acknowledgement"

-- The loop over the controls, with `previous_ack_timestamp`: the times that are appended to
-- `applied_timestamps`.
unfoldable pub check_controls : Option ℤ → List Event → Result (List ℤ)
check_controls previous_ack (command ∷ applied ∷ acknowledgement ∷ rows) = do
  check_triplet previous_ack command applied acknowledgement
  times ← check_controls (some acknowledgement.timestamp_utc_ns) rows
  ok (applied.timestamp_utc_ns ∷ times)
check_controls previous_ack _ = ok []

unfoldable pub load_actuator_timeline :
    Schema → String → String → List Event → Result (List Event × List ℤ)
load_actuator_timeline schema experiment_id run_id rows = do
  require (ltb 0 (length rows)) "actuator timeline is empty"
  require (length rows % 3 == 0)
      "actuator timeline must contain complete command/applied_readback/acknowledgement triplets"
  require (leb 1 (length rows / 3) && leb (length rows / 3) 6)
      "actuator timeline control count must be between 1 and 6"
  check_rows schema experiment_id run_id [] none rows
  times ← check_controls none rows
  ok (rows, times)
