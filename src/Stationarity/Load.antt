-- ===== src/Stationarity/Load.antt =====
-- The checks of the rows of the receiver log and of the actuator's timeline
-- (scripts/experiment-harness/evaluate-output-stationarity.py).
use text.Mathlib.Text.{◌==◌ as str_eq}
use tcd_oran_testbed_integra.Base.{
  ℕ, ◌+◌, ◌-◌, ◌*◌, ◌/◌, ◌%◌, ◌==◌, ltb, leb, Bool, true, false, not, ◌&&◌, ◌||◌, Option, none,
  some, List, [], ◌∷◌, length, get_elem?, String, Result, ok, err, ◌>>=◌, ◌>>◌, require,
}
use tcd_oran_testbed_integra.Stationarity.Decimals.{Decimals}
use tcd_oran_testbed_integra.Stationarity.Interval.{Interval}

abbrev pub member : String → List String → Bool
member text [] = false
member text (other ∷ texts) = str_eq text other || member text texts

unfoldable pub allowed_interval_classes : List String
allowed_interval_classes =
    "startup_guard" ∷ "complete" ∷ "partial_terminal" ∷ "transition_crossing" ∷ []

unfoldable pub validate_identity : String → String → String → String → Result (Unit {0})
validate_identity row_experiment row_run experiment_id run_id = do
  require (str_eq row_experiment experiment_id) "experiment_id mismatch"
  require (str_eq row_run run_id) "run_id mismatch"

module _ (D : Decimals) where
  -- The order of a row after the one before it, if there is one.
  unfoldable pub check_order : Option (Interval D) → Interval D → Result (Unit {0})
  check_order none row = ok tt
  check_order (some previous) row = do
    require (leb previous.rx_wall_ns row.rx_wall_ns) "rx_wall_ns ordering violation"
    require (ltb previous.rx_mono_ns row.rx_mono_ns) "rx_mono_ns ordering violation"

  -- The loop over the rows, with `seen_ids` and the previous row.
  unfoldable pub check_rows :
      String → String → List String → Option (Interval D) → List (Interval D) → Result (Unit {0})
  check_rows experiment_id run_id seen_ids previous [] = ok tt
  check_rows experiment_id run_id seen_ids previous (row ∷ rows) = do
    validate_identity row.experiment_id row.run_id experiment_id run_id
    require (not (member row.record_id seen_ids)) "duplicate iperfInterval record_id"
    require (member row.interval_class allowed_interval_classes) "unsupported interval_class"
    check_order previous row
    check_rows experiment_id run_id (row.record_id ∷ seen_ids) (some row) rows

  unfoldable pub load_intervals : List (Interval D) → String → String → Result (List (Interval D))
  load_intervals rows experiment_id run_id = do
    require (ltb 0 (length rows)) "canonical iperf input is empty"
    check_rows experiment_id run_id [] none rows
    ok rows

-- An `actuatorEvent` that has passed the schema: the fields that are read.
pub record ActuatorEvent : Type 0 where
  pub experiment_id : String
  pub run_id : String
  pub timestamp_utc_ns : ℕ
  pub event_type : String
  pub acknowledgement_status : Option String

unfoldable pub is_after : Option ℕ → ℕ → Bool
is_after none timestamp = true
is_after (some previous) timestamp = ltb previous timestamp

unfoldable pub check_timeline : String → String → Option ℕ → List ActuatorEvent → Result (Unit {0})
check_timeline experiment_id run_id previous [] = ok tt
check_timeline experiment_id run_id previous (row ∷ rows) = do
  validate_identity row.experiment_id row.run_id experiment_id run_id
  require (is_after previous row.timestamp_utc_ns) "actuator timeline timestamp ordering violation"
  check_timeline experiment_id run_id (some row.timestamp_utc_ns) rows

unfoldable pub item_at : Option ActuatorEvent → Result ActuatorEvent
item_at none = err "IndexError"
item_at (some row) = ok row

-- `rows[index]`
unfoldable pub item : List ActuatorEvent → ℕ → Result ActuatorEvent
item rows index = item_at (get_elem? rows index)

unfoldable pub is_pass : Option String → Bool
is_pass none = false
is_pass (some status) = str_eq status "PASS"

unfoldable pub is_triplet : ActuatorEvent → ActuatorEvent → ActuatorEvent → Bool
is_triplet command applied acknowledgement =
    str_eq command.event_type "command"
    && str_eq applied.event_type "applied_readback"
    && str_eq acknowledgement.event_type "acknowledgement"

unfoldable pub load_post_t0 : List ActuatorEvent → String → String → ℕ → Result ℕ
load_post_t0 rows experiment_id run_id control_index = do
  require (ltb 0 (length rows)) "actuator timeline is empty"
  require (length rows % 3 == 0) "actuator timeline is not complete triplets"
  let controls = length rows / 3
  require (leb 1 control_index && leb control_index controls)
      "control-index outside actuator timeline"
  check_timeline experiment_id run_id none rows
  let offset = (control_index - 1) * 3
  command ← item rows offset
  applied ← item rows (offset + 1)
  acknowledgement ← item rows (offset + 2)
  require (is_triplet command applied acknowledgement)
      "selected actuator control is not command/applied_readback/acknowledgement"
  require (is_pass acknowledgement.acknowledgement_status)
      "selected actuator acknowledgement is not PASS"
  require
      (ltb command.timestamp_utc_ns applied.timestamp_utc_ns
        && ltb applied.timestamp_utc_ns acknowledgement.timestamp_utc_ns)
      "selected actuator event ordering violation"
  ok applied.timestamp_utc_ns
