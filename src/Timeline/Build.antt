-- ===== src/Timeline/Build.antt =====
-- scripts/experiment-harness/build-actuator-timeline.py: the events of the controls of a run, from
-- the lines of the logs.
use package.text.Mathlib.Text.{◌==◌ as str_eq}
use tcd_oran_testbed_integra.Base.{
  ℕ, suc, ◌+◌, ◌/◌, ◌%◌, ◌==◌, leb, if◌then◌else◌, Bool, true, false, not, ◌&&◌, Option, none, some,
  List, [], ◌∷◌, ◌++◌, map, length, replicate, String, Result, ok, err, ◌>>=◌, ◌>>◌, require,
}
use tcd_oran_testbed_integra.Base.Text.{Text, codes, text_eq, digit, full_match, split, splitlines}
use tcd_oran_testbed_integra.Base.Integers.{ℤ, less}
use tcd_oran_testbed_integra.Timeline.Event.{Event, Schema, ratio_prbs}
use tcd_oran_testbed_integra.Timeline.Clock.{
  int, behind_first, exact_timestamp_utc_ns, applied_match,
}

abbrev is_some {ℓ} : {A : Type ℓ} → Option A → Bool
is_some none = false
is_some (some a) = true

unfoldable pub read_lines : Option Text → Result (List Text)
read_lines none = err "input file missing"
read_lines (some content) = ok (splitlines content)

unfoldable pub marked : Text → List Text → List Text
marked marker [] = []
marked marker (line ∷ lines) =
    let rest = marked marker lines in
    if is_some (behind_first marker line) then line ∷ rest else rest

unfoldable pub matching_lines : Option Text → String → Result (List Text)
unfolding read_lines marked
matching_lines file marker = do lines ← read_lines file; ok (marked (codes marker) lines)

abbrev has_empty : List Text → Bool
has_empty [] = false
has_empty (item ∷ items) = if text_eq item [] then true else has_empty items

unfoldable pub parse_ratio : Text → Result ℕ
parse_ratio item = do
  require (full_match (replicate (length item) digit) item) "invalid requested ratio token"
  require (is_some (ratio_prbs (int item))) "ratio outside Prompt-12 identification domain"
  ok (int item)

unfoldable pub parse_ratios : List Text → Result (List ℕ)
parse_ratios [] = ok []
parse_ratios (item ∷ items) = do
  value ← parse_ratio item
  values ← parse_ratios items
  ok (value ∷ values)

unfoldable pub check_pieces : List Text → Result (Unit {0})
check_pieces pieces =
    require (not (has_empty pieces)) "requested-ratios must be a non-empty comma-separated list"

unfoldable pub check_number : List ℕ → Result (Unit {0})
check_number values =
    require (leb (length values) 6) "more than six Prompt-12 controls in one run are not allowed"

unfoldable pub parse_requested_ratios : Text → Result (List ℕ)
unfolding split
parse_requested_ratios text = do
  let pieces = split 44 text
  check_pieces pieces
  values ← parse_ratios pieces
  check_number values
  ok values

unfoldable pub validate_identity : Schema → String → String → Result (Unit {0})
validate_identity schema experiment_id run_id = do
  require (schema.experiment_fits experiment_id) "invalid Prompt-12 experiment_id"
  require (schema.run_fits run_id) "invalid Prompt-12 run_id"

-- What the lines of a control tell.
pub record Control : Type 0 where
  pub command_ns : ℤ
  pub applied_ns : ℤ
  pub ack_ns : ℤ
  pub applied_min : ℕ
  pub applied_max : ℕ

unfoldable pub read_match : Option (ℕ × ℕ) → Result (ℕ × ℕ)
read_match none = err "malformed PRB_ACTUATOR_APPLIED line"
read_match (some numbers) = ok numbers

-- `value != PROMPT12_RATIO_TO_PRBS[ratio]`, where the key is there
unfoldable pub is_prbs : Option ℕ → ℕ → Bool
is_prbs none value = false
is_prbs (some expected) value = value == expected

unfoldable pub is_after : Option ℤ → ℤ → Bool
is_after none timestamp = true
is_after (some previous) timestamp = less previous timestamp

unfoldable pub check_control : Option ℤ → ℕ → Control → Result (Unit {0})
check_control previous_ack_ns ratio control = do
  require (control.applied_min == 0) "applied_min_prbs != 0"
  require (is_prbs (ratio_prbs ratio) control.applied_max) "requested ratio and readback differ"
  require (less control.command_ns control.applied_ns && less control.applied_ns control.ack_ns)
      "event order must be command < applied_readback < acknowledgement"
  require (is_after previous_ack_ns control.command_ns)
      "command is not later than previous acknowledgement"

unfoldable pub read_control : Text → Text → Text → Result Control
unfolding read_match
read_control command_line applied_line ack_line = do
  command_ns ← exact_timestamp_utc_ns command_line
  applied_ns ← exact_timestamp_utc_ns applied_line
  ack_ns ← exact_timestamp_utc_ns ack_line
  numbers ← read_match (applied_match applied_line)
  ok (record {
    command_ns = command_ns;
    applied_ns = applied_ns;
    ack_ns = ack_ns;
    applied_min = numbers.0;
    applied_max = numbers.1;
  })

-- `f"ACTUATOR-{index:03d}"`, for an index of three digits at most
unfoldable pub prefix : ℕ → Text
prefix index =
    codes "ACTUATOR-" ++ (48 + index / 100) ∷ (48 + index / 10 % 10) ∷ (48 + index % 10) ∷ []

-- The loop over `counts`
unfoldable pub check_counts : ℕ → ℕ → ℕ → ℕ → Result (Unit {0})
check_counts expected_count command applied_readback acknowledgement = do
  require (command == expected_count) "command event count does not match"
  require (applied_readback == expected_count) "applied_readback event count does not match"
  require (acknowledgement == expected_count) "acknowledgement event count does not match"

module _ (experiment_id run_id : String) where
  unfoldable pub command_event : ℕ → ℕ → Control → Event
  unfolding prefix
  command_event index ratio control = record {
    experiment_id = experiment_id;
    run_id = run_id;
    record_id = prefix index ++ codes "-COMMAND";
    timestamp_utc_ns = control.command_ns;
    event_type = "command";
    requested_max_prb_ratio_pct = some ratio;
    applied_min_prbs = none;
    applied_max_prbs = none;
    acknowledgement_status = none;
  }

  unfoldable pub applied_event : ℕ → Control → Event
  unfolding prefix
  applied_event index control = record {
    experiment_id = experiment_id;
    run_id = run_id;
    record_id = prefix index ++ codes "-APPLIED-READBACK";
    timestamp_utc_ns = control.applied_ns;
    event_type = "applied_readback";
    requested_max_prb_ratio_pct = none;
    applied_min_prbs = some control.applied_min;
    applied_max_prbs = some control.applied_max;
    acknowledgement_status = none;
  }

  unfoldable pub ack_event : ℕ → Control → Event
  unfolding prefix
  ack_event index control = record {
    experiment_id = experiment_id;
    run_id = run_id;
    record_id = prefix index ++ codes "-ACKNOWLEDGEMENT";
    timestamp_utc_ns = control.ack_ns;
    event_type = "acknowledgement";
    requested_max_prb_ratio_pct = none;
    applied_min_prbs = none;
    applied_max_prbs = none;
    acknowledgement_status = some "PASS";
  }

  -- The loop over the ratios, from the control `index` on.
  unfoldable pub control_events :
      ℕ → Option ℤ → List ℕ → List Text → List Text → List Text → Result (List Event)
  control_events index previous [] commands applied acks = ok []
  control_events index previous (ratio ∷ ratios) (command ∷ commands) (readback ∷ applied)
        (ack ∷ acks) =
      do
        control ← read_control command readback ack
        check_control previous ratio control
        rest ← control_events (suc index) (some control.ack_ns) ratios commands applied acks
        ok (
            command_event index ratio control
            ∷ applied_event index control
            ∷ ack_event index control
            ∷ rest)
  control_events index previous (ratio ∷ ratios) _ _ _ = err "IndexError"

  unfoldable pub build_events : List ℕ → List Text → List Text → List Text → Result (List Event)
  build_events ratios commands applied acks = do
    check_counts (length ratios) (length commands) (length applied) (length acks)
    control_events 1 none ratios commands applied acks

abbrev pub member : Text → List Text → Bool
member text [] = false
member text (other ∷ texts) = if text_eq text other then true else member text texts

-- `len(ids) == len(set(ids))`: putting the ids into the set one by one meets none again.
unfoldable pub distinct_from : List Text → List Text → Bool
distinct_from seen [] = true
distinct_from seen (id ∷ ids) = not (member id seen) && distinct_from (id ∷ seen) ids

-- `timestamps == sorted(timestamps)`: none is below the one before it.
unfoldable pub is_sorted : List ℤ → Bool
is_sorted [] = true
is_sorted (a ∷ []) = true
is_sorted (a ∷ b ∷ rest) = not (less b a) && is_sorted (b ∷ rest)

abbrev pub all_accepted : Schema → List Event → Result (Unit {0})
all_accepted schema [] = ok tt
all_accepted schema (event ∷ events) = do
  require (schema.accepts event) "schema validation failure"
  all_accepted schema events

-- The times that main prints as CONTROL_..._PLANT_STEP_UTC_NS
unfoldable pub plant_steps : List Event → List ℤ
plant_steps [] = []
plant_steps (event ∷ events) =
    let rest = plant_steps events in
    if str_eq event.event_type "applied_readback" then event.timestamp_utc_ns ∷ rest else rest

pub record Args : Type 0 where
  pub experiment_id : String
  pub run_id : String
  pub requested_ratios : Text
  pub command_input : Option Text
  pub applied_input : Option Text
  pub ack_input : Option Text
  pub output_exists : Bool

unfoldable pub check_output : Bool → Result (Unit {0})
check_output output_exists = require (not output_exists) "output already exists"

unfoldable pub check_ids : List Event → Result (Unit {0})
unfolding distinct_from
check_ids events =
    require (distinct_from [] (map (λ e. e.record_id) events)) "duplicate actuatorEvent record_id"

unfoldable pub check_times : List Event → Result (Unit {0})
unfolding is_sorted
check_times events =
    require (is_sorted (map (λ e. e.timestamp_utc_ns) events))
      "global actuator timeline ordering violation"

-- What main writes, and the times of the plant's steps that it prints.
unfoldable pub main : Schema → Args → Result (List Event × List ℤ)
main schema args = do
  check_output args.output_exists
  validate_identity schema args.experiment_id args.run_id
  ratios ← parse_requested_ratios args.requested_ratios
  commands ← matching_lines args.command_input "E42_RIC_CONTROL_REQUEST rx"
  applied ← matching_lines args.applied_input "PRB_ACTUATOR_APPLIED"
  acks ← matching_lines args.ack_input "CONTROL ACKNOWLEDGE rx"
  events ← build_events args.experiment_id args.run_id ratios commands applied acks
  check_ids events
  check_times events
  all_accepted schema events
  ok (events, plant_steps events)
