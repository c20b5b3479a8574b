-- ===== src/Timeline/Tests.antt =====
-- The timeline of a control at 50 % and the intervals around it
-- (scripts/experiment-harness/build-actuator-timeline.py and canonicalize-iperf-receiver.py).
use tcd_oran_testbed_integra.Base.{
  ℕ, ◌+◌, ◌*◌, ◌≡◌, refl, true, false, none, some, List, [], ◌∷◌, ◌++◌, All, ok, err,
}
use tcd_oran_testbed_integra.Base.Text.{Text, codes, split, splitlines, lines_from, full_match}
use tcd_oran_testbed_integra.Base.Integers.{ℤ, pos, negsuc}
use tcd_oran_testbed_integra.Stationarity.Fixed.{fixed}
use tcd_oran_testbed_integra.Timeline.Event.{Event, Schema, ratio_prbs}
use tcd_oran_testbed_integra.Timeline.Clock.{
  int_from, int, digits_of, is_leap, ordinal, is_date, is_time, timestamp_shape, fraction_of,
  seconds_of, exact_timestamp_utc_ns, behind, behind_first, number_behind, last_number,
  applied_match,
}
use tcd_oran_testbed_integra.Timeline.Build
use Build.{
  read_lines, marked, matching_lines, parse_ratio, parse_ratios, check_pieces, check_number,
  parse_requested_ratios, read_match, is_prbs, is_after, check_control, read_control, prefix,
  command_event, applied_event, ack_event, check_counts, control_events, build_events,
  distinct_from, is_sorted, check_ids, check_times, plant_steps,
}
use tcd_oran_testbed_integra.Timeline.Load.{
  check_row, check_rows, check_controls, check_triplet, prbs_of, is_count, is_status,
  load_actuator_timeline,
}
use tcd_oran_testbed_integra.Timeline.Handover
use tcd_oran_testbed_integra.Timeline.Sorted
use tcd_oran_testbed_integra.Timeline.Receiver.{
  IntervalClass, complete, transition_crossing, at_least, is_inside, strict_hits, crossing, Row,
  exact_duration_ns, complete_class, base_interval_class, classify_crossing, classify_interval,
  Canonical, canonical_record, check_order, check_schema, canonical_rows,
}
use tcd_oran_testbed_integra.Timeline.Canonicalize.{
  experiment_re, t2_experiment_re, run_re, validate_identity, actuator_transitions, check_scope,
  check_output, applied_timestamps, Args, main,
}
use tcd_oran_testbed_integra.Timeline.Uncrossed.{Agrees}
use tcd_oran_testbed_integra.Timeline.Crossings
use Crossings.{InOrder}

-- The patterns of the schema file, with every event.
abbrev patterns : Schema
patterns = record {
  accepts = λ _. true;
  experiment_fits = λ id. experiment_re (codes id);
  run_fits = λ id. run_re (codes id);
}

-- A leap day, and the first second before 1970.
leap_day : exact_timestamp_utc_ns (codes "2024-02-29T00:00:00.5Z x") ≡ ok (pos 1709164800500000000)
unfolding exact_timestamp_utc_ns int int_from digits_of is_leap ordinal is_date is_time
    timestamp_shape fraction_of seconds_of full_match
leap_day = refl

before_epoch : exact_timestamp_utc_ns (codes "1969-12-31T23:59:59Z") ≡ ok (negsuc 999999999)
unfolding exact_timestamp_utc_ns int int_from digits_of is_leap ordinal is_date is_time
    timestamp_shape fraction_of seconds_of full_match
before_epoch = refl

no_leap_day : exact_timestamp_utc_ns (codes "2100-02-29T00:00:00") ≡ err "invalid UTC timestamp"
unfolding exact_timestamp_utc_ns int int_from digits_of is_leap ordinal is_date is_time
    timestamp_shape fraction_of seconds_of full_match
no_leap_day = refl

-- The last numbers count, where an earlier pair stands in the line.
last_pair :
    applied_match (
      codes
        "PRB_ACTUATOR_APPLIED applied_min_prbs=1 applied_min_prbs=0 applied_max_prbs=5 applied_max_prbs=26")
    ≡ some (0, 26)
unfolding applied_match behind_first behind last_number number_behind digits_of int int_from
last_pair = refl

abbrev line_end : Text
line_end = 10 ∷ []

abbrev source : Build.Args
source = record {
  experiment_id = "EXP-20260101-DL-18000K-R01";
  run_id = "RUN-20260101T000000Z-001";
  requested_ratios = codes "50";
  command_input = some (
      codes "start"
      ++ line_end
      ++ codes "2026-01-01T00:00:00.1Z E42_RIC_CONTROL_REQUEST rx"
      ++ line_end);
  applied_input =
      some (
        codes "2026-01-01T00:00:00.2Z PRB_ACTUATOR_APPLIED applied_min_prbs=0 applied_max_prbs=26");
  ack_input = some (codes "2026-01-01T00:00:00.3Z CONTROL ACKNOWLEDGE rx");
  output_exists = false;
}

abbrev command_row : Event
command_row = record {
  experiment_id = "EXP-20260101-DL-18000K-R01";
  run_id = "RUN-20260101T000000Z-001";
  record_id = codes "ACTUATOR-001-COMMAND";
  timestamp_utc_ns = pos 1767225600100000000;
  event_type = "command";
  requested_max_prb_ratio_pct = some 50;
  applied_min_prbs = none;
  applied_max_prbs = none;
  acknowledgement_status = none;
}

abbrev applied_row : Event
applied_row = record {
  experiment_id = "EXP-20260101-DL-18000K-R01";
  run_id = "RUN-20260101T000000Z-001";
  record_id = codes "ACTUATOR-001-APPLIED-READBACK";
  timestamp_utc_ns = pos 1767225600200000000;
  event_type = "applied_readback";
  requested_max_prb_ratio_pct = none;
  applied_min_prbs = some 0;
  applied_max_prbs = some 26;
  acknowledgement_status = none;
}

abbrev ack_row : Event
ack_row = record {
  experiment_id = "EXP-20260101-DL-18000K-R01";
  run_id = "RUN-20260101T000000Z-001";
  record_id = codes "ACTUATOR-001-ACKNOWLEDGEMENT";
  timestamp_utc_ns = pos 1767225600300000000;
  event_type = "acknowledgement";
  requested_max_prb_ratio_pct = none;
  applied_min_prbs = none;
  applied_max_prbs = none;
  acknowledgement_status = some "PASS";
}

abbrev timeline : List Event
timeline = command_row ∷ applied_row ∷ ack_row ∷ []

source_lines :
    (matching_lines source.command_input "E42_RIC_CONTROL_REQUEST rx"
      ≡ ok (codes "2026-01-01T00:00:00.1Z E42_RIC_CONTROL_REQUEST rx" ∷ []))
unfolding matching_lines read_lines marked splitlines lines_from behind_first behind
source_lines = refl

source-main : Build.main patterns source ≡ ok (timeline, pos 1767225600200000000 ∷ [])
unfolding Build.main Build.check_output Build.validate_identity matching_lines read_lines marked
    splitlines lines_from behind_first behind parse_requested_ratios parse_ratios parse_ratio
    check_pieces check_number split full_match ratio_prbs int int_from build_events check_counts
    control_events read_control read_match check_control is_prbs is_after exact_timestamp_utc_ns
    digits_of is_leap ordinal is_date is_time timestamp_shape fraction_of seconds_of last_number
    number_behind applied_match command_event applied_event ack_event prefix check_ids check_times
    distinct_from is_sorted plant_steps experiment_re run_re
source-main = refl

load_actuator_timeline-main_example :
    load_actuator_timeline patterns "EXP-20260101-DL-18000K-R01" "RUN-20260101T000000Z-001" timeline
    ≡ ok (timeline, pos 1767225600200000000 ∷ [])
load_actuator_timeline-main_example =
    Handover.load_actuator_timeline-main patterns source source-main

source-build_events :
    build_events source.experiment_id source.run_id
      (50 ∷ [])
      (codes "2026-01-01T00:00:00.1Z E42_RIC_CONTROL_REQUEST rx" ∷ [])
      (codes "2026-01-01T00:00:00.2Z PRB_ACTUATOR_APPLIED applied_min_prbs=0 applied_max_prbs=26"
        ∷ [])
      (codes "2026-01-01T00:00:00.3Z CONTROL ACKNOWLEDGE rx" ∷ [])
    ≡ ok timeline
unfolding full_match behind_first behind ratio_prbs int int_from build_events check_counts
    control_events read_control read_match check_control is_prbs is_after exact_timestamp_utc_ns
    digits_of is_leap ordinal is_date is_time timestamp_shape fraction_of seconds_of last_number
    number_behind applied_match command_event applied_event ack_event prefix
source-build_events = refl

check_times-build_events_example : check_times timeline ≡ ok tt
check_times-build_events_example =
    Sorted.check_times-build_events source.experiment_id source.run_id (50 ∷ [])
      (codes "2026-01-01T00:00:00.1Z E42_RIC_CONTROL_REQUEST rx" ∷ [])
      (codes "2026-01-01T00:00:00.2Z PRB_ACTUATOR_APPLIED applied_min_prbs=0 applied_max_prbs=26"
        ∷ [])
      (codes "2026-01-01T00:00:00.3Z CONTROL ACKNOWLEDGE rx" ∷ []) source-build_events

-- The i-th row, of 0.2 s, at 50 ms behind a multiple of 0.2 s.
abbrev row : ℕ → Row fixed
row i = record {
  schema = "sci_oran_iperf_receiver_interval_parse_v1";
  interval_shape = "complete_0p2";
  source_sequence = pos i;
  rx_wall_ns = pos (1767225600050000000 + i * 200000000);
  rx_mono_ns = pos (1000 + i);
  interval_start_s = 1800000 + i * 200000;
  interval_end_s = 2000000 + i * 200000;
  interval_duration_s = 200000;
  throughput_kbit_s = 18000000000;
  loss_pct = none;
  jitter_ms = none;
  bytes_transferred = none;
}

abbrev canonical : ℕ → IntervalClass → Canonical fixed
canonical i class = record {
  experiment_id = "EXP-20260101-DL-18000K-R01";
  run_id = "RUN-20260101T000000Z-001";
  source_sequence = i;
  timestamp_utc_ns = 1767225600050000000 + i * 200000000;
  rx_wall_ns = 1767225600050000000 + i * 200000000;
  rx_mono_ns = 1000 + i;
  interval_start_s = 1800000 + i * 200000;
  interval_end_s = 2000000 + i * 200000;
  interval_duration_s = 200000;
  throughput_kbit_s = 18000000000;
  loss_pct = none;
  jitter_ms = none;
  bytes_transferred = none;
  interval_class = class;
}

abbrev arguments : Args fixed
arguments = record {
  experiment_id = "EXP-20260101-DL-18000K-R01";
  run_id = "RUN-20260101T000000Z-001";
  classification_scope = actuator_transitions;
  actuator_timeline = some timeline;
  input = row 0 ∷ row 1 ∷ row 2 ∷ [];
  output_exists = false;
}

abbrev records : List (Canonical fixed)
records = canonical 0 complete ∷ canonical 1 transition_crossing ∷ canonical 2 complete ∷ []

arguments-main : main fixed experiment_re patterns (λ _. true) arguments ≡ ok records
unfolding main validate_identity experiment_re run_re full_match check_scope check_output
    applied_timestamps load_actuator_timeline check_rows check_row check_controls check_triplet
    prbs_of is_count is_status is_prbs is_after ratio_prbs canonical_rows check_schema check_order
    canonical_record at_least classify_interval base_interval_class complete_class classify_crossing
    exact_duration_ns strict_hits is_inside crossing
arguments-main = refl

main-Agrees-main_example : All (Agrees fixed (pos 1767225600200000000 ∷ [])) records
main-Agrees-main_example =
    Crossings.main-Agrees-main fixed experiment_re patterns (λ _. true) source arguments source-main
      refl refl refl refl arguments-main

main-Agrees_example :
    (loaded : List Event × List ℤ) × (load_actuator_timeline patterns "EXP-20260101-DL-18000K-R01"
        "RUN-20260101T000000Z-001" timeline
      ≡ ok loaded)
    × All (Agrees fixed loaded.1) records
main-Agrees_example =
    Crossings.main-Agrees fixed experiment_re patterns (λ _. true) arguments timeline refl refl
      arguments-main

main-InOrder_example : InOrder fixed records
main-InOrder_example =
    Crossings.main-InOrder fixed experiment_re patterns (λ _. true) arguments arguments-main

-- The identity of the other variant.
t2_identity : t2_experiment_re (codes "EXP-20260101-T2-26TO39-DL-18000K-R04") ≡ true
unfolding t2_experiment_re full_match
t2_identity = refl
