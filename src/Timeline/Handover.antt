-- ===== src/Timeline/Handover.antt =====
-- What load_actuator_timeline makes of the timeline that build-actuator-timeline.py writes
-- (scripts/experiment-harness).
use mathlib.Core.Path.{subst}
use tcd_oran_testbed_integra.Base.{
  ℕ, suc, ◌*◌, ◌/◌, ◌%◌, ◌≤◌, ◌==◌, leb, ltb, ◌≡◌, sym, ap, ◌∙◌, true, ◌&&◌, none, List, [], ◌∷◌,
  map, length, String, ok, require, ◌>>=◌, >>-eq-ok, >>=-eq-ok, ok-eq, require-eq-ok, >>-pass,
  require-pass, arith,
}
use tcd_oran_testbed_integra.Base.Text.{Text, split, onto_first}
use tcd_oran_testbed_integra.Base.Integers.{ℤ}
use tcd_oran_testbed_integra.Timeline.Event.{Event, Schema}
use tcd_oran_testbed_integra.Timeline.Build.{
  build_events, distinct_from, all_accepted, plant_steps, Args, main, validate_identity,
  check_pieces, check_number, check_output, check_ids, check_times, matching_lines, parse_ratio,
  parse_ratios, parse_requested_ratios,
}
use tcd_oran_testbed_integra.Timeline.Load.{check_rows, load_actuator_timeline}
use tcd_oran_testbed_integra.Timeline.Built.{
  IsBuilt, build_events-IsBuilt, check_controls-plant_steps, check_rows-built,
}

length-onto_first : (c : ℕ) (parts : List Text) → 1 ≤ length (onto_first c parts)
length-onto_first c [] = omega arith
length-onto_first c (part ∷ parts) = omega arith

length-split : (separator : ℕ) (s : Text) → 1 ≤ length (split separator s)
unfolding split
length-split separator [] = omega arith
length-split separator (c ∷ s) = ground (arith, length-onto_first c (split separator s))

length-parse_ratios :
    (items : List Text) {values : List ℕ}
    → parse_ratios items ≡ ok values
    → length values ≡ length items
unfolding parse_ratios
length-parse_ratios [] h = sym (ap length (ok-eq h))
length-parse_ratios (item ∷ items) h =
    let (value, _, h1) = >>=-eq-ok (parse_ratio item) _ h in
    let (values, h2, h3) = >>=-eq-ok (parse_ratios items) _ h1 in
    sym (ap length (ok-eq h3)) ∙ ap suc (length-parse_ratios items h2)

length-parse_requested_ratios :
    (text : Text) {values : List ℕ}
    → parse_requested_ratios text ≡ ok values
    → (1 ≤ length values) × (length values ≤ 6)
unfolding parse_requested_ratios check_number
length-parse_requested_ratios text {values} h =
    let (_, h1) = >>-eq-ok (check_pieces (split 44 text)) _ h in
    let (parsed, made, h2) = >>=-eq-ok (parse_ratios (split 44 text)) _ h1 in
    let (few, h3) = >>-eq-ok (check_number parsed) _ h2 in
    let count = length-parse_ratios (split 44 text) made in
    let same = ap length (ok-eq h3) in
    let bound = require-eq-ok (leb (length parsed) 6) _ few in
    let high : length parsed ≤ 6 = ground (arith, bound) in
    (omega (arith, count, same, length-split 44 text), omega (arith, same, high))

-- The tests that load_actuator_timeline makes of the number of rows.
counts-pass :
    (n rows : ℕ)
    → rows ≡ n * 3
    → 1 ≤ n
    → n ≤ 6
    → (ltb 0 rows ≡ true)
      × ((rows % 3 == 0) ≡ true)
      × ((leb 1 (rows / 3) && leb (rows / 3) 6) ≡ true)
counts-pass n rows e low high = (ground arith, ground arith, ground arith)

load_actuator_timeline-IsBuilt :
    (schema : Schema) (experiment_id run_id : String) (n : ℕ) (rows : List Event)
    → IsBuilt experiment_id run_id none rows
    → all_accepted schema rows ≡ ok tt
    → distinct_from [] (map (λ e. e.record_id) rows) ≡ true
    → length rows ≡ n * 3
    → (1 ≤ n) × (n ≤ 6)
    → load_actuator_timeline schema experiment_id run_id rows ≡ ok (rows, plant_steps rows)
unfolding load_actuator_timeline
load_actuator_timeline-IsBuilt schema experiment_id run_id n rows is_built accepted distinct size
      count =
    let counts = counts-pass n (length rows) size count.0 count.1 in
    >>-pass (require (ltb 0 (length rows)) _) _ (require-pass _ _ counts.0) (
      >>-pass (require (length rows % 3 == 0) _) _ (require-pass _ _ counts.1) (
        >>-pass _ _ (require-pass _ _ counts.2) (
          >>-pass (check_rows schema experiment_id run_id [] none rows) _
            (check_rows-built schema experiment_id run_id [] is_built accepted distinct)
            (ap (λ times. times >>= (λ times. ok (rows, times)))
              (check_controls-plant_steps experiment_id run_id is_built)))))

-- The canonicalizer loads every timeline that the builder writes, with the same schema and the same
-- identities, and the times that it classifies the intervals by are those that the builder prints
-- as the steps of the plant.
pub load_actuator_timeline-main :
    (schema : Schema) (args : Args) {events : List Event} {steps : List ℤ}
    → main schema args ≡ ok (events, steps)
    → load_actuator_timeline schema args.experiment_id args.run_id events ≡ ok (events, steps)
unfolding main check_ids
load_actuator_timeline-main schema args {events} {steps} h =
    let (_, h1) = >>-eq-ok (check_output args.output_exists) _ h in
    let (_, h2) = >>-eq-ok (validate_identity schema args.experiment_id args.run_id) _ h1 in
    let (ratios, parsed, h3) = >>=-eq-ok (parse_requested_ratios args.requested_ratios) _ h2 in
    let (commands, _, h4) = >>=-eq-ok (matching_lines args.command_input _) _ h3 in
    let (applied, _, h5) = >>=-eq-ok (matching_lines args.applied_input _) _ h4 in
    let (acks, _, h6) = >>=-eq-ok (matching_lines args.ack_input _) _ h5 in
    let (rows, made, h7) =
      >>=-eq-ok (build_events args.experiment_id args.run_id ratios commands applied acks) _ h6 in
    let (distinct, h8) = >>-eq-ok (check_ids rows) _ h7 in
    let (_, h9) = >>-eq-ok (check_times rows) _ h8 in
    let (accepted, h10) = >>-eq-ok (all_accepted schema rows) _ h9 in
    let (is_built, size) =
      build_events-IsBuilt args.experiment_id args.run_id ratios commands applied acks made in
    let count = length-parse_requested_ratios args.requested_ratios parsed in
    subst (λ out. load_actuator_timeline schema args.experiment_id args.run_id out.0 ≡ ok out)
      (ok-eq h10)
      (load_actuator_timeline-IsBuilt schema args.experiment_id args.run_id (length ratios) rows
        is_built accepted (require-eq-ok _ _ distinct) size count)
