-- ===== src/Timeline/Built.antt =====
-- The rows that the loop of build-actuator-timeline.py builds, and how the loops of
-- load_actuator_timeline take them (scripts/experiment-harness).
use package.text.Mathlib.Text.{◌==◌ as str_eq}
use text.Mathlib.TextEquality.{eq_iff}
use mathlib.Core.Path.{subst}
use tcd_oran_testbed_integra.Base.{
  ℕ, suc, ◌*◌, ◌==◌, ◌≡◌, refl, ap, Bool, true, false, not, ◌&&◌, Option, none, some, List, [], ◌∷◌,
  map, length, String, ok, require, ◌>>=◌, >>-eq-ok, >>=-eq-ok, ok-eq, require-eq-ok, >>-pass,
  require-pass, &&-eq-true, arith,
}
use tcd_oran_testbed_integra.Base.Text.{Text}
use tcd_oran_testbed_integra.Base.Integers.{ℤ, less}
use tcd_oran_testbed_integra.Timeline.Event.{Event, Schema, ratio_prbs}
use tcd_oran_testbed_integra.Timeline.Build.{
  Control, read_control, is_prbs, is_after, check_control, command_event, applied_event, ack_event,
  control_events, build_events, member, distinct_from, all_accepted, plant_steps,
}
use tcd_oran_testbed_integra.Timeline.Load.{
  prbs_of, is_count, is_status, is_known, check_row, check_rows, check_triplet, check_controls,
}

both-pass : (a b : Bool) → a ≡ true → b ≡ true → (a && b) ≡ true
both-pass true b e f = f
both-pass false b e f = absurd (cc e)

is_prbs-is_known :
    (expected : Option ℕ) (n : ℕ) → is_prbs expected n ≡ true → is_known expected ≡ true
unfolding is_prbs
is_prbs-is_known none n h = absurd (cc h)
is_prbs-is_known (some m) n h = refl

-- What a control has passed.
pub record Passed (previous : Option ℤ) (ratio : ℕ) (control : Control) : Type 0 where
  pub minimum : (control.applied_min == 0) ≡ true
  pub maximum : is_prbs (ratio_prbs ratio) control.applied_max ≡ true
  pub after_command : less control.command_ns control.applied_ns ≡ true
  pub before_ack : less control.applied_ns control.ack_ns ≡ true
  pub later : is_after previous control.command_ns ≡ true

check_control-Passed :
    (previous : Option ℤ) (ratio : ℕ) (control : Control)
    → check_control previous ratio control ≡ ok tt
    → Passed previous ratio control
unfolding check_control
check_control-Passed previous ratio control h =
    let (minimum, h1) = >>-eq-ok _ _ h in
    let (maximum, h2) = >>-eq-ok _ _ h1 in
    let (order, later) = >>-eq-ok _ _ h2 in
    let (o1, o2) = &&-eq-true _ _ (require-eq-ok _ _ order) in
    record {
      minimum = require-eq-ok _ _ minimum;
      maximum = require-eq-ok _ _ maximum;
      after_command = o1;
      before_ack = o2;
      later = require-eq-ok _ _ later;
    }

module _ (experiment_id run_id : String) (index ratio : ℕ) (control : Control) where
  check_triplet-events :
      (previous : Option ℤ)
      → Passed previous ratio control
      → check_triplet previous
          (command_event experiment_id run_id index ratio control)
          (applied_event experiment_id run_id index control)
          (ack_event experiment_id run_id index control)
        ≡ ok tt
  unfolding check_triplet command_event applied_event ack_event prbs_of is_count is_status
  check_triplet-events previous p = >>-pass (require true "") _ refl (
      >>-pass (require (is_known (ratio_prbs ratio)) _) _
        (require-pass _ _ (is_prbs-is_known (ratio_prbs ratio) _ p.maximum))
        (>>-pass (require (control.applied_min == 0) _) _ (require-pass _ _ p.minimum) (
          >>-pass (require (is_prbs (ratio_prbs ratio) control.applied_max) _) _
            (require-pass _ _ p.maximum)
            (>>-pass (require true "") _ refl (
              >>-pass _ _ (require-pass _ _ (both-pass _ _ p.after_command p.before_ack))
                (require-pass _ _ p.later))))))

  triplet-plant_steps :
      (rest : List Event)
      → plant_steps (
          command_event experiment_id run_id index ratio control
          ∷ applied_event experiment_id run_id index control
          ∷ ack_event experiment_id run_id index control
          ∷ rest)
        ≡ control.applied_ns ∷ plant_steps rest
  unfolding plant_steps command_event applied_event ack_event
  triplet-plant_steps rest = refl

-- The rows that the loop of the controls has built.
pub data IsBuilt (experiment_id run_id : String) : Option ℤ → List Event → Type 0 where
  done : {previous : Option ℤ} → IsBuilt experiment_id run_id previous []
  built :
      {previous : Option ℤ} (index ratio : ℕ) (control : Control) {rest : List Event}
      → Passed previous ratio control
      → IsBuilt experiment_id run_id (some control.ack_ns) rest
      → IsBuilt experiment_id run_id previous (
          command_event experiment_id run_id index ratio control
          ∷ applied_event experiment_id run_id index control
          ∷ ack_event experiment_id run_id index control
          ∷ rest)

module _ (experiment_id run_id : String) where
  control_events-IsBuilt :
      (index : ℕ) (previous : Option ℤ) (ratios : List ℕ) (commands applied acks : List Text)
      {events : List Event}
      → control_events experiment_id run_id index previous ratios commands applied acks ≡ ok events
      → IsBuilt experiment_id run_id previous events × (length events ≡ length ratios * 3)
  unfolding control_events
  control_events-IsBuilt index previous [] commands applied acks h =
      subst (λ events. IsBuilt experiment_id run_id previous events × (length events ≡ 0)) (ok-eq h)
        (done, refl)
  control_events-IsBuilt index previous (ratio ∷ ratios) (c ∷ cs) (a ∷ aa) (k ∷ ks) {events} h =
      let (control, _, h1) = >>=-eq-ok (read_control c a k) _ h in
      let (checked, h2) = >>-eq-ok (check_control previous ratio control) _ h1 in
      let next =
        control_events experiment_id run_id (suc index) (some control.ack_ns) ratios cs aa ks in
      let (rest, h3, h4) = >>=-eq-ok next _ h2 in
      let (rows, size) =
        control_events-IsBuilt (suc index) (some control.ack_ns) ratios cs aa ks h3 in
      subst
        (λ events.
          IsBuilt experiment_id run_id previous events × (length events ≡ suc (length ratios) * 3))
        (ok-eq h4)
        (
          built index ratio control (check_control-Passed previous ratio control checked) rows,
          omega (arith, size),
        )
  control_events-IsBuilt index previous (ratio ∷ ratios) [] applied acks h = absurd (cc h)
  control_events-IsBuilt index previous (ratio ∷ ratios) (c ∷ cs) [] acks h = absurd (cc h)
  control_events-IsBuilt index previous (ratio ∷ ratios) (c ∷ cs) (a ∷ aa) [] h = absurd (cc h)

  pub build_events-IsBuilt :
      (ratios : List ℕ) (commands applied acks : List Text) {events : List Event}
      → build_events experiment_id run_id ratios commands applied acks ≡ ok events
      → IsBuilt experiment_id run_id none events × (length events ≡ length ratios * 3)
  unfolding build_events
  build_events-IsBuilt ratios commands applied acks h =
      let (_, h1) = >>-eq-ok _ _ h in control_events-IsBuilt 1 none ratios commands applied acks h1

  pub check_controls-plant_steps :
      {previous : Option ℤ} {events : List Event}
      → IsBuilt experiment_id run_id previous events
      → check_controls previous events ≡ ok (plant_steps events)
  unfolding check_controls plant_steps command_event applied_event ack_event
  check_controls-plant_steps done = refl
  check_controls-plant_steps {previous = previous} (built index ratio control p rows) =
      >>-pass (check_triplet previous _ _ _) _
        (check_triplet-events experiment_id run_id index ratio control previous p)
        (ap (λ times. times >>= (λ times. ok (control.applied_ns ∷ times)))
          (check_controls-plant_steps rows))

module _ (schema : Schema) (experiment_id run_id : String) where
  -- A row that is new and accepted passes, and the rows behind it stay so.
  check_rows-cons :
      (seen : List Text) (previous : Option ℤ) (row : Event) (rows : List Event)
      → all_accepted schema (row ∷ rows) ≡ ok tt
      → distinct_from seen (map (λ e. e.record_id) (row ∷ rows)) ≡ true
      → (row.experiment_id ≡ experiment_id) × (row.run_id ≡ run_id)
      → is_after previous row.timestamp_utc_ns ≡ true
      → (all_accepted schema rows ≡ ok tt
          → distinct_from (row.record_id ∷ seen) (map (λ e. e.record_id) rows) ≡ true
          → check_rows schema experiment_id run_id
              (row.record_id ∷ seen)
              (some row.timestamp_utc_ns)
              rows
            ≡ ok tt)
      → check_rows schema experiment_id run_id seen previous (row ∷ rows) ≡ ok tt
  unfolding check_rows check_row distinct_from
  check_rows-cons seen previous row rows accepted distinct same after next =
      let (one, others) = >>-eq-ok (require (schema.accepts row) _) _ accepted in
      let (new, apart) = &&-eq-true (not (member row.record_id seen)) _ distinct in
      >>-pass (check_row schema experiment_id run_id seen previous row) _
        (>>-pass (require (schema.accepts row) _) _ one (
          >>-pass (require (str_eq row.experiment_id experiment_id) _) _
            (require-pass _ _ ((eq_iff _ _).1 same.0))
            (>>-pass (require (str_eq row.run_id run_id) _) _
              (require-pass _ _ ((eq_iff _ _).1 same.1))
              (>>-pass (require (not (member row.record_id seen)) _) _ (require-pass _ _ new)
                (require-pass _ _ after)))))
        (next others apart)

  pub check_rows-built :
      (seen : List Text) {previous : Option ℤ} {events : List Event}
      → IsBuilt experiment_id run_id previous events
      → all_accepted schema events ≡ ok tt
      → distinct_from seen (map (λ e. e.record_id) events) ≡ true
      → check_rows schema experiment_id run_id seen previous events ≡ ok tt
  unfolding check_rows command_event applied_event ack_event is_after
  check_rows-built seen done accepted distinct = refl
  check_rows-built seen {previous = previous} (built index ratio control {rest = rest} p rows) acc
        dis =
      let c = command_event experiment_id run_id index ratio control in
      let a = applied_event experiment_id run_id index control in
      let k = ack_event experiment_id run_id index control in
      check_rows-cons seen previous c (a ∷ k ∷ rest) acc dis (refl, refl) p.later
        (λ acc1 dis1.
          check_rows-cons (c.record_id ∷ seen) (some control.command_ns) a (k ∷ rest) acc1 dis1
            (refl, refl) p.after_command
            (λ acc2 dis2.
              check_rows-cons (a.record_id ∷ c.record_id ∷ seen) (some control.applied_ns) k rest
                acc2 dis2 (refl, refl) p.before_ack
                (check_rows-built (k.record_id ∷ a.record_id ∷ c.record_id ∷ seen) rows)))
