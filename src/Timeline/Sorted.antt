-- ===== src/Timeline/Sorted.antt =====
-- The order of the times that build-actuator-timeline.py writes
-- (scripts/experiment-harness).
use tcd_oran_testbed_integra.Base.{
  ℕ, ltb, ◌≡◌, refl, Bool, true, false, not, ◌&&◌, none, some, List, ◌∷◌, map, String, ok, arith,
  require-pass,
}
use tcd_oran_testbed_integra.Base.Text.{Text}
use tcd_oran_testbed_integra.Base.Integers.{ℤ, pos, negsuc, less}
use tcd_oran_testbed_integra.Timeline.Event.{Event}
use tcd_oran_testbed_integra.Timeline.Build.{
  is_after, is_sorted, check_times, build_events, command_event, applied_event, ack_event,
}
use tcd_oran_testbed_integra.Timeline.Built.{IsBuilt, done, built, build_events-IsBuilt}

ltb-asym : (a b : ℕ) → ltb a b ≡ true → not (ltb b a) ≡ true
ltb-asym a b h = ground arith

less-asym : (a b : ℤ) → less a b ≡ true → not (less b a) ≡ true
less-asym (pos a) (pos b) h = ltb-asym a b h
less-asym (pos a) (negsuc b) h = absurd (cc h)
less-asym (negsuc a) (pos b) h = refl
less-asym (negsuc a) (negsuc b) h = ltb-asym b a h

and-true : (a b : Bool) → a ≡ true → b ≡ true → (a && b) ≡ true
and-true true b e f = f
and-true false b e f = absurd (cc e)

abbrev times_of : List Event → List ℤ
times_of = map (λ e. e.timestamp_utc_ns)

module _ (experiment_id run_id : String) where
  is_sorted-IsBuilt :
      (time : ℤ) {events : List Event}
      → IsBuilt experiment_id run_id (some time) events
      → is_sorted (time ∷ times_of events) ≡ true
  unfolding is_sorted is_after command_event applied_event ack_event
  is_sorted-IsBuilt time done = refl
  is_sorted-IsBuilt time (built index ratio control p rows) =
      and-true _ _ (less-asym time control.command_ns p.later) (
        and-true _ _ (less-asym control.command_ns control.applied_ns p.after_command) (
          and-true _ _ (less-asym control.applied_ns control.ack_ns p.before_ack)
            (is_sorted-IsBuilt control.ack_ns rows)))

  is_sorted-first :
      {events : List Event}
      → IsBuilt experiment_id run_id none events
      → is_sorted (times_of events) ≡ true
  unfolding is_sorted command_event applied_event ack_event
  is_sorted-first done = refl
  is_sorted-first (built index ratio control p rows) =
      and-true _ _ (less-asym control.command_ns control.applied_ns p.after_command) (
        and-true _ _ (less-asym control.applied_ns control.ack_ns p.before_ack)
          (is_sorted-IsBuilt control.ack_ns rows))

-- The events that build_events returns pass main's test of the global order: after the checks of
-- the controls the error "global actuator timeline ordering violation" is never raised.
pub check_times-build_events :
    (experiment_id run_id : String) (ratios : List ℕ) (commands applied acks : List Text)
    {events : List Event}
    → build_events experiment_id run_id ratios commands applied acks ≡ ok events
    → check_times events ≡ ok tt
unfolding check_times
check_times-build_events experiment_id run_id ratios commands applied acks h = require-pass _ _ (
    is_sorted-first experiment_id run_id
      (build_events-IsBuilt experiment_id run_id ratios commands applied acks h).0)
