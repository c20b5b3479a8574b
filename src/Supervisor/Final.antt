-- ===== src/Supervisor/Final.antt =====
-- The report of a live run, whatever the host does
-- (scripts/experiment-harness/prompt12-bounded-orchestration-supervisor.py).
use mathlib.Core.Path.{subst}
use tcd_oran_testbed_integra.Base.{
  ℕ, ◌+◌, ◌≤◌, ◌≡◌, ◌↔◌, true, false, Bool, List, [], length, Option, some, String, refl, ap, arith,
  if◌then◌else◌,
}
use tcd_oran_testbed_integra.Supervisor.Host.{
  Host, Report, base_report, Reply, done, raised, crashed, ExitCode, Action, code, Live, ask, act,
  pure, crash, update, ◌>>=◌,
}
use tcd_oran_testbed_integra.Supervisor.Phase.{pre}
use tcd_oran_testbed_integra.Supervisor.Live.{
  Plan, all_transitions, measured, with_traffic, terminate_process, finalized, run_live,
  closed_with, main_live,
}
use tcd_oran_testbed_integra.Supervisor.Logic.{
  Ends, >>=-Ends, ask-IsQuiet, pure-IsQuiet, crash-IsQuiet, raise_if-IsQuiet,
}
use tcd_oran_testbed_integra.Supervisor.Recorded.{
  Call, Journal, recorded, initial, final, Calls, none_yet, Sent, whole, calls_of,
}
use tcd_oran_testbed_integra.Supervisor.Fire.{all_transitions-Counts}
use tcd_oran_testbed_integra.Supervisor.Counts.{
  Counts, Stage, check-IsQuiet, phase-IsQuiet, Done, Stops, keeps_Counts, note-Counts,
  require_traffic-IsQuiet,
}

-- The final report of a run over a plan, its exit code, and the calls of `subprocess.run`.
pub record IsFinal (plan : Plan) (calls : List Call) (rc : Option ExitCode) (r : Report)
    : Type 0 where
  pub gate : (rc ≡ some (code 0)) ↔ (r.supervisor_gate ≡ true)
  pub finished :
      rc ≡ some (code 0)
      → (r.trigger_write_attempt_count ≡ length plan.transitions)
        × (r.trigger_write_success_count ≡ length plan.transitions)
        × (r.fail_closed_reason ≡ "NONE")
        × Calls plan (length plan.transitions) calls
  pub sent : Sent plan r.trigger_write_attempt_count r.trigger_write_success_count calls
  pub in_order : r.trigger_write_success_count ≤ r.trigger_write_attempt_count
  pub at_most_one_open : r.trigger_write_attempt_count ≤ r.trigger_write_success_count + 1
  pub limited : r.trigger_write_attempt_count ≤ length plan.transitions
  pub replay : (r.never_automatically_replay ≡ true) ↔ (1 ≤ r.trigger_write_attempt_count)
  pub control : (r.control_executed ≡ true) ↔ (1 ≤ r.trigger_write_success_count)

module _ (inner : Host) (plan : Plan) where
  abbrev host : Host
  host = recorded inner

  open host use {World, monotonic, start, poll, terminate}

  measured-Counts :
      (started : ℕ) (s : Live World)
      → Stage plan 0 s
      → let n = length plan.transitions in
        Ends (measured host started plan s) (Done inner plan n) (Stops inner plan n)
  unfolding measured
  measured-Counts started s c =
      let n = length plan.transitions in
      >>=-Ends (Done inner plan 0) (Done inner plan n) (Stops inner plan n) _ _ s
        (keeps_Counts inner plan _ 0 n s (ask-IsQuiet monotonic (λ w c. c)) (omega arith) c)
        (λ now s1 c1.
          >>=-Ends (Done inner plan 0) (Done inner plan n) (Stops inner plan n) _ _ s1
            (keeps_Counts inner plan _ 0 n s1
              (phase-IsQuiet inner plan 0 plan.initial_stationarity_command started now pre initial)
              (omega arith) c1)
            (λ extensions s2 c2.
              >>=-Ends (Done inner plan 0) (Done inner plan n) (Stops inner plan n) _ _ s2
                (note-Counts inner plan _ 0 n s2 (λ r. (refl, refl, refl, refl, refl)) c2)
                (λ _ s3 c3.
                  >>=-Ends (Done inner plan n) (Done inner plan n) (Stops inner plan n) _ _ s3
                    (subst
                      (λ (m : ℕ).
                        Ends (all_transitions host started plan.transitions s3) (Done inner plan m)
                          (Stops inner plan n))
                      (omega arith)
                      (all_transitions-Counts inner plan started plan.transitions 0 n s3 refl
                        (omega arith) c3))
                    (λ counts s4 c4.
                      >>=-Ends (Done inner plan n) (Done inner plan n) (Stops inner plan n) _ _ s4
                        (note-Counts inner plan _ n n s4 (λ r. (refl, refl, refl, refl, refl)) c4)
                        (λ _ s5 c5.
                          keeps_Counts inner plan _ n n s5
                            (require_traffic-IsQuiet inner plan n
                              "TRAFFIC_TERMINATED_BEFORE_FINALIZATION")
                            (omega arith) c5)))))

  -- The end of the traffic changes neither the report nor the calls.
  IsIdle : (s s' : Live World) → Type 0
  IsIdle s s' = (s'.report ≡ s.report) × (s'.world.calls ≡ s.world.calls)

  terminate_process-IsIdle : (s : Live World) → IsIdle s (terminate_process host s).1
  unfolding terminate_process ask ◌>>=◌ IsIdle pure act
  terminate_process-IsIdle s = idle (inner.poll s.world.world).0
    where
      idle :
          (ended : Bool)
          → let s1 : Live World = record s {
            world = record s.world { world = (inner.poll s.world.world).1 };
          } in
            ((((if ended then pure tt else act terminate) s1).1.report) ≡ s.report)
            × ((((if ended then pure tt else act terminate) s1).1.world.calls) ≡ s.world.calls)
      idle true = (refl, refl)
      idle false = (refl, refl)

  after_traffic :
      (n : ℕ) (reply : Reply (Unit {0})) (s s' : Live World)
      → IsIdle s s'
      → Ends (reply, s) (Done inner plan n) (Stops inner plan n)
      → Ends (reply, s') (Done inner plan n) (Stops inner plan n)
  unfolding IsIdle
  after_traffic n (done a) s s' e h = record { counts = rw e.0 h.counts; calls = rw e.1 h.calls }
  after_traffic n (raised reason rc) s s' e h = (h.0, rw (e.0, e.1) h.1)
  after_traffic n (crashed name) s s' e h = (h.0, rw (e.0, e.1) h.1)

  with_traffic-Counts :
      (n : ℕ) (action : Action World (Unit {0})) (s : Live World)
      → Ends (action s) (Done inner plan n) (Stops inner plan n)
      → Ends (with_traffic host action s) (Done inner plan n) (Stops inner plan n)
  unfolding with_traffic
  with_traffic-Counts n action s h =
      let s' = (action s).1 in
      after_traffic n (action s).0 s' (terminate_process host s').1 (terminate_process-IsIdle s') h

  -- The run has passed: the counts are full, and the report says so.
  abbrev Passed : ℕ → ℕ → Live World → Type 0
  Passed n rc s =
      (rc ≡ 0)
      × (s.report.trigger_write_attempt_count ≡ n)
      × (s.report.trigger_write_success_count ≡ n)
      × (s.report.supervisor_gate ≡ true)
      × (s.report.fail_closed_reason ≡ "NONE")
      × ((s.report.never_automatically_replay ≡ true) ↔ (1 ≤ n))
      × ((s.report.control_executed ≡ true) ↔ (1 ≤ n))
      × Calls plan n s.world.calls

  finalized-Counts :
      (started : ℕ) (n : ℕ) (s : Live World)
      → Stage plan n s
      → Ends ((finalized host started plan >>= λ _. pure 0) s) (Passed n) (Stops inner plan n)
  unfolding finalized update pure
  finalized-Counts started n s c =
      >>=-Ends (λ _ s'. Passed n 0 s') (Passed n) (Stops inner plan n) (finalized host started plan)
        _ s
        (>>=-Ends (Done inner plan n) (λ _ s'. Passed n 0 s') (Stops inner plan n) _ _ s
          (keeps_Counts inner plan _ n n s
            (check-IsQuiet inner plan n plan.finalization_command started "FINALIZATION_FAILED"
              final)
            (omega arith) c)
          (λ _ s1 c1. (
            refl, c1.counts.attempted, c1.counts.succeeded, refl, refl, c1.counts.replay,
            c1.counts.control, c1.calls,
          )))
        (λ _ s' p. p)

  start-Counts :
      (running : Bool) (n : ℕ) (s : Live World)
      → Stage plan 0 s
      → Ends
          ((if running then pure tt else crash "OSError") s)
          (Done inner plan 0)
          (Stops inner plan n)
  start-Counts true n s c = keeps_Counts inner plan _ 0 n s (pure-IsQuiet tt) (omega arith) c
  start-Counts false n s c =
      keeps_Counts inner plan _ 0 n s (crash-IsQuiet (Unit {0}) "OSError") (omega arith) c

  run_live-Counts :
      (enable token : Option String) (s : Live World)
      → Stage plan 0 s
      → let n = length plan.transitions in
        Ends (run_live host plan enable token s) (Passed n) (Stops inner plan n)
  unfolding run_live
  run_live-Counts enable token s c =
      let n = length plan.transitions in
      let S = Stops inner plan n in
      >>=-Ends (Done inner plan 0) (Passed n) S _ _ s
        (keeps_Counts inner plan _ 0 n s
          (raise_if-IsQuiet _ "LIVE_CONTROL_NOT_ENABLED" 77 (omega arith)) (omega arith) c)
        (λ _ s1 c1.
          >>=-Ends (Done inner plan 0) (Passed n) S _ _ s1
            (keeps_Counts inner plan _ 0 n s1 (raise_if-IsQuiet _ _ 77 (omega arith)) (omega arith)
              c1)
            (λ _ s2 c2.
              >>=-Ends (Done inner plan 0) (Passed n) S _ _ s2
                (keeps_Counts inner plan _ 0 n s2 (ask-IsQuiet monotonic (λ w c. c)) (omega arith)
                  c2)
                (λ started s3 c3.
                  >>=-Ends (Done inner plan 0) (Passed n) S _ _ s3
                    (keeps_Counts inner plan _ 0 n s3
                      (ask-IsQuiet (start plan.traffic_command) (λ w c. c)) (omega arith) c3)
                    (λ running s4 c4.
                      >>=-Ends (Done inner plan 0) (Passed n) S _ _ s4
                        (start-Counts running n s4 c4)
                        (λ _ s5 c5.
                          >>=-Ends (Done inner plan n) (Passed n) S _ _ s5
                            (with_traffic-Counts n (measured host started plan) s5
                              (measured-Counts started s5 c5))
                            (λ _ s6 c6. finalized-Counts started n s6 c6))))))

  opening : Counts 0 0 base_report
  unfolding base_report
  opening = ground arith

  closed-IsFinal :
      (x : Reply ℕ × Live World)
      → Ends x (Passed (length plan.transitions)) (Stops inner plan (length plan.transitions))
      → let (rc, r) = closed_with host x in IsFinal plan x.1.world.calls rc r
  unfolding closed_with
  closed-IsFinal (done rc, s) (zero_rc, attempts, successes, gate, reason, replay, control, calls) =
      let n = length plan.transitions in
      record {
        gate = (λ _. gate, λ _. ap (λ c. some (code c)) zero_rc);
        finished = λ _. (attempts, successes, reason, calls);
        sent = rw (attempts, successes) (whole calls);
        in_order = omega arith;
        at_most_one_open = omega arith;
        limited = omega arith;
        replay = rw attempts replay;
        control = rw successes control;
      }
  closed-IsFinal (raised reason rc, s) (nonzero, st) = record {
    gate = (λ e. absurd (nonzero e), λ e. cc);
    finished = λ e. absurd (nonzero e);
    sent = rw (st.counts.attempted, st.counts.succeeded) st.sent;
    in_order = omega (arith, st.counts.attempted, st.counts.succeeded, st.in_order);
    at_most_one_open = omega (arith, st.counts.attempted, st.counts.succeeded, st.at_most_one_open);
    limited = omega (arith, st.counts.attempted, st.limited);
    replay = rw st.counts.attempted st.counts.replay;
    control = rw st.counts.succeeded st.counts.control;
  }
  closed-IsFinal (crashed e, s) (nonzero, st) = record {
    gate = (λ e. cc, λ e. cc (e, st.counts.open_gate));
    finished = λ e. absurd (nonzero e);
    sent = rw (st.counts.attempted, st.counts.succeeded) st.sent;
    in_order = omega (arith, st.counts.attempted, st.counts.succeeded, st.in_order);
    at_most_one_open = omega (arith, st.counts.attempted, st.counts.succeeded, st.at_most_one_open);
    limited = omega (arith, st.counts.attempted, st.limited);
    replay = rw st.counts.attempted st.counts.replay;
    control = rw st.counts.succeeded st.counts.control;
  }

-- Whatever the host does, a live run exits with 0 exactly when its gate passes, and then the
-- commands that were run, as a journal of the host has them, are checks of the plan and each of its
-- triggers, called once, in order, directly after a ratio binding that returned 0 and printed its
-- marker, and with return code 0. However the run ends, the successes that the report counts are
-- trigger commands that were run in this way, and there is at most one attempt more, the last, whose
-- command was not run or did not return 0. No trigger is attempted beyond the plan, repetition is
-- ruled out from the first attempt on, and control counts as executed exactly when an attempt has
-- succeeded.
pub main_live-IsFinal :
    (inner : Host) (plan : Plan) (enable token : Option String) (w : inner.World)
    → let begin : Journal inner.World = record { world = w; calls = [] } in
      let (rc, r) = main_live (recorded inner) plan enable token begin in
      IsFinal plan (calls_of inner plan enable token w) rc r
unfolding main_live
main_live-IsFinal inner plan enable token w =
    let begin : Live (Journal inner.World) = record {
      world = record { world = w; calls = [] };
      report = base_report;
    } in
    closed-IsFinal inner plan (run_live (recorded inner) plan enable token begin) (
      run_live-Counts inner plan enable token begin
        (record { counts = opening inner plan; calls = none_yet }))
