-- ===== src/Supervisor/Counts.antt =====
-- What the report says of the triggers, however a live run ends
-- (scripts/experiment-harness/prompt12-bounded-orchestration-supervisor.py).
use tcd_oran_testbed_integra.Base.{
  ℕ, ◌+◌, ◌≤◌, ◌≡◌, ◌≢◌, ◌↔◌, true, false, Bool, not, List, [], ◌∷◌, ◌++◌, Option, none, some,
  String, refl, arith, Option-cases, inl, inr, ◌∙◌, get_elem?,
}
use tcd_oran_testbed_integra.Base.Text.{Text, codes, strip, splitlines}
use tcd_oran_testbed_integra.Supervisor.Host.{
  Host, Outcome, timed_out, unavailable, returned, success, failure, Report, ExitCode, Action, code,
  Live, update, pure, raise, crash, ask, raise_if, ◌>>=◌,
}
use tcd_oran_testbed_integra.Supervisor.Phase.{
  Role, require_remaining, completed, run_command, stationarity_gate,
}
use tcd_oran_testbed_integra.Supervisor.Live.{
  Plan, Transition, count_attempt, count_success, require_traffic, bind_ratio, has_line,
}
use tcd_oran_testbed_integra.Supervisor.Logic.{
  Ends, >>=-Ends, Ends-weaken, Ends-both, Anything, ends_somehow, Same, IsQuiet, >>=-IsQuiet,
  ask-IsQuiet, raise_if-IsQuiet,
}
use tcd_oran_testbed_integra.Supervisor.Gate.{run_command-IsQuiet, stationarity_gate-IsQuiet}
use tcd_oran_testbed_integra.Supervisor.Recorded.{
  Call, IsBound, Journal, recorded, Preserves, IsCheck, bind, Calls, check, Sent, whole,
}

-- So many triggers were attempted, and so many succeeded, within a run that is not finished.
pub record Counts (attempts successes : ℕ) (r : Report) : Type 0 where
  pub attempted : r.trigger_write_attempt_count ≡ attempts
  pub succeeded : r.trigger_write_success_count ≡ successes
  pub replay : (r.never_automatically_replay ≡ true) ↔ (1 ≤ attempts)
  pub control : (r.control_executed ≡ true) ↔ (1 ≤ successes)
  pub open_gate : r.supervisor_gate ≡ false

-- The triggers of a run that stopped before its end: at most one attempt more than successes.
pub record IsStopped (plan : Plan) (limit : ℕ) (r : Report) (calls : List Call) : Type 0 where
  pub attempts : ℕ
  pub successes : ℕ
  pub counts : Counts attempts successes r
  pub in_order : successes ≤ attempts
  pub at_most_one_open : attempts ≤ successes + 1
  pub limited : attempts ≤ limit
  pub sent : Sent plan attempts successes calls

-- So far every attempt was a success, and the calls are those of so many triggers.
pub record Stage {W : Type 0} (plan : Plan) (k : ℕ) (s : Live (Journal W)) : Type 0 where
  pub counts : Counts k k s.report
  pub calls : Calls plan k s.world.calls

module _ (inner : Host) (plan : Plan) where
  -- The host, with its journal.
  abbrev pub host : Host
  host = recorded inner

  open host use {World, monotonic, start, poll, terminate}

  -- The calls are those of so many triggers.
  abbrev pub HasCalls : ℕ → World → Type 0
  HasCalls k j = Calls plan k j.calls

  -- No more triggers are called by the checks of the plan.
  pub keeps_calls : (k : ℕ) → Preserves host (HasCalls k) (IsCheck plan)
  keeps_calls k = record {
    clock = λ w c. c;
    slept = λ n w c. c;
    ran = λ argv limit allowed w c. check allowed c;
    begun = λ argv w c. c;
    polled = λ w c. c;
    ended = λ w c. c;
  }

  -- The action was done with so many triggers, or stopped with no more than the limit.
  abbrev pub Done : {A : Type 0} → ℕ → A → Live World → Type 0
  Done k _ s = Stage plan k s

  abbrev pub Stops : ℕ → Option ExitCode → Live World → Type 0
  Stops limit rc s = (rc ≢ some (code 0)) × IsStopped plan limit s.report s.world.calls

  pub stopped :
      (k limit : ℕ) (s : Live World)
      → k ≤ limit
      → Stage plan k s
      → IsStopped plan limit s.report s.world.calls
  stopped k limit s h c = record {
    attempts = k;
    successes = k;
    counts = c.counts;
    in_order = omega arith;
    at_most_one_open = omega arith;
    limited = h;
    sent = whole c.calls;
  }

  pub Same-Stage :
      (k : ℕ) (r : Report) (s : Live World) → Counts k k r → Same (HasCalls k) r s → Stage plan k s
  Same-Stage k r s c e = record { counts = rw e.report_is c; calls = e.kept }

  -- A quiet action keeps the counts and the calls.
  pub keeps_Counts :
      {A : Type 0} (m : Action World A) (k limit : ℕ) (s : Live World)
      → IsQuiet (HasCalls k) m
      → k ≤ limit
      → Stage plan k s
      → Ends (m s) (Done k) (Stops limit)
  keeps_Counts m k limit s q h c =
      Ends-weaken (λ _ s'. Same (HasCalls k) s.report s') (Done k)
        (λ rc s'. (rc ≢ some (code 0)) × Same (HasCalls k) s.report s') (Stops limit) (m s)
        (q.quiet s.report s (record { report_is = refl; kept = c.calls }))
        (λ _ s' e. Same-Stage k s.report s' c.counts e)
        (λ rc s' e. (e.0, stopped k limit s' h (Same-Stage k s.report s' c.counts e.1)))

  pub check-IsQuiet :
      (k : ℕ) (argv : List String) (started : ℕ) (reason : String)
      → IsCheck plan argv
      → IsQuiet (HasCalls k) (run_command host argv started reason)
  check-IsQuiet k = run_command-IsQuiet host (HasCalls k) (IsCheck plan) (keeps_calls k)

  pub phase-IsQuiet :
      (k : ℕ) (argv : List String) (started phase_started : ℕ) (role : Role)
      → IsCheck plan argv
      → IsQuiet (HasCalls k) (stationarity_gate host argv started phase_started role)
  phase-IsQuiet k = stationarity_gate-IsQuiet host (HasCalls k) (IsCheck plan) (keeps_calls k)

  pub require_traffic-IsQuiet :
      (k : ℕ) (reason : String) → IsQuiet (HasCalls k) (require_traffic host reason)
  unfolding require_traffic
  require_traffic-IsQuiet k reason =
      >>=-IsQuiet _ _ (ask-IsQuiet poll (λ w c. c))
        (λ ended. raise_if-IsQuiet ended reason 76 (omega arith))

  -- An update of the report that does not touch what is counted.
  abbrev pub IsNote : (Report → Report) → Type 0
  IsNote f =
      (r : Report)
      → ((f r).trigger_write_attempt_count ≡ r.trigger_write_attempt_count)
        × ((f r).trigger_write_success_count ≡ r.trigger_write_success_count)
        × ((f r).never_automatically_replay ≡ r.never_automatically_replay)
        × ((f r).control_executed ≡ r.control_executed)
        × ((f r).supervisor_gate ≡ r.supervisor_gate)

  pub note-Counts :
      (f : Report → Report) (k limit : ℕ) (s : Live World)
      → IsNote f
      → Stage plan k s
      → Ends (update f s) (Done k) (Stops limit)
  unfolding update
  note-Counts f k limit s n c =
      let (a, b, d, e, g) = n s.report in
      record {
        counts = record {
          attempted = a ∙ c.counts.attempted;
          succeeded = b ∙ c.counts.succeeded;
          replay = rw d c.counts.replay;
          control = rw e c.counts.control;
          open_gate = g ∙ c.counts.open_gate;
        };
        calls = c.calls;
      }

  -- The output of a command, of which the latest call is.
  record IsLatest (argv : List String) (stdout : Text) (s : Live World) : Type 0 where
    before : List Call
    latest : s.world.calls ≡ record { argv = argv; outcome = returned success stdout } ∷ before

  found : (b : Bool) → not b ≡ false → b ≡ true
  found true h = refl
  found false h = absurd (cc h)

  -- A command that returned 0 is the latest call.
  completed-IsLatest :
      (argv : List String) (reason : String) (outcome : Outcome) (s : Live World)
      (calls : List Call)
      → s.world.calls ≡ record { argv = argv; outcome = outcome } ∷ calls
      → Ends (completed host reason outcome s) (IsLatest argv) Anything
  unfolding completed raise crash pure
  completed-IsLatest argv reason timed_out s calls e = tt
  completed-IsLatest argv reason unavailable s calls e = tt
  completed-IsLatest argv reason (returned success stdout) s calls e = record {
    before = calls;
    latest = e;
  }
  completed-IsLatest argv reason (returned (failure number) stdout) s calls e = tt

  run_command-IsLatest :
      (argv : List String) (started : ℕ) (reason : String) (s : Live World)
      → Ends (run_command host argv started reason s) (IsLatest argv) Anything
  unfolding run_command ask ◌>>=◌
  run_command-IsLatest argv started reason s =
      >>=-Ends Anything (IsLatest argv) Anything
        (require_remaining host started "EXPERIMENT_TIMEOUT") _ s (ends_somehow _)
        (λ remaining s1 _.
          let w = inner.run argv remaining s1.world.world in
          let s2 : Live World = record s1 {
            world = record {
              world = w.1;
              calls = record { argv = argv; outcome = w.0 } ∷ s1.world.calls;
            };
          } in
          completed-IsLatest argv reason w.0 s2 s1.world.calls refl)

  -- The test of the marker.
  marker-Counts :
      (missing : Bool) (reason : String) (k limit : ℕ) (s : Live World) (argv : List String)
      (out : Text)
      → k ≤ limit
      → Stage plan k s
      → IsLatest argv out s
      → Ends
          (raise_if missing reason 76 s)
          (λ _ s'. (missing ≡ false) × Stage plan k s' × IsLatest argv out s')
          (Stops limit)
  unfolding raise_if
  marker-Counts true reason k limit s argv out h c l = (λ x. ground arith, stopped k limit s h c)
  marker-Counts false reason k limit s argv out h c l = (refl, c, l)

  no_code : none ≢ some (code 0)
  no_code = λ x. cc

  -- The ratio binding, for anything that follows from its success.
  bind_ratio-Ends :
      (started : ℕ) (t : Transition) (k limit : ℕ) (s : Live World)
      (R : Unit {0} → Live World → Type 0)
      → get_elem? plan.transitions k ≡ some t
      → k ≤ limit
      → Stage plan k s
      → ((argv : List String) (out : Text) (s' : Live World)
          → t.ratio_bind_command ≡ some argv
          → has_line (codes "RATIO_BOUND=PASS") (splitlines (strip out)) ≡ true
          → Stage plan k s'
          → IsLatest argv out s'
          → R tt s')
      → Ends (bind_ratio host started t s) R (Stops limit)
  unfolding bind_ratio update crash
  bind_ratio-Ends started t k limit s R at h c reach = elim (Option-cases t.ratio_bind_command) [
    | inl e ↦ rw e (no_code, stopped k limit s h c)
    | inr (argv, e) ↦ rw e (
        >>=-Ends (λ out s'. Stage plan k s' × IsLatest argv out s') R (Stops limit) _ _ s
          (Ends-both (Done k) (IsLatest argv) (Stops limit) Anything
            (run_command host argv started _ s)
            (keeps_Counts _ k limit s (check-IsQuiet k argv started _ (bind k t at e)) h c)
            (run_command-IsLatest argv started _ s))
          (λ out s1 c1.
            let marked = has_line (codes "RATIO_BOUND=PASS") (splitlines (strip out)) in
            >>=-Ends (λ _ s'. (not marked ≡ false) × Stage plan k s' × IsLatest argv out s') R
              (Stops limit) _ _ s1 (marker-Counts (not marked) _ k limit s1 argv out h c1.0 c1.1)
              (λ _ s2 c2.
                reach argv out _ e (found marked c2.0)
                  (note-Counts
                    (λ r. record r {
                      ratio_bind_stdout = r.ratio_bind_stdout ++ (t.label, strip out) ∷ [];
                    })
                    k limit s2 (λ r. (refl, refl, refl, refl, refl)) c2.1)
                  (record { before = c2.2.before; latest = c2.2.latest }))))
  ]

  pub bind_ratio-Counts :
      (started : ℕ) (t : Transition) (k limit : ℕ) (s : Live World)
      → get_elem? plan.transitions k ≡ some t
      → k ≤ limit
      → Stage plan k s
      → Ends
          (bind_ratio host started t s)
          (λ _ s'. Stage plan k s' × IsBound t s'.world.calls)
          (Stops limit)
  bind_ratio-Counts started t k limit s at h c =
      bind_ratio-Ends started t k limit s (λ _ s'. Stage plan k s' × IsBound t s'.world.calls) at h
        c
        (λ argv out s' e marked stage latest. (
          stage,
          record {
            argv = argv;
            is_binding = e;
            stdout = out;
            marked = marked;
            before = latest.before;
            latest = latest.latest;
          },
        ))

  pub attempt-Counts : (k : ℕ) (r : Report) → Counts k k r → Counts (k + 1) k (count_attempt r)
  attempt-Counts k r c = record {
    attempted = omega (arith, c.attempted);
    succeeded = c.succeeded;
    replay = (λ _. omega arith, λ _. refl);
    control = c.control;
    open_gate = c.open_gate;
  }

  pub success-Counts :
      (label : String) (out : Text) (k : ℕ) (r : Report)
      → Counts (k + 1) k r
      → Counts (k + 1) (k + 1) (count_success label out r)
  success-Counts label out k r c = record {
    attempted = c.attempted;
    succeeded = omega (arith, c.succeeded);
    replay = c.replay;
    control = (λ _. omega arith, λ _. refl);
    open_gate = c.open_gate;
  }
