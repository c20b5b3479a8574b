-- ===== src/Executor/Main.antt =====
-- The bounded control path and main
-- (scripts/experiment-harness/prompt12-precontrol-trigger-executor.py).
use tcd_oran_testbed_integra.Base.{
  ℕ, Bool, true, false, ◌&&◌, ◌||◌, leb, Option, none, some, List, [], ◌∷◌, ◌++◌, String,
  if◌then◌else◌,
}
use tcd_oran_testbed_integra.Base.Text.{Text}
use tcd_oran_testbed_integra.Base.Integers.{ℤ, is_below, exceeds}
use tcd_oran_testbed_integra.Base.Json.{Json}
use tcd_oran_testbed_integra.Stationarity.Decimals.{Decimals}
use tcd_oran_testbed_integra.Executor.Report.{
  Mode, no_control, fifo, Args, Host, Write, complete, partial, raised, gate_pass, fail_closed,
  fail_after_age_gate, not_done, done, unknown, not_applicable, never_automatically, never_repeat,
  unstated, Report, Ended,
}
use tcd_oran_testbed_integra.Executor.Checks.{Checked, passed, refused, crashed, Admission, admit}

-- `write_result` and the return of an exit code: it raises if the output is there.
unfoldable pub write_result : Host → Report → ℕ → List Text → Ended
write_result host report rc writes =
    if host.output_exists
    then record { report = none; rc = none; writes = writes }
    else record { report = some report; rc = some rc; writes = writes }

-- `fail_closed`, with the two gates of the clock as they stand.
unfoldable pub refusal : String → Option Bool → Option Bool → Report
refusal reason after_gate age_gate = record {
  executor_gate = fail_closed;
  fail_closed_reason = some reason;
  control_executed = not_done;
  trigger_write_attempt_count = 0;
  trigger_write_success_count = 0;
  scientific_trigger_consumed = not_done;
  replay_decision = not_applicable;
  start_after_decision_gate = after_gate;
  sample_age_gate = age_gate;
  no_control_dry_run = false;
}

unfoldable pub dry_run : Report
dry_run = record {
  executor_gate = gate_pass;
  fail_closed_reason = none;
  control_executed = not_done;
  trigger_write_attempt_count = 0;
  trigger_write_success_count = 0;
  scientific_trigger_consumed = not_done;
  replay_decision = unstated;
  start_after_decision_gate = some true;
  sample_age_gate = some true;
  no_control_dry_run = true;
}

-- The report of an exception in the control path.
unfoldable pub failure : String → Bool → Report
failure name attempted = record {
  executor_gate = fail_after_age_gate;
  fail_closed_reason = some name;
  control_executed = if attempted then unknown else not_done;
  trigger_write_attempt_count = if attempted then 1 else 0;
  trigger_write_success_count = 0;
  scientific_trigger_consumed = if attempted then unknown else not_done;
  replay_decision = if attempted then never_automatically else not_applicable;
  start_after_decision_gate = some true;
  sample_age_gate = some true;
  no_control_dry_run = false;
}

unfoldable pub success : Report
success = record {
  executor_gate = gate_pass;
  fail_closed_reason = none;
  control_executed = done;
  trigger_write_attempt_count = 1;
  trigger_write_success_count = 1;
  scientific_trigger_consumed = done;
  replay_decision = never_repeat;
  start_after_decision_gate = some true;
  sample_age_gate = some true;
  no_control_dry_run = false;
}

-- `finally: os.close(fd)`, whose exception replaces what was to be returned. The report that was
-- written before remains.
unfoldable pub closing : Host → Ended → Ended
closing host ended = if host.close_fails then record ended { rc = none } else ended

-- A code point that `encode("utf-8")` refuses.
abbrev pub has_surrogate : Text → Bool
has_surrogate [] = false
has_surrogate (c ∷ t) = (leb 55296 c && leb c 57343) || has_surrogate t

unfoldable pub after_write : Host → Write → List Text → Ended
after_write host (raised name) writes =
    closing host (write_result host (failure name true) 40 writes)
after_write host partial writes =
    closing host (write_result host (failure "RuntimeError" true) 40 writes)
after_write host complete writes =
    if host.close_fails
    then record { report = none; rc = none; writes = writes }
    else write_result host success 0 writes

-- The opening of the FIFO and the one write.
unfoldable pub fire : Text → Host → Option String → Ended
fire token host (some name) = write_result host (failure name false) 40 []
fire token host none =
    if has_surrogate token
    then closing host (write_result host (failure "UnicodeEncodeError" false) 40 [])
    else after_write host host.write ((token ++ (10 ∷ [])) ∷ [])

abbrev pub start_of : Option ℕ → ℕ → ℕ
start_of none clock = clock
start_of (some injected) clock = injected

abbrev pub control : Mode → Args → Host → Ended
control no_control args host = write_result host dry_run 0 []
control fifo args host = fire args.trigger_token host host.open_error

module _ (D : Decimals) (decimal_of : Json → Option D.Number) (int_of : Json → Option ℤ) where
  unfoldable pub max_age_ns : D.Number → ℕ
  max_age_ns max_age_ms = D.int (D.mul max_age_ms (D.decimal 1000000))

  -- The start precedes the decision that it rests on.
  unfoldable pub is_early : Host → Admission D → Bool
  is_early host admission =
      is_below (start_of admission.injected host.start_ns) admission.decision_ns

  -- The last sample lies in the future, or is too old.
  unfoldable pub is_stale : Host → Admission D → Bool
  is_stale host admission =
      let start = start_of admission.injected host.start_ns in
      is_below start admission.latest_sample_ns
      || exceeds start admission.latest_sample_ns (max_age_ns admission.max_age_ms)

  -- The tests of the clock, and the control.
  unfoldable pub execute : Args → Host → Admission D → Ended
  execute args host admission =
      if is_early host admission
      then write_result host (refusal "EXECUTOR_START_PRECEDES_SOURCE_DECISION" (some false) none)
          35 []
      else if is_stale host admission
      then write_result host
          (refusal "EXECUTOR_START_SAMPLE_AGE_OUT_OF_BOUNDS" (some true) (some false)) 32 []
      else control args.mode args host

  unfoldable pub conclude : Args → Host → Checked (Admission D) → Ended
  conclude args host (passed admission) = execute args host admission
  conclude args host (refused reason rc) = write_result host (refusal reason none none) rc []
  conclude args host crashed = record { report = none; rc = none; writes = [] }

  unfoldable pub main : Args → Host → Ended
  main args host = conclude args host (admit D decimal_of int_of args host)
