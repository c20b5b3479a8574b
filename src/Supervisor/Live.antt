-- ===== src/Supervisor/Live.antt =====
-- The live run and `main`
-- (scripts/experiment-harness/prompt12-bounded-orchestration-supervisor.py).
use Prim.Native.String.{◌++◌ as str_append}
use text.Mathlib.Text.{◌==◌ as str_eq}
use tcd_oran_testbed_integra.Base.{
  ℕ, ◌+◌, Bool, true, false, not, Option, none, some, List, [], ◌∷◌, ◌++◌, String, if◌then◌else◌,
}
use tcd_oran_testbed_integra.Base.Text.{Text, codes, text_eq, strip, splitlines}
use tcd_oran_testbed_integra.Supervisor.Host.{
  Host, Report, base_report, Reply, done, raised, crashed, ExitCode, code, Live, Action, pure,
  crash, ◌>>=◌, ◌>>◌, ask, act, update, raise_if,
}
use tcd_oran_testbed_integra.Supervisor.Phase.{pre, post, run_command, stationarity_gate}

pub record Transition : Type 0 where
  pub label : String
  pub ratio_bind_command : Option (List String)  -- `load_plan` does not ask for it
  pub trigger_command : List String
  pub post_stationarity_command : List String

pub record Plan : Type 0 where
  pub traffic_command : List String
  pub initial_stationarity_command : List String
  pub finalization_command : List String
  pub transitions : List Transition

-- `line in lines`
abbrev pub has_line : Text → List Text → Bool
has_line line [] = false
has_line line (l ∷ ls) = if text_eq l line then true else has_line line ls

-- `value == text`, for a value that may be absent.
abbrev pub is_text : Option String → String → Bool
is_text none text = false
is_text (some value) text = str_eq value text

abbrev pub count_attempt : Report → Report
count_attempt r = record r {
  trigger_write_attempt_count = r.trigger_write_attempt_count + 1;
  never_automatically_replay = true;
}

abbrev pub count_success : String → Text → Report → Report
count_success label stdout r = record r {
  trigger_write_success_count = r.trigger_write_success_count + 1;
  control_executed = true;
  trigger_stdout = r.trigger_stdout ++ (label, stdout) ∷ [];
}

module _ (host : Host) where
  open host use {World, monotonic, start, poll, terminate}

  -- `terminate_process` of the running traffic.
  unfoldable pub terminate_process : Action World (Unit {0})
  terminate_process = do ended ← ask poll; if ended then pure tt else act terminate

  unfoldable pub require_traffic : String → Action World (Unit {0})
  require_traffic reason = do ended ← ask poll; raise_if ended reason 76

  -- The ratio binding of a transition, which must print its marker.
  unfoldable pub bind_ratio : ℕ → Transition → Action World (Unit {0})
  bind_ratio started t = elim t.ratio_bind_command [
    | none ↦ crash "KeyError"
    | some argv ↦
        run_command host argv started (str_append t.label "_RATIO_BIND_FAILED") >>= λ stdout.
        raise_if (not (has_line (codes "RATIO_BOUND=PASS") (splitlines (strip stdout))))
          (str_append t.label "_RATIO_BIND_PASS_MARKER_MISSING") 76
        >> update (λ r. record r {
          ratio_bind_stdout = r.ratio_bind_stdout ++ (t.label, strip stdout) ∷ [];
        })
  ]

  -- The trigger: the attempt is counted, and its repetition ruled out, before it is made.
  unfoldable pub fire : ℕ → Transition → Action World (Unit {0})
  fire started t = do
    update count_attempt
    stdout ← run_command host t.trigger_command started (str_append t.label "_TRIGGER_FAILED")
    update (count_success t.label (strip stdout))

  -- The body of the loop over the transitions: the extensions of the phase after the trigger.
  unfoldable pub one_transition : ℕ → Transition → Action World ℕ
  unfolding require_traffic bind_ratio fire
  one_transition started t = do
    require_traffic "TRAFFIC_TERMINATED_BEFORE_TRIGGER"
    bind_ratio started t
    fire started t
    post_started ← ask monotonic
    stationarity_gate host t.post_stationarity_command started post_started post

  unfoldable pub all_transitions : ℕ → List Transition → Action World (List ℕ)
  unfolding one_transition
  all_transitions started [] = pure []
  all_transitions started (t ∷ ts) = do
    count ← one_transition started t
    counts ← all_transitions started ts
    pure (count ∷ counts)

  -- What `run_live` does between the start of the traffic and its planned end.
  unfoldable pub measured : ℕ → Plan → Action World (Unit {0})
  unfolding all_transitions
  measured started plan = do
    pre_started ← ask monotonic
    extensions ← stationarity_gate host plan.initial_stationarity_command started pre_started pre
    update (λ r. record r { pre_step_extension_count = some extensions })
    counts ← all_transitions started plan.transitions
    update (λ r. record r { post_step_extension_counts = some counts })
    require_traffic "TRAFFIC_TERMINATED_BEFORE_FINALIZATION"

  -- `try: action finally: terminate_process(traffic)`, with the traffic running.
  unfoldable pub with_traffic : Action World (Unit {0}) → Action World (Unit {0})
  unfolding terminate_process
  with_traffic action s =
      let (reply, s') = action s in let (_, s'') = terminate_process s' in (reply, s'')

  -- What follows the planned end of the traffic.
  unfoldable pub finalized : ℕ → Plan → Action World (Unit {0})
  finalized started plan = do
    run_command host plan.finalization_command started "FINALIZATION_FAILED"
    update (λ r. record r { supervisor_gate = true; fail_closed_reason = "NONE" })

  -- What the environment and the command line allow: the value of
  -- SCI_ORAN_PROMPT12_LIVE_CONTROL_ENABLE, and the authorization token.
  unfoldable pub run_live : Plan → Option String → Option String → Action World ℕ
  unfolding measured with_traffic finalized
  run_live plan enable token = do
    raise_if (not (is_text enable "YES")) "LIVE_CONTROL_NOT_ENABLED" 77
    raise_if (not (is_text token "AUTHORISE_PROMPT12_BOUNDED_SEQUENCE_LIVE"))
        "LIVE_CONTROL_AUTHORIZATION_TOKEN_INVALID" 77
    started ← ask monotonic
    running ← ask (start plan.traffic_command)
    if running then pure tt else crash "OSError"
    with_traffic (measured started plan)
    finalized started plan
    pure 0

  -- `except SupervisorError` of `main`: the return code, or `none` for another exception, after
  -- which no report is written.
  unfoldable pub closed_with : Reply ℕ × Live World → Option ExitCode × Report
  closed_with (done rc, s) = (some (code rc), s.report)
  closed_with (raised reason rc, s) =
      (some rc, record s.report { supervisor_gate = false; fail_closed_reason = reason })
  closed_with (crashed e, s) = (none, s.report)

  -- `main` in live mode, of a plan that is loaded.
  unfoldable pub main_live : Plan → Option String → Option String → World → Option ExitCode × Report
  unfolding run_live closed_with base_report
  main_live plan enable token w =
      closed_with (run_live plan enable token (record { world = w; report = base_report }))
