-- ===== src/Supervisor/Phase.antt =====
-- The bounded waits and commands, and the stationarity gate of a phase
-- (scripts/experiment-harness/prompt12-bounded-orchestration-supervisor.py).
use Prim.Native.String.{◌++◌ as str_append}
use text.Mathlib.Text.{◌==◌ as str_eq}
use tcd_oran_testbed_integra.Base.{
  ℕ, zero, suc, ◌+◌, ◌-◌, ◌*◌, ltb, leb, Bool, true, false, List, String, if◌then◌else◌,
}
use tcd_oran_testbed_integra.Base.Text.{Text}
use tcd_oran_testbed_integra.Supervisor.Host.{
  Host, Outcome, timed_out, unavailable, returned, success, failure, Reading, not_json, not_object,
  no_gate, gate_value, Action, code, child, pure, raise, crash, ◌>>=◌, ◌>>◌, ask, act, raise_if,
}

abbrev pub second : ℕ
second = 1000000000

abbrev pub pre_min_s : ℕ
pre_min_s = 11

abbrev pub post_min_s : ℕ
post_min_s = 10

abbrev pub extension_s : ℕ
extension_s = 5

abbrev pub max_extensions : ℕ
max_extensions = 2

abbrev pub pre_max_s : ℕ
pre_max_s = 21

abbrev pub post_max_s : ℕ
post_max_s = 20

abbrev pub experiment_max_s : ℕ
experiment_max_s = 180

pub data Role : Type 0 where
  pre post : Role

-- `DurationBudget.phase_limit`
unfoldable pub phase_limit : Role → ℕ
phase_limit pre = pre_max_s
phase_limit post = post_max_s

abbrev pub minimum : Role → ℕ
minimum pre = pre_min_s
minimum post = post_min_s

abbrev pub timeout_reason : Role → String
timeout_reason pre = "PRE_STEP_TIMEOUT"
timeout_reason post = "POST_STEP_TIMEOUT"

module _ (host : Host) where
  open host use {World, monotonic, sleep, run, loads}

  -- `DurationBudget.require_remaining`, with the budget's start. The clock does not go back.
  unfoldable pub require_remaining : ℕ → String → Action World ℕ
  require_remaining started reason = do
    now ← ask monotonic
    raise_if (leb (experiment_max_s * second) (now - started)) reason 124
    pure (experiment_max_s * second - (now - started))

  unfoldable pub validate_extension_count : ℕ → Action World (Unit {0})
  validate_extension_count count =
      raise_if (ltb max_extensions count) "MAX_STATIONARITY_EXTENSIONS_EXCEEDED" 125

  unfoldable pub wait_for_observation : ℕ → ℕ → ℕ → Role → Action World (Unit {0})
  unfolding require_remaining phase_limit
  wait_for_observation target_elapsed_s started phase_started role = do
    raise_if (ltb (phase_limit role) target_elapsed_s) (timeout_reason role) 124
    now ← ask monotonic
    let wait = target_elapsed_s * second - (now - phase_started)
    global_remaining ← require_remaining started "EXPERIMENT_TIMEOUT"
    raise_if (ltb global_remaining wait) "EXPERIMENT_TIMEOUT" 124
    act (sleep wait)

  -- The output of a command that has returned 0.
  unfoldable pub completed : String → Outcome → Action World Text
  completed reason timed_out = raise reason (code 124)
  completed reason unavailable = crash "OSError"
  completed reason (returned success stdout) = pure stdout
  completed reason (returned (failure number) stdout) =
      raise (str_append reason (str_append ":RC_" number)) (child number)

  -- `run_command`, with no limit but the budget's, as all its callers use it.
  unfoldable pub run_command : List String → ℕ → String → Action World Text
  unfolding require_remaining completed
  run_command argv started reason = do
    remaining ← require_remaining started "EXPERIMENT_TIMEOUT"
    outcome ← ask (run argv remaining)
    completed reason outcome

  -- Whether the evaluator's output passes the gate.
  unfoldable pub gate_passes : Reading → Action World Bool
  gate_passes not_json = raise "STATIONARITY_OUTPUT_INVALID" (code 65)
  gate_passes not_object = crash "AttributeError"
  gate_passes no_gate = raise "STATIONARITY_GATE_INVALID" (code 65)
  gate_passes (gate_value value) =
      if str_eq value "PASS"
      then pure true
      else if str_eq value "FAIL"
      then pure false
      else raise "STATIONARITY_GATE_INVALID" (code 65)

  -- A further round, if another extension is allowed.
  unfoldable pub extend : ℕ → Action World ℕ → Action World ℕ
  unfolding validate_extension_count
  extend extensions again = do
    raise_if (leb max_extensions extensions) "MAX_STATIONARITY_EXTENSIONS_EXCEEDED" 125
    validate_extension_count (extensions + 1)
    again

  -- The loop of `stationarity_gate`, with fuel for its rounds.
  unfoldable pub gate_loop : ℕ → List String → ℕ → ℕ → Role → ℕ → Action World ℕ
  unfolding wait_for_observation run_command gate_passes extend
  gate_loop zero argv started phase_started role extensions = crash "out of fuel"
  gate_loop (suc fuel) argv started phase_started role extensions =
      let again = gate_loop fuel argv started phase_started role (extensions + 1) in
      do
        wait_for_observation (minimum role + extensions * extension_s) started phase_started role
        stdout ← run_command argv started "STATIONARITY_EVALUATOR_FAILED"
        passed ← gate_passes (loads stdout)
        if passed then pure extensions else extend extensions again

  -- `stationarity_gate`: three rounds are all that the extensions allow.
  unfoldable pub stationarity_gate : List String → ℕ → ℕ → Role → Action World ℕ
  unfolding gate_loop
  stationarity_gate argv started phase_started role = gate_loop 3 argv started phase_started role 0
