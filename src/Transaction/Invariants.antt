-- ===== src/Transaction/Invariants.antt =====
-- `validate_record_state_invariants` of
-- scripts/experiment-harness/prompt12r-validate-transaction-transition.py, a function for each of
-- its guarded blocks, in the order of the source.
use text.Mathlib.Text.{◌==◌ as str_eq}
use tcd_oran_testbed_integra.Base.{
  ◌==◌, not, ◌||◌, List, [], ◌∷◌, Result, ◌>>◌, require, only_if, String, Option,
}
use tcd_oran_testbed_integra.Transaction.State.{
  State, new, deployed, platform_qualified, initial_state_verified, actuator_armed, workload_ready,
  prestep_admitted, triggered_exactly_once, applied_verified, poststep_complete,
  scientifically_adjudicated, closed, destroyed, contains, is_state, pretrigger_states,
  failure_states,
}
use tcd_oran_testbed_integra.Transaction.Record.{
  Transaction, no_failure, platform_failure, tooling_failure, not_consumed, consumed,
  not_applicable, never_repeat, failure_class_eq, is_pass, consumption_eq, replay_eq,
  is_adjudicated, is_nonempty, is_number,
}

-- The states up to the completion of the post-step phase, and those from a later one on.
abbrev pub complete_states : List State
complete_states = applied_verified ∷ poststep_complete ∷ []

abbrev pub admitted_states : List State
admitted_states = prestep_admitted ∷ triggered_exactly_once ∷ complete_states

abbrev pub workload_states : List State
workload_states = workload_ready ∷ admitted_states

abbrev pub armed_states : List State
armed_states = actuator_armed ∷ workload_states

abbrev pub verified_states : List State
verified_states = initial_state_verified ∷ armed_states

abbrev pub qualified_states : List State
qualified_states = platform_qualified ∷ verified_states

abbrev pub active_states : List State
active_states = new ∷ deployed ∷ qualified_states

abbrev pub require_nonempty : Option String → String → Result (Unit {0})
require_nonempty value reason = require (is_nonempty value) reason

unfoldable pub check_active : Transaction → Result (Unit {0})
check_active r = do
  require (failure_class_eq r.failure_class no_failure) "ACTIVE_STATE_FAILURE_CLASS_NOT_NONE"
  require (str_eq r.failure_reason "NONE") "ACTIVE_STATE_FAILURE_REASON_NOT_NONE"

unfoldable pub check_failure : Transaction → Result (Unit {0})
check_failure r = do
  require
      (failure_class_eq r.failure_class platform_failure
        || failure_class_eq r.failure_class tooling_failure)
      "FAILURE_STATE_CLASS_INVALID"
  require (not (str_eq r.failure_reason "NONE")) "FAILURE_STATE_REASON_MISSING"

unfoldable pub check_pretrigger : Transaction → Result (Unit {0})
check_pretrigger r = do
  require (r.trigger_write_attempt_count == 0) "PRETRIGGER_WRITE_ATTEMPT_NOT_ZERO"
  require (r.trigger_write_success_count == 0) "PRETRIGGER_WRITE_SUCCESS_NOT_ZERO"
  require (consumption_eq r.scientific_trigger_consumed not_consumed)
      "PRETRIGGER_CONSUMPTION_NOT_NO"
  require (replay_eq r.replay_decision not_applicable) "PRETRIGGER_REPLAY_DECISION_INVALID"

unfoldable pub check_triggered : Transaction → Result (Unit {0})
check_triggered r = do
  require (r.trigger_write_attempt_count == 1) "EXACTLY_ONCE_ATTEMPT_COUNT_INVALID"
  require (r.trigger_write_success_count == 1) "EXACTLY_ONCE_SUCCESS_COUNT_INVALID"
  require (consumption_eq r.scientific_trigger_consumed consumed) "EXACTLY_ONCE_CONSUMPTION_INVALID"
  require (replay_eq r.replay_decision never_repeat) "EXACTLY_ONCE_REPLAY_DECISION_INVALID"

unfoldable pub check_qualified : Transaction → Result (Unit {0})
check_qualified r = do
  require_nonempty r.platform_qualification_identity "PLATFORM_QUALIFICATION_IDENTITY_MISSING"
  require_nonempty r.runtime_incarnation_identity "RUNTIME_INCARNATION_IDENTITY_MISSING"

-- The whole function.
unfoldable pub validate_record_state_invariants : Transaction → Result (Unit {0})
unfolding check_active check_failure check_pretrigger check_triggered check_qualified
validate_record_state_invariants r =
    let state = r.transaction_state in
    do
      only_if (contains active_states state) (check_active r)
      only_if (contains failure_states state) (check_failure r)
      only_if (contains pretrigger_states state) (check_pretrigger r)
      only_if (is_state state triggered_exactly_once) (check_triggered r)
      only_if (contains qualified_states state) (check_qualified r)
      only_if (contains verified_states state) (
          require (is_number r.initial_prb_observed r.initial_prb_required)
            "INITIAL_PRB_STATE_MISMATCH")
      only_if (contains armed_states state)
          (require_nonempty r.actuator_identity "ACTUATOR_IDENTITY_MISSING")
      only_if (contains workload_states state)
          (require_nonempty r.receiver_workload_identity "RECEIVER_WORKLOAD_IDENTITY_MISSING")
      only_if (contains admitted_states state)
          (require (is_pass r.precontrol_admission_result) "PRECONTROL_ADMISSION_NOT_PASS")
      only_if (contains complete_states state)
          (require_nonempty r.applied_readback_identity "APPLIED_READBACK_IDENTITY_MISSING")
      only_if (is_state state poststep_complete)
          (require (is_pass r.poststep_completion_result) "POSTSTEP_COMPLETION_NOT_PASS")
      only_if (is_state state scientifically_adjudicated) (
          require (is_adjudicated r.scientific_adjudication_result)
            "SCIENTIFIC_ADJUDICATION_MISSING")
      only_if (contains (closed ∷ destroyed ∷ []) state)
          (require_nonempty r.closeout_checksum_identity "CLOSEOUT_CHECKSUM_IDENTITY_MISSING")
