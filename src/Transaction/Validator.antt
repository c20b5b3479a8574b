-- ===== src/Transaction/Validator.antt =====
-- The transition checks of
-- scripts/experiment-harness/prompt12r-validate-transaction-transition.py.
use text.Mathlib.Text.{◌==◌ as str_eq}
use Prim.Native.String.{◌++◌ as str_append}
use tcd_oran_testbed_integra.Base.{
  ◌==◌, ltb, Bool, true, false, not, ◌&&◌, Option, none, some, String, List, [], ◌∷◌, Result, ok,
  ◌>>◌, require, only_if, if◌then◌else◌,
}
use tcd_oran_testbed_integra.Transaction.State.{
  State, new, prestep_admitted, triggered_exactly_once, scientifically_adjudicated,
  invalid_posttrigger, name, contains, is_state, failure_states, legal_transitions,
}
use tcd_oran_testbed_integra.Transaction.Record.{
  Transaction, TriggerTuple, no_failure, consumed, unknown, never_repeat,
  never_automatically_replay, failure_class_eq, is_adjudicated, is_invalid, keeps_text,
  keeps_number, trigger_tuple, tuple_eq,
}
use tcd_oran_testbed_integra.Transaction.Invariants.{validate_record_state_invariants}

-- `for field in FIELDS: require(test, f"{reason}:{field}")`
unfoldable pub require_each : String → List (String × Bool) → Result (Unit {0})
require_each reason [] = ok tt
require_each reason ((field, test) ∷ fields) = do
  require test (str_append reason field)
  require_each reason fields

pub immutable_fields : Transaction → Transaction → List (String × Bool)
immutable_fields p c =
    ("transaction_id", str_eq p.transaction_id c.transaction_id)
    ∷ ("experiment_id", str_eq p.experiment_id c.experiment_id)
    ∷ ("run_id", str_eq p.run_id c.run_id)
    ∷ ("transition_label", str_eq p.transition_label c.transition_label)
    ∷ ("repository_head", str_eq p.repository_head c.repository_head)
    ∷ ("protocol_identity", str_eq p.protocol_identity c.protocol_identity)
    ∷ ("initial_prb_required", p.initial_prb_required == c.initial_prb_required)
    ∷ []

pub write_once_fields : Transaction → Transaction → List (String × Bool)
write_once_fields p c =
    (
      "platform_qualification_identity",
      keeps_text p.platform_qualification_identity c.platform_qualification_identity,
    )
    ∷ (
      "runtime_incarnation_identity",
      keeps_text p.runtime_incarnation_identity c.runtime_incarnation_identity,
    )
    ∷ ("initial_prb_observed", keeps_number p.initial_prb_observed c.initial_prb_observed)
    ∷ (
      "receiver_workload_identity",
      keeps_text p.receiver_workload_identity c.receiver_workload_identity,
    )
    ∷ ("actuator_identity", keeps_text p.actuator_identity c.actuator_identity)
    ∷ (
      "applied_readback_identity",
      keeps_text p.applied_readback_identity c.applied_readback_identity,
    )
    ∷ (
      "closeout_checksum_identity",
      keeps_text p.closeout_checksum_identity c.closeout_checksum_identity,
    )
    ∷ []

unfoldable pub validate_identity_continuity : Transaction → Transaction → Result (Unit {0})
unfolding immutable_fields write_once_fields
validate_identity_continuity p c = do
  require_each "IMMUTABLE_FIELD_CHANGED:" (immutable_fields p c)
  require_each "WRITE_ONCE_FIELD_CHANGED:" (write_once_fields p c)

unfoldable pub entering_failure : Transaction → Transaction → Bool
entering_failure p c =
    contains failure_states c.transaction_state && not (contains failure_states p.transaction_state)

unfoldable pub validate_failure_continuity : Transaction → Transaction → Result (Unit {0})
unfolding entering_failure
validate_failure_continuity p c =
    if entering_failure p c
    then require (failure_class_eq p.failure_class no_failure)
        "FAILURE_ENTERED_FROM_ALREADY_FAILED_RECORD"
    else do
      require (failure_class_eq c.failure_class p.failure_class)
          "FAILURE_CLASS_CHANGED_OUTSIDE_FAILURE_ENTRY"
      require (str_eq c.failure_reason p.failure_reason)
          "FAILURE_REASON_CHANGED_OUTSIDE_FAILURE_ENTRY"

abbrev pub confirmed_tuple : TriggerTuple
confirmed_tuple = (1, 1, consumed, never_repeat)

abbrev pub ambiguous_tuple : TriggerTuple
ambiguous_tuple = (1, 0, unknown, never_automatically_replay)

unfoldable pub validate_trigger_transition : Transaction → Transaction → Result (Unit {0})
validate_trigger_transition p c =
    if is_state p.transaction_state prestep_admitted
      && is_state c.transaction_state triggered_exactly_once
    then require (tuple_eq (trigger_tuple c) confirmed_tuple) "CONFIRMED_TRIGGER_TUPLE_INVALID"
    else if is_state p.transaction_state prestep_admitted
        && is_state c.transaction_state invalid_posttrigger
    then require (tuple_eq (trigger_tuple c) ambiguous_tuple) "AMBIGUOUS_TRIGGER_TUPLE_INVALID"
    else require (tuple_eq (trigger_tuple c) (trigger_tuple p))
        "TRIGGER_TUPLE_CHANGED_OUTSIDE_TRIGGER_BOUNDARY"

unfoldable pub validate_adjudication_transition : Transaction → Transaction → Result (Unit {0})
validate_adjudication_transition p c =
    only_if (is_state c.transaction_state scientifically_adjudicated) do
      require (is_adjudicated c.scientific_adjudication_result) "SCIENTIFIC_ADJUDICATION_MISSING"
      only_if (is_state p.transaction_state invalid_posttrigger) (
          require (is_invalid c.scientific_adjudication_result)
            "INVALID_POSTTRIGGER_ADJUDICATED_AS_VALID")

-- `current["previous_transaction_state"] == previous_state`
abbrev pub names_previous : Option State → State → Bool
names_previous none s = false
names_previous (some t) s = is_state t s

abbrev pub is_absent {ℓ} : {A : Type ℓ} → Option A → Bool
is_absent none = true
is_absent (some _) = false

unfoldable pub validate_transition : Transaction → Transaction → Result (Unit {0})
validate_transition p c =
    let previous = p.transaction_state in
    let current = c.transaction_state in
    do
      require (names_previous c.previous_transaction_state previous)
          "PREVIOUS_TRANSACTION_STATE_MISMATCH"
      require (contains (legal_transitions previous) current) (
          str_append "ILLEGAL_STATE_TRANSITION:"
            (str_append (name previous) (str_append "->" (name current))))
      require (ltb p.transition_decision_utc_ns c.transition_decision_utc_ns)
          "TRANSITION_DECISION_TIME_NOT_STRICTLY_INCREASING"
      validate_identity_continuity p c
      validate_failure_continuity p c
      validate_trigger_transition p c
      validate_record_state_invariants c
      validate_adjudication_transition p c

unfoldable pub validate_new_record : Transaction → Option Transaction → Result (Unit {0})
validate_new_record c p = do
  require (is_state c.transaction_state new) "PREVIOUS_RECORD_REQUIRED_FOR_NON_NEW_STATE"
  require (is_absent p) "PREVIOUS_RECORD_FORBIDDEN_FOR_NEW_STATE"
  require (is_absent c.previous_transaction_state) "NEW_PREVIOUS_STATE_MUST_BE_NULL"
  validate_record_state_invariants c

-- The checks that `main` makes of two records that have passed the schema, in its order.
unfoldable pub validate : Option Transaction → Transaction → Result (Unit {0})
validate none c = validate_new_record c none
validate (some p) c = do
  validate_record_state_invariants p
  require (not (is_state c.transaction_state new)) "NEW_STATE_CANNOT_HAVE_PREVIOUS_RECORD"
  validate_transition p c
