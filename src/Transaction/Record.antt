-- ===== src/Transaction/Record.antt =====
-- The JSON record of a Prompt 12R transaction, as it stands once it has passed the transaction
-- schema: the fields that
-- scripts/experiment-harness/prompt12r-validate-transaction-transition.py reads. Enumerated fields
-- are data types, a nullable field is an `Option`.
use text.Mathlib.Text.{◌==◌ as str_eq}
use tcd_oran_testbed_integra.Base.{
  ℕ, ◌==◌, Bool, true, false, not, ◌&&◌, Option, none, some, String,
}
use tcd_oran_testbed_integra.Transaction.State.{State}

pub data FailureClass : Type 0 where
  no_failure platform_failure tooling_failure : FailureClass

-- The result of an admission or of a completion check.
pub data GateResult : Type 0 where
  not_evaluated pass fail : GateResult

pub data Consumption : Type 0 where
  not_consumed consumed unknown : Consumption

pub data ReplayDecision : Type 0 where
  not_applicable never_repeat never_automatically_replay : ReplayDecision

pub data Adjudication : Type 0 where
  not_adjudicated valid invalid : Adjudication

pub record Transaction : Type 0 where
  pub transaction_id : String
  pub experiment_id : String
  pub run_id : String
  pub transition_label : String
  pub repository_head : String
  pub protocol_identity : String
  pub transaction_state : State
  pub previous_transaction_state : Option State
  pub transition_decision_utc_ns : ℕ
  pub failure_class : FailureClass
  pub failure_reason : String
  pub platform_qualification_identity : Option String
  pub runtime_incarnation_identity : Option String
  pub initial_prb_required : ℕ
  pub initial_prb_observed : Option ℕ
  pub receiver_workload_identity : Option String
  pub actuator_identity : Option String
  pub precontrol_admission_result : GateResult
  pub trigger_write_attempt_count : ℕ
  pub trigger_write_success_count : ℕ
  pub scientific_trigger_consumed : Consumption
  pub replay_decision : ReplayDecision
  pub applied_readback_identity : Option String
  pub poststep_completion_result : GateResult
  pub scientific_adjudication_result : Adjudication
  pub closeout_checksum_identity : Option String

-- Equality of the enumerated values.
abbrev pub failure_class_eq : FailureClass → FailureClass → Bool
failure_class_eq no_failure no_failure = true
failure_class_eq platform_failure platform_failure = true
failure_class_eq tooling_failure tooling_failure = true
failure_class_eq _ _ = false

abbrev pub is_pass : GateResult → Bool
is_pass pass = true
is_pass _ = false

abbrev pub consumption_eq : Consumption → Consumption → Bool
consumption_eq not_consumed not_consumed = true
consumption_eq consumed consumed = true
consumption_eq unknown unknown = true
consumption_eq _ _ = false

abbrev pub replay_eq : ReplayDecision → ReplayDecision → Bool
replay_eq not_applicable not_applicable = true
replay_eq never_repeat never_repeat = true
replay_eq never_automatically_replay never_automatically_replay = true
replay_eq _ _ = false

-- `result in {"VALID", "INVALID"}`
abbrev pub is_adjudicated : Adjudication → Bool
is_adjudicated not_adjudicated = false
is_adjudicated _ = true

abbrev pub is_invalid : Adjudication → Bool
is_invalid invalid = true
is_invalid _ = false

-- `isinstance(value, str) and bool(value)`
abbrev pub is_nonempty : Option String → Bool
is_nonempty none = false
is_nonempty (some s) = not (str_eq s "")

-- `previous_value is None or current_value == previous_value`
abbrev pub keeps_text : Option String → Option String → Bool
keeps_text none _ = true
keeps_text (some s) none = false
keeps_text (some s) (some t) = str_eq t s

abbrev pub keeps_number : Option ℕ → Option ℕ → Bool
keeps_number none _ = true
keeps_number (some n) none = false
keeps_number (some n) (some m) = m == n

-- `record["initial_prb_observed"] == record["initial_prb_required"]`
abbrev pub is_number : Option ℕ → ℕ → Bool
is_number none n = false
is_number (some m) n = m == n

-- The trigger fields of a record, in the order of `TRIGGER_FIELDS`.
abbrev pub TriggerTuple : Type 0
TriggerTuple = ℕ × ℕ × Consumption × ReplayDecision

abbrev pub trigger_tuple : Transaction → TriggerTuple
trigger_tuple r = (
  r.trigger_write_attempt_count, r.trigger_write_success_count, r.scientific_trigger_consumed,
  r.replay_decision,
)

abbrev pub tuple_eq : TriggerTuple → TriggerTuple → Bool
tuple_eq (a, s, c, d) (a', s', c', d') = a == a' && s == s' && consumption_eq c c' && replay_eq d d'
