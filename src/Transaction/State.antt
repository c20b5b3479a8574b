-- ===== src/Transaction/State.antt =====
-- The states of a Prompt 12R transaction and the table of legal transitions
-- (scripts/experiment-harness/prompt12r-validate-transaction-transition.py).
use tcd_oran_testbed_integra.Base.{ℕ, String, ◌==◌, ◌≡◌, Bool, false, ◌||◌, List, [], ◌∷◌, arith}

pub data State : Type 0 where
  new deployed platform_qualified initial_state_verified actuator_armed workload_ready : State
  prestep_admitted triggered_exactly_once applied_verified poststep_complete : State
  scientifically_adjudicated closed destroyed aborted_pretrigger invalid_posttrigger : State

-- The states in the order of the schema's enumeration, by which they are compared.
abbrev pub index : State → ℕ
index new = 0
index deployed = 1
index platform_qualified = 2
index initial_state_verified = 3
index actuator_armed = 4
index workload_ready = 5
index prestep_admitted = 6
index triggered_exactly_once = 7
index applied_verified = 8
index poststep_complete = 9
index scientifically_adjudicated = 10
index closed = 11
index destroyed = 12
index aborted_pretrigger = 13
index invalid_posttrigger = 14

-- The state as the record and the messages spell it.
abbrev pub name : State → String
name new = "NEW"
name deployed = "DEPLOYED"
name platform_qualified = "PLATFORM_QUALIFIED"
name initial_state_verified = "INITIAL_STATE_VERIFIED"
name actuator_armed = "ACTUATOR_ARMED"
name workload_ready = "WORKLOAD_READY"
name prestep_admitted = "PRESTEP_ADMITTED"
name triggered_exactly_once = "TRIGGERED_EXACTLY_ONCE"
name applied_verified = "APPLIED_VERIFIED"
name poststep_complete = "POSTSTEP_COMPLETE"
name scientifically_adjudicated = "SCIENTIFICALLY_ADJUDICATED"
name closed = "CLOSED"
name destroyed = "DESTROYED"
name aborted_pretrigger = "ABORTED_PRETRIGGER"
name invalid_posttrigger = "INVALID_POSTTRIGGER"

-- `state in {...}`
abbrev pub contains : List State → State → Bool
contains [] s = false
contains (t ∷ ts) s = index s == index t || contains ts s

abbrev pub is_state : State → State → Bool
is_state s t = index s == index t

abbrev pub pretrigger_states : List State
pretrigger_states =
    new ∷ deployed ∷ platform_qualified ∷ initial_state_verified ∷ actuator_armed ∷ workload_ready
    ∷ prestep_admitted ∷ aborted_pretrigger ∷ []

abbrev pub failure_states : List State
failure_states = aborted_pretrigger ∷ invalid_posttrigger ∷ []

unfoldable pub legal_transitions : State → List State
legal_transitions new = deployed ∷ aborted_pretrigger ∷ []
legal_transitions deployed = platform_qualified ∷ aborted_pretrigger ∷ []
legal_transitions platform_qualified = initial_state_verified ∷ aborted_pretrigger ∷ []
legal_transitions initial_state_verified = actuator_armed ∷ aborted_pretrigger ∷ []
legal_transitions actuator_armed = workload_ready ∷ aborted_pretrigger ∷ []
legal_transitions workload_ready = prestep_admitted ∷ aborted_pretrigger ∷ []
legal_transitions prestep_admitted =
    triggered_exactly_once ∷ aborted_pretrigger ∷ invalid_posttrigger ∷ []
legal_transitions triggered_exactly_once = applied_verified ∷ invalid_posttrigger ∷ []
legal_transitions applied_verified = poststep_complete ∷ invalid_posttrigger ∷ []
legal_transitions poststep_complete = scientifically_adjudicated ∷ invalid_posttrigger ∷ []
legal_transitions invalid_posttrigger = scientifically_adjudicated ∷ []
legal_transitions scientifically_adjudicated = closed ∷ []
legal_transitions aborted_pretrigger = closed ∷ []
legal_transitions closed = destroyed ∷ []
legal_transitions destroyed = []

pub index_injective : (s t : State) → index s ≡ index t → s ≡ t
index_injective s t h = ground arith
