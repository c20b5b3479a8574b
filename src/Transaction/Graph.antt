-- ===== src/Transaction/Graph.antt =====
-- The transition diagram of a transaction as a relation, independent of the table in
-- scripts/experiment-harness/prompt12r-validate-transaction-transition.py.
use tcd_oran_testbed_integra.Base.{ℕ, ◌<◌, ◌≡◌, ◌↔◌, true, refl, arith}
use tcd_oran_testbed_integra.Transaction.State.{
  State, new, deployed, platform_qualified, initial_state_verified, actuator_armed, workload_ready,
  prestep_admitted, triggered_exactly_once, applied_verified, poststep_complete,
  scientifically_adjudicated, closed, destroyed, aborted_pretrigger, invalid_posttrigger, contains,
  legal_transitions,
}

-- The states of an undisturbed transaction before its trigger, and those after it.
pub data IsPreparing : State → Type 0 where
  new_preparing : IsPreparing new
  deployed_preparing : IsPreparing deployed
  qualified_preparing : IsPreparing platform_qualified
  verified_preparing : IsPreparing initial_state_verified
  armed_preparing : IsPreparing actuator_armed
  ready_preparing : IsPreparing workload_ready
  admitted_preparing : IsPreparing prestep_admitted

pub data IsMeasuring : State → Type 0 where
  triggered_measuring : IsMeasuring triggered_exactly_once
  applied_measuring : IsMeasuring applied_verified
  complete_measuring : IsMeasuring poststep_complete

infix 40 ◌⟶◌
pub data ◌⟶◌ : State → State → Type 0 where
  deploy : new ⟶ deployed
  qualify : deployed ⟶ platform_qualified
  verify : platform_qualified ⟶ initial_state_verified
  arm : initial_state_verified ⟶ actuator_armed
  load : actuator_armed ⟶ workload_ready
  admit : workload_ready ⟶ prestep_admitted
  trigger : prestep_admitted ⟶ triggered_exactly_once
  lose_trigger : prestep_admitted ⟶ invalid_posttrigger
  apply : triggered_exactly_once ⟶ applied_verified
  complete : applied_verified ⟶ poststep_complete
  adjudicate : poststep_complete ⟶ scientifically_adjudicated
  abort : {s : State} → IsPreparing s → s ⟶ aborted_pretrigger
  invalidate : {s : State} → IsMeasuring s → s ⟶ invalid_posttrigger
  adjudicate_invalid : invalid_posttrigger ⟶ scientifically_adjudicated
  close : scientifically_adjudicated ⟶ closed
  close_aborted : aborted_pretrigger ⟶ closed
  destroy : closed ⟶ destroyed

ruleset preparing = (
  new_preparing, deployed_preparing, qualified_preparing, verified_preparing, armed_preparing,
  ready_preparing, admitted_preparing,
)

ruleset edges = (
  deploy, qualify, verify, arm, load, admit, trigger, lose_trigger, apply, complete, adjudicate,
  abort, invalidate, adjudicate_invalid, close, close_aborted, destroy, triggered_measuring,
  applied_measuring, complete_measuring,
)

legal→⟶ : (s t : State) → contains (legal_transitions s) t ≡ true → s ⟶ t
unfolding legal_transitions
legal→⟶ s t h = grind (arith, edges, preparing)

⟶→legal : {s t : State} → s ⟶ t → contains (legal_transitions s) t ≡ true
unfolding legal_transitions
⟶→legal deploy = refl
⟶→legal qualify = refl
⟶→legal verify = refl
⟶→legal arm = refl
⟶→legal load = refl
⟶→legal admit = refl
⟶→legal trigger = refl
⟶→legal lose_trigger = refl
⟶→legal apply = refl
⟶→legal complete = refl
⟶→legal adjudicate = refl
⟶→legal (abort new_preparing) = refl
⟶→legal (abort deployed_preparing) = refl
⟶→legal (abort qualified_preparing) = refl
⟶→legal (abort verified_preparing) = refl
⟶→legal (abort armed_preparing) = refl
⟶→legal (abort ready_preparing) = refl
⟶→legal (abort admitted_preparing) = refl
⟶→legal (invalidate triggered_measuring) = refl
⟶→legal (invalidate applied_measuring) = refl
⟶→legal (invalidate complete_measuring) = refl
⟶→legal adjudicate_invalid = refl
⟶→legal close = refl
⟶→legal close_aborted = refl
⟶→legal destroy = refl

-- The table of legal transitions is exactly the diagram: the pairs that it holds are the edges.
pub legal_transitions_lem : (s t : State) → (contains (legal_transitions s) t ≡ true) ↔ (s ⟶ t)
legal_transitions_lem s t = (legal→⟶ s t, ⟶→legal)

-- How many transitions a transaction has at most behind it.
abbrev pub phase : State → ℕ
phase new = 0
phase deployed = 1
phase platform_qualified = 2
phase initial_state_verified = 3
phase actuator_armed = 4
phase workload_ready = 5
phase prestep_admitted = 6
phase triggered_exactly_once = 7
phase applied_verified = 8
phase poststep_complete = 9
phase aborted_pretrigger = 10
phase invalid_posttrigger = 10
phase scientifically_adjudicated = 11
phase closed = 12
phase destroyed = 13

pub ⟶-phase : {s t : State} → s ⟶ t → phase s < phase t
⟶-phase deploy = omega arith
⟶-phase (abort new_preparing) = omega arith
⟶-phase (abort deployed_preparing) = omega arith
⟶-phase (abort qualified_preparing) = omega arith
⟶-phase (abort verified_preparing) = omega arith
⟶-phase (abort armed_preparing) = omega arith
⟶-phase (abort ready_preparing) = omega arith
⟶-phase (abort admitted_preparing) = omega arith
⟶-phase (invalidate triggered_measuring) = omega arith
⟶-phase (invalidate applied_measuring) = omega arith
⟶-phase (invalidate complete_measuring) = omega arith
⟶-phase _ = omega arith
