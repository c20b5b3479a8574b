-- ===== src/Transaction/Tests.antt =====
-- The records of one transaction, from NEW to its adjudication, and the theorems at them.
use tcd_oran_testbed_integra.Base.{
  ◌≤◌, ◌≡◌, ◌≢◌, ◌+◌, ◌↔◌, inl, true, some, none, ok, err, refl, arith,
}
use tcd_oran_testbed_integra.Transaction.State.{
  State, contains, legal_transitions, new, deployed, platform_qualified, initial_state_verified,
  actuator_armed, workload_ready, prestep_admitted, triggered_exactly_once, applied_verified,
  poststep_complete, scientifically_adjudicated, aborted_pretrigger, closed,
}
use tcd_oran_testbed_integra.Transaction.Record.{
  Transaction, no_failure, tooling_failure, not_evaluated, pass, not_consumed, consumed,
  not_applicable, never_repeat, not_adjudicated, valid, trigger_tuple,
}
use tcd_oran_testbed_integra.Transaction.Invariants.{validate_record_state_invariants}
use tcd_oran_testbed_integra.Transaction.Validator.{
  validate, validate_transition, validate_identity_continuity, validate_failure_continuity,
  validate_trigger_transition, validate_adjudication_transition, validate_new_record, require_each,
}
use tcd_oran_testbed_integra.Transaction.WellFormed.{
  IsWellFormed, validate_record_state_invariants_iff,
}
use tcd_oran_testbed_integra.Transaction.Graph.{◌⟶◌, legal_transitions_lem}
use tcd_oran_testbed_integra.Transaction.Continuity.{IsContinued}
use tcd_oran_testbed_integra.Transaction.Step.{IsStep, IsOpening, validate_iff, validate-none_iff}
use tcd_oran_testbed_integra.Transaction.History.{
  Steps, here, next, History, History-bounded, Steps-IsContinued,
}
use tcd_oran_testbed_integra.Transaction.Trigger.{
  TriggerFits, History-TriggerFits, trigger_never_replayed,
}
use tcd_oran_testbed_integra.Transaction.Outcome.{
  IsSound, adjudicated_valid-IsSound, failure_persists,
}

abbrev opened : Transaction
opened = record {
  transaction_id = "TXN-20261013T000000Z-001";
  experiment_id = "EXP-20261013-DL-18000K-R01";
  run_id = "RUN-20261013T000000Z-001";
  transition_label = "T2";
  repository_head = "0123456789abcdef0123456789abcdef01234567";
  protocol_identity = "prompt12r";
  transaction_state = new;
  previous_transaction_state = none;
  transition_decision_utc_ns = 1;
  failure_class = no_failure;
  failure_reason = "NONE";
  platform_qualification_identity = none;
  runtime_incarnation_identity = none;
  initial_prb_required = 26;
  initial_prb_observed = none;
  receiver_workload_identity = none;
  actuator_identity = none;
  precontrol_admission_result = not_evaluated;
  trigger_write_attempt_count = 0;
  trigger_write_success_count = 0;
  scientific_trigger_consumed = not_consumed;
  replay_decision = not_applicable;
  applied_readback_identity = none;
  poststep_completion_result = not_evaluated;
  scientific_adjudication_result = not_adjudicated;
  closeout_checksum_identity = none;
}

-- The next record of a transaction, a nanosecond later.
abbrev moved : State → Transaction → Transaction
moved s p = record p {
  transaction_state = s;
  previous_transaction_state = some p.transaction_state;
  transition_decision_utc_ns = p.transition_decision_utc_ns + 1;
}

abbrev deployed_record : Transaction
deployed_record = moved deployed opened

abbrev qualified_record : Transaction
qualified_record = record (moved platform_qualified deployed_record) {
  platform_qualification_identity = some "platform";
  runtime_incarnation_identity = some "runtime";
}

abbrev verified_record : Transaction
verified_record = record (moved initial_state_verified qualified_record) {
  initial_prb_observed = some 26;
}

abbrev armed_record : Transaction
armed_record = record (moved actuator_armed verified_record) { actuator_identity = some "fifo" }

abbrev ready_record : Transaction
ready_record = record (moved workload_ready armed_record) {
  receiver_workload_identity = some "receiver";
}

abbrev admitted_record : Transaction
admitted_record = record (moved prestep_admitted ready_record) {
  precontrol_admission_result = pass;
}

abbrev triggered_record : Transaction
triggered_record = record (moved triggered_exactly_once admitted_record) {
  trigger_write_attempt_count = 1;
  trigger_write_success_count = 1;
  scientific_trigger_consumed = consumed;
  replay_decision = never_repeat;
}

abbrev applied_record : Transaction
applied_record = record (moved applied_verified triggered_record) {
  applied_readback_identity = some "readback";
}

abbrev complete_record : Transaction
complete_record = record (moved poststep_complete applied_record) {
  poststep_completion_result = pass;
}

abbrev judged_record : Transaction
judged_record = record (moved scientifically_adjudicated complete_record) {
  scientific_adjudication_result = valid;
}

abbrev aborted_record : Transaction
aborted_record = record (moved aborted_pretrigger deployed_record) {
  failure_class = tooling_failure;
  failure_reason = "PORT";
}

abbrev abandoned_record : Transaction
abandoned_record = record (moved closed aborted_record) {
  closeout_checksum_identity = some "checksum";
}

to_triggered : Steps opened 7 triggered_record
unfolding validate validate_transition validate_identity_continuity validate_failure_continuity
    validate_trigger_transition validate_adjudication_transition validate_new_record
    validate_record_state_invariants legal_transitions require_each
to_triggered =
    next {c = triggered_record}
      (next {c = admitted_record}
        (next {c = ready_record}
          (next {c = armed_record}
            (next {c = verified_record}
              (next {c = qualified_record} (next {c = deployed_record} here refl) refl) refl)
            refl)
          refl)
        refl)
      refl

to_judged : Steps opened 10 judged_record
unfolding validate validate_transition validate_identity_continuity validate_failure_continuity
    validate_trigger_transition validate_adjudication_transition validate_new_record
    validate_record_state_invariants legal_transitions require_each
to_judged =
    next {c = judged_record}
      (next {c = complete_record} (next {c = applied_record} to_triggered refl) refl) refl

after_trigger : Steps triggered_record 3 judged_record
unfolding validate validate_transition validate_identity_continuity validate_failure_continuity
    validate_trigger_transition validate_adjudication_transition validate_new_record
    validate_record_state_invariants legal_transitions require_each
after_trigger =
    next {c = judged_record} (next {c = complete_record} (next {c = applied_record} here refl) refl)
      refl

opening : validate none opened ≡ ok tt
unfolding validate validate_transition validate_identity_continuity validate_failure_continuity
    validate_trigger_transition validate_adjudication_transition validate_new_record
    validate_record_state_invariants legal_transitions require_each
opening = refl

History-judged : History 10 judged_record
History-judged = record { first = opened; opened = opening; steps = to_judged }

History-triggered : History 7 triggered_record
History-triggered = record { first = opened; opened = opening; steps = to_triggered }

-- A second trigger is refused.
repeated_trigger :
    validate (some triggered_record) (moved triggered_exactly_once triggered_record)
    ≡ err "ILLEGAL_STATE_TRANSITION:TRIGGERED_EXACTLY_ONCE->TRIGGERED_EXACTLY_ONCE"
unfolding validate validate_transition validate_identity_continuity validate_failure_continuity
    validate_trigger_transition validate_adjudication_transition validate_new_record
    validate_record_state_invariants legal_transitions require_each
repeated_trigger = refl

validate_record_state_invariants_iff_example :
    (validate_record_state_invariants ready_record ≡ ok tt) ↔ IsWellFormed ready_record
validate_record_state_invariants_iff_example = validate_record_state_invariants_iff ready_record

legal_transitions_lem_example : (contains (legal_transitions new) closed ≡ true) ↔ (new ⟶ closed)
legal_transitions_lem_example = legal_transitions_lem new closed

validate_iff_example :
    (validate (some opened) deployed_record ≡ ok tt) ↔ IsStep opened deployed_record
validate_iff_example = validate_iff opened deployed_record

validate-none_iff_example : (validate none opened ≡ ok tt) ↔ IsOpening opened
validate-none_iff_example = validate-none_iff opened

History-bounded_example : 10 ≤ 13
History-bounded_example = History-bounded 10 judged_record History-judged

Steps-IsContinued_example : IsContinued opened judged_record × (1 + 10 ≤ 11)
Steps-IsContinued_example = Steps-IsContinued 10 opened judged_record to_judged

History-TriggerFits_example :
    TriggerFits triggered_exactly_once (trigger_tuple triggered_record) × (1 ≤ 1)
History-TriggerFits_example = History-TriggerFits 7 triggered_record History-triggered

trigger_never_replayed_example : trigger_tuple judged_record ≡ trigger_tuple triggered_record
trigger_never_replayed_example =
    trigger_never_replayed 7 3 triggered_record judged_record History-triggered (omega arith)
      after_trigger

adjudicated_valid-IsSound_example : IsSound judged_record
adjudicated_valid-IsSound_example =
    adjudicated_valid-IsSound 10 judged_record History-judged refl refl

aborted_in_order : validate_record_state_invariants aborted_record ≡ ok tt
unfolding validate_record_state_invariants
aborted_in_order = refl

after_abort : Steps aborted_record 1 abandoned_record
unfolding validate validate_transition validate_identity_continuity validate_failure_continuity
    validate_trigger_transition validate_adjudication_transition validate_new_record
    validate_record_state_invariants legal_transitions require_each
after_abort = next here refl

failure_persists_example :
    (10 ≤ 11)
    × (tooling_failure ≡ tooling_failure)
    × (abandoned_record.failure_reason ≡ aborted_record.failure_reason)
    × (tooling_failure ≢ no_failure)
failure_persists_example =
    failure_persists 1 aborted_record abandoned_record aborted_in_order (inl refl) after_abort
