-- ===== src/Transaction/WellFormed.antt =====
-- What `validate_record_state_invariants` of
-- scripts/experiment-harness/prompt12r-validate-transaction-transition.py accepts, stated over the
-- order of the states: 0 is NEW, 9 is POSTSTEP_COMPLETE.
use text.Mathlib.TextEquality.{eq_iff}
use tcd_oran_testbed_integra.Base.{
  ℕ, ◌≡◌, ◌≢◌, ◌≤◌, ◌↔◌, ◌⊎◌, true, some, none, [], ◌∷◌, ==_iff, ap, >>_iff, only_if_iff,
  require_iff, Option, String, ok, arith, refl,
}
use tcd_oran_testbed_integra.Transaction.State.{
  State, index, index_injective, closed, destroyed, contains, pretrigger_states, failure_states,
  is_state, triggered_exactly_once, poststep_complete, scientifically_adjudicated,
}
use tcd_oran_testbed_integra.Transaction.Record.{
  Transaction, no_failure, not_consumed, consumed, not_applicable, never_repeat, pass,
  not_adjudicated, trigger_tuple, is_nonempty, is_number, is_pass, is_adjudicated, GateResult,
  Adjudication,
}
use tcd_oran_testbed_integra.Transaction.Invariants.{
  active_states, qualified_states, verified_states, armed_states, workload_states, admitted_states,
  complete_states, validate_record_state_invariants, check_active, check_failure, check_pretrigger,
  check_triggered, check_qualified,
}

-- An identity that is recorded, and is not empty.
abbrev pub IsRecorded : Option String → Type 0
IsRecorded v = (s : String) × (v ≡ some s) × (s ≢ "")

contains-active : (s : State) → (contains active_states s ≡ true) ↔ (index s ≤ 9)
contains-active s = ground arith

contains-failure : (s : State) → (contains failure_states s ≡ true) ↔ (13 ≤ index s)
contains-failure s = ground arith

contains-pretrigger :
    (s : State) → (contains pretrigger_states s ≡ true) ↔ ((index s ≤ 6) ⊎ (index s ≡ 13))
contains-pretrigger s = ground arith

contains-qualified :
    (s : State) → (contains qualified_states s ≡ true) ↔ ((2 ≤ index s) × (index s ≤ 9))
contains-qualified s = ground arith

contains-verified :
    (s : State) → (contains verified_states s ≡ true) ↔ ((3 ≤ index s) × (index s ≤ 9))
contains-verified s = ground arith

contains-armed : (s : State) → (contains armed_states s ≡ true) ↔ ((4 ≤ index s) × (index s ≤ 9))
contains-armed s = ground arith

contains-workload :
    (s : State) → (contains workload_states s ≡ true) ↔ ((5 ≤ index s) × (index s ≤ 9))
contains-workload s = ground arith

contains-admitted :
    (s : State) → (contains admitted_states s ≡ true) ↔ ((6 ≤ index s) × (index s ≤ 9))
contains-admitted s = ground arith

contains_complete :
    (s : State) → (contains complete_states s ≡ true) ↔ ((8 ≤ index s) × (index s ≤ 9))
contains_complete s = ground arith

contains-closed :
    (s : State) → (contains (closed ∷ destroyed ∷ []) s ≡ true) ↔ ((11 ≤ index s) × (index s ≤ 12))
contains-closed s = ground arith

is_nonempty_iff : (v : Option String) → (is_nonempty v ≡ true) ↔ IsRecorded v
is_nonempty_iff none = (λ h. cc, λ h. cc h.1)
is_nonempty_iff (some s) =
    (λ h. (s, refl, ground (arith, eq_iff s "")), λ h. ground (arith, eq_iff s "", h.2))

is_number_iff : (v : Option ℕ) (n : ℕ) → (is_number v n ≡ true) ↔ (v ≡ some n)
is_number_iff v n = ground arith

is_pass_iff : (g : GateResult) → (is_pass g ≡ true) ↔ (g ≡ pass)
is_pass_iff g = ground arith

is_adjudicated_iff : (a : Adjudication) → (is_adjudicated a ≡ true) ↔ (a ≢ not_adjudicated)
is_adjudicated_iff a = ground arith

check_active_iff :
    (r : Transaction)
    → (check_active r ≡ ok tt) ↔ ((r.failure_class ≡ no_failure) × (r.failure_reason ≡ "NONE"))
unfolding check_active
check_active_iff r = ground (arith, eq_iff r.failure_reason "NONE")

check_failure_iff :
    (r : Transaction)
    → (check_failure r ≡ ok tt) ↔ ((r.failure_class ≢ no_failure) × (r.failure_reason ≢ "NONE"))
unfolding check_failure
check_failure_iff r = ground (arith, eq_iff r.failure_reason "NONE")

check_pretrigger_iff :
    (r : Transaction)
    → (check_pretrigger r ≡ ok tt) ↔ (trigger_tuple r ≡ (0, 0, not_consumed, not_applicable))
unfolding check_pretrigger
check_pretrigger_iff r = ground arith

check_triggered_iff :
    (r : Transaction)
    → (check_triggered r ≡ ok tt) ↔ (trigger_tuple r ≡ (1, 1, consumed, never_repeat))
unfolding check_triggered
check_triggered_iff r = ground arith

check_qualified_iff :
    (r : Transaction)
    → (check_qualified r ≡ ok tt)
      ↔ (IsRecorded r.platform_qualification_identity × IsRecorded r.runtime_incarnation_identity)
unfolding check_qualified
check_qualified_iff r =
    >>_iff _ _ (require_iff _ _ (is_nonempty_iff r.platform_qualification_identity))
      (require_iff _ _ (is_nonempty_iff r.runtime_incarnation_identity))

-- The record is in order for its state.
pub record IsWellFormed (r : Transaction) : Type 0 where
  pub active :
      index r.transaction_state ≤ 9 → (r.failure_class ≡ no_failure) × (r.failure_reason ≡ "NONE")
  pub failed :
      13 ≤ index r.transaction_state → (r.failure_class ≢ no_failure) × (r.failure_reason ≢ "NONE")
  pub untriggered :
      (index r.transaction_state ≤ 6) ⊎ (index r.transaction_state ≡ 13)
      → trigger_tuple r ≡ (0, 0, not_consumed, not_applicable)
  pub triggered :
      r.transaction_state ≡ triggered_exactly_once
      → trigger_tuple r ≡ (1, 1, consumed, never_repeat)
  pub qualified :
      (2 ≤ index r.transaction_state) × (index r.transaction_state ≤ 9)
      → IsRecorded r.platform_qualification_identity × IsRecorded r.runtime_incarnation_identity
  pub verified :
      (3 ≤ index r.transaction_state) × (index r.transaction_state ≤ 9)
      → r.initial_prb_observed ≡ some r.initial_prb_required
  pub armed :
      (4 ≤ index r.transaction_state) × (index r.transaction_state ≤ 9)
      → IsRecorded r.actuator_identity
  pub ready :
      (5 ≤ index r.transaction_state) × (index r.transaction_state ≤ 9)
      → IsRecorded r.receiver_workload_identity
  pub admitted :
      (6 ≤ index r.transaction_state) × (index r.transaction_state ≤ 9)
      → r.precontrol_admission_result ≡ pass
  pub applied :
      (8 ≤ index r.transaction_state) × (index r.transaction_state ≤ 9)
      → IsRecorded r.applied_readback_identity
  pub complete : r.transaction_state ≡ poststep_complete → r.poststep_completion_result ≡ pass
  pub judged :
      r.transaction_state ≡ scientifically_adjudicated
      → r.scientific_adjudication_result ≢ not_adjudicated
  pub closed_out :
      (11 ≤ index r.transaction_state) × (index r.transaction_state ≤ 12)
      → IsRecorded r.closeout_checksum_identity

is_state_iff : (s t : State) → (is_state s t ≡ true) ↔ (s ≡ t)
is_state_iff s t = (λ h. index_injective s t ((==_iff _ _).0 h), λ e. (==_iff _ _).1 (ap index e))

-- A record passes `validate_record_state_invariants` exactly when it is well formed.
pub validate_record_state_invariants_iff :
    (r : Transaction) → (validate_record_state_invariants r ≡ ok tt) ↔ IsWellFormed r
unfolding validate_record_state_invariants
validate_record_state_invariants_iff r =
    let s = r.transaction_state in
    let parts =
      (>>_iff _ _ (only_if_iff _ _ (contains-active s) (check_active_iff r)) (
        >>_iff _ _ (only_if_iff _ _ (contains-failure s) (check_failure_iff r)) (
          >>_iff _ _ (only_if_iff _ _ (contains-pretrigger s) (check_pretrigger_iff r)) (
            >>_iff _ _
              (only_if_iff _ _ (is_state_iff s triggered_exactly_once) (check_triggered_iff r))
              (>>_iff _ _ (only_if_iff _ _ (contains-qualified s) (check_qualified_iff r)) (
                >>_iff _ _
                  (only_if_iff _ _ (contains-verified s)
                    (require_iff _ _ (is_number_iff r.initial_prb_observed r.initial_prb_required)))
                  (>>_iff _ _
                    (only_if_iff _ _ (contains-armed s)
                      (require_iff _ _ (is_nonempty_iff r.actuator_identity)))
                    (>>_iff _ _
                      (only_if_iff _ _ (contains-workload s)
                        (require_iff _ _ (is_nonempty_iff r.receiver_workload_identity)))
                      (>>_iff _ _
                        (only_if_iff _ _ (contains-admitted s)
                          (require_iff _ _ (is_pass_iff r.precontrol_admission_result)))
                        (>>_iff _ _
                          (only_if_iff _ _ (contains_complete s)
                            (require_iff _ _ (is_nonempty_iff r.applied_readback_identity)))
                          (>>_iff _ _
                            (only_if_iff _ _ (is_state_iff s poststep_complete)
                              (require_iff _ _ (is_pass_iff r.poststep_completion_result)))
                            (>>_iff _ _
                              (only_if_iff _ _ (is_state_iff s scientifically_adjudicated) (
                                require_iff _ _
                                  (is_adjudicated_iff r.scientific_adjudication_result)))
                              (only_if_iff _ _ (contains-closed s) (
                                require_iff _ _
                                  (is_nonempty_iff r.closeout_checksum_identity))))))))))))))) in
    (
      λ h.
          let (active', r0) = parts.0 h in
          let (failed', r1) = r0 in
          let (untriggered', r2) = r1 in
          let (triggered', r3) = r2 in
          let (qualified', r4) = r3 in
          let (verified', r5) = r4 in
          let (armed', r6) = r5 in
          let (ready', r7) = r6 in
          let (admitted', r8) = r7 in
          let (applied', r9) = r8 in
          let (complete', r10) = r9 in
          let (judged', closed_out') = r10 in
          record {
            active = active';
            failed = failed';
            untriggered = untriggered';
            triggered = triggered';
            qualified = qualified';
            verified = verified';
            armed = armed';
            ready = ready';
            admitted = admitted';
            applied = applied';
            complete = complete';
            judged = judged';
            closed_out = closed_out';
          },
      λ w. parts.1 (
        w.active,
        (
          w.failed,
          (
            w.untriggered,
            (
              w.triggered,
              (
                w.qualified,
                (
                  w.verified,
                  (
                    w.armed,
                    (w.ready, (w.admitted, (w.applied, (w.complete, (w.judged, w.closed_out))))),
                  ),
                ),
              ),
            ),
          ),
        ),
      ),
    )
