-- ===== src/Transaction/Step.antt =====
-- What an accepted transition means, in full
-- (scripts/experiment-harness/prompt12r-validate-transaction-transition.py).
use tcd_oran_testbed_integra.Base.{
  ◌≡◌, ◌<◌, ◌↔◌, true, some, none, not, Option, ok, >>_iff, require_iff, refl, arith, ap, ltb_iff,
}
use tcd_oran_testbed_integra.Transaction.State.{State, new, is_state}
use tcd_oran_testbed_integra.Transaction.Record.{Transaction}
use tcd_oran_testbed_integra.Transaction.WellFormed.{
  IsWellFormed, validate_record_state_invariants_iff,
}
use tcd_oran_testbed_integra.Transaction.Graph.{◌⟶◌, ⟶-phase, legal_transitions_lem}
use tcd_oran_testbed_integra.Transaction.Continuity.{
  IsContinued, IsFailureStep, IsTriggerStep, IsAdjudicationStep, validate_identity_continuity_iff,
  validate_failure_continuity_iff, validate_trigger_transition_iff,
  validate_adjudication_transition_iff, is_state_iff,
}
use tcd_oran_testbed_integra.Transaction.Validator.{
  validate_transition, validate, validate_new_record, names_previous, is_absent,
}

-- A transition of the protocol from one record to the next.
pub record IsStep (p c : Transaction) : Type 0 where
  pub before : IsWellFormed p
  pub named : c.previous_transaction_state ≡ some p.transaction_state
  pub edge : p.transaction_state ⟶ c.transaction_state
  pub later : p.transition_decision_utc_ns < c.transition_decision_utc_ns
  pub continued : IsContinued p c
  pub failure : IsFailureStep p c
  pub triggered : IsTriggerStep p c
  pub after : IsWellFormed c
  pub adjudicated : IsAdjudicationStep p c

names_previous_iff : (o : Option State) (s : State) → (names_previous o s ≡ true) ↔ (o ≡ some s)
names_previous_iff none s = (λ h. cc, λ h. cc)
names_previous_iff (some t) s =
    (λ h. ap some ((is_state_iff t s).0 h), λ e. (is_state_iff t s).1 (cc))

not_new : {s t : State} → s ⟶ t → not (is_state t new) ≡ true
not_new e = ground (arith, ⟶-phase e)

-- The validator accepts a record after another one exactly when the two are a transition of the
-- protocol.
pub validate_iff : (p c : Transaction) → (validate (some p) c ≡ ok tt) ↔ IsStep p c
unfolding validate validate_transition
validate_iff p c =
    let s = p.transaction_state in
    let t = c.transaction_state in
    let checks = >>_iff _ _ (validate_record_state_invariants_iff p) (
      >>_iff _ _
        (require_iff (not (is_state t new)) "NEW_STATE_CANNOT_HAVE_PREVIOUS_RECORD"
          (λ h. h, λ h. h))
        (>>_iff _ _ (require_iff _ _ (names_previous_iff c.previous_transaction_state s)) (
          >>_iff _ _ (require_iff _ _ (legal_transitions_lem s t)) (
            >>_iff _ _
              (require_iff _ _ (ltb_iff p.transition_decision_utc_ns c.transition_decision_utc_ns))
              (>>_iff _ _ (validate_identity_continuity_iff p c) (
                >>_iff _ _ (validate_failure_continuity_iff p c) (
                  >>_iff _ _ (validate_trigger_transition_iff p c) (
                    >>_iff _ _ (validate_record_state_invariants_iff c)
                      (validate_adjudication_transition_iff p c))))))))) in
    (
      λ h.
          let (before, r1) = checks.0 h in
          let (_, r2) = r1 in
          let (named, r3) = r2 in
          let (edge, r4) = r3 in
          let (later, r5) = r4 in
          let (continued, r6) = r5 in
          let (failure, r7) = r6 in
          let (triggered, r8) = r7 in
          let (after, adjudicated) = r8 in
          record {
            before = before;
            named = named;
            edge = edge;
            later = later;
            continued = continued;
            failure = failure;
            triggered = triggered;
            after = after;
            adjudicated = adjudicated;
          },
      λ h. checks.1 (
        h.before,
        (
          not_new h.edge,
          (
            h.named,
            (
              h.edge,
              (h.later, (h.continued, (h.failure, (h.triggered, (h.after, h.adjudicated))))),
            ),
          ),
        ),
      ),
    )

-- A transaction is opened by a well-formed record in state NEW that names no predecessor.
pub record IsOpening (c : Transaction) : Type 0 where
  pub fresh : c.transaction_state ≡ new
  pub unnamed : c.previous_transaction_state ≡ none
  pub formed : IsWellFormed c

is_absent_iff : (o : Option State) → (is_absent o ≡ true) ↔ (o ≡ none)
is_absent_iff o = ground arith

-- The validator accepts a record with no predecessor exactly when it opens a transaction.
pub validate-none_iff : (c : Transaction) → (validate none c ≡ ok tt) ↔ IsOpening c
unfolding validate validate_new_record
validate-none_iff c =
    let checks =
      >>_iff _ _
        (require_iff _ "PREVIOUS_RECORD_REQUIRED_FOR_NON_NEW_STATE"
          (is_state_iff c.transaction_state new))
        (>>_iff _ _
          (require_iff (is_absent {A = Transaction} none) "PREVIOUS_RECORD_FORBIDDEN_FOR_NEW_STATE"
            (λ h. h, λ h. h))
          (>>_iff _ _
            (require_iff _ "NEW_PREVIOUS_STATE_MUST_BE_NULL"
              (is_absent_iff c.previous_transaction_state))
            (validate_record_state_invariants_iff c))) in
    (
      λ h.
          let (fresh, r1) = checks.0 h in
          record { fresh = fresh; unnamed = r1.1.0; formed = r1.1.1 },
      λ h. checks.1 (h.fresh, (refl, (h.unnamed, h.formed))),
    )
