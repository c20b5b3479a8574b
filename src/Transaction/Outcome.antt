-- ===== src/Transaction/Outcome.antt =====
-- How a transaction ends: its adjudication and its failures
-- (scripts/experiment-harness/prompt12r-validate-transaction-transition.py).
use tcd_oran_testbed_integra.Base.{
  ℕ, ◌≤◌, ◌<◌, ◌≡◌, ◌≢◌, ◌⊎◌, inl, inr, some, none, Option, String, ok, refl, sym, ap, ◌∙◌, arith,
}
use tcd_oran_testbed_integra.Transaction.State.{
  State, index, new, prestep_admitted, poststep_complete, scientifically_adjudicated,
  aborted_pretrigger, invalid_posttrigger,
}
use tcd_oran_testbed_integra.Transaction.Record.{
  Transaction, Adjudication, TriggerTuple, trigger_tuple, valid, no_failure, invalid,
}
use tcd_oran_testbed_integra.Transaction.WellFormed.{
  IsRecorded, validate_record_state_invariants_iff,
}
use tcd_oran_testbed_integra.Transaction.Invariants.{validate_record_state_invariants}
use tcd_oran_testbed_integra.Transaction.Continuity.{Keeps}
use tcd_oran_testbed_integra.Transaction.Graph.{
  ◌⟶◌, new_preparing, deployed_preparing, qualified_preparing, verified_preparing, armed_preparing,
  ready_preparing, admitted_preparing, triggered_measuring, applied_measuring, complete_measuring,
}
use tcd_oran_testbed_integra.Transaction.Step.{IsStep, validate-none_iff}
use tcd_oran_testbed_integra.Transaction.Validator.{validate, confirmed_tuple}
use tcd_oran_testbed_integra.Transaction.History.{Steps, here, next, History, step}
use tcd_oran_testbed_integra.Transaction.Trigger.{TriggerFits, History-TriggerFits}

adjudicated_from :
    {s t : State}
    → s ⟶ t
    → t ≡ scientifically_adjudicated
    → (s ≡ poststep_complete) ⊎ (s ≡ invalid_posttrigger)
adjudicated_from ◌⟶◌.adjudicate e = inl refl
adjudicated_from ◌⟶◌.adjudicate_invalid e = inr refl
adjudicated_from _ e = cc

Keeps-IsRecorded : {v w : Option String} → Keeps v w → IsRecorded v → IsRecorded w
Keeps-IsRecorded k (s, e, f) = (s, k s e, f)

-- What a scientifically valid result rests on.
pub record IsSound (c : Transaction) : Type 0 where
  pub fired : trigger_tuple c ≡ confirmed_tuple
  pub intact : (c.failure_class ≡ no_failure) × (c.failure_reason ≡ "NONE")
  pub initial : c.initial_prb_observed ≡ some c.initial_prb_required
  pub platform : IsRecorded c.platform_qualification_identity
  pub runtime : IsRecorded c.runtime_incarnation_identity
  pub actuator : IsRecorded c.actuator_identity
  pub receiver : IsRecorded c.receiver_workload_identity
  pub readback : IsRecorded c.applied_readback_identity

IsSound-of_step :
    (q c : Transaction)
    → TriggerFits q.transaction_state (trigger_tuple q)
    → IsStep q c
    → q.transaction_state ≡ poststep_complete
    → c.transaction_state ≡ scientifically_adjudicated
    → IsSound c
IsSound-of_step q c f s at to =
    let nine : index q.transaction_state ≡ 9 = ap index at in
    let ten : index c.transaction_state ≡ 10 = ap index to in
    let carried = s.failure.carried (λ e. absurd (omega arith)) in
    let active = s.before.active (omega arith) in
    let k = s.continued in
    record {
      fired = s.triggered.unchanged (λ x. not_both at x.0) ∙ fits_confirmed at f;
      intact = (carried.0 ∙ active.0, carried.1 ∙ active.1);
      initial = k.initial_prb _ (s.before.verified (omega arith)) ∙ ap some k.initial_prb_required;
      platform = Keeps-IsRecorded k.platform (s.before.qualified (omega arith)).0;
      runtime = Keeps-IsRecorded k.runtime (s.before.qualified (omega arith)).1;
      actuator = Keeps-IsRecorded k.actuator (s.before.armed (omega arith));
      receiver = Keeps-IsRecorded k.receiver (s.before.ready (omega arith));
      readback = Keeps-IsRecorded k.readback (s.before.applied (omega arith));
    }
  where
    not_both : {x : State} → x ≡ poststep_complete → x ≡ prestep_admitted → ⊥
    not_both a b = cc

    fits_confirmed :
        {x : State} {t : TriggerTuple}
        → x ≡ poststep_complete
        → TriggerFits x t
        → t ≡ confirmed_tuple
    fits_confirmed e g = ground arith

adjudicated_valid :
    (f : Transaction)
    → validate none f ≡ ok tt
    → (n : ℕ) (c : Transaction) → Steps f n c
    → c.transaction_state ≡ scientifically_adjudicated
    → c.scientific_adjudication_result ≡ valid
    → IsSound c
adjudicated_valid f o n c here at v = absurd (not_fresh ((validate-none_iff f).0 o).fresh at)
  where
    not_fresh : {x : State} → x ≡ new → x ≡ scientifically_adjudicated → ⊥
    not_fresh a b = cc
adjudicated_valid f o n c (next {n = m} {q} r h) at v = elim (adjudicated_from (step h).edge at) [
  | inl done ↦
      IsSound-of_step q c (History-TriggerFits m q (record { first = f; opened = o; steps = r })).0
        (step h) done at
  | inr lost ↦ absurd (not_valid v ((step h).adjudicated.invalidated at lost))
]
  where
    not_valid : {x : Adjudication} → x ≡ valid → x ≡ invalid → ⊥
    not_valid a b = cc

-- A transaction that is adjudicated VALID has fired its trigger exactly once, has no failure, had
-- the required initial PRB count observed, and has every identity of its run on record.
pub adjudicated_valid-IsSound :
    (n : ℕ) (c : Transaction)
    → History n c
    → c.transaction_state ≡ scientifically_adjudicated
    → c.scientific_adjudication_result ≡ valid
    → IsSound c
adjudicated_valid-IsSound n c h at v = adjudicated_valid h.first h.opened n c h.steps at v

late_edge : {s t : State} → s ⟶ t → 10 ≤ index s → (10 ≤ index t) × (index t < 13)
late_edge (◌⟶◌.abort new_preparing) l = absurd (omega arith)
late_edge (◌⟶◌.abort deployed_preparing) l = absurd (omega arith)
late_edge (◌⟶◌.abort qualified_preparing) l = absurd (omega arith)
late_edge (◌⟶◌.abort verified_preparing) l = absurd (omega arith)
late_edge (◌⟶◌.abort armed_preparing) l = absurd (omega arith)
late_edge (◌⟶◌.abort ready_preparing) l = absurd (omega arith)
late_edge (◌⟶◌.abort admitted_preparing) l = absurd (omega arith)
late_edge (◌⟶◌.invalidate triggered_measuring) l = absurd (omega arith)
late_edge (◌⟶◌.invalidate applied_measuring) l = absurd (omega arith)
late_edge (◌⟶◌.invalidate complete_measuring) l = absurd (omega arith)
late_edge _ l = omega arith

-- The record carries the failure of another one.
abbrev SameFailure : Transaction → Transaction → Type 0
SameFailure p c = (c.failure_class ≡ p.failure_class) × (c.failure_reason ≡ p.failure_reason)

failure_carried :
    {p : Transaction} {n : ℕ} {c : Transaction}
    → Steps p n c
    → 10 ≤ index p.transaction_state
    → (10 ≤ index c.transaction_state) × SameFailure p c
failure_carried here l = (l, (refl, refl))
failure_carried (next r h) l =
    let (late, same) = failure_carried r l in
    let (later, below) = late_edge (step h).edge late in
    let now = (step h).failure.carried (λ e. absurd (omega arith)) in
    (later, (now.0 ∙ same.0, now.1 ∙ same.1))

-- A transaction that is aborted or invalidated keeps its failure class and reason in every later
-- record, never returns to a state before its adjudication, and its class is not NONE.
pub failure_persists :
    (n : ℕ) (p c : Transaction)
    → validate_record_state_invariants p ≡ ok tt
    → (p.transaction_state ≡ aborted_pretrigger) ⊎ (p.transaction_state ≡ invalid_posttrigger)
    → Steps p n c
    → (10 ≤ index c.transaction_state)
      × (c.failure_class ≡ p.failure_class)
      × (c.failure_reason ≡ p.failure_reason)
      × (c.failure_class ≢ no_failure)
failure_persists n p c w failed r =
    let late : 13 ≤ index p.transaction_state = failed_index p.transaction_state failed in
    let (after, same) = failure_carried r (omega arith) in
    let bad = (((validate_record_state_invariants_iff p).0 w).failed late).0 in
    (after, same.0, same.1, λ e. bad (sym same.0 ∙ e))
  where
    failed_index : (s : State) → (s ≡ aborted_pretrigger) ⊎ (s ≡ invalid_posttrigger) → 13 ≤ index s
    failed_index s (inl e) = rw e (omega arith)
    failed_index s (inr e) = rw e (omega arith)
