-- ===== src/Transaction/History.antt =====
-- Sequences of records that the validator has accepted one after another
-- (scripts/experiment-harness/prompt12r-validate-transaction-transition.py), and what holds of
-- every transaction however it went.
use tcd_oran_testbed_integra.Base.{ℕ, zero, suc, ◌+◌, ◌≤◌, ◌≡◌, some, none, Option, ok, ◌∙◌, arith}
use tcd_oran_testbed_integra.Transaction.State.{State}
use tcd_oran_testbed_integra.Transaction.Record.{Transaction}
use tcd_oran_testbed_integra.Transaction.Continuity.{Keeps, IsContinued}
use tcd_oran_testbed_integra.Transaction.Graph.{phase, ⟶-phase}
use tcd_oran_testbed_integra.Transaction.Step.{IsStep, validate_iff}
use tcd_oran_testbed_integra.Transaction.Validator.{validate}

-- `Steps p n c`: `n` accepted transitions lead from the record `p` to the record `c`.
pub data Steps (p : Transaction) : ℕ → Transaction → Type 0 where
  here : Steps p zero p
  next : {n : ℕ} {q c : Transaction} → Steps p n q → validate (some q) c ≡ ok tt → Steps p (suc n) c

-- `History n c`: a transaction was opened, and after `n` accepted transitions stands at `c`.
pub record History (n : ℕ) (c : Transaction) : Type 0 where
  pub first : Transaction
  pub opened : validate none first ≡ ok tt
  pub steps : Steps first n c

pub step : {p c : Transaction} → validate (some p) c ≡ ok tt → IsStep p c
step {p} {c} h = (validate_iff p c).0 h

Steps-phase :
    {p : Transaction} {n : ℕ} {c : Transaction}
    → Steps p n c
    → phase p.transaction_state + n ≤ phase c.transaction_state
Steps-phase here = omega arith
Steps-phase (next r h) = omega (arith, Steps-phase r, ⟶-phase (step h).edge)

phase-le : (s : State) → phase s ≤ 13
phase-le s = ground arith

-- Every history is finite: a transaction makes at most thirteen transitions.
pub History-bounded : (n : ℕ) (c : Transaction) → History n c → n ≤ 13
History-bounded n c h = omega (arith, Steps-phase h.steps, phase-le c.transaction_state)

-- Time grows with each transition.
Steps-later :
    {p : Transaction} {n : ℕ} {c : Transaction}
    → Steps p n c
    → p.transition_decision_utc_ns + n ≤ c.transition_decision_utc_ns
Steps-later here = omega arith
Steps-later (next r h) = omega (arith, Steps-later r, (step h).later)

Keeps-trans : {A : Type 0} {u v w : Option A} → Keeps u v → Keeps v w → Keeps u w
Keeps-trans f g a e = g a (f a e)

IsContinued-refl : (p : Transaction) → IsContinued p p
IsContinued-refl p = ground arith

IsContinued-trans : {p q r : Transaction} → IsContinued p q → IsContinued q r → IsContinued p r
IsContinued-trans a b = record {
  transaction_id = a.transaction_id ∙ b.transaction_id;
  experiment_id = a.experiment_id ∙ b.experiment_id;
  run_id = a.run_id ∙ b.run_id;
  transition_label = a.transition_label ∙ b.transition_label;
  repository_head = a.repository_head ∙ b.repository_head;
  protocol_identity = a.protocol_identity ∙ b.protocol_identity;
  initial_prb_required = a.initial_prb_required ∙ b.initial_prb_required;
  platform = Keeps-trans a.platform b.platform;
  runtime = Keeps-trans a.runtime b.runtime;
  initial_prb = Keeps-trans a.initial_prb b.initial_prb;
  receiver = Keeps-trans a.receiver b.receiver;
  actuator = Keeps-trans a.actuator b.actuator;
  readback = Keeps-trans a.readback b.readback;
  closeout = Keeps-trans a.closeout b.closeout;
}

-- Through any number of accepted transitions the identity of the transaction stays the same,
-- what was written once stays written, and each transition takes at least a nanosecond.
pub Steps-IsContinued :
    (n : ℕ) (p c : Transaction)
    → Steps p n c
    → IsContinued p c × (p.transition_decision_utc_ns + n ≤ c.transition_decision_utc_ns)
Steps-IsContinued n p c r = (go r, Steps-later r)
  where
    go : {p : Transaction} {n : ℕ} {c : Transaction} → Steps p n c → IsContinued p c
    go here = IsContinued-refl _
    go (next r h) = IsContinued-trans (go r) (step h).continued
