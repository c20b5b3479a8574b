-- ===== src/Transaction/Trigger.antt =====
-- The scientific trigger over the life of a transaction
-- (scripts/experiment-harness/prompt12r-validate-transaction-transition.py).
use tcd_oran_testbed_integra.Base.{ℕ, ◌≤◌, ◌≡◌, ◌≢◌, ◌⊎◌, inl, inr, refl, ap, ◌∙◌, arith}
use tcd_oran_testbed_integra.Transaction.State.{
  State, prestep_admitted, triggered_exactly_once, applied_verified, poststep_complete,
  scientifically_adjudicated, closed, destroyed, invalid_posttrigger,
}
use tcd_oran_testbed_integra.Transaction.Record.{
  Transaction, TriggerTuple, trigger_tuple, not_consumed, not_applicable,
}
use tcd_oran_testbed_integra.Transaction.Graph.{
  ◌⟶◌, IsPreparing, new_preparing, deployed_preparing, qualified_preparing, verified_preparing,
  armed_preparing, ready_preparing, admitted_preparing, IsMeasuring, triggered_measuring,
  applied_measuring, complete_measuring, trigger, lose_trigger,
}
use tcd_oran_testbed_integra.Transaction.Step.{IsOpening, validate-none_iff}
use tcd_oran_testbed_integra.Transaction.Validator.{confirmed_tuple, ambiguous_tuple}
use tcd_oran_testbed_integra.Transaction.History.{Steps, here, next, History, step}

abbrev pub untouched_tuple : TriggerTuple
untouched_tuple = (0, 0, not_consumed, not_applicable)

-- What the trigger fields can be in each state.
abbrev pub TriggerFits : State → TriggerTuple → Type 0
TriggerFits triggered_exactly_once t = t ≡ confirmed_tuple
TriggerFits applied_verified t = t ≡ confirmed_tuple
TriggerFits poststep_complete t = t ≡ confirmed_tuple
TriggerFits invalid_posttrigger t = (t ≡ confirmed_tuple) ⊎ (t ≡ ambiguous_tuple)
TriggerFits scientifically_adjudicated t = (t ≡ confirmed_tuple) ⊎ (t ≡ ambiguous_tuple)
TriggerFits closed t = (t ≡ untouched_tuple) ⊎ ((t ≡ confirmed_tuple) ⊎ (t ≡ ambiguous_tuple))
TriggerFits destroyed t = (t ≡ untouched_tuple) ⊎ ((t ≡ confirmed_tuple) ⊎ (t ≡ ambiguous_tuple))
TriggerFits _ t = t ≡ untouched_tuple

preparing_untouched :
    {s : State} → IsPreparing s → (u : TriggerTuple) → TriggerFits s u → u ≡ untouched_tuple
preparing_untouched new_preparing u f = f
preparing_untouched deployed_preparing u f = f
preparing_untouched qualified_preparing u f = f
preparing_untouched verified_preparing u f = f
preparing_untouched armed_preparing u f = f
preparing_untouched ready_preparing u f = f
preparing_untouched admitted_preparing u f = f

measuring_confirmed :
    {s : State} → IsMeasuring s → (u : TriggerTuple) → TriggerFits s u → u ≡ confirmed_tuple
measuring_confirmed triggered_measuring u f = f
measuring_confirmed applied_measuring u f = f
measuring_confirmed complete_measuring u f = f

measuring-ne-admitted : {s : State} → IsMeasuring s → s ≢ prestep_admitted
measuring-ne-admitted triggered_measuring e = cc
measuring-ne-admitted applied_measuring e = cc
measuring-ne-admitted complete_measuring e = cc

⟶-TriggerFits :
    {s t : State}
    → s ⟶ t
    → (u v : TriggerTuple)
    → (s ≡ prestep_admitted → t ≡ triggered_exactly_once → v ≡ confirmed_tuple)
    → (s ≡ prestep_admitted → t ≡ invalid_posttrigger → v ≡ ambiguous_tuple)
    → (¬ ((s ≡ prestep_admitted) × ((t ≡ triggered_exactly_once) ⊎ (t ≡ invalid_posttrigger)))
        → v ≡ u)
    → TriggerFits s u
    → TriggerFits t v
⟶-TriggerFits trigger u v sent lost same f = sent refl refl
⟶-TriggerFits lose_trigger u v sent lost same f = inr (lost refl refl)
⟶-TriggerFits (◌⟶◌.abort w) u v sent lost same f =
    same (λ x. ground arith) ∙ preparing_untouched w u f
⟶-TriggerFits (◌⟶◌.invalidate w) u v sent lost same f =
    inl (same (λ x. measuring-ne-admitted w x.0) ∙ measuring_confirmed w u f)
⟶-TriggerFits _ u v sent lost same f = ground (arith, same (λ x. ground arith))

Steps-TriggerFits :
    {p : Transaction} {n : ℕ} {c : Transaction}
    → Steps p n c
    → TriggerFits p.transaction_state (trigger_tuple p)
    → TriggerFits c.transaction_state (trigger_tuple c)
Steps-TriggerFits here f = f
Steps-TriggerFits (next r h) f =
    let s = step h in
    ⟶-TriggerFits s.edge _ _ s.triggered.confirmed s.triggered.ambiguous s.triggered.unchanged
      (Steps-TriggerFits r f)

opening_fits : (c : Transaction) → IsOpening c → TriggerFits c.transaction_state (trigger_tuple c)
opening_fits c o = rw o.fresh (o.formed.untriggered (inl (rw o.fresh (omega arith))))

-- In every history the trigger fields are those that the state calls for. Before the trigger no
-- write was attempted; from the trigger to the post-step phase one write was attempted and
-- succeeded, never to be repeated; and in no state was there more than one attempt.
pub History-TriggerFits :
    (n : ℕ) (c : Transaction)
    → History n c
    → TriggerFits c.transaction_state (trigger_tuple c) × (c.trigger_write_attempt_count ≤ 1)
History-TriggerFits n c h = (fits, at_most_one _ _ fits)
  where
    fits : TriggerFits c.transaction_state (trigger_tuple c)
    fits = Steps-TriggerFits h.steps (opening_fits h.first ((validate-none_iff h.first).0 h.opened))

    at_most_one : (s : State) (t : TriggerTuple) → TriggerFits s t → t.0 ≤ 1
    at_most_one s t f = ground arith

-- A tuple that records a write attempt is final.
attempted_not_admitted :
    (s : State) (t : TriggerTuple) → TriggerFits s t → 1 ≤ t.0 → s ≢ prestep_admitted
attempted_not_admitted s t f a e = ground arith

-- Once a trigger write was attempted, no later record of the transaction changes what was
-- recorded of it: neither the counts, nor whether it was consumed, nor the replay decision.
pub trigger_never_replayed :
    (m n : ℕ) (p c : Transaction)
    → History m p
    → 1 ≤ p.trigger_write_attempt_count
    → Steps p n c
    → trigger_tuple c ≡ trigger_tuple p
trigger_never_replayed m n p c h a r = go r
  where
    fits : TriggerFits p.transaction_state (trigger_tuple p)
    fits = (History-TriggerFits m p h).0

    go : {n : ℕ} {c : Transaction} → Steps p n c → trigger_tuple c ≡ trigger_tuple p
    go here = refl
    go (next {q} r h) =
        let same = go r in
        (step h).triggered.unchanged (λ x.
          attempted_not_admitted q.transaction_state (trigger_tuple q) (Steps-TriggerFits r fits)
            (rw (ap (λ (t : TriggerTuple). t.0) same) a) x.0)
        ∙ same
