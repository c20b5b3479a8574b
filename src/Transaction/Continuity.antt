-- ===== src/Transaction/Continuity.antt =====
-- What the continuity checks between two records of
-- scripts/experiment-harness/prompt12r-validate-transaction-transition.py accept.
use text.Mathlib.Text.{◌==◌ as str_eq}
use text.Mathlib.TextEquality.{eq_iff}
use tcd_oran_testbed_integra.Base.{
  ℕ, ◌≡◌, ◌≢◌, ◌≤◌, ◌<◌, ◌↔◌, ◌⊎◌, inl, inr, true, false, some, none, Option, String, Result, ok,
  arith, refl, require, ◌>>◌, List, [], ◌∷◌, All, >>_iff, require_iff, only_if_iff, Bool, ◌&&◌,
  ==_iff, ap, if◌then◌else◌,
}
use tcd_oran_testbed_integra.Transaction.State.{
  State, index, index_injective, is_state, prestep_admitted, triggered_exactly_once,
  invalid_posttrigger, scientifically_adjudicated,
}
use tcd_oran_testbed_integra.Transaction.Record.{
  Transaction, FailureClass, Adjudication, no_failure, invalid, not_adjudicated, trigger_tuple,
  TriggerTuple, tuple_eq, keeps_text, keeps_number, failure_class_eq, is_adjudicated, is_invalid,
}
use tcd_oran_testbed_integra.Transaction.Validator.{
  require_each, immutable_fields, write_once_fields, validate_identity_continuity, entering_failure,
  validate_failure_continuity, validate_trigger_transition, validate_adjudication_transition,
  confirmed_tuple, ambiguous_tuple,
}

-- What a record had written stays as it was.
abbrev pub Keeps : {A : Type 0} → Option A → Option A → Type 0
Keeps {A} v w = (a : A) → v ≡ some a → w ≡ some a

keeps_text_iff : (v w : Option String) → (keeps_text v w ≡ true) ↔ Keeps v w
keeps_text_iff none w = (λ h a e. cc, λ h. refl)
keeps_text_iff (some s) none = (λ h a e. cc, λ h. cc (h s refl))
keeps_text_iff (some s) (some t) =
    (λ h a e. ground (arith, eq_iff t s), λ h. ground (arith, eq_iff t s, h s))

keeps_number_iff : (v w : Option ℕ) → (keeps_number v w ≡ true) ↔ Keeps v w
keeps_number_iff none w = (λ h a e. cc, λ h. refl)
keeps_number_iff (some s) none = (λ h a e. cc, λ h. cc (h s refl))
keeps_number_iff (some s) (some t) = (λ h a e. ground arith, λ h. ground (arith, h s))

-- The two records belong to one transaction.
pub record IsContinued (p c : Transaction) : Type 0 where
  pub transaction_id : p.transaction_id ≡ c.transaction_id
  pub experiment_id : p.experiment_id ≡ c.experiment_id
  pub run_id : p.run_id ≡ c.run_id
  pub transition_label : p.transition_label ≡ c.transition_label
  pub repository_head : p.repository_head ≡ c.repository_head
  pub protocol_identity : p.protocol_identity ≡ c.protocol_identity
  pub initial_prb_required : p.initial_prb_required ≡ c.initial_prb_required
  pub platform : Keeps p.platform_qualification_identity c.platform_qualification_identity
  pub runtime : Keeps p.runtime_incarnation_identity c.runtime_incarnation_identity
  pub initial_prb : Keeps p.initial_prb_observed c.initial_prb_observed
  pub receiver : Keeps p.receiver_workload_identity c.receiver_workload_identity
  pub actuator : Keeps p.actuator_identity c.actuator_identity
  pub readback : Keeps p.applied_readback_identity c.applied_readback_identity
  pub closeout : Keeps p.closeout_checksum_identity c.closeout_checksum_identity

require_each_iff :
    (reason : String) (fields : List (String × Bool))
    → (require_each reason fields ≡ ok tt) ↔ All (λ f. f.1 ≡ true) fields
unfolding require_each
require_each_iff reason [] = (λ _. tt, λ _. refl)
require_each_iff reason ((field, test) ∷ fields) =
    >>_iff _ _ (require_iff test _ (λ h. h, λ h. h)) (require_each_iff reason fields)

pub validate_identity_continuity_iff :
    (p c : Transaction) → (validate_identity_continuity p c ≡ ok tt) ↔ IsContinued p c
unfolding validate_identity_continuity
validate_identity_continuity_iff p c =
    let both =
      >>_iff _ _ (require_each_iff "IMMUTABLE_FIELD_CHANGED:" (immutable_fields p c))
        (require_each_iff "WRITE_ONCE_FIELD_CHANGED:" (write_once_fields p c)) in
    (
      λ h.
          let (same, kept) = both.0 h in
          record {
            transaction_id = (eq_iff _ _).0 same.0;
            experiment_id = (eq_iff _ _).0 same.1.0;
            run_id = (eq_iff _ _).0 same.1.1.0;
            transition_label = (eq_iff _ _).0 same.1.1.1.0;
            repository_head = (eq_iff _ _).0 same.1.1.1.1.0;
            protocol_identity = (eq_iff _ _).0 same.1.1.1.1.1.0;
            initial_prb_required = (==_iff _ _).0 same.1.1.1.1.1.1.0;
            platform = (keeps_text_iff _ _).0 kept.0;
            runtime = (keeps_text_iff _ _).0 kept.1.0;
            initial_prb = (keeps_number_iff _ _).0 kept.1.1.0;
            receiver = (keeps_text_iff _ _).0 kept.1.1.1.0;
            actuator = (keeps_text_iff _ _).0 kept.1.1.1.1.0;
            readback = (keeps_text_iff _ _).0 kept.1.1.1.1.1.0;
            closeout = (keeps_text_iff _ _).0 kept.1.1.1.1.1.1.0;
          },
      λ k. both.1 (
        (
          (eq_iff _ _).1 k.transaction_id,
          (
            (eq_iff _ _).1 k.experiment_id,
            (
              (eq_iff _ _).1 k.run_id,
              (
                (eq_iff _ _).1 k.transition_label,
                (
                  (eq_iff _ _).1 k.repository_head,
                  ((eq_iff _ _).1 k.protocol_identity, ((==_iff _ _).1 k.initial_prb_required, tt)),
                ),
              ),
            ),
          ),
        ),
        (
          (keeps_text_iff p.platform_qualification_identity c.platform_qualification_identity).1
              k.platform,
          (
            (keeps_text_iff p.runtime_incarnation_identity c.runtime_incarnation_identity).1
                k.runtime,
            (
              (keeps_number_iff p.initial_prb_observed c.initial_prb_observed).1 k.initial_prb,
              (
                (keeps_text_iff p.receiver_workload_identity c.receiver_workload_identity).1
                    k.receiver,
                (
                  (keeps_text_iff p.actuator_identity c.actuator_identity).1 k.actuator,
                  (
                    (keeps_text_iff p.applied_readback_identity c.applied_readback_identity).1
                        k.readback,
                    (
                      (keeps_text_iff p.closeout_checksum_identity c.closeout_checksum_identity).1
                          k.closeout,
                      tt,
                    ),
                  ),
                ),
              ),
            ),
          ),
        ),
      ),
    )

-- The step crosses the trigger boundary: the trigger was confirmed, or its delivery was lost.
abbrev pub IsCrossing : Transaction → Transaction → Type 0
IsCrossing p c =
    (p.transaction_state ≡ prestep_admitted)
    × ((c.transaction_state ≡ triggered_exactly_once) ⊎ (c.transaction_state ≡ invalid_posttrigger))

pub record IsTriggerStep (p c : Transaction) : Type 0 where
  pub confirmed :
      p.transaction_state ≡ prestep_admitted
      → c.transaction_state ≡ triggered_exactly_once
      → trigger_tuple c ≡ confirmed_tuple
  pub ambiguous :
      p.transaction_state ≡ prestep_admitted
      → c.transaction_state ≡ invalid_posttrigger
      → trigger_tuple c ≡ ambiguous_tuple
  pub unchanged : ¬ (IsCrossing p c) → trigger_tuple c ≡ trigger_tuple p

pub is_state_iff : (s t : State) → (is_state s t ≡ true) ↔ (s ≡ t)
is_state_iff s t = (λ h. index_injective s t ((==_iff _ _).0 h), λ e. (==_iff _ _).1 (ap index e))

tuple_eq_iff : (t u : TriggerTuple) → (tuple_eq t u ≡ true) ↔ (t ≡ u)
tuple_eq_iff t u = ground arith

-- The step brings an undisturbed transaction into a failure state.
abbrev pub IsEntering : Transaction → Transaction → Type 0
IsEntering p c = (13 ≤ index c.transaction_state) × (index p.transaction_state < 13)

-- A failure is entered from an intact record; otherwise it stays as it is.
pub record IsFailureStep (p c : Transaction) : Type 0 where
  pub entered : IsEntering p c → p.failure_class ≡ no_failure
  pub carried :
      ¬ (IsEntering p c)
      → (c.failure_class ≡ p.failure_class) × (c.failure_reason ≡ p.failure_reason)

entering_failure_iff : (p c : Transaction) → (entering_failure p c ≡ true) ↔ IsEntering p c
unfolding entering_failure
entering_failure_iff p c = ground arith

failure_class_eq_iff : (a b : FailureClass) → (failure_class_eq a b ≡ true) ↔ (a ≡ b)
failure_class_eq_iff a b = ground arith

pub record IsAdjudicationStep (p c : Transaction) : Type 0 where
  pub judged :
      c.transaction_state ≡ scientifically_adjudicated
      → c.scientific_adjudication_result ≢ not_adjudicated
  pub invalidated :
      c.transaction_state ≡ scientifically_adjudicated
      → p.transaction_state ≡ invalid_posttrigger
      → c.scientific_adjudication_result ≡ invalid

is_adjudicated_iff : (a : Adjudication) → (is_adjudicated a ≡ true) ↔ (a ≢ not_adjudicated)
is_adjudicated_iff a = ground arith

is_invalid_iff : (a : Adjudication) → (is_invalid a ≡ true) ↔ (a ≡ invalid)
is_invalid_iff a = ground arith

pub validate_adjudication_transition_iff :
    (p c : Transaction) → (validate_adjudication_transition p c ≡ ok tt) ↔ IsAdjudicationStep p c
unfolding validate_adjudication_transition
validate_adjudication_transition_iff p c =
    let checks = only_if_iff _ _ (is_state_iff c.transaction_state scientifically_adjudicated) (
      >>_iff _ _ (require_iff _ _ (is_adjudicated_iff c.scientific_adjudication_result)) (
        only_if_iff _ _ (is_state_iff p.transaction_state invalid_posttrigger)
          (require_iff _ _ (is_invalid_iff c.scientific_adjudication_result)))) in
    (
      λ h. record { judged = λ e. (checks.0 h e).0; invalidated = λ e. (checks.0 h e).1 },
      λ a. checks.1 (λ e. (a.judged e, a.invalidated e)),
    )

if_ok_iff :
    {P Q R : Type 0} (b : Bool) (m k : Result (Unit {0}))
    → (b ≡ true) ↔ P
    → (m ≡ ok tt) ↔ Q
    → (k ≡ ok tt) ↔ R
    → ((if b then m else k) ≡ ok tt) ↔ ((P → Q) × (¬ P → R))
if_ok_iff true m k p q r =
    (λ h. (λ _. q.0 h, λ n. absurd (n (p.0 refl))), λ h. q.1 (h.0 (p.0 refl)))
if_ok_iff false m k p q r =
    (λ h. (λ a. absurd (cc (p.1 a)), λ _. r.0 h), λ h. r.1 (h.1 (λ a. absurd (cc (p.1 a)))))

same_failure_iff :
    (p c : Transaction)
    → (require
            (failure_class_eq c.failure_class p.failure_class)
            "FAILURE_CLASS_CHANGED_OUTSIDE_FAILURE_ENTRY"
          >> require
              (str_eq c.failure_reason p.failure_reason)
              "FAILURE_REASON_CHANGED_OUTSIDE_FAILURE_ENTRY"
        ≡ ok tt)
      ↔ ((c.failure_class ≡ p.failure_class) × (c.failure_reason ≡ p.failure_reason))
same_failure_iff p c =
    >>_iff _ _ (require_iff _ _ (failure_class_eq_iff c.failure_class p.failure_class))
      (require_iff _ _ (eq_iff c.failure_reason p.failure_reason))

pub validate_failure_continuity_iff :
    (p c : Transaction) → (validate_failure_continuity p c ≡ ok tt) ↔ IsFailureStep p c
unfolding validate_failure_continuity
validate_failure_continuity_iff p c =
    let checks =
      if_ok_iff _ _ _ (entering_failure_iff p c)
        (require_iff _ "FAILURE_ENTERED_FROM_ALREADY_FAILED_RECORD"
          (failure_class_eq_iff p.failure_class no_failure))
        (same_failure_iff p c) in
    (
      λ h. record { entered = (checks.0 h).0; carried = (checks.0 h).1 },
      λ s. checks.1 (s.entered, s.carried),
    )

and_iff :
    {P Q : Type 0} (a b : Bool) → (a ≡ true) ↔ P → (b ≡ true) ↔ Q → ((a && b) ≡ true) ↔ (P × Q)
and_iff true b p q = (λ h. (p.0 refl, q.0 h), λ h. q.1 h.1)
and_iff false b p q = (λ h. cc, λ h. absurd (cc (p.1 h.0)))

not_crossing : {P Q R : Type 0} → ¬ (P × Q) → ¬ (P × R) → ¬ (P × (Q ⊎ R))
not_crossing n m (x, inl y) = n (x, y)
not_crossing n m (x, inr z) = m (x, z)

lost_is_not_sent : {s : State} → s ≡ invalid_posttrigger → s ≡ triggered_exactly_once → ⊥
lost_is_not_sent a b = cc

pub validate_trigger_transition_iff :
    (p c : Transaction) → (validate_trigger_transition p c ≡ ok tt) ↔ IsTriggerStep p c
unfolding validate_trigger_transition
validate_trigger_transition_iff p c =
    let at = λ (s t : State).
      and_iff _ _ (is_state_iff p.transaction_state s) (is_state_iff c.transaction_state t) in
    let checks =
      if_ok_iff _ _ _ (at prestep_admitted triggered_exactly_once)
        (require_iff _ "CONFIRMED_TRIGGER_TUPLE_INVALID"
          (tuple_eq_iff (trigger_tuple c) confirmed_tuple))
        (if_ok_iff _ _ _ (at prestep_admitted invalid_posttrigger)
          (require_iff _ "AMBIGUOUS_TRIGGER_TUPLE_INVALID"
            (tuple_eq_iff (trigger_tuple c) ambiguous_tuple))
          (require_iff _ "TRIGGER_TUPLE_CHANGED_OUTSIDE_TRIGGER_BOUNDARY"
            (tuple_eq_iff (trigger_tuple c) (trigger_tuple p)))) in
    (
      λ h.
          let (sent, other) = checks.0 h in
          record {
            confirmed = λ a b. sent (a, b);
            ambiguous = λ a b. (other (λ e. lost_is_not_sent b e.1)).0 (a, b);
            unchanged = λ n. (other (λ e. n (e.0, inl e.1))).1 (λ e. n (e.0, inr e.1));
          },
      λ s. checks.1 (
        λ e. s.confirmed e.0 e.1,
        λ n. (λ e. s.ambiguous e.0 e.1, λ m. s.unchanged (not_crossing n m)),
      ),
    )
