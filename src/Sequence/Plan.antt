-- ===== src/Sequence/Plan.antt =====
-- The frozen six-transition plan and its loader
-- (scripts/experiment-harness/prompt12-six-transition-orchestrator.py).
use text.Mathlib.Text.{◌==◌ as str_eq}
use tcd_oran_testbed_integra.Base.{
  ℕ, ◌==◌, Bool, true, false, ◌&&◌, Option, none, some, List, [], ◌∷◌, String, Result, ok, err,
  if◌then◌else◌,
}

pub data Gate : Type 0 where
  pass fail : Gate

abbrev pub is_pass : Gate → Bool
is_pass pass = true
is_pass fail = false

pub record Transition : Type 0 where
  pub transition_label : String
  pub from_ratio_pct : ℕ
  pub to_ratio_pct : ℕ
  pub from_prbs : ℕ
  pub to_prbs : ℕ

abbrev pub transition : String → ℕ → ℕ → ℕ → ℕ → Transition
transition label from_ratio to_ratio from_prb to_prb = record {
  transition_label = label;
  from_ratio_pct = from_ratio;
  to_ratio_pct = to_ratio;
  from_prbs = from_prb;
  to_prbs = to_prb;
}

abbrev pub expected_transitions : List Transition
expected_transitions =
    transition "T1" 25 50 13 26
    ∷ transition "T2" 50 75 26 39
    ∷ transition "T3" 75 100 39 52
    ∷ transition "T4" 100 75 52 39
    ∷ transition "T5" 75 50 39 26
    ∷ transition "T6" 50 25 26 13
    ∷ []

pub data Repeat : Type 0 where
  r01 r02 r03 r04 : Repeat

pub data ModelUse : Type 0 where
  estimation holdout_validation : ModelUse

-- `REPEAT_TO_MODEL_USE`
abbrev pub repeat_to_model_use : Repeat → ModelUse
repeat_to_model_use r01 = estimation
repeat_to_model_use r02 = estimation
repeat_to_model_use r03 = estimation
repeat_to_model_use r04 = holdout_validation

abbrev pub transition_eq : Transition → Transition → Bool
transition_eq a b =
    str_eq a.transition_label b.transition_label
    && a.from_ratio_pct == b.from_ratio_pct
    && a.to_ratio_pct == b.to_ratio_pct
    && a.from_prbs == b.from_prbs
    && a.to_prbs == b.to_prbs

abbrev pub plan_eq : List Transition → List Transition → Bool
plan_eq [] [] = true
plan_eq [] (_ ∷ _) = false
plan_eq (_ ∷ _) [] = false
plan_eq (a ∷ s) (b ∷ t) = transition_eq a b && plan_eq s t

-- The constant of the schema's `transitionPlan`; `none` when a key on the way is missing.
unfoldable pub load_schema_transition_plan : Option (List Transition) → Result (List Transition)
load_schema_transition_plan none = err "schema transitionPlan contract missing"
load_schema_transition_plan (some plan) =
    if plan_eq plan expected_transitions
    then ok plan
    else err "schema transitionPlan differs from frozen T1-T6 contract"
