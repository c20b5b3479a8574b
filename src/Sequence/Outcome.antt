-- ===== src/Sequence/Outcome.antt =====
-- What `evaluate_sequence` of
-- scripts/experiment-harness/prompt12-six-transition-orchestrator.py decides, in terms of the
-- number of gates that pass before the first that fails.
use tcd_oran_testbed_integra.Base.{
  ℕ, suc, ◌<◌, ◌≡◌, ◌↔◌, true, Option, none, some, List, [], ◌∷◌, length, get_elem?, take, String,
  Returns, arith, ◌+◌, get_or,
}
use tcd_oran_testbed_integra.Sequence.Plan.{Gate, pass, fail, Transition, expected_transitions}
use tcd_oran_testbed_integra.Sequence.Evaluate.{
  Control, Sequence, make_control_plan, evaluate_sequence,
}

-- The gates that pass before the first that fails.
abbrev pub passes : List Gate → ℕ
passes [] = 0
passes (pass ∷ gates) = suc (passes gates)
passes (fail ∷ gates) = 0

-- The gate that stands before each control, and the one behind the last.
abbrev pub gate_source : ℕ → String
gate_source index =
    get_or
      ("initial_pre_step_stationarity" ∷ "post_T1_stationarity" ∷ "post_T2_stationarity"
        ∷ "post_T3_stationarity" ∷ "post_T4_stationarity" ∷ "post_T5_stationarity"
        ∷ "post_T6_stationarity" ∷ [])
      index ""

-- The controls of a plan, numbered from `index + 1`, each admitted by its gate.
abbrev pub admitted : ℕ → List Transition → List Control
admitted index [] = []
admitted index (t ∷ ts) =
    make_control_plan t (index + 1) (gate_source index) pass ∷ admitted (index + 1) ts

abbrev pub label : Option Transition → Option String
label none = none
label (some t) = some t.transition_label

-- The outcome over the seven gates, the initial one first.
pub record IsOutcome (gates : List Gate) (s : Sequence) : Type 0 where
  pub admits : s.controls ≡ take (passes gates) (admitted 0 expected_transitions)
  pub counted : s.admitted_control_count ≡ length s.controls
  pub completes : (s.sequence_complete ≡ true) ↔ (passes gates ≡ 7)
  pub passes_gate : (s.sequence_gate ≡ pass) ↔ (passes gates ≡ 7)
  pub blocks_before :
      s.blocked_before_control ≡ label (get_elem? expected_transitions (passes gates))
  pub blocks_completion :
      (s.blocked_completion_point ≡ some "POST_T6_COMPLETION") ↔ (passes gates ≡ 6)
  pub source : passes gates < 7 → s.blocking_gate_source ≡ some (gate_source (passes gates))
  pub value : passes gates < 7 → s.blocking_gate_value ≡ some fail

-- For every initial gate and every six gates after the transitions, the evaluation admits exactly
-- the controls before the first gate that fails, names that gate and what it blocks, and is
-- complete exactly when all seven gates pass.
pub evaluate_sequence-IsOutcome :
    (g₀ g₁ g₂ g₃ g₄ g₅ g₆ : Gate)
    → let post = g₁ ∷ g₂ ∷ g₃ ∷ g₄ ∷ g₅ ∷ g₆ ∷ [] in
      Returns (evaluate_sequence expected_transitions g₀ post) (IsOutcome (g₀ ∷ post))
unfolding evaluate_sequence make_control_plan
evaluate_sequence-IsOutcome fail _ _ _ _ _ _ = ground arith
evaluate_sequence-IsOutcome pass fail _ _ _ _ _ = ground arith
evaluate_sequence-IsOutcome pass pass fail _ _ _ _ = ground arith
evaluate_sequence-IsOutcome pass pass pass fail _ _ _ = ground arith
evaluate_sequence-IsOutcome pass pass pass pass fail _ _ = ground arith
evaluate_sequence-IsOutcome pass pass pass pass pass fail _ = ground arith
evaluate_sequence-IsOutcome pass pass pass pass pass pass fail = ground arith
evaluate_sequence-IsOutcome pass pass pass pass pass pass pass = ground arith
