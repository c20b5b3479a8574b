-- ===== src/Sequence/Evaluate.antt =====
-- The admission of the controls and the report
-- (scripts/experiment-harness/prompt12-six-transition-orchestrator.py).
use Prim.Native.String.{◌++◌ as str_append}
use tcd_oran_testbed_integra.Base.{
  ℕ, ◌==◌, ◌-◌, ◌+◌, Bool, true, false, not, Option, none, some, List, [], ◌∷◌, ◌++◌, map, length,
  get_elem?, String, Result, ok, err, ◌>>=◌, ◌>>◌, if◌then◌else◌, require,
}
use tcd_oran_testbed_integra.Base.Text.{Text}
use tcd_oran_testbed_integra.Sequence.Plan.{
  Gate, pass, fail, is_pass, Transition, Repeat, ModelUse, repeat_to_model_use,
  load_schema_transition_plan,
}
use tcd_oran_testbed_integra.Sequence.Parse.{validate_identity, parse_post_gates}

pub record Control : Type 0 where
  pub control_index : ℕ
  pub transition_label : String
  pub from_ratio_pct : ℕ
  pub to_ratio_pct : ℕ
  pub from_prbs : ℕ
  pub to_prbs : ℕ
  pub admission_source : String
  pub admission_gate : Gate
  pub control_time_origin : String
  pub ack_as_time_origin : Bool
  pub execution_mode : String

unfoldable pub make_control_plan : Transition → ℕ → String → Gate → Control
make_control_plan transition control_index admission_source admission_gate = record {
  control_index = control_index;
  transition_label = transition.transition_label;
  from_ratio_pct = transition.from_ratio_pct;
  to_ratio_pct = transition.to_ratio_pct;
  from_prbs = transition.from_prbs;
  to_prbs = transition.to_prbs;
  admission_source = admission_source;
  admission_gate = admission_gate;
  control_time_origin = "applied_readback";
  ack_as_time_origin = false;
  execution_mode = "DRY_RUN_NO_CONTROL_EXECUTION";
}

-- `sequence_gate` PASS is `pass`, BLOCKED is `fail`.
pub record Sequence : Type 0 where
  pub sequence_gate : Gate
  pub sequence_complete : Bool
  pub admitted_control_count : ℕ
  pub blocked_before_control : Option String
  pub blocked_completion_point : Option String
  pub blocking_gate_source : Option String
  pub blocking_gate_value : Option Gate
  pub controls : List Control

-- `items[index]`, which raises out of range.
abbrev pub item {ℓ} : {A : Type ℓ} → List A → ℕ → Result A
item items index = elim (get_elem? items index) [ none ↦ err "IndexError" | some a ↦ ok a ]

-- The source of the gate that admits the control at `index`, and the gate.
pub admission : List Transition → Gate → List Gate → ℕ → Result (String × Gate)
admission plan initial_gate post_gates index =
    if index == 0 then ok ("initial_pre_step_stationarity", initial_gate) else do
      previous ← item plan (index - 1)
      gate ← item post_gates (index - 1)
      ok (str_append "post_" (str_append previous.transition_label "_stationarity"), gate)

blocked_before : Transition → String → Gate → List Control → Sequence
blocked_before transition source gate controls = record {
  sequence_gate = fail;
  sequence_complete = false;
  admitted_control_count = length controls;
  blocked_before_control = some transition.transition_label;
  blocked_completion_point = none;
  blocking_gate_source = some source;
  blocking_gate_value = some gate;
  controls = controls;
}

-- What follows the loop.
finish : List Gate → List Control → Result Sequence
finish post_gates controls = do
  final_gate ← item post_gates 5
  ok (
      if is_pass final_gate
      then record {
        sequence_gate = pass;
        sequence_complete = true;
        admitted_control_count = 6;
        blocked_before_control = none;
        blocked_completion_point = none;
        blocking_gate_source = none;
        blocking_gate_value = none;
        controls = controls;
      }
      else record {
        sequence_gate = fail;
        sequence_complete = false;
        admitted_control_count = 6;
        blocked_before_control = none;
        blocked_completion_point = some "POST_T6_COMPLETION";
        blocking_gate_source = some "post_T6_stationarity";
        blocking_gate_value = some final_gate;
        controls = controls;
      })

-- The loop over the transitions that are left, with the controls admitted so far.
admit_from :
    List Transition → Gate → List Gate → ℕ → List Transition → List Control → Result Sequence
unfolding finish blocked_before admission make_control_plan
admit_from plan initial_gate post_gates index [] controls = finish post_gates controls
admit_from plan initial_gate post_gates index (transition ∷ rest) controls = do
  (source, gate) ← admission plan initial_gate post_gates index
  let further =
      admit_from plan initial_gate post_gates (index + 1) rest
        (controls ++ make_control_plan transition (index + 1) source gate ∷ [])
  if is_pass gate then further else ok (blocked_before transition source gate controls)

unfoldable pub evaluate_sequence : List Transition → Gate → List Gate → Result Sequence
unfolding admit_from
evaluate_sequence transition_plan initial_gate post_gates =
    admit_from transition_plan initial_gate post_gates 0 transition_plan []

pub record Args : Type 0 where
  pub schema : Option (List Transition)  -- the constant in the schema file
  pub experiment_id : Text
  pub run_id : Text
  pub repeat_id : Repeat
  pub initial_stationarity_gate : Gate
  pub post_stationarity_gates : Text
  pub output_exists : Bool  -- whether a file stands at the output path

-- The report, less the entries that hold the same text in every one.
pub record Report : Type 0 where
  pub experiment_id : Text
  pub run_id : Text
  pub repeat_id : Repeat
  pub model_use_class : ModelUse
  pub initial_ratio_pct : ℕ
  pub initial_prbs : ℕ
  pub expected_control_count : ℕ
  pub transition_labels : List String
  pub control_target_ratios : List ℕ
  pub control_target_prbs : List ℕ
  pub traffic_stream_count : ℕ
  pub traffic_continuity_required : Bool
  pub receiver_continuity_required : Bool
  pub additional_startup_guard_between_transitions : Bool
  pub next_control_without_stationarity_pass : Bool
  pub ack_as_time_origin : Bool
  pub live_control_allowed : Bool
  pub live_traffic_allowed : Bool
  pub docker_mutation_allowed : Bool
  pub initial_stationarity_gate : Gate
  pub post_stationarity_gates : List Gate
  pub sequence : Sequence

unfoldable pub build_report : Args → List Transition → List Gate → Result Report
build_report args transition_plan post_gates = do
  sequence ← evaluate_sequence transition_plan args.initial_stationarity_gate post_gates
  ok (record {
    experiment_id = args.experiment_id;
    run_id = args.run_id;
    repeat_id = args.repeat_id;
    model_use_class = repeat_to_model_use args.repeat_id;
    initial_ratio_pct = 25;
    initial_prbs = 13;
    expected_control_count = 6;
    transition_labels = map (λ item. item.transition_label) transition_plan;
    control_target_ratios = map (λ item. item.to_ratio_pct) transition_plan;
    control_target_prbs = map (λ item. item.to_prbs) transition_plan;
    traffic_stream_count = 1;
    traffic_continuity_required = true;
    receiver_continuity_required = true;
    additional_startup_guard_between_transitions = false;
    next_control_without_stationarity_pass = false;
    ack_as_time_origin = false;
    live_control_allowed = false;
    live_traffic_allowed = false;
    docker_mutation_allowed = false;
    initial_stationarity_gate = args.initial_stationarity_gate;
    post_stationarity_gates = post_gates;
    sequence = sequence;
  })

-- `write_report`, whose effect is to write the report that it is given.
unfoldable pub write_report : Bool → Report → Result Report
write_report output_exists report = do
  require (not output_exists) "output already exists"
  ok report

-- The report that `main` writes, and its exit code when nothing is raised.
unfoldable pub main : Args → Result (Report × ℕ)
unfolding write_report build_report
main args = do
  validate_identity args.experiment_id args.run_id args.repeat_id
  transition_plan ← load_schema_transition_plan args.schema
  post_gates ← parse_post_gates args.post_stationarity_gates
  report ← build_report args transition_plan post_gates
  written ← write_report args.output_exists report
  ok (written, if is_pass written.sequence.sequence_gate then 0 else 20)
