-- ===== src/Critical/Tests.antt =====
-- Runs of the critical section, alone and in a race, and the theorems at concrete data.
use Prim.Native.String.{◌++◌ as str_append}
use tcd_oran_testbed_integra.Base.{
  ℕ, ◌≤◌, ◌≡◌, refl, true, false, ◌&&◌, Option, some, List, [], ◌∷◌, String,
}
use tcd_oran_testbed_integra.Base.Text.{Text, codes, text_eq, split, splitlines, lines_from}
use tcd_oran_testbed_integra.Base.Json.{
  Json, Fields, Items, end, item, object, text, number, boolean, array, close, field, get, is_text,
  is_number, is_false, texts, item_texts,
}
use tcd_oran_testbed_integra.Base.Paths.{FilePath, path, path_eq, parent, name, ◌</>◌}
use tcd_oran_testbed_integra.Critical.Program.{
  returned, json, Program, ret, ◌>>=◌, ask, rethrow, finally_do,
}
use tcd_oran_testbed_integra.Critical.Section.{
  Failure, Args, main, main_read, inspect_or_run, run_live, attempt_recorded, attempt,
  claim_operation, write_exclusive, run_child, start, dispatched, confirmed, stationarity_pass,
  executor_pass, is_operation_id, is_authorized, exit_code,
}
use tcd_oran_testbed_integra.Critical.Plan.{
  load_plan, load_fields, command, is_trusted, is_frozen, option, option_is, breaks_contract,
  in_run, bound_plan,
}
use tcd_oran_testbed_integra.Critical.System.{
  Environment, System, run, start_all, step, perform, creation, note,
}
use tcd_oran_testbed_integra.Critical.Once.{count, run_triggered_once, operation_triggered_once}

abbrev at_run : String → Text
at_run rest = codes (str_append "/e/base/x/r1/" rest)

abbrev array_of : List Text → Items
array_of [] = end
array_of (t ∷ ts) = item (text t) (array_of ts)

abbrev argv_of : String → List Text → Json
argv_of source argv = array (array_of (codes "python3" ∷ codes (str_append "/h/" source) ∷ argv))

abbrev false_fields : List String → Fields → Fields
false_fields [] rest = rest
false_fields (key ∷ keys) rest = field key (boolean false) (false_fields keys rest)

abbrev materialized : Fields
materialized =
    field "schema" (text (codes "sci_oran_prompt12_resume_single_transition_materialization_v1")) (
      field "transition_label" (text (codes "T2")) (
        field "transition_index" (number 2) (
          field "executed_transition_ordinal" (number 1) (
            field "expected_actuator_transaction_count" (number 1) (
              field "expected_timeline_event_count" (number 3) (
                field "initial_precontrol_command"
                  (argv_of "prompt12-bounded-precontrol-handoff.py" (
                    codes "--stationarity-command"
                    ∷ codes "s"
                    ∷ codes "--freshness-command"
                    ∷ codes "f"
                    ∷ codes "--precontrol-output"
                    ∷ at_run "precontrol/T2.json"
                    ∷ []))
                  (field "ratio_bind_command"
                    (argv_of "prompt12-pretrigger-ratio-binding-writer.py" (
                      codes "--transition-label"
                      ∷ codes "T2"
                      ∷ codes "--transition-index"
                      ∷ codes "2"
                      ∷ codes "--requested-ratio-pct"
                      ∷ codes "75"
                      ∷ codes "--output"
                      ∷ at_run "runtime/ratio-bindings/T2.binding.json"
                      ∷ []))
                    (field "trigger_command"
                      (argv_of "prompt12-precontrol-trigger-executor.py" (
                        codes "--mode"
                        ∷ codes "fifo"
                        ∷ codes "--max-age-ms"
                        ∷ codes "800"
                        ∷ codes "--control-authorization-token"
                        ∷ codes "@PROMPT12_CONTROL_AUTHORIZATION_TOKEN@"
                        ∷ codes "--precontrol-json"
                        ∷ at_run "precontrol/T2.json"
                        ∷ codes "--output"
                        ∷ at_run "control/T2.executor.json"
                        ∷ []))
                      (false_fields
                        ("synthetic_prior_transition_events"
                          ∷ "skipped_transition_bindings_consumed" ∷ "t3_handoff_present"
                          ∷ "t3_trigger_present" ∷ "command_executed" ∷ "control_executed"
                          ∷ "traffic_executed" ∷ [])
                        close)))))))))

abbrev args : Args
args = record {
  materialization = json (object materialized);
  is_live = true;
  operation_id = some (codes "operation-1");
  live_authorization_token = some (codes "AUTHORISE_PROMPT12_RESUMED_T2_26_TO_39_LIVE");
  control_authorization_token = some (codes "PROMPT12_T2_EXPLICIT_FIFO_CONTROL");
  live_interlock = some (codes "YES");
  fresh_id = codes "prompt12-t2-0";
}

-- Every call succeeds. The one output serves the three children.
abbrev good : Environment
good = record {
  creation_fails = false;
  persists = true;
  answer = true;
  now = "now";
  result = returned (codes "RATIO_BOUND=PASS");
  leaves_report = true;
  reading = json (
      object (
        field "EXECUTOR_GATE" (text (codes "PASS")) (
          field "CONTROL_EXECUTED" (text (codes "YES")) (
            field "SCIENTIFIC_TRIGGER_CONSUMED" (text (codes "YES")) (
              field "TRIGGER_WRITE_ATTEMPT_COUNT" (number 1) (
                field "TRIGGER_WRITE_SUCCESS_COUNT" (number 1)
                  (field "EXECUTOR_START_SAMPLE_AGE_GATE" (text (codes "PASS")) close)))))));
}

-- The claims are no symbolic link.
abbrev no_link : Environment
no_link = record good { answer = false }

abbrev passing : Text → Option Json
passing t = some (
    object (
      field "output_stationarity_gate" (text (codes "PASS")) (
        field "minimum_phase_duration_gate" (text (codes "PASS"))
          (field "statistical_phase_candidate" (text (codes "PASS")) close))))

abbrev program : Program Failure ℕ
program = main (λ t. some (path t)) (λ s. path (codes "/h") </> s) passing args

abbrev root : FilePath
root = path (at_run "")

-- The schedule of one invocation that meets no fault.
abbrev alone : ℕ → List (ℕ × Environment)
alone i =
    (i, good)
    ∷ (i, good)
    ∷ (i, good)
    ∷ (i, good)
    ∷ (i, good)
    ∷ (i, good)
    ∷ (i, no_link)
    ∷ (i, good)
    ∷ (i, good)
    ∷ (i, good)
    ∷ (i, good)
    ∷ (i, good)
    ∷ (i, good)
    ∷ (i, good)
    ∷ (i, good)
    ∷ (i, good)
    ∷ (i, good)
    ∷ (i, good)
    ∷ []

completed : (run (alone 0) (start_all [] (program ∷ []))).invocations ≡ ret 0 ∷ []
unfolding run start_all step perform creation note main main_read inspect_or_run run_live
    attempt_recorded attempt claim_operation write_exclusive run_child start dispatched confirmed
    stationarity_pass executor_pass is_operation_id is_authorized exit_code load_plan load_fields
    command is_trusted is_frozen option option_is breaks_contract in_run bound_plan ◌>>=◌ ask
    rethrow finally_do path path_eq parent name ◌</>◌ get is_text is_number is_false texts
    item_texts split splitlines lines_from
completed = refl

-- Two invocations look for the intent before either has made it; then the first one runs to its
-- end, and the second.
abbrev race : List (ℕ × Environment)
race =
    (0, good)
    ∷ (1, good)
    ∷ (0, good)
    ∷ (1, good)
    ∷ (0, good)
    ∷ (1, good)
    ∷ (0, good)
    ∷ (1, good)
    ∷ (0, good)
    ∷ (1, good)
    ∷ (0, good)
    ∷ (0, no_link)
    ∷ (0, good)
    ∷ (0, good)
    ∷ (0, good)
    ∷ (0, good)
    ∷ (0, good)
    ∷ (0, good)
    ∷ (0, good)
    ∷ (0, good)
    ∷ (1, good)
    ∷ []

raced : System
unfolding run start_all step perform creation note main main_read inspect_or_run run_live
    attempt_recorded attempt claim_operation write_exclusive run_child start dispatched confirmed
    stationarity_pass executor_pass is_operation_id is_authorized exit_code load_plan load_fields
    command is_trusted is_frozen option option_is breaks_contract in_run bound_plan ◌>>=◌ ask
    rethrow finally_do path path_eq parent name ◌</>◌ get is_text is_number is_false texts
    item_texts split splitlines lines_from
raced = run race (start_all [] (program ∷ program ∷ []))

raced_once : raced.triggers ≡ (root, codes "operation-1") ∷ []
unfolding raced
raced_once = refl

run_triggered_once_example : count (λ r _. path_eq r root) raced.triggers ≤ 1
unfolding raced
run_triggered_once_example =
    run_triggered_once (λ t. some (path t)) (λ s. path (codes "/h") </> s) passing []
      (args ∷ args ∷ []) race root

operation_triggered_once_example :
    count
      (λ r id.
        path_eq
          (parent (parent r) </> ".t2-operation-claims")
          (path (codes "/e/base/.t2-operation-claims"))
        && text_eq id (codes "operation-1"))
      raced.triggers
    ≤ 1
unfolding raced
operation_triggered_once_example =
    operation_triggered_once (λ t. some (path t)) (λ s. path (codes "/h") </> s) passing []
      (args ∷ args ∷ []) race (path (codes "/e/base/.t2-operation-claims")) (codes "operation-1")
