-- ===== src/Critical/Plan.antt =====
-- load_plan of scripts/experiment-harness/prompt12-t2-critical-section.py. Links are resolved by
-- the file system, which `resolve` stands for, and `script` is the path of a script beside this
-- one.
use Prim.Native.String.{◌++◌ as str_append}
use tcd_oran_testbed_integra.Base.{
  ℕ, ◌+◌, ◌==◌, Bool, true, false, not, ◌&&◌, ◌||◌, Option, none, some, List, [], ◌∷◌, String,
  Result, ok, err, ◌>>=◌, ◌>>◌, require, if◌then◌else◌,
}
use tcd_oran_testbed_integra.Base.Text.{Text, codes, text_eq}
use tcd_oran_testbed_integra.Base.Json.{
  Json, Fields, object, get, is_text, is_number, is_false, texts,
}
use tcd_oran_testbed_integra.Base.Paths.{FilePath, path, path_eq, parent, name, ◌</>◌}

abbrev pub control_placeholder : Text
control_placeholder = codes "@PROMPT12_CONTROL_AUTHORIZATION_TOKEN@"

-- `argv.count(name)`
abbrev pub occurrences : Text → List Text → ℕ
occurrences name [] = 0
occurrences name (arg ∷ argv) = (if text_eq arg name then 1 else 0) + occurrences name argv

abbrev head? : List Text → Option Text
head? [] = none
head? (arg ∷ argv) = some arg

-- What follows the first occurrence.
abbrev pub after : Text → List Text → Option Text
after name [] = none
after name (arg ∷ argv) =
    let rest = after name argv in if text_eq arg name then head? argv else rest

abbrev value_or_missing : String → Option Text → Result Text
value_or_missing name none = err (str_append "OPTION_VALUE_MISSING:" name)
value_or_missing name (some value) = ok value

unfoldable pub option : List Text → String → Result Text
option argv name = do
  require (occurrences (codes name) argv == 1) (str_append "OPTION_CARDINALITY_INVALID:" name)
  value_or_missing name (after (codes name) argv)

-- `option(argv, name) == literal`
unfoldable pub option_is : List Text → String → String → Result Bool
option_is argv name literal = do value ← option argv name; ok (text_eq value (codes literal))

abbrev has_nul : Text → Bool
has_nul [] = false
has_nul (c ∷ t) = c == 0 || has_nul t

abbrev all_clean : List Text → Bool
all_clean [] = true
all_clean (arg ∷ argv) = not (text_eq arg [] || has_nul arg) && all_clean argv

abbrev member : Text → List String → Bool
member t [] = false
member t (s ∷ ss) = text_eq t (codes s) || member t ss

abbrev interpreters : List String
interpreters =
    "python3" ∷ "python" ∷ "python3.9" ∷ "python3.10" ∷ "python3.11" ∷ "python3.12" ∷ "python3.13"
    ∷ []

unfoldable pub is_trusted : List Text → Bool
is_trusted [] = false
is_trusted (program ∷ []) = false
is_trusted (program ∷ source ∷ argv) =
    all_clean (program ∷ source ∷ argv) && member (name (path program)) interpreters

pub record Plan : Type 0 where
  pub precontrol : List Text
  pub ratio : List Text
  pub trigger : List Text
  pub executor_output : FilePath

abbrev all_false : List String → Fields → Bool
all_false [] report = true
all_false (key ∷ keys) report = is_false (get key report) && all_false keys report

unfoldable pub is_frozen : Fields → Bool
is_frozen raw =
    is_text (get "transition_label" raw) "T2"
    && is_number (get "transition_index" raw) 2
    && is_number (get "executed_transition_ordinal" raw) 1
    && is_number (get "expected_actuator_transaction_count" raw) 1
    && is_number (get "expected_timeline_event_count" raw) 3
    && all_false
        ("synthetic_prior_transition_events" ∷ "skipped_transition_bindings_consumed"
          ∷ "t3_handoff_present" ∷ "t3_trigger_present" ∷ "command_executed" ∷ "control_executed"
          ∷ "traffic_executed" ∷ [])
        raw

-- `a or b`, where the second test is made only if the first fails.
abbrev or_else : Result Bool → Result Bool → Result Bool
or_else first second = do test ← first; if test then ok true else second

-- `option(argv, name) != literal`
abbrev option_differs : List Text → String → String → Result Bool
option_differs argv name literal = do same ← option_is argv name literal; ok (not same)

-- The test that raises T2_COMMAND_CONTRACT_INVALID.
unfoldable pub breaks_contract : List Text → List Text → Result Bool
breaks_contract ratio trigger = or_else (option_differs ratio "--transition-label" "T2") (
    or_else (option_differs ratio "--transition-index" "2") (
      or_else (option_differs ratio "--requested-ratio-pct" "75") (
        or_else (option_differs trigger "--mode" "fifo") (
          or_else (option_differs trigger "--max-age-ms" "800") (
            or_else
              (option_differs trigger "--control-authorization-token"
                "@PROMPT12_CONTROL_AUTHORIZATION_TOKEN@")
              (ok (not (occurrences control_placeholder trigger == 1))))))))

-- The paths that the commands name, and the run they belong to.
unfoldable pub in_run : (source trigger_source ratio_output executor_output : FilePath) → Bool
in_run source trigger_source ratio_output executor_output =
    let run = parent (parent executor_output) in
    path_eq source trigger_source
    && path_eq source (run </> "precontrol/T2.json")
    && path_eq executor_output (run </> "control/T2.executor.json")
    && path_eq ratio_output (run </> "runtime/ratio-bindings/T2.binding.json")

unfoldable pub bound_plan : List Text → List Text → List Text → Result Plan
bound_plan pre ratio trigger = do
  source ← option pre "--precontrol-output"
  trigger_source ← option trigger "--precontrol-json"
  ratio_output ← option ratio "--output"
  executor_output ← option trigger "--output"
  require
      ((path source).is_absolute
        && (path trigger_source).is_absolute
        && (path ratio_output).is_absolute
        && (path executor_output).is_absolute)
      "T2_OUTPUT_PATH_NOT_ABSOLUTE"
  require (in_run (path source) (path trigger_source) (path ratio_output) (path executor_output))
      "T2_RUN_SCOPE_MISMATCH"
  ok (record {
    precontrol = pre;
    ratio = ratio;
    trigger = trigger;
    executor_output = path executor_output;
  })

module _ (resolve : Text → Option FilePath) (script : String → FilePath) where
  check_source : String → String → Option FilePath → List Text → Result (List Text)
  check_source key source none argv = err (str_append "COMMAND_SOURCE_UNAVAILABLE:" key)
  check_source key source (some actual) argv = do
    require (path_eq actual (script source)) (str_append "COMMAND_SOURCE_IDENTITY_MISMATCH:" key)
    ok argv

  abbrev second : List Text → Text
  second (program ∷ source ∷ argv) = source
  second _ = []

  trusted : String → String → Option (List Text) → Result (List Text)
  trusted key source none = err (str_append "UNTRUSTED_COMMAND:" key)
  trusted key source (some argv) = do
    require (is_trusted argv) (str_append "UNTRUSTED_COMMAND:" key)
    check_source key source (resolve (second argv)) argv

  unfoldable pub command : Fields → String → String → Result (List Text)
  unfolding trusted check_source
  command report key source = trusted key source (texts (get key report))

  unfoldable pub load_fields : Fields → Result Plan
  load_fields raw = do
    require
        (is_text (get "schema" raw) "sci_oran_prompt12_resume_single_transition_materialization_v1")
        "MATERIALIZATION_SCHEMA_INVALID"
    require (is_frozen raw) "T2_FROZEN_INVARIANT_FAILED"
    pre ← command raw "initial_precontrol_command" "prompt12-bounded-precontrol-handoff.py"
    ratio ← command raw "ratio_bind_command" "prompt12-pretrigger-ratio-binding-writer.py"
    trigger ← command raw "trigger_command" "prompt12-precontrol-trigger-executor.py"
    require
        (occurrences (codes "--stationarity-command") pre == 1
          && occurrences (codes "--freshness-command") pre == 1)
        "PRECONTROL_HANDOFF_CONTRACT_INVALID"
    broken ← breaks_contract ratio trigger
    require (not broken) "T2_COMMAND_CONTRACT_INVALID"
    bound_plan pre ratio trigger

  -- load_plan, of what the file holds
  unfoldable pub load_plan : Json → Result Plan
  load_plan (object raw) = load_fields raw
  load_plan _ = err "MATERIALIZATION_SCHEMA_INVALID"
