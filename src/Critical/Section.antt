-- ===== src/Critical/Section.antt =====
-- run_live and main of scripts/experiment-harness/prompt12-t2-critical-section.py. `loads` is
-- Python's `json.loads`.
use Prim.Native.String.{◌++◌ as str_append}
use tcd_oran_testbed_integra.Base.{
  ℕ, ◌==◌, leb, Bool, true, false, not, ◌&&◌, ◌||◌, Option, none, some, List, [], ◌∷◌, map, length,
  String, Result, ok, err, if◌then◌else◌,
}
use tcd_oran_testbed_integra.Base.Text.{Text, codes, text_eq, splitlines, digit}
use tcd_oran_testbed_integra.Base.Json.{Json, Fields, object, get, is_text, is_number}
use tcd_oran_testbed_integra.Base.Paths.{FilePath, parent, ◌</>◌}
use tcd_oran_testbed_integra.Critical.Program.{
  File, intent, outcome, executor_output, claim, Outcome, Content, consumed, outcome_of, Label,
  precontrol, ratio_bind, trigger, control_is_dir, claims_is_symlink, claims_mkdir, claims_is_dir,
  exists, create, persist, question, utc_now, child, read_report, Creation, created, file_exists,
  os_error, ChildResult, returned, failed, unknown, undecodable, Reading, json, unreadable,
  not_text, Program, ret, fail, call, ◌>>=◌, ◌>>◌, ask, rethrow, finally_do,
}
use tcd_oran_testbed_integra.Critical.Plan.{Plan, load_plan, control_placeholder}

-- A CriticalError, a FileExistsError, another OSError, or an exception that main does not catch.
pub data Failure : Type 0 where
  critical : String → Failure
  file_exists_error os_error_raised uncaught : Failure

abbrev pub raise_if : {E : Type 0} → Bool → E → Program E (Unit {0})
raise_if true e = fail e
raise_if false e = ret tt

abbrev pub after_creation : File → Content → Creation → Program Failure (Unit {0})
after_creation f content created = do
  written ← ask (persist f content)
  raise_if (not written) os_error_raised
after_creation f content file_exists = fail file_exists_error
after_creation f content os_error = fail os_error_raised

unfoldable pub write_exclusive : File → Content → Program Failure (Unit {0})
write_exclusive f content = do creation ← ask (create f); after_creation f content creation

abbrev label_text : Label → String
label_text precontrol = "PRECONTROL"
label_text ratio_bind = "RATIO_BIND"
label_text trigger = "TRIGGER"

abbrev pub child_output : Label → ChildResult → Program Failure Text
child_output label (returned stdout) = ret stdout
child_output label (failed rc) =
    fail (critical (str_append (str_append (label_text label) "_FAILED:RC_") rc))
child_output label (unknown name) =
    fail (critical (str_append (str_append (label_text label) "_EXECUTION_UNKNOWN:") name))
child_output label undecodable = fail uncaught

unfoldable pub run_child : FilePath → Text → List Text → Label → Program Failure Text
run_child root id argv label = do result ← ask (child root id label argv); child_output label result

unfoldable pub start : Text → Outcome
start id = record {
  operation_id = id;
  is_confirmed_state = false;
  trigger_dispatch_attempted = false;
  trigger_execution_confirmed = false;
  readback_window_start_utc = none;
  failure_reason = none;
}

unfoldable pub dispatched : Text → Outcome
dispatched id = record (start id) { trigger_dispatch_attempted = true }

unfoldable pub confirmed : Text → String → Outcome
confirmed id readback_start = record {
  operation_id = id;
  is_confirmed_state = true;
  trigger_dispatch_attempted = true;
  trigger_execution_confirmed = true;
  readback_window_start_utc = some readback_start;
  failure_reason = none;
}

unfoldable pub stationarity_pass : Fields → Bool
stationarity_pass fields =
    is_text (get "output_stationarity_gate" fields) "PASS"
    && is_text (get "minimum_phase_duration_gate" fields) "PASS"
    && is_text (get "statistical_phase_candidate" fields) "PASS"

-- The stationarity that the precontrol handoff printed.
abbrev pub check_stationarity : Option Json → Program Failure Fields
check_stationarity none = fail (critical "STATIONARITY_STDOUT_INVALID")
check_stationarity (some (object fields)) = do
  raise_if (not (stationarity_pass fields)) (critical "T2_PRECONTROL_STATIONARITY_NOT_PASS")
  ret fields
check_stationarity (some _) = fail (critical "T2_PRECONTROL_STATIONARITY_NOT_PASS")

abbrev pub has_line : Text → List Text → Bool
has_line line [] = false
has_line line (t ∷ ts) = text_eq t line || has_line line ts

abbrev pub resolve_trigger : Text → List Text → List Text
resolve_trigger token argv =
    map (λ item. if text_eq item control_placeholder then token else item) argv

unfoldable pub executor_pass : Fields → Bool
executor_pass report =
    is_text (get "EXECUTOR_GATE" report) "PASS"
    && is_text (get "CONTROL_EXECUTED" report) "YES"
    && is_text (get "SCIENTIFIC_TRIGGER_CONSUMED" report) "YES"
    && is_number (get "TRIGGER_WRITE_ATTEMPT_COUNT" report) 1
    && is_number (get "TRIGGER_WRITE_SUCCESS_COUNT" report) 1
    && is_text (get "EXECUTOR_START_SAMPLE_AGE_GATE" report) "PASS"

abbrev pub check_executor : Reading → Program Failure (Unit {0})
check_executor (json (object report)) =
    raise_if (not (executor_pass report)) (critical "TRIGGER_EXECUTOR_CONTRACT_NOT_PASS")
check_executor (json _) = fail (critical "TRIGGER_EXECUTOR_CONTRACT_NOT_PASS")
check_executor unreadable = fail (critical "TRIGGER_OUTCOME_MISSING_OR_INVALID")
check_executor not_text = fail uncaught

-- `except CriticalError as exc: result["failure_reason"] = str(exc)`
abbrev pub with_reason : Outcome → Failure → Outcome
with_reason result (critical reason) = record result { failure_reason = some reason }
with_reason result _ = result

abbrev pub operation_claimed : Failure → Failure
operation_claimed file_exists_error = critical "T2_OPERATION_ID_ALREADY_CONSUMED"
operation_claimed (critical reason) = critical reason
operation_claimed os_error_raised = os_error_raised
operation_claimed uncaught = uncaught

-- What the section returns: the stationarity, with the start of the readback window.
abbrev pub Answered : Type 0
Answered = Fields × String

module _ (loads : Text → Option Json) where
  -- The body of the `try`. An exception comes with `result` as it stands then.
  unfoldable pub attempt : FilePath → Text → Plan → Text → Program (Outcome × Failure) Answered
  attempt root id plan token = do
    stationarity ←
        rethrow (λ e. (start id, e))
          (do
            stdout ← run_child root id plan.precontrol precontrol
            check_stationarity (loads stdout))
    readback_start ←
        rethrow (λ e. (start id, e))
          (do
            stdout ← run_child root id plan.ratio ratio_bind
            raise_if (not (has_line (codes "RATIO_BOUND=PASS") (splitlines stdout)))
                (critical "T2_RATIO_BIND_MARKER_MISSING")
            ask utc_now)
    rethrow (λ e. (dispatched id, e))
        (do
          stdout ← run_child root id (resolve_trigger token plan.trigger) trigger
          report ← ask (read_report (executor_output root))
          check_executor report)
    ret (stationarity, readback_start)

  -- The body with its `except` and `finally`.
  unfoldable pub attempt_recorded : FilePath → Text → Plan → Text → Program Failure Answered
  attempt_recorded root id plan token =
      finally_do (λ a. write_exclusive (outcome root) (outcome_of (confirmed id a.1)))
        (λ e. write_exclusive (outcome root) (outcome_of (with_reason e.0 e.1))) (λ e. e.1)
        (attempt root id plan token)

  unfoldable pub claim_operation : FilePath → Text → Program Failure (Unit {0})
  claim_operation root id = do
    is_symlink ← ask (question claims_is_symlink)
    raise_if is_symlink (critical "GLOBAL_OPERATION_CLAIMS_SYMLINK_FORBIDDEN")
    made ← ask (question claims_mkdir)
    raise_if (not made) os_error_raised
    is_dir ← ask (question claims_is_dir)
    raise_if (not is_dir) (critical "GLOBAL_OPERATION_CLAIMS_DIRECTORY_INVALID")
    rethrow operation_claimed
        (write_exclusive (claim (parent (parent root) </> ".t2-operation-claims") id) (consumed id))

  unfoldable pub run_live : Plan → Text → Text → Program Failure Answered
  run_live plan id token = do
    let root = parent (parent plan.executor_output)
    is_dir ← ask (question control_is_dir)
    raise_if (not is_dir) (critical "CONTROL_EVIDENCE_DIRECTORY_MISSING")
    has_intent ← ask (exists (intent root))
    raise_if has_intent (critical "T2_OPERATION_ALREADY_CONSUMED_NO_REPLAY")
    has_outcome ← ask (exists (outcome root))
    raise_if has_outcome (critical "T2_OPERATION_ALREADY_CONSUMED_NO_REPLAY")
    has_output ← ask (exists (executor_output root))
    raise_if has_output (critical "T2_OPERATION_ALREADY_CONSUMED_NO_REPLAY")
    write_exclusive (intent root) (consumed id)
    claim_operation root id
    attempt_recorded root id plan token

-- The arguments of main, with what they name: the materialization, the environment variable of the
-- interlock, and the id that `uuid4` gives.
pub record Args : Type 0 where
  pub materialization : Reading
  pub is_live : Bool
  pub operation_id : Option Text
  pub live_authorization_token : Option Text
  pub control_authorization_token : Option Text
  pub live_interlock : Option Text
  pub fresh_id : Text

-- `option == literal`
abbrev option_is : Option Text → String → Bool
option_is none literal = false
option_is (some value) literal = text_eq value (codes literal)

-- The truth of an option: a text that is not empty.
abbrev is_set : Option Text → Bool
is_set none = false
is_set (some value) = not (text_eq value [])

abbrev is_alnum : ℕ → Bool
is_alnum c = digit c || (leb 65 c && leb c 90) || (leb 97 c && leb c 122)

-- `[A-Za-z0-9._:-]`
abbrev is_id_char : ℕ → Bool
is_id_char c = is_alnum c || c == 46 || c == 95 || c == 58 || c == 45

abbrev all_id_chars : Text → Bool
all_id_chars [] = true
all_id_chars (c ∷ t) = is_id_char c && all_id_chars t

unfoldable pub is_operation_id : Text → Bool
is_operation_id [] = false
is_operation_id (c ∷ t) = is_alnum c && all_id_chars t && leb 7 (length t) && leb (length t) 127

abbrev id_allowed : Option Text → Bool
id_allowed none = true
id_allowed (some id) = is_operation_id id

unfoldable pub is_authorized : Args → Bool
is_authorized args =
    option_is args.live_authorization_token "AUTHORISE_PROMPT12_RESUMED_T2_26_TO_39_LIVE"
    && option_is args.control_authorization_token "PROMPT12_T2_EXPLICIT_FIFO_CONTROL"
    && option_is args.live_interlock "YES"
    && id_allowed args.operation_id

-- `args.operation_id or ("prompt12-t2-" + ...)`
abbrev id_or : Option Text → Text → Text
id_or none fresh = fresh
id_or (some []) fresh = fresh
id_or (some (c ∷ id)) fresh = c ∷ id

abbrev token_of : Option Text → Text
token_of none = []
token_of (some token) = token

-- The exit code of main; an exception that it does not catch remains.
unfoldable pub exit_code : {A : Type 0} → Program Failure A → Program Failure ℕ
exit_code (ret a) = ret 0
exit_code (fail uncaught) = fail uncaught
exit_code (fail _) = ret 70
exit_code (call op k) = call op (λ a. exit_code (k a))

module _ (resolve : Text → Option FilePath) (script : String → FilePath)
    (loads : Text → Option Json) where
  unfoldable pub inspect_or_run : Args → Result Plan → Program Failure ℕ
  inspect_or_run args (err reason) = ret 70
  inspect_or_run args (ok plan) =
      if not args.is_live
      then ret (
          if is_set args.live_authorization_token || is_set args.control_authorization_token
          then 70
          else 0)
      else if not (is_authorized args)
      then ret 70
      else exit_code (
          run_live loads plan (id_or args.operation_id args.fresh_id)
            (token_of args.control_authorization_token))

  unfoldable pub main_read : Args → Reading → Program Failure ℕ
  main_read args unreadable = ret 70
  main_read args not_text = fail uncaught
  main_read args (json j) = inspect_or_run args (load_plan resolve script j)

  unfoldable pub main : Args → Program Failure ℕ
  main args = main_read args args.materialization
