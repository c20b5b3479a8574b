-- ===== src/Executor/Checks.antt =====
-- The checks before the clock is read
-- (scripts/experiment-harness/prompt12-precontrol-trigger-executor.py). Decimals are the interface
-- of the evaluator; `decimal_of` and `int_of` are Python's `Decimal(str(x))` and `int(x)`.
use tcd_oran_testbed_integra.Base.{
  ℕ, zero, suc, Bool, true, false, not, ◌&&◌, ◌||◌, ◌==◌, Option, none, some, [], ◌∷◌, String,
}
use tcd_oran_testbed_integra.Base.Text.{Text, codes, text_eq}
use tcd_oran_testbed_integra.Base.Integers.{ℤ, pos, negsuc}
use tcd_oran_testbed_integra.Base.Json.{Json, Fields, object, text, get, is_text, is_number}
use tcd_oran_testbed_integra.Stationarity.Decimals.{Decimals}
use tcd_oran_testbed_integra.Executor.Report.{
  Mode, no_control, fifo, Source, missing, invalid, json, Args, PathKind, unavailable, other_kind,
  fifo_kind, Host,
}

-- A check that goes on, one that fails closed with a reason and an exit code, and an exception.
pub data Checked (A : Type 0) : Type 0 where
  passed : A → Checked A
  refused : String → ℕ → Checked A
  crashed : Checked A

infixl 5 ◌>>=◌ ◌>>◌
unfoldable pub ◌>>=◌ : {A B : Type 0} → Checked A → (A → Checked B) → Checked B
passed a >>= k = k a
refused reason rc >>= k = refused reason rc
crashed >>= k = crashed

unfoldable pub ◌>>◌ : {B : Type 0} → Checked (Unit {0}) → Checked B → Checked B
passed _ >> k = k
refused reason rc >> k = refused reason rc
crashed >> k = crashed

-- `if condition: return fail_closed(args, result, reason, rc)`
unfoldable pub refuse_if : Bool → String → ℕ → Checked (Unit {0})
refuse_if true reason rc = refused reason rc
refuse_if false reason rc = passed tt

unfoldable pub or_refuse : {A : Type 0} → Option A → String → ℕ → Checked A
or_refuse none reason rc = refused reason rc
or_refuse (some a) reason rc = passed a

unfoldable pub load_source : Source → Checked Fields
load_source missing = refused "PRECONTROL_JSON_MISSING" 20
load_source invalid = refused "PRECONTROL_JSON_INVALID" 21
load_source (json (object fields)) = passed fields
load_source (json _) = crashed

unfoldable pub required_source_pass : Fields → Bool
required_source_pass source =
    is_text (get "selection" source) "latest_50_complete_contiguous_samples"
    && is_number (get "selected_complete_count" source) 50
    && is_text (get "stationarity_window_binding_gate" source) "PASS"
    && is_text (get "output_stationarity_gate" source) "PASS"
    && is_text (get "freshness_gate" source) "PASS"
    && is_text (get "precontrol_admission_gate" source) "PASS"

abbrev pub has_newline : Text → Bool
has_newline [] = false
has_newline (c ∷ t) = c == 10 || has_newline t

-- `text == literal`, and the truth of an optional text
abbrev pub option_is : Option Text → String → Bool
option_is none literal = false
option_is (some t) literal = text_eq t (codes literal)

abbrev pub is_given : Option Text → Bool
is_given none = false
is_given (some t) = true

abbrev pub is_set : Option Text → Bool
is_set none = false
is_set (some []) = false
is_set (some (c ∷ t)) = true

abbrev pub check_fifo : PathKind → Checked (Unit {0})
check_fifo unavailable = refused "FIFO_PATH_UNAVAILABLE" 29
check_fifo other_kind = refused "CONTROL_PATH_IS_NOT_FIFO" 30
check_fifo fifo_kind = passed tt

unfoldable pub check_mode : Mode → Args → Host → Checked (Unit {0})
check_mode no_control args host =
    refuse_if (is_given args.fifo_path || is_given args.control_authorization_token)
      "NO_CONTROL_MODE_REJECTS_CONTROL_ARGUMENTS" 26
check_mode fifo args host = do
  refuse_if (not (option_is args.control_authorization_token "PROMPT12_T2_EXPLICIT_FIFO_CONTROL"))
      "CONTROL_AUTHORIZATION_TOKEN_INVALID" 27
  refuse_if (not (is_set args.fifo_path)) "FIFO_PATH_REQUIRED" 28
  check_fifo host.fifo_stat
  refuse_if (has_newline args.trigger_token) "TRIGGER_TOKEN_CONTAINS_NEWLINE" 31

abbrev is_no_control : Mode → Bool
is_no_control no_control = true
is_no_control fifo = false

abbrev positive : ℤ → Checked (Option ℕ)
positive (pos (suc n)) = passed (some (suc n))
positive (pos zero) = refused "EXECUTOR_START_UTC_NS_ARGUMENT_INVALID" 34
positive (negsuc n) = refused "EXECUTOR_START_UTC_NS_ARGUMENT_INVALID" 34

module _ (D : Decimals) where
  -- What the checks leave for the control.
  pub record Admission : Type 0 where
    pub latest_sample_ns : ℤ
    pub decision_ns : ℤ
    pub max_age_ms : D.Number
    pub injected : Option ℕ

module _ (D : Decimals) (decimal_of : Json → Option D.Number) (int_of : Json → Option ℤ) where
  -- The start that the arguments give, in the mode that allows it.
  unfoldable pub injected_start : Mode → Option Text → Checked (Option ℕ)
  injected_start mode none = passed none
  injected_start mode (some start) = do
    refuse_if (not (is_no_control mode)) "EXECUTOR_START_OVERRIDE_FORBIDDEN_IN_FIFO_MODE" 33
    value ← or_refuse (int_of (text start)) "EXECUTOR_START_UTC_NS_ARGUMENT_INVALID" 34
    positive value

  unfoldable pub admit : Args → Host → Checked (Admission D)
  admit args host = do
    source ← load_source args.precontrol
    refuse_if (not (required_source_pass source)) "SOURCE_PRECONTROL_GATE_NOT_PASS" 22
    latest ←
        or_refuse (int_of (get "latest_sample_timestamp_utc_ns" source))
          "SOURCE_TIMING_FIELDS_INVALID" 23
    decision ← or_refuse (int_of (get "decision_utc_ns" source)) "SOURCE_TIMING_FIELDS_INVALID" 23
    source_max ←
        or_refuse (decimal_of (get "maximum_allowed_age_ms" source)) "SOURCE_TIMING_FIELDS_INVALID"
          23
    requested ← or_refuse (decimal_of (text args.max_age_ms)) "SOURCE_TIMING_FIELDS_INVALID" 23
    refuse_if (not (D.same source_max requested)) "MAX_AGE_POLICY_MISMATCH" 24
    refuse_if (not (D.same requested (D.decimal 800))) "NON_FROZEN_MAX_AGE_NOT_ALLOWED" 25
    start ← injected_start args.mode args.executor_start_utc_ns
    check_mode args.mode args host
    passed (record {
      latest_sample_ns = latest;
      decision_ns = decision;
      max_age_ms = requested;
      injected = start;
    })
