-- ===== src/Executor/Report.antt =====
-- What scripts/experiment-harness/prompt12-precontrol-trigger-executor.py is given, what it is
-- answered, and what it writes down.
use tcd_oran_testbed_integra.Base.{ℕ, Bool, Option, List, String}
use tcd_oran_testbed_integra.Base.Text.{Text}
use tcd_oran_testbed_integra.Base.Json.{Json}

pub data Mode : Type 0 where
  no_control fifo : Mode

-- What the path of the precontrol record leads to.
pub data Source : Type 0 where
  missing invalid : Source
  json : Json → Source

pub record Args : Type 0 where
  pub precontrol : Source
  pub mode : Mode
  pub max_age_ms : Text
  pub executor_start_utc_ns : Option Text
  pub fifo_path : Option Text
  pub trigger_token : Text
  pub control_authorization_token : Option Text

pub data PathKind : Type 0 where
  unavailable other_kind fifo_kind : PathKind

-- How `os.write` ended.
pub data Write : Type 0 where
  complete partial : Write
  raised : String → Write

-- The answers of the operating system.
pub record Host : Type 0 where
  pub output_exists : Bool
  pub fifo_stat : PathKind
  pub start_ns : ℕ
  pub open_error : Option String
  pub write : Write
  pub close_fails : Bool

pub data GateResult : Type 0 where
  gate_pass fail_closed fail_after_age_gate : GateResult

pub data Answered : Type 0 where
  not_done done unknown : Answered

pub data Replay : Type 0 where
  not_applicable never_automatically never_repeat unstated : Replay

-- The entries of the result that say what was done.
pub record Report : Type 0 where
  pub executor_gate : GateResult
  pub fail_closed_reason : Option String
  pub control_executed : Answered
  pub trigger_write_attempt_count : ℕ
  pub trigger_write_success_count : ℕ
  pub scientific_trigger_consumed : Answered
  pub replay_decision : Replay
  pub start_after_decision_gate : Option Bool
  pub sample_age_gate : Option Bool
  pub no_control_dry_run : Bool

-- How the executor ended: the report that it wrote, its exit code if no exception was left, and
-- what it tried to write to the FIFO.
pub record Ended : Type 0 where
  pub report : Option Report
  pub rc : Option ℕ
  pub writes : List Text
