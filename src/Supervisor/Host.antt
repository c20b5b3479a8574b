-- ===== src/Supervisor/Host.antt =====
-- The host of the supervisor
-- (scripts/experiment-harness/prompt12-bounded-orchestration-supervisor.py): the operating system
-- as a record of operations that the model takes as a parameter, the report, and the monad of a
-- run, which carries the host's state and the report through exceptions. Times are nanoseconds.
use tcd_oran_testbed_integra.Base.{ℕ, Bool, false, Option, none, List, [], String, if◌then◌else◌}
use tcd_oran_testbed_integra.Base.Text.{Text}

-- A return code: 0, or the numeral of another one.
pub data ReturnCode : Type 0 where
  success : ReturnCode
  failure : String → ReturnCode

-- How `subprocess.run` ended: its time ran out, the program could not be started, or it returned.
pub data Outcome : Type 0 where
  timed_out unavailable : Outcome
  returned : ReturnCode → Text → Outcome

-- What `json.loads` makes of a text: nothing, a value that is no object, or an object with or
-- without an entry `output_stationarity_gate`.
pub data Reading : Type 0 where
  not_json not_object no_gate : Reading
  gate_value : String → Reading

-- What the supervisor asks of the host. The answers depend on a state of the host that the
-- supervisor does not see.
pub record Host : Type 1 where
  pub World : Type 0
  pub monotonic : World → ℕ × World  -- `time.monotonic`
  pub sleep : ℕ → World → World  -- `time.sleep`
  pub run : List String → ℕ → World → Outcome × World  -- `subprocess.run` with a timeout
  pub start : List String → World → Bool × World  -- `subprocess.Popen`, false if it raises
  pub poll : World → Bool × World  -- whether the traffic has ended
  pub terminate : World → World  -- the signals to the traffic, and the wait for its end
  pub loads : Text → Reading

-- The entries of the report that a run changes. The replay decision is either the initial
-- NOT_APPLICABLE_NO_WRITE_ATTEMPT or NEVER_AUTOMATICALLY_REPLAY.
pub record Report : Type 0 where
  pub pre_step_extension_count : Option ℕ
  pub post_step_extension_counts : Option (List ℕ)
  pub ratio_bind_stdout : List (String × Text)
  pub trigger_stdout : List (String × Text)
  pub control_executed : Bool
  pub trigger_write_attempt_count : ℕ
  pub trigger_write_success_count : ℕ
  pub never_automatically_replay : Bool
  pub no_control_dry_run_gate : Bool
  pub supervisor_gate : Bool
  pub fail_closed_reason : String

-- `base_report`, less the entries that are the same in every report.
unfoldable pub base_report : Report
base_report = record {
  pre_step_extension_count = none;
  post_step_extension_counts = none;
  ratio_bind_stdout = [];
  trigger_stdout = [];
  control_executed = false;
  trigger_write_attempt_count = 0;
  trigger_write_success_count = 0;
  never_automatically_replay = false;
  no_control_dry_run_gate = false;
  supervisor_gate = false;
  fail_closed_reason = "NOT_STARTED";
}

-- The return code of the supervisor's own process: a number, or the code of a child.
pub data ExitCode : Type 0 where
  code : ℕ → ExitCode
  child : String → ExitCode

-- How a computation ends: with a value, by a `SupervisorError`, or by another exception.
pub data Reply (A : Type 0) : Type 0 where
  done : A → Reply A
  raised : String → ExitCode → Reply A
  crashed : String → Reply A

-- What a run changes: the host and the report.
pub record Live (W : Type 0) : Type 0 where
  pub world : W
  pub report : Report

abbrev pub Action : Type 0 → Type 0 → Type 0
Action W A = Live W → Reply A × Live W

module _ {W A : Type 0} where
  unfoldable pub pure : A → Action W A
  pure a s = (done a, s)

  unfoldable pub raise : String → ExitCode → Action W A
  raise reason rc s = (raised reason rc, s)

  unfoldable pub crash : String → Action W A
  crash name s = (crashed name, s)

infixl 5 ◌>>=◌ ◌>>◌
unfoldable pub ◌>>=◌ : {W A B : Type 0} → Action W A → (A → Action W B) → Action W B
◌>>=◌ m f s =
    let (r, s') = m s in
    elim r [
      | done a ↦ f a s'
      | raised reason rc ↦ (raised reason rc, s')
      | crashed e ↦ (crashed e, s')
    ]

abbrev pub ◌>>◌ : {W A B : Type 0} → Action W A → Action W B → Action W B
m >> k = m >>= λ _. k

-- An operation of the host, with its answer.
unfoldable pub ask : {W A : Type 0} → (W → A × W) → Action W A
ask f s = let (a, w) = f s.world in (done a, record s { world = w })

unfoldable pub act : {W : Type 0} → (W → W) → Action W (Unit {0})
act f s = (done tt, record s { world = f s.world })

unfoldable pub update : {W : Type 0} → (Report → Report) → Action W (Unit {0})
update f s = (done tt, record s { report = f s.report })

-- `if condition: raise SupervisorError(reason, rc)`
unfoldable pub raise_if : {W : Type 0} → Bool → String → ℕ → Action W (Unit {0})
raise_if c reason rc s = (if c then raised reason (code rc) else done tt, s)
