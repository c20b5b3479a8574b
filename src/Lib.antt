-- ===== src/Lib.antt =====
-- The Prompt 12 experiment harness of the Sci_O-RAN testbed: the parts that decide whether a
-- scientific control may be made, and that record what was done.
--
-- Parts, and the files that model them:
--
-- Transaction (Transaction.antt and its children) is
-- scripts/experiment-harness/prompt12r-validate-transaction-transition.py, the offline validator
-- of transaction records. Record has the fields that the script reads, State the states and the
-- table LEGAL_TRANSITIONS, Invariants the function validate_record_state_invariants, a definition
-- for each of its longer blocks, and Validator the checks of a transition in the order in which
-- main makes them; `validate none` is main without --previous, `validate (some p)` with it. A
-- failed `require` is `err` with its reason. Graph, WellFormed, Continuity and Step state what the
-- validator accepts with no mention of its tests; History, Trigger and Outcome are about sequences
-- of accepted records. Records stand for JSON that has passed the transaction schema
-- (datasets/schemas): the schema validator and the reading of files are not modelled, nor are the
-- fields that the script does not read (schema_version and evidence).
--
-- Sequence (Sequence.antt) is scripts/experiment-harness/prompt12-six-transition-orchestrator.py,
-- the dry run over six transitions. Plan has the frozen transitions, Parse the patterns of the
-- identities and the list of gates, Evaluate the loop evaluate_sequence, the report and main. An
-- exception is `err` with its text. Texts that the script walks are lists of code points, with the
-- white space and the upper case of ASCII. What main prints is not modelled.
--
-- Supervisor (Supervisor.antt) is
-- scripts/experiment-harness/prompt12-bounded-orchestration-supervisor.py, which runs the traffic,
-- the triggers and the stationarity gates under time limits. Host has the operating system as a
-- record of operations over a hidden state (the clock, subprocess.run, the traffic process) and
-- json.loads of the evaluator's output. Recorded makes of every such host one that also keeps a
-- journal of the calls of subprocess.run, on which the theorem on the whole run is stated. Phase has
-- the bounded waits and commands and the loop of stationarity_gate, Live the function run_live and
-- the handler of main. The loop of a gate has fuel for three rounds, which Gate shows to be enough.
-- Times are nanoseconds where the script has floating-point seconds, and the clock does not go
-- back. load_plan, the mode no-control and the writing of the report file are not modelled.
--
-- Stationarity (Stationarity.antt) is scripts/experiment-harness/evaluate-output-stationarity.py,
-- the evaluator that the supervisor runs. Interval has the rows and the tests on them, Load the
-- checks of load_intervals and load_post_t0 on rows that have passed the schema, Latest the loop of
-- latest_eligible_run, Window the geometry and the metrics of a window (in terms of its rows in
-- Measured), and Evaluate the report and
-- main. Python's decimals are a record of operations with no laws (Decimals), so that nothing is
-- said of rounding. Times in nanoseconds are natural numbers; the index of a control is one as
-- well, where the script refuses every number below 1. What main prints is not modelled.
--
-- Critical (Critical.antt) is scripts/experiment-harness/prompt12-t2-critical-section.py, which takes
-- the resumed T2 from the precontrol to the trigger. Program has a run as the tree of the calls it
-- makes of the operating system, with bind, except and finally; Plan has load_plan, Section run_live
-- and main, and System any number of invocations over one file system: a schedule says who makes the
-- next call and what the environment answers, so that an invocation that is not scheduled again has
-- crashed. A file is made by os.open with O_EXCL or not at all, no file is removed, and a child may
-- leave the executor's report. Guard and Phases say what an invocation may do before and after it
-- has made a guard file. json.loads and the resolution of links are parameters. An OSError of a test
-- whether a path exists is not modelled; it ends the script before its next step.
--
-- Executor (Executor.antt) is scripts/experiment-harness/prompt12-precontrol-trigger-executor.py, the
-- last gate before the trigger. Report has its inputs, the answers of the operating system as a
-- record (each call is made once at most) and the report; Checks has what is checked before the clock
-- is read, Main the gates of the clock and the write to the FIFO. The entries of the report that
-- repeat inputs are not modelled, nor is a failure to make or fill the report file: a report is
-- written when its file is not there. Python's Decimal(str(x)) and int(x) are parameters.
--
-- Freshness (Freshness.antt) is scripts/experiment-harness/prompt12-precontrol-freshness.py, the gate
-- whose result the executor reads. Policy has load_policy, Rows load_rows and validate_window, Main
-- the selection, the call of the evaluator (Stationarity) and the result as JSON; Samples, Limit,
-- Admission, Gates and Handover are about it. Rows have the fields of the schema, times are natural numbers, and
-- int and Decimal of a text are parameters.
--
-- Timeline (Timeline.antt) is scripts/experiment-harness/build-actuator-timeline.py, which makes the
-- timeline of the controls from the logs, and canonicalize-iperf-receiver.py with its copy
-- canonicalize-iperf-receiver-t2.py, which classifies the receiver's intervals by it. Event has the
-- events and the schema file as a parameter, Clock the times and the pattern of the log lines, Build
-- the builder, Load load_actuator_timeline, Receiver the classes and the records, Canonicalize main;
-- Built, Sorted and Handover are theorems on the events, Inside, Uncrossed and Crossings on the classes. A
-- time is an integer, which is negative before 1970. The index in a record_id has three digits at
-- most, since there are at most six controls. The JSON of the files and what is printed, except the
-- steps of the plant, are not modelled.
--
-- Base has the library names that all files share, tests on numbers and texts, lists over the
-- native numbers, results with a reason, and the text operations of Python that the scripts use.
--
-- Not modelled: the provider and its FIFO, the precontrol handoff and the parsing of iperf's lines,
-- all under scripts/experiment-harness; the remaining scripts are input and output.
pub mod Base
pub mod Critical
pub mod Executor
pub mod Freshness
pub mod Timeline
pub mod Transaction
pub mod Sequence
pub mod Stationarity
pub mod Supervisor
