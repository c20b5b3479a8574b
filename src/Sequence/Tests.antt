-- ===== src/Sequence/Tests.antt =====
-- The dry run at concrete arguments.
use tcd_oran_testbed_integra.Base.{
  ℕ, ◌≡◌, ◌↔◌, false, some, List, [], ◌∷◌, map, length, ok, err, Returns, refl, arith,
}
use tcd_oran_testbed_integra.Base.Text.{Text, codes, split, strip, upper}
use tcd_oran_testbed_integra.Base.Text.Laws.{join}
use tcd_oran_testbed_integra.Sequence.Plan.{Gate, pass, fail, expected_transitions, r02}
use tcd_oran_testbed_integra.Sequence.Parse.{parse_post_gates, validate_identity}
use tcd_oran_testbed_integra.Sequence.Evaluate.{Args, Report, evaluate_sequence, main}
use tcd_oran_testbed_integra.Sequence.Outcome.{IsOutcome, evaluate_sequence-IsOutcome}
use tcd_oran_testbed_integra.Sequence.ParseLaws.{
  gate_text, normal, parse_post_gates_iff, parse_post_gates-join,
}
use tcd_oran_testbed_integra.Sequence.Identity.{NamesExperiment, NamesRun, validate_identity_iff}
use tcd_oran_testbed_integra.Sequence.Run.{IsDryRun, main-IsDryRun, main_returns}

abbrev date : Text
date = codes "20260822"

abbrev args : Args
args = record {
  schema = some expected_transitions;
  experiment_id = codes "EXP-20260822-DL-18000K-R02";
  run_id = codes "RUN-20260822T101112Z-001";
  repeat_id = r02;
  initial_stationarity_gate = pass;
  post_stationarity_gates = codes "pass, PASS,FAIL ,PASS,PASS,PASS";
  output_exists = false;
}

abbrev gates : List Gate
gates = pass ∷ pass ∷ fail ∷ pass ∷ pass ∷ pass ∷ []

read : parse_post_gates args.post_stationarity_gates ≡ ok gates
unfolding parse_post_gates split strip upper
read = refl

too_few :
    parse_post_gates (codes "PASS,FAIL")
    ≡ err "post-stationarity-gates must contain exactly six values"
unfolding parse_post_gates split strip upper
too_few = refl

misspelt :
    parse_post_gates (codes "PASS,PAS,PASS,PASS,PASS,PASS")
    ≡ err "invalid post-stationarity gate at index 2"
unfolding parse_post_gates split strip upper
misspelt = refl

evaluate_sequence-IsOutcome_example :
    Returns (evaluate_sequence expected_transitions pass gates) (IsOutcome (pass ∷ gates))
evaluate_sequence-IsOutcome_example = evaluate_sequence-IsOutcome pass pass pass fail pass pass pass

parse_post_gates_iff_example : (parse_post_gates (codes "PASS,FAIL") ≡ ok (pass ∷ fail ∷ [])) ↔ (
    (map normal (split b',' (codes "PASS,FAIL")) ≡ map gate_text (pass ∷ fail ∷ []))
    × (length (pass ∷ fail ∷ []) ≡ 6))
parse_post_gates_iff_example = parse_post_gates_iff (codes "PASS,FAIL") (pass ∷ fail ∷ [])

abbrev items : List Text
items = codes " PASS" ∷ codes "fail " ∷ codes "PASS" ∷ codes "pass" ∷ codes "PASS" ∷ []

normal-items :
    map normal (codes "pass" ∷ items) ≡ map gate_text (pass ∷ pass ∷ fail ∷ pass ∷ pass ∷ pass ∷ [])
unfolding strip upper
normal-items = refl

parse_post_gates-join_example :
    parse_post_gates (join b',' (codes "pass" ∷ items))
    ≡ ok (pass ∷ pass ∷ fail ∷ pass ∷ pass ∷ pass ∷ [])
parse_post_gates-join_example =
    parse_post_gates-join (codes "pass") items (pass ∷ pass ∷ fail ∷ pass ∷ pass ∷ pass ∷ [])
      (omega arith) normal-items (omega arith)

validate_identity_iff_example :
    (validate_identity args.experiment_id args.run_id r02 ≡ ok tt)
    ↔ (NamesExperiment r02 args.experiment_id × NamesRun args.run_id)
validate_identity_iff_example = validate_identity_iff args.experiment_id args.run_id r02

named_experiment : NamesExperiment r02 args.experiment_id
named_experiment = (date, (refl, ground arith), refl)

named_run : NamesRun args.run_id
named_run = (
  date,
  codes "101112",
  codes "001",
  (refl, ground arith),
  (refl, ground arith),
  (refl, ground arith),
  refl,
)

main_returns_example :
    (report : Report) × (rc : ℕ) × (main args ≡ ok (report, rc)) × IsDryRun args report rc
main_returns_example = main_returns args gates named_experiment named_run refl read refl

written : main args ≡ ok (main_returns_example.0, main_returns_example.1)
written = main_returns_example.2

main-IsDryRun_example : IsDryRun args main_returns_example.0 main_returns_example.1
main-IsDryRun_example = main-IsDryRun args main_returns_example.0 main_returns_example.1 written
