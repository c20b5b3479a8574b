-- ===== src/Sequence/Parse.antt =====
-- Reading the arguments (scripts/experiment-harness/prompt12-six-transition-orchestrator.py).
use Prim.Native.String.{◌++◌ as str_append}
use tcd_oran_testbed_integra.Base.{
  ℕ, ◌+◌, get_or, ◌==◌, Bool, ◌&&◌, leb, List, [], ◌∷◌, ◌++◌, map, length, drop, replicate, Result,
  ok, err, require, ◌>>=◌, ◌>>◌, String, if◌then◌else◌, Option, none, some,
}
use tcd_oran_testbed_integra.Base.Text.{
  Text, codes, text_eq, upper, strip, split, full_match, digit, literal,
}
use tcd_oran_testbed_integra.Sequence.Plan.{Gate, pass, fail, Repeat, r01, r02, r03, r04}

abbrev pub repeat_id : Repeat → Text
repeat_id r01 = codes "R01"
repeat_id r02 = codes "R02"
repeat_id r03 = codes "R03"
repeat_id r04 = codes "R04"

-- `(R0[1-4])`
abbrev pub repeat_re : List (ℕ → Bool)
repeat_re = literal (codes "R0") ++ (λ c. leb 49 c && leb c 52) ∷ []

abbrev pub experiment_re : List (ℕ → Bool)
experiment_re =
    literal (codes "EXP-") ++ (replicate 8 digit ++ (literal (codes "-DL-18000K-") ++ repeat_re))

abbrev pub run_re : List (ℕ → Bool)
run_re =
    literal (codes "RUN-")
    ++ (replicate 8 digit
        ++ (literal (codes "T")
            ++ (replicate 6 digit ++ (literal (codes "Z-") ++ replicate 3 digit))))

-- `match.group(1)` of the experiment's pattern: what stands behind its fixed-length part.
abbrev pub experiment_repeat : Text → Text
experiment_repeat = drop 23

unfoldable pub validate_identity : Text → Text → Repeat → Result (Unit {0})
validate_identity experiment_id run_id repeat = do
  require (full_match experiment_re experiment_id) "invalid Prompt-12 experiment_id"
  require (text_eq (experiment_repeat experiment_id) (repeat_id repeat))
      "experiment_id repeat does not match repeat-id"
  require (full_match run_re run_id) "invalid Prompt-12 run_id"

-- `value in VALID_GATE_VALUES`, with the value read.
abbrev pub gate_of : Text → Option Gate
gate_of value =
    if text_eq value (codes "PASS")
    then some pass
    else if text_eq value (codes "FAIL")
    then some fail
    else none

-- `str(index)` of a value's place, which is at most 6.
abbrev pub index_text : ℕ → String
index_text index = get_or ("0" ∷ "1" ∷ "2" ∷ "3" ∷ "4" ∷ "5" ∷ "6" ∷ []) index ""

-- The loop over the values, from the given index on.
unfoldable pub check_values : ℕ → List Text → Result (List Gate)
check_values index [] = ok []
check_values index (value ∷ values) = elim (gate_of value) [
  | none ↦ err (str_append "invalid post-stationarity gate at index " (index_text index))
  | some gate ↦ check_values (index + 1) values >>= λ gates. ok (gate ∷ gates)
]

unfoldable pub parse_post_gates : Text → Result (List Gate)
unfolding check_values
parse_post_gates text =
    let values = map (λ item. upper (strip item)) (split b',' text) in
    do
      require (length values == 6) "post-stationarity-gates must contain exactly six values"
      check_values 1 values
