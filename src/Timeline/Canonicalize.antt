-- ===== src/Timeline/Canonicalize.antt =====
-- main of scripts/experiment-harness/canonicalize-iperf-receiver.py and of its copy
-- canonicalize-iperf-receiver-t2.py, which differ in the pattern of the experiment's identity.
use tcd_oran_testbed_integra.Base.{
  ℕ, Bool, false, not, ◌||◌, Option, none, some, List, [], ◌∷◌, ◌++◌, replicate, String, Result, ok,
  err, ◌>>=◌, ◌>>◌, require,
}
use tcd_oran_testbed_integra.Base.Text.{Text, codes, digit, literal, full_match}
use tcd_oran_testbed_integra.Base.Integers.{ℤ}
use tcd_oran_testbed_integra.Stationarity.Decimals.{Decimals}
use tcd_oran_testbed_integra.Timeline.Event.{Event, Schema}
use tcd_oran_testbed_integra.Timeline.Load.{load_actuator_timeline}
use tcd_oran_testbed_integra.Timeline.Receiver.{Row, Canonical, canonical_rows}

-- `[first-last]`, of codes
abbrev one_of : List ℕ → ℕ → Bool
one_of [] c = false
one_of (d ∷ ds) c = full_match (literal (d ∷ [])) (c ∷ []) || one_of ds c

abbrev dated : Text → List (ℕ → Bool)
dated rest = literal (codes "EXP-") ++ replicate 8 digit ++ literal rest

-- EXPERIMENT_RE of canonicalize-iperf-receiver.py
unfoldable pub experiment_re : Text → Bool
experiment_re id =
    full_match (dated (codes "-DL-18000K-R0") ++ one_of (codes "123456789") ∷ []) id
    || full_match (dated (codes "-DL-18000K-R") ++ one_of (codes "123456789") ∷ digit ∷ []) id

-- EXPERIMENT_RE of canonicalize-iperf-receiver-t2.py
unfoldable pub t2_experiment_re : Text → Bool
t2_experiment_re id =
    full_match (dated (codes "-T2-26TO39-DL-18000K-R0") ++ one_of (codes "1234") ∷ []) id

unfoldable pub run_re : Text → Bool
run_re id =
    full_match
      (literal (codes "RUN-")
        ++ replicate 8 digit
        ++ literal (codes "T")
        ++ replicate 6 digit
        ++ literal (codes "Z-")
        ++ replicate 3 digit)
      id

unfoldable pub validate_identity : (Text → Bool) → String → String → Result (Unit {0})
unfolding run_re
validate_identity experiment_pattern experiment_id run_id = do
  require (experiment_pattern (codes experiment_id)) "invalid Prompt-12 experiment_id"
  require (run_re (codes run_id)) "invalid Prompt-12 run_id"

-- `--classification-scope`, whose choices are fixed
pub data Scope : Type 0 where
  no_actuator_transitions actuator_transitions : Scope

unfoldable pub check_scope : Scope → Option (List Event) → Result (Unit {0})
check_scope no_actuator_transitions none = ok tt
check_scope no_actuator_transitions (some timeline) =
    err "actuator timeline is forbidden for no-actuator-transitions scope"
check_scope actuator_transitions none =
    err "actuator timeline is required for actuator-transitions scope"
check_scope actuator_transitions (some timeline) = ok tt

unfoldable pub check_output : Bool → Result (Unit {0})
check_output output_exists = require (not output_exists) "output already exists"

abbrev pub applied_of : Result (List Event × List ℤ) → Result (List ℤ)
applied_of (err reason) = err reason
applied_of (ok loaded) = ok loaded.1

-- `applied_timestamps`
unfoldable pub applied_timestamps :
    Schema → String → String → Scope → Option (List Event) → Result (List ℤ)
unfolding load_actuator_timeline
applied_timestamps schema experiment_id run_id no_actuator_transitions timeline = ok []
applied_timestamps schema experiment_id run_id actuator_transitions none = ok []
applied_timestamps schema experiment_id run_id actuator_transitions (some timeline) =
    applied_of (load_actuator_timeline schema experiment_id run_id timeline)

module _ (D : Decimals) where
  pub record Args : Type 0 where
    pub experiment_id : String
    pub run_id : String
    pub classification_scope : Scope
    pub actuator_timeline : Option (List Event)
    pub input : List (Row D)
    pub output_exists : Bool

  -- The records that main writes. The counts that it prints are not modelled.
  unfoldable pub main :
      (Text → Bool) → Schema → (Canonical D → Bool) → Args → Result (List (Canonical D))
  main experiment_pattern schema accepts args = do
    validate_identity experiment_pattern args.experiment_id args.run_id
    check_output args.output_exists
    check_scope args.classification_scope args.actuator_timeline
    times ←
        applied_timestamps schema args.experiment_id args.run_id args.classification_scope
          args.actuator_timeline
    canonical_rows D accepts args.experiment_id args.run_id times none args.input
