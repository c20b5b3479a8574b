-- ===== src/Timeline/Event.antt =====
-- The events of the actuator's timeline (scripts/experiment-harness/build-actuator-timeline.py).
use tcd_oran_testbed_integra.Base.{ℕ, ◌==◌, if◌then◌else◌, Bool, Option, none, some, String}
use tcd_oran_testbed_integra.Base.Text.{Text}
use tcd_oran_testbed_integra.Base.Integers.{ℤ}

-- A dictionary of an event: a key that it does not have is `none`.
pub record Event : Type 0 where
  pub experiment_id : String
  pub run_id : String
  pub record_id : Text
  pub timestamp_utc_ns : ℤ
  pub event_type : String
  pub requested_max_prb_ratio_pct : Option ℕ
  pub applied_min_prbs : Option ℕ
  pub applied_max_prbs : Option ℕ
  pub acknowledgement_status : Option String

-- The schema file, as jsonschema and re read it: the events that it accepts, and the texts that
-- its patterns of the two identities match.
pub record Schema : Type 0 where
  pub accepts : Event → Bool
  pub experiment_fits : String → Bool
  pub run_fits : String → Bool

-- `PROMPT12_RATIO_TO_PRBS.get(ratio)`
unfoldable pub ratio_prbs : ℕ → Option ℕ
ratio_prbs ratio =
    if ratio == 25
    then some 13
    else if ratio == 50
    then some 26
    else if ratio == 75
    then some 39
    else if ratio == 100
    then some 52
    else none
