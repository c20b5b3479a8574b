-- ===== src/Stationarity/Applied.antt =====
-- The origin of time that load_post_t0 takes from the actuator's timeline
-- (scripts/experiment-harness/evaluate-output-stationarity.py).
use tcd_oran_testbed_integra.Base.{
  ℕ, ◌+◌, ◌-◌, ◌*◌, ◌%◌, ◌<◌, ltb, ◌≡◌, true, Option, none, some, List, [], ◌∷◌, length, get_elem?,
  ok, require, ◌>>◌, String, >>-eq-ok, >>=-eq-ok, ok-eq, require-eq-ok, &&-eq-true, ==_iff, ltb→lt,
}
use tcd_oran_testbed_integra.Stationarity.Load.{
  ActuatorEvent, is_after, check_timeline, validate_identity, item, item_at, is_triplet, is_pass,
  load_post_t0,
}

-- The times of the rows increase, and the first is after a given one.
pub Increasing : Option ℕ → List ActuatorEvent → Type 0
Increasing previous [] = Unit
Increasing none (row ∷ rows) = Increasing (some row.timestamp_utc_ns) rows
Increasing (some t) (row ∷ rows) =
    (t < row.timestamp_utc_ns) × Increasing (some row.timestamp_utc_ns) rows

check_timeline-Increasing :
    (experiment_id run_id : String) (previous : Option ℕ) (rows : List ActuatorEvent)
    → check_timeline experiment_id run_id previous rows ≡ ok tt
    → Increasing previous rows
unfolding check_timeline is_after Increasing
check_timeline-Increasing e r previous [] h = tt
check_timeline-Increasing e r none (row ∷ rows) h =
    let id = validate_identity row.experiment_id row.run_id e r in
    let (_, h1) = >>-eq-ok id (ok tt >> check_timeline e r (some row.timestamp_utc_ns) rows) h in
    check_timeline-Increasing e r (some row.timestamp_utc_ns) rows h1
check_timeline-Increasing e r (some t) (row ∷ rows) h =
    let id = validate_identity row.experiment_id row.run_id e r in
    let check =
      require (ltb t row.timestamp_utc_ns) "actuator timeline timestamp ordering violation" in
    let rest = check_timeline e r (some row.timestamp_utc_ns) rows in
    let (lt, h2) = >>-eq-ok check rest (>>-eq-ok id (check >> rest) h).1 in
    (
      ltb→lt t row.timestamp_utc_ns (require-eq-ok _ _ lt),
      check_timeline-Increasing e r (some row.timestamp_utc_ns) rows h2,
    )

item_at-eq-ok : (o : Option ActuatorEvent) {row : ActuatorEvent} → item_at o ≡ ok row → o ≡ some row
unfolding item_at
item_at-eq-ok none h = cc
item_at-eq-ok (some row) h = cc

item-eq-ok :
    (rows : List ActuatorEvent) (index : ℕ) {row : ActuatorEvent}
    → item rows index ≡ ok row
    → get_elem? rows index ≡ some row
unfolding item
item-eq-ok rows index h = item_at-eq-ok (get_elem? rows index) h

-- The selected control of the timeline has been applied at the time `t0_ns`.
pub record IsApplied (rows : List ActuatorEvent) (control_index t0_ns : ℕ) : Type 0 where
  pub command : ActuatorEvent
  pub applied : ActuatorEvent
  pub acknowledgement : ActuatorEvent
  pub triplets : length rows % 3 ≡ 0
  pub first_is : get_elem? rows ((control_index - 1) * 3) ≡ some command
  pub second_is : get_elem? rows ((control_index - 1) * 3 + 1) ≡ some applied
  pub third_is : get_elem? rows ((control_index - 1) * 3 + 2) ≡ some acknowledgement
  pub kinds : is_triplet command applied acknowledgement ≡ true
  pub passed : is_pass acknowledgement.acknowledgement_status ≡ true
  pub increasing : Increasing none rows
  pub after_command : command.timestamp_utc_ns < applied.timestamp_utc_ns
  pub before_acknowledgement : applied.timestamp_utc_ns < acknowledgement.timestamp_utc_ns
  pub origin : applied.timestamp_utc_ns ≡ t0_ns

-- When load_post_t0 returns a time, the times of the timeline increase and its length is a multiple
-- of 3, the rows of the selected control are a command, a readback and an acknowledgement with
-- status PASS, and the time is the one of the readback, which lies between the other two.
pub load_post_t0-IsApplied :
    (rows : List ActuatorEvent) (experiment_id run_id : String) (control_index : ℕ) {t0_ns : ℕ}
    → load_post_t0 rows experiment_id run_id control_index ≡ ok t0_ns
    → IsApplied rows control_index t0_ns
unfolding load_post_t0
load_post_t0-IsApplied rows e r k h =
    let (_, h1) = >>-eq-ok _ _ h in
    let (triplets, h2) = >>-eq-ok _ _ h1 in
    let (_, h3) = >>-eq-ok _ _ h2 in
    let (timeline, h4) = >>-eq-ok _ _ h3 in
    let (command, i1, h5) = >>=-eq-ok _ _ h4 in
    let (applied, i2, h6) = >>=-eq-ok _ _ h5 in
    let (acknowledgement, i3, h7) = >>=-eq-ok _ _ h6 in
    let (kinds, h8) = >>-eq-ok _ _ h7 in
    let (passed, h9) = >>-eq-ok _ _ h8 in
    let (order, h10) = >>-eq-ok _ _ h9 in
    let (o1, o2) = &&-eq-true _ _ (require-eq-ok _ _ order) in
    record {
      command = command;
      applied = applied;
      acknowledgement = acknowledgement;
      triplets = (==_iff _ _).0 (require-eq-ok _ _ triplets);
      first_is = item-eq-ok rows _ i1;
      second_is = item-eq-ok rows _ i2;
      third_is = item-eq-ok rows _ i3;
      kinds = require-eq-ok _ _ kinds;
      passed = require-eq-ok _ _ passed;
      increasing = check_timeline-Increasing e r none rows timeline;
      after_command = ltb→lt _ _ o1;
      before_acknowledgement = ltb→lt _ _ o2;
      origin = ok-eq h10;
    }
