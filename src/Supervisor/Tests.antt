-- ===== src/Supervisor/Tests.antt =====
-- A host with a clock, at which every command passes, and a live run on it.
use tcd_oran_testbed_integra.Base.{ℕ, ◌+◌, ◌≤◌, ◌≡◌, true, false, some, [], ◌∷◌, String, refl}
use tcd_oran_testbed_integra.Base.Text.{codes, strip, splitlines}
use tcd_oran_testbed_integra.Supervisor.Host.{
  Host, base_report, returned, success, gate_value, done, code, Live, ask, act, pure, update,
  raise_if, ◌>>=◌,
}
use tcd_oran_testbed_integra.Supervisor.Phase.{pre, stationarity_gate, gate_loop}
use tcd_oran_testbed_integra.Supervisor.Live.{Plan, Transition, main_live}
use tcd_oran_testbed_integra.Supervisor.Gate.{gate_loop_bounded, gate_loop_enough}
use tcd_oran_testbed_integra.Supervisor.Final.{IsFinal, main_live-IsFinal}
use tcd_oran_testbed_integra.Supervisor.Recorded.{Journal, recorded, calls_of}

-- The world is the time.
abbrev calm : Host
calm = record {
  World = ℕ;
  monotonic = λ w. (w, w);
  sleep = λ n w. w + n;
  run = λ argv limit w. (returned success (codes "RATIO_BOUND=PASS"), w + 1);
  start = λ argv w. (true, w);
  poll = λ w. (false, w);
  terminate = λ w. w;
  loads = λ text. gate_value "PASS";
}

abbrev step : String → Transition
step label = record {
  label = label;
  ratio_bind_command = some ("bind" ∷ []);
  trigger_command = "trigger" ∷ [];
  post_stationarity_command = "evaluate" ∷ [];
}

abbrev plan : Plan
plan = record {
  traffic_command = "traffic" ∷ [];
  initial_stationarity_command = "evaluate" ∷ [];
  finalization_command = "finalize" ∷ [];
  transitions = step "T1" ∷ step "T2" ∷ [];
}

abbrev begin : Live ℕ
begin = record { world = 0; report = base_report }

-- The run passes.
passing :
    (main_live calm plan (some "YES") (some "AUTHORISE_PROMPT12_BOUNDED_SEQUENCE_LIVE") 0).0
    ≡ some (code 0)
unfolding main_live stationarity_gate gate_loop ask act pure update raise_if ◌>>=◌ strip splitlines
passing = refl

gate_loop_enough_example :
    gate_loop calm 9 ("evaluate" ∷ []) 0 0 pre 0 ≡ stationarity_gate calm ("evaluate" ∷ []) 0 0 pre
gate_loop_enough_example = gate_loop_enough calm 6 ("evaluate" ∷ []) 0 0 pre

abbrev waited : Live ℕ
waited = record begin { world = 11000000001 }

gate_passed : stationarity_gate calm ("evaluate" ∷ []) 0 0 pre begin ≡ (done 0, waited)
unfolding stationarity_gate gate_loop ask act pure update raise_if ◌>>=◌
gate_passed = refl

-- With fuel for nine rounds.
loop_passed : gate_loop calm 9 ("evaluate" ∷ []) 0 0 pre 0 begin ≡ (done 0, waited)
unfolding gate_loop ask act pure update raise_if ◌>>=◌
loop_passed = refl

gate_loop_bounded_example : (0 ≤ 2) × (base_report ≡ base_report)
gate_loop_bounded_example =
    gate_loop_bounded calm 9 ("evaluate" ∷ []) 0 0 pre begin waited 0 loop_passed

abbrev unwritten : Journal ℕ
unwritten = record { world = 0; calls = [] }

main_live-IsFinal_example :
    let (rc, r) =
      main_live
        (recorded calm)
        plan
        (some "YES")
        (some "AUTHORISE_PROMPT12_BOUNDED_SEQUENCE_LIVE")
        unwritten in
    IsFinal plan
      (calls_of calm plan (some "YES") (some "AUTHORISE_PROMPT12_BOUNDED_SEQUENCE_LIVE") 0)
      rc
      r
main_live-IsFinal_example =
    main_live-IsFinal calm plan (some "YES") (some "AUTHORISE_PROMPT12_BOUNDED_SEQUENCE_LIVE") 0
