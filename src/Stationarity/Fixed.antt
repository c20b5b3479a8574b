-- ===== src/Stationarity/Fixed.antt =====
-- Decimals of six fixed places, for tests: a difference is the distance, which is all that
-- scripts/experiment-harness/evaluate-output-stationarity.py uses of it.
use tcd_oran_testbed_integra.Base.{ℕ, zero, suc, List, [], ◌∷◌, ◌+◌, ◌-◌, ◌*◌, ◌/◌, ◌==◌, ltb, true}
use tcd_oran_testbed_integra.Stationarity.Decimals.{Decimals}
use tcd_oran_testbed_integra.Stationarity.Interval.{Interval}

abbrev pub fixed : Decimals
fixed = record {
  Number = ℕ;
  decimal = λ n. n * 1000000;
  micro = 1;
  fifth = 200000;
  is_finite = λ _. true;
  add = λ a b. a + b;
  sub = λ a b. (a - b) + (b - a);
  mul = λ a b. a * b / 1000000;
  div = λ a b. a * 1000000 / b;
  sqrt = λ a. a;
  magnitude = λ a. a;
  to_integral_value = λ a. a;
  int = λ a. a / 1000000;
  less = ltb;
  same = λ a b. a == b;
  decimal_text = λ _. "number";
  str = λ _. "number";
}

-- The i-th interval of 0.2 s, with a throughput of 1000 kbit/s.
abbrev pub sample : ℕ → Interval fixed
sample i = record {
  experiment_id = "experiment";
  run_id = "run";
  record_id = "record";
  interval_class = "complete";
  rx_wall_ns = (i + 1) * 200000000;
  rx_mono_ns = i;
  interval_start_s = i * 200000;
  interval_end_s = (i + 1) * 200000;
  interval_duration_s = 200000;
  throughput_kbit_s = 1000000000;
}

abbrev pub samples : ℕ → ℕ → List (Interval fixed)
samples i zero = []
samples i (suc n) = sample i ∷ samples (i + 1) n
