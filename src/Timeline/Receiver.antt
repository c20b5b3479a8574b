-- ===== src/Timeline/Receiver.antt =====
-- The classes of the receiver's intervals
-- (scripts/experiment-harness/canonicalize-iperf-receiver.py, and its copy
-- canonicalize-iperf-receiver-t2.py). Numbers of the rows are integers or finite decimals.
use package.text.Mathlib.Text.{◌==◌ as str_eq}
use tcd_oran_testbed_integra.Base.{
  ℕ, zero, suc, ◌-◌, leb, if◌then◌else◌, Bool, not, ◌&&◌, Option, none, some, List, [], ◌∷◌, length,
  String, Result, ok, err, ◌>>=◌, ◌>>◌, require,
}
use tcd_oran_testbed_integra.Base.Integers.{ℤ, pos, negsuc, less}
use tcd_oran_testbed_integra.Stationarity.Decimals.{Decimals, at_most}

-- The classes that a row gets.
pub data IntervalClass : Type 0 where
  startup_guard complete partial_terminal transition_crossing : IntervalClass

-- The natural number that an integer is, if it is at least a bound.
unfoldable pub at_least : ℕ → String → ℤ → Result ℕ
at_least bound reason (negsuc n) = err reason
at_least bound reason (pos n) = do require (leb bound n) reason; ok n

-- `observed_start_ns < timestamp < observed_end_ns`
unfoldable pub is_inside : ℕ → ℕ → ℤ → Bool
is_inside observed_start_ns observed_end_ns timestamp =
    less (pos observed_start_ns) timestamp && less timestamp (pos observed_end_ns)

-- The applied times strictly inside an observed interval.
unfoldable pub strict_hits : ℕ → ℕ → List ℤ → List ℤ
unfolding is_inside
strict_hits observed_start_ns observed_end_ns [] = []
strict_hits observed_start_ns observed_end_ns (timestamp ∷ timestamps) =
    let rest = strict_hits observed_start_ns observed_end_ns timestamps in
    if is_inside observed_start_ns observed_end_ns timestamp then timestamp ∷ rest else rest

-- The class of an interval with so many hits, from its base class.
unfoldable pub crossing : IntervalClass → ℕ → Result IntervalClass
crossing base_class zero = ok base_class
crossing startup_guard (suc zero) = err "applied_readback lies inside startup_guard interval"
crossing partial_terminal (suc zero) = err "applied_readback lies inside partial_terminal interval"
crossing transition_crossing (suc zero) = err "transition crossing requires a complete interval"
crossing complete (suc zero) = ok transition_crossing
crossing base_class (suc (suc n)) =
    err "multiple applied_readback events lie strictly inside one receiver interval"

module _ (D : Decimals) where
  -- A row of the staging file: the fields that are tested, and the record of those that are only
  -- passed on.
  pub record Row : Type 0 where
    pub schema : String
    pub interval_shape : String
    pub source_sequence : ℤ
    pub rx_wall_ns : ℤ
    pub rx_mono_ns : ℤ
    pub interval_start_s : D.Number
    pub interval_end_s : D.Number
    pub interval_duration_s : D.Number
    pub throughput_kbit_s : D.Number
    pub loss_pct : Option D.Number
    pub jitter_ms : Option D.Number
    pub bytes_transferred : Option ℕ

  unfoldable pub exact_duration_ns : D.Number → Result ℕ
  exact_duration_ns value = do
    require (D.less (D.decimal 0) value) "interval duration must be positive"
    let scaled = D.mul value (D.decimal 1000000000)
    let integral = D.to_integral_value scaled
    require (D.same scaled integral)
        "interval duration cannot be represented exactly at nanosecond resolution"
    ok (D.int integral)

  unfoldable pub terminal_class : Row → Result IntervalClass
  terminal_class row = do
    require (D.less (D.decimal 0) row.interval_duration_s && D.less row.interval_duration_s D.fifth)
        "partial terminal candidate has invalid duration"
    ok partial_terminal

  unfoldable pub complete_class : Row → Result IntervalClass
  complete_class row = do
    require (str_eq row.interval_shape "complete_0p2") "unsupported staging interval shape"
    require (at_most D (D.magnitude (D.sub row.interval_duration_s D.fifth)) D.micro)
        "complete_0p2 staging record is not 0.2 seconds"
    ok (
        if at_most D row.interval_end_s (D.add (D.decimal 1) D.micro)
        then startup_guard
        else complete)

  unfoldable pub base_interval_class : Row → Result IntervalClass
  base_interval_class row =
      if str_eq row.interval_shape "partial_terminal_candidate"
      then terminal_class row
      else complete_class row

  -- The part of classify_interval for a timeline that is not empty.
  unfoldable pub classify_crossing : Row → List ℤ → IntervalClass → Result IntervalClass
  classify_crossing row applied_timestamps base_class = do
    observed_end_ns ← at_least 1 "invalid rx_wall_ns" row.rx_wall_ns
    duration_ns ← exact_duration_ns row.interval_duration_s
    require (leb duration_ns observed_end_ns) "derived observed interval start is negative"
    crossing base_class
        (length (strict_hits (observed_end_ns - duration_ns) observed_end_ns applied_timestamps))

  unfoldable pub classify_interval : Row → List ℤ → Result IntervalClass
  classify_interval row [] = base_interval_class row
  classify_interval row (timestamp ∷ timestamps) = do
    base_class ← base_interval_class row
    classify_crossing row (timestamp ∷ timestamps) base_class

  -- A record of the output. Its record_id is `IPERF-RX-LINE-` with the number `source_sequence`, and
  -- its timestamp_utc_ns is rx_wall_ns.
  pub record Canonical : Type 0 where
    pub experiment_id : String
    pub run_id : String
    pub source_sequence : ℕ
    pub timestamp_utc_ns : ℕ
    pub rx_wall_ns : ℕ
    pub rx_mono_ns : ℕ
    pub interval_start_s : D.Number
    pub interval_end_s : D.Number
    pub interval_duration_s : D.Number
    pub throughput_kbit_s : D.Number
    pub loss_pct : Option D.Number
    pub jitter_ms : Option D.Number
    pub bytes_transferred : Option ℕ
    pub interval_class : IntervalClass

  unfoldable pub canonical_record : String → String → Row → List ℤ → Result Canonical
  canonical_record experiment_id run_id row applied_timestamps = do
    source_sequence ← at_least 0 "invalid source_sequence" row.source_sequence
    rx_wall_ns ← at_least 1 "invalid rx_wall_ns" row.rx_wall_ns
    rx_mono_ns ← at_least 1 "invalid rx_mono_ns" row.rx_mono_ns
    interval_class ← classify_interval row applied_timestamps
    ok (record {
      experiment_id = experiment_id;
      run_id = run_id;
      source_sequence = source_sequence;
      timestamp_utc_ns = rx_wall_ns;
      rx_wall_ns = rx_wall_ns;
      rx_mono_ns = rx_mono_ns;
      interval_start_s = row.interval_start_s;
      interval_end_s = row.interval_end_s;
      interval_duration_s = row.interval_duration_s;
      throughput_kbit_s = row.throughput_kbit_s;
      loss_pct = row.loss_pct;
      jitter_ms = row.jitter_ms;
      bytes_transferred = row.bytes_transferred;
      interval_class = interval_class;
    })

  unfoldable pub check_order : Option Row → Row → Result (Unit {0})
  check_order none row = ok tt
  check_order (some previous) row = do
    require (not (less row.rx_wall_ns previous.rx_wall_ns)) "rx_wall_ns ordering violation"
    require (less previous.rx_mono_ns row.rx_mono_ns) "rx_mono_ns ordering violation"

  unfoldable pub check_schema : Row → Result (Unit {0})
  check_schema row =
      require (str_eq row.schema "sci_oran_iperf_receiver_interval_parse_v1")
        "unexpected staging schema"

  module _ (accepts : Canonical → Bool) (experiment_id run_id : String) where
    -- The loop over the staging rows. `accepts` is jsonschema on an iperfInterval.
    unfoldable pub canonical_rows : List ℤ → Option Row → List Row → Result (List Canonical)
    canonical_rows applied_timestamps previous [] = ok []
    canonical_rows applied_timestamps previous (row ∷ rows) = do
      check_schema row
      check_order previous row
      canonical ← canonical_record experiment_id run_id row applied_timestamps
      require (accepts canonical) "schema validation failure"
      rest ← canonical_rows applied_timestamps (some row) rows
      ok (canonical ∷ rest)
