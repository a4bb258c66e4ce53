-- ===== src/Metrics.antt =====
-- backend/include/prometheus_metrics.h: the registry, what is recorded in it, and its text. A map is the
-- list of its entries; `count` stays below 2 ^ 63.
pub mod Serialize
pub mod Empty
pub mod Histogram
pub mod Calls
use Prim.Native.String.{◌++◌ as str_append}
use ai_solo_coder_task_a.Double.Arithmetic.{add, double_le, neg, of_nat}
use ai_solo_coder_task_a.Prelude.{Bool, List, String, [], if◌then◌else◌, ltb, ℕ, ◌+◌, ◌-◌, ◌^◌, ◌∷◌}
use ai_solo_coder_task_a.Text.{same_text}

pub record Meta : Type 0 where
  pub name : String
  pub labels : String
  pub kind : String

pub record HistogramData : Type 0 where
  pub count : ℕ
  pub sum : ℕ
  pub buckets : List ℕ

pub record MetricsRegistry : Type 0 where
  pub counters : List (String × ℕ)
  pub counter_meta : List (String × Meta)
  pub gauges : List (String × ℕ)
  pub gauge_meta : List (String × Meta)
  pub histograms : List (String × HistogramData)
  pub hist_meta : List (String × Meta)

abbrev pub new_registry : MetricsRegistry
new_registry = record {
  counters = [];
  counter_meta = [];
  gauges = [];
  gauge_meta = [];
  histograms = [];
  hist_meta = [];
}

-- `map[key]`, with the value that it makes where there is none.
unfoldable pub at_key : {A : Type 0} → String → A → List (String × A) → A
unfolding same_text
at_key key made [] = made
at_key key made ((other, value) ∷ entries) =
    let rest = at_key key made entries in if same_text key other then value else rest

-- `map[key] = value`
unfoldable pub put : {A : Type 0} → String → A → List (String × A) → List (String × A)
unfolding same_text
put key value [] = (key, value) ∷ []
put key value ((other, old) ∷ entries) =
    let rest = put key value entries in
    if same_text key other then (other, value) ∷ entries else (other, old) ∷ rest

-- 1.0
abbrev pub one : ℕ
one = 0x3FF0000000000000

-- 0.001, 0.005, 0.01, 0.05, 0.1, 0.5, 1.0 and 5.0
abbrev pub bounds : List ℕ
bounds =
    0x3F50624DD2F1A9FC ∷ 0x3F747AE147AE147B ∷ 0x3F847AE147AE147B ∷ 0x3FA999999999999A
    ∷ 0x3FB999999999999A ∷ 0x3FE0000000000000 ∷ one ∷ 0x4014000000000000 ∷ []

abbrev pub new_histogram : HistogramData
new_histogram = record { count = 0; sum = 0; buckets = 0 ∷ 0 ∷ 0 ∷ 0 ∷ 0 ∷ 0 ∷ 0 ∷ 0 ∷ 0 ∷ [] }

-- `++` on each bucket whose bound the value is within, and on the one after the last bound.
unfoldable pub bump : ℕ → List ℕ → List ℕ → List ℕ
bump value limits [] = []
bump value [] (bucket ∷ buckets) = add bucket one ∷ buckets
bump value (limit ∷ limits) (bucket ∷ buckets) =
    (if double_le value limit then add bucket one else bucket) ∷ bump value limits buckets

unfoldable pub observed : ℕ → HistogramData → HistogramData
unfolding bump
observed value h = record {
  count = h.count + 1;
  sum = add h.sum value;
  buckets = bump value bounds h.buckets;
}

unfoldable pub increment_counter : String → ℕ → String → MetricsRegistry → MetricsRegistry
unfolding put at_key
increment_counter name value labels m =
    let key = str_append name labels in
    record m {
      counters = put key (add (at_key key 0 m.counters) value) m.counters;
      counter_meta =
          put key (record { name = name; labels = labels; kind = "counter" }) m.counter_meta;
    }

unfoldable pub set_gauge : String → ℕ → String → MetricsRegistry → MetricsRegistry
unfolding put
set_gauge name value labels m =
    let key = str_append name labels in
    record m {
      gauges = put key value m.gauges;
      gauge_meta = put key (record { name = name; labels = labels; kind = "gauge" }) m.gauge_meta;
    }

unfoldable pub observe_histogram : String → ℕ → String → MetricsRegistry → MetricsRegistry
unfolding put at_key observed
observe_histogram name value labels m =
    let key = str_append name labels in
    record m {
      histograms = put key (observed value (at_key key new_histogram m.histograms)) m.histograms;
      hist_meta = put key (record { name = name; labels = labels; kind = "histogram" }) m.hist_meta;
    }

-- An `int` as a `double`.
of_int : ℕ → ℕ
of_int n = if ltb n (2 ^ 31) then of_nat n else neg (of_nat (2 ^ 32 - n))

unfoldable pub record_laser_data : ℕ → ℕ → Bool → MetricsRegistry → MetricsRegistry
unfolding increment_counter set_gauge of_int
record_laser_data sensor_id porcelain_id crack_detected m =
    let total = increment_counter "pm_laser_data_total" one "" m in
    let detected =
      if crack_detected then increment_counter "pm_crack_detected_total" one "" total else total in
    set_gauge "pm_last_laser_sensor_id" (of_int sensor_id) "" detected

unfoldable pub record_vibration_data : ℕ → ℕ → MetricsRegistry → MetricsRegistry
unfolding increment_counter observe_histogram
record_vibration_data sensor_id rms m =
    observe_histogram "pm_vibration_rms" rms ""
      (increment_counter "pm_vibration_data_total" one "" m)

unfoldable pub record_alert : String → MetricsRegistry → MetricsRegistry
unfolding increment_counter
record_alert alert_type m =
    increment_counter "pm_alerts_total" one (str_append "{type=\"" (str_append alert_type "\"}")) m

unfoldable pub record_module_processed : String → MetricsRegistry → MetricsRegistry
unfolding increment_counter
record_module_processed module_name m =
    increment_counter "pm_module_processed_total" one
      (str_append "{module=\"" (str_append module_name "\"}")) m

unfoldable pub record_db_write : ℕ → MetricsRegistry → MetricsRegistry
unfolding observe_histogram
record_db_write duration_sec m = observe_histogram "pm_db_write_duration_seconds" duration_sec "" m
