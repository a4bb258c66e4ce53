-- ===== src/Metrics/Calls.antt =====
-- What any calls of the record functions leave in the registry.
use Prim.Native.String.{◌++◌ as str_append}
use ai_solo_coder_task_a.Double.Arithmetic.{of_nat}
use ai_solo_coder_task_a.Metrics.{
  HistogramData, Meta, MetricsRegistry, at_key, bounds, bump, increment_counter, new_histogram,
  observe_histogram, observed, one, put, record_alert, record_db_write, record_laser_data,
  record_module_processed, record_vibration_data, set_gauge,
}
use ai_solo_coder_task_a.Prelude.{
  All, Bool, List, String, [], either, false, not, refl, subst, true, ℕ, ◌||◌, ◌∷◌, ◌≡◌,
}
use ai_solo_coder_task_a.Text.{same_text}

pub data Call : Type 0 where
  laser_call : ℕ → ℕ → Bool → Call
  vibration_call : ℕ → ℕ → Call
  alert_call : String → Call
  module_call : String → Call
  db_write_call : ℕ → Call
  uptime_call : ℕ → Call

abbrev pub called : Call → MetricsRegistry → MetricsRegistry
called (laser_call sensor_id porcelain_id crack_detected) m =
    record_laser_data sensor_id porcelain_id crack_detected m
called (vibration_call sensor_id rms) m = record_vibration_data sensor_id rms m
called (alert_call alert_type) m = record_alert alert_type m
called (module_call module_name) m = record_module_processed module_name m
called (db_write_call duration_sec) m = record_db_write duration_sec m
-- The loop of `main`.
called (uptime_call seconds) m = set_gauge "pm_uptime_seconds" (of_nat seconds) "" m

abbrev pub all_called : List Call → MetricsRegistry → MetricsRegistry
all_called [] m = m
all_called (call ∷ calls) m = all_called calls (called call m)

-- The call observes a histogram.
abbrev pub observes : Call → Bool
observes (laser_call sensor_id porcelain_id crack_detected) = false
observes (vibration_call sensor_id rms) = true
observes (alert_call alert_type) = false
observes (module_call module_name) = false
observes (db_write_call duration_sec) = true
observes (uptime_call seconds) = false

abbrev pub any_observes : List Call → Bool
any_observes [] = false
any_observes (call ∷ calls) = observes call || any_observes calls

abbrev pub IsCons : List ℕ → Type 0
IsCons [] = ⊥
IsCons (bucket ∷ buckets) = Unit

abbrev pub HasBuckets : HistogramData → Type 0
HasBuckets h = IsCons h.buckets

unfoldable pub no_entries : List (String × Meta) → Bool
no_entries [] = true
no_entries (entry ∷ entries) = false

-- There are histograms, as `b` says, none has labels, and each has a bucket.
unfoldable pub Valid : Bool → MetricsRegistry → Type 0
unfolding no_entries
Valid b m =
    (no_entries m.hist_meta ≡ not b)
    × All (λ entry. entry.1.labels ≡ "") m.hist_meta
    × All (λ entry. HasBuckets entry.1) m.histograms

module _ {A : Type 0} (P : A → Type 0) where
  put-All :
      (key : String) (value : A) (entries : List (String × A))
      → P value
      → All (λ entry. P entry.1) entries
      → All (λ entry. P entry.1) (put key value entries)
  unfolding put
  put-All key value [] p ps = (p, tt)
  put-All key value ((other, old) ∷ entries) p (q, qs) =
      either (All {A = String × A} (λ entry. P entry.1)) (same_text key other) (p, qs)
        (q, put-All key value entries p qs)

  pub at_key-All :
      (key : String) (made : A) (entries : List (String × A))
      → P made
      → All (λ entry. P entry.1) entries
      → P (at_key key made entries)
  unfolding at_key
  at_key-All key made [] p ps = p
  at_key-All key made ((other, old) ∷ entries) p (q, qs) =
      either P _ q (at_key-All key made entries p qs)

no_entries-put :
    (key : String) (value : Meta) (entries : List (String × Meta))
    → no_entries (put key value entries) ≡ false
unfolding put no_entries
no_entries-put key value [] = refl
no_entries-put key value ((other, old) ∷ entries) =
    either (λ metas. no_entries metas ≡ false) (same_text key other) {x = (other, value) ∷ entries}
      {y = (other, old) ∷ put key value entries} refl refl

observed-HasBuckets : (value : ℕ) (h : HistogramData) → HasBuckets h → HasBuckets (observed value h)
unfolding observed bump
observed-HasBuckets value h p = go h.buckets p
  where
    go : (buckets : List ℕ) → IsCons buckets → IsCons (bump value bounds buckets)
    go [] p = absurd p
    go (bucket ∷ buckets) p = tt

observe_histogram-Valid :
    (name : String) (value : ℕ) (b : Bool) (m : MetricsRegistry)
    → Valid b m
    → Valid true (observe_histogram name value "" m)
unfolding observe_histogram Valid
observe_histogram-Valid name value b m (h, hs, ps) = (
  no_entries-put _ _ m.hist_meta,
  put-All (λ meta. meta.labels ≡ "") _ _ m.hist_meta refl hs,
  put-All HasBuckets _ _ m.histograms
      (observed-HasBuckets value (at_key (str_append name "") new_histogram m.histograms)
        (at_key-All HasBuckets _ new_histogram m.histograms tt ps))
      ps,
)

called-Valid :
    (call : Call) (b : Bool) (m : MetricsRegistry)
    → Valid b m
    → Valid (observes call || b) (called call m)
unfolding record_laser_data record_vibration_data record_alert record_module_processed
    record_db_write increment_counter set_gauge Valid
called-Valid (laser_call sensor_id porcelain_id true) b m h = h
called-Valid (laser_call sensor_id porcelain_id false) b m h = h
called-Valid (vibration_call sensor_id rms) b m h =
    observe_histogram-Valid "pm_vibration_rms" rms b
      (increment_counter "pm_vibration_data_total" one "" m) h
called-Valid (alert_call alert_type) b m h = h
called-Valid (module_call module_name) b m h = h
called-Valid (db_write_call duration_sec) b m h =
    observe_histogram-Valid "pm_db_write_duration_seconds" duration_sec b m h
called-Valid (uptime_call seconds) b m h = h

or_swap : (x y z : Bool) → y || (x || z) ≡ (x || y) || z
or_swap true true z = refl
or_swap true false z = refl
or_swap false y z = refl

pub all_called-Valid :
    (calls : List Call) (b : Bool) (m : MetricsRegistry)
    → Valid b m
    → Valid (any_observes calls || b) (all_called calls m)
all_called-Valid [] b m h = h
all_called-Valid (call ∷ calls) b m h =
    subst (λ c. Valid c (all_called calls (called call m)))
      (or_swap (observes call) (any_observes calls) b)
      (all_called-Valid calls (observes call || b) (called call m) (called-Valid call b m h))
