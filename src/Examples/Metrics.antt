-- ===== src/Examples/Metrics.antt =====
-- Runs of the metrics.
use mathlib.Core.List.Permᴰ.{refl as Perm-refl}
use ai_solo_coder_task_a.Database.Statements.{text}
use ai_solo_coder_task_a.Double.{double_lt}
use ai_solo_coder_task_a.Double.Arithmetic.{add, double_le, to_nat}
use ai_solo_coder_task_a.Metrics.{bounds, new_registry, observed, record_alert}
use ai_solo_coder_task_a.Metrics.Calls.{
  Call, alert_call, all_called, any_observes, laser_call, vibration_call,
}
use ai_solo_coder_task_a.Metrics.Empty.{serialize-calls}
use ai_solo_coder_task_a.Metrics.Histogram.{bucket_counts, observed_all, observed_all_lem}
use ai_solo_coder_task_a.Metrics.Serialize.{Printing, print_histogram, serialize}
use ai_solo_coder_task_a.Outcome.{out_of_range, returned, thrown}
use ai_solo_coder_task_a.Prelude.{
  List, String, [], false, if◌then◌else◌, length, refl, true, ℕ, ◌∷◌, ◌≡◌,
}
use ai_solo_coder_task_a.Text.{to_string}

-- A `double` is shown as its bits where `std::fixed` is set.
abbrev in_order : Printing
in_order = record {
  arrange = λ metas. metas;
  show_double = λ is_fixed bits. if is_fixed then to_string bits else "d";
  now = 1000;
}

abbrev some_calls : List Call
some_calls = laser_call 7 3 true ∷ vibration_call 21 0 ∷ alert_call "VIBRATION_ANOMALY" ∷ []

serialize-calls_example :
    (any_observes some_calls ≡ true
      → serialize in_order (all_called some_calls new_registry) ≡ thrown out_of_range)
    × (any_observes some_calls ≡ false
        → (shown : String) × (serialize in_order (all_called some_calls new_registry)
            ≡ returned shown))
serialize-calls_example = serialize-calls in_order some_calls (λ metas. Perm-refl metas)

-- 0.0, 2.0 and 0.25
abbrev some_values : List ℕ
some_values = 0 ∷ 0x4000000000000000 ∷ 0x3FD0000000000000 ∷ []

observed_all_lem_example :
    ((observed_all some_values).buckets ≡ bucket_counts bounds some_values)
    × ((observed_all some_values).count ≡ length some_values)
observed_all_lem_example = observed_all_lem some_values

serialize_runs :
    serialize in_order (record_alert "A" (record_alert "A" new_registry))
    ≡ returned (
        text (
          "# HELP pm_alerts_total pm_alerts_total\n" ∷ "# TYPE pm_alerts_total counter\n"
          ∷ "pm_alerts_total{type=\"A\"} 4611686018427387904\n" ∷ "# EOF ts=1000\n" ∷ []))
unfolding serialize record_alert to_string add
serialize_runs = refl

-- One value within all bounds: a count of 8 within 5.0, and of 1 in all.
print_histogram_runs :
    print_histogram in_order
      (record { name = "h"; labels = "{a}"; kind = "histogram" })
      (observed_all (0 ∷ []))
      (record { is_fixed = false; written = "" })
    ≡ returned (record {
      is_fixed = true;
      written = text (
          "# HELP h h\n# TYPE h histogram\n" ∷ "h_bucket{le=\"d\"a}} 1\n"
          ∷ "h_bucket{le=\"d\"a}} 2\n" ∷ "h_bucket{le=\"d\"a}} 3\n" ∷ "h_bucket{le=\"d\"a}} 4\n"
          ∷ "h_bucket{le=\"d\"a}} 5\n" ∷ "h_bucket{le=\"d\"a}} 6\n" ∷ "h_bucket{le=\"d\"a}} 7\n"
          ∷ "h_bucket{le=\"d\"a}} 8\n" ∷ "h_bucket{le=\"+Inf\"a}} 1\n" ∷ "h_sum{a} 0\n"
          ∷ "h_count{a} 1\n" ∷ []);
    })
unfolding print_histogram observed to_string to_nat add double_le double_lt
print_histogram_runs = refl
