-- ===== src/Metrics/Serialize.antt =====
-- `MetricsRegistry::serialize`.
use Prim.Native.String.{◌++◌ as str_append, len, slice}
use ai_solo_coder_task_a.Database.Statements.{text}
use ai_solo_coder_task_a.Double.Arithmetic.{add, to_nat}
use ai_solo_coder_task_a.Metrics.{
  HistogramData, Meta, MetricsRegistry, at_key, bounds, new_histogram,
}
use ai_solo_coder_task_a.Outcome.{Outcome, faulted, out_of_range, returned, thrown, ◌>>=◌}
use ai_solo_coder_task_a.Prelude.{Bool, List, String, [], false, if◌then◌else◌, true, ℕ, ◌==◌, ◌∷◌}
use ai_solo_coder_task_a.Text.{to_string}

-- What the text takes from elsewhere: the order in which an `unordered_map` is walked through, the text
-- of a `double` on a stream, where `std::fixed` has been set or not, and the seconds of the clock.
pub record Printing : Type 0 where
  pub arrange : List (String × Meta) → List (String × Meta)
  pub show_double : Bool → ℕ → String
  pub now : ℕ

-- `std::ostringstream`: whether `std::fixed` is set, and what has been written.
pub record Stream : Type 0 where
  pub is_fixed : Bool
  pub written : String

write : List String → Stream → Stream
write pieces s = record s { written = str_append s.written (text pieces) }

set_fixed : Stream → Stream
set_fixed s = record s { is_fixed = true }

-- `labels.substr(1)`, which throws for the empty text.
unfoldable pub substr_1 : String → Outcome String
substr_1 labels =
    if len labels == 0 then thrown out_of_range else returned (slice labels 1 (len labels))

write_head : String → Meta → Stream → Stream
unfolding write
write_head kind meta =
    write
      ("# HELP " ∷ meta.name ∷ " " ∷ meta.name ∷ "\n# TYPE " ∷ meta.name ∷ " " ∷ kind ∷ "\n" ∷ [])

module _ (p : Printing) where
  -- The loop over the counters, and that over the gauges.
  unfoldable pub print_values : String → List (String × ℕ) → List (String × Meta) → Stream → Stream
  unfolding write set_fixed write_head at_key
  print_values kind values [] s = s
  print_values kind values ((key, meta) ∷ metas) s = print_values kind values metas (
      write (meta.name ∷ meta.labels ∷ " " ∷ p.show_double true (at_key key 0 values) ∷ "\n" ∷ [])
        (set_fixed (write_head kind meta s)))

  -- The loop over the bounds; `cum` is converted to a `long long`.
  unfoldable pub print_buckets : Meta → ℕ → List ℕ → List ℕ → Stream → Outcome Stream
  unfolding write substr_1
  print_buckets meta cum [] buckets s = returned s
  print_buckets meta cum (limit ∷ limits) [] s = faulted
  print_buckets meta cum (limit ∷ limits) (bucket ∷ buckets) s = do
    rest ← substr_1 meta.labels
    print_buckets meta (add cum bucket) limits buckets (
        write
          (meta.name
            ∷ "_bucket{le=\""
            ∷ p.show_double s.is_fixed limit
            ∷ "\""
            ∷ rest
            ∷ "} "
            ∷ to_string (to_nat (add cum bucket))
            ∷ "\n"
            ∷ [])
          s)

  print_sums : Meta → String → HistogramData → Stream → Stream
  unfolding write set_fixed
  print_sums meta rest h s =
      write (meta.name ∷ "_count" ∷ meta.labels ∷ " " ∷ to_string h.count ∷ "\n" ∷ []) (
        write (meta.name ∷ "_sum" ∷ meta.labels ∷ " " ∷ p.show_double true h.sum ∷ "\n" ∷ []) (
          set_fixed (
            write (meta.name ∷ "_bucket{le=\"+Inf\"" ∷ rest ∷ "} " ∷ to_string h.count ∷ "\n" ∷ [])
              s)))

  unfoldable pub print_histogram : Meta → HistogramData → Stream → Outcome Stream
  unfolding write_head substr_1 print_buckets print_sums
  print_histogram meta h s = do
    after ← print_buckets meta 0 bounds h.buckets (write_head "histogram" meta s)
    rest ← substr_1 meta.labels
    returned (print_sums meta rest h after)

  unfoldable pub print_histograms :
      List (String × HistogramData) → List (String × Meta) → Stream → Outcome Stream
  unfolding print_histogram at_key
  print_histograms histograms [] s = returned s
  print_histograms histograms ((key, meta) ∷ metas) s =
      print_histogram meta (at_key key new_histogram histograms) s >>= λ after.
      print_histograms histograms metas after

  -- The first two loops, and the last line.
  unfoldable pub print_scalars : MetricsRegistry → Stream
  unfolding print_values
  print_scalars m = print_values "gauge" m.gauges (p.arrange m.gauge_meta) (
      print_values "counter" m.counters (p.arrange m.counter_meta)
        (record { is_fixed = false; written = "" }))

  unfoldable pub print_end : Stream → String
  unfolding write
  print_end s = (write ("# EOF ts=" ∷ to_string p.now ∷ "\n" ∷ []) s).written

  unfoldable pub serialize : MetricsRegistry → Outcome String
  unfolding print_scalars print_histograms print_end
  serialize m = do
    printed ← print_histograms m.histograms (p.arrange m.hist_meta) (print_scalars m)
    returned (print_end printed)
