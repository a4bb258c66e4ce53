-- ===== src/Metrics/Histogram.antt =====
-- What the buckets of a histogram hold.
use ai_solo_coder_task_a.Double.Arithmetic.{add, double_le}
use ai_solo_coder_task_a.Metrics.{HistogramData, bounds, bump, new_histogram, observed, one}
use ai_solo_coder_task_a.Prelude.{
  Bool-cases, List, [], arith, if◌then◌else◌, inl, inr, length, refl, suc, zero, ℕ, ◌∷◌, ◌≡◌,
}

-- 0 after `n` increments of a `double`.
abbrev pub bumped : ℕ → ℕ
bumped zero = 0
bumped (suc n) = add (bumped n) one

abbrev pub count_within : ℕ → List ℕ → ℕ
count_within limit [] = 0
count_within limit (value ∷ values) =
    let rest = count_within limit values in if double_le value limit then suc rest else rest

-- The values, the latest first.
abbrev pub observed_all : List ℕ → HistogramData
observed_all [] = new_histogram
observed_all (value ∷ values) = observed value (observed_all values)

abbrev pub bucket_counts : List ℕ → List ℕ → List ℕ
bucket_counts [] values = bumped (length values) ∷ []
bucket_counts (limit ∷ limits) values =
    bumped (count_within limit values) ∷ bucket_counts limits values

bump_lem :
    (value : ℕ) (limits values : List ℕ)
    → bump value limits (bucket_counts limits values) ≡ bucket_counts limits (value ∷ values)
unfolding bump
bump_lem value [] values = refl
bump_lem value (limit ∷ limits) values = elim (Bool-cases (double_le value limit)) [
  | inl e ↦ rw (e, bump_lem value limits values)
  | inr e ↦ rw (e, bump_lem value limits values)
]

-- After any values a histogram holds for each bound the count of the values within it, which counts
-- those of the smaller bounds again, and then the count of all values, a NaN among them; a count is the
-- `double` that as many increments give, but `count` itself an integer.
pub observed_all_lem :
    (values : List ℕ)
    → ((observed_all values).buckets ≡ bucket_counts bounds values)
      × ((observed_all values).count ≡ length values)
unfolding observed
observed_all_lem [] = (refl, refl)
observed_all_lem (value ∷ values) =
    let (h, e) = observed_all_lem values in (rw (h, bump_lem value bounds values), omega arith)
