-- ===== src/Fatigue/Predict/Series.antt =====
-- The series of a prediction: how long they are, and how the loop ended.
use ai_solo_coder_task_a.Common.{CrackInfo}
use ai_solo_coder_task_a.Double.Arithmetic.{MathLibrary, div, double_le, mul, of_nat}
use ai_solo_coder_task_a.Fatigue.{ParisLawParameters, ParisLawResult}
use ai_solo_coder_task_a.Fatigue.Growth.{estimate_remaining_life, hour}
use ai_solo_coder_task_a.Fatigue.Growth.Ends.{estimate_remaining_life-ends, time_at}
use ai_solo_coder_task_a.Fatigue.Predict.{
  Progress, at_720h, conclude, first_progress, grow, last_or, predict, predict_loop, progress,
  record_step, start_depth, start_length, start_width, step_seconds, with_first_length,
}
use ai_solo_coder_task_a.Fatigue.Stress.{critical_crack_length}
use ai_solo_coder_task_a.Outcome.{returned}
use ai_solo_coder_task_a.Prelude.{
  All, Bool-cases, List, Option, [], ap, arith, false, get_or, inl, inr, leb, length, length-append,
  ltb, ltb→lt, min, refl, some, suc, zero, ℕ, ◌*◌, ◌++◌, ◌+◌, ◌/◌, ◌<◌, ◌==◌, ◌^◌, ◌||◌, ◌∙◌, ◌∷◌,
  ◌≡◌, ◌≤◌, ◌⊎◌,
}

abbrev pub series : Progress → List (List ℕ)
series p =
    p.time_hours ∷ p.crack_length ∷ p.crack_depth ∷ p.crack_width ∷ p.stress_intensity_range
    ∷ p.crack_growth_rate ∷ []

abbrev pub result_series : ParisLawResult → List (List ℕ)
result_series r =
    r.time_hours ∷ r.crack_length ∷ r.crack_depth ∷ r.crack_width ∷ r.stress_intensity_range
    ∷ r.crack_growth_rate ∷ []

abbrev pub AllLong : ℕ → List (List ℕ) → Type 0
AllLong n = All (λ xs. length xs ≡ n)

length-push : (xs : List ℕ) (x n : ℕ) → length xs ≡ n → length (xs ++ x ∷ []) ≡ suc n
length-push xs x n h = omega (arith, length-append xs (x ∷ []))

AllLong-record_step :
    (lib : MathLibrary) (params : ParisLawParameters) (i dt n : ℕ) (p : Progress)
    → AllLong n (series p)
    → AllLong (suc n) (series (record_step lib params i dt p))
unfolding record_step
AllLong-record_step lib params i dt n p (h0, (h1, (h2, (h3, (h4, (h5, _)))))) =
    let more = λ (xs : List ℕ) (x : ℕ). length-push xs x n in
    (more _ _ h0, (more _ _ h1, (more _ _ h2, (more _ _ h3, (more _ _ h4, (more _ _ h5, tt))))))

-- Of the `left` rounds from the i-th on `m` are made, which end at `p'`: all, or up to a failure at the
-- time of the last one made.
record Ran (i left dt n : ℕ) (p p' : Progress) (m : ℕ) : Type 0 where
  pub within : m ≤ left
  pub long : AllLong (n + m) (series p')
  pub ending :
      ((m ≡ left) × (p'.time_to_failure_hours ≡ p.time_to_failure_hours))
      ⊎ ((k : ℕ) × (m ≡ suc k)
          × (suc k < left)
          × (p'.time_to_failure_hours ≡ div (mul (of_nat (i + k)) dt) hour))

module _ (lib : MathLibrary) (params : ParisLawParameters)
    (time_steps dt a0 depth0 width0 : ℕ) where
  at_hour : (i j : ℕ) → i ≡ j → div (mul (of_nat i) dt) hour ≡ div (mul (of_nat j) dt) hour
  at_hour i j e = ap (λ k. div (mul (of_nat k) dt) hour) e

  predict_loop-Ran :
      (left i n : ℕ) (p : Progress)
      → i + left ≡ suc time_steps
      → AllLong n (series p)
      → (m : ℕ) × Ran i left dt n p
          (predict_loop lib params left i time_steps dt a0 depth0 width0 p)
          m
  unfolding predict_loop grow record_step
  predict_loop-Ran zero i n p e h =
      let same : n + 0 ≡ n = omega arith in
      (0, record { within = omega arith; long = rw same h; ending = inl (refl, refl) })
  predict_loop-Ran (suc left) i n p e h =
      let h' = AllLong-record_step lib params i dt n p h in
      let one : n + 1 ≡ suc n = omega arith in
      let grown = grow lib params i dt a0 depth0 width0 (record_step lib params i dt p) in
      elim (Bool-cases (ltb i time_steps)) [
        | inr last ↦
            let none_left : left ≡ 0 = ground arith in
            (
              1,
              record {
                within = omega arith;
                long = rw (last, one) h';
                ending = inl (omega (arith, none_left), rw last refl);
              },
            )
        | inl more ↦ elim (Bool-cases (double_le (critical_crack_length lib params) grown.a)) [
          | inl fails ↦ (
            1,
            record {
              within = omega arith;
              long = rw (more, fails, one) h';
              ending = inr (
                0,
                refl,
                omega (arith, e, ltb→lt i time_steps more),
                rw (more, fails) (at_hour i (i + 0) (omega arith)),
              );
            },
          )
          | inr holds ↦
              let (m, ran) = predict_loop-Ran left (i + 1) (suc n) grown (omega arith) h' in
              let shift : n + suc m ≡ suc n + m = omega arith in
              (
                suc m,
                record {
                  within = omega (arith, ran.within);
                  long = rw (more, holds, shift) ran.long;
                  ending = elim ran.ending [
                    | inl (all, kept) ↦ inl (omega (arith, all), rw (more, holds) kept)
                    | inr (k, made, before, time) ↦ inr (
                      suc k,
                      omega (arith, made),
                      omega (arith, before),
                      rw (more, holds) (time ∙ at_hour (i + 1 + k) (i + suc k) (omega arith)),
                    )
                  ];
                },
              )
        ]
      ]

get_or-last :
    (xs : List ℕ) (x n default : ℕ) → length xs ≡ n → last_or xs x ≡ get_or (x ∷ xs) n default
unfolding last_or
get_or-last [] x n default e = rw (← e)
get_or-last (y ∷ xs) x zero default e = absurd (omega arith)
get_or-last (y ∷ xs) x (suc n) default e = get_or-last xs y n default (omega arith)

-- The value 720 hours ahead stands at that place, or at the last one.
at_720h-get_or :
    (idx n : ℕ) (lengths xs : List ℕ)
    → length lengths ≡ suc n
    → length xs ≡ suc n
    → at_720h idx lengths xs ≡ get_or xs (min idx n) 0
unfolding at_720h last_or
at_720h-get_or idx n lengths [] e f = absurd (omega arith)
at_720h-get_or idx n lengths (x ∷ xs) e f = elim (Bool-cases (ltb idx (length lengths))) [
  | inl inside ↦
      let place : min idx n ≡ idx = omega (arith, ltb→lt idx (length lengths) inside, e) in
      rw (inside, place)
  | inr outside ↦
      let place : min idx n ≡ n = ground arith in
      rw (outside, place) (get_or-last xs x n 0 (omega (arith, f)))
]

module _ (lib : MathLibrary) (params : ParisLawParameters) (crack : CrackInfo) (h s : ℕ) where
  -- The result for a life that was estimated.
  abbrev pub result_for : ℕ → ParisLawResult
  result_for ttf =
      let a0 = start_length crack in
      conclude params a0 (critical_crack_length lib (with_first_length params crack)) ttf h s
        (progress lib (with_first_length params crack) crack h s)

  abbrev pub life : Option ℕ
  life =
      estimate_remaining_life lib (with_first_length params crack) (start_length crack)
        (critical_crack_length lib (with_first_length params crack))

  life_ends : (ttf : ℕ) × (life ≡ some ttf)
  life_ends =
      elim (estimate_remaining_life-ends lib (with_first_length params crack) (start_length crack)
        (critical_crack_length lib (with_first_length params crack))) [
          | inl e ↦ (0, e)
          | inr (n, _, e) ↦ (div (time_at n 0) hour, e)
        ]

  pub predict-returned :
      0 < h
      → 720 * s < 2 ^ 31
      → (ttf : ℕ) × (life ≡ some ttf)
        × (predict lib params crack h s ≡ returned (with_first_length params crack, result_for ttf))
  unfolding predict
  predict-returned horizon fits =
      let (ttf, e) = life_ends in
      let sound : (h == 0 || leb (2 ^ 31) (720 * s)) ≡ false = ground arith in
      (ttf, e, rw (sound, e))

  -- The rounds that the loop of `predict` makes: `suc n` of the `suc s`.
  pub record Rounds (p : Progress) (n : ℕ) : Type 0 where
    pub within : n ≤ s
    pub long : AllLong (suc n) (series p)
    pub ending :
        ((n ≡ s) × (p.time_to_failure_hours ≡ 0xBFF0000000000000))
        ⊎ ((n < s) × (p.time_to_failure_hours ≡ div (mul (of_nat n) (step_seconds h s)) hour))

  pub progress-Rounds : (n : ℕ) × Rounds (progress lib (with_first_length params crack) crack h s) n
  unfolding progress
  progress-Rounds =
      let (m, ran) =
        predict_loop-Ran lib (with_first_length params crack) s (step_seconds h s)
          (start_length crack) (start_depth crack) (start_width crack) (suc s) 0 0
          (first_progress crack) (omega arith) (refl, (refl, (refl, (refl, (refl, (refl, tt)))))) in
      elim ran.ending [
        | inl (all, kept) ↦
            let e : 0 + m ≡ suc s = omega (arith, all) in
            (s, record { within = omega arith; long = rw e at ran.long; ending = inl (refl, kept) })
        | inr (k, made, before, time) ↦
            let e : 0 + m ≡ suc k = omega (arith, made) in
            let e' : 0 + k ≡ k = omega arith in
            (
              k,
              record {
                within = omega (arith, before);
                long = rw e at ran.long;
                ending = inr (omega (arith, before), rw e' at time);
              },
            )
      ]

  -- For a horizon of at least an hour and so many steps that 720 times as many are an `int`, `predict`
  -- returns. Its six series are equally long, of one to time_steps + 1 entries, and the three values
  -- said to be those after 720 hours are the entries of the series at the step of that hour, or the
  -- last ones where a failure has ended the series before. The parameters noted in the result are those
  -- from before the call.
  pub predict_series :
      0 < h
      → 720 * s < 2 ^ 31
      → (r : ParisLawResult) × (predict lib params crack h s
          ≡ returned (with_first_length params crack, r))
        × (r.parameters ≡ params)
        × ((n : ℕ) × (n ≤ s)
            × AllLong (suc n) (result_series r)
            × (let place = min (min s (720 * s / h)) n in
                (r.predicted_length_720h ≡ get_or r.crack_length place 0)
                × (r.predicted_depth_720h ≡ get_or r.crack_depth place 0)
                × (r.predicted_width_720h ≡ get_or r.crack_width place 0)))
  unfolding conclude
  predict_series horizon fits =
      let (ttf, _, e) = predict-returned horizon fits in
      let (n, r) = progress-Rounds in
      let (_, (long, (deep, (wide, _)))) = r.long in
      let at = λ (xs : List ℕ). at_720h-get_or (min s (720 * s / h)) n _ xs long in
      (result_for ttf, e, refl, (n, r.within, r.long, (at _ long, at _ deep, at _ wide)))
