-- ===== src/Fatigue/Predict/Risk.antt =====
-- When the risk of a prediction is CRITICAL.
pub mod First
use text.Mathlib.TextEquality.{eq_iff}
use text.Mathlib.Text.{◌==◌ as str_eq}
use ai_solo_coder_task_a.Alerts.Worker.Shutdown.{rounds}
use ai_solo_coder_task_a.Common.{CrackInfo}
use ai_solo_coder_task_a.Double.{double_lt}
use ai_solo_coder_task_a.Double.Arithmetic.{MathLibrary, add, div, double_le}
use ai_solo_coder_task_a.Fatigue.{ParisLawParameters, ParisLawResult}
use ai_solo_coder_task_a.Fatigue.Growth.{estimate_remaining_life, growth_time, hour}
use ai_solo_coder_task_a.Fatigue.Predict.{
  assess_risk_level, conclude, predict, progress, start_length, with_first_length,
}
use ai_solo_coder_task_a.Fatigue.Predict.Series.{
  life, predict-returned, progress-Rounds, result_for,
}
use ai_solo_coder_task_a.Fatigue.Stress.{critical_crack_length, runge_kutta_step}
use ai_solo_coder_task_a.Outcome.{returned}
use ai_solo_coder_task_a.Prelude.{
  Bool, List, String, ap, arith, false, false≢true, if◌then◌else◌, inl, inr, length, refl, some,
  suc, sym, true, ℕ, ◌&&◌, ◌*◌, ◌<◌, ◌^◌, ◌∙◌, ◌≡◌, ◌≢◌,
}

distinct : (s t : String) → str_eq s t ≡ false → s ≢ t
distinct s t h e = false≢true (sym h ∙ (eq_iff s t).1 e)

-- One test of the ladder, whose texts are not CRITICAL.
rung :
    (t : Bool) {x y : String} → x ≢ "CRITICAL" → y ≢ "CRITICAL" → (if t then x else y) ≢ "CRITICAL"
rung true h k = h
rung false h k = k

-- Whatever the growth rates, a time to failure that is not in the range is not critical, and one that
-- is in it is.
pub assess_risk_level-safe :
    (t : ℕ) (rates : List ℕ)
    → (double_lt 0 t && double_lt t 0x4086800000000000) ≡ false
    → assess_risk_level t rates ≢ "CRITICAL"
unfolding assess_risk_level
assess_risk_level-safe t rates h = rw h (
    rung _ (distinct "HIGH" "CRITICAL" refl) (
      rung _ (distinct "MEDIUM" "CRITICAL" refl)
        (rung _ (distinct "LOW" "CRITICAL" refl) (distinct "NEGLIGIBLE" "CRITICAL" refl))))

pub assess_risk_level-critical :
    (t : ℕ) (rates : List ℕ)
    → (double_lt 0 t && double_lt t 0x4086800000000000) ≡ true
    → assess_risk_level t rates ≡ "CRITICAL"
unfolding assess_risk_level
assess_risk_level-critical t rates h = rw h

lt→not_le : (a c : ℕ) → double_lt a c ≡ true → double_le c a ≡ false
unfolding double_le
lt→not_le a c h = ground arith

first_hour :
    (add 0 hour ≡ hour)
    × (double_lt 0 0x4197D78400000000 ≡ true)
    × (div hour hour ≡ 0x3FF0000000000000)
unfolding add double_lt div
first_hour = (refl, refl, refl)

module _ (lib : MathLibrary) (params : ParisLawParameters) where
  growth_time-slow :
      (fuel critical_length a : ℕ)
      → double_lt a critical_length ≡ true
      → double_lt (runge_kutta_step lib params a 0 hour) 0x3CD203AF9EE75616 ≡ true
      → growth_time lib params (suc fuel) critical_length a 0 ≡ some hour
  unfolding growth_time
  growth_time-slow fuel c a sound slow = rw (sound, first_hour.1, slow) (ap some first_hour.0)

  -- What is said of a crack that grows by less than 1e-15 m in its first hour: the loop of
  -- `estimate_remaining_life` stops after that hour.
  estimate_remaining_life-slow :
      (a critical_length : ℕ)
      → double_lt a critical_length ≡ true
      → double_lt (runge_kutta_step lib params a 0 hour) 0x3CD203AF9EE75616 ≡ true
      → estimate_remaining_life lib params a critical_length ≡ some 0x3FF0000000000000
  unfolding estimate_remaining_life
  estimate_remaining_life-slow a c sound slow =
      rw (lt→not_le a c sound, growth_time-slow 27778 c a sound slow) (ap some first_hour.2)

some_inj {ℓ} : {A : Type ℓ} {x y : A} → some x ≡ some y → x ≡ y
some_inj e = cc

one_hour_critical :
    (double_lt 0 0x3FF0000000000000 && double_lt 0x3FF0000000000000 0x4086800000000000) ≡ true
unfolding double_lt
one_hour_critical = refl

returned_inj {ℓ} : {A : Type ℓ} {x y : A} → returned x ≡ returned y → x ≡ y
returned_inj e = cc

module _ (lib : MathLibrary) (params : ParisLawParameters) (crack : CrackInfo) (h s : ℕ) where
  -- What a call that returns has returned.
  pub result_unique :
      0 < h
      → 720 * s < 2 ^ 31
      → (q : ParisLawParameters) (r : ParisLawResult)
      → predict lib params crack h s ≡ returned (q, r)
      → (ttf : ℕ) × (life lib params crack h s ≡ some ttf)
        × (r ≡ result_for lib params crack h s ttf)
  result_unique horizon fits q r e =
      let (ttf, alive, e') = predict-returned lib params crack h s horizon fits in
      (
        ttf,
        alive,
        ap (λ (x : ParisLawParameters × ParisLawResult). x.1) (returned_inj (sym e ∙ e')),
      )

  -- The time to failure is the estimated life where the loop has found none.
  unfailed :
      (ttf : ℕ)
      → (progress lib (with_first_length params crack) crack h s).time_to_failure_hours
        ≡ 0xBFF0000000000000
      → (result_for lib params crack h s ttf).time_to_failure_hours ≡ ttf
  unfolding conclude double_lt
  unfailed ttf e = rw e

  critical_if :
      (ttf : ℕ)
      → let r = result_for lib params crack h s ttf in
        (double_lt 0 r.time_to_failure_hours
            && double_lt r.time_to_failure_hours 0x4086800000000000)
          ≡ true
        → r.risk_level ≡ "CRITICAL"
  unfolding conclude
  critical_if ttf e =
      assess_risk_level-critical _
        (progress lib (with_first_length params crack) crack h s).crack_growth_rate e

  -- A crack that is below its critical length, that grows by less than 1e-15 m in its first hour, and
  -- whose series `predict` can carry to the end of the horizon is said to fail in one hour, and its
  -- risk to be CRITICAL.
  pub predict-slow :
      0 < h
      → 720 * s < 2 ^ 31
      → (q : ParisLawParameters) (r : ParisLawResult)
      → predict lib params crack h s ≡ returned (q, r)
      → length r.crack_length ≡ suc s
      → double_lt (start_length crack) (critical_crack_length lib (with_first_length params crack))
        ≡ true
      → double_lt
          (runge_kutta_step lib (with_first_length params crack) (start_length crack) 0 hour)
          0x3CD203AF9EE75616
        ≡ true
      → (r.time_to_failure_hours ≡ 0x3FF0000000000000) × (r.risk_level ≡ "CRITICAL")
  unfolding conclude
  predict-slow horizon fits q r e whole sound slow =
      let (ttf, alive, same) = result_unique horizon fits q r e in
      let (n, rounds) = progress-Rounds lib params crack h s in
      let p = progress lib (with_first_length params crack) crack h s in
      let long : length p.crack_length ≡ suc n = rounds.long.1.0 in
      let as_long : length p.crack_length ≡ suc s =
        (ap (λ (r' : ParisLawResult). length r'.crack_length) (sym same) ∙ whole) in
      let one_hour : ttf ≡ 0x3FF0000000000000 =
        (some_inj (
          sym alive
          ∙ estimate_remaining_life-slow lib (with_first_length params crack) (start_length crack) _
              sound slow)) in
      let open_end : p.time_to_failure_hours ≡ 0xBFF0000000000000 = elim rounds.ending [
        | inl (_, kept) ↦ kept
        | inr (early, _) ↦ absurd (omega (arith, early, long, as_long))
      ] in
      let life = unfailed ttf open_end ∙ one_hour in
      (
        ap (λ (r' : ParisLawResult). r'.time_to_failure_hours) same ∙ life,
        ap (λ (r' : ParisLawResult). r'.risk_level) same
            ∙ critical_if ttf (rw life one_hour_critical),
      )
