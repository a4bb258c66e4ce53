-- ===== src/Fatigue/Predict/Risk/First.antt =====
-- A crack that reaches its critical length in the first step of a prediction.
use ai_solo_coder_task_a.Common.{CrackInfo}
use ai_solo_coder_task_a.Double.{double_lt}
use ai_solo_coder_task_a.Double.Arithmetic.{MathLibrary, add, div, double_le, mul, of_nat}
use ai_solo_coder_task_a.Double.Arithmetic.Zero.{
  IsNought, IsNought-div, IsUnsigned, of_nat-zero, zero_mul,
}
use ai_solo_coder_task_a.Fatigue.{ParisLawParameters, ParisLawResult}
use ai_solo_coder_task_a.Fatigue.Growth.{hour}
use ai_solo_coder_task_a.Fatigue.Predict.{
  conclude, grow, growth, predict, predict_loop, progress, record_step, start_length, step_seconds,
  with_first_length,
}
use ai_solo_coder_task_a.Fatigue.Predict.Risk.{assess_risk_level-safe, result_unique}
use ai_solo_coder_task_a.Fatigue.Predict.Series.{result_for}
use ai_solo_coder_task_a.Fatigue.Stress.{critical_crack_length}
use ai_solo_coder_task_a.Outcome.{returned}
use ai_solo_coder_task_a.Prelude.{
  false, length, ltb, lt→ltb, refl, subst, sym, true, ℕ, ◌*◌, ◌<◌, ◌^◌, ◌≡◌, ◌≢◌,
}

module _ (lib : MathLibrary) (params : ParisLawParameters) (crack : CrackInfo) (h s : ℕ) where
  abbrev dt : ℕ
  dt = step_seconds h s

  -- The length after the first step.
  abbrev pub next_length : ℕ
  next_length =
      let a0 = start_length crack in
      add a0 (growth lib (with_first_length params crack) a0 (mul (of_nat 0) dt) dt)

  abbrev pub FailsFirst : Type 0
  FailsFirst =
      double_le (critical_crack_length lib (with_first_length params crack)) next_length ≡ true

  first_round :
      0 < s
      → FailsFirst
      → (length (progress lib (with_first_length params crack) crack h s).crack_length ≡ 1)
        × ((progress lib (with_first_length params crack) crack h s).time_to_failure_hours
            ≡ div (mul (of_nat 0) dt) hour)
  unfolding progress predict_loop record_step grow
  first_round some_step fails =
      let goes_on : ltb 0 s ≡ true = lt→ltb 0 s some_step in
      (rw (goes_on, fails), rw (goes_on, fails))

  safe_if :
      (ttf : ℕ)
      → IsUnsigned (progress lib (with_first_length params crack) crack h s).time_to_failure_hours
      → (result_for lib params crack h s ttf).risk_level ≢ "CRITICAL"
  unfolding conclude
  safe_if ttf (below, above) =
      let p = progress lib (with_first_length params crack) crack h s in
      rw below (assess_risk_level-safe p.time_to_failure_hours p.crack_growth_rate (rw above refl))

  -- The time to failure is then the one that the loop has noted.
  noted :
      (ttf : ℕ)
      → double_lt (progress lib (with_first_length params crack) crack h s).time_to_failure_hours 0
        ≡ false
      → (result_for lib params crack h s ttf).time_to_failure_hours
        ≡ (progress lib (with_first_length params crack) crack h s).time_to_failure_hours
  unfolding conclude
  noted ttf below = rw below

  -- A crack that has reached its critical length after the first step of the prediction is never said
  -- to be at CRITICAL risk: its time to failure is a zero, which the test for it leaves out.
  pub predict-first_step :
      0 < h
      → 720 * s < 2 ^ 31
      → 0 < s
      → FailsFirst
      → (q : ParisLawParameters) (r : ParisLawResult)
      → predict lib params crack h s ≡ returned (q, r)
      → (length r.crack_length ≡ 1)
        × IsUnsigned r.time_to_failure_hours
        × (r.risk_level ≢ "CRITICAL")
  unfolding conclude
  predict-first_step horizon fits some_step fails q r e =
      let (ttf, _, same) = result_unique lib params crack h s horizon fits q r e in
      let (one, time) = first_round some_step fails in
      let nought : IsNought (mul (of_nat 0) dt) =
        subst (λ n. IsNought (mul n dt)) (sym of_nat-zero) (zero_mul dt) in
      let zero_time = subst IsUnsigned (sym time) (IsNought-div (mul (of_nat 0) dt) nought) in
      let r' = result_for lib params crack h s ttf in
      subst
        (λ r''.
          (length r''.crack_length ≡ 1)
          × IsUnsigned r''.time_to_failure_hours
          × (r''.risk_level ≢ "CRITICAL"))
        (sym same)
        (one, subst IsUnsigned (sym (noted ttf zero_time.0)) zero_time, safe_if ttf zero_time)
