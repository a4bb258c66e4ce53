-- ===== src/Fatigue/Predict.antt =====
-- `CrackPropagationModel::predict`, `assess_risk_level` and `predict_with_history`.
pub mod Series
pub mod Risk
use ai_solo_coder_task_a.Common.{CrackInfo}
use ai_solo_coder_task_a.Database.{failed}
use ai_solo_coder_task_a.Double.{double_lt}
use ai_solo_coder_task_a.Double.Arithmetic.{MathLibrary, add, div, double_le, mul, of_nat, sub}
use ai_solo_coder_task_a.Fatigue.{ParisLawParameters, ParisLawResult}
use ai_solo_coder_task_a.Fatigue.Growth.{estimate_remaining_life, hour}
use ai_solo_coder_task_a.Fatigue.Stress.{
  calculate_crack_growth_rate, critical_crack_length, runge_kutta_step, stress_range,
}
use ai_solo_coder_task_a.Outcome.{Outcome, faulted, returned}
use ai_solo_coder_task_a.Prelude.{
  List, String, [], get_or, if◌then◌else◌, leb, length, ltb, min, none, some, suc, zero, ℕ, ◌&&◌,
  ◌*◌, ◌++◌, ◌+◌, ◌/◌, ◌==◌, ◌^◌, ◌||◌, ◌∷◌,
}

-- The local variables of the loop, and the vectors of the result.
pub record Progress : Type 0 where
  pub a : ℕ
  pub depth : ℕ
  pub width : ℕ
  pub time_hours : List ℕ
  pub crack_length : List ℕ
  pub crack_depth : List ℕ
  pub crack_width : List ℕ
  pub stress_intensity_range : List ℕ
  pub crack_growth_rate : List ℕ
  pub time_to_failure_hours : ℕ

abbrev no_failure : ℕ
no_failure = 0xBFF0000000000000

unfoldable pub last_or : List ℕ → ℕ → ℕ
last_or [] default = default
last_or (x ∷ xs) default = last_or xs x

-- `assess_risk_level`
unfoldable pub assess_risk_level : ℕ → List ℕ → String
unfolding last_or
assess_risk_level time_to_failure_hours crack_growth_rate =
    let growth_rate = last_or crack_growth_rate 0 in
    if double_lt 0 time_to_failure_hours && double_lt time_to_failure_hours 0x4086800000000000
    then "CRITICAL"  -- below 720.0
    else if double_lt 0x3E45798EE2308C3A growth_rate  -- 1e-8
    then "HIGH"
    else if double_lt 0x3DDB7CDFD9D7BDBB growth_rate  -- 1e-10
    then "MEDIUM"
    else if double_lt 0x3D719799812DEA11 growth_rate  -- 1e-12
    then "LOW"
    else "NEGLIGIBLE"

module _ (lib : MathLibrary) (params : ParisLawParameters) where
  -- `da`, the growth in a step of `dt` seconds from time `t` on.
  unfoldable pub growth : ℕ → ℕ → ℕ → ℕ
  growth a t dt =
      let half : ℕ = 0x3FE0000000000000 in
      let two : ℕ = 0x4000000000000000 in
      let middle = add t (mul half dt) in
      let k1 = runge_kutta_step lib params a t dt in
      let k2 = runge_kutta_step lib params (add a (mul (mul half k1) dt)) middle dt in
      let k3 = runge_kutta_step lib params (add a (mul (mul half k2) dt)) middle dt in
      let k4 = runge_kutta_step lib params (add a (mul k3 dt)) (add t dt) dt in
      div (mul (add (add (add k1 (mul two k2)) (mul two k3)) k4) dt) 0x4018000000000000  -- 6.0

  -- The first half of a round: the six push_back.
  unfoldable pub record_step : ℕ → ℕ → Progress → Progress
  record_step i dt p =
      let delta_k = stress_range lib params p.a in
      record p {
        time_hours = p.time_hours ++ div (mul (of_nat i) dt) hour ∷ [];
        crack_length = p.crack_length ++ p.a ∷ [];
        crack_depth = p.crack_depth ++ p.depth ∷ [];
        crack_width = p.crack_width ++ p.width ∷ [];
        stress_intensity_range = p.stress_intensity_range ++ delta_k ∷ [];
        crack_growth_rate =
            p.crack_growth_rate ++ calculate_crack_growth_rate lib params delta_k ∷ [];
      }

  -- The growth from the first lengths a0, depth0 and width0 on.
  unfoldable pub grow : ℕ → ℕ → ℕ → ℕ → ℕ → Progress → Progress
  grow i dt a0 depth0 width0 p =
      let a = add p.a (growth p.a (mul (of_nat i) dt) dt) in
      record p {
        a = a;
        depth = add depth0 (mul (sub a a0) 0x3FD999999999999A);  -- 0.4
        width = add width0 (mul (sub a a0) 0x3FD0000000000000);  -- 0.25
      }

  -- The rounds that are left from the i-th on.
  unfoldable pub predict_loop : ℕ → ℕ → ℕ → ℕ → ℕ → ℕ → ℕ → Progress → Progress
  predict_loop zero i time_steps dt a0 depth0 width0 p = p
  predict_loop (suc left) i time_steps dt a0 depth0 width0 p =
      let recorded = record_step i dt p in
      let grown = grow i dt a0 depth0 width0 recorded in
      let failed = record grown { time_to_failure_hours = div (mul (of_nat i) dt) hour } in
      let later = predict_loop left (i + 1) time_steps dt a0 depth0 width0 grown in
      if ltb i time_steps
      then if double_le (critical_crack_length lib params) grown.a then failed else later
      else recorded

-- The value 720 hours ahead, or the last one of a shorter vector.
unfoldable pub at_720h : ℕ → List ℕ → List ℕ → ℕ
unfolding last_or
at_720h idx_720 crack_length values =
    if ltb idx_720 (length crack_length) then get_or values idx_720 0 else last_or values 0

abbrev or_default : ℕ → ℕ → ℕ
or_default x default = if double_lt 0 x then x else default

-- `dt`, in seconds.
unfoldable pub step_seconds : ℕ → ℕ → ℕ
step_seconds time_horizon_hours time_steps =
    div (mul (of_nat time_horizon_hours) hour) (of_nat time_steps)

abbrev pub start_length : CrackInfo → ℕ
start_length crack = or_default crack.total_length 0x3F50624DD2F1A9FC  -- 0.001

abbrev pub start_depth : CrackInfo → ℕ
start_depth crack = or_default crack.max_depth 0x3F40624DD2F1A9FC  -- 0.0005

abbrev pub start_width : CrackInfo → ℕ
start_width crack = or_default crack.max_width 0x3F1A36E2EB1C432D  -- 0.0001

abbrev pub first_progress : CrackInfo → Progress
first_progress crack = record {
  a = start_length crack;
  depth = start_depth crack;
  width = start_width crack;
  time_hours = [];
  crack_length = [];
  crack_depth = [];
  crack_width = [];
  stress_intensity_range = [];
  crack_growth_rate = [];
  time_to_failure_hours = no_failure;
}

-- The parameters in which `predict` has noted the first length.
abbrev pub with_first_length : ParisLawParameters → CrackInfo → ParisLawParameters
with_first_length params crack = record params { initial_crack_length = start_length crack }

-- What follows the loop: `ttf` is the life that was estimated.
unfoldable pub conclude : ParisLawParameters → ℕ → ℕ → ℕ → ℕ → ℕ → Progress → ParisLawResult
unfolding at_720h assess_risk_level
conclude params a0 critical_length ttf time_horizon_hours time_steps p =
    let idx_720 = min time_steps (720 * time_steps / time_horizon_hours) in
    let time_to_failure_hours =
      if double_lt p.time_to_failure_hours 0 then ttf else p.time_to_failure_hours in
    record {
      time_hours = p.time_hours;
      crack_length = p.crack_length;
      crack_depth = p.crack_depth;
      crack_width = p.crack_width;
      stress_intensity_range = p.stress_intensity_range;
      crack_growth_rate = p.crack_growth_rate;
      predicted_length_720h = at_720h idx_720 p.crack_length p.crack_length;
      predicted_depth_720h = at_720h idx_720 p.crack_length p.crack_depth;
      predicted_width_720h = at_720h idx_720 p.crack_length p.crack_width;
      time_to_failure_hours = time_to_failure_hours;
      confidence =
          if double_lt 0 ttf && double_lt ttf (of_nat time_horizon_hours)
          then 0x3FECCCCCCCCCCCCD  -- 0.9
          else if double_lt 0x3FE0000000000000 (div a0 critical_length)
          then 0x3FE999999999999A  -- 0.8
          else 0x3FE8000000000000;  -- 0.75
      risk_level = assess_risk_level time_to_failure_hours p.crack_growth_rate;
      parameters = params;
    }

module _ (lib : MathLibrary) where
  unfoldable pub progress : ParisLawParameters → CrackInfo → ℕ → ℕ → Progress
  progress params crack time_horizon_hours time_steps =
      predict_loop lib params (suc time_steps) 0 time_steps
        (step_seconds time_horizon_hours time_steps) (start_length crack) (start_depth crack)
        (start_width crack) (first_progress crack)

  -- The parameters afterwards, and the result. It is undefined behaviour to divide by a horizon of 0,
  -- and if 720 * time_steps is no `int`. The result keeps the parameters of before the call.
  unfoldable pub predict :
      ParisLawParameters → CrackInfo → ℕ → ℕ → Outcome (ParisLawParameters × ParisLawResult)
  unfolding conclude
  predict params crack time_horizon_hours time_steps =
      let a0 = start_length crack in
      let params' = with_first_length params crack in
      let critical_length = critical_crack_length lib params' in
      if time_horizon_hours == 0 || leb (2 ^ 31) (720 * time_steps)
      then faulted
      else elim (estimate_remaining_life lib params' a0 critical_length) [
        | none ↦ faulted
        | some ttf ↦ returned (
          params',
          conclude params a0 critical_length ttf time_horizon_hours time_steps
              (progress params' crack time_horizon_hours time_steps),
        )
      ]
