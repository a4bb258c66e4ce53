-- ===== src/Fatigue/Growth.antt =====
-- `CrackPropagationModel::estimate_remaining_life`. The loop runs on fuel, one hour a round: it ends of
-- itself before the time reaches 1e8 seconds.
pub mod Ends
use ai_solo_coder_task_a.Double.{double_lt}
use ai_solo_coder_task_a.Double.Arithmetic.{MathLibrary, add, div, double_le}
use ai_solo_coder_task_a.Fatigue.{ParisLawParameters}
use ai_solo_coder_task_a.Fatigue.Stress.{runge_kutta_step}
use ai_solo_coder_task_a.Prelude.{Option, if◌then◌else◌, none, some, suc, zero, ℕ, ◌&&◌}

abbrev pub hour : ℕ
hour = 0x40AC200000000000  -- 3600.0

abbrev pub growth_fuel : ℕ
growth_fuel = 27779

module _ (lib : MathLibrary) (params : ParisLawParameters) where
  -- The time when the loop ends; `none` where the fuel does not suffice.
  unfoldable pub growth_time : ℕ → ℕ → ℕ → ℕ → Option ℕ
  growth_time zero critical_length a t = none
  growth_time (suc fuel) critical_length a t =
      let da = runge_kutta_step lib params a t hour in
      let later = growth_time fuel critical_length (add a da) (add t hour) in
      if double_lt a critical_length && double_lt t 0x4197D78400000000  -- 1e8
      then if double_lt da 0x3CD203AF9EE75616 then some (add t hour) else later  -- 1e-15
      else some t

  unfoldable pub estimate_remaining_life : ℕ → ℕ → Option ℕ
  estimate_remaining_life initial_length critical_length =
      if double_le critical_length initial_length
      then some 0
      else elim (growth_time growth_fuel critical_length initial_length 0) [
        | none ↦ none
        | some t ↦ some (div t hour)
      ]
