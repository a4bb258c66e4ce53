-- ===== src/Fatigue/Module.antt =====
-- backend/include/modules/fatigue_predictor_module.h, and the JSON document of a prediction.
-- `CrackPropagationModel::result_to_json`
use ai_solo_coder_task_a.Common.{CrackInfo, CrackPrediction}
use ai_solo_coder_task_a.Double.Arithmetic.{MathLibrary}
use ai_solo_coder_task_a.Fatigue.{ParisLawParameters, ParisLawResult}
use ai_solo_coder_task_a.Fatigue.Predict.{predict}
use ai_solo_coder_task_a.Json.{JsonValues}
use ai_solo_coder_task_a.Outcome.{Outcome, or_fault, returned, ◌>>=◌}
use ai_solo_coder_task_a.Prelude.{List, [], length, map, ℕ, ◌∷◌}

unfoldable pub result_to_json : {Json : Type 0} → JsonValues Json → ParisLawResult → Json
result_to_json values result =
    let numbers = λ (xs : List ℕ). values.array (map values.double xs) in
    let p = result.parameters in
    values.object (
      ("time_hours", numbers result.time_hours)
      ∷ ("crack_length", numbers result.crack_length)
      ∷ ("crack_depth", numbers result.crack_depth)
      ∷ ("crack_width", numbers result.crack_width)
      ∷ ("stress_intensity_range", numbers result.stress_intensity_range)
      ∷ ("crack_growth_rate", numbers result.crack_growth_rate)
      ∷ ("predicted_length_720h", values.double result.predicted_length_720h)
      ∷ ("predicted_depth_720h", values.double result.predicted_depth_720h)
      ∷ ("predicted_width_720h", values.double result.predicted_width_720h)
      ∷ ("time_to_failure_hours", values.double result.time_to_failure_hours)
      ∷ ("confidence", values.double result.confidence)
      ∷ ("risk_level", values.text result.risk_level)
      ∷ (
        "parameters",
        values.object (
            ("C", values.double p.paris_c)
            ∷ ("m", values.double p.paris_m)
            ∷ ("stress_ratio", values.double p.stress_ratio_r)
            ∷ ("initial_crack_length", values.double p.initial_crack_length)
            ∷ ("maximum_stress", values.double p.maximum_stress)
            ∷ ("fracture_toughness", values.double p.fracture_toughness)
            ∷ ("residual_stress_parallel", values.double p.residual_stress_parallel)
            ∷ ("residual_stress_perpendicular", values.double p.residual_stress_perpendicular)
            ∷ (
              "residual_stress_calibration_factor",
              values.double p.residual_stress_calibration_factor,
            )
            ∷ (
              "enable_residual_stress_correction",
              values.boolean p.enable_residual_stress_correction,
            )
            ∷ ("xrd_calibration_points", values.integer (length p.xrd_calibration_data))
            ∷ []),
      )
      ∷ [])

pub record FatiguePredictionMessage (Json : Type 0) : Type 0 where
  pub crack : CrackInfo
  pub porcelain_id : ℕ
  pub prediction : CrackPrediction Json

module _ {Json : Type 0} (values : JsonValues Json) (lib : MathLibrary) where
  unfoldable pub prediction_of : ℕ → ℕ → ParisLawResult → CrackPrediction Json
  unfolding result_to_json
  prediction_of crack_id time_horizon_hours result = record {
    id = 0;
    crack_id = crack_id;
    model_type = "ParisLaw+ResidualStress";
    parameters = result_to_json values result;
    time_horizon_hours = time_horizon_hours;
    predicted_depth = result.predicted_depth_720h;
    predicted_width = result.predicted_width_720h;
    predicted_length = result.predicted_length_720h;
    confidence = result.confidence;
    risk_level = result.risk_level;
  }

  -- `process`: the messages pushed. `horizon` is the configured one. A crack whose id was never set is
  -- undefined behaviour.
  unfoldable pub process :
      ParisLawParameters → ℕ → ℕ → List CrackInfo → Outcome (List (FatiguePredictionMessage Json))
  unfolding prediction_of
  process params horizon porcelain_id [] = returned []
  process params horizon porcelain_id (crack ∷ cracks) =
      let p = record params { initial_crack_length = crack.total_length } in
      predict lib p crack horizon 100 >>= λ done. or_fault crack.id >>= λ crack_id.
      let message : FatiguePredictionMessage Json = record {
        crack = crack;
        porcelain_id = porcelain_id;
        prediction = prediction_of crack_id horizon done.1;
      } in
      process params horizon porcelain_id cracks >>= λ messages. returned (message ∷ messages)
