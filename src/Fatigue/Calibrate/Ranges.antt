-- ===== src/Fatigue/Calibrate/Ranges.antt =====
-- What the calibrations leave within bounds.
use ai_solo_coder_task_a.Double.{double_lt, magnitude}
use ai_solo_coder_task_a.Double.Arithmetic.{
  MathLibrary, div, double_le, double_max, double_min, of_nat,
}
use ai_solo_coder_task_a.Fatigue.{ParisLawParameters, XrdResidualStressData}
use ai_solo_coder_task_a.Fatigue.Calibrate.{
  calibrate_with_measurement, calibrate_with_xrd, clamp, measured, sum_valid,
}
use ai_solo_coder_task_a.Fatigue.Predict.{last_or}
use ai_solo_coder_task_a.LockFreeQueue.{empty}
use ai_solo_coder_task_a.Prelude.{
  Bool-cases, List, [], arith, either, inl, inr, length, ltb, refl, true, ℕ, ◌==◌, ◌∷◌, ◌≡◌, ◌⊎◌,
}

abbrev pub IsWithin : ℕ → ℕ → ℕ → Type 0
IsWithin low high x = (double_le low x ≡ true) × (double_le x high ≡ true)

le_of_lt : (a b : ℕ) → double_lt a b ≡ true → double_le a b ≡ true
unfolding double_le double_lt
le_of_lt a b h = ground arith

-- Between two bounds that are numbers.
clamp-IsWithin :
    (low high x : ℕ)
    → double_le low low ≡ true
    → double_le high high ≡ true
    → double_lt low high ≡ true
    → IsWithin low high (clamp low high x)
unfolding clamp double_min double_max
clamp-IsWithin low high x l h e = elim (Bool-cases (double_lt x high)) [
  | inr over ↦ rw (over, e) (le_of_lt low high e, h)
  | inl under ↦ elim (Bool-cases (double_lt low x)) [
    | inl above ↦ rw (under, above) (le_of_lt low x above, le_of_lt x high under)
    | inr below ↦ rw (under, below) (l, le_of_lt low high e)
  ]
]

c_bounds :
    (double_le 0x3D719799812DEA11 0x3D719799812DEA11 ≡ true)
    × (double_le 0x3E45798EE2308C3A 0x3E45798EE2308C3A ≡ true)
    × (double_lt 0x3D719799812DEA11 0x3E45798EE2308C3A ≡ true)
unfolding double_le double_lt
c_bounds = (refl, refl, refl)

factor_bounds :
    (double_le 0x3FE0000000000000 0x3FE0000000000000 ≡ true)
    × (double_le 0x4000000000000000 0x4000000000000000 ≡ true)
    × (double_lt 0x3FE0000000000000 0x4000000000000000 ≡ true)
unfolding double_le double_lt
factor_bounds = (refl, refl, refl)

-- The parameters with another C, the old one or one between 1e-12 and 1e-8.
abbrev pub HasSafeC : ParisLawParameters → ParisLawParameters → Type 0
HasSafeC params params' =
    (c : ℕ) × (params' ≡ record params { paris_c = c })
    × ((c ≡ params.paris_c) ⊎ IsWithin 0x3D719799812DEA11 0x3E45798EE2308C3A c)

HasSafeC-refl : (params : ParisLawParameters) → HasSafeC params params
HasSafeC-refl params = (params.paris_c, refl, inl refl)

measured-HasSafeC :
    (lib : MathLibrary) (t0 t1 a0 a1 : ℕ) (params : ParisLawParameters)
    → HasSafeC params (measured lib t0 t1 a0 a1 params)
unfolding measured
measured-HasSafeC lib t0 t1 a0 a1 params =
    either (HasSafeC params) _
      (_, refl, inr (clamp-IsWithin _ _ _ c_bounds.0 c_bounds.1 c_bounds.2)) (HasSafeC-refl params)

-- The calibration factor is the old one, or lies between 0.5 and 2.0.
abbrev pub HasSafeFactor : ParisLawParameters → ParisLawParameters → Type 0
HasSafeFactor params params' =
    let factor = params'.residual_stress_calibration_factor in
    (factor ≡ params.residual_stress_calibration_factor)
    ⊎ IsWithin 0x3FE0000000000000 0x4000000000000000 factor

module _ (lib : MathLibrary) (params : ParisLawParameters) where
  calibrate_with_measurement-HasSafeC :
      (times lengths : List ℕ)
      → HasSafeC params (calibrate_with_measurement lib times lengths params)
  unfolding calibrate_with_measurement
  calibrate_with_measurement-HasSafeC [] lengths = HasSafeC-refl params
  calibrate_with_measurement-HasSafeC (t0 ∷ []) lengths = HasSafeC-refl params
  calibrate_with_measurement-HasSafeC (t0 ∷ t1 ∷ times) [] = HasSafeC-refl params
  calibrate_with_measurement-HasSafeC (t0 ∷ t1 ∷ times) (a0 ∷ []) = HasSafeC-refl params
  calibrate_with_measurement-HasSafeC (t0 ∷ t1 ∷ times) (a0 ∷ a1 ∷ lengths) =
      measured-HasSafeC lib t0 (last_or times t1) a0 (last_or lengths a1) params

  calibrate_with_xrd-HasSafeFactor :
      (xrd_data : List XrdResidualStressData)
      → HasSafeFactor params (calibrate_with_xrd xrd_data params)
  unfolding calibrate_with_xrd
  calibrate_with_xrd-HasSafeFactor xrd_data =
      let sums = sum_valid (0, 0, 0) xrd_data in
      let stress = params.residual_stress_parallel in
      let ratio = div (div sums.0 (of_nat sums.2)) stress in
      let bounded =
        clamp-IsWithin 0x3FE0000000000000 0x4000000000000000 ratio factor_bounds.0 factor_bounds.1
          factor_bounds.2 in
      elim (Bool-cases (length xrd_data == 0)) [
        | inl empty ↦ rw empty (inl refl)
        | inr some_data ↦ elim (Bool-cases (ltb 0 sums.2)) [
          | inr invalid ↦ rw (some_data, invalid) (inl refl)
          | inl valid ↦ elim (Bool-cases (double_lt 0x3EB0C6F7A0B5ED8D (magnitude stress))) [
            | inl rated ↦ rw (some_data, valid, rated) (inr bounded)
            | inr unrated ↦ rw (some_data, valid, unrated) (inl refl)
          ]
        ]
      ]

  -- Whatever is measured, NaN included, a calibration with measured lengths changes at most C, to a
  -- number between 1e-12 and 1e-8, and one with XRD data leaves the calibration factor as it was or
  -- between 0.5 and 2.0.
  pub calibrations_bounded :
      (times lengths : List ℕ) (xrd_data : List XrdResidualStressData)
      → HasSafeC params (calibrate_with_measurement lib times lengths params)
        × HasSafeFactor params (calibrate_with_xrd xrd_data params)
  calibrations_bounded times lengths xrd_data =
      (calibrate_with_measurement-HasSafeC times lengths, calibrate_with_xrd-HasSafeFactor xrd_data)
