-- ===== src/Alerts/Checks/Raised.antt =====
-- Which alerts are raised, and what comes of them.
use ai_solo_coder_task_a.Alerts.Checks.{
  Thresholds, alert_statement, check_crack_thresholds, check_cracks, check_laser_data,
  check_vibration_data, crack_alert, insert_alert, push_exceeded, save_alert, save_all,
  vibration_alert,
}
use ai_solo_coder_task_a.Common.{
  Alert, AlertType, CrackInfo, LaserMicroscopeData, VibrationData, crack_depth_exceeded,
  crack_width_exceeded, pending,
}
use ai_solo_coder_task_a.Database.{Database, Postgres}
use ai_solo_coder_task_a.Double.{double_lt}
use ai_solo_coder_task_a.Outcome.{faulted, returned}
use ai_solo_coder_task_a.Prelude.{
  All, Bool, Bool-cases, List, Option-cases, [], false, if◌then◌else◌, inl, inr, map, none, refl,
  some, ℕ, ◌%◌, ◌&&◌, ◌^◌, ◌||◌, ◌∷◌, ◌≡◌,
}

-- What an alert is about: its type, the value and the threshold.
abbrev pub subject : Alert → AlertType × ℕ × ℕ
subject alert = (alert.alert_type, alert.actual_value, alert.threshold_value)

-- Those whose value is strictly above the threshold, in the order of IEEE-754 numbers.
abbrev pub above : List (AlertType × ℕ × ℕ) → List (AlertType × ℕ × ℕ)
above [] = []
above ((type, actual, threshold) ∷ subjects) =
    if double_lt threshold actual
    then (type, actual, threshold) ∷ above subjects
    else above subjects

-- An alert of the crack that has not been stored or handed out.
abbrev pub IsNewOf : CrackInfo → ℕ → Alert → Type 0
IsNewOf crack id alert =
    (alert.porcelain_id ≡ some crack.porcelain_id)
    × (alert.crack_id ≡ some (id % 2 ^ 32))
    × (alert.id ≡ none)
    × (alert.status ≡ pending)
    × (alert.sms_sent ≡ false)
    × (alert.websocket_sent ≡ false)

module _ (pg : Postgres) (clock : AlertType → ℕ) where
  open pg use {Json}

  abbrev pub exceeds : Thresholds → CrackInfo → Bool
  exceeds t crack =
      double_lt t.depth_threshold crack.max_depth || double_lt t.width_threshold crack.max_width

  abbrev pub any_exceeds : Thresholds → List CrackInfo → Bool
  any_exceeds t [] = false
  any_exceeds t (crack ∷ cracks) = exceeds t crack || any_exceeds t cracks

  -- For a crack whose id is set, the alerts raised are one for the depth if it is strictly above its
  -- threshold, and then one for the width if that is, and no others; a value that is not a number raises
  -- none. Each has the type, the value, the threshold and the porcelain that it is about and the last 32
  -- bits of the id, and is pending and not sent.
  pub check_crack_thresholds-IsNewOf :
      (t : Thresholds) (crack : CrackInfo) (id : ℕ)
      → crack.id ≡ some id
      → (alerts : List Alert) × (check_crack_thresholds pg clock t crack ≡ returned alerts)
        × (map subject alerts
            ≡ above (
                (crack_depth_exceeded, crack.max_depth, t.depth_threshold)
                ∷ (crack_width_exceeded, crack.max_width, t.width_threshold)
                ∷ []))
        × All (IsNewOf crack id) alerts
  unfolding check_crack_thresholds push_exceeded crack_alert
  check_crack_thresholds-IsNewOf t crack id e =
      elim (Bool-cases (double_lt t.depth_threshold crack.max_depth)) [
        | inl d ↦ elim (Bool-cases (double_lt t.width_threshold crack.max_width)) [
          | inl w ↦
              rw (d, w, e)
                (
                  _,
                  refl,
                  refl,
                  (
                    (refl, refl, refl, refl, refl, refl),
                    ((refl, refl, refl, refl, refl, refl), tt),
                  ),
                )
          | inr w ↦ rw (d, w, e) (_, refl, refl, ((refl, refl, refl, refl, refl, refl), tt))
        ]
        | inr d ↦ elim (Bool-cases (double_lt t.width_threshold crack.max_width)) [
          | inl w ↦ rw (d, w, e) (_, refl, refl, ((refl, refl, refl, refl, refl, refl), tt))
          | inr w ↦ rw (d, w) ([], refl, refl, tt)
        ]
      ]

  unset_faults :
      (alert : Alert) (db : Database pg) (queue : List Alert) (conn : ℕ) (available : List ℕ)
      → db.available ≡ conn ∷ available
      → alert.crack_id ≡ none
      → save_alert pg clock alert db queue ≡ faulted
  unfolding save_alert insert_alert alert_statement
  unset_faults alert db queue conn available e h = elim (Option-cases alert.porcelain_id) [
    | inl p ↦ cc
    | inr (id, p) ↦ cc
  ]

  -- No vibration alert can be stored: where a connection is available, `check_vibration_data` reads the
  -- crack id that it has not set exactly if the RMS value is above 1.0e-6 or the peak above 5.0e-6, and
  -- otherwise it does nothing.
  pub check_vibration_data_faults :
      (d : VibrationData Json) (db : Database pg) (queue : List Alert) (conn : ℕ)
      (available : List ℕ)
      → db.available ≡ conn ∷ available
      → check_vibration_data pg clock d db queue ≡ (
          if double_lt 0x3EB0C6F7A0B5ED8D d.rms_value || double_lt 0x3ED4F8B588E368F1 d.peak_value
          then faulted
          else returned (some (db, queue)))
  unfolding check_vibration_data vibration_alert
  check_vibration_data_faults d db queue conn available e =
      rw (unset_faults (vibration_alert pg clock d) db queue conn available e refl) refl

  thresholds_fault :
      (t : Thresholds) (crack : CrackInfo)
      → crack.id ≡ none
      → check_crack_thresholds pg clock t crack ≡ (if exceeds t crack then faulted else returned [])
  unfolding check_crack_thresholds push_exceeded crack_alert
  thresholds_fault t crack e = elim (Bool-cases (double_lt t.depth_threshold crack.max_depth)) [
    | inl d ↦ rw (d, e) refl
    | inr d ↦ elim (Bool-cases (double_lt t.width_threshold crack.max_width)) [
      | inl w ↦ rw (d, w, e) refl
      | inr w ↦ rw (d, w) refl
    ]
  ]

  cracks_fault :
      (t : Thresholds) (sensor_id : ℕ) (cracks : List CrackInfo) (db : Database pg)
      (queue : List Alert) (conn : ℕ) (available : List ℕ)
      → db.available ≡ conn ∷ available
      → All (λ crack. crack.id ≡ none) cracks
      → check_cracks pg clock t sensor_id cracks db queue
        ≡ (if any_exceeds t cracks then faulted else returned (some (db, queue)))
  unfolding check_cracks save_all
  cracks_fault t sensor_id [] db queue conn available e h = refl
  cracks_fault t sensor_id (crack ∷ cracks) db queue conn available e (h, hs) =
      let first = thresholds_fault t crack h in
      elim (Bool-cases (exceeds t crack)) [
        | inl x ↦ cc
        | inr x ↦ cc (cracks_fault t sensor_id cracks db queue conn available e hs)
      ]

  -- The same holds of a laser record whose cracks have no id set: where a connection is available,
  -- `check_laser_data` reads an id that was not set exactly if a crack is detected and some crack is
  -- above a threshold, and otherwise it does nothing.
  pub check_laser_data_faults :
      (t : Thresholds) (d : LaserMicroscopeData Json) (db : Database pg) (queue : List Alert)
      (conn : ℕ) (available : List ℕ)
      → db.available ≡ conn ∷ available
      → All (λ crack. crack.id ≡ none) d.cracks
      → check_laser_data pg clock t d db queue ≡ (
          if d.crack_detected && any_exceeds t d.cracks
          then faulted
          else returned (some (db, queue)))
  unfolding check_laser_data
  check_laser_data_faults t d db queue conn available e h =
      let checked = cracks_fault t d.sensor_id d.cracks db queue conn available e h in
      elim (Bool-cases d.crack_detected) [ inl x ↦ rw (x, checked) refl | inr x ↦ rw x refl ]
