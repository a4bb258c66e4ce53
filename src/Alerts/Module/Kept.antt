-- ===== src/Alerts/Module/Kept.antt =====
-- What the checks of the alert manager do to the pool.
use ai_solo_coder_task_a.Alerts.Checks.{
  Thresholds, alert_statement, check_crack_thresholds, check_cracks, check_laser_data,
  check_vibration_data, enqueue_saved, insert_alert, is_anomaly, save_alert, save_all,
  vibration_alert,
}
use ai_solo_coder_task_a.Common.{Alert, AlertType, CrackInfo, LaserMicroscopeData, VibrationData}
use ai_solo_coder_task_a.Database.{Database, Postgres, release}
use ai_solo_coder_task_a.Database.Inserts.{insert_row}
use ai_solo_coder_task_a.Outcome.{Outcome, faulted, returned, thrown, ◌>>=◌}
use ai_solo_coder_task_a.Prelude.{
  List, Option, [], either, none, refl, some, subst, sym, ℕ, ◌∷◌, ◌≡◌,
}

module _ (pg : Postgres) (clock : AlertType → ℕ) where
  -- If the operation returns, then with the connections `available`.
  abbrev pub Keeps : {X : Type 0} → (X → Database pg) → List ℕ → Outcome (Option X) → Type 0
  Keeps database available (returned (some x)) = (database x).available ≡ available
  Keeps database available (returned none) = Unit
  Keeps database available (thrown e) = Unit
  Keeps database available faulted = Unit

  abbrev pub Checked : Type 0
  Checked = Database pg × List Alert

  pub Keeps-bind :
      {X Y : Type 0} (f : X → Database pg) (g : Y → Database pg) (available : List ℕ)
      (o : Outcome (Option X)) (k : Option X → Outcome (Option Y))
      → Keeps f available o
      → (k none ≡ returned none)
      → ((x : X) → (f x).available ≡ available → Keeps g available (k (some x)))
      → Keeps g available (o >>= k)
  Keeps-bind f g available (returned none) k h e hk = subst (Keeps g available) (sym e) tt
  Keeps-bind f g available (returned (some x)) k h e hk = hk x h
  Keeps-bind f g available (thrown e') k h e hk = tt
  Keeps-bind f g available faulted k h e hk = tt

  save_alert-Keeps :
      (alert : Alert) (db : Database pg) (queue : List Alert)
      → Keeps {X = Checked} (λ r. r.0) db.available (save_alert pg clock alert db queue)
  unfolding save_alert insert_alert enqueue_saved release
  save_alert-Keeps alert db queue = go db.available db.server
    where
      go :
          (available : List ℕ) (server : _)
          → Keeps {X = Checked}
              (λ r. r.0)
              available
              (save_alert pg clock alert (record { available = available; server = server }) queue)
      go [] server = tt
      go (conn ∷ available) server =
          elim (alert_statement pg clock alert)
            as (λ o.
              Keeps {X = Checked} (λ r. r.0) (conn ∷ available)
                ((o >>= λ query. returned (
                    some (
                      release pg conn (record { available = available; server = server })
                        (insert_row pg query conn server))))
                  >>= λ saved. returned (enqueue_saved pg clock alert saved queue))) [
                    | returned query ↦ refl
                    | thrown e ↦ tt
                    | faulted ↦ tt
                  ]

  save_all-Keeps :
      (sensor_id : ℕ) (alerts : List Alert) (db : Database pg) (queue : List Alert)
      → Keeps {X = Checked} (λ r. r.0) db.available (save_all pg clock sensor_id alerts db queue)
  unfolding save_all
  save_all-Keeps sensor_id [] db queue = refl
  save_all-Keeps sensor_id (alert ∷ alerts) db queue =
      Keeps-bind (λ (r : Checked). r.0) (λ (r : Checked). r.0) db.available
        (save_alert pg clock (record alert { sensor_id = some sensor_id }) db queue) _
        (save_alert-Keeps (record alert { sensor_id = some sensor_id }) db queue) refl
        (λ r e.
          subst
            (λ available.
              Keeps {X = Checked} (λ r'. r'.0) available
                (save_all pg clock sensor_id alerts r.0 r.1))
            e (save_all-Keeps sensor_id alerts r.0 r.1))

  check_cracks-Keeps :
      (t : Thresholds) (sensor_id : ℕ) (cracks : List CrackInfo) (db : Database pg)
      (queue : List Alert)
      → Keeps {X = Checked}
          (λ r. r.0)
          db.available
          (check_cracks pg clock t sensor_id cracks db queue)
  unfolding check_cracks
  check_cracks-Keeps t sensor_id [] db queue = refl
  check_cracks-Keeps t sensor_id (crack ∷ cracks) db queue =
      go (check_crack_thresholds pg clock t crack) (check_cracks-Keeps t sensor_id cracks)
    where
      go :
          (raised : Outcome (List Alert))
          → ((db' : Database pg) (queue' : List Alert)
              → Keeps {X = Checked}
                  (λ r. r.0)
                  db'.available
                  (check_cracks pg clock t sensor_id cracks db' queue'))
          → Keeps {X = Checked}
              (λ r. r.0)
              db.available
              (raised >>= λ alerts. save_all pg clock sensor_id alerts db queue >>= λ r. elim r [
                | none ↦ returned none
                | some (db', queue') ↦ check_cracks pg clock t sensor_id cracks db' queue'
              ])
      go (returned alerts) later =
          Keeps-bind (λ (r : Checked). r.0) (λ (r : Checked). r.0) db.available
            (save_all pg clock sensor_id alerts db queue) _
            (save_all-Keeps sensor_id alerts db queue) refl
            (λ r e.
              subst
                (λ available.
                  Keeps {X = Checked} (λ r'. r'.0) available
                    (check_cracks pg clock t sensor_id cracks r.0 r.1))
                e (later r.0 r.1))
      go (thrown e) later = tt
      go faulted later = tt

  pub check_laser_data-Keeps :
      (t : Thresholds) (d : LaserMicroscopeData (pg.Json)) (db : Database pg) (queue : List Alert)
      → Keeps {X = Checked} (λ r. r.0) db.available (check_laser_data pg clock t d db queue)
  unfolding check_laser_data
  check_laser_data-Keeps t d db queue =
      either (Keeps {X = Checked} (λ r. r.0) db.available) d.crack_detected
        (check_cracks-Keeps t d.sensor_id d.cracks db queue) refl

  pub check_vibration_data-Keeps :
      (d : VibrationData (pg.Json)) (db : Database pg) (queue : List Alert)
      → Keeps {X = Checked} (λ r. r.0) db.available (check_vibration_data pg clock d db queue)
  unfolding check_vibration_data
  check_vibration_data-Keeps d db queue =
      either (Keeps {X = Checked} (λ r. r.0) db.available) (is_anomaly pg clock d)
        (save_alert-Keeps (vibration_alert pg clock d) db queue) refl
