-- ===== src/Database/Balance.antt =====
-- What the operations do to the pool.
use ai_solo_coder_task_a.Alerts.Module.{logged}
use ai_solo_coder_task_a.Common.{
  AlertStatus, CrackInfo, CrackPrediction, LaserMicroscopeData, Point3D, RepairSimulation,
  VibrationData,
}
use ai_solo_coder_task_a.Database.{
  Database, Postgres, acquire, minus_one, release, transaction_command,
}
use ai_solo_coder_task_a.Database.Answers.{GivesUp, insert_all-GivesUp}
use ai_solo_coder_task_a.Database.Batches.{
  batch, batch_body, batch_insert_crack_detections, batch_insert_laser_data,
  batch_insert_vibration_data, crack_points_body, detections_body, finish, give_up, insert_all,
  insert_crack_points,
}
use ai_solo_coder_task_a.Database.Inserts.{
  insert_crack, insert_laser_data, insert_prediction, insert_simulation, insert_vibration_data,
  log_profinet_packet, update_alert_status,
}
use ai_solo_coder_task_a.Database.Queries.{
  Numbers, get_active_alerts, get_crack, get_crack_points, get_cracks_by_porcelain,
}
use ai_solo_coder_task_a.Prelude.{
  All, Bool, Bool-cases, List, Option, String, [], ap, arith, false, inl, inr, length, none, refl,
  some, true, ℕ, ◌∙◌, ◌∷◌, ◌≡◌, ◌⊎◌,
}

module _ (pg : Postgres) where
  open pg use {Server, Json}

  -- The operation waits only where no connection is available, and otherwise leaves the pool as it was.
  abbrev pub Balanced : {A : Type 0} → (Database pg → Option (A × Database pg)) → Type 0
  Balanced {A} operation =
      (db : Database pg)
      → (db.available ≡ []) × (operation db ≡ none)
        ⊎ ((a : A) × (server : Server) × (operation db ≡ some (a, record db { server = server })))

  -- The rest of an operation ends with the connection that it was given among those available.
  abbrev Releases : {A : Type 0} → (ℕ → Database pg → A × Database pg) → Type 0
  Releases {A} rest =
      (conn : ℕ) (db : Database pg)
      → (a : A) × (server : Server) × (rest conn db
          ≡ (a, record { available = conn ∷ db.available; server = server }))

  cases-Balanced :
      {A : Type 0} (operation : Database pg → Option (A × Database pg))
      → ((server : Server) → operation (record { available = []; server = server }) ≡ none)
      → ((conn : ℕ) (available : List ℕ) (server : Server)
          → (a : A) × (server' : Server) × (operation
                (record { available = conn ∷ available; server = server })
              ≡ some (a, record { available = conn ∷ available; server = server' })))
      → Balanced operation
  cases-Balanced operation waits runs db = go db.available db.server
    where
      go :
          (available : List ℕ) (server : Server)
          → (available ≡ [])
              × (operation (record { available = available; server = server }) ≡ none)
            ⊎ ((a : _) × (server' : Server) × (operation
                    (record { available = available; server = server })
                  ≡ some (a, record { available = available; server = server' })))
      go [] server = inl (refl, waits server)
      go (conn ∷ available) server = inr (runs conn available server)

  acquire-Balanced :
      {A : Type 0} (rest : ℕ → Database pg → A × Database pg)
      → Releases rest
      → Balanced (acquire pg rest)
  unfolding acquire
  acquire-Balanced rest releases =
      cases-Balanced (acquire pg rest) (λ server. refl)
        (λ conn available server.
          let (a, server', e) = releases conn (record { available = available; server = server }) in
          (a, server', ap some e))

  finish-Releases :
      {A : Type 0} (good bad : A) (conn : ℕ) (db : Database pg) (server : Server)
      → (a : A) × (server' : Server) × (finish pg good bad conn db server
          ≡ (a, record { available = conn ∷ db.available; server = server' }))
  unfolding finish release
  finish-Releases good bad conn db server =
      let committed = transaction_command pg "COMMIT" conn server in
      elim (Bool-cases committed.0) [ inl e ↦ rw e (_, _, refl) | inr e ↦ rw e (_, _, refl) ]

  crack_points_body-Releases :
      (id : ℕ) (points : List Point3D) → Releases (crack_points_body pg id points)
  unfolding crack_points_body release
  crack_points_body-Releases id points conn db =
      let begun = transaction_command pg "BEGIN" conn db.server in
      elim (Bool-cases begun.0) [
        | inl e ↦ rw e (finish-Releases _ minus_one conn db _)
        | inr e ↦ rw e (_, _, refl)
      ]

  batch_body-Releases : (queries : List String) → Releases (batch_body pg queries)
  unfolding batch_body release
  batch_body-Releases queries conn db =
      let begun = transaction_command pg "BEGIN" conn db.server in
      elim (Bool-cases begun.0) [ inl e ↦ rw e (_, _, refl) | inr e ↦ rw e (_, _, refl) ]

  batch-Balanced : (queries : List String) → Balanced (batch pg queries)
  unfolding batch
  batch-Balanced [] db = inr (true, db.server, refl)
  batch-Balanced (query ∷ queries) db =
      acquire-Balanced (batch_body pg (query ∷ queries)) (batch_body-Releases (query ∷ queries)) db

  detections_body-Releases :
      (d : LaserMicroscopeData Json) (cracks : List CrackInfo) (crack_points : List (List Point3D))
      (id : ℕ)
      → Releases (detections_body pg d cracks crack_points id)
  unfolding detections_body release
  detections_body-Releases d cracks crack_points id conn db =
      let begun = transaction_command pg "BEGIN" conn db.server in
      elim (Bool-cases begun.0) [
        | inr e ↦ rw e (_, _, refl)
        | inl e ↦ rw e (
            go (insert_all pg d cracks crack_points id conn db begun.1)
              (insert_all-GivesUp pg d cracks crack_points id conn db begun.1))
      ]
    where
      go :
          (inserted : Server ⊎ (Bool × Database pg))
          → GivesUp pg conn db inserted
          → let done : Bool × Database pg = elim inserted [
            | inl server ↦ finish pg true false conn db server
            | inr done' ↦ done'
          ] in
            (a : Bool) × (server' : Server) × (done
              ≡ (a, record { available = conn ∷ db.available; server = server' }))
      go (inl server) h = finish-Releases true false conn db server
      go (inr done) (before, e) = (_, _, e ∙ unfold give_up in refl)

  pub insert_crack_points-Balanced :
      (id : ℕ) (points : List Point3D) → Balanced (insert_crack_points pg id points)
  unfolding insert_crack_points
  insert_crack_points-Balanced id points = acquire-Balanced _ (crack_points_body-Releases id points)

  pub insert_crack-Balanced : (crack : CrackInfo) (id : ℕ) → Balanced (insert_crack pg crack id)
  unfolding insert_crack acquire release
  insert_crack-Balanced crack id =
      cases-Balanced (insert_crack pg crack id) (λ server. refl)
        (λ conn available server. (_, _, refl))

  pub insert_laser_data-Balanced :
      (d : LaserMicroscopeData Json) → Balanced (insert_laser_data pg d)
  unfolding insert_laser_data acquire release
  insert_laser_data-Balanced d =
      cases-Balanced (insert_laser_data pg d) (λ server. refl)
        (λ conn available server. (_, _, refl))

  pub insert_vibration_data-Balanced :
      (v : VibrationData Json) → Balanced (insert_vibration_data pg v)
  unfolding insert_vibration_data acquire release
  insert_vibration_data-Balanced v =
      cases-Balanced (insert_vibration_data pg v) (λ server. refl)
        (λ conn available server. (_, _, refl))

  -- Each of four queries and of the writing operations but `insert_alert` and `log_profinet_packet`,
  -- whatever its arguments and whatever the server answers, waits for a connection only where none is
  -- available, and gives back the connection that it takes, on each of its return paths.
  pub operations-Balanced :
      (d : LaserMicroscopeData Json) (v : VibrationData Json) (crack : CrackInfo)
      (p : CrackPrediction Json) (s : RepairSimulation Json) (id : ℕ) (status : AlertStatus)
      (points : List Point3D) (ds : List (LaserMicroscopeData Json))
      (vs : List (VibrationData Json)) (cracks : List CrackInfo)
      (crack_points : List (List Point3D)) (numbers : Numbers) (limit : ℕ)
      → Balanced (insert_laser_data pg d)
        × Balanced (insert_vibration_data pg v)
        × Balanced (insert_crack pg crack id)
        × Balanced (insert_prediction pg p)
        × Balanced (insert_simulation pg s)
        × Balanced (update_alert_status pg id status)
        × Balanced (insert_crack_points pg id points)
        × Balanced (batch_insert_laser_data pg ds)
        × Balanced (batch_insert_vibration_data pg vs)
        × Balanced (batch_insert_crack_detections pg d cracks crack_points id)
        × Balanced (get_cracks_by_porcelain pg numbers id limit)
        × Balanced (get_crack pg numbers id)
        × Balanced (get_crack_points pg numbers id)
        × Balanced (get_active_alerts pg numbers)
  unfolding insert_prediction insert_simulation update_alert_status batch_insert_laser_data
      batch_insert_vibration_data batch_insert_crack_detections get_cracks_by_porcelain get_crack
      get_crack_points get_active_alerts acquire release
  operations-Balanced d v crack p s id status points ds vs cracks crack_points numbers limit = (
    insert_laser_data-Balanced d,
    insert_vibration_data-Balanced v,
    insert_crack-Balanced crack id,
    cases-Balanced (insert_prediction pg p) (λ server. refl)
        (λ conn available server. (_, _, refl)),
    cases-Balanced (insert_simulation pg s) (λ server. refl)
        (λ conn available server. (_, _, refl)),
    cases-Balanced (update_alert_status pg id status) (λ server. refl)
        (λ conn available server. (_, _, refl)),
    insert_crack_points-Balanced id points,
    batch-Balanced _,
    batch-Balanced _,
    acquire-Balanced _ (detections_body-Releases d cracks crack_points id),
    cases-Balanced (get_cracks_by_porcelain pg numbers id limit) (λ server. refl)
        (λ conn available server. (_, _, refl)),
    cases-Balanced (get_crack pg numbers id) (λ server. refl)
        (λ conn available server. (_, _, refl)),
    cases-Balanced (get_crack_points pg numbers id) (λ server. refl)
        (λ conn available server. (_, _, refl)),
    cases-Balanced (get_active_alerts pg numbers) (λ server. refl)
        (λ conn available server. (_, _, refl)),
  )

  module _ (payload_text : List ℕ → Option String) (source_ip dest_ip : String) (frame_id : ℕ) where
    -- `log_profinet_packet` for one payload after the other, each exception caught by the caller.
    abbrev pub log_all : List (List ℕ) → Database pg → Option (Database pg)
    log_all [] db = some db
    log_all (payload ∷ payloads) db =
        elim (log_profinet_packet pg payload_text source_ip dest_ip frame_id payload db) [
          | none ↦ none
          | some (logged, db') ↦ log_all payloads db'
        ]

    leaks_one :
        (payload : List ℕ) (conn : ℕ) (available : List ℕ) (server : Server)
        → payload_text payload ≡ none
        → log_profinet_packet pg payload_text source_ip dest_ip frame_id payload
            (record { available = conn ∷ available; server = server })
          ≡ some (false, record { available = available; server = server })
    unfolding log_profinet_packet acquire
    leaks_one payload conn available server e = cc

    leaks :
        (payloads : List (List ℕ)) (available : List ℕ) (server : Server)
        → All (λ payload. payload_text payload ≡ none) payloads
        → length payloads ≡ length available
        → log_all payloads (record { available = available; server = server })
          ≡ some (record { available = []; server = server })
    leaks [] [] server h e = refl
    leaks [] (conn ∷ available) server h e = absurd (omega arith)
    leaks (payload ∷ payloads) [] server h e = absurd (omega arith)
    leaks (payload ∷ payloads) (conn ∷ available) server (h, hs) e = cc (
      leaks_one payload conn available server h,
      leaks payloads available server hs (omega arith),
    )

    -- `log_profinet_packet` loses a connection with each payload whose JSON text
    -- cannot be made: as many such payloads as there are connections use up the pool, nothing was sent
    -- to the server, and every later operation, here the insertion of a crack, waits.
    pub log_all_leaks :
        (payloads : List (List ℕ)) (db : Database pg) (crack : CrackInfo) (porcelain_id : ℕ)
        → All (λ payload. payload_text payload ≡ none) payloads
        → length payloads ≡ length db.available
        → (db' : Database pg) × (log_all payloads db ≡ some db')
          × (db'.available ≡ [])
          × (db'.server ≡ db.server)
          × (insert_crack pg crack porcelain_id db' ≡ none)
    unfolding insert_crack acquire
    log_all_leaks payloads db crack porcelain_id h e = (
      record { available = []; server = db.server },
      leaks payloads db.available db.server h e,
      refl,
      refl,
      refl,
    )
