-- ===== src/Alerts/Module/Stored.antt =====
-- What a handler of `AlertWsModule` does to the pool where the payload is text.
use ai_solo_coder_task_a.Alerts.Module.{
  AlertWs, Surroundings, check_laser, check_vibration, finished, handle_laser, handle_vibration,
  laser_fields, logged, store_cracks, store_laser, vibration_fields,
}
use ai_solo_coder_task_a.Alerts.Module.Kept.{
  Checked, Keeps, Keeps-bind, check_laser_data-Keeps, check_vibration_data-Keeps,
}
use ai_solo_coder_task_a.Common.{CrackInfo, LaserMicroscopeData, Point3D, ProfinetPacket}
use ai_solo_coder_task_a.Database.{Database, Postgres, acquire, release}
use ai_solo_coder_task_a.Database.Balance.{
  Balanced, insert_crack-Balanced, insert_crack_points-Balanced, insert_laser_data-Balanced,
  insert_vibration_data-Balanced,
}
use ai_solo_coder_task_a.Database.Batches.{insert_crack_points}
use ai_solo_coder_task_a.Database.Inserts.{
  insert_crack, insert_laser_data, insert_vibration_data, log_profinet_packet, packet_statement,
  run_command,
}
use ai_solo_coder_task_a.Json.{JsonValues}
use ai_solo_coder_task_a.Outcome.{Outcome, returned, ◌>>=◌}
use ai_solo_coder_task_a.Pipeline.Router.{ParsedLaserMessage, ParsedVibrationMessage}
use ai_solo_coder_task_a.Prelude.{
  Bool, List, Option, String, [], ap, either, false, if◌then◌else◌, inl, inr, ltb, none, refl, some,
  subst, sym, true, ℕ, ◌&&◌, ◌^◌, ◌∙◌, ◌∷◌, ◌≡◌,
}

module _ (pg : Postgres) (values : JsonValues (pg.Json)) (env : Surroundings) where
  -- A writing operation of the database.
  pub operation-Keeps :
      {A Y : Type 0} (operation : Database pg → Option (A × Database pg)) (g : Y → Database pg)
      (db : Database pg) (k : Option (A × Database pg) → Outcome (Option Y))
      → Balanced pg operation
      → (k none ≡ returned none)
      → ((a : A) (db' : Database pg)
          → db'.available ≡ db.available
          → Keeps pg env.clock g db.available (k (some (a, db'))))
      → Keeps pg env.clock g db.available (k (operation db))
  operation-Keeps operation g db k balanced e h = elim (balanced db) [
    | inl (e₁, e₂) ↦ subst (Keeps pg env.clock g db.available) (sym (ap k e₂ ∙ e)) tt
    | inr (a, server, e₂) ↦
        subst (λ o. Keeps pg env.clock g db.available (k o)) (sym e₂)
          (h a (record db { server = server }) refl)
  ]

  crack_points-Keeps :
      {Y : Type 0} (g : Y → Database pg) (t : Bool) (id : ℕ) (points : List Point3D)
      (db : Database pg) (k : Option (ℕ × Database pg) → Outcome (Option Y))
      → (k none ≡ returned none)
      → ((a : ℕ) (db' : Database pg)
          → db'.available ≡ db.available
          → Keeps pg env.clock g db.available (k (some (a, db'))))
      → Keeps pg env.clock g db.available
          (k (if t then insert_crack_points pg id points db else some (0, db)))
  unfolding insert_crack_points
  crack_points-Keeps g true id points db k e h =
      operation-Keeps (insert_crack_points pg id points) g db k
        (insert_crack_points-Balanced pg id points) e h
  crack_points-Keeps g false id points db k e h = h 0 db refl

  pub store_cracks-Keeps :
      (porcelain_id time : ℕ) (cracks : List CrackInfo) (db : Database pg)
      → Keeps pg env.clock
          (λ (d : Database pg). d)
          db.available
          (returned (store_cracks pg values env porcelain_id time cracks db))
  unfolding store_cracks insert_crack
  store_cracks-Keeps porcelain_id time [] db = refl
  store_cracks-Keeps porcelain_id time (crack ∷ cracks) db =
      operation-Keeps (insert_crack pg (stamped crack) porcelain_id) (λ d. d) db
        (λ o. returned (elim o [
          | none ↦ none
          | some (id, db₁) ↦ elim (points_stored id db₁) [
            | none ↦ none
            | some (stored, db₂) ↦ store_cracks pg values env porcelain_id time cracks db₂
          ]
        ]))
        (insert_crack-Balanced pg (stamped crack) porcelain_id) refl
        (λ id db₁ e₁.
          subst
            (λ available.
              Keeps pg env.clock (λ (d : Database pg). d) available
                (returned (elim (points_stored id db₁) [
                  | none ↦ none
                  | some (stored, db₂) ↦ store_cracks pg values env porcelain_id time cracks db₂
                ])))
            e₁
            (crack_points-Keeps (λ d. d) (ltb 0 id && ltb id (2 ^ 63)) id crack.points db₁
              (λ o. returned (elim o [
                | none ↦ none
                | some (stored, db₂) ↦ store_cracks pg values env porcelain_id time cracks db₂
              ]))
              refl
              (λ stored db₂ e₂.
                subst
                  (λ available.
                    Keeps pg env.clock (λ (d : Database pg). d) available
                      (returned (store_cracks pg values env porcelain_id time cracks db₂)))
                  e₂ (store_cracks-Keeps porcelain_id time cracks db₂))))
    where
      stamped : CrackInfo → CrackInfo
      stamped c = record c { crack_code = env.crack_code porcelain_id; detected_at = time }

      points_stored : ℕ → Database pg → Option (ℕ × Database pg)
      points_stored id db₁ =
          if ltb 0 id && ltb id (2 ^ 63)
          then insert_crack_points pg id crack.points db₁
          else some (0, db₁)

  logged_text :
      (packet : ProfinetPacket) (rest : Database pg → Outcome (Option (AlertWs pg)))
      (s : AlertWs pg) (shown : String) (conn : ℕ) (available : List ℕ) (server : pg.Server)
      → env.payload_text packet.payload ≡ some shown
      → logged pg values env packet rest
          (record s { database = record { available = conn ∷ available; server = server } })
        ≡ rest (record {
          available = conn ∷ available;
          server =
              (run_command pg
                (packet_statement pg packet.source_ip packet.destination_ip packet.frame_id
                  packet.payload shown)
                conn
                server).1;
        })
  unfolding logged log_profinet_packet acquire release
  logged_text packet rest s shown conn available server e = cc

  logged-empty :
      (packet : ProfinetPacket) (rest : Database pg → Outcome (Option (AlertWs pg)))
      (s : AlertWs pg) (shown : String) (server : pg.Server)
      → env.payload_text packet.payload ≡ some shown
      → logged pg values env packet rest
          (record s { database = record { available = []; server = server } })
        ≡ returned none
  unfolding logged log_profinet_packet acquire release
  logged-empty packet rest s shown server e = cc

  abbrev pub Kept : List ℕ → Outcome (Option (AlertWs pg)) → Type 0
  Kept = Keeps pg env.clock (λ (s' : AlertWs pg). s'.database)

  pub logged-Kept :
      (packet : ProfinetPacket) (rest : Database pg → Outcome (Option (AlertWs pg)))
      (s : AlertWs pg) (shown : String)
      → env.payload_text packet.payload ≡ some shown
      → ((db : Database pg)
          → db.available ≡ s.database.available
          → Kept s.database.available (rest db))
      → Kept s.database.available (logged pg values env packet rest s)
  logged-Kept packet rest s shown e h = go s.database.available s.database.server h
    where
      go :
          (available : List ℕ) (server : pg.Server)
          → ((db : Database pg) → db.available ≡ available → Kept available (rest db))
          → Kept available (
              logged pg values env packet rest
                (record s { database = record { available = available; server = server } }))
      go [] server h' = subst (Kept []) (sym (logged-empty packet rest s shown server e)) tt
      go (conn ∷ available) server h' =
          subst (Kept (conn ∷ available))
            (sym (logged_text packet rest s shown conn available server e)) (h' _ refl)

  checked-Kept :
      (type : String) (fields : List (String × pg.Json)) (s : AlertWs pg) (available : List ℕ)
      (o : Outcome (Option (Checked pg env.clock)))
      → Keeps pg env.clock (λ (r : Checked pg env.clock). r.0) available o
      → Kept available (o >>= λ checked. returned (finished pg values env type fields checked s))
  unfolding finished
  checked-Kept type fields s available o h =
      Keeps-bind pg env.clock (λ (r : Checked pg env.clock). r.0) (λ (s' : AlertWs pg). s'.database)
        available o _ h refl (λ r e. e)

  -- The same operation on a database with as many connections.
  Kept-available :
      {before available : List ℕ} (o : Outcome (Option (AlertWs pg)))
      → before ≡ available
      → Kept before o
      → Kept available o
  Kept-available o e h = subst (λ available. Kept available o) e h

  pub handle_vibration-Kept :
      (msg : ParsedVibrationMessage (pg.Json)) (s : AlertWs pg) (shown : String)
      → env.payload_text msg.packet.payload ≡ some shown
      → Kept s.database.available (handle_vibration pg values env msg s)
  unfolding handle_vibration insert_vibration_data check_vibration
  handle_vibration-Kept msg s shown e =
      let d = msg.vibration_data in
      logged-Kept msg.packet
        (λ db. check_vibration pg values env d s (insert_vibration_data pg d db)) s shown e
        (λ db e₀. Kept-available _ e₀ (
          operation-Keeps (insert_vibration_data pg d) (λ (s' : AlertWs pg). s'.database) db
            (check_vibration pg values env d s) (insert_vibration_data-Balanced pg d) refl
            (λ data_id db₁ e₁. Kept-available _ e₁ (
              checked-Kept "vibration_data" (vibration_fields pg values env d) s db₁.available _
                (check_vibration_data-Keeps pg env.clock d db₁ s.alert_queue)))))

  check_laser-Kept :
      (d : LaserMicroscopeData (pg.Json)) (s : AlertWs pg) (available : List ℕ)
      (stored : Option (Database pg))
      → Keeps pg env.clock (λ (db : Database pg). db) available (returned stored)
      → Kept available (check_laser pg values env d s stored)
  unfolding check_laser
  check_laser-Kept d s available none h = tt
  check_laser-Kept d s available (some db) h = Kept-available _ h (
      checked-Kept "laser_data" (laser_fields pg values env d) s db.available _
        (check_laser_data-Keeps pg env.clock env.thresholds d db s.alert_queue))

  pub handle_laser-Kept :
      (msg : ParsedLaserMessage (pg.Json)) (s : AlertWs pg) (shown : String)
      → env.payload_text msg.packet.payload ≡ some shown
      → Kept s.database.available (handle_laser pg values env msg s)
  unfolding handle_laser insert_laser_data store_laser
  handle_laser-Kept msg s shown e =
      let d = msg.laser_data in
      logged-Kept msg.packet (λ db. store_laser pg values env d s (insert_laser_data pg d db)) s
        shown e
        (λ db e₀. Kept-available _ e₀ (
          operation-Keeps (insert_laser_data pg d) (λ (s' : AlertWs pg). s'.database) db
            (store_laser pg values env d s) (insert_laser_data-Balanced pg d) refl
            (λ data_id db₁ e₁. Kept-available _ e₁ (
              check_laser-Kept d s db₁.available _ (
                either
                  (λ stored.
                    Keeps pg env.clock (λ (db' : Database pg). db') db₁.available (returned stored))
                  d.crack_detected
                  (store_cracks-Keeps d.porcelain_id d.measurement_time d.cracks db₁) refl)))))
