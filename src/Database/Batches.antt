-- ===== src/Database/Batches.antt =====
-- backend/src/database.cpp: the operations that run a transaction.
use Prim.Native.String.{◌++◌ as str_append}
use ai_solo_coder_task_a.Common.{CrackInfo, LaserMicroscopeData, Point3D, VibrationData}
use ai_solo_coder_task_a.Database.{
  Database, Postgres, acquire, is_command_ok, minus_one, release, returned_id, transaction_command,
}
use ai_solo_coder_task_a.Database.Statements.{
  crack_values, laser_values, point_values, vibration_values,
}
use ai_solo_coder_task_a.Prelude.{
  Bool, List, Option, String, [], false, if◌then◌else◌, inl, inr, map, none, not, some, true, ℕ,
  ◌∷◌, ◌⊎◌,
}

module _ (pg : Postgres) where
  open pg use {Server, exec, Json}

  latest : Option ℕ → ℕ → ℕ
  latest none last_id = last_id
  latest (some id) last_id = id

  -- The loop of `insert_crack_points`: a statement that fails is passed over.
  unfoldable pub insert_points : ℕ → List Point3D → ℕ → ℕ → Server → ℕ × Server
  unfolding latest
  insert_points crack_id [] last_id conn server = (last_id, server)
  insert_points crack_id (point ∷ points) last_id conn server =
      let answer =
        exec conn (str_append (point_values pg crack_id point) ") RETURNING id") server in
      insert_points crack_id points (latest (returned_id pg answer.0) last_id) conn answer.1

  -- The commit, with the rollback where it fails.
  unfoldable pub finish : {A : Type 0} → A → A → ℕ → Database pg → Server → A × Database pg
  unfolding release
  finish good bad conn db server =
      let committed = transaction_command pg "COMMIT" conn server in
      let rolled = transaction_command pg "ROLLBACK" conn committed.1 in
      if committed.0
      then release pg conn db (good, committed.1)
      else release pg conn db (bad, rolled.1)

  unfoldable pub crack_points_body : ℕ → List Point3D → ℕ → Database pg → ℕ × Database pg
  unfolding insert_points finish release
  crack_points_body crack_id points conn db =
      let begun = transaction_command pg "BEGIN" conn db.server in
      let inserted = insert_points crack_id points minus_one conn begun.1 in
      if not begun.0
      then release pg conn db (minus_one, begun.1)
      else finish inserted.0 minus_one conn db inserted.1

  unfoldable pub insert_crack_points : ℕ → List Point3D → Database pg → Option (ℕ × Database pg)
  unfolding crack_points_body acquire
  insert_crack_points crack_id points = acquire pg (crack_points_body crack_id points)

  -- The loop of a batch: the first statement that fails ends it.
  unfoldable pub send_all : List String → ℕ → Server → Bool × Server
  send_all [] conn server = (true, server)
  send_all (query ∷ queries) conn server =
      let answer = exec conn query server in
      let rest = send_all queries conn answer.1 in
      if is_command_ok answer.0 then rest else (false, answer.1)

  -- The end of the two simple batches: the answer of the last command is not looked at.
  unfoldable pub batch_body : List String → ℕ → Database pg → Bool × Database pg
  unfolding send_all release
  batch_body queries conn db =
      let begun = transaction_command pg "BEGIN" conn db.server in
      let sent = send_all queries conn begun.1 in
      let ended = transaction_command pg (if sent.0 then "COMMIT" else "ROLLBACK") conn sent.1 in
      if not begun.0
      then release pg conn db (false, begun.1)
      else release pg conn db (sent.0, ended.1)

  unfoldable pub closed : String → String
  closed values = str_append values ")"

  unfoldable pub batch : List String → Database pg → Option (Bool × Database pg)
  unfolding batch_body acquire
  batch [] db = some (true, db)
  batch (query ∷ queries) db = acquire pg (batch_body (query ∷ queries)) db

  unfoldable pub batch_insert_laser_data :
      List (LaserMicroscopeData Json) → Database pg → Option (Bool × Database pg)
  unfolding batch closed
  batch_insert_laser_data data_list = batch (map (λ d. closed (laser_values pg d)) data_list)

  unfoldable pub batch_insert_vibration_data :
      List (VibrationData Json) → Database pg → Option (Bool × Database pg)
  unfolding batch closed
  batch_insert_vibration_data data_list =
      batch (map (λ d. closed (vibration_values pg d)) data_list)

  -- What a statement that fails leads to: the rollback, and the return of `false`.
  unfoldable pub give_up : ℕ → Database pg → Server → Bool × Database pg
  unfolding release
  give_up conn db server =
      release pg conn db (false, (transaction_command pg "ROLLBACK" conn server).1)

  -- The loop over the points of a crack: the server with which it goes on, or a return.
  unfoldable pub insert_all_points :
      ℕ → List Point3D → ℕ → Database pg → Server → Server ⊎ (Bool × Database pg)
  unfolding closed give_up
  insert_all_points crack_id [] conn db server = inl server
  insert_all_points crack_id (point ∷ points) conn db server =
      let answer = exec conn (closed (point_values pg crack_id point)) server in
      let rest = insert_all_points crack_id points conn db answer.1 in
      if is_command_ok answer.0 then rest else inr (give_up conn db answer.1)

  -- One crack and its points.
  unfoldable pub insert_detection :
      ℕ → CrackInfo → List Point3D → ℕ → Database pg → Server → Server ⊎ (Bool × Database pg)
  unfolding insert_all_points give_up
  insert_detection porcelain_id crack points conn db server =
      let answer =
        exec conn (str_append (crack_values pg crack porcelain_id) ") RETURNING id") server in
      elim (returned_id pg answer.0) [
        | none ↦ inr (give_up conn db answer.1)
        | some crack_id ↦ insert_all_points crack_id points conn db answer.1
      ]

  -- The loop over the cracks, which ends with the shorter of the two vectors.
  unfoldable pub insert_detections :
      ℕ
      → List CrackInfo
      → List (List Point3D)
      → ℕ
      → Database pg
      → Server
      → Server ⊎ (Bool × Database pg)
  unfolding insert_detection
  insert_detections porcelain_id [] crack_points conn db server = inl server
  insert_detections porcelain_id (crack ∷ cracks) [] conn db server = inl server
  insert_detections porcelain_id (crack ∷ cracks) (points ∷ crack_points) conn db server =
      elim (insert_detection porcelain_id crack points conn db server) [
        | inl server' ↦ insert_detections porcelain_id cracks crack_points conn db server'
        | inr done ↦ inr done
      ]

  -- The laser record, and then the cracks.
  unfoldable pub insert_all :
      LaserMicroscopeData Json
      → List CrackInfo
      → List (List Point3D)
      → ℕ
      → ℕ
      → Database pg
      → Server
      → Server ⊎ (Bool × Database pg)
  unfolding insert_detections give_up
  insert_all d cracks crack_points porcelain_id conn db server =
      let answer = exec conn (str_append (laser_values pg d) ") RETURNING id") server in
      elim (returned_id pg answer.0) [
        | none ↦ inr (give_up conn db answer.1)
        | some laser_id ↦ insert_detections porcelain_id cracks crack_points conn db answer.1
      ]

  unfoldable pub detections_body :
      LaserMicroscopeData Json
      → List CrackInfo
      → List (List Point3D)
      → ℕ
      → ℕ
      → Database pg
      → Bool × Database pg
  unfolding insert_all finish release
  detections_body d cracks crack_points porcelain_id conn db =
      let begun = transaction_command pg "BEGIN" conn db.server in
      let inserted : Bool × Database pg =
        elim (insert_all d cracks crack_points porcelain_id conn db begun.1) [
          | inl server ↦ finish true false conn db server
          | inr done ↦ done
        ] in
      if not begun.0 then release pg conn db (false, begun.1) else inserted

  unfoldable pub batch_insert_crack_detections :
      LaserMicroscopeData Json
      → List CrackInfo
      → List (List Point3D)
      → ℕ
      → Database pg
      → Option (Bool × Database pg)
  unfolding detections_body acquire
  batch_insert_crack_detections d cracks crack_points porcelain_id =
      acquire pg (detections_body d cracks crack_points porcelain_id)
