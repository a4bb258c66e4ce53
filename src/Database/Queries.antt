-- ===== src/Database/Queries.antt =====
-- backend/src/database.cpp: the queries of cracks, their points and the alerts. A NULL is the empty text; a
-- column that a row does not have is undefined behaviour.
use Prim.Native.String.{len}
use ai_solo_coder_task_a.Common.{
  Alert, AlertType, CrackInfo, Point3D, crack_depth_exceeded, crack_propagation_risk,
  crack_width_exceeded, pending, vibration_anomaly,
}
use ai_solo_coder_task_a.Database.{Database, Postgres, acquire, has_status, release, tuples_ok}
use ai_solo_coder_task_a.Database.Statements.{show_int, text}
use ai_solo_coder_task_a.Outcome.{Outcome, or_fault, returned, ◌>>=◌}
use ai_solo_coder_task_a.Prelude.{
  List, Option, String, [], false, get_elem?, if◌then◌else◌, none, some, ℕ, ◌==◌, ◌∷◌,
}
use ai_solo_coder_task_a.Text.{same_text}

-- `std::atoi` and `std::atof`.
pub record Numbers : Type 0 where
  pub atoi : String → ℕ
  pub atof : String → ℕ

module _ (pg : Postgres) (numbers : Numbers) where
  open pg use {Server, exec, atoll}
  open numbers use {atoi, atof}

  -- `PQgetvalue`
  field : List String → ℕ → Outcome String
  field row i = or_fault (get_elem? row i)

  -- The loop over the rows.
  unfoldable pub read_rows :
      {A : Type 0} → (List String → Outcome A) → List (List String) → Outcome (List A)
  read_rows read [] = returned []
  read_rows read (row ∷ rows) = do a ← read row; values ← read_rows read rows; returned (a ∷ values)

  -- What is read from the rows of an answer, where there are any to read from.
  unfoldable pub select :
      {A : Type 0} → String → (List (List String) → Outcome A) → A → ℕ → Server → Outcome A × Server
  unfolding has_status
  select query read otherwise conn server =
      let answer = exec conn query server in
      (
        elim answer.0 [
          | none ↦ returned otherwise
          | some result ↦
              if has_status tuples_ok result then read result.rows else returned otherwise
        ],
        answer.1,
      )

  crack_of_row : List String → Outcome CrackInfo
  unfolding field
  crack_of_row row = do
    id ← field row 0
    porcelain_id ← field row 1
    crack_code ← field row 2
    max_depth ← field row 3
    max_width ← field row 4
    total_length ← field row 5
    status ← field row 6
    returned (record {
      id = some (atoll id);
      porcelain_id = atoi porcelain_id;
      crack_code = crack_code;
      max_depth = atof max_depth;
      max_width = atof max_width;
      total_length = atof total_length;
      status = status;
      points = [];
      detected_at = 0;
    })

  unfoldable pub get_cracks_by_porcelain :
      ℕ → ℕ → Database pg → Option (Outcome (List CrackInfo) × Database pg)
  unfolding crack_of_row acquire release
  get_cracks_by_porcelain porcelain_id limit = acquire pg (λ conn db. release pg conn db (
      select
        (text (
          "SELECT id, porcelain_id, crack_code, max_depth, max_width, total_length, "
          ∷ "status, detected_date FROM cracks "
          ∷ "WHERE porcelain_id = "
          ∷ show_int porcelain_id
          ∷ " ORDER BY detected_date DESC LIMIT "
          ∷ show_int limit
          ∷ []))
        (read_rows crack_of_row) [] conn db.server))

  -- `CrackInfo result{}`
  no_crack : CrackInfo
  no_crack = record {
    id = some 0;
    porcelain_id = 0;
    crack_code = "";
    max_depth = 0;
    max_width = 0;
    total_length = 0;
    status = "";
    points = [];
    detected_at = 0;
  }

  first_crack : List (List String) → Outcome CrackInfo
  unfolding no_crack crack_of_row
  first_crack [] = returned no_crack
  first_crack (row ∷ rows) = crack_of_row row

  unfoldable pub get_crack : ℕ → Database pg → Option (Outcome CrackInfo × Database pg)
  unfolding first_crack acquire release
  get_crack crack_id = acquire pg (λ conn db. release pg conn db (
      select
        (text (
          "SELECT id, porcelain_id, crack_code, max_depth, max_width, total_length, "
          ∷ "status, detected_date FROM cracks WHERE id = "
          ∷ show_int crack_id
          ∷ []))
        first_crack no_crack conn db.server))

  normal_of_row : List String → Outcome (Option (ℕ × ℕ × ℕ))
  unfolding field
  normal_of_row row = do
    first ← field row 5
    second ← field row 6
    third ← field row 7
    returned (if len first == 0 then none else some (atof first, atof second, atof third))

  point_of_row : List String → Outcome Point3D
  unfolding field normal_of_row
  point_of_row row = do
    x ← field row 0
    y ← field row 1
    z ← field row 2
    depth ← field row 3
    width ← field row 4
    normal ← normal_of_row row
    curvature ← field row 8
    returned (record {
      x = atof x;
      y = atof y;
      z = atof z;
      depth = atof depth;
      width = atof width;
      normal = normal;
      curvature = (if len curvature == 0 then none else some (atof curvature));
    })

  unfoldable pub get_crack_points : ℕ → Database pg → Option (Outcome (List Point3D) × Database pg)
  unfolding point_of_row acquire release
  get_crack_points crack_id = acquire pg (λ conn db. release pg conn db (
      select
        (text (
          "SELECT point_3d[1], point_3d[2], point_3d[3], depth, width, "
          ∷ "normal_vector[1], normal_vector[2], normal_vector[3], curvature "
          ∷ "FROM crack_points WHERE crack_id = "
          ∷ show_int crack_id
          ∷ " ORDER BY id"
          ∷ []))
        (read_rows point_of_row) [] conn db.server))

  alert_type_of : String → AlertType
  alert_type_of type =
      if same_text type "CRACK_DEPTH_EXCEEDED"
      then crack_depth_exceeded
      else if same_text type "CRACK_WIDTH_EXCEEDED"
      then crack_width_exceeded
      else if same_text type "CRACK_PROPAGATION_RISK"
      then crack_propagation_risk
      else vibration_anomaly

  -- `sms_sent` and `websocket_sent` are not set, and nobody reads them.
  alert_of_row : List String → Outcome Alert
  unfolding field alert_type_of
  alert_of_row row = do
    id ← field row 0
    type ← field row 1
    porcelain_id ← field row 2
    crack_id ← field row 3
    sensor_id ← field row 4
    threshold_value ← field row 5
    actual_value ← field row 6
    unit ← field row 7
    message ← field row 8
    returned (record {
      id = some (atoll id);
      alert_type = alert_type_of type;
      porcelain_id = some (atoi porcelain_id);
      crack_id = some (atoi crack_id);
      sensor_id = some (atoi sensor_id);
      threshold_value = atof threshold_value;
      actual_value = atof actual_value;
      unit = unit;
      message = message;
      status = pending;
      sms_sent = false;
      websocket_sent = false;
      created_at = 0;
    })

  unfoldable pub get_active_alerts : Database pg → Option (Outcome (List Alert) × Database pg)
  unfolding alert_of_row acquire release
  get_active_alerts = acquire pg (λ conn db. release pg conn db (
      select
        (text (
          "SELECT id, alert_type, porcelain_id, crack_id, sensor_id, "
          ∷ "threshold_value, actual_value, unit, message, status, created_at "
          ∷ "FROM active_alerts ORDER BY created_at DESC LIMIT 100" ∷ []))
        (read_rows alert_of_row) [] conn db.server))
