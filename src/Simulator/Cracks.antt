-- ===== src/Simulator/Cracks.antt =====
-- The points and cracks of the simulator's payloads, read by the server's parser.
use ai_solo_coder_task_a.Common.{CrackInfo, Point3D}
use ai_solo_coder_task_a.Prelude.{
  All, List, [], append-nil, append_assoc, arith, length, map, none, some, sym, ℕ, ◌++◌, ◌<◌, ◌^◌,
  ◌∷◌, ◌≡◌,
}
use ai_solo_coder_task_a.Profinet.Cursor.Encodes.{
  Encodes, Encodes-bind, Encodes-double, Encodes-many, Encodes-pure, Encodes-u32, concat,
}
use ai_solo_coder_task_a.Profinet.Payload.{read_crack, read_point}
use ai_solo_coder_task_a.Simulator.Encode.{appends}
use ai_solo_coder_task_a.Simulator.Packet.{
  DrawnCrack, DrawnPoint, append_crack, append_cracks, append_point, append_points, d_curvature,
  d_one, d_zero,
}

abbrev pub IsU32 : ℕ → Type 0
IsU32 n = n < 2 ^ 32

abbrev pub IsU64 : ℕ → Type 0
IsU64 n = n < 2 ^ 64

abbrev pub PointFits : DrawnPoint → Type 0
PointFits p = IsU64 p.x × IsU64 p.y × IsU64 p.z × IsU64 p.depth × IsU64 p.width

abbrev pub CrackFits : DrawnCrack → Type 0
CrackFits c =
    IsU64 c.max_depth
    × IsU64 c.max_width
    × IsU64 c.total_length
    × IsU32 (length c.points)
    × All PointFits c.points

-- The point and the crack that the server is to see.
abbrev pub point_of : DrawnPoint → Point3D
point_of p = record {
  x = p.x;
  y = p.y;
  z = p.z;
  depth = p.depth;
  width = p.width;
  normal = some (d_zero, d_zero, d_one);
  curvature = some d_curvature;
}

abbrev pub crack_of : ℕ → DrawnCrack → CrackInfo
crack_of porcelain_id c = record {
  id = none;
  porcelain_id = porcelain_id;
  crack_code = "";
  max_depth = c.max_depth;
  max_width = c.max_width;
  total_length = c.total_length;
  status = "";
  points = map point_of c.points;
  detected_at = 0;
}

point_bytes : DrawnPoint → List ℕ
point_bytes p = append_point [] p

append_point_lem : (buf : List ℕ) (p : DrawnPoint) → append_point buf p ≡ buf ++ point_bytes p
unfolding append_point point_bytes
append_point_lem buf p = simp appends

append_points_lem :
    (buf : List ℕ) (points : List DrawnPoint)
    → append_points buf points ≡ buf ++ concat point_bytes points
unfolding append_points
append_points_lem buf [] = sym (append-nil buf)
append_points_lem buf (p ∷ points) =
    rw (append_point_lem buf p, append_points_lem (buf ++ point_bytes p) points)
      (append_assoc buf (point_bytes p) (concat point_bytes points))

read_point-Encodes :
    (p : DrawnPoint) → PointFits p → Encodes read_point (point_bytes p) (point_of p)
unfolding read_point point_bytes append_point
read_point-Encodes p (hx, hy, hz, hd, hw) = simp appends (
    Encodes-bind _ (Encodes-double p.x hx) (
      Encodes-bind _ (Encodes-double p.y hy) (
        Encodes-bind _ (Encodes-double p.z hz) (
          Encodes-bind _ (Encodes-double p.depth hd) (
            Encodes-bind _ (Encodes-double p.width hw) (
              Encodes-bind _ (Encodes-double d_zero (omega arith)) (
                Encodes-bind _ (Encodes-double d_zero (omega arith)) (
                  Encodes-bind _ (Encodes-double d_one (omega arith)) (
                    Encodes-bind _ (Encodes-double d_curvature (omega arith))
                      (Encodes-pure (point_of p)))))))))))

unfoldable pub crack_bytes : DrawnCrack → List ℕ
crack_bytes c = append_crack [] c

append_crack_lem : (buf : List ℕ) (c : DrawnCrack) → append_crack buf c ≡ buf ++ crack_bytes c
unfolding append_crack crack_bytes
append_crack_lem buf c = simp (append_points_lem, appends)

pub append_cracks_lem :
    (buf : List ℕ) (cracks : List DrawnCrack)
    → append_cracks buf cracks ≡ buf ++ concat crack_bytes cracks
unfolding append_cracks
append_cracks_lem buf [] = sym (append-nil buf)
append_cracks_lem buf (c ∷ cracks) =
    rw (append_crack_lem buf c, append_cracks_lem (buf ++ crack_bytes c) cracks)
      (append_assoc buf (crack_bytes c) (concat crack_bytes cracks))

pub read_crack-Encodes :
    (porcelain_id : ℕ) (c : DrawnCrack)
    → CrackFits c
    → Encodes (read_crack porcelain_id) (crack_bytes c) (crack_of porcelain_id c)
unfolding read_crack crack_bytes append_crack
read_crack-Encodes porcelain_id c (hd, hw, hl, hn, hp) =
    simp (append_points_lem, appends)
      (rw (← append-nil (concat point_bytes c.points)) (
        Encodes-bind _ (Encodes-double c.max_depth hd) (
          Encodes-bind _ (Encodes-double c.max_width hw) (
            Encodes-bind _ (Encodes-double c.total_length hl) (
              Encodes-bind _ (Encodes-u32 (length c.points) hn) (
                Encodes-bind _
                  (Encodes-many point_bytes point_of PointFits read_point-Encodes c.points hp)
                  (Encodes-pure (crack_of porcelain_id c))))))))
