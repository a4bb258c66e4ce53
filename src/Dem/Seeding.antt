-- ===== src/Dem/Seeding.antt =====
-- How a `DEMSimulation` is set up: its constructor, the geometry of the crack, the material, and the
-- particles. Numbers that the generator draws come from `uniform`, in the order of the calls.
pub mod Apart
pub mod Ids
use ai_solo_coder_task_a.Common.{
  CrackInfo, Point3D, RepairMaterial, RepairMaterialType, composite, silica, zirconia,
}
use ai_solo_coder_task_a.Dem.{
  DemGeometry, DemLibrary, DemParameters, DemParticle, DemSimulation, Vector,
}
use ai_solo_coder_task_a.Dem.Forces.{four_thirds}
use ai_solo_coder_task_a.Dem.Vectors.{vector_norm, vector_sub}
use ai_solo_coder_task_a.Double.{double_lt}
use ai_solo_coder_task_a.Double.Arithmetic.{add, mul, neg}
use ai_solo_coder_task_a.Prelude.{
  Bool, List, [], false, if◌then◌else◌, length, suc, true, zero, ℕ, ◌++◌, ◌+◌, ◌||◌, ◌∷◌,
}

pub record DemConfig : Type 0 where
  pub youngs_modulus : ℕ
  pub poissons_ratio : ℕ
  pub density : ℕ
  pub time_step : ℕ
  pub min_particle_radius : ℕ
  pub max_particle_radius : ℕ

-- The parameters that a `DEMSimulation` starts with: the configured ones, and the defaults.
unfoldable pub configured : DemConfig → DemParameters
configured cfg = record {
  youngs_modulus = cfg.youngs_modulus;
  poissons_ratio = cfg.poissons_ratio;
  density = cfg.density;
  restitution_coeff = 0x3FD3333333333333;  -- 0.3
  friction_coeff = 0x3FE0000000000000;  -- 0.5
  adhesion_coeff = 0x3E112E0BE826D695;  -- 1.0e-9
  time_step = cfg.time_step;
  gravity = 0x40239EB851EB851F;  -- 9.81
  damping_coeff = 0x3FA999999999999A;  -- 0.05
  min_particle_radius = cfg.min_particle_radius;
  max_particle_radius = cfg.max_particle_radius;
  bond_strength = 0x4197D78400000000;  -- 100e6
  surface_energy = 0x3FF0000000000000;  -- 1.0
}

abbrev material_density : RepairMaterialType → ℕ
material_density zirconia = 0x40B7020000000000  -- 5890.0
material_density silica = 0x40A1300000000000  -- 2200.0
material_density composite = 0x40AEDC0000000000  -- 3950.0

abbrev first_point : Vector → List Point3D → Vector
first_point origin [] = origin
first_point origin (p ∷ points) = (p.x, p.y, p.z)

abbrev point_positions : List Point3D → List Vector
point_positions [] = []
point_positions (p ∷ points) = (p.x, p.y, p.z) ∷ point_positions points

module _ {Json : Type 0} where
  unfoldable pub set_material_properties :
      RepairMaterial Json → DemSimulation Json → DemSimulation Json
  set_material_properties material s = record s {
    material = material;
    params = record s.params {
      youngs_modulus = 0x42304C533C000000;  -- 70e9
      density = material_density material.material_type;
      min_particle_radius =  -- particle_size_nm * 0.6 * 1e-9
          mul (mul material.particle_size_nm 0x3FE3333333333333) 0x3E112E0BE826D695;
      max_particle_radius =  -- particle_size_nm * 1.4 * 1e-9
          mul (mul material.particle_size_nm 0x3FF6666666666666) 0x3E112E0BE826D695;
    };
  }

  -- The points of an earlier crack stay among the boundary points.
  unfoldable pub set_crack_geometry :
      DemLibrary → CrackInfo → DemSimulation Json → DemSimulation Json
  set_crack_geometry lib crack s = record s {
    geometry = record {
      crack_origin = first_point s.geometry.crack_origin crack.points;
      crack_length = crack.total_length;
      crack_depth = crack.max_depth;
      crack_width = crack.max_width;
      crack_angle = lib.atan2 crack.max_depth crack.max_width;
      boundary_points = s.geometry.boundary_points ++ point_positions crack.points;
    };
  }

-- Half of a side of the crack: half_len, and half_width or half_depth, whose side is in micrometres.
unfoldable pub half_len : ℕ → ℕ
half_len side = mul side 0x3FE0000000000000

unfoldable pub half_micro : ℕ → ℕ
half_micro side = mul (mul side 0x3FE0000000000000) 0x3EB0C6F7A0B5ED8D

-- The point, and the number of draws made afterwards.
unfoldable pub random_point_in_crack : DemLibrary → DemGeometry → ℕ → Vector × ℕ
unfolding half_len half_micro
random_point_in_crack lib geometry rng =
    let len = half_len geometry.crack_length in
    let width = half_micro geometry.crack_width in
    let depth = half_micro geometry.crack_depth in
    (
      (
        add geometry.crack_origin.0 (lib.uniform rng (neg len) len),
        add geometry.crack_origin.1 (lib.uniform (rng + 1) (neg width) width),
        add geometry.crack_origin.2 (lib.uniform (rng + 2) (neg depth) depth),
      ),
      rng + 3,
    )

-- Whether a particle at `pos` would overlap one of the particles.
unfoldable pub overlapping : DemLibrary → Vector → ℕ → List DemParticle → Bool
overlapping lib pos radius [] = false
overlapping lib pos radius (p ∷ particles) =
    double_lt (vector_norm lib (vector_sub pos p.position)) (add radius p.radius)
    || overlapping lib pos radius particles

-- density * (4.0/3.0) * M_PI * pow(radius, 3), from a first factor on.
abbrev sphere : DemLibrary → ℕ → ℕ → ℕ
sphere lib factor radius =
    mul (mul (mul factor four_thirds) 0x400921FB54442D18) (lib.pow radius 0x4008000000000000)

module _ {Json : Type 0} (lib : DemLibrary) where
  abbrev new_particle : DemParameters → RepairMaterial Json → ℕ → Vector → ℕ → DemParticle
  new_particle params material i pos radius = record {
    position = pos;
    velocity = (0, 0, 0);
    force = (0, 0, sphere lib (mul 0xC0239EB851EB851F params.density) radius);  -- -9.81
    radius = radius;
    mass = sphere lib params.density radius;
    material_id = material.id;
    is_boundary = false;
    is_fixed = false;
    id = i;
  }

  -- One round: the radius and the position are drawn also where the particle is given up.
  generate_one : ℕ → DemSimulation Json → DemSimulation Json
  unfolding overlapping random_point_in_crack
  generate_one i s =
      let radius = lib.uniform s.rng s.params.min_particle_radius s.params.max_particle_radius in
      let drawn = random_point_in_crack lib s.geometry (s.rng + 1) in
      let particle = new_particle s.params s.material i drawn.0 radius in
      record s {
        particles =
            if overlapping lib drawn.0 radius s.particles
            then s.particles
            else s.particles ++ particle ∷ [];
        rng = drawn.1;
      }

  generate_from : ℕ → ℕ → DemSimulation Json → DemSimulation Json
  unfolding generate_one
  generate_from zero i s = s
  generate_from (suc left) i s = generate_from left (i + 1) (generate_one i s)

  unfoldable pub generate_particles : ℕ → DemSimulation Json → DemSimulation Json
  unfolding generate_from
  generate_particles count s = generate_from count 0 (record s { particles = [] })

abbrev pub boundary_particle : ℕ → Vector → DemParticle
boundary_particle id position = record {
  position = position;
  velocity = (0, 0, 0);
  force = (0, 0, 0);
  radius = 0x3EA0C6F7A0B5ED8D;  -- 0.5e-6
  mass = 0x412E848000000000;  -- 1e6
  material_id = 0;
  is_boundary = true;
  is_fixed = true;
  id = id;
}

-- `particles_.size() + i` counts the particles that the loop has added too.
boundary_from : ℕ → List Vector → List DemParticle → List DemParticle
boundary_from i [] particles = particles
boundary_from i (point ∷ points) particles =
    boundary_from (i + 1) points (particles ++ boundary_particle (length particles + i) point ∷ [])

unfoldable pub generate_boundary : {Json : Type 0} → DemSimulation Json → DemSimulation Json
unfolding boundary_from
generate_boundary s = record s {
  particles = boundary_from 0 s.geometry.boundary_points s.particles;
}
