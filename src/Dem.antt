-- ===== src/Dem.antt =====
-- backend/include/dem_simulation.h: the particles, contacts, parameters and results of the filling
-- simulation. A `double` is its bit pattern; an `int` that counts or numbers is the number itself.
pub mod Vectors
pub mod Forces
pub mod Seeding
pub mod Steps
pub mod Rates
pub mod Run
pub mod Module
use ai_solo_coder_task_a.Common.{RepairMaterial}
use ai_solo_coder_task_a.Prelude.{Bool, List, ℕ}

-- `std::array<double, 3>`
abbrev pub Vector : Type 0
Vector = ℕ × ℕ × ℕ

pub record DemParticle : Type 0 where
  pub position : Vector
  pub velocity : Vector
  pub force : Vector
  pub radius : ℕ
  pub mass : ℕ
  pub material_id : ℕ
  pub is_boundary : Bool
  pub is_fixed : Bool
  pub id : ℕ

pub record DemContact : Type 0 where
  pub particle_a : ℕ
  pub particle_b : ℕ
  pub normal : Vector
  pub overlap : ℕ
  pub normal_force : ℕ
  pub tangent_force : Vector

pub record DemParameters : Type 0 where
  pub youngs_modulus : ℕ
  pub poissons_ratio : ℕ
  pub density : ℕ
  pub restitution_coeff : ℕ
  pub friction_coeff : ℕ
  pub adhesion_coeff : ℕ
  pub time_step : ℕ
  pub gravity : ℕ
  pub damping_coeff : ℕ
  pub min_particle_radius : ℕ
  pub max_particle_radius : ℕ
  pub bond_strength : ℕ
  pub surface_energy : ℕ

pub record DemGeometry : Type 0 where
  pub crack_origin : Vector
  pub crack_length : ℕ
  pub crack_depth : ℕ
  pub crack_width : ℕ
  pub crack_angle : ℕ
  pub boundary_points : List Vector

pub record DemResult : Type 0 where
  pub particles : List DemParticle
  pub total_steps : ℕ
  pub simulation_time : ℕ
  pub filling_rate : ℕ
  pub average_packing_density : ℕ
  pub bonding_strength : ℕ
  pub surface_smoothness : ℕ
  pub durability_score : ℕ
  pub particle_count : ℕ
  pub contact_count : ℕ
  pub max_force : ℕ
  pub avg_force : ℕ
  pub porosity : ℕ
  pub energy_history : List ℕ
  pub force_history : List ℕ
  pub parameters : DemParameters

-- The state of a `DEMSimulation`. Of the generator `rng_` it is the number of draws made.
pub record DemSimulation (Json : Type 0) : Type 0 where
  pub params : DemParameters
  pub geometry : DemGeometry
  pub particles : List DemParticle
  pub contacts : List DemContact
  pub rng : ℕ
  pub material : RepairMaterial Json

-- What the simulation takes from the C++ library: <cmath>, and the n-th number of a uniform
-- distribution between two bounds.
pub record DemLibrary : Type 0 where
  pub sqrt : ℕ → ℕ
  pub pow : ℕ → ℕ → ℕ
  pub atan2 : ℕ → ℕ → ℕ
  pub uniform : ℕ → ℕ → ℕ → ℕ
