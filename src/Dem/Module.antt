-- ===== src/Dem/Module.antt =====
-- backend/include/modules/dem_simulator_module.h, and the JSON document of a result.
use ai_solo_coder_task_a.Common.{CrackInfo, RepairMaterial, RepairSimulation}
use ai_solo_coder_task_a.Dem.{DemLibrary, DemParameters, DemParticle, DemResult, DemSimulation}
use ai_solo_coder_task_a.Dem.Run.{loose, run}
use ai_solo_coder_task_a.Dem.Seeding.{
  DemConfig, configured, generate_particles, set_crack_geometry, set_material_properties,
}
use ai_solo_coder_task_a.Json.{JsonValues}
use ai_solo_coder_task_a.Outcome.{Outcome, or_fault, returned, ◌>>=◌}
use ai_solo_coder_task_a.Prelude.{List, [], map, refl, ℕ, ◌/◌, ◌∷◌, ◌≡◌}

module _ {Json : Type 0} (values : JsonValues Json) where
  open values use {double, integer, array, object}

  particle_json : DemParticle → Json
  particle_json p = object (
      ("id", integer p.id)
      ∷ ("position", array (double p.position.0 ∷ double p.position.1 ∷ double p.position.2 ∷ []))
      ∷ ("radius", double p.radius)
      ∷ [])

  -- `DEMSimulation::result_to_json`
  unfoldable pub result_to_json : DemResult → Json
  unfolding particle_json loose
  result_to_json result = object (
      ("total_steps", integer result.total_steps)
      ∷ ("simulation_time", double result.simulation_time)
      ∷ ("particle_count", integer result.particle_count)
      ∷ ("contact_count", integer result.contact_count)
      ∷ ("filling_rate", double result.filling_rate)
      ∷ ("packing_density", double result.average_packing_density)
      ∷ ("bonding_strength", double result.bonding_strength)
      ∷ ("surface_smoothness", double result.surface_smoothness)
      ∷ ("durability_score", double result.durability_score)
      ∷ ("porosity", double result.porosity)
      ∷ ("max_force", double result.max_force)
      ∷ ("avg_force", double result.avg_force)
      ∷ ("energy_history", array (map double result.energy_history))
      ∷ ("force_history", array (map double result.force_history))
      ∷ ("particles", array (map particle_json (loose result.particles)))
      ∷ (
        "parameters",
        object (
            ("youngs_modulus", double result.parameters.youngs_modulus)
            ∷ ("poissons_ratio", double result.parameters.poissons_ratio)
            ∷ ("density", double result.parameters.density)
            ∷ (
              "particle_radius_range",
              array (
                  double result.parameters.min_particle_radius
                  ∷ double result.parameters.max_particle_radius
                  ∷ []),
            )
            ∷ []),
      )
      ∷ [])

pub record DemSimulationMessage (Json : Type 0) : Type 0 where
  pub crack : CrackInfo
  pub porcelain_id : ℕ
  pub material : RepairMaterial Json
  pub result : RepairSimulation Json

-- The fields of the module, and what it reads of the configuration.
pub record DemSimulatorModule (Json : Type 0) : Type 0 where
  pub default_material : RepairMaterial Json
  pub params : DemParameters
  pub max_particles : ℕ
  pub simulation_steps : ℕ

module _ {Json : Type 0} (values : JsonValues Json) (lib : DemLibrary) where
  -- The simulation of one crack. A field that the constructor leaves without a value is `unset`.
  unfoldable pub simulate :
      DemConfig → ℕ → DemSimulatorModule Json → CrackInfo → DemSimulation Json × DemResult
  unfolding configured set_crack_geometry set_material_properties generate_particles run
  simulate cfg unset m crack =
      let sim : DemSimulation Json = record {
        params = configured cfg;
        geometry = record {
          crack_origin = (unset, unset, unset);
          crack_length = unset;
          crack_depth = unset;
          crack_width = unset;
          crack_angle = unset;
          boundary_points = [];
        };
        particles = [];
        contacts = [];
        rng = 0;
        material = m.default_material;
      } in
      let with_params = record sim { params = m.params } in
      let with_crack = set_crack_geometry lib crack with_params in
      let with_material = set_material_properties m.default_material with_crack in
      run lib m.simulation_steps (generate_particles lib (m.max_particles / 10) with_material)

  unfoldable pub simulation_of : DemSimulatorModule Json → ℕ → DemResult → RepairSimulation Json
  unfolding result_to_json
  simulation_of m crack_id result = record {
    id = 0;
    crack_id = crack_id;
    material_id = m.default_material.id;
    method = "DEM-DiscreteElement";
    parameters = values.null;
    particle_count = result.particle_count;
    filling_rate = result.filling_rate;
    bonding_strength = result.bonding_strength;
    surface_smoothness = result.surface_smoothness;
    durability_score = result.durability_score;
    result = result_to_json values result;
  }

  -- `process`: the messages pushed. A crack whose id was never set is undefined behaviour.
  unfoldable pub process :
      DemConfig
      → ℕ
      → DemSimulatorModule Json
      → ℕ
      → List CrackInfo
      → Outcome (List (DemSimulationMessage Json))
  unfolding simulate simulation_of
  process cfg unset m porcelain_id [] = returned []
  process cfg unset m porcelain_id (crack ∷ cracks) =
      let done = simulate cfg unset m crack in
      or_fault crack.id >>= λ crack_id.
      let message : DemSimulationMessage Json = record {
        crack = crack;
        porcelain_id = porcelain_id;
        material = m.default_material;
        result = simulation_of m crack_id done.1;
      } in
      process cfg unset m porcelain_id cracks >>= λ messages. returned (message ∷ messages)

  -- The configured elastic constants, density, time step and radii have no effect on a simulation.
  simulate-configured :
      (cfg cfg' : DemConfig) (unset : ℕ) (m : DemSimulatorModule Json) (crack : CrackInfo)
      → simulate cfg unset m crack ≡ simulate cfg' unset m crack
  unfolding simulate
  simulate-configured cfg cfg' unset m crack = refl
