-- ===== src/Dem/Run.antt =====
-- `DEMSimulation::run`: the time steps with the statistics that are taken of each, and the result.
pub mod Stops
pub mod Rest
use ai_solo_coder_task_a.Dem.{DemLibrary, DemParticle, DemResult, DemSimulation}
use ai_solo_coder_task_a.Dem.Rates.{
  calculate_bonding_strength, calculate_durability, calculate_filling_rate,
  calculate_packing_density, calculate_porosity, calculate_surface_smoothness, count_if, sum_if,
}
use ai_solo_coder_task_a.Dem.Steps.{step}
use ai_solo_coder_task_a.Dem.Vectors.{vector_dot, vector_norm}
use ai_solo_coder_task_a.Double.{double_lt}
use ai_solo_coder_task_a.Double.Arithmetic.{add, div, double_max, mul, of_nat}
use ai_solo_coder_task_a.Prelude.{
  Bool, List, [], if◌then◌else◌, length, ltb, not, suc, zero, ℕ, ◌%◌, ◌&&◌, ◌++◌, ◌+◌, ◌==◌, ◌∷◌,
}

-- `std::max` over the particles and the sums of the inner loop.
pub record StepSums : Type 0 where
  pub kinetic : ℕ
  pub potential : ℕ
  pub step_max_force : ℕ
  pub step_sum_force : ℕ

pub record Totals : Type 0 where
  pub max_force : ℕ
  pub sum_force : ℕ
  pub energy_history : List ℕ
  pub force_history : List ℕ

module _ (lib : DemLibrary) where
  unfoldable pub sum_particles : StepSums → List DemParticle → StepSums
  sum_particles sums [] = sums
  sum_particles sums (p ∷ particles) =
      let f = vector_norm lib p.force in
      let half_mass = mul 0x3FE0000000000000 p.mass in
      let weight = mul p.mass 0x40239EB851EB851F in
      let forced = record sums {
        step_max_force = double_max sums.step_max_force f;
        step_sum_force = add sums.step_sum_force f;
      } in
      let moved = record forced {
        kinetic = add sums.kinetic (mul half_mass (vector_dot p.velocity p.velocity));
        potential = add sums.potential (mul weight p.position.2);
      } in
      sum_particles (if p.is_fixed then forced else moved) particles

  -- The test after each hundred steps: the mean speed is below 1e-12.
  unfoldable pub is_at_rest : List DemParticle → Bool
  unfolding sum_if count_if
  is_at_rest particles =
      let free = λ (p : DemParticle). not p.is_fixed in
      let avg_vel = sum_if free (λ p. vector_norm lib p.velocity) 0 particles in
      let count = count_if free particles in
      double_lt (if ltb 0 count then div avg_vel (of_nat count) else avg_vel) 0x3D719799812DEA11

  -- What one round of the loop adds to the totals.
  unfoldable pub observe : ℕ → List DemParticle → Totals → Totals
  unfolding sum_particles
  observe i particles totals =
      let sums =
        sum_particles
          (record { kinetic = 0; potential = 0; step_max_force = 0; step_sum_force = 0 })
          particles in
      let sampled = i % 10 == 0 in
      let energy = add sums.kinetic sums.potential in
      record {
        max_force = double_max totals.max_force sums.step_max_force;
        sum_force = add totals.sum_force sums.step_sum_force;
        energy_history =
            if sampled then totals.energy_history ++ energy ∷ [] else totals.energy_history;
        force_history =
            if sampled
            then totals.force_history ++ sums.step_max_force ∷ []
            else totals.force_history;
      }

-- The particles that are no boundary.
unfoldable pub loose : List DemParticle → List DemParticle
loose [] = []
loose (p ∷ particles) = let rest = loose particles in if p.is_boundary then rest else p ∷ rest

module _ {Json : Type 0} (lib : DemLibrary) where
  -- The rounds that are left, and the number of the next one.
  unfoldable pub run_loop : ℕ → ℕ → DemSimulation Json → Totals → DemSimulation Json × Totals
  unfolding observe is_at_rest
  run_loop zero i s totals = (s, totals)
  run_loop (suc left) i s totals =
      let s' = step lib s in
      let totals' = observe lib i s'.particles totals in
      let later = run_loop left (i + 1) s' totals' in
      if i % 100 == 0 && ltb 0 i && is_at_rest lib s'.particles then (s', totals') else later

  unfoldable pub report : ℕ → ℕ → DemSimulation Json → Totals → DemResult
  unfolding loose
  report max_steps particle_count s totals = record {
    particles = loose s.particles;
    total_steps = max_steps;
    simulation_time = mul (of_nat max_steps) s.params.time_step;
    filling_rate = calculate_filling_rate lib s;
    average_packing_density = calculate_packing_density lib s;
    bonding_strength = calculate_bonding_strength lib s;
    surface_smoothness = calculate_surface_smoothness lib s;
    durability_score = calculate_durability lib s;
    particle_count = particle_count;
    contact_count = length s.contacts;
    max_force = totals.max_force;
    avg_force = if ltb 0 max_steps then div totals.sum_force (of_nat max_steps) else 0;
    porosity = calculate_porosity lib s;
    energy_history = totals.energy_history;
    force_history = totals.force_history;
    parameters = s.params;
  }

  unfoldable pub run : ℕ → DemSimulation Json → DemSimulation Json × DemResult
  unfolding run_loop report count_if
  run max_steps s =
      let done =
        run_loop max_steps 0 s
          (record { max_force = 0; sum_force = 0; energy_history = []; force_history = [] }) in
      (done.0, report max_steps (count_if (λ p. not p.is_boundary) s.particles) done.0 done.1)
