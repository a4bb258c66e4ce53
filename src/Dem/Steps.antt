-- ===== src/Dem/Steps.antt =====
-- One time step: `step` of backend/algorithms/dem_simulation.cpp and the loops that it runs.
pub mod Frame
pub mod Contacts
use ai_solo_coder_task_a.Dem.{DemGeometry, DemLibrary, DemParticle, DemSimulation, Vector}
use ai_solo_coder_task_a.Dem.Forces.{detect_collisions}
use ai_solo_coder_task_a.Dem.Seeding.{random_point_in_crack}
use ai_solo_coder_task_a.Dem.Vectors.{vector_add, vector_mul, vector_sub}
use ai_solo_coder_task_a.Double.{double_lt, magnitude}
use ai_solo_coder_task_a.Double.Arithmetic.{div, double_max, mul}
use ai_solo_coder_task_a.Prelude.{
  Bool, List, [], if◌then◌else◌, map, not, suc, zero, ℕ, ◌&&◌, ◌||◌, ◌∷◌,
}

abbrev pub map_particles :
    {Json : Type 0} → (DemParticle → DemParticle) → DemSimulation Json → DemSimulation Json
map_particles f s = record s { particles = map f s.particles }

unfoldable pub integrate_velocity : ℕ → DemParticle → DemParticle
integrate_velocity time_step p =
    let acc = vector_mul p.force (div 0x3FF0000000000000 p.mass) in
    if not p.is_fixed && double_lt 0 p.mass
    then record p {
      velocity = vector_add p.velocity (vector_mul acc (mul time_step 0x3FE0000000000000));
    }
    else p

-- The force is set to the weight.
unfoldable pub integrate_position : ℕ → DemParticle → DemParticle
integrate_position time_step p =
    if not p.is_fixed
    then record p {
      position = vector_add p.position (vector_mul p.velocity time_step);
      force = (0, 0, mul 0xC0239EB851EB851F p.mass);
    }
    else p

-- `std::abs(rel[i]) > max_dist` for one of the coordinates.
unfoldable pub is_far : DemGeometry → Vector → Bool
is_far geometry (x, y, z) =
    let micro : ℕ = 0x3EB0C6F7A0B5ED8D in
    let max_dist =
      double_max (double_max geometry.crack_length (mul geometry.crack_width micro))
        (mul geometry.crack_depth micro) in
    double_lt max_dist (magnitude x)
    || double_lt max_dist (magnitude y)
    || double_lt max_dist (magnitude z)

-- The particle, and the number of draws made afterwards.
unfoldable pub keep_in_crack : DemLibrary → DemGeometry → DemParticle → ℕ → DemParticle × ℕ
unfolding is_far
keep_in_crack lib geometry p rng =
    let drawn = random_point_in_crack lib geometry rng in
    if p.is_fixed
    then (record p { velocity = (0, 0, 0); force = (0, 0, 0) }, rng)
    else if is_far geometry (vector_sub p.position geometry.crack_origin)
    then (record p { velocity = (0, 0, 0); position = drawn.0 }, drawn.1)
    else (p, rng)

unfoldable pub keep_all : DemLibrary → DemGeometry → List DemParticle → ℕ → List DemParticle × ℕ
unfolding keep_in_crack
keep_all lib geometry [] rng = ([], rng)
keep_all lib geometry (p ∷ particles) rng =
    let kept = keep_in_crack lib geometry p rng in
    let rest = keep_all lib geometry particles kept.1 in (kept.0 ∷ rest.0, rest.1)

module _ {Json : Type 0} where
  unfoldable pub integrate_velocities : DemSimulation Json → DemSimulation Json
  unfolding integrate_velocity
  integrate_velocities s = map_particles (integrate_velocity s.params.time_step) s

  unfoldable pub integrate_positions : DemSimulation Json → DemSimulation Json
  unfolding integrate_position
  integrate_positions s = map_particles (integrate_position s.params.time_step) s

  unfoldable pub apply_boundary_conditions : DemLibrary → DemSimulation Json → DemSimulation Json
  unfolding keep_all
  apply_boundary_conditions lib s =
      let kept = keep_all lib s.geometry s.particles s.rng in
      record s { particles = kept.0; rng = kept.1 }

  unfoldable pub step : DemLibrary → DemSimulation Json → DemSimulation Json
  unfolding integrate_velocities detect_collisions integrate_positions apply_boundary_conditions
  step lib s =
      let s1 = integrate_velocities s in
      let s2 = detect_collisions lib s1 in
      let s3 = integrate_positions s2 in apply_boundary_conditions lib s3

  -- The same step with no contact computed.
  unfoldable pub contact_free_step : DemLibrary → DemSimulation Json → DemSimulation Json
  contact_free_step lib s =
      apply_boundary_conditions lib (integrate_positions (integrate_velocities s))

  unfoldable pub steps : DemLibrary → ℕ → DemSimulation Json → DemSimulation Json
  unfolding step
  steps lib zero s = s
  steps lib (suc n) s = steps lib n (step lib s)

  unfoldable pub contact_free_steps : DemLibrary → ℕ → DemSimulation Json → DemSimulation Json
  unfolding contact_free_step
  contact_free_steps lib zero s = s
  contact_free_steps lib (suc n) s = contact_free_steps lib n (contact_free_step lib s)
