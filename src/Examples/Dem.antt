-- ===== src/Examples/Dem.antt =====
-- Runs of the filling simulation.
-- A library that answers with simple numbers: it is not that of C++. Draws alternate between the bounds.
use ai_solo_coder_task_a.Common.{RepairMaterial, zirconia}
use ai_solo_coder_task_a.Dem.{DemLibrary, DemParticle, DemSimulation}
use ai_solo_coder_task_a.Dem.Forces.{detect_collisions, max_contacts}
use ai_solo_coder_task_a.Dem.Forces.Collisions.{length-detect_collisions, touching_pairs}
use ai_solo_coder_task_a.Dem.Run.{run}
use ai_solo_coder_task_a.Dem.Run.Stops.{RestsAfter, run_lem}
use ai_solo_coder_task_a.Dem.Seeding.{
  boundary_particle, configured, generate_boundary, generate_particles,
}
use ai_solo_coder_task_a.Dem.Seeding.Apart.{AllPairs, IsLoose, Placed, generate_particles-Placed}
use ai_solo_coder_task_a.Dem.Seeding.Ids.{generate_boundary-id}
use ai_solo_coder_task_a.Dem.Steps.{contact_free_steps, steps}
use ai_solo_coder_task_a.Dem.Steps.Frame.{frame, steps-frame}
use ai_solo_coder_task_a.Dem.Vectors.{vector_norm, vector_sub}
use ai_solo_coder_task_a.Double.{double_lt}
use ai_solo_coder_task_a.Double.Arithmetic.{add, mul, sub}
use ai_solo_coder_task_a.Prelude.{
  All, List, [], false, get_elem?, if◌then◌else◌, length, map, min, refl, some, take, ℕ, ◌%◌, ◌+◌,
  ◌/◌, ◌<◌, ◌==◌, ◌∷◌, ◌≡◌, ◌≤◌, ◌⊎◌,
}

abbrev plain_library : DemLibrary
plain_library = record {
  sqrt = λ x. x;
  pow = λ x y. x;
  atan2 = λ y x. 0;
  uniform = λ n low high. if n % 2 == 0 then low else high;
}

abbrev zirconia_nano : RepairMaterial (List ℕ)
zirconia_nano = record {
  id = 1;
  material_type = zirconia;
  name = "Zirconia Nano";
  manufacturer = "";
  particle_size_nm = 0x4039000000000000;  -- 25.0
  purity = 0;
  viscosity = 0;
  refractive_index = 0;
  thermal_expansion_coeff = 0;
  properties = [];
}

-- Two particles that touch, and one that is fixed.
abbrev first_particle : DemParticle
first_particle = record {
  position = (0, 0, 0);
  velocity = (0, 0, 0);
  force = (0, 0, 0);
  radius = 0x3FF0000000000000;
  mass = 0x3FF0000000000000;
  material_id = 1;
  is_boundary = false;
  is_fixed = false;
  id = 0;
}

abbrev second_particle : DemParticle
second_particle = record first_particle { position = (0x3FF0000000000000, 0, 0); id = 1 }

abbrev filling : DemSimulation (List ℕ)
filling = record {
  params = configured (record {
    youngs_modulus = 0x42304C533C000000;
    poissons_ratio = 0x3FCC28F5C28F5C29;
    density = 0x40AEDC0000000000;
    time_step = 0x3E112E0BE826D695;
    min_particle_radius = 0x3E112E0BE826D695;
    max_particle_radius = 0x3E112E0BE826D695;
  });
  geometry = record {
    crack_origin = (0, 0, 0);
    crack_length = 0x4024000000000000;
    crack_depth = 0x4024000000000000;
    crack_width = 0x4024000000000000;
    crack_angle = 0;
    boundary_points = (1, 2, 3) ∷ (4, 5, 6) ∷ [];
  };
  particles = first_particle ∷ second_particle ∷ [];
  contacts = [];
  rng = 0;
  material = zirconia_nano;
}

-- 1.0 apart, with radii of 1.0: the two touch.
one_touches : touching_pairs plain_library filling.particles ≡ 1
unfolding touching_pairs vector_norm vector_sub add sub mul double_lt
one_touches = refl

length-detect_collisions_example :
    length (detect_collisions plain_library filling).contacts
    ≡ min (touching_pairs plain_library filling.particles) max_contacts
length-detect_collisions_example = length-detect_collisions plain_library filling

run_lem_example :
    let done = run plain_library 150 filling in
    (n : ℕ) × (n ≤ 150)
    × ((n ≡ 150) ⊎ RestsAfter plain_library filling n)
    × ((k : ℕ) → 0 < k → k < n → RestsAfter plain_library filling k → ⊥)
    × (done.0.particles ≡ (contact_free_steps plain_library n filling).particles)
    × (length done.1.energy_history ≡ (n + 9) / 10)
    × (done.1.total_steps ≡ 150)
run_lem_example = run_lem plain_library 150 filling

steps-frame_example :
    map frame (steps plain_library 5 filling).particles ≡ map frame filling.particles
steps-frame_example = steps-frame plain_library 5 filling

generate_particles-Placed_example :
    let particles = (generate_particles plain_library 4 filling).particles in
    AllPairs (Placed plain_library) particles × All (IsLoose 4) particles × (length particles ≤ 4)
generate_particles-Placed_example = generate_particles-Placed plain_library 4 filling

generate_boundary-id_example :
    (take 2 (generate_boundary filling).particles ≡ filling.particles)
    × (get_elem? (generate_boundary filling).particles 3 ≡ some (boundary_particle 4 (4, 5, 6)))
generate_boundary-id_example = generate_boundary-id filling 1 (4, 5, 6) refl
