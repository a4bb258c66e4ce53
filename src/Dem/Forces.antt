-- ===== src/Dem/Forces.antt =====
-- The forces between two particles, and the search for contacts: `compute_contact_forces` and
-- `detect_collisions` of backend/algorithms/dem_simulation.cpp. The `tangent` there, whose type cannot
-- be assigned to the contact's array, is the three zeros that it lists.
-- (r1 * r2) / (r1 + r2)
pub mod Collisions
use ai_solo_coder_task_a.Dem.{
  DemContact, DemLibrary, DemParameters, DemParticle, DemSimulation, Vector,
}
use ai_solo_coder_task_a.Dem.Vectors.{
  vector_add, vector_dot, vector_mul, vector_norm, vector_normalize, vector_sub,
}
use ai_solo_coder_task_a.Double.{double_lt}
use ai_solo_coder_task_a.Double.Arithmetic.{add, div, double_le, mul, neg, sub}
use ai_solo_coder_task_a.Prelude.{
  List, [], if◌then◌else◌, leb, length, suc, zero, ℕ, ◌&&◌, ◌++◌, ◌∷◌,
}

unfoldable pub effective_radius : ℕ → ℕ → ℕ
effective_radius r1 r2 = div (mul r1 r2) (add r1 r2)

unfoldable pub effective_modulus : DemParameters → ℕ
effective_modulus params = div params.youngs_modulus (
    mul 0x4000000000000000
      (sub 0x3FF0000000000000 (mul params.poissons_ratio params.poissons_ratio)))

-- 4.0 / 3.0
abbrev pub four_thirds : ℕ
four_thirds = div 0x4010000000000000 0x4008000000000000

-- -hamaker * radius / (6.0 * distance * distance), with hamaker = 1.0e-19 and a distance of at least
-- 1e-10.
unfoldable pub van_der_waals_force : ℕ → ℕ → ℕ
van_der_waals_force distance radius =
    let nearest : ℕ = 0x3DDB7CDFD9D7BDBB in
    let d = if double_lt distance nearest then nearest else distance in
    div (mul (neg 0x3BFD83C94FB6D2AC) radius) (mul (mul 0x4018000000000000 d) d)

-- `MAX_CONTACTS`
abbrev pub max_contacts : ℕ
max_contacts = 50000

module _ (lib : DemLibrary) (params : DemParameters) where
  unfoldable pub hertz_contact_force : ℕ → ℕ → ℕ → ℕ
  unfolding effective_radius effective_modulus
  hertz_contact_force overlap radius_a radius_b =
      if double_le overlap 0
      then 0
      else let r_eff = effective_radius radius_a radius_b in
        let e_eff = effective_modulus params in
        let k_h = mul (mul four_thirds e_eff) (lib.sqrt r_eff) in
        mul k_h (lib.pow overlap 0x3FF8000000000000)  -- 1.5

  unfoldable pub damping_force : ℕ → ℕ → ℕ
  damping_force relative_velocity overlap =
      if double_le overlap 0
      then 0
      else let gamma =
          mul (mul 0x4000000000000000 params.damping_coeff)
            (lib.sqrt (mul params.youngs_modulus params.density)) in
        mul (mul (neg gamma) relative_velocity) (lib.sqrt overlap)

  -- `f_normal`: the sum of the three forces along the normal.
  normal_force : DemParticle → DemParticle → Vector → ℕ → ℕ → ℕ
  unfolding hertz_contact_force damping_force van_der_waals_force
  normal_force a b normal dist overlap =
      let rel_vel = vector_dot (vector_sub b.velocity a.velocity) normal in
      let f_hertz = hertz_contact_force overlap a.radius b.radius in
      let f_damp = damping_force rel_vel overlap in
      let f_vdw = van_der_waals_force dist (div (add a.radius b.radius) 0x4000000000000000) in
      add (add f_hertz f_damp) f_vdw

  contact_between : DemParticle → DemParticle → Vector → ℕ → DemContact
  unfolding normal_force
  contact_between a b diff dist =
      let normal = vector_normalize lib diff in
      let overlap = sub (add a.radius b.radius) dist in
      record {
        particle_a = a.id;
        particle_b = b.id;
        normal = normal;
        overlap = overlap;
        normal_force = normal_force a b normal dist overlap;
        tangent_force = (0, 0, 0);
      }

  -- The two particles and the contacts afterwards.
  unfoldable pub compute_contact_forces :
      DemParticle → DemParticle → List DemContact → DemParticle × DemParticle × List DemContact
  unfolding contact_between
  compute_contact_forces a b contacts =
      let diff = vector_sub b.position a.position in
      let dist = vector_norm lib diff in
      let min_dist = add a.radius b.radius in
      let contact = contact_between a b diff dist in
      let force_vec = vector_mul contact.normal (neg contact.normal_force) in
      if double_lt dist min_dist && double_lt 0x3CD203AF9EE75616 dist
      then (
        record a { force = vector_add a.force force_vec },
        record b { force = vector_sub b.force force_vec },
        contacts ++ contact ∷ [],
      )
      else (a, b, contacts)

  -- The inner loop: one particle against those behind it.
  collide_with :
      DemParticle
      → List DemParticle
      → List DemContact
      → DemParticle × List DemParticle × List DemContact
  collide_with a [] contacts = (a, [], contacts)
  collide_with a (b ∷ bs) contacts =
      let met = compute_contact_forces a b contacts in
      let rest = collide_with met.0 bs met.2 in
      if leb max_contacts (length contacts)
      then (a, b ∷ bs, contacts)
      else (rest.0, met.1 ∷ rest.1, rest.2)

  -- The outer loop, on the number of particles left.
  collide_all : ℕ → List DemParticle → List DemContact → List DemParticle × List DemContact
  unfolding collide_with
  collide_all zero particles contacts = (particles, contacts)
  collide_all (suc n) [] contacts = ([], contacts)
  collide_all (suc n) (a ∷ particles) contacts =
      let row = collide_with a particles contacts in
      let rest = collide_all n row.1 row.2 in
      if leb max_contacts (length row.2) then (row.0 ∷ row.1, row.2) else (row.0 ∷ rest.0, rest.1)

unfoldable pub detect_collisions :
    {Json : Type 0} → DemLibrary → DemSimulation Json → DemSimulation Json
unfolding collide_all
detect_collisions lib s =
    let done = collide_all lib s.params (length s.particles) s.particles [] in
    record s { particles = done.0; contacts = done.1 }
