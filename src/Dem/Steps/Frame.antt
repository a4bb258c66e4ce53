-- ===== src/Dem/Steps/Frame.antt =====
-- What a time step leaves alone.
-- All of a particle but its velocity, its force and, unless it is fixed, its position.
use ai_solo_coder_task_a.Dem.{DemGeometry, DemLibrary, DemParticle, DemSimulation, Vector}
use ai_solo_coder_task_a.Dem.Forces.{detect_collisions}
use ai_solo_coder_task_a.Dem.Forces.Collisions.{detect_collisions-weightless, weightless}
use ai_solo_coder_task_a.Dem.Steps.{
  apply_boundary_conditions, integrate_position, integrate_positions, integrate_velocities,
  integrate_velocity, keep_all, keep_in_crack, step, steps,
}
use ai_solo_coder_task_a.Prelude.{
  Bool, List, Option, [], ap, arith, if◌then◌else◌, map, none, refl, some, suc, sym, zero, ℕ, ◌∙◌,
  ◌∷◌, ◌≡◌,
}

abbrev pub frame : DemParticle → ℕ × ℕ × ℕ × Bool × Bool × ℕ × Option Vector
frame p = (
  p.radius,
  p.mass,
  p.material_id,
  p.is_boundary,
  p.is_fixed,
  p.id,
  if p.is_fixed then some p.position else none,
)

frame-integrate_velocity : (h : ℕ) (p : DemParticle) → frame (integrate_velocity h p) ≡ frame p
unfolding integrate_velocity
frame-integrate_velocity h p = ground arith

frame-integrate_position : (h : ℕ) (p : DemParticle) → frame (integrate_position h p) ≡ frame p
unfolding integrate_position
frame-integrate_position h p = ground arith

frame-keep_in_crack :
    (lib : DemLibrary) (g : DemGeometry) (p : DemParticle) (rng : ℕ)
    → frame (keep_in_crack lib g p rng).0 ≡ frame p
unfolding keep_in_crack
frame-keep_in_crack lib g p rng = ground arith

map-frame :
    (f : DemParticle → DemParticle)
    → ((p : DemParticle) → frame (f p) ≡ frame p)
    → (ps : List DemParticle) → map frame (map f ps) ≡ map frame ps
map-frame f h [] = refl
map-frame f h (p ∷ ps) = rw (h p) (rw (map-frame f h ps))

map-frame-keep_all :
    (lib : DemLibrary) (g : DemGeometry) (ps : List DemParticle) (rng : ℕ)
    → map frame (keep_all lib g ps rng).0 ≡ map frame ps
unfolding keep_all
map-frame-keep_all lib g [] rng = refl
map-frame-keep_all lib g (p ∷ ps) rng =
    rw (frame-keep_in_crack lib g p rng) (rw (map-frame-keep_all lib g ps _))

map-frame-weightless :
    (ps qs : List DemParticle) → map weightless qs ≡ map weightless ps → map frame qs ≡ map frame ps
map-frame-weightless ps qs e =
    sym (map-frame weightless (λ p. refl) qs)
    ∙ ap (map frame) e
    ∙ map-frame weightless (λ p. refl) ps

module _ {Json : Type 0} (lib : DemLibrary) where
  step-frame : (s : DemSimulation Json) → map frame (step lib s).particles ≡ map frame s.particles
  unfolding step integrate_velocities integrate_positions apply_boundary_conditions
  step-frame s =
      let h = s.params.time_step in
      let s1 = integrate_velocities s in
      let s2 = detect_collisions lib s1 in
      map-frame-keep_all lib s2.geometry (map (integrate_position s2.params.time_step) s2.particles)
        s2.rng
      ∙ map-frame (integrate_position s2.params.time_step)
          (frame-integrate_position s2.params.time_step) s2.particles
      ∙ map-frame-weightless s1.particles s2.particles (detect_collisions-weightless lib s1)
      ∙ map-frame (integrate_velocity h) (frame-integrate_velocity h) s.particles

  -- Over any number of time steps the particles stay the same ones in the same order, each with its
  -- radius, mass, material, flags and id, and a fixed particle stays where it is.
  pub steps-frame :
      (n : ℕ) (s : DemSimulation Json) → map frame (steps lib n s).particles ≡ map frame s.particles
  unfolding steps
  steps-frame zero s = refl
  steps-frame (suc n) s = steps-frame n (step lib s) ∙ step-frame s
