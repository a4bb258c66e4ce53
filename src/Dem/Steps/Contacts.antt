-- ===== src/Dem/Steps/Contacts.antt =====
-- What becomes of the forces of the contacts: `integrate_positions` sets each force anew before
-- `integrate_velocities` reads it.
use ai_solo_coder_task_a.Dem.{DemGeometry, DemLibrary, DemParticle, DemSimulation}
use ai_solo_coder_task_a.Dem.Forces.{detect_collisions}
use ai_solo_coder_task_a.Dem.Forces.Collisions.{detect_collisions-weightless, weightless}
use ai_solo_coder_task_a.Dem.Steps.{
  apply_boundary_conditions, contact_free_step, contact_free_steps, integrate_position,
  integrate_positions, integrate_velocities, keep_all, keep_in_crack, step, steps,
}
use ai_solo_coder_task_a.Prelude.{
  Bool-cases, List, [], ap, inl, inr, map, refl, suc, sym, zero, ℕ, ◌∙◌, ◌∷◌, ◌≡◌,
}

settle-weightless :
    (lib : DemLibrary) (g : DemGeometry) (h : ℕ) (p : DemParticle) (rng : ℕ)
    → keep_in_crack lib g (integrate_position h (weightless p)) rng
      ≡ keep_in_crack lib g (integrate_position h p) rng
unfolding keep_in_crack integrate_position
settle-weightless lib g h p rng = elim (Bool-cases p.is_fixed) [
  | inl fixed ↦ rw fixed
  | inr free ↦ rw free
]

settle_eq :
    (lib : DemLibrary) (g : DemGeometry) (h : ℕ) (p q : DemParticle) (rng : ℕ)
    → weightless q ≡ weightless p
    → keep_in_crack lib g (integrate_position h q) rng
      ≡ keep_in_crack lib g (integrate_position h p) rng
settle_eq lib g h p q rng e =
    sym (settle-weightless lib g h q rng)
    ∙ ap (λ r. keep_in_crack lib g (integrate_position h r) rng) e
    ∙ settle-weightless lib g h p rng

-- The same for all particles.
settle_all_eq :
    (lib : DemLibrary) (g : DemGeometry) (h : ℕ) (ps qs : List DemParticle) (rng : ℕ)
    → map weightless qs ≡ map weightless ps
    → keep_all lib g (map (integrate_position h) qs) rng
      ≡ keep_all lib g (map (integrate_position h) ps) rng
unfolding keep_all
settle_all_eq lib g h [] [] rng e = refl
settle_all_eq lib g h [] (q ∷ qs) rng e = absurd (cc)
settle_all_eq lib g h (p ∷ ps) [] rng e = absurd (cc)
settle_all_eq lib g h (p ∷ ps) (q ∷ qs) rng e =
    let kept = keep_in_crack lib g (integrate_position h p) rng in
    let one : weightless q ≡ weightless p = cc in
    let others : map weightless qs ≡ map weightless ps = cc in
    rw (settle_eq lib g h p q rng one) (rw (settle_all_eq lib g h ps qs kept.1 others))

module _ {Json : Type 0} (lib : DemLibrary) where
  -- All of the state but the contacts and the material.
  abbrev SameMotion : DemSimulation Json → DemSimulation Json → Type 0
  SameMotion s t =
      (s.particles ≡ t.particles)
      × (s.rng ≡ t.rng)
      × (s.params ≡ t.params)
      × (s.geometry ≡ t.geometry)

  contact_free_step_eq :
      (s t : DemSimulation Json)
      → SameMotion s t
      → SameMotion (contact_free_step lib s) (contact_free_step lib t)
  unfolding contact_free_step integrate_velocities integrate_positions apply_boundary_conditions
  contact_free_step_eq s t (ps, rng, params, geometry) =
      rw (ps, rng, params, geometry) (refl, refl, refl, refl)

  step-contact_free_step :
      (s : DemSimulation Json) → SameMotion (step lib s) (contact_free_step lib s)
  unfolding step contact_free_step integrate_positions apply_boundary_conditions
  step-contact_free_step s =
      let s1 = integrate_velocities s in
      let e =
        settle_all_eq lib s1.geometry s1.params.time_step s1.particles
          (detect_collisions lib s1).particles s1.rng (detect_collisions-weightless lib s1) in
      (ap (λ kept. kept.0) e, ap (λ kept. kept.1) e, refl, refl)

  contact_free_steps_eq :
      (n : ℕ) (s t : DemSimulation Json)
      → SameMotion s t
      → (contact_free_steps lib n s).particles ≡ (contact_free_steps lib n t).particles
  unfolding contact_free_steps
  contact_free_steps_eq zero s t e = e.0
  contact_free_steps_eq (suc n) s t e =
      contact_free_steps_eq n (contact_free_step lib s) (contact_free_step lib t)
        (contact_free_step_eq s t e)

  -- The contact forces move nothing: after any number of time steps the particles stand where they
  -- would stand, as fast as they would be, had no contact been computed at all.
  pub steps-contact_free_steps :
      (n : ℕ) (s : DemSimulation Json)
      → (steps lib n s).particles ≡ (contact_free_steps lib n s).particles
  unfolding steps contact_free_steps
  steps-contact_free_steps zero s = refl
  steps-contact_free_steps (suc n) s =
      steps-contact_free_steps n (step lib s)
      ∙ contact_free_steps_eq n (step lib s) (contact_free_step lib s) (step-contact_free_step s)
