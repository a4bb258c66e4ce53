-- ===== src/Dem/Seeding/Ids.antt =====
-- The particles that `generate_boundary` adds, and their ids.
use ai_solo_coder_task_a.Dem.{DemParticle, DemSimulation, Vector}
use ai_solo_coder_task_a.Dem.Seeding.{boundary_from, boundary_particle, generate_boundary}
use ai_solo_coder_task_a.Prelude.{
  List, [], ap, append-nil, append_assoc, arith, get_elem?, get_elem?-append_last,
  get_elem?-append_lt, length, length-append, some, suc, sym, take, take-append, zero, ℕ, ◌*◌, ◌++◌,
  ◌+◌, ◌<◌, ◌∙◌, ◌∷◌, ◌≡◌,
}

boundary_from-append :
    (i : ℕ) (points : List Vector) (ps : List DemParticle)
    → (added : List DemParticle) × (boundary_from i points ps ≡ ps ++ added)
unfolding boundary_from
boundary_from-append i [] ps = ([], sym (append-nil ps))
boundary_from-append i (point ∷ points) ps =
    let one = boundary_particle (length ps + i) point ∷ [] in
    let (added, e) = boundary_from-append (i + 1) points (ps ++ one) in
    (one ++ added, e ∙ append_assoc ps one added)

boundary_from-added :
    (i : ℕ) (points : List Vector) (ps : List DemParticle) (j : ℕ) (point : Vector)
    → get_elem? points j ≡ some point
    → get_elem? (boundary_from i points ps) (length ps + j)
      ≡ some (boundary_particle (length ps + i + 2 * j) point)
unfolding boundary_from
boundary_from-added i [] ps j point e = cc
boundary_from-added i (p ∷ points) ps zero point e =
    let new = boundary_particle (length ps + i) p in
    let (added, grown) = boundary_from-append (i + 1) points (ps ++ new ∷ []) in
    let same : p ≡ point = cc in
    let here : length ps + 0 ≡ length ps = omega arith in
    let at_end : length ps < length (ps ++ new ∷ []) = omega (arith, length-append ps (new ∷ [])) in
    let id : length ps + i + 2 * 0 ≡ length ps + i = omega arith in
    rw (here, id, grown)
      (get_elem?-append_lt (ps ++ new ∷ []) added (length ps) at_end
        ∙ get_elem?-append_last ps new
        ∙ ap (λ q. some (boundary_particle (length ps + i) q)) same)
boundary_from-added i (p ∷ points) ps (suc j) point e =
    let new = boundary_particle (length ps + i) p in
    let more : length (ps ++ new ∷ []) ≡ length ps + 1 =
      omega (arith, length-append ps (new ∷ [])) in
    let later = boundary_from-added (i + 1) points (ps ++ new ∷ []) j point e in
    let place : length ps + suc j ≡ length (ps ++ new ∷ []) + j = omega (arith, more) in
    let id : length ps + i + 2 * suc j ≡ length (ps ++ new ∷ []) + (i + 1) + 2 * j =
      (omega (arith, more)) in
    rw (place, id) later

-- The particles that are there stay in front, and the j-th point of the boundary becomes the j-th new
-- particle, fixed at that point. Its id is the number of earlier particles plus twice j.
pub generate_boundary-id :
    {Json : Type 0} (s : DemSimulation Json) (j : ℕ) (point : Vector)
    → get_elem? s.geometry.boundary_points j ≡ some point
    → (take (length s.particles) (generate_boundary s).particles ≡ s.particles)
      × (get_elem? (generate_boundary s).particles (length s.particles + j)
          ≡ some (boundary_particle (length s.particles + 2 * j) point))
unfolding generate_boundary
generate_boundary-id s j point e =
    let (added, grown) = boundary_from-append 0 s.geometry.boundary_points s.particles in
    let id : length s.particles + 0 + 2 * j ≡ length s.particles + 2 * j = omega arith in
    (
      rw grown (take-append s.particles added),
      rw (← id) (boundary_from-added 0 s.geometry.boundary_points s.particles j point e),
    )
