-- ===== src/Dem/Forces/Collisions.antt =====
-- What the search for contacts changes, and how many contacts it finds.
-- A particle without its force.
use ai_solo_coder_task_a.Dem.{
  DemContact, DemLibrary, DemParameters, DemParticle, DemSimulation, Vector,
}
use ai_solo_coder_task_a.Dem.Forces.{
  collide_all, collide_with, compute_contact_forces, detect_collisions, max_contacts,
}
use ai_solo_coder_task_a.Dem.Vectors.{vector_norm, vector_sub}
use ai_solo_coder_task_a.Double.{double_lt}
use ai_solo_coder_task_a.Double.Arithmetic.{add}
use ai_solo_coder_task_a.Prelude.{
  Bool, Bool-cases, List, [], ap, arith, false, if◌then◌else◌, inl, inr, leb, leb→le, length,
  length-append, length-map, map, min, refl, suc, sym, true, zero, ℕ, ◌&&◌, ◌++◌, ◌+◌, ◌<◌, ◌∙◌,
  ◌∷◌, ◌≡◌, ◌≤◌,
}

abbrev pub weightless : DemParticle → DemParticle
weightless p = record p { force = (0, 0, 0) }

-- The test of `compute_contact_forces`.
unfoldable pub touches : DemLibrary → DemParticle → DemParticle → Bool
touches lib a b =
    let dist = vector_norm lib (vector_sub b.position a.position) in
    double_lt dist (add a.radius b.radius) && double_lt 0x3CD203AF9EE75616 dist

touching : DemLibrary → DemParticle → List DemParticle → ℕ
unfolding touches
touching lib a [] = 0
touching lib a (b ∷ bs) = (if touches lib a b then 1 else 0) + touching lib a bs

-- How many pairs of particles touch.
unfoldable pub touching_pairs : DemLibrary → List DemParticle → ℕ
unfolding touching
touching_pairs lib [] = 0
touching_pairs lib (p ∷ ps) = touching lib p ps + touching_pairs lib ps

one_at_most : (t : Bool) → (if t then 1 else 0) ≤ 1
one_at_most true = omega arith
one_at_most false = omega arith

-- What a contact changes, for any test and any forces.
met :
    (t : Bool) (a b : DemParticle) (cs : List DemContact) (c : DemContact) (f g : Vector)
    → let m : DemParticle × DemParticle × List DemContact =
        (if t
          then (record a { force = f }, record b { force = g }, cs ++ c ∷ [])
          else (a, b, cs)) in
      (weightless m.0 ≡ weightless a)
      × (weightless m.1 ≡ weightless b)
      × (length m.2 ≡ length cs + (if t then 1 else 0))
met true a b cs c f g = (refl, refl, length-append cs (c ∷ []))
met false a b cs c f g = (refl, refl, omega arith)

module _ (lib : DemLibrary) where
  touching-weightless :
      (a : DemParticle) (bs : List DemParticle)
      → touching lib (weightless a) (map weightless bs) ≡ touching lib a bs
  unfolding touching
  touching-weightless a [] = refl
  touching-weightless a (b ∷ bs) = rw (touching-weightless a bs)

  touching_pairs-weightless :
      (ps : List DemParticle) → touching_pairs lib (map weightless ps) ≡ touching_pairs lib ps
  unfolding touching_pairs
  touching_pairs-weightless [] = refl
  touching_pairs-weightless (p ∷ ps) = rw (touching-weightless p ps, touching_pairs-weightless ps)

  -- Particles that differ in their forces touch alike.
  touching_eq :
      (a a' : DemParticle) (bs : List DemParticle)
      → weightless a' ≡ weightless a
      → touching lib a' bs ≡ touching lib a bs
  touching_eq a a' bs e =
      sym (touching-weightless a' bs)
      ∙ ap (λ p. touching lib p (map weightless bs)) e
      ∙ touching-weightless a bs

  touching_pairs_eq :
      (ps qs : List DemParticle)
      → map weightless qs ≡ map weightless ps
      → touching_pairs lib qs ≡ touching_pairs lib ps
  touching_pairs_eq ps qs e =
      sym (touching_pairs-weightless qs) ∙ ap (touching_pairs lib) e ∙ touching_pairs-weightless ps

module _ (lib : DemLibrary) (params : DemParameters) where
  compute_contact_forces-met :
      (a b : DemParticle) (cs : List DemContact)
      → let m = compute_contact_forces lib params a b cs in
        (weightless m.0 ≡ weightless a)
        × (weightless m.1 ≡ weightless b)
        × (length m.2 ≡ length cs + (if touches lib a b then 1 else 0))
  unfolding compute_contact_forces touches
  compute_contact_forces-met a b cs = met _ a b cs _ _ _

  collide_with-weightless :
      (a : DemParticle) (bs : List DemParticle) (cs : List DemContact)
      → let row = collide_with lib params a bs cs in
        (weightless row.0 ≡ weightless a) × (map weightless row.1 ≡ map weightless bs)
  unfolding collide_with
  collide_with-weightless a [] cs = (refl, refl)
  collide_with-weightless a (b ∷ bs) cs = elim (Bool-cases (leb max_contacts (length cs))) [
    | inl full ↦ rw full (refl, refl)
    | inr room ↦
        let m = compute_contact_forces lib params a b cs in
        let (same_a, same_b, _) = compute_contact_forces-met a b cs in
        let (rest_a, rest) = collide_with-weightless m.0 bs m.2 in
        rw room (rest_a ∙ same_a, rw (same_b, rest))
  ]

  -- The contacts of a row: all that there are, up to the limit.
  length-collide_with :
      (a : DemParticle) (bs : List DemParticle) (cs : List DemContact)
      → length cs ≤ max_contacts
      → length (collide_with lib params a bs cs).2
        ≡ min (length cs + touching lib a bs) max_contacts
  unfolding collide_with touching
  length-collide_with a [] cs h = omega arith
  length-collide_with a (b ∷ bs) cs h = elim (Bool-cases (leb max_contacts (length cs))) [
    | inl full ↦ rw full (omega (arith, leb→le max_contacts (length cs) full))
    | inr room ↦
        let m = compute_contact_forces lib params a b cs in
        let (same_a, _, more) = compute_contact_forces-met a b cs in
        let below : length cs < max_contacts = ground arith in
        let at_most : length m.2 ≤ max_contacts =
          omega (arith, more, below, one_at_most (touches lib a b)) in
        rw room (
          omega
            (arith, length-collide_with m.0 bs m.2 at_most, more, touching_eq lib a m.0 bs same_a))
  ]

  collide_all-weightless :
      (n : ℕ) (ps : List DemParticle) (cs : List DemContact)
      → map weightless (collide_all lib params n ps cs).0 ≡ map weightless ps
  unfolding collide_all
  collide_all-weightless zero ps cs = refl
  collide_all-weightless (suc n) [] cs = refl
  collide_all-weightless (suc n) (a ∷ ps) cs =
      let row = collide_with lib params a ps cs in
      let (same_a, same) = collide_with-weightless a ps cs in
      elim (Bool-cases (leb max_contacts (length row.2))) [
        | inl full ↦ rw full (rw (same_a, same))
        | inr room ↦ rw room (rw (same_a, collide_all-weightless n row.1 row.2, same))
      ]

  length-collide_all :
      (n : ℕ) (ps : List DemParticle) (cs : List DemContact)
      → length ps ≤ n
      → length cs ≤ max_contacts
      → length (collide_all lib params n ps cs).1
        ≡ min (length cs + touching_pairs lib ps) max_contacts
  unfolding collide_all touching_pairs
  length-collide_all zero [] cs k h = omega arith
  length-collide_all zero (a ∷ ps) cs k h = absurd (omega arith)
  length-collide_all (suc n) [] cs k h = omega arith
  length-collide_all (suc n) (a ∷ ps) cs k h =
      let row = collide_with lib params a ps cs in
      let found = length-collide_with a ps cs h in
      let same = (collide_with-weightless a ps cs).1 in
      let as_many : length row.1 ≡ length ps =
        (sym (length-map row.1 weightless) ∙ ap length same ∙ length-map ps weightless) in
      elim (Bool-cases (leb max_contacts (length row.2))) [
        | inl full ↦ rw full (omega (arith, found, leb→le max_contacts (length row.2) full))
        | inr room ↦ rw room (
            omega (
              arith,
              length-collide_all n row.1 row.2 (omega (arith, as_many)) (omega (arith, found)),
              found,
              touching_pairs_eq lib ps row.1 same,
            ))
      ]

module _ {Json : Type 0} (lib : DemLibrary) (s : DemSimulation Json) where
  pub detect_collisions-weightless :
      map weightless (detect_collisions lib s).particles ≡ map weightless s.particles
  unfolding detect_collisions
  detect_collisions-weightless = collide_all-weightless lib s.params _ s.particles []

  -- The contacts found are as many as there are pairs of touching particles, up to 50000; there the
  -- search stops.
  pub length-detect_collisions :
      length (detect_collisions lib s).contacts ≡ min (touching_pairs lib s.particles) max_contacts
  unfolding detect_collisions
  length-detect_collisions = omega (
    arith,
    length-collide_all lib s.params (length s.particles) s.particles [] (omega arith) (omega arith),
  )
