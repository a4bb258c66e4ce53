-- ===== src/Dem/Seeding/Apart.antt =====
-- The particles that `generate_particles` makes.
-- What is said of an earlier particle and a later one: they do not overlap, and their ids rise.
use ai_solo_coder_task_a.Dem.{DemLibrary, DemParticle, DemSimulation}
use ai_solo_coder_task_a.Dem.Seeding.{
  generate_from, generate_one, generate_particles, new_particle, overlapping, random_point_in_crack,
}
use ai_solo_coder_task_a.Dem.Vectors.{vector_norm, vector_sub}
use ai_solo_coder_task_a.Double.{double_lt}
use ai_solo_coder_task_a.Double.Arithmetic.{add}
use ai_solo_coder_task_a.Prelude.{
  All, Bool, Bool-cases, List, [], add-zero, arith, false, inl, inr, length, length-append, refl,
  suc, zero, ℕ, ◌++◌, ◌+◌, ◌<◌, ◌||◌, ◌∷◌, ◌≡◌, ◌≤◌,
}

pub record Placed (lib : DemLibrary) (p q : DemParticle) : Type 0 where
  pub apart :
      double_lt (vector_norm lib (vector_sub q.position p.position)) (add q.radius p.radius) ≡ false
  pub earlier : p.id < q.id

-- All pairs of a list, in its order.
abbrev pub AllPairs {ℓ κ} : {A : Type ℓ} → (A → A → Type κ) → List A → Type κ
AllPairs R [] = Unit
AllPairs R (x ∷ xs) = All (R x) xs × AllPairs R xs

-- Neither fixed nor of the boundary, with an id below the bound.
abbrev pub IsLoose : ℕ → DemParticle → Type 0
IsLoose bound p = (p.id < bound) × (p.is_fixed ≡ false) × (p.is_boundary ≡ false)

All-snoc {ℓ κ} :
    {A : Type ℓ} (P : A → Type κ) (xs : List A) (x : A) → All P xs → P x → All P (xs ++ x ∷ [])
All-snoc P [] x h p = (p, tt)
All-snoc P (y ∷ xs) x h p = (h.0, All-snoc P xs x h.1 p)

AllPairs-snoc {ℓ κ} :
    {A : Type ℓ} (R : A → A → Type κ) (xs : List A) (x : A)
    → AllPairs R xs
    → All (λ y. R y x) xs
    → AllPairs R (xs ++ x ∷ [])
AllPairs-snoc R [] x h k = (tt, tt)
AllPairs-snoc R (y ∷ xs) x h k = (All-snoc (R y) xs x h.0 k.0, AllPairs-snoc R xs x h.1 k.1)

IsLoose_mono : (n : ℕ) (ps : List DemParticle) → All (IsLoose n) ps → All (IsLoose (n + 1)) ps
IsLoose_mono n [] h = tt
IsLoose_mono n (p ∷ ps) h = ((omega (arith, h.0.0), h.0.1, h.0.2), IsLoose_mono n ps h.1)

neither : (a b : Bool) → (a || b) ≡ false → (a ≡ false) × (b ≡ false)
neither a b h = ground arith

-- A particle that is accepted is apart from all that stand.
overlapping-Placed :
    (lib : DemLibrary) (q : DemParticle) (ps : List DemParticle)
    → overlapping lib q.position q.radius ps ≡ false
    → All (IsLoose q.id) ps
    → All (λ p. Placed lib p q) ps
unfolding overlapping
overlapping-Placed lib q [] h k = tt
overlapping-Placed lib q (p ∷ ps) h k =
    let (here, there) = neither _ (overlapping lib q.position q.radius ps) h in
    (record { apart = here; earlier = k.0.0 }, overlapping-Placed lib q ps there k.1)

module _ {Json : Type 0} (lib : DemLibrary) where
  record Seeded (i : ℕ) (s : DemSimulation Json) : Type 0 where
    pub placed : AllPairs (Placed lib) s.particles
    pub loose : All (IsLoose i) s.particles
    pub few : length s.particles ≤ i

  generate_one-Seeded :
      (i : ℕ) (s : DemSimulation Json) → Seeded i s → Seeded (i + 1) (generate_one lib i s)
  unfolding generate_one
  generate_one-Seeded i s h =
      let radius = lib.uniform s.rng s.params.min_particle_radius s.params.max_particle_radius in
      let drawn = random_point_in_crack lib s.geometry (s.rng + 1) in
      let q = new_particle lib s.params s.material i drawn.0 radius in
      elim (Bool-cases (overlapping lib drawn.0 radius s.particles)) [
        | inl taken ↦ record {
          placed = rw taken h.placed;
          loose = rw taken (IsLoose_mono i s.particles h.loose);
          few = rw taken (omega (arith, h.few));
        }
        | inr free ↦ record {
          placed = rw free (
              AllPairs-snoc (Placed lib) s.particles q h.placed
                (overlapping-Placed lib q s.particles free h.loose));
          loose = rw free (
              All-snoc (IsLoose (i + 1)) s.particles q (IsLoose_mono i s.particles h.loose)
                (omega arith, refl, refl));
          few = rw free (omega (arith, length-append s.particles (q ∷ []), h.few));
        }
      ]

  generate_from-Seeded :
      (left i : ℕ) (s : DemSimulation Json)
      → Seeded i s
      → Seeded (i + left) (generate_from lib left i s)
  unfolding generate_from
  generate_from-Seeded zero i s h = rw (add-zero i) h
  generate_from-Seeded (suc left) i s h =
      let e : i + suc left ≡ i + 1 + left = omega arith in
      rw e (generate_from-Seeded left (i + 1) (generate_one lib i s) (generate_one-Seeded i s h))

  -- Of the particles that are made no two overlap, their ids rise below the number of rounds, so that
  -- there are no more of them than rounds, and none is fixed or of the boundary.
  pub generate_particles-Placed :
      (count : ℕ) (s : DemSimulation Json)
      → let particles = (generate_particles lib count s).particles in
        AllPairs (Placed lib) particles × All (IsLoose count) particles × (length particles ≤ count)
  unfolding generate_particles
  generate_particles-Placed count s =
      let none_yet : Seeded 0 (record s { particles = [] }) = record {
        placed = tt;
        loose = tt;
        few = omega arith;
      } in
      let h = generate_from-Seeded count 0 (record s { particles = [] }) none_yet in
      let e : 0 + count ≡ count = omega arith in let h' = rw e at h in (h'.placed, h'.loose, h'.few)
