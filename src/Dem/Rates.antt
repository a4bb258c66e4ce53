-- ===== src/Dem/Rates.antt =====
-- What the result says of the filling: the `calculate_` functions of
-- backend/algorithms/dem_simulation.cpp.
pub mod Bounds
use ai_solo_coder_task_a.Dem.{
  DemContact, DemGeometry, DemLibrary, DemParticle, DemSimulation, Vector,
}
use ai_solo_coder_task_a.Dem.Forces.{four_thirds}
use ai_solo_coder_task_a.Dem.Seeding.{half_len, half_micro}
use ai_solo_coder_task_a.Dem.Vectors.{vector_sub}
use ai_solo_coder_task_a.Double.{double_lt, magnitude}
use ai_solo_coder_task_a.Double.Arithmetic.{
  add, div, double_le, double_max, double_min, mul, of_nat, sub,
}
use ai_solo_coder_task_a.Prelude.{
  Bool, List, [], if◌then◌else◌, length, ltb, not, ℕ, ◌&&◌, ◌+◌, ◌==◌, ◌||◌, ◌∷◌,
}

unfoldable pub is_inside_crack : DemGeometry → Vector → Bool
unfolding half_len half_micro
is_inside_crack geometry point =
    let rel = vector_sub point geometry.crack_origin in
    double_le (magnitude rel.0) (half_len geometry.crack_length)
    && double_le (magnitude rel.1) (half_micro geometry.crack_width)
    && double_le (magnitude rel.2) (half_micro geometry.crack_depth)

-- A sum from 0 on, over the elements that a test keeps.
unfoldable pub sum_if : {A : Type 0} → (A → Bool) → (A → ℕ) → ℕ → List A → ℕ
sum_if keep f total [] = total
sum_if keep f total (x ∷ xs) = sum_if keep f (if keep x then add total (f x) else total) xs

unfoldable pub count_if : {A : Type 0} → (A → Bool) → List A → ℕ
count_if keep [] = 0
count_if keep (x ∷ xs) = (if keep x then 1 else 0) + count_if keep xs

-- (4.0/3.0) * M_PI * pow(radius, 3)
abbrev volume : DemLibrary → DemParticle → ℕ
volume lib p = mul (mul four_thirds 0x400921FB54442D18) (lib.pow p.radius 0x4008000000000000)

abbrev is_filling : DemGeometry → DemParticle → Bool
is_filling geometry p = not p.is_boundary && is_inside_crack geometry p.position

module _ {Json : Type 0} (lib : DemLibrary) (s : DemSimulation Json) where
  unfoldable pub calculate_filling_rate : ℕ
  unfolding sum_if is_inside_crack
  calculate_filling_rate =
      let g = s.geometry in
      let micro : ℕ = 0x3EB0C6F7A0B5ED8D in
      let crack_volume =
        mul (mul (mul (mul g.crack_length g.crack_width) micro) g.crack_depth) micro in
      let particle_volume = sum_if (is_filling g) (volume lib) 0 s.particles in
      if double_le g.crack_length 0 || double_le g.crack_width 0 || double_le g.crack_depth 0
      then 0
      else if double_lt 0 crack_volume
      then double_min 0x3FF0000000000000 (div particle_volume crack_volume)
      else 0

  unfoldable pub calculate_packing_density : ℕ
  unfolding sum_if half_len half_micro
  calculate_packing_density =
      let g = s.geometry in
      let occupied_volume = sum_if (λ p. not p.is_boundary) (volume lib) 0 s.particles in
      let total_volume =
        mul (mul (mul 0x4020000000000000 (half_len g.crack_length)) (half_micro g.crack_width))
          (half_micro g.crack_depth) in
      if double_lt 0 total_volume then div occupied_volume total_volume else 0

  -- The variance of the heights of the particles inside the crack; 0 if there is none.
  height_variance : ℕ
  unfolding sum_if count_if is_inside_crack
  height_variance =
      let inside = is_filling s.geometry in
      let count = count_if inside s.particles in
      let mean_z = div (sum_if inside (λ p. p.position.2) 0 s.particles) (of_nat count) in
      let squares =
        sum_if inside (λ p. lib.pow (sub p.position.2 mean_z) 0x4000000000000000) 0 s.particles in
      if ltb 0 count then div squares (of_nat count) else 0

  unfoldable pub calculate_surface_smoothness : ℕ
  unfolding height_variance
  calculate_surface_smoothness =
      let roughness = lib.sqrt height_variance in
      let one : ℕ = 0x3FF0000000000000 in
      let ratio = div roughness (mul s.params.max_particle_radius 0x4000000000000000) in
      if ltb (length s.particles) 2 then one else double_max 0 (sub one (double_min one ratio))

  unfoldable pub calculate_bonding_strength : ℕ
  unfolding sum_if count_if
  calculate_bonding_strength =
      let pressed = λ (c : DemContact). double_lt 0 c.normal_force in
      let share =
        λ (c : DemContact). div c.normal_force (double_max 0x3E112E0BE826D695 c.overlap) in  -- 1e-9
      let total_bond = sum_if pressed share 0 s.contacts in
      let contact_count = count_if pressed s.contacts in
      let avg_bond = div total_bond (of_nat contact_count) in
      let normalized = div avg_bond (mul s.params.bond_strength 0x3EB0C6F7A0B5ED8D) in  -- 1e-6
      if contact_count == 0 then 0x3FE0000000000000 else double_min 0x3FF0000000000000 normalized

  unfoldable pub calculate_durability : ℕ
  unfolding calculate_filling_rate calculate_bonding_strength calculate_surface_smoothness
      calculate_packing_density
  calculate_durability =
      add
        (add
          (add (mul 0x3FD6666666666666 calculate_filling_rate)
            (mul 0x3FD3333333333333 calculate_bonding_strength))
          (mul 0x3FC999999999999A calculate_surface_smoothness))
        (mul 0x3FC3333333333333 calculate_packing_density)

  unfoldable pub calculate_porosity : ℕ
  unfolding calculate_packing_density
  calculate_porosity = sub 0x3FF0000000000000 calculate_packing_density
