-- ===== src/Dem/Run/Rest.antt =====
-- When the particles of `DEMSimulation::run` are at rest.
-- The sum of numbers, the first added to one that is given, in their order.
use ai_solo_coder_task_a.Dem.{DemLibrary, DemParticle}
use ai_solo_coder_task_a.Dem.Rates.{count_if, sum_if}
use ai_solo_coder_task_a.Dem.Run.{is_at_rest}
use ai_solo_coder_task_a.Dem.Vectors.{vector_norm}
use ai_solo_coder_task_a.Double.{double_lt}
use ai_solo_coder_task_a.Double.Arithmetic.{add, div, of_nat}
use ai_solo_coder_task_a.Prelude.{
  Bool, Bool-cases, List, [], arith, if◌then◌else◌, inl, inr, length, ltb, lt→ltb, not, refl, ℕ,
  ◌∷◌, ◌≡◌,
}

abbrev pub added : ℕ → List ℕ → ℕ
added total [] = total
added total (x ∷ xs) = added (add total x) xs

-- The mean of the speeds, 0 for none, is below 1e-12.
abbrev pub are_slow : List ℕ → Bool
are_slow [] = double_lt 0 0x3D719799812DEA11
are_slow (x ∷ xs) = double_lt (div (added 0 (x ∷ xs)) (of_nat (length (x ∷ xs)))) 0x3D719799812DEA11

module _ (lib : DemLibrary) where
  -- The speeds of the particles that are not fixed.
  abbrev pub free_speeds : List DemParticle → List ℕ
  free_speeds [] = []
  free_speeds (p ∷ ps) =
      let rest = free_speeds ps in if p.is_fixed then rest else vector_norm lib p.velocity ∷ rest

  sum_if-added :
      (total : ℕ) (ps : List DemParticle)
      → sum_if (λ (p : DemParticle). not p.is_fixed) (λ p. vector_norm lib p.velocity) total ps
        ≡ added total (free_speeds ps)
  unfolding sum_if
  sum_if-added total [] = refl
  sum_if-added total (p ∷ ps) = elim (Bool-cases p.is_fixed) [
    | inl e ↦ rw e (sum_if-added total ps)
    | inr e ↦ rw e (sum_if-added (add total (vector_norm lib p.velocity)) ps)
  ]

  count_if-length :
      (ps : List DemParticle)
      → count_if (λ (p : DemParticle). not p.is_fixed) ps ≡ length (free_speeds ps)
  unfolding count_if
  count_if-length [] = refl
  count_if-length (p ∷ ps) = elim (Bool-cases p.is_fixed) [
    | inl e ↦ rw e (omega (arith, count_if-length ps))
    | inr e ↦ rw e (omega (arith, count_if-length ps))
  ]

  pub is_at_rest-are_slow : (ps : List DemParticle) → is_at_rest lib ps ≡ are_slow (free_speeds ps)
  unfolding is_at_rest
  is_at_rest-are_slow ps = rw (sum_if-added 0 ps, count_if-length ps) (go (free_speeds ps))
    where
      go :
          (speeds : List ℕ)
          → double_lt
              (if ltb 0 (length speeds)
                then div (added 0 speeds) (of_nat (length speeds))
                else added 0 speeds)
              0x3D719799812DEA11
            ≡ are_slow speeds
      go [] = refl
      go (x ∷ xs) = rw (lt→ltb 0 (length (x ∷ xs)) (omega arith)) refl
