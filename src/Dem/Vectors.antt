-- ===== src/Dem/Vectors.antt =====
-- The vectors of backend/algorithms/dem_simulation.cpp.
use ai_solo_coder_task_a.Dem.{DemLibrary, Vector}
use ai_solo_coder_task_a.Double.{double_lt}
use ai_solo_coder_task_a.Double.Arithmetic.{add, div, mul, sub}
use ai_solo_coder_task_a.Prelude.{if◌then◌else◌, ℕ}

module _ (lib : DemLibrary) where
  unfoldable pub vector_norm : Vector → ℕ
  vector_norm (x, y, z) = lib.sqrt (add (add (mul x x) (mul y y)) (mul z z))

  unfoldable pub vector_normalize : Vector → Vector
  unfolding vector_norm
  vector_normalize (x, y, z) =
      let n = vector_norm (x, y, z) in
      if double_lt n 0x3CD203AF9EE75616  -- 1e-15
      then (0, 0, 0)
      else (div x n, div y n, div z n)

unfoldable pub vector_sub : Vector → Vector → Vector
vector_sub (a, b, c) (x, y, z) = (sub a x, sub b y, sub c z)

unfoldable pub vector_add : Vector → Vector → Vector
vector_add (a, b, c) (x, y, z) = (add a x, add b y, add c z)

unfoldable pub vector_mul : Vector → ℕ → Vector
vector_mul (x, y, z) s = (mul x s, mul y s, mul z s)

unfoldable pub vector_dot : Vector → Vector → ℕ
vector_dot (a, b, c) (x, y, z) = add (add (mul a x) (mul b y)) (mul c z)
