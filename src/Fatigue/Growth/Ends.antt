-- ===== src/Fatigue/Growth/Ends.antt =====
-- The loop of `estimate_remaining_life` ends.
-- The time `k` hours after `t`, as the loop adds it up.
use ai_solo_coder_task_a.Double.{double_lt}
use ai_solo_coder_task_a.Double.Arithmetic.{MathLibrary, add, div, double_le}
use ai_solo_coder_task_a.Fatigue.{ParisLawParameters}
use ai_solo_coder_task_a.Fatigue.Growth.{estimate_remaining_life, growth_fuel, growth_time, hour}
use ai_solo_coder_task_a.Fatigue.Stress.{runge_kutta_step}
use ai_solo_coder_task_a.Prelude.{
  Bool, Bool-cases, ap, arith, false, false≢true, inl, inr, refl, some, suc, sym, true, zero, ℕ,
  ℕ_discrete, ◌&&◌, ◌+◌, ◌<◌, ◌∙◌, ◌≡◌, ◌≤◌, ◌⊎◌,
}

pub time_at : ℕ → ℕ → ℕ
time_at zero t = t
time_at (suc k) t = time_at k (add t hour)

time_at-add : (m n t : ℕ) → time_at (m + n) t ≡ time_at n (time_at m t)
unfolding time_at
time_at-add zero n t = let e : 0 + n ≡ n = omega arith in rw e
time_at-add (suc m) n t =
    let e : suc m + n ≡ suc (m + n) = omega arith in rw e (time_at-add m n (add t hour))

time_at-suc : (k t : ℕ) → time_at (k + 1) t ≡ add (time_at k t) hour
unfolding time_at
time_at-suc k t = time_at-add k 1 t

time_at-zero : (t : ℕ) → time_at 0 t ≡ t
unfolding time_at
time_at-zero t = refl

-- The sums from zero on are exact: 25200000.0, 50400000.0, 75600000.0 and 100000800.0.
first_quarter : time_at 7000 0 ≡ 0x4178085800000000
unfolding time_at add
first_quarter = refl

second_quarter : time_at 7000 0x4178085800000000 ≡ 0x4188085800000000
unfolding time_at add
second_quarter = refl

third_quarter : time_at 7000 0x4188085800000000 ≡ 0x4192064200000000
unfolding time_at add
third_quarter = refl

last_quarter : time_at 6778 0x4192064200000000 ≡ 0x4197D79080000000
unfolding time_at add
last_quarter = refl

-- After 27778 hours the time is no longer below 1e8 seconds.
limit_reached : double_lt (time_at 27778 0) 0x4197D78400000000 ≡ false
unfolding double_lt
limit_reached =
    let whole : time_at 27778 0 ≡ 0x4197D79080000000 =
      (time_at-add 7000 20778 0
        ∙ ap (time_at 20778) first_quarter
        ∙ time_at-add 7000 13778 0x4178085800000000
        ∙ ap (time_at 13778) second_quarter
        ∙ time_at-add 7000 6778 0x4188085800000000
        ∙ ap (time_at 6778) third_quarter
        ∙ last_quarter) in
    rw whole refl

and_right : (a b : Bool) → (a && b) ≡ true → b ≡ true
and_right a b h = ground arith

-- A round that goes on is one before the limit.
below_limit :
    (k a critical_length : ℕ)
    → k ≤ 27778
    → (double_lt a critical_length && double_lt (time_at k 0) 0x4197D78400000000) ≡ true
    → k < 27778
below_limit k a critical_length h e = elim (ℕ_discrete k 27778) [
  | yes last ↦
      let over : double_lt (time_at k 0) 0x4197D78400000000 ≡ false = rw last limit_reached in
      absurd (false≢true (sym over ∙ and_right (double_lt a critical_length) _ e))
  | no other ↦ omega arith
]

module _ (lib : MathLibrary) (params : ParisLawParameters) where
  growth_time-ends :
      (fuel k critical_length a : ℕ)
      → k + fuel ≡ growth_fuel
      → k ≤ 27778
      → (n : ℕ) × (n ≤ 27778)
        × (growth_time lib params fuel critical_length a (time_at k 0) ≡ some (time_at n 0))
  unfolding growth_time
  growth_time-ends zero k critical_length a e h = absurd (omega arith)
  growth_time-ends (suc fuel) k critical_length a e h =
      let t = time_at k 0 in
      let da = runge_kutta_step lib params a t hour in
      elim (Bool-cases (double_lt a critical_length && double_lt t 0x4197D78400000000)) [
        | inr done ↦ (k, h, rw done)
        | inl on ↦
            let before = below_limit k a critical_length h on in
            let next = sym (time_at-suc k 0) in
            elim (Bool-cases (double_lt da 0x3CD203AF9EE75616)) [
              | inl slow ↦ (k + 1, omega arith, rw (on, slow) (ap some next))
              | inr grows ↦
                  let (n, small, later) =
                    growth_time-ends fuel (k + 1) critical_length (add a da) (omega arith)
                      (omega arith) in
                  (n, small, rw (on, grows) (rw next later))
            ]
      ]

  -- For all parameters and lengths the loop ends within its fuel: the life that is estimated is 0, or
  -- the sum of at most 27778 hours in seconds, divided by an hour.
  pub estimate_remaining_life-ends :
      (initial_length critical_length : ℕ)
      → (estimate_remaining_life lib params initial_length critical_length ≡ some 0)
        ⊎ ((n : ℕ) × (n ≤ 27778)
            × (estimate_remaining_life lib params initial_length critical_length
                ≡ some (div (time_at n 0) hour)))
  unfolding estimate_remaining_life
  estimate_remaining_life-ends initial_length critical_length =
      elim (Bool-cases (double_le critical_length initial_length)) [
        | inl critical ↦ inl (rw critical)
        | inr sound ↦
            let (n, small, e) =
              growth_time-ends growth_fuel 0 critical_length initial_length refl (omega arith) in
            let here =
              ap (growth_time lib params growth_fuel critical_length initial_length)
                (sym (time_at-zero 0)) in
            inr (n, small, rw (sound, here ∙ e))
      ]
