-- ===== src/Dem/Run/Stops.antt =====
-- How many time steps a run takes, and what it reports of them.
use ai_solo_coder_task_a.Dem.{DemLibrary, DemParticle, DemSimulation}
use ai_solo_coder_task_a.Dem.Run.{Totals, is_at_rest, observe, report, run, run_loop}
use ai_solo_coder_task_a.Dem.Run.Rest.{are_slow, free_speeds, is_at_rest-are_slow}
use ai_solo_coder_task_a.Dem.Steps.{contact_free_steps, step, steps}
use ai_solo_coder_task_a.Dem.Steps.Contacts.{steps-contact_free_steps}
use ai_solo_coder_task_a.Prelude.{
  ==_iff, Bool, Bool-cases, List, [], ap, arith, false, false≢true, if◌then◌else◌, inl, inr, length,
  length-append, ltb, ltb→lt, lt→ltb, refl, suc, sym, true, zero, ℕ, ◌%◌, ◌&&◌, ◌++◌, ◌+◌, ◌/◌, ◌<◌,
  ◌==◌, ◌∙◌, ◌∷◌, ◌≡◌, ◌≤◌, ◌⊎◌,
}

length-sampled :
    (i : ℕ) (xs : List ℕ) (x : ℕ)
    → length (if i % 10 == 0 then xs ++ x ∷ [] else xs) + (i + 9) / 10
      ≡ length xs + (i + 1 + 9) / 10
length-sampled i xs x = elim (Bool-cases (i % 10 == 0)) [
  | inl sampled ↦
      rw sampled (omega (arith, length-append xs (x ∷ []), (==_iff (i % 10) 0).0 sampled))
  | inr other ↦ rw other (ground arith)
]

length-observe :
    (lib : DemLibrary) (i : ℕ) (ps : List DemParticle) (t : Totals)
    → length (observe lib i ps t).energy_history + (i + 9) / 10
      ≡ length t.energy_history + (i + 1 + 9) / 10
unfolding observe
length-observe lib i ps t = length-sampled i t.energy_history _

and_parts : (a b c : Bool) → (a && b && c) ≡ true → (a ≡ true) × (b ≡ true) × (c ≡ true)
and_parts a b c h = ground arith

module _ {Json : Type 0} (lib : DemLibrary) where
  -- In the round that made the `k`-th step from round `i` on a rest is noticed: its number is a positive
  -- multiple of a hundred, and the particles are at rest.
  NoticesRest : ℕ → DemSimulation Json → ℕ → Type 0
  NoticesRest i s k =
      ((i + k) % 100 ≡ 1) × (1 < i + k) × (is_at_rest lib (steps lib k s).particles ≡ true)

  -- `n` steps of the `left` ones, from round `i` on: all, or up to the first rest that is noticed.
  record RunsFor (left i : ℕ) (s : DemSimulation Json) (t : Totals) (n : ℕ) : Type 0 where
    pub within : n ≤ left
    pub state : (run_loop lib left i s t).0 ≡ steps lib n s
    pub ending : (n ≡ left) ⊎ NoticesRest i s n
    pub first : (k : ℕ) → 0 < k → k < n → NoticesRest i s k → ⊥
    pub samples :
        length (run_loop lib left i s t).1.energy_history + (i + 9) / 10
        ≡ length t.energy_history + (i + n + 9) / 10

  goes_on :
      (i : ℕ) (s : DemSimulation Json)
      → (i % 100 == 0 && ltb 0 i && is_at_rest lib (step lib s).particles) ≡ false
      → NoticesRest i s 1
      → ⊥
  unfolding NoticesRest steps
  goes_on i s goes (hundred, positive, slow) =
      let a : (i % 100 == 0) ≡ true = (==_iff (i % 100) 0).1 (omega arith) in
      let b : ltb 0 i ≡ true = lt→ltb 0 i (omega arith) in
      false≢true (sym goes ∙ rw (a, b, slow) refl)

  NoticesRest-suc :
      (i : ℕ) (s : DemSimulation Json) (k : ℕ)
      → NoticesRest i s (suc k)
      → NoticesRest (i + 1) (step lib s) k
  unfolding NoticesRest steps
  NoticesRest-suc i s k (hundred, positive, slow) = (omega (arith, hundred), omega arith, slow)

  suc-NoticesRest :
      (i : ℕ) (s : DemSimulation Json) (k : ℕ)
      → NoticesRest (i + 1) (step lib s) k
      → NoticesRest i s (suc k)
  unfolding NoticesRest steps
  suc-NoticesRest i s k (hundred, positive, slow) = (omega (arith, hundred), omega arith, slow)

  none_earlier :
      (i : ℕ) (s : DemSimulation Json) (n : ℕ)
      → (i % 100 == 0 && ltb 0 i && is_at_rest lib (step lib s).particles) ≡ false
      → ((k : ℕ) → 0 < k → k < n → NoticesRest (i + 1) (step lib s) k → ⊥)
      → (k : ℕ) → 0 < k
      → k < suc n
      → NoticesRest i s k
      → ⊥
  none_earlier i s n goes later zero p q r = absurd (omega arith)
  none_earlier i s n goes later (suc zero) p q r = goes_on i s goes r
  none_earlier i s n goes later (suc (suc k)) p q r =
      later (suc k) (omega arith) (omega arith) (NoticesRest-suc i s (suc k) r)

  run_loop-RunsFor :
      (left i : ℕ) (s : DemSimulation Json) (t : Totals) → (n : ℕ) × RunsFor left i s t n
  unfolding run_loop steps NoticesRest
  run_loop-RunsFor zero i s t = (
    0,
    record {
      within = omega arith;
      state = refl;
      ending = inl refl;
      first = λ k p q r. omega arith;
      samples = omega arith;
    },
  )
  run_loop-RunsFor (suc left) i s t =
      let s' = step lib s in
      let t' = observe lib i s'.particles t in
      let seen = length-observe lib i s'.particles t in
      elim (Bool-cases (i % 100 == 0 && ltb 0 i && is_at_rest lib s'.particles)) [
        | inl rests ↦
            let (hundred, late, slow) = and_parts (i % 100 == 0) (ltb 0 i) _ rests in
            let even : i % 100 ≡ 0 = (==_iff (i % 100) 0).0 hundred in
            let positive : 0 < i = ltb→lt 0 i late in
            (
              1,
              record {
                within = omega arith;
                state = rw rests;
                ending = inr (omega arith, omega arith, slow);
                first = λ k p q r. omega arith;
                samples = rw rests seen;
              },
            )
        | inr goes ↦
            let (n, later) = run_loop-RunsFor left (i + 1) s' t' in
            (
              suc n,
              record {
                within = omega (arith, later.within);
                state = rw goes later.state;
                ending = elim later.ending [
                  | inl all ↦ inl (omega arith)
                  | inr rest ↦ inr (suc-NoticesRest i s n rest)
                ];
                first = none_earlier i s n goes later.first;
                samples = rw goes (omega (arith, later.samples, seen));
              },
            )
      ]

  -- A rest after the `k`-th step: `k` is one more than a positive multiple of a hundred, and the free
  -- particles that `k` steps without contacts give move at less than 1e-12 on average.
  abbrev pub RestsAfter : DemSimulation Json → ℕ → Type 0
  RestsAfter s k =
      (k % 100 ≡ 1)
      × (1 < k)
      × (are_slow (free_speeds lib (contact_free_steps lib k s).particles) ≡ true)

  -- A run makes `n` steps: up to the first after which the particles rest, of those after every hundred,
  -- the hundred-and-first, the two-hundred-and-first and so on, or else all that it is given. Its
  -- particles are those of `n` steps without contacts. One sample is taken in ten steps, and the number of
  -- steps reported is the one asked for, whatever `n` is.
  pub run_lem :
      (max_steps : ℕ) (s : DemSimulation Json)
      → let (s', result) = run lib max_steps s in
        (n : ℕ) × (n ≤ max_steps)
        × ((n ≡ max_steps) ⊎ RestsAfter s n)
        × ((k : ℕ) → 0 < k → k < n → RestsAfter s k → ⊥)
        × (s'.particles ≡ (contact_free_steps lib n s).particles)
        × (length result.energy_history ≡ (n + 9) / 10)
        × (result.total_steps ≡ max_steps)
  unfolding run report NoticesRest
  run_lem max_steps s =
      let start : Totals = record {
        max_force = 0;
        sum_force = 0;
        energy_history = [];
        force_history = [];
      } in
      let (n, runs) = run_loop-RunsFor max_steps 0 s start in
      let same = ap (λ (t : DemSimulation Json). t.particles) runs.state in
      let slow_eq = λ (k : ℕ).
        ap (is_at_rest lib) (steps-contact_free_steps lib k s)
        ∙ is_at_rest-are_slow lib (contact_free_steps lib k s).particles in
      (
        n,
        runs.within,
        elim runs.ending [
          | inl all ↦ inl all
          | inr (hundred, positive, slow) ↦
              inr (omega (arith, hundred), omega arith, sym (slow_eq n) ∙ slow)
        ],
        λ k p q (hundred, positive, slow).
            runs.first k p q (omega (arith, hundred), omega arith, slow_eq k ∙ slow),
        same ∙ steps-contact_free_steps lib n s,
        omega (arith, runs.samples),
        refl,
      )
