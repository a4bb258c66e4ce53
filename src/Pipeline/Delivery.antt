-- ===== src/Pipeline/Delivery.antt =====
-- What the pipeline that `MonitorServer::init` builds delivers.
use ai_solo_coder_task_a.Common.{CrackInfo}
use ai_solo_coder_task_a.Outcome.{faulted, returned}
use ai_solo_coder_task_a.Pipeline.Router.{ParsedLaserMessage}
use ai_solo_coder_task_a.Pipeline.System.{
  Step, System, alert_ws_runs, crack_fanout_runs, crack_router_runs, dem_simulator_runs,
  fatigue_predictor_runs, laser_arrives, laser_fanout_runs, new_system, run_steps, step,
  vibration_arrives, vibration_handled, wire_pipeline,
}
use ai_solo_coder_task_a.Pipeline.Wiring.{
  Leads, Leads-same, Wired, lasers_of, map-append, seen, step-Leads, vibrations_of,
  wire_pipeline-Wired,
}
use ai_solo_coder_task_a.Prelude.{
  List, [], append_assoc, inl, inr, map, refl, ℕ, ◌++◌, ◌∙◌, ◌∷◌, ◌≡◌, ◌≢◌, ◌⊎◌,
}

module _ {Json Prediction Simulation : Type 0} where
  first-cases :
      (first : Step Json Prediction Simulation) (steps : List (Step Json Prediction Simulation))
      → ((msg : ParsedLaserMessage Json) × (first ≡ laser_arrives msg))
        ⊎ ((lasers_of (first ∷ []) ≡ [])
            × (lasers_of (first ∷ steps) ≡ lasers_of steps)
            × (vibrations_of (first ∷ steps) ≡ vibrations_of (first ∷ []) ++ vibrations_of steps))
  first-cases (laser_arrives msg) steps = inl (msg, refl)
  first-cases (vibration_arrives msg) steps = inr (refl, refl, refl)
  first-cases laser_fanout_runs steps = inr (refl, refl, refl)
  first-cases crack_router_runs steps = inr (refl, refl, refl)
  first-cases crack_fanout_runs steps = inr (refl, refl, refl)
  first-cases fatigue_predictor_runs steps = inr (refl, refl, refl)
  first-cases dem_simulator_runs steps = inr (refl, refl, refl)
  first-cases alert_ws_runs steps = inr (refl, refl, refl)

  module _ (predict : ℕ → CrackInfo → Prediction) (simulate : ℕ → CrackInfo → Simulation) where
    laser_arrives-faulted :
        (q : ℕ) (s : System Json Prediction Simulation) (msg : ParsedLaserMessage Json)
        → Wired q s
        → step predict simulate (laser_arrives msg) s ≡ faulted
    unfolding step
    laser_arrives-faulted q s msg w = rw w.laser_out_null refl

    run_steps-Wired :
        (steps : List (Step Json Prediction Simulation)) (q : ℕ)
        (s : System Json Prediction Simulation)
        → Wired q s
        → (lasers_of steps ≢ []) × (run_steps predict simulate steps s ≡ faulted)
          ⊎ (lasers_of steps ≡ [])
            × Leads q s
                (run_steps predict simulate steps s)
                (map vibration_handled (vibrations_of steps))
    unfolding run_steps
    run_steps-Wired [] q s w = inr (refl, Leads-same q s _ w refl)
    run_steps-Wired (first ∷ steps) q s w = elim (first-cases first steps) [
      | inl (msg, e) ↦ rw e (inl (λ h. cc, rw (laser_arrives-faulted q s msg w) refl))
      | inr (none_first, lasers, vibrations) ↦
          let (s', e, w', h) = step-Leads predict simulate q s w first none_first in
          elim (run_steps-Wired steps q s' w') [
            | inl (some_laser, f) ↦ inl (rw lasers some_laser, rw (e, f) refl)
            | inr (no_laser, later) ↦
                let (s'', f, w'', k) = later in
                inr (
                  lasers ∙ no_laser,
                  (
                    s'',
                    rw (e, f) refl,
                    w'',
                    rw
                        (
                          vibrations,
                          map-append vibration_handled (vibrations_of (first ∷ []))
                              (vibrations_of steps),
                        )
                        (k ∙ (rw h (append_assoc (seen q s) _ _))),
                  ),
                )
          ]
    ]

    -- For every sequence of steps of the threads, from the pipeline as `init` wires it: if a laser
    -- message arrives at any time, its callback pushes it through a null pointer. If none does, the
    -- sequence runs to its end, and the alert module has taken, or still has before it in its vibration
    -- queue, exactly the vibration messages that arrived, in their order, and has taken nothing else.
    pub run_steps-wire_pipeline :
        (steps : List (Step Json Prediction Simulation))
        → (lasers_of steps ≢ [])
            × (run_steps predict simulate steps (wire_pipeline new_system) ≡ faulted)
          ⊎ (lasers_of steps ≡ [])
            × ((s : System Json Prediction Simulation) × (run_steps predict simulate steps
                    (wire_pipeline new_system)
                  ≡ returned s)
                × (s.handled ++ map vibration_handled (s.vibrations 12)
                    ≡ map vibration_handled (vibrations_of steps)))
    unfolding wire_pipeline new_system
    run_steps-wire_pipeline steps =
        elim (run_steps-Wired steps 12 (wire_pipeline new_system) wire_pipeline-Wired) [
          | inl fault ↦ inl fault
          | inr (no_laser, l) ↦ let (s, e, _, h) = l in inr (no_laser, (s, e, h))
        ]
