-- ===== src/Pipeline/Wiring.antt =====
-- The pipeline that `MonitorServer::init` builds.
use ai_solo_coder_task_a.Common.{CrackInfo}
use ai_solo_coder_task_a.LockFreeQueue.{update}
use ai_solo_coder_task_a.Outcome.{Outcome, returned}
use ai_solo_coder_task_a.Pipeline.Queues.{pop_from, push_to}
use ai_solo_coder_task_a.Pipeline.Router.{ParsedLaserMessage, ParsedVibrationMessage}
use ai_solo_coder_task_a.Pipeline.System.{
  Handled, Step, System, alert_ws_runs, crack_fanout_runs, crack_router_runs, dem_simulator_runs,
  fatigue_predictor_runs, laser_arrives, laser_fanout_runs, new_system, run_alert_ws,
  run_crack_fanout, run_crack_router, run_dem_simulator, run_fatigue_predictor, run_laser_fanout,
  step, vibration_arrives, vibration_handled, wire_pipeline,
}
use ai_solo_coder_task_a.Prelude.{
  List, Option, [], ap, append-nil, append_assoc, arith, inl, inr, map, none, refl, some, sym, ℕ,
  ◌++◌, ◌∷◌, ◌≡◌, ◌⊎◌,
}

module _ {T : Type 0} where
  pop_from_empty :
      (p : Option ℕ) (queues : ℕ → List T) → ((k : ℕ) → queues k ≡ []) → pop_from p queues ≡ none
  unfolding pop_from
  pop_from_empty none queues h = refl
  pop_from_empty (some q) queues h = rw (h q) refl

  pop_from_null : (p : Option ℕ) (queues : ℕ → List T) → p ≡ none → pop_from p queues ≡ none
  unfolding pop_from
  pop_from_null p queues e = rw e refl

  pop_from_cons :
      (q : ℕ) (queues : ℕ → List T) (msg : T) (rest : List T)
      → queues q ≡ msg ∷ rest
      → pop_from (some q) queues ≡ some (msg, update queues q rest)
  unfolding pop_from
  pop_from_cons q queues msg rest e = rw e refl

  update_at : (queues : ℕ → List T) (q : ℕ) (xs : List T) → update queues q xs q ≡ xs
  update_at queues q xs = ground arith

  pop_from_nil : (q : ℕ) (queues : ℕ → List T) → queues q ≡ [] → pop_from (some q) queues ≡ none
  unfolding pop_from
  pop_from_nil q queues e = rw e refl

  List-cases : (xs : List T) → (xs ≡ []) ⊎ ((x : T) × (rest : List T) × (xs ≡ x ∷ rest))
  List-cases [] = inl refl
  List-cases (x ∷ rest) = inr (x, rest, refl)

pub map-append {ℓ κ} :
    {A : Type ℓ} {B : Type κ} (f : A → B) (xs ys : List A) → map f (xs ++ ys) ≡ map f xs ++ map f ys
map-append f [] ys = refl
map-append f (x ∷ xs) ys = ap (◌∷◌ (f x)) (map-append f xs ys)

module _ {Json Prediction Simulation : Type 0} where
  -- The messages that the parser hands over in a sequence of steps.
  abbrev pub lasers_of : List (Step Json Prediction Simulation) → List (ParsedLaserMessage Json)
  lasers_of [] = []
  lasers_of (laser_arrives msg ∷ steps) = msg ∷ lasers_of steps
  lasers_of (_ ∷ steps) = lasers_of steps

  abbrev pub vibrations_of :
      List (Step Json Prediction Simulation) → List (ParsedVibrationMessage Json)
  vibrations_of [] = []
  vibrations_of (vibration_arrives msg ∷ steps) = msg ∷ vibrations_of steps
  vibrations_of (_ ∷ steps) = vibrations_of steps

  -- What holds of the pipeline as it is wired: the parser's laser pointer and the inputs of both
  -- fan-outs are null, and so nothing is in the queues behind them. `q` is the vibration queue.
  pub record Wired (q : ℕ) (s : System Json Prediction Simulation) : Type 0 where
    pub laser_out_null : s.laser_out ≡ none
    pub fanout_null : s.laser_fanout.input ≡ none
    pub crack_fanout_null : s.crack_fanout.input ≡ none
    pub router_null : s.crack_router.output ≡ none
    pub vibration_out_set : s.vibration_out ≡ some q
    pub vibration_in_set : s.vibration_in ≡ some q
    pub no_lasers : (k : ℕ) → s.lasers k ≡ []
    pub no_detections : (k : ℕ) → s.detections k ≡ []
    pub no_predictions : (k : ℕ) → s.predictions k ≡ []
    pub no_simulations : (k : ℕ) → s.simulations k ≡ []

  pub wire_pipeline-Wired :
      Wired 12 (
        wire_pipeline
          (new_system {Json = Json} {Prediction = Prediction} {Simulation = Simulation}))
  unfolding wire_pipeline new_system
  wire_pipeline-Wired = record {
    laser_out_null = refl;
    fanout_null = refl;
    crack_fanout_null = refl;
    router_null = refl;
    vibration_out_set = refl;
    vibration_in_set = refl;
    no_lasers = λ k. refl;
    no_detections = λ k. refl;
    no_predictions = λ k. refl;
    no_simulations = λ k. refl;
  }

  -- What the alert module has taken, then what waits for it.
  abbrev pub seen :
      ℕ → System Json Prediction Simulation → List (Handled Json Prediction Simulation)
  seen q s = s.handled ++ map vibration_handled (s.vibrations q)

  -- The step is made, and the alert module has then seen `more`.
  abbrev pub Leads :
      ℕ
      → System Json Prediction Simulation
      → Outcome (System Json Prediction Simulation)
      → List (Handled Json Prediction Simulation)
      → Type 0
  Leads q s r more =
      (s' : System Json Prediction Simulation) × (r ≡ returned s')
      × Wired q s'
      × (seen q s' ≡ seen q s ++ more)

  pub Leads-same :
      (q : ℕ) (s : System Json Prediction Simulation)
      (r : Outcome (System Json Prediction Simulation))
      → Wired q s
      → r ≡ returned s
      → Leads q s r []
  Leads-same q s r w e = (s, e, w, sym (append-nil (seen q s)))

  module _ (predict : ℕ → CrackInfo → Prediction) (simulate : ℕ → CrackInfo → Simulation) where
    vibration_arrives-Leads :
        (q : ℕ) (s : System Json Prediction Simulation) (msg : ParsedVibrationMessage Json)
        → Wired q s
        → Leads q s (step predict simulate (vibration_arrives msg) s) (vibration_handled msg ∷ [])
    unfolding step
    vibration_arrives-Leads q s msg w = (
      record s { vibrations = push_to (some q) msg s.vibrations },
      rw w.vibration_out_set refl,
      record {
        laser_out_null = w.laser_out_null;
        fanout_null = w.fanout_null;
        crack_fanout_null = w.crack_fanout_null;
        router_null = w.router_null;
        vibration_out_set = w.vibration_out_set;
        vibration_in_set = w.vibration_in_set;
        no_lasers = w.no_lasers;
        no_detections = w.no_detections;
        no_predictions = w.no_predictions;
        no_simulations = w.no_simulations;
      },
      rw
          (
            update_at s.vibrations q (s.vibrations q ++ msg ∷ []),
            map-append vibration_handled (s.vibrations q) (msg ∷ []),
          )
          (sym (
            append_assoc s.handled (map vibration_handled (s.vibrations q))
              (vibration_handled msg ∷ []))),
    )

    alert_ws-Leads :
        (q : ℕ) (s : System Json Prediction Simulation)
        → Wired q s
        → Leads q s (step predict simulate alert_ws_runs s) []
    unfolding step run_alert_ws
    alert_ws-Leads q s w = elim (List-cases (s.vibrations q)) [
      | inl e ↦ Leads-same q s _ w (
          cc (
            pop_from_empty s.laser_in s.lasers w.no_lasers,
            w.vibration_in_set,
            pop_from_nil q s.vibrations e,
            pop_from_empty s.prediction_in s.predictions w.no_predictions,
            pop_from_empty s.dem_in s.simulations w.no_simulations,
          ))
      | inr (msg, rest, e) ↦ (
        record s {
          vibrations = update s.vibrations q rest;
          handled = s.handled ++ vibration_handled msg ∷ [];
        },
        cc (
          pop_from_empty s.laser_in s.lasers w.no_lasers,
          w.vibration_in_set,
          pop_from_cons q s.vibrations msg rest e,
        ),
        record {
          laser_out_null = w.laser_out_null;
          fanout_null = w.fanout_null;
          crack_fanout_null = w.crack_fanout_null;
          router_null = w.router_null;
          vibration_out_set = w.vibration_out_set;
          vibration_in_set = w.vibration_in_set;
          no_lasers = w.no_lasers;
          no_detections = w.no_detections;
          no_predictions = w.no_predictions;
          no_simulations = w.no_simulations;
        },
        rw
            (
              update_at s.vibrations q rest,
              e,
              append-nil (s.handled ++ map vibration_handled (msg ∷ rest)),
            )
            (append_assoc s.handled (vibration_handled msg ∷ []) (map vibration_handled rest)),
      )
    ]

    pub step-Leads :
        (q : ℕ) (s : System Json Prediction Simulation)
        → Wired q s
        → (first : Step Json Prediction Simulation) → lasers_of (first ∷ []) ≡ []
        → Leads q s
            (step predict simulate first s)
            (map vibration_handled (vibrations_of (first ∷ [])))
    unfolding step run_laser_fanout run_crack_router run_crack_fanout run_fatigue_predictor
        run_dem_simulator
    step-Leads q s w (laser_arrives msg) e = cc
    step-Leads q s w (vibration_arrives msg) e = vibration_arrives-Leads q s msg w
    step-Leads q s w laser_fanout_runs e =
        Leads-same q s _ w (cc (pop_from_null s.laser_fanout.input s.lasers w.fanout_null))
    step-Leads q s w crack_router_runs e =
        Leads-same q s _ w (cc (pop_from_empty s.crack_router.input s.lasers w.no_lasers))
    step-Leads q s w crack_fanout_runs e =
        Leads-same q s _ w
          (cc (pop_from_null s.crack_fanout.input s.detections w.crack_fanout_null))
    step-Leads q s w fatigue_predictor_runs e =
        Leads-same q s _ w
          (cc (pop_from_empty s.fatigue_predictor.input s.detections w.no_detections))
    step-Leads q s w dem_simulator_runs e =
        Leads-same q s _ w (cc (pop_from_empty s.dem_simulator.input s.detections w.no_detections))
    step-Leads q s w alert_ws_runs e = alert_ws-Leads q s w
