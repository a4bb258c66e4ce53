-- ===== src/Pipeline/System.antt =====
-- The modules of `MonitorServer`, what they share, and one step of each of their threads. The messages
-- of the fatigue predictor and of the DEM simulator are computed by backend/algorithms: `predict` and
-- `simulate` stand for what they make of one crack of a porcelain.
use ai_solo_coder_task_a.Common.{CrackInfo}
use ai_solo_coder_task_a.Outcome.{Outcome, faulted, returned, ◌>>=◌}
use ai_solo_coder_task_a.Pipeline.Queues.{
  Module, counted, fan_out, new_module, pop_from, push_results, push_to,
}
use ai_solo_coder_task_a.Pipeline.Router.{
  CrackDetectionMessage, ParsedLaserMessage, ParsedVibrationMessage, route,
}
use ai_solo_coder_task_a.Prelude.{List, Option, [], none, some, ℕ, ◌++◌, ◌+◌, ◌∷◌}

module _ (Json Prediction Simulation : Type 0) where
  -- What `AlertWsModule` takes from its four queues.
  pub data Handled : Type 0 where
    laser_handled : ParsedLaserMessage Json → Handled
    vibration_handled : ParsedVibrationMessage Json → Handled
    prediction_handled : Prediction → Handled
    dem_handled : Simulation → Handled

  pub record System : Type 0 where
    pub next_queue : ℕ
    pub laser_out : Option ℕ
    pub vibration_out : Option ℕ
    pub laser_fanout : Module
    pub laser_extra : List (Option ℕ)
    pub crack_router : Module
    pub crack_fanout : Module
    pub crack_extra : List (Option ℕ)
    pub fatigue_predictor : Module
    pub dem_simulator : Module
    pub laser_in : Option ℕ
    pub vibration_in : Option ℕ
    pub prediction_in : Option ℕ
    pub dem_in : Option ℕ
    pub lasers : ℕ → List (ParsedLaserMessage Json)
    pub vibrations : ℕ → List (ParsedVibrationMessage Json)
    pub detections : ℕ → List (CrackDetectionMessage Json)
    pub predictions : ℕ → List Prediction
    pub simulations : ℕ → List Simulation
    pub handled : List Handled

  -- A callback of the server, or one iteration of the loop of a module's thread.
  pub data Step : Type 0 where
    laser_arrives : ParsedLaserMessage Json → Step
    vibration_arrives : ParsedVibrationMessage Json → Step
    laser_fanout_runs crack_router_runs crack_fanout_runs : Step
    fatigue_predictor_runs dem_simulator_runs alert_ws_runs : Step

module _ {Json Prediction Simulation : Type 0} where
  -- The constructors: the parser makes two queues and the alert module four; a `ModuleBase` has null
  -- pointers.
  unfoldable pub new_system : System Json Prediction Simulation
  new_system = record {
    next_queue = 6;
    laser_out = some 0;
    vibration_out = some 1;
    laser_fanout = new_module;
    laser_extra = [];
    crack_router = new_module;
    crack_fanout = new_module;
    crack_extra = [];
    fatigue_predictor = new_module;
    dem_simulator = new_module;
    laser_in = some 2;
    vibration_in = some 3;
    prediction_in = some 4;
    dem_in = some 5;
    lasers = λ _. [];
    vibrations = λ _. [];
    detections = λ _. [];
    predictions = λ _. [];
    simulations = λ _. [];
    handled = [];
  }

  -- `MonitorServer::wire_pipeline`, statement by statement.
  unfoldable pub wire_pipeline :
      System Json Prediction Simulation → System Json Prediction Simulation
  wire_pipeline s =
      let laser_q_alert = s.next_queue in
      let laser_q_router = s.next_queue + 1 in
      let crack_q_fatigue = s.next_queue + 2 in
      let crack_q_dem = s.next_queue + 3 in
      let prediction_q = s.next_queue + 4 in
      let dem_q = s.next_queue + 5 in
      let vibration_q = s.next_queue + 6 in
      let s1 = record s {
        next_queue = s.next_queue + 7;
        laser_out = s.laser_fanout.input;
        vibration_out = some vibration_q;
      } in
      let s2 = record s1 {
        laser_fanout = record s1.laser_fanout { output = some laser_q_alert };
        laser_extra = s1.laser_extra ++ some laser_q_router ∷ [];
      } in
      let s3 = record s2 {
        crack_router = record s2.crack_router {
          input = some laser_q_router;
          output = s2.crack_fanout.input;
        };
      } in
      let s4 = record s3 {
        crack_fanout = record s3.crack_fanout { output = some crack_q_fatigue };
        crack_extra = s3.crack_extra ++ some crack_q_dem ∷ [];
      } in
      record s4 {
        fatigue_predictor = record s4.fatigue_predictor {
          input = some crack_q_fatigue;
          output = some prediction_q;
        };
        dem_simulator = record s4.dem_simulator { input = some crack_q_dem; output = some dem_q };
        laser_in = some laser_q_alert;
        vibration_in = some vibration_q;
        prediction_in = some prediction_q;
        dem_in = some dem_q;
      }

  -- `laser_out_->push(std::move(msg))`: the pointer is not tested.
  unfoldable pub on_laser :
      ParsedLaserMessage Json
      → System Json Prediction Simulation
      → Outcome (System Json Prediction Simulation)
  on_laser msg s = elim s.laser_out [
    | none ↦ faulted
    | some q ↦ returned (record s { lasers = push_to (some q) msg s.lasers })
  ]

  unfoldable pub on_vibration :
      ParsedVibrationMessage Json
      → System Json Prediction Simulation
      → Outcome (System Json Prediction Simulation)
  on_vibration msg s = elim s.vibration_out [
    | none ↦ faulted
    | some q ↦ returned (record s { vibrations = push_to (some q) msg s.vibrations })
  ]

  -- One iteration of each `run_loop`.
  unfoldable pub run_laser_fanout :
      System Json Prediction Simulation → System Json Prediction Simulation
  run_laser_fanout s = elim (pop_from s.laser_fanout.input s.lasers) [
    | none ↦ s
    | some (msg, lasers) ↦ record s {
      lasers = fan_out s.laser_fanout.output s.laser_extra msg lasers;
      laser_fanout = counted s.laser_fanout;
    }
  ]

  unfoldable pub run_crack_router :
      System Json Prediction Simulation → System Json Prediction Simulation
  run_crack_router s = elim (pop_from s.crack_router.input s.lasers) [
    | none ↦ s
    | some (msg, lasers) ↦ record s {
      lasers = lasers;
      detections = elim (route msg) [
        | none ↦ s.detections
        | some detection ↦ push_to s.crack_router.output detection s.detections
      ];
      crack_router = counted s.crack_router;
    }
  ]

  unfoldable pub run_crack_fanout :
      System Json Prediction Simulation → System Json Prediction Simulation
  run_crack_fanout s = elim (pop_from s.crack_fanout.input s.detections) [
    | none ↦ s
    | some (msg, detections) ↦ record s {
      detections = fan_out s.crack_fanout.output s.crack_extra msg detections;
      crack_fanout = counted s.crack_fanout;
    }
  ]

  unfoldable pub run_fatigue_predictor :
      (ℕ → CrackInfo → Prediction)
      → System Json Prediction Simulation
      → System Json Prediction Simulation
  unfolding push_results
  run_fatigue_predictor predict s = elim (pop_from s.fatigue_predictor.input s.detections) [
    | none ↦ s
    | some (msg, detections) ↦ record s {
      detections = detections;
      predictions =
          push_results s.fatigue_predictor.output (predict msg.porcelain_id) msg.cracks
            s.predictions;
      fatigue_predictor = counted s.fatigue_predictor;
    }
  ]

  unfoldable pub run_dem_simulator :
      (ℕ → CrackInfo → Simulation)
      → System Json Prediction Simulation
      → System Json Prediction Simulation
  unfolding push_results
  run_dem_simulator simulate s = elim (pop_from s.dem_simulator.input s.detections) [
    | none ↦ s
    | some (msg, detections) ↦ record s {
      detections = detections;
      simulations =
          push_results s.dem_simulator.output (simulate msg.porcelain_id) msg.cracks s.simulations;
      dem_simulator = counted s.dem_simulator;
    }
  ]

  -- `AlertWsModule`: the first of its queues that has a message.
  unfoldable pub run_alert_ws :
      System Json Prediction Simulation → System Json Prediction Simulation
  run_alert_ws s = elim (pop_from s.laser_in s.lasers) [
    | some (msg, lasers) ↦ record s {
      lasers = lasers;
      handled = s.handled ++ laser_handled msg ∷ [];
    }
    | none ↦ elim (pop_from s.vibration_in s.vibrations) [
      | some (msg, vibrations) ↦ record s {
        vibrations = vibrations;
        handled = s.handled ++ vibration_handled msg ∷ [];
      }
      | none ↦ elim (pop_from s.prediction_in s.predictions) [
        | some (msg, predictions) ↦ record s {
          predictions = predictions;
          handled = s.handled ++ prediction_handled msg ∷ [];
        }
        | none ↦ elim (pop_from s.dem_in s.simulations) [
          | some (msg, simulations) ↦ record s {
            simulations = simulations;
            handled = s.handled ++ dem_handled msg ∷ [];
          }
          | none ↦ s
        ]
      ]
    ]
  ]

module _ {Json Prediction Simulation : Type 0} (predict : ℕ → CrackInfo → Prediction)
    (simulate : ℕ → CrackInfo → Simulation) where
  unfoldable pub step :
      Step Json Prediction Simulation
      → System Json Prediction Simulation
      → Outcome (System Json Prediction Simulation)
  unfolding on_laser on_vibration run_laser_fanout run_crack_router run_crack_fanout
      run_fatigue_predictor run_dem_simulator run_alert_ws
  step (laser_arrives msg) s = on_laser msg s
  step (vibration_arrives msg) s = on_vibration msg s
  step laser_fanout_runs s = returned (run_laser_fanout s)
  step crack_router_runs s = returned (run_crack_router s)
  step crack_fanout_runs s = returned (run_crack_fanout s)
  step fatigue_predictor_runs s = returned (run_fatigue_predictor predict s)
  step dem_simulator_runs s = returned (run_dem_simulator simulate s)
  step alert_ws_runs s = returned (run_alert_ws s)

  unfoldable pub run_steps :
      List (Step Json Prediction Simulation)
      → System Json Prediction Simulation
      → Outcome (System Json Prediction Simulation)
  unfolding step
  run_steps [] s = returned s
  run_steps (first ∷ steps) s = step first s >>= λ s'. run_steps steps s'
