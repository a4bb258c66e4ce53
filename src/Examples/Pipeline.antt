-- ===== src/Examples/Pipeline.antt =====
-- Runs of the pipeline.
use ai_solo_coder_task_a.Common.{CrackInfo}
use ai_solo_coder_task_a.Examples.{drawn_crack}
use ai_solo_coder_task_a.Outcome.{faulted, returned}
use ai_solo_coder_task_a.Pipeline.Delivery.{run_steps-wire_pipeline}
use ai_solo_coder_task_a.Pipeline.Router.{ParsedLaserMessage}
use ai_solo_coder_task_a.Pipeline.System.{
  Step, System, alert_ws_runs, laser_arrives, new_system, run_steps, vibration_handled,
  wire_pipeline,
}
use ai_solo_coder_task_a.Pipeline.Wiring.{lasers_of, vibrations_of}
use ai_solo_coder_task_a.Prelude.{List, String, [], map, true, ℕ, ◌++◌, ◌∷◌, ◌≡◌, ◌≢◌, ◌⊎◌}
use ai_solo_coder_task_a.Simulator.Cracks.{crack_of}

abbrev laser_of : List CrackInfo → ParsedLaserMessage (List ℕ)
laser_of found = record {
  packet = record {
    source_ip = "a";
    destination_ip = "b";
    packet_type = "LASER";
    frame_id = 0x8001;
    payload = [];
    received_at = 5;
  };
  laser_data = record {
    sensor_id = 7;
    porcelain_id = 3;
    measurement_time = 1000;
    scan_area = (0, 0, 0, 0);
    resolution = 0;
    crack_detected = true;
    crack_count = 1;
    cracks = found;
    processed_data = [];
  };
}

abbrev some_laser : ParsedLaserMessage (List ℕ)
some_laser = laser_of (crack_of 3 drawn_crack ∷ [])

abbrev no_messages : ℕ → List String
no_messages k = []

abbrev predicted : ℕ → CrackInfo → ℕ
predicted porcelain_id crack = porcelain_id

-- A laser message after two rounds of the alert module.
abbrev rounds : List (Step (List ℕ) ℕ ℕ)
rounds = alert_ws_runs ∷ alert_ws_runs ∷ laser_arrives some_laser ∷ []

run_steps-wire_pipeline_example :
    (lasers_of rounds ≢ [])
      × (run_steps predicted predicted rounds (wire_pipeline new_system) ≡ faulted)
    ⊎ (lasers_of rounds ≡ [])
      × ((s : System (List ℕ) ℕ ℕ) × (run_steps predicted predicted rounds
              (wire_pipeline new_system)
            ≡ returned s)
          × (s.handled ++ map vibration_handled (s.vibrations 12)
              ≡ map vibration_handled (vibrations_of rounds)))
run_steps-wire_pipeline_example = run_steps-wire_pipeline predicted predicted rounds
