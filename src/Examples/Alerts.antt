-- ===== src/Examples/Alerts.antt =====
-- Runs of the alert manager's worker.
use ai_solo_coder_task_a.Alerts.Worker.{
  AlertEvent, Manager, Place, Settings, all_happen, asleep, callback, enqueue, finished, inner,
  notices_of, notify, sms, started, stop, websocket, worker,
}
use ai_solo_coder_task_a.Alerts.Worker.Order.{all_happen_order, in_hand, manager, notices_of_all}
use ai_solo_coder_task_a.Alerts.Worker.Shutdown.{
  all_happen-rounds, rounds, stop_finishes, stop_lost,
}
use ai_solo_coder_task_a.Common.{Alert, crack_depth_exceeded, pending}
use ai_solo_coder_task_a.Prelude.{
  List, [], false, none, refl, replicate, some, true, ◌++◌, ◌∷◌, ◌≡◌,
}

abbrev some_alert : Alert
some_alert = record {
  id = some 1;
  alert_type = crack_depth_exceeded;
  porcelain_id = some 3;
  crack_id = none;
  sensor_id = some 7;
  threshold_value = 0x4069000000000000;
  actual_value = 0x406F400000000000;
  unit = "um";
  message = "depth";
  status = pending;
  sms_sent = false;
  websocket_sent = false;
  created_at = 0;
}

-- SMS, WebSocket, and a callback that throws before another.
abbrev all_channels : Settings
all_channels = record {
  sms_enabled = true;
  websocket_enabled = true;
  ws_server = true;
  callbacks = (λ alert. true) ∷ (λ alert. false) ∷ [];
}

notices_of_runs :
    notices_of all_channels some_alert
    ≡ sms some_alert ∷ websocket some_alert ∷ callback 0 some_alert ∷ []
unfolding notices_of
notices_of_runs = refl

abbrev one_alert : List AlertEvent
one_alert = enqueue some_alert ∷ notify ∷ worker ∷ worker ∷ worker ∷ worker ∷ []

all_happen_order_example :
    let m = all_happen all_channels one_alert started in
    (m.taken ++ m.alert_queue ≡ m.enqueued)
    × (m.notices ++ notices_of_all all_channels (in_hand m.place)
        ≡ notices_of_all all_channels m.taken)
all_happen_order_example = all_happen_order all_channels one_alert

abbrev at_place : Place → Manager
at_place place = manager true (some_alert ∷ []) place (some_alert ∷ []) [] []

all_happen-rounds_example :
    all_happen all_channels (rounds all_channels (some_alert ∷ [])) (at_place inner)
    ≡ record (at_place inner) {
      alert_queue = [];
      taken = [] ++ some_alert ∷ [];
      notices = [] ++ notices_of_all all_channels (some_alert ∷ []);
    }
all_happen-rounds_example = all_happen-rounds all_channels (at_place inner) refl

stop_finishes_example :
    let ended =
      all_happen all_channels
        (stop
          ∷ notify
          ∷ worker
          ∷ worker
          ∷ (rounds all_channels (some_alert ∷ []) ++ worker ∷ worker ∷ []))
        (at_place asleep) in
    (ended.place ≡ finished) × (ended.alert_queue ≡ []) × (ended.taken ≡ [] ++ some_alert ∷ [])
stop_finishes_example = stop_finishes all_channels (at_place asleep) refl

stop_lost_example :
    (all_happen all_channels
      ((worker ∷ worker ∷ worker ∷ []) ++ stop ∷ notify ∷ worker ∷ replicate 5 worker)
      started).place
    ≡ asleep
unfolding all_happen
stop_lost_example = stop_lost all_channels (worker ∷ worker ∷ worker ∷ []) 5 refl
