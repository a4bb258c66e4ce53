-- ===== src/Alerts/Worker.antt =====
-- backend/src/alert_manager.cpp: `start`, `stop`, `enqueue_alert` and the thread of `process_alerts`, as
-- interleaved steps. The mutex is held by the worker exactly at the places that `holds_mutex` names; a
-- step that is not enabled leaves the state as it is.
pub mod Order
pub mod Shutdown
use ai_solo_coder_task_a.Common.{Alert}
use ai_solo_coder_task_a.Prelude.{
  Bool, List, [], false, if◌then◌else◌, true, ℕ, ◌&&◌, ◌++◌, ◌+◌, ◌∷◌,
}

-- What comes of an alert that is taken from the queue. The callbacks are numbered.
pub data Notice : Type 0 where
  sms : Alert → Notice
  websocket : Alert → Notice
  callback : ℕ → Alert → Notice

-- `ws_server` is whether `ws_server_` is set; a callback answers whether it throws.
pub record Settings : Type 0 where
  pub sms_enabled : Bool
  pub websocket_enabled : Bool
  pub ws_server : Bool
  pub callbacks : List (Alert → Bool)

-- The loop over `callbacks_`: an exception ends it.
call_each : ℕ → List (Alert → Bool) → Alert → List Notice
call_each k [] alert = []
call_each k (cb ∷ callbacks) alert =
    let rest = call_each (k + 1) callbacks alert in
    callback k alert ∷ (if cb alert then [] else rest)

-- The body of the `try` block.
unfoldable pub notices_of : Settings → Alert → List Notice
unfolding call_each
notices_of settings alert =
    (if settings.sms_enabled then sms alert ∷ [] else [])
    ++ (if settings.websocket_enabled && settings.ws_server then websocket alert ∷ [] else [])
    ++ call_each 0 settings.callbacks alert

-- Where the worker stands in `process_alerts`.
pub data Place : Type 0 where
  -- before `while (running_)`
  outer : Place
  -- before the lock is taken
  locking : Place
  -- before the predicate of `cv_.wait` is evaluated
  testing : Place
  -- the predicate was false; the mutex is still held
  falling : Place
  asleep : Place
  woken : Place
  -- before `while (!alert_queue_.empty())`
  inner : Place
  delivering : Alert → Place
  relocking : Place
  finished : Place

-- `taken` records the alerts that were popped, `notices` what came of them, `enqueued` all alerts.
pub record Manager : Type 0 where
  pub running : Bool
  pub alert_queue : List Alert
  pub place : Place
  pub enqueued : List Alert
  pub taken : List Alert
  pub notices : List Notice

-- `start`
abbrev pub started : Manager
started = record {
  running = true;
  alert_queue = [];
  place = outer;
  enqueued = [];
  taken = [];
  notices = [];
}

-- `stop` is the store to `running_` and then a notification, `enqueue_alert` a push under the mutex and
-- then a notification.
pub data AlertEvent : Type 0 where
  enqueue : Alert → AlertEvent
  notify : AlertEvent
  stop : AlertEvent
  spurious_wake : AlertEvent
  worker : AlertEvent

abbrev pub holds_mutex : Place → Bool
holds_mutex testing = true
holds_mutex falling = true
holds_mutex inner = true
holds_mutex _ = false

abbrev pub wake : Place → Place
wake asleep = woken
wake place = place

-- The next step of the worker.
worker_step : Settings → Place → Manager → Manager
unfolding notices_of
worker_step settings outer m = record m { place = if m.running then locking else finished }
worker_step settings locking m = record m { place = testing }
worker_step settings testing m = elim m.alert_queue [
  | [] ↦ record m { place = if m.running then falling else inner }
  | alert ∷ rest ↦ record m { place = inner }
]
worker_step settings falling m = record m { place = asleep }
worker_step settings asleep m = m
worker_step settings woken m = record m { place = testing }
worker_step settings inner m = elim m.alert_queue [
  | [] ↦ record m { place = outer }
  | alert ∷ rest ↦ record m {
    place = delivering alert;
    alert_queue = rest;
    taken = m.taken ++ alert ∷ [];
  }
]
worker_step settings (delivering alert) m = record m {
  place = relocking;
  notices = m.notices ++ notices_of settings alert;
}
worker_step settings relocking m = record m { place = inner }
worker_step settings finished m = m

unfoldable pub happens : Settings → AlertEvent → Manager → Manager
unfolding worker_step
happens settings (enqueue alert) m =
    if holds_mutex m.place
    then m
    else record m { alert_queue = m.alert_queue ++ alert ∷ []; enqueued = m.enqueued ++ alert ∷ [] }
happens settings notify m = record m { place = wake m.place }
happens settings stop m = record m { running = false }
happens settings spurious_wake m = record m { place = wake m.place }
happens settings worker m = worker_step settings m.place m

unfoldable pub all_happen : Settings → List AlertEvent → Manager → Manager
unfolding happens
all_happen settings [] m = m
all_happen settings (event ∷ events) m = all_happen settings events (happens settings event m)
