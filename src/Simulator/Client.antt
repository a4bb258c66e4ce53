-- ===== src/Simulator/Client.antt =====
-- `ProfinetClient` of simulator/main.cpp: its connection, its timers and its packets. The handlers run
-- one at a time. A timer has at most one wait that is armed, and handlers of expired waits that have not
-- run; the handler of a wait that was cancelled does nothing and is left out.
pub mod Runs
use ai_solo_coder_task_a.Prelude.{
  Bool, Option, false, if◌then◌else◌, leb, min, none, not, some, true, ℕ, ◌%◌, ◌&&◌, ◌*◌, ◌+◌, ◌-◌,
  ◌<◌, ◌^◌, ◌≡◌,
}

-- `waits` counts the waits that were started.
pub record Timer : Type 0 where
  pub armed : Option ℕ
  pub due : ℕ
  pub waits : ℕ

abbrev idle : Timer
idle = record { armed = none; due = 0; waits = 0 }

-- `expires_after` and `async_wait`: an earlier wait is cancelled.
abbrev arm : ℕ → Timer → Timer
arm delay t = record t { armed = some delay; waits = t.waits + 1 }

abbrev cancel : Timer → Timer
cancel t = record t { armed = none }

-- `connecting` and `writing` count the asynchronous operations that have not ended, and `attempts` the
-- connections that were tried. The interval of the
-- sends is in milliseconds, the delays of the other timers are in seconds.
pub record Client : Type 0 where
  pub interval_ms : ℕ
  pub is_laser : Bool
  pub cycle_counter : ℕ
  pub running : Bool
  pub connected : Bool
  pub shock_mode : Bool
  pub reconnect_count : ℕ
  pub connecting : ℕ
  pub attempts : ℕ
  pub writing : ℕ
  pub send_timer : Timer
  pub reconnect_timer : Timer
  pub disconnect_sim_timer : Timer

unfoldable pub new_client : ℕ → Bool → Client
new_client interval_ms is_laser = record {
  interval_ms = interval_ms;
  is_laser = is_laser;
  cycle_counter = 0;
  running = false;
  connected = false;
  shock_mode = false;
  reconnect_count = 0;
  connecting = 0;
  attempts = 0;
  writing = 0;
  send_timer = idle;
  reconnect_timer = idle;
  disconnect_sim_timer = idle;
}

abbrev pub max_reconnect_attempts : ℕ
max_reconnect_attempts = 10

abbrev connect : Client → Client
connect c = record c { connecting = c.connecting + 1; attempts = c.attempts + 1 }

unfoldable pub start : Client → Client
start c = connect (record c { running = true })

unfoldable pub stop : Client → Client
stop c = record c {
  running = false;
  send_timer = cancel c.send_timer;
  reconnect_timer = cancel c.reconnect_timer;
  disconnect_sim_timer = cancel c.disconnect_sim_timer;
}

unfoldable pub set_shock_mode : Bool → Client → Client
set_shock_mode mode c = record c { shock_mode = mode }

unfoldable pub schedule_reconnect : Client → Client
schedule_reconnect c =
    let count = c.reconnect_count + 1 in
    if leb max_reconnect_attempts c.reconnect_count then c else record c {
      reconnect_count = count;
      reconnect_timer = arm (min 30 (2 * count)) c.reconnect_timer;
    }

unfoldable pub schedule_next_send : Client → Client
schedule_next_send c =
    if not c.running then c else record c { send_timer = arm c.interval_ms c.send_timer }

-- A new timer: the wait of the old one is cancelled.
unfoldable pub start_sending : Client → Client
unfolding schedule_next_send
start_sending c = schedule_next_send (record c { send_timer = cancel c.send_timer })

-- The handler of `async_connect`: without an error, with the delay drawn for the disconnection, or with
-- one.
unfoldable pub on_connected : ℕ → Client → Client
unfolding start_sending
on_connected delay c =
    let ended = record c { connecting = c.connecting - 1; connected = true; reconnect_count = 0 } in
    let sending = start_sending ended in
    record sending { disconnect_sim_timer = arm delay sending.disconnect_sim_timer }

unfoldable pub on_connect_failed : Client → Client
unfolding schedule_reconnect
on_connect_failed c =
    let ended = record c { connecting = c.connecting - 1; connected = false } in
    if ended.running then schedule_reconnect ended else ended

unfoldable pub on_reconnect : Client → Client
on_reconnect c =
    let taken = record c {
      reconnect_timer = record c.reconnect_timer { due = c.reconnect_timer.due - 1 };
    } in
    if taken.running then connect taken else taken

unfoldable pub on_disconnect : Client → Client
unfolding schedule_reconnect
on_disconnect c =
    let taken = record c {
      disconnect_sim_timer = record c.disconnect_sim_timer { due = c.disconnect_sim_timer.due - 1 };
    } in
    let cut = record taken { connected = false; send_timer = cancel taken.send_timer } in
    if taken.running && taken.connected then schedule_reconnect cut else taken

-- `send_data`: the counter, a `uint32_t`, and a write that begins.
unfoldable pub send_data : Client → Client
send_data c = record c { cycle_counter = (c.cycle_counter + 1) % 2 ^ 32; writing = c.writing + 1 }

-- The frame id of the packet that `send_data` builds.
unfoldable pub frame_id_sent : Client → ℕ
frame_id_sent c = if c.is_laser then 0x8001 else 0x8002

unfoldable pub on_send : Client → Client
unfolding send_data schedule_next_send
on_send c =
    let taken = record c { send_timer = record c.send_timer { due = c.send_timer.due - 1 } } in
    if taken.running then schedule_next_send (send_data taken) else taken

unfoldable pub on_written : Client → Client
on_written c = record c { writing = c.writing - 1 }

unfoldable pub on_write_failed : Client → Client
unfolding schedule_reconnect
on_write_failed c =
    let ended = record c { writing = c.writing - 1; connected = false } in
    if ended.running then schedule_reconnect ended else ended

-- The wait that is armed ends, and its handler is due.
abbrev expire : Timer → Timer
expire t = record t { armed = none; due = t.due + 1 }

-- What the handlers, `stop` and `set_shock_mode` do.
pub data Happens : Client → Client → Type 0 where
  stops : (c : Client) → Happens c (stop c)
  shocks : (c : Client) (mode : Bool) → Happens c (set_shock_mode mode c)
  connects : (c : Client) (delay : ℕ) → 0 < c.connecting → Happens c (on_connected delay c)
  connect_fails : (c : Client) → 0 < c.connecting → Happens c (on_connect_failed c)
  reconnect_expires :
      (c : Client) (delay : ℕ)
      → c.reconnect_timer.armed ≡ some delay
      → Happens c (record c { reconnect_timer = expire c.reconnect_timer })
  reconnects : (c : Client) → 0 < c.reconnect_timer.due → Happens c (on_reconnect c)
  disconnect_expires :
      (c : Client) (delay : ℕ)
      → c.disconnect_sim_timer.armed ≡ some delay
      → Happens c (record c { disconnect_sim_timer = expire c.disconnect_sim_timer })
  disconnects : (c : Client) → 0 < c.disconnect_sim_timer.due → Happens c (on_disconnect c)
  send_expires :
      (c : Client) (delay : ℕ)
      → c.send_timer.armed ≡ some delay
      → Happens c (record c { send_timer = expire c.send_timer })
  sends : (c : Client) → 0 < c.send_timer.due → Happens c (on_send c)
  written : (c : Client) → 0 < c.writing → Happens c (on_written c)
  write_fails : (c : Client) → 0 < c.writing → Happens c (on_write_failed c)

pub data Reach (c : Client) : Client → Type 0 where
  here : Reach c c
  next : {d e : Client} → Reach c d → Happens d e → Reach c e
