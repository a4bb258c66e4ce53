-- ===== src/Examples.antt =====
-- Concrete data for the tests, and the tests, by part of the program.
pub mod Profinet
pub mod Tcp
pub mod Simulator
pub mod Queue
pub mod Pipeline
pub mod WebSocket
pub mod Alerts
pub mod Database
pub mod Checks
pub mod Dem
pub mod Fatigue
pub mod Client
pub mod AlertWs
pub mod Metrics
pub mod Http
use ai_solo_coder_task_a.Json.{JsonLibrary}
use ai_solo_coder_task_a.Prelude.{List, [], none, replicate, some, true, ℕ, ◌∷◌}
use ai_solo_coder_task_a.Profinet.Packet.{parse}
use ai_solo_coder_task_a.Simulator.Packet.{DrawnCrack}
use ai_solo_coder_task_a.Tcp.Session.{Callbacks, Peer}

-- A JSON library whose values are their texts: every text but the empty one is accepted.
abbrev pub json_texts : JsonLibrary
json_texts = record {
  Json = List ℕ;
  null = [];
  parse = λ text. elim text [ [] ↦ none | first ∷ rest ↦ some (first ∷ rest) ];
  dump = λ text. text;
}

-- The text "{}".
abbrev pub braces : List ℕ
braces = 123 ∷ 125 ∷ []

abbrev pub both_callbacks : Callbacks json_texts
both_callbacks = record { laser_callback = true; vibration_callback = true }

abbrev pub local_peer : Peer
local_peer = record { remote = "10.0.0.2"; local = "10.0.0.1" }

-- 250.0 and 60.0, and a crack of one point.
abbrev pub drawn_crack : DrawnCrack
drawn_crack = record {
  max_depth = 0x406F400000000000;
  max_width = 0x404E000000000000;
  total_length = 0x4024000000000000;
  points = record { x = 0; y = 1; z = 2; depth = 0x406F400000000000; width = 3 } ∷ [];
}

-- A header that announces an alert without a payload: twenty bytes.
abbrev pub alert_frame : List ℕ
alert_frame = replicate 20 0
