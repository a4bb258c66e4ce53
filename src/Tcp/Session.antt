-- ===== src/Tcp/Session.antt =====
-- backend/src/tcp_server.cpp: what `TcpSession` and `UdpServer` do with a frame and with what they
-- receive. `local` and `remote` are the two addresses, `clock` the system clock's answer while the given
-- frame is handled; an asynchronous write is an event.
pub mod Replies
use ai_solo_coder_task_a.Common.{LaserMicroscopeData, ProfinetPacket, VibrationData}
use ai_solo_coder_task_a.Json.{JsonLibrary}
use ai_solo_coder_task_a.Outcome.{Exception, Outcome, faulted, returned, thrown, ◌>>=◌}
use ai_solo_coder_task_a.Prelude.{
  Bool, List, String, [], if◌then◌else◌, length, ltb, not, ℕ, ◌&&◌, ◌++◌, ◌==◌, ◌∷◌,
}
use ai_solo_coder_task_a.Profinet.Acknowledge.{build_acknowledge}
use ai_solo_coder_task_a.Profinet.Packet.{laser_data, parse, vibration_data}
use ai_solo_coder_task_a.Profinet.Payload.{parse_laser_data, parse_vibration_data}
use ai_solo_coder_task_a.Profinet.Reads.{read_u32}
use ai_solo_coder_task_a.Tcp.Frames.{try_parse_frames}

pub record Peer : Type 0 where
  pub remote : String
  pub local : String

module _ (json : JsonLibrary) where
  open json use {Json}

  pub data SessionEvent : Type 0 where
    laser : ProfinetPacket → LaserMicroscopeData Json → SessionEvent
    vibration : ProfinetPacket → VibrationData Json → SessionEvent
    sent : List ℕ → SessionEvent
    discarded : Exception → SessionEvent

  -- Which callbacks are set.
  pub record Callbacks : Type 0 where
    pub laser_callback : Bool
    pub vibration_callback : Bool

  -- The frame ids that have a parser and a callback; any other packet is only acknowledged.
  unfoldable pub dispatch : Callbacks → ProfinetPacket → Outcome (List SessionEvent)
  dispatch callbacks packet =
      if packet.frame_id == laser_data
      then (do
        d ← parse_laser_data json packet.payload
        returned (if callbacks.laser_callback then laser packet d ∷ [] else []))
      else if packet.frame_id == vibration_data
      then (do
        d ← parse_vibration_data json packet.payload
        returned (if callbacks.vibration_callback then vibration packet d ∷ [] else []))
      else returned []

  -- The body of the `try` block. Where it ends in undefined behaviour the callback that was called before
  -- is not told.
  unfoldable pub handle_packet :
      Callbacks → Peer → (List ℕ → ℕ) → List ℕ → Outcome (List SessionEvent)
  handle_packet callbacks peer clock frame = do
    packet ← parse frame peer.remote peer.local (clock frame)
    calls ← dispatch callbacks packet
    cycle_counter ← read_u32 frame 4
    ack ← build_acknowledge cycle_counter (clock frame)
    returned (calls ++ sent ack ∷ [])

  -- `catch (const std::exception& e)`: the frame is dropped. No event precedes an exception.
  abbrev pub caught : Outcome (List SessionEvent) → Outcome (List SessionEvent)
  caught (returned events) = returned events
  caught (thrown e) = returned (discarded e ∷ [])
  caught faulted = faulted

  unfoldable pub handle_frame :
      Callbacks → Peer → (List ℕ → ℕ) → List ℕ → Outcome (List SessionEvent)
  handle_frame callbacks peer clock frame = caught (handle_packet callbacks peer clock frame)

  -- The completion of `async_read_some` with `bytes`, as `TcpSession::do_read` handles it: the events,
  -- and the buffer kept for the next read.
  unfoldable pub on_read :
      Callbacks → Peer → (List ℕ → ℕ) → List ℕ → List ℕ → Outcome (List SessionEvent × List ℕ)
  on_read callbacks peer clock frame_buf bytes =
      try_parse_frames (handle_frame callbacks peer clock) (frame_buf ++ bytes)

  -- `UdpServer::handle_receive`: a datagram is one frame; an empty one, or an error, is ignored.
  unfoldable pub handle_receive :
      Callbacks → Peer → (List ℕ → ℕ) → Bool → List ℕ → Outcome (List SessionEvent)
  handle_receive callbacks peer clock error datagram =
      if not error && ltb 0 (length datagram)
      then handle_frame callbacks peer clock datagram
      else returned []
