-- ===== src/Tcp/Frames.antt =====
-- backend/src/tcp_server.cpp, the loop of `TcpSession::try_parse_frames`: cutting frames off the front
-- of the receive buffer. What is done with a frame is the parameter `handle`.
pub mod Pending
pub mod Chunks
pub mod Bounds
use ai_solo_coder_task_a.Bytes.{byte_at}
use ai_solo_coder_task_a.Outcome.{Outcome, returned, ◌>>=◌}
use ai_solo_coder_task_a.Prelude.{
  List, [], drop, if◌then◌else◌, length, ltb, suc, take, zero, ℕ, ◌*◌, ◌++◌, ◌+◌, ◌^◌,
}
use ai_solo_coder_task_a.Profinet.Packet.{header_size}

-- `frame_buf_[12] | frame_buf_[13] << 8`
unfoldable pub frame_payload_len : List ℕ → Outcome ℕ
frame_payload_len frame_buf = do
  b0 ← byte_at frame_buf 12
  b1 ← byte_at frame_buf 13
  returned (b0 + b1 * 2 ^ 8)

abbrev pub max_frame_buf_size : ℕ
max_frame_buf_size = 4 * 1024 * 1024

module _ {Event : Type 0} (handle : List ℕ → Outcome (List Event)) where
  -- One complete frame of `frame_total` bytes is at the front: handle it and erase it.
  abbrev pub take_frame :
      (List ℕ → Outcome (List Event × List ℕ)) → List ℕ → ℕ → Outcome (List Event × List ℕ)
  take_frame rest frame_buf frame_total = do
    events ← handle (take frame_total frame_buf)
    later ← rest (drop frame_total frame_buf)
    returned (events ++ later.0, later.1)

  -- The `while` loop, with fuel for its rounds.
  unfoldable pub parse_frames : ℕ → List ℕ → Outcome (List Event × List ℕ)
  unfolding frame_payload_len
  parse_frames zero frame_buf = returned ([], frame_buf)
  parse_frames (suc fuel) frame_buf =
      if ltb (length frame_buf) header_size then returned ([], frame_buf) else do
        payload_len ← frame_payload_len frame_buf
        if ltb (length frame_buf) (header_size + payload_len)
            then returned ([], frame_buf)
            else take_frame (λ buf. parse_frames fuel buf) frame_buf (header_size + payload_len)

  -- Every round erases sixteen bytes or more, so there are fewer rounds than bytes.
  unfoldable pub try_parse_frames : List ℕ → Outcome (List Event × List ℕ)
  unfolding parse_frames
  try_parse_frames frame_buf = do
    done ← parse_frames (length frame_buf) frame_buf
    returned (done.0, if ltb max_frame_buf_size (length done.1) then [] else done.1)
