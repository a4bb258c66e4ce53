-- ===== src/Tcp/Session/Replies.antt =====
-- What comes of the frames that the servers accept.
use ai_solo_coder_task_a.Common.{ProfinetPacket}
use ai_solo_coder_task_a.Dem.Steps.Frame.{frame}
use ai_solo_coder_task_a.Json.{JsonLibrary}
use ai_solo_coder_task_a.Outcome.{Exception, Outcome, faulted, returned, thrown, ◌>>=◌}
use ai_solo_coder_task_a.Prelude.{
  List, [], arith, inl, inr, length, refl, sym, ℕ, ◌∙◌, ◌∷◌, ◌≡◌, ◌≢◌, ◌≤◌, ◌⊎◌,
}
use ai_solo_coder_task_a.Profinet.Acknowledge.{build_acknowledge_faults}
use ai_solo_coder_task_a.Profinet.Packet.{parse}
use ai_solo_coder_task_a.Profinet.Packet.Shape.{parse-parse_answer}
use ai_solo_coder_task_a.Profinet.Reads.{read_u32}
use ai_solo_coder_task_a.Profinet.Reads.Total.{read_u32_total}
use ai_solo_coder_task_a.Tcp.Session.{
  Callbacks, Peer, SessionEvent, caught, discarded, dispatch, handle_frame, handle_packet,
}

module _ {A B : Type 0} where
  >>=-ne-returned :
      (m : Outcome A) (f : A → Outcome B) (b : B)
      → ((a : A) → f a ≢ returned b)
      → (m >>= f) ≢ returned b
  >>=-ne-returned (returned a) f b h = h a
  >>=-ne-returned (thrown e) f b h = λ x. cc
  >>=-ne-returned faulted f b h = λ x. cc

module _ (json : JsonLibrary) (callbacks : Callbacks json) (peer : Peer) (clock : List ℕ → ℕ) where
  -- The packet that `parse` makes of a frame.
  abbrev pub packet_of : List ℕ → Outcome ProfinetPacket
  packet_of frame = parse frame peer.remote peer.local (clock frame)

  handle_packet-ne-returned :
      (frame : List ℕ) (events : List (SessionEvent json))
      → handle_packet json callbacks peer clock frame ≢ returned events
  unfolding handle_packet
  handle_packet-ne-returned frame events = >>=-ne-returned (packet_of frame) _ events λ packet.
      >>=-ne-returned (dispatch json callbacks packet) _ events λ calls.
        >>=-ne-returned (read_u32 frame 4) _ events
          λ counter e. cc (build_acknowledge_faults counter (clock frame)).1

  -- No frame is ever acknowledged: whatever the frame, the server drops it with one exception, or it runs
  -- into undefined behaviour, before which its callback may have been called.
  handle_frame_drops :
      (frame : List ℕ)
      → ((e : Exception) × (handle_frame json callbacks peer clock frame
            ≡ returned (discarded e ∷ [])))
        ⊎ (handle_frame json callbacks peer clock frame ≡ faulted)
  unfolding handle_frame
  handle_frame_drops frame =
      go (handle_packet json callbacks peer clock frame) (handle_packet-ne-returned frame)
    where
      go :
          (r : Outcome (List (SessionEvent json)))
          → ((events : List (SessionEvent json)) → r ≢ returned events)
          → ((e : Exception) × (caught json r ≡ returned (discarded e ∷ [])))
            ⊎ (caught json r ≡ faulted)
      go (returned events) h = absurd (h events refl)
      go (thrown e) h = inl (e, refl)
      go faulted h = inr refl

  parse_long_enough :
      (frame : List ℕ) (packet : ProfinetPacket)
      → packet_of frame ≡ returned packet
      → 20 ≤ length frame
  parse_long_enough frame packet e =
      let r = sym (parse-parse_answer frame peer.remote peer.local (clock frame)) ∙ e in
      ground arith

  -- And undefined behaviour is what comes of every frame that is accepted: where `parse` returns a
  -- packet and the parser of its frame id, if it has one, returns its data, the acknowledgement is
  -- written out of bounds.
  pub handle_frame_accepted :
      (frame : List ℕ) (packet : ProfinetPacket) (calls : List (SessionEvent json))
      → packet_of frame ≡ returned packet
      → dispatch json callbacks packet ≡ returned calls
      → handle_frame json callbacks peer clock frame ≡ faulted
  unfolding handle_frame handle_packet
  handle_frame_accepted frame packet calls ep ed =
      let h = parse_long_enough frame packet ep in
      let (counter, er) = read_u32_total frame 4 (omega arith) in
      rw (ep, ed, er, (build_acknowledge_faults counter (clock frame)).1)
