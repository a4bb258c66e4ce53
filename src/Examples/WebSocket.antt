-- ===== src/Examples/WebSocket.antt =====
-- Runs of the send queue.
use ai_solo_coder_task_a.Outcome.{faulted, returned}
use ai_solo_coder_task_a.Prelude.{List, [], false, none, refl, some, true, ◌++◌, ◌∷◌, ◌≡◌, ◌⊎◌}
use ai_solo_coder_task_a.WebSocket.{
  SendEvent, Session, completes, do_send, handle, handle_all, new_session, on_write, send,
  send_next,
}
use ai_solo_coder_task_a.WebSocket.Delivery.{
  IsSending, handle_all_order, handle_all_stuck, messages_of,
}

abbrev send_twice : List SendEvent
send_twice = send "a" ∷ completes false ∷ send "b" ∷ []

handle_all_order_example :
    (handle_all send_twice new_session ≡ faulted)
    ⊎ ((s : Session) × (handle_all send_twice new_session ≡ returned s)
        × IsSending s
        × (s.written ++ s.send_queue ≡ messages_of send_twice))
handle_all_order_example = handle_all_order send_twice (tt, (refl, (tt, tt)))

-- "x" is written, the write of "y" fails, and "a" and "b" are sent later.
handle_all_stuck_example :
    (handle_all
        ((send "x" ∷ completes false ∷ send "y" ∷ []) ++ completes true ∷ send_twice)
        new_session
      ≡ returned (record {
        send_queue = "y" ∷ ([] ++ messages_of send_twice);
        in_flight = none;
        written = "x" ∷ [];
      }))
    × ("x" ∷ "y" ∷ [] ≡ messages_of (send "x" ∷ completes false ∷ send "y" ∷ []))
unfolding handle_all handle on_write do_send send_next
handle_all_stuck_example =
    handle_all_stuck (send "x" ∷ completes false ∷ send "y" ∷ []) send_twice "y" [] ("x" ∷ [])
      (some "y") (tt, (refl, (tt, tt))) refl
