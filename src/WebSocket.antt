-- ===== src/WebSocket.antt =====
-- backend/src/websocket_server.cpp: the send queue of `WebSocketSession`. A handler is one step; to lock
-- `mutex_` in a thread that holds it is undefined behaviour. The peer's messages are read and dropped,
-- and are not modelled.
pub mod Delivery
use ai_solo_coder_task_a.Outcome.{Outcome, faulted, returned, ◌>>=◌}
use ai_solo_coder_task_a.Prelude.{
  Bool, List, Option, String, [], false, if◌then◌else◌, none, some, true, ◌++◌, ◌∷◌,
}

-- `in_flight` is the message of an `async_write` that has not completed; `written` records those that
-- were written without an error.
pub record Session : Type 0 where
  pub send_queue : List String
  pub in_flight : Option String
  pub written : List String

-- What the session's strand runs: a posted `do_send`, or the completion of a write, with its error.
pub data SendEvent : Type 0 where
  send : String → SendEvent
  completes : Bool → SendEvent

abbrev pub new_session : Session
new_session = record { send_queue = []; in_flight = none; written = [] }

-- `do_send`, with whether the thread holds the mutex.
unfoldable pub do_send : Bool → String → Session → Outcome Session
do_send true message s = faulted
do_send false message s = elim s.send_queue [
  | [] ↦ returned (record s { send_queue = message ∷ []; in_flight = some message })
  | front ∷ rest ↦ returned (record s { send_queue = front ∷ (rest ++ message ∷ []) })
]

-- `send_queue_.pop()` and what follows it, the mutex held.
unfoldable pub send_next : List String → Session → Outcome Session
unfolding do_send
send_next [] s = faulted
send_next (front ∷ []) s = returned (record s { send_queue = [] })
send_next (front ∷ next ∷ rest) s = do_send true next (record s { send_queue = next ∷ rest })

unfoldable pub on_write : Bool → Session → Outcome Session
unfolding send_next
on_write error s = if error then returned s else send_next s.send_queue s

-- A write that is not in flight does not complete.
unfoldable pub handle : SendEvent → Session → Outcome Session
unfolding do_send on_write
handle (send message) s = do_send false message s
handle (completes error) s = elim s.in_flight [
  | none ↦ returned s
  | some message ↦
      on_write error
        (record s { in_flight = none; written = s.written ++ (if error then [] else message ∷ []) })
]

unfoldable pub handle_all : List SendEvent → Session → Outcome Session
unfolding handle
handle_all [] s = returned s
handle_all (event ∷ events) s = handle event s >>= λ s'. handle_all events s'
