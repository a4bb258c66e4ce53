-- ===== src/Simulator/Client/Runs.antt =====
-- What holds of a client in every run of its handlers.
use ai_solo_coder_task_a.Prelude.{Bool, Option, arith, false, none, some, ℕ, ◌+◌, ◌≡◌, ◌≤◌}
use ai_solo_coder_task_a.Simulator.Client.{
  Client, Happens, Reach, connect_fails, connects, disconnect_expires, disconnects, here,
  max_reconnect_attempts, new_client, next, on_connect_failed, on_connected, on_disconnect,
  on_reconnect, on_send, on_write_failed, on_written, reconnect_expires, reconnects,
  schedule_reconnect, send_expires, sends, set_shock_mode, shocks, start, stop, stops, write_fails,
  written,
}

abbrev IsDelay : Option ℕ → Type 0
IsDelay none = Unit
IsDelay (some d) = (2 ≤ d) × (d ≤ 20)

-- The waits to reconnect that had been started when the client last became connected.
abbrev pub waits_before : {c d : Client} → Reach c d → ℕ
waits_before here = 0
waits_before (next r (connects e delay p)) = e.reconnect_timer.waits
waits_before (next r (stops e)) = waits_before r
waits_before (next r (shocks e mode)) = waits_before r
waits_before (next r (connect_fails e p)) = waits_before r
waits_before (next r (reconnect_expires e delay p)) = waits_before r
waits_before (next r (reconnects e p)) = waits_before r
waits_before (next r (disconnect_expires e delay p)) = waits_before r
waits_before (next r (disconnects e p)) = waits_before r
waits_before (next r (send_expires e delay p)) = waits_before r
waits_before (next r (sends e p)) = waits_before r
waits_before (next r (written e p)) = waits_before r
waits_before (next r (write_fails e p)) = waits_before r

abbrev is_armed : Option ℕ → ℕ
is_armed none = 0
is_armed (some d) = 1

-- With `waits` at the last connection: at most ten waits to reconnect since then, a delay of 2 to 20
-- seconds for the one that runs, and no attempt but the first without a wait of its own.
pub record IsPatient (waits : ℕ) (c : Client) : Type 0 where
  pub counted : c.reconnect_timer.waits ≡ waits + c.reconnect_count
  pub bounded : c.reconnect_count ≤ max_reconnect_attempts
  pub delay : IsDelay c.reconnect_timer.armed
  pub awaited :
      c.attempts + c.reconnect_timer.due + is_armed c.reconnect_timer.armed
      ≤ c.reconnect_timer.waits + 1

schedule_reconnect-IsPatient :
    (waits : ℕ) (c : Client) → IsPatient waits c → IsPatient waits (schedule_reconnect c)
unfolding schedule_reconnect
schedule_reconnect-IsPatient waits c h = ground arith

Reach-IsPatient : {c d : Client} → IsPatient 0 c → (r : Reach c d) → IsPatient (waits_before r) d
unfolding stop set_shock_mode on_connected on_connect_failed on_reconnect on_disconnect on_send
    on_written on_write_failed
Reach-IsPatient h here = h
Reach-IsPatient h (next r (stops e)) = ground (arith, Reach-IsPatient h r)
Reach-IsPatient h (next r (shocks e mode)) = ground (arith, Reach-IsPatient h r)
Reach-IsPatient h (next r (connects e delay p)) = ground (arith, Reach-IsPatient h r)
Reach-IsPatient h (next r (connect_fails e p)) = ground (arith, Reach-IsPatient h r)
Reach-IsPatient h (next r (reconnect_expires e delay p)) = ground (arith, p, Reach-IsPatient h r)
Reach-IsPatient h (next r (reconnects e p)) = ground (arith, p, Reach-IsPatient h r)
Reach-IsPatient h (next r (disconnect_expires e delay p)) = ground (arith, Reach-IsPatient h r)
Reach-IsPatient h (next r (disconnects e p)) = ground (arith, Reach-IsPatient h r)
Reach-IsPatient h (next r (send_expires e delay p)) = ground (arith, Reach-IsPatient h r)
Reach-IsPatient h (next r (sends e p)) = ground (arith, Reach-IsPatient h r)
Reach-IsPatient h (next r (written e p)) = ground (arith, Reach-IsPatient h r)
Reach-IsPatient h (next r (write_fails e p)) = ground (arith, Reach-IsPatient h r)

-- From `start` on, whatever happens, in whatever order: at most ten waits to reconnect are started without
-- a connection between them, the delay of each is 2 to 20 seconds, so that its bound of 30 seconds is
-- never met, and every attempt to connect but the first has waited before.
pub start-IsPatient :
    (interval_ms : ℕ) (is_laser : Bool) {c : Client}
    (r : Reach (start (new_client interval_ms is_laser)) c)
    → IsPatient (waits_before r) c
unfolding start new_client
start-IsPatient interval_ms is_laser r = Reach-IsPatient (ground arith) r

-- The tenth attempt has failed and no other is on its way.
pub record HasGivenUp (c : Client) : Type 0 where
  pub attempts : c.reconnect_count ≡ max_reconnect_attempts
  pub none_connecting : c.connecting ≡ 0
  pub none_armed : c.reconnect_timer.armed ≡ none
  pub none_due : c.reconnect_timer.due ≡ 0
  pub unconnected : c.connected ≡ false

Happens-HasGivenUp : {c d : Client} → Happens c d → HasGivenUp c → HasGivenUp d
unfolding stop set_shock_mode on_connected on_connect_failed on_reconnect on_disconnect on_send
    on_written on_write_failed
Happens-HasGivenUp (stops c) h = ground arith
Happens-HasGivenUp (shocks c mode) h = ground arith
Happens-HasGivenUp (connects c delay p) h = absurd (omega (arith, p, h.none_connecting))
Happens-HasGivenUp (connect_fails c p) h = absurd (omega (arith, p, h.none_connecting))
Happens-HasGivenUp (reconnect_expires c delay p) h = absurd (cc)
Happens-HasGivenUp (reconnects c p) h = absurd (omega (arith, p, h.none_due))
Happens-HasGivenUp (disconnect_expires c delay _) h = ground arith
Happens-HasGivenUp (disconnects c _) h = ground arith
Happens-HasGivenUp (send_expires c delay _) h = ground arith
Happens-HasGivenUp (sends c _) h = ground arith
Happens-HasGivenUp (written c _) h = ground arith
Happens-HasGivenUp (write_fails c _) h = ground arith

-- A client whose tenth attempt has failed stays unconnected for ever, unless it is started again; no
-- handler makes it try once more.
pub Reach-HasGivenUp : {c d : Client} → HasGivenUp c → Reach c d → HasGivenUp d
Reach-HasGivenUp h here = h
Reach-HasGivenUp h (next r s) = Happens-HasGivenUp s (Reach-HasGivenUp h r)
