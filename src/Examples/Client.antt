-- ===== src/Examples/Client.antt =====
-- Runs of a simulated client.
-- A vibration sensor that sends every three hours, up to its first failed connection.
use ai_solo_coder_task_a.Prelude.{arith, false, refl, some, true, ◌≡◌}
use ai_solo_coder_task_a.Simulator.Client.{
  Client, Reach, connect_fails, here, new_client, next, on_connect_failed, set_shock_mode, shocks,
  start,
}
use ai_solo_coder_task_a.Simulator.Client.Runs.{
  HasGivenUp, IsPatient, Reach-HasGivenUp, start-IsPatient,
}

abbrev refused : Client
refused = on_connect_failed (start (new_client 10800000 false))

refused_run : Reach (start (new_client 10800000 false)) refused
unfolding start new_client
refused_run = next here (connect_fails (start (new_client 10800000 false)) (omega arith))

start-IsPatient_example : IsPatient 0 refused
unfolding refused_run
start-IsPatient_example = start-IsPatient 10800000 false refused_run

-- The tenth attempt of `refused` is over.
abbrev exhausted : Client
exhausted = record (new_client 10800000 false) { running = true; reconnect_count = 10 }

exhausted_gives_up : HasGivenUp exhausted
unfolding new_client
exhausted_gives_up = ground arith

Reach-HasGivenUp_example : HasGivenUp (set_shock_mode true exhausted)
Reach-HasGivenUp_example = Reach-HasGivenUp exhausted_gives_up (next here (shocks exhausted true))

-- The first delay is two seconds.
first_delay : refused.reconnect_timer.armed ≡ some 2
unfolding start new_client on_connect_failed
first_delay = refl
