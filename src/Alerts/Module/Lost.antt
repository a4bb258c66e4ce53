-- ===== src/Alerts/Module/Lost.antt =====
-- Messages of `AlertWsModule` whose payloads are not text.
use ai_solo_coder_task_a.Alerts.Module.{
  AlertWs, Message, Surroundings, dem, handle_laser, handle_message, handle_messages,
  handle_vibration, laser, logged, vibration,
}
use ai_solo_coder_task_a.Common.{ProfinetPacket}
use ai_solo_coder_task_a.Database.{Database, Postgres, acquire}
use ai_solo_coder_task_a.Database.Inserts.{log_profinet_packet}
use ai_solo_coder_task_a.Json.{JsonValues}
use ai_solo_coder_task_a.Outcome.{Outcome, returned}
use ai_solo_coder_task_a.Prelude.{
  All, List, Option, [], length, none, refl, some, suc, zero, ℕ, ◌∷◌, ◌≡◌,
}

module _ (pg : Postgres) (values : JsonValues (pg.Json)) (env : Surroundings) where
  -- The message carries a packet, and the JSON text of its payload cannot be made.
  abbrev pub HasNoText : Message pg → Type 0
  HasNoText (laser msg) = env.payload_text msg.packet.payload ≡ none
  HasNoText (vibration msg) = env.payload_text msg.packet.payload ≡ none
  HasNoText (dem msg) = ⊥

  -- The pool with `n` connections fewer, where there are as many.
  abbrev pub pool_without : ℕ → List ℕ → Option (List ℕ)
  pool_without zero available = some available
  pool_without (suc n) [] = none
  pool_without (suc n) (conn ∷ available) = pool_without n available

  abbrev pub without_connections : ℕ → AlertWs pg → Option (AlertWs pg)
  without_connections n s = elim (pool_without n s.database.available) [
    | none ↦ none
    | some available ↦ some (record s { database = record s.database { available = available } })
  ]

  logged_lem :
      (packet : ProfinetPacket) (rest : Database pg → Outcome (Option (AlertWs pg)))
      (s : AlertWs pg)
      → env.payload_text packet.payload ≡ none
      → logged pg values env packet rest s ≡ returned (without_connections 1 s)
  unfolding logged log_profinet_packet acquire
  logged_lem packet rest s h = go s.database.available s.database.server
    where
      go :
          (available : List ℕ) (server : _)
          → logged pg values env packet rest
              (record s { database = record { available = available; server = server } })
            ≡ returned (
                without_connections 1
                  (record s { database = record { available = available; server = server } }))
      go [] server = cc
      go (conn ∷ available) server = cc

  pub handle_message_lem :
      (msg : Message pg) (s : AlertWs pg)
      → HasNoText msg
      → handle_message pg values env msg s ≡ returned (without_connections 1 s)
  unfolding handle_message handle_laser handle_vibration
  handle_message_lem (laser msg) s h = logged_lem msg.packet _ s h
  handle_message_lem (vibration msg) s h = logged_lem msg.packet _ s h
  handle_message_lem (dem msg) s h = absurd h

  with_pool : List ℕ → AlertWs pg → AlertWs pg
  with_pool available s = record s { database = record s.database { available = available } }

  lose_all :
      (messages : List (Message pg)) (available : List ℕ) (s : AlertWs pg)
      → All HasNoText messages
      → handle_messages pg values env messages (with_pool available s)
        ≡ returned (without_connections (length messages) (with_pool available s))
  unfolding handle_messages with_pool
  lose_all [] available s hs = refl
  lose_all (msg ∷ messages) [] s (h, hs) = rw (handle_message_lem msg (with_pool [] s) h)
  lose_all (msg ∷ messages) (conn ∷ available) s (h, hs) =
      rw (
        handle_message_lem msg (with_pool (conn ∷ available) s) h,
        lose_all messages available s hs,
      )

  -- Messages whose payloads are not text, from either sensor, take one connection of the pool each and
  -- do nothing else: they store nothing, raise no alert, broadcast nothing and are not counted. With
  -- more of them than there are connections the module's thread waits for ever.
  pub handle_messages_lose :
      (messages : List (Message pg)) (s : AlertWs pg)
      → All HasNoText messages
      → handle_messages pg values env messages s
        ≡ returned (without_connections (length messages) s)
  unfolding with_pool
  handle_messages_lose messages s hs = lose_all messages s.database.available s hs
