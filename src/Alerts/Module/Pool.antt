-- ===== src/Alerts/Module/Pool.antt =====
-- The pool after any messages of `AlertWsModule`.
use ai_solo_coder_task_a.Alerts.Module.{
  AlertWs, Message, Surroundings, dem, handle_dem, handle_message, handle_messages, laser,
  vibration,
}
use ai_solo_coder_task_a.Alerts.Module.Lost.{handle_message_lem, pool_without, without_connections}
use ai_solo_coder_task_a.Alerts.Module.Stored.{Kept, handle_laser-Kept, handle_vibration-Kept}
use ai_solo_coder_task_a.Database.{Postgres}
use ai_solo_coder_task_a.Json.{JsonValues}
use ai_solo_coder_task_a.Outcome.{Outcome, faulted, returned, thrown, ◌>>=◌}
use ai_solo_coder_task_a.Prelude.{
  List, Option, Option-cases, String, [], inl, inr, none, refl, some, subst, suc, sym, ℕ, ◌∷◌, ◌≡◌,
}

module _ (pg : Postgres) (values : JsonValues (pg.Json)) (env : Surroundings) where
  -- One connection more where the text of a payload cannot be made.
  abbrev pub lost_and : Option String → ℕ → ℕ
  lost_and none n = suc n
  lost_and (some shown) n = n

  abbrev pub lost : List (Message pg) → ℕ
  lost [] = 0
  lost (laser msg ∷ messages) = lost_and (env.payload_text msg.packet.payload) (lost messages)
  lost (vibration msg ∷ messages) = lost_and (env.payload_text msg.packet.payload) (lost messages)
  lost (dem msg ∷ messages) = lost messages

  -- If the module goes on, then with `n` connections fewer than `available`.
  abbrev Loses : ℕ → List ℕ → Outcome (Option (AlertWs pg)) → Type 0
  Loses n available (returned (some s)) =
      pool_without pg values env n available ≡ some s.database.available
  Loses n available (returned none) = Unit
  Loses n available (thrown e) = Unit
  Loses n available faulted = Unit

  Loses-suc :
      (n conn : ℕ) (available : List ℕ) (o : Outcome (Option (AlertWs pg)))
      → Loses n available o
      → Loses (suc n) (conn ∷ available) o
  Loses-suc n conn available (returned (some s)) h = h
  Loses-suc n conn available (returned none) h = tt
  Loses-suc n conn available (thrown e) h = tt
  Loses-suc n conn available faulted h = tt

  abbrev after : List (Message pg) → Option (AlertWs pg) → Outcome (Option (AlertWs pg))
  after messages none = returned none
  after messages (some s) = handle_messages pg values env messages s

  Kept-Loses :
      (n : ℕ) (messages : List (Message pg)) (available : List ℕ)
      (o : Outcome (Option (AlertWs pg)))
      → ((s : AlertWs pg) → Loses n s.database.available (handle_messages pg values env messages s))
      → Kept pg values env available o
      → Loses n available (o >>= after messages)
  Kept-Loses n messages available (returned (some s)) ih h =
      subst (λ av. Loses n av (handle_messages pg values env messages s)) h (ih s)
  Kept-Loses n messages available (returned none) ih h = tt
  Kept-Loses n messages available (thrown e) ih h = tt
  Kept-Loses n messages available faulted ih h = tt

  lost-Loses :
      (n : ℕ) (messages : List (Message pg)) (s : AlertWs pg)
      → ((s' : AlertWs pg)
          → Loses n s'.database.available (handle_messages pg values env messages s'))
      → Loses (suc n) s.database.available (after messages (without_connections pg values env 1 s))
  lost-Loses n messages s ih = go s.database.available
    where
      go :
          (available : List ℕ)
          → Loses (suc n) available (
              after messages (
                without_connections pg values env 1
                  (record s { database = record s.database { available = available } })))
      go [] = tt
      go (conn ∷ available) =
          Loses-suc n conn available _
            (ih (record s { database = record s.database { available = available } }))

  packet-Loses :
      (msg : Message pg) (payload : List ℕ) (n : ℕ) (messages : List (Message pg)) (s : AlertWs pg)
      → (env.payload_text payload ≡ none
          → handle_message pg values env msg s ≡ returned (without_connections pg values env 1 s))
      → ((shown : String)
          → env.payload_text payload ≡ some shown
          → Kept pg values env s.database.available (handle_message pg values env msg s))
      → ((s' : AlertWs pg)
          → Loses n s'.database.available (handle_messages pg values env messages s'))
      → Loses
          (lost_and (env.payload_text payload) n)
          s.database.available
          (handle_message pg values env msg s >>= after messages)
  packet-Loses msg payload n messages s loses keeps ih =
      elim (Option-cases (env.payload_text payload)) [
        | inl e ↦
            subst
              (λ t.
                Loses (lost_and t n) s.database.available
                  (handle_message pg values env msg s >>= after messages))
              (sym e)
              (subst (λ o. Loses (suc n) s.database.available (o >>= after messages))
                (sym (loses e)) (lost-Loses n messages s ih))
        | inr (shown, e) ↦
            subst
              (λ t.
                Loses (lost_and t n) s.database.available
                  (handle_message pg values env msg s >>= after messages))
              (sym e) (Kept-Loses n messages s.database.available _ ih (keeps shown e))
      ]

  handle_messages-Loses :
      (messages : List (Message pg)) (s : AlertWs pg)
      → Loses (lost messages) s.database.available (handle_messages pg values env messages s)
  unfolding handle_messages handle_message handle_dem
  handle_messages-Loses [] s = refl
  handle_messages-Loses (laser msg ∷ messages) s =
      packet-Loses (laser msg) msg.packet.payload (lost messages) messages s
        (handle_message_lem pg values env (laser msg) s) (handle_laser-Kept pg values env msg s)
        (handle_messages-Loses messages)
  handle_messages-Loses (vibration msg ∷ messages) s =
      packet-Loses (vibration msg) msg.packet.payload (lost messages) messages s
        (handle_message_lem pg values env (vibration msg) s)
        (handle_vibration-Kept pg values env msg s) (handle_messages-Loses messages)
  handle_messages-Loses (dem msg ∷ messages) s =
      handle_messages-Loses messages (handle_dem pg values env msg s)

  -- When the module has handled any messages and goes on, the pool has lost one connection for each
  -- laser or vibration message whose payload is not text, and none for all others.
  pub handle_messages-pool :
      (messages : List (Message pg)) (s s' : AlertWs pg)
      → handle_messages pg values env messages s ≡ returned (some s')
      → pool_without pg values env (lost messages) s.database.available ≡ some s'.database.available
  handle_messages-pool messages s s' e =
      subst (Loses (lost messages) s.database.available) e (handle_messages-Loses messages s)
