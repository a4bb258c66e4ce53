-- ===== src/WebSocket/Delivery.antt =====
-- Which messages of a session are written.
use ai_solo_coder_task_a.Outcome.{Outcome, faulted, returned, thrown, ◌>>=◌}
use ai_solo_coder_task_a.Prelude.{
  All, List, Option, String, [], append-nil, append_assoc, arith, false, inl, inr, length, none,
  refl, some, subst, sym, true, ◌++◌, ◌↔◌, ◌∙◌, ◌∷◌, ◌≡◌, ◌≢◌, ◌⊎◌,
}
use ai_solo_coder_task_a.WebSocket.{
  SendEvent, Session, completes, do_send, handle, handle_all, new_session, on_write, send,
  send_next,
}

-- The messages that are sent, and whether a write fails.
abbrev pub messages_of : List SendEvent → List String
messages_of [] = []
messages_of (send message ∷ events) = message ∷ messages_of events
messages_of (completes error ∷ events) = messages_of events

abbrev pub NoError : SendEvent → Type 0
NoError (send message) = Unit
NoError (completes error) = error ≡ false

-- A session whose writes have all succeeded: the first message of the queue is being written.
abbrev pub IsSending : Session → Type 0
IsSending s = elim s.send_queue [
  | [] ↦ s.in_flight ≡ none
  | front ∷ rest ↦ s.in_flight ≡ some front
]

abbrev session : List String → Option String → List String → Session
session queue flight done = record { send_queue = queue; in_flight = flight; written = done }

-- What is written, then what is queued.
abbrev pub accounted : Session → List String
accounted s = s.written ++ s.send_queue

abbrev Leads : Session → Outcome Session → List String → Type 0
Leads s r more =
    (s' : Session) × (r ≡ returned s') × IsSending s' × (accounted s' ≡ accounted s ++ more)

send-Leads :
    (message : String) (queue : List String) (flight : Option String) (done : List String)
    → IsSending (session queue flight done)
    → Leads
        (session queue flight done)
        (handle (send message) (session queue flight done))
        (message ∷ [])
unfolding handle do_send
send-Leads message [] flight done i =
    (session (message ∷ []) (some message) done, refl, refl, rw (append-nil done) refl)
send-Leads message (front ∷ rest) flight done i = (
  session (front ∷ (rest ++ message ∷ [])) flight done,
  refl,
  i,
  sym (append_assoc done (front ∷ rest) (message ∷ [])),
)

completes-Leads :
    (queue : List String) (flight : Option String) (done : List String)
    → IsSending (session queue flight done)
    → (handle (completes false) (session queue flight done) ≡ faulted)
      ⊎ Leads (session queue flight done) (handle (completes false) (session queue flight done)) []
unfolding handle on_write send_next do_send
completes-Leads [] flight done i =
    inr (session [] flight done, cc, i, sym (append-nil (done ++ [])))
completes-Leads (front ∷ []) flight done i =
    inr (session [] none (done ++ front ∷ []), rw i refl, refl, refl)
completes-Leads (front ∷ second ∷ rest) flight done i = inl (rw i refl)

handle-Leads :
    (event : SendEvent) (s : Session)
    → NoError event
    → IsSending s
    → (handle event s ≡ faulted) ⊎ Leads s (handle event s) (messages_of (event ∷ []))
handle-Leads (send message) s n i = inr (send-Leads message s.send_queue s.in_flight s.written i)
handle-Leads (completes error) s n i = rw n (completes-Leads s.send_queue s.in_flight s.written i)

messages_of-cons :
    (event : SendEvent) (events : List SendEvent)
    → messages_of (event ∷ events) ≡ messages_of (event ∷ []) ++ messages_of events
messages_of-cons (send message) events = refl
messages_of-cons (completes error) events = refl

handle_all-Leads :
    (events : List SendEvent) (s : Session)
    → All NoError events
    → IsSending s
    → (handle_all events s ≡ faulted) ⊎ Leads s (handle_all events s) (messages_of events)
unfolding handle_all
handle_all-Leads [] s n i = inr (s, refl, i, sym (append-nil (accounted s)))
handle_all-Leads (event ∷ events) s (n, ns) i = elim (handle-Leads event s n i) [
  | inl e ↦ inl (rw e refl)
  | inr (s', e, i', h) ↦ elim (handle_all-Leads events s' ns i') [
    | inl f ↦ inl (rw (e, f) refl)
    | inr (s'', f, i'', k) ↦ inr (
      s'',
      rw (e, f) refl,
      i'',
      rw (messages_of-cons event events) (k ∙ rw h (append_assoc (accounted s) _ _)),
    )
  ]
]

-- Where no write fails, every sequence of sends and completions from a new session runs into undefined
-- behaviour, or to its end. Then what was written, followed by what is queued, is what was sent, in its
-- order: nothing is lost, doubled or overtaken. The first message queued is being written, and nothing
-- is where none is queued.
pub handle_all_order :
    (events : List SendEvent)
    → All NoError events
    → (handle_all events new_session ≡ faulted)
      ⊎ ((s : Session) × (handle_all events new_session ≡ returned s)
          × IsSending s
          × (s.written ++ s.send_queue ≡ messages_of events))
handle_all_order events n = handle_all-Leads events new_session n refl

-- Sends and completions with messages queued and no write in flight.
handle_all-stalled :
    (events : List SendEvent) (front : String) (rest done : List String)
    → handle_all events (session (front ∷ rest) none done)
      ≡ returned (session (front ∷ (rest ++ messages_of events)) none done)
unfolding handle_all handle do_send
handle_all-stalled [] front rest done = rw (append-nil rest) refl
handle_all-stalled (send message ∷ events) front rest done =
    handle_all-stalled events front (rest ++ message ∷ []) done
    ∙ rw (append_assoc rest (message ∷ []) (messages_of events)) refl
handle_all-stalled (completes error ∷ events) front rest done =
    handle_all-stalled events front rest done

failed_write :
    (events : List SendEvent) (front : String) (rest : List String) (flight : Option String)
    (done : List String)
    → flight ≡ some front
    → handle_all (completes true ∷ events) (session (front ∷ rest) flight done)
      ≡ returned (session (front ∷ (rest ++ messages_of events)) none done)
unfolding handle_all handle on_write
failed_write events front rest flight done e =
    rw (e, append-nil done) (handle_all-stalled events front rest done)

handle_all-append :
    (before later : List SendEvent) (s : Session)
    → handle_all (before ++ later) s ≡ (handle_all before s >>= λ s'. handle_all later s')
unfolding handle_all
handle_all-append [] later s = refl
handle_all-append (event ∷ events) later s = go (handle event s) (handle_all-append events later)
  where
    go :
        (r : Outcome Session)
        → ((s' : Session)
            → handle_all (events ++ later) s'
              ≡ (handle_all events s' >>= λ s''. handle_all later s''))
        → (r >>= λ s'. handle_all (events ++ later) s')
          ≡ ((r >>= λ s'. handle_all events s') >>= λ s'. handle_all later s')
    go (returned s') ih = ih s'
    go (thrown x) ih = refl
    go faulted ih = refl

-- Where the writes of a new session succeed up to a point at which a message is queued, and the next one
-- fails, nothing is ever written again: whatever is sent and completes later, the messages written are
-- those written before, and all others, the one that failed in front, stay in the queue in their order.
pub handle_all_stuck :
    (before later : List SendEvent) (front : String) (rest done : List String)
    (flight : Option String)
    → All NoError before
    → handle_all before new_session
      ≡ returned (record { send_queue = front ∷ rest; in_flight = flight; written = done })
    → (handle_all (before ++ completes true ∷ later) new_session
        ≡ returned (record {
          send_queue = front ∷ (rest ++ messages_of later);
          in_flight = none;
          written = done;
        }))
      × (done ++ front ∷ rest ≡ messages_of before)
handle_all_stuck before later front rest done flight n e = elim (handle_all_order before n) [
  | inl f ↦ absurd (cc)
  | inr (s, f, i, k) ↦
      let same : s ≡ session (front ∷ rest) flight done = cc in
      (
        rw (handle_all-append before (completes true ∷ later) new_session, e)
            (failed_write later front rest flight done (subst IsSending same i)),
        cc,
      )
]

-- A write that completes without an error leads to undefined behaviour exactly if the queue does not
-- hold that message alone: with more messages waiting, `on_write` calls `do_send` while it holds the
-- mutex that `do_send` locks.
pub on_write_faults : (s : Session) → (on_write false s ≡ faulted) ↔ (length s.send_queue ≢ 1)
unfolding on_write send_next do_send
on_write_faults s = go s.send_queue
  where
    go : (queue : List String) → (send_next queue s ≡ faulted) ↔ (length queue ≢ 1)
    go [] = (λ e h. omega arith, λ h. refl)
    go (front ∷ []) = (λ e. cc, λ h. absurd (h refl))
    go (front ∷ second ∷ rest) = (λ e h. omega arith, λ h. refl)
