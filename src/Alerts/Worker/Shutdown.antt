-- ===== src/Alerts/Worker/Shutdown.antt =====
-- How the worker drains the queue, and how it ends after `stop`.
use ai_solo_coder_task_a.Alerts.Worker.{
  AlertEvent, Manager, Notice, Place, Settings, all_happen, asleep, falling, finished, happens,
  inner, notices_of, notify, started, stop, worker,
}
use ai_solo_coder_task_a.Alerts.Worker.Order.{manager, notices_of_all}
use ai_solo_coder_task_a.Common.{Alert}
use ai_solo_coder_task_a.Prelude.{
  Bool, List, [], ap, append-nil, append_assoc, false, refl, replicate, suc, sym, zero, ℕ, ◌++◌,
  ◌∙◌, ◌∷◌, ◌≡◌,
}

module _ (settings : Settings) where
  all_happen-append :
      (events more : List AlertEvent) (m : Manager)
      → all_happen settings (events ++ more) m
        ≡ all_happen settings more (all_happen settings events m)
  unfolding all_happen
  all_happen-append [] more m = refl
  all_happen-append (event ∷ events) more m =
      all_happen-append events more (happens settings event m)

  -- Steps of the worker alone: three for each alert.
  abbrev pub rounds : List Alert → List AlertEvent
  rounds [] = []
  rounds (alert ∷ queue) = worker ∷ worker ∷ worker ∷ rounds queue

  drained : Bool → List Alert → List Alert → List Alert → List Notice → Manager
  drained running queue enqueued taken notices = record {
    running = running;
    alert_queue = [];
    place = inner;
    enqueued = enqueued;
    taken = taken ++ queue;
    notices = notices ++ notices_of_all settings queue;
  }

  drains :
      (r : Bool) (queue e t : List Alert) (n : List Notice)
      → all_happen settings (rounds queue) (manager r queue inner e t n) ≡ drained r queue e t n
  unfolding all_happen happens drained
  drains r [] e t n = rw (append-nil t, append-nil n) refl
  drains r (alert ∷ queue) e t n =
      drains r queue e (t ++ alert ∷ []) (n ++ notices_of settings alert)
      ∙ rw
          (
            append_assoc t (alert ∷ []) queue,
            append_assoc n (notices_of settings alert) (notices_of_all settings queue),
          )
          refl

  -- From the inner loop, three steps of the worker for each alert in the queue take every alert, in
  -- order, send all its notices, and leave the queue empty.
  pub all_happen-rounds :
      (m : Manager)
      → m.place ≡ inner
      → all_happen settings (rounds m.alert_queue) m ≡ record m {
        alert_queue = [];
        taken = m.taken ++ m.alert_queue;
        notices = m.notices ++ notices_of_all settings m.alert_queue;
      }
  unfolding drained
  all_happen-rounds m e =
      let at_inner : m ≡ record m { place = inner } = ap (λ p. record m { place = p }) e in
      let after : Place → Manager = λ p. record m {
        alert_queue = [];
        place = p;
        taken = m.taken ++ m.alert_queue;
        notices = m.notices ++ notices_of_all settings m.alert_queue;
      } in
      ap (all_happen settings (rounds m.alert_queue)) at_inner
      ∙ drains m.running m.alert_queue m.enqueued m.taken m.notices
      ∙ sym (ap after e)

  wakes :
      (r : Bool) (queue e t : List Alert) (n : List Notice) (events : List AlertEvent)
      → all_happen settings
          (stop ∷ notify ∷ worker ∷ worker ∷ events)
          (manager r queue asleep e t n)
        ≡ all_happen settings events (manager false queue inner e t n)
  unfolding all_happen happens
  wakes r [] e t n events = refl
  wakes r (alert ∷ queue) e t n events = refl

  ends :
      (r : Bool) (queue e t : List Alert) (n : List Notice)
      → (p : Place) → p ≡ asleep
      → all_happen settings
          (stop ∷ notify ∷ worker ∷ worker ∷ (rounds queue ++ worker ∷ worker ∷ []))
          (manager r queue p e t n)
        ≡ record (drained false queue e t n) { place = finished }
  unfolding all_happen happens drained
  ends r queue e t n p f = rw f (
      wakes r queue e t n (rounds queue ++ worker ∷ worker ∷ [])
      ∙ all_happen-append (rounds queue) (worker ∷ worker ∷ []) (manager false queue inner e t n)
      ∙ ap (all_happen settings (worker ∷ worker ∷ [])) (drains false queue e t n))

  stays :
      (k : ℕ) (r : Bool) (queue e t : List Alert) (n : List Notice)
      → (all_happen settings (replicate k worker) (manager r queue asleep e t n)).place ≡ asleep
  unfolding all_happen happens
  stays zero r queue e t n = refl
  stays (suc k) r queue e t n = stays k r queue e t n

  falls :
      (k : ℕ) (r : Bool) (queue e t : List Alert) (n : List Notice) (p : Place)
      → p ≡ falling
      → (all_happen settings
          (stop ∷ notify ∷ worker ∷ replicate k worker)
          (manager r queue p e t n)).place
        ≡ asleep
  unfolding all_happen happens
  falls k r queue e t n p f = rw f (stays k false queue e t n)

  -- Where `stop` finds the worker asleep, its notification is enough: the worker wakes, takes every
  -- alert that is left, and finishes.
  pub stop_finishes :
      (m : Manager)
      → m.place ≡ asleep
      → let ended =
          all_happen settings
            (stop ∷ notify ∷ worker ∷ worker ∷ (rounds m.alert_queue ++ worker ∷ worker ∷ []))
            m in
        (ended.place ≡ finished)
        × (ended.alert_queue ≡ [])
        × (ended.taken ≡ m.taken ++ m.alert_queue)
  unfolding drained
  stop_finishes m e =
      let f = ends m.running m.alert_queue m.enqueued m.taken m.notices m.place e in
      (ap (λ x. x.place) f, ap (λ x. x.alert_queue) f, ap (λ x. x.taken) f)

  -- A wake-up can be lost. Whenever a run from the start has brought the worker to where it has found
  -- the queue empty and `running_` set, but does not sleep yet: a `stop` at this point, which takes no
  -- lock, notifies nobody, and the worker then sleeps for ever, however many steps it is given.
  pub stop_lost :
      (events : List AlertEvent) (n : ℕ)
      → (all_happen settings events started).place ≡ falling
      → (all_happen settings (events ++ stop ∷ notify ∷ worker ∷ replicate n worker) started).place
        ≡ asleep
  stop_lost events n e =
      let m = all_happen settings events started in
      rw (all_happen-append events (stop ∷ notify ∷ worker ∷ replicate n worker) started)
        (falls n m.running m.alert_queue m.enqueued m.taken m.notices m.place e)
