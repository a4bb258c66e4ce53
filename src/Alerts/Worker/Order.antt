-- ===== src/Alerts/Worker/Order.antt =====
-- Which alerts are taken, and what comes of them.
-- The alert that was taken and is still to be sent.
use ai_solo_coder_task_a.Alerts.Worker.{
  AlertEvent, Manager, Notice, Place, Settings, all_happen, asleep, delivering, enqueue, falling,
  finished, happens, holds_mutex, inner, locking, notices_of, notify, outer, relocking,
  spurious_wake, started, stop, testing, wake, woken, worker, worker_step,
}
use ai_solo_coder_task_a.Common.{Alert}
use ai_solo_coder_task_a.Prelude.{
  Bool, Bool-cases, List, [], ap, append-nil, append_assoc, false, if◌then◌else◌, inl, inr, refl,
  sym, true, ◌++◌, ◌∙◌, ◌∷◌, ◌≡◌,
}

abbrev pub in_hand : Place → List Alert
in_hand (delivering alert) = alert ∷ []
in_hand _ = []

-- The notices of the alerts taken, but for the one in hand.
abbrev pub notices_of_all : Settings → List Alert → List Notice
notices_of_all settings [] = []
notices_of_all settings (alert ∷ alerts) =
    notices_of settings alert ++ notices_of_all settings alerts

notices_of_all-append :
    (settings : Settings) (xs ys : List Alert)
    → notices_of_all settings (xs ++ ys) ≡ notices_of_all settings xs ++ notices_of_all settings ys
notices_of_all-append settings [] ys = refl
notices_of_all-append settings (alert ∷ xs) ys = rw (notices_of_all-append settings xs ys) (
    sym (
      append_assoc (notices_of settings alert) (notices_of_all settings xs)
        (notices_of_all settings ys)))

-- The queue is what was enqueued and not taken; the notices are those of what was taken and sent.
abbrev Ordered : Settings → Place → Manager → Type 0
Ordered settings place m =
    (m.taken ++ m.alert_queue ≡ m.enqueued)
    × (m.notices ++ notices_of_all settings (in_hand place) ≡ notices_of_all settings m.taken)

abbrev pub manager : Bool → List Alert → Place → List Alert → List Alert → List Notice → Manager
manager running alert_queue place enqueued taken notices = record {
  running = running;
  alert_queue = alert_queue;
  place = place;
  enqueued = enqueued;
  taken = taken;
  notices = notices;
}

in_hand-if :
    (b : Bool) (p q : Place) → in_hand p ≡ [] → in_hand q ≡ [] → in_hand (if b then p else q) ≡ []
in_hand-if true p q h k = h
in_hand-if false p q h k = k

module _ (settings : Settings) where
  worker_step-Ordered :
      (place : Place) (r : Bool) (q e t : List Alert) (n : List Notice)
      → Ordered settings place (manager r q place e t n)
      → Ordered settings
          (worker_step settings place (manager r q place e t n)).place
          (worker_step settings place (manager r q place e t n))
  unfolding worker_step
  worker_step-Ordered outer r q e t n (h, k) = (h, rw (in_hand-if r locking finished refl refl) k)
  worker_step-Ordered locking r q e t n o = o
  worker_step-Ordered testing r [] e t n (h, k) = (h, rw (in_hand-if r falling inner refl refl) k)
  worker_step-Ordered testing r (alert ∷ q) e t n o = o
  worker_step-Ordered falling r q e t n o = o
  worker_step-Ordered asleep r q e t n o = o
  worker_step-Ordered woken r q e t n o = o
  worker_step-Ordered inner r [] e t n o = o
  worker_step-Ordered inner r (alert ∷ q) e t n (h, k) = (
    append_assoc t (alert ∷ []) q ∙ h,
    rw (notices_of_all-append settings t (alert ∷ []), ← k)
        (ap (λ xs. xs ++ (notices_of settings alert ++ [])) (sym (append-nil n))),
  )
  worker_step-Ordered (delivering alert) r q e t n (h, k) =
      (h, append_assoc n (notices_of settings alert) [] ∙ k)
  worker_step-Ordered relocking r q e t n o = o
  worker_step-Ordered finished r q e t n o = o

  in_hand-wake : (place : Place) → in_hand (wake place) ≡ in_hand place
  in_hand-wake asleep = refl
  in_hand-wake outer = refl
  in_hand-wake locking = refl
  in_hand-wake testing = refl
  in_hand-wake falling = refl
  in_hand-wake woken = refl
  in_hand-wake inner = refl
  in_hand-wake (delivering alert) = refl
  in_hand-wake relocking = refl
  in_hand-wake finished = refl

  happens-Ordered :
      (event : AlertEvent) (m : Manager)
      → Ordered settings m.place m
      → Ordered settings (happens settings event m).place (happens settings event m)
  unfolding happens
  happens-Ordered (enqueue alert) m o = elim (Bool-cases (holds_mutex m.place)) [
    | inl held ↦ rw held o
    | inr free ↦ rw free (
      sym (append_assoc m.taken m.alert_queue (alert ∷ [])) ∙ ap (λ xs. xs ++ alert ∷ []) o.0,
      o.1,
    )
  ]
  happens-Ordered notify m (h, k) = (h, rw (in_hand-wake m.place) k)
  happens-Ordered stop m o = o
  happens-Ordered spurious_wake m (h, k) = (h, rw (in_hand-wake m.place) k)
  happens-Ordered worker m o =
      worker_step-Ordered m.place m.running m.alert_queue m.enqueued m.taken m.notices o

  all_happen-Ordered :
      (events : List AlertEvent) (m : Manager)
      → Ordered settings m.place m
      → Ordered settings (all_happen settings events m).place (all_happen settings events m)
  unfolding all_happen
  all_happen-Ordered [] m o = o
  all_happen-Ordered (event ∷ events) m o =
      all_happen-Ordered events (happens settings event m) (happens-Ordered event m o)

  -- In every interleaving of enqueuing, stopping, notifications, spurious wake-ups and steps of the
  -- worker, no alert is lost, taken twice or overtaken: the alerts taken, followed by those still
  -- queued, are those enqueued, in their order. The notices sent are all those of the alerts taken, one
  -- alert after the other, but for the alert in hand.
  pub all_happen_order :
      (events : List AlertEvent)
      → let m = all_happen settings events started in
        (m.taken ++ m.alert_queue ≡ m.enqueued)
        × (m.notices ++ notices_of_all settings (in_hand m.place) ≡ notices_of_all settings m.taken)
  all_happen_order events = all_happen-Ordered events started (refl, refl)
