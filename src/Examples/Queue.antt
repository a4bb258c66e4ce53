-- ===== src/Examples/Queue.antt =====
-- Runs of the lock-free queue.
-- Two producers whose links are stored in the other order, and a consumer.
use ai_solo_coder_task_a.LockFreeQueue.{
  Action, Queue, act, exchange, exchange_tail, idle, link, make_queue, pop, run, store_link,
  try_pop,
}
use ai_solo_coder_task_a.LockFreeQueue.Calls.{pops}
use ai_solo_coder_task_a.LockFreeQueue.Fifo.{run-fifo, try_pop_next}
use ai_solo_coder_task_a.LockFreeQueue.Sharing.{run-two_consumers}
use ai_solo_coder_task_a.Outcome.{faulted, returned, thrown}
use ai_solo_coder_task_a.Prelude.{
  List, String, [], arith, get_elem?, length, refl, some, take, ℕ, ◌++◌, ◌∷◌, ◌≡◌, ◌≤◌,
}

abbrev two_pushes : List (Action String)
two_pushes = exchange "a" ∷ exchange "b" ∷ link 1 ∷ pop 0 ∷ pop 0 ∷ link 0 ∷ []

run-fifo_example :
    (q : Queue String) × (n : ℕ) × (run two_pushes make_queue ≡ returned q)
    × (n ≤ length q.pushed)
    × (q.popped ≡ take n q.pushed)
run-fifo_example = run-fifo two_pushes (tt, (tt, (tt, (refl, (refl, (tt, tt))))))

abbrev after_pushes : Queue String
after_pushes = elim (run two_pushes make_queue) [
  | returned q ↦ q
  | thrown e ↦ make_queue
  | faulted ↦ make_queue
]

try_pop_next_example :
    (v : String) × (q' : Queue String) × (get_elem? after_pushes.pushed (length after_pushes.popped)
      ≡ some v)
    × (run (pops 0) after_pushes ≡ returned q')
    × (q'.popped ≡ after_pushes.popped ++ v ∷ [])
    × (q'.consumers 0 ≡ idle)
unfolding run make_queue act store_link try_pop exchange_tail
try_pop_next_example =
    try_pop_next two_pushes after_pushes (tt, (tt, (tt, (refl, (refl, (tt, tt)))))) refl refl
      (omega arith) refl

run-two_consumers_example : run (pop 0 ∷ pops 1 ++ pop 0 ∷ []) after_pushes ≡ faulted
unfolding run make_queue act store_link try_pop exchange_tail
run-two_consumers_example =
    run-two_consumers 0 1 after_pushes 1 "a" (λ e. omega arith) refl refl refl refl refl refl
