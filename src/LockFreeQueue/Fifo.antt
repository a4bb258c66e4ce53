-- ===== src/LockFreeQueue/Fifo.antt =====
-- The queue with one consumer as its clients see it: a FIFO.
use mathlib.Core.Path.{subst}
use ai_solo_coder_task_a.LockFreeQueue.{Action, Consumer, Queue, idle, make_queue, run}
use ai_solo_coder_task_a.LockFreeQueue.Calls.{pops, pops_take}
use ai_solo_coder_task_a.LockFreeQueue.Invariant.{Inv, make_queue-Inv}
use ai_solo_coder_task_a.LockFreeQueue.Runs.{IsSingle, run-Goes}
use ai_solo_coder_task_a.Outcome.{returned}
use ai_solo_coder_task_a.Prelude.{
  All, List, Option-cases, [], arith, get_elem?, get_elem?_exists, inl, inr, length, length-take,
  none, some, suc, sym, take, ℕ, ◌++◌, ◌<◌, ◌∙◌, ◌∷◌, ◌≡◌, ◌≤◌,
}

module _ {T : Type 0} where
  -- For every sequence of atomic steps of any producers and of the one consumer, from a new queue: the
  -- sequence runs to its end, so that no step touches a deleted node, and what has been popped is the
  -- first part of what has been pushed, in the order of the exchanges of the tail.
  pub run-fifo :
      (actions : List (Action T))
      → All IsSingle actions
      → (q : Queue T) × (n : ℕ) × (run actions make_queue ≡ returned q)
        × (n ≤ length q.pushed)
        × (q.popped ≡ take n q.pushed)
  run-fifo actions s =
      let (c, low, q, e, i) = run-Goes actions idle 0 make_queue s make_queue-Inv in
      (q, low, e, omega (arith, i.below, i.ordered, i.counted), i.order)

  reached :
      (actions : List (Action T)) (q : Queue T)
      → All IsSingle actions
      → run actions make_queue ≡ returned q
      → (c : Consumer) × (low : ℕ) × Inv c low q
  reached actions q s e =
      let (c, low, q', e', i) = run-Goes actions idle 0 make_queue s make_queue-Inv in
      let same : q' ≡ q = cc in (c, low, subst (λ r. Inv c low r) same i)

  popped-length : (low : ℕ) (c : Consumer) (q : Queue T) → Inv c low q → length q.popped ≡ low
  popped-length low c q i =
      rw i.order (ground (arith, length-take low q.pushed, i.below, i.ordered, i.counted))

  linked_head :
      (low : ℕ) (q : Queue T)
      → Inv idle low q
      → q.pending q.head ≡ none
      → q.head < q.tail
      → q.next q.head ≡ some (suc q.head)
  linked_head low q i p lt = elim (Option-cases (q.next q.head)) [
    | inl e ↦ absurd (ground (arith, i.gaps q.head lt e, p))
    | inr (n, e) ↦ ground (arith, i.links q.head n e)
  ]

  -- In every such run, when the consumer is not inside a call, some value is still to be popped and the
  -- producer of the first of these has stored its link, one call of `try_pop` that is not interrupted
  -- takes exactly that value, whatever links other producers have yet to store.
  pub try_pop_next :
      (actions : List (Action T)) (q : Queue T)
      → All IsSingle actions
      → run actions make_queue ≡ returned q
      → q.consumers 0 ≡ idle
      → length q.popped < length q.pushed
      → q.pending q.head ≡ none
      → (v : T) × (q' : Queue T) × (get_elem? q.pushed (length q.popped) ≡ some v)
        × (run (pops 0) q ≡ returned q')
        × (q'.popped ≡ q.popped ++ v ∷ [])
        × (q'.consumers 0 ≡ idle)
  try_pop_next actions q s e h lt p =
      let (c, low, i) = reached actions q s e in
      let i' : Inv idle low q = subst (λ d. Inv d low q) (sym i.here ∙ h) i in
      let l = popped-length low idle q i' in
      let (v, g) = get_elem?_exists q.pushed (length q.popped) lt in
      let linked : q.next q.head ≡ some (suc q.head) =
        linked_head low q i' p (omega (arith, i'.first, l, lt, i'.counted)) in
      let (q', r, f, _, d, _) =
        pops_take 0 q (suc q.head) v h (i'.living q.head (omega (arith, i'.first)) i'.ordered)
          linked (ground (arith, i'.values q.head, i'.first, l, lt, i'.counted, g))
          (i'.living (suc q.head) (omega (arith, i'.first))
            (omega (arith, i'.first, l, lt, i'.counted))) in
      (v, q', g, r, f, d)
