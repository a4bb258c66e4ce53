-- ===== src/LockFreeQueue/Sharing.antt =====
-- The queue with two consumers.
use ai_solo_coder_task_a.LockFreeQueue.{
  Action, Queue, act, at_consumer, idle, loaded, pop, run, try_pop,
}
use ai_solo_coder_task_a.LockFreeQueue.Calls.{pops, pops_take}
use ai_solo_coder_task_a.Outcome.{faulted, returned, thrown, ◌>>=◌}
use ai_solo_coder_task_a.Prelude.{
  List, [], arith, refl, some, sym, true, ℕ, ◌++◌, ◌∙◌, ◌∷◌, ◌≡◌, ◌≢◌,
}

module _ {T : Type 0} where
  run-append :
      (actions more : List (Action T)) (q : Queue T)
      → run (actions ++ more) q ≡ (run actions q >>= λ q'. run more q')
  unfolding run
  run-append [] more q = refl
  run-append (a ∷ actions) more q =
      elim (act a q)
        as (λ r.
          (r >>= λ q'. run (actions ++ more) q')
          ≡ ((r >>= λ q'. run actions q') >>= λ q'. run more q')) [
            | returned q' ↦ run-append actions more q'
            | thrown e ↦ refl
            | faulted ↦ refl
          ]

  -- Two consumers are not safe. In any queue whose first two nodes are alive and linked, with a value
  -- in the second: consumer `i` loads the head, consumer `j` then makes a whole call of `try_pop`, and
  -- the next step of `i` reads the node that `j` has deleted.
  pub run-two_consumers :
      (i j : ℕ) (q : Queue T) (n : ℕ) (v : T)
      → j ≢ i
      → q.consumers i ≡ idle
      → q.consumers j ≡ idle
      → q.alive q.head ≡ true
      → q.next q.head ≡ some n
      → q.value n ≡ some v
      → q.alive n ≡ true
      → run (pop i ∷ pops j ++ pop i ∷ []) q ≡ faulted
  unfolding run act try_pop
  run-two_consumers i j q n v d ei ej l f g m =
      let q1 = at_consumer i (loaded q.head) q in
      let (q', r, _, dead, _, others) = pops_take j q1 n v (ground (arith, d, ej)) l f g m in
      let stays : q'.consumers i ≡ loaded q.head = others i (λ e. d (sym e)) ∙ ground arith in
      rw (ei, run-append (pops j) (pop i ∷ []) q1, r, stays, dead) (ground arith)
